-- ===== src/Common/Dict.antt =====
-- Python's `dict` and `OrderedDict`: the entries in insertion order, over keys with an equality.
use Prim.Native.Nat.{ℕ, suc, ◌≤◌}
use mathlib.Core.Path.{◌≡◌, refl, sym, subst, ◌∙◌}
use mathlib.Core.Logic.{ite, if_pos, if_neg}
use mathlib.Core.Option.{Option, none, some, some-injective}
use mathlib.Core.List.{List, [], ◌∷◌, ◌++◌}
use native.Mathlib.Decide.{ℕ_discrete}
use native.Mathlib.Omega.{arith}
use ot_security.Common.Lists.{length, length-append}

-- A `str` is the list of its code points.
abbrev pub Text : Type 0
Text = List ℕ

pub record Eq {ℓ} (K : Type ℓ) : Type ℓ where
  pub dec : Discrete K

unfoldable pub text_dec : Discrete (List ℕ)
text_dec = hlevel ℕ_discrete

instance abbrev pub text_eq : Eq (List ℕ)
text_eq = record { dec = text_dec }

abbrev pub Dict {ℓ} : Type ℓ → Type ℓ → Type ℓ
Dict K V = List (K × V)

module _ {ℓ} {K V : Type ℓ} ⦃e : Eq K⦄ where
  -- `d.get(k)`
  unfoldable pub lookup : K → Dict K V → Option V
  lookup k [] = none
  lookup k ((j, v) ∷ d) = ite (e.dec k j) (some v) (lookup k d)

  -- `d[k] = v`: an existing key keeps its place, a new one goes to the end.
  unfoldable pub insert : K → V → Dict K V → Dict K V
  insert k v [] = (k, v) ∷ []
  insert k v ((j, w) ∷ d) = ite (e.dec k j) ((j, v) ∷ d) ((j, w) ∷ insert k v d)

  -- `d.pop(k, None)` and `del d[k]`. Every entry of the key goes; a real dict has at most one.
  unfoldable pub erase : K → Dict K V → Dict K V
  erase k [] = []
  erase k ((j, w) ∷ d) = let rest = erase k d in ite (e.dec k j) rest ((j, w) ∷ rest)

  -- `d.move_to_end(k)`, for the value v that k has
  unfoldable pub move_to_end : K → V → Dict K V → Dict K V
  move_to_end k v d = erase k d ++ ((k, v) ∷ [])

  -- No key twice.
  abbrev pub NodupKeys : Dict K V → Type ℓ
  NodupKeys [] = Unit
  NodupKeys ((k, _) ∷ d) = (lookup k d ≡ none) × NodupKeys d

  pub lookup-insert :
      (j k : K) (v : V) (d : Dict K V)
      → lookup j (insert k v d) ≡ ite (e.dec j k) (some v) (lookup j d)
  unfolding lookup insert
  lookup-insert j k v [] = refl
  lookup-insert j k v (_ ∷ d) = ground (arith, lookup-insert j k v d)

  pub lookup-erase :
      (j k : K) (d : Dict K V) → lookup j (erase k d) ≡ ite (e.dec j k) none (lookup j d)
  unfolding lookup erase
  lookup-erase j k [] = ground arith
  lookup-erase j k (_ ∷ d) = ground (arith, lookup-erase j k d)

  pub lookup-append_new :
      (j k : K) (v : V) (d : Dict K V)
      → lookup k d ≡ none
      → lookup j (d ++ ((k, v) ∷ [])) ≡ ite (e.dec j k) (some v) (lookup j d)
  unfolding lookup
  lookup-append_new j k v [] h = refl
  lookup-append_new j k v (_ ∷ d) h = ground (arith, lookup-append_new j k v d)

  lookup-erase_self : (k : K) (d : Dict K V) → lookup k (erase k d) ≡ none
  lookup-erase_self k d = ground (arith, lookup-erase k k d)

  pub lookup-move_to_end :
      (j k : K) (v : V) (d : Dict K V)
      → lookup j (move_to_end k v d) ≡ ite (e.dec j k) (some v) (lookup j d)
  unfolding move_to_end
  lookup-move_to_end j k v d =
      ground (arith, lookup-append_new j k v (erase k d), lookup-erase_self k d, lookup-erase j k d)

  pub length-insert_new :
      (k : K) (v : V) (d : Dict K V) → lookup k d ≡ none → length (insert k v d) ≡ suc (length d)
  unfolding lookup insert
  length-insert_new k v [] h = refl
  length-insert_new k v (_ ∷ d) h = ground (arith, length-insert_new k v d)

  pub length-insert_old :
      (k : K) (v w : V) (d : Dict K V) → lookup k d ≡ some w → length (insert k v d) ≡ length d
  unfolding lookup insert
  length-insert_old k v w [] h = absurd (cc)
  length-insert_old k v w (_ ∷ d) h = ground (arith, length-insert_old k v w d)

  pub erase_absent : (k : K) (d : Dict K V) → lookup k d ≡ none → erase k d ≡ d
  unfolding lookup erase
  erase_absent k [] h = refl
  erase_absent k (_ ∷ d) h = ground (arith, erase_absent k d)

  pub length-erase :
      (k : K) (w : V) (d : Dict K V)
      → NodupKeys d
      → lookup k d ≡ some w
      → suc (length (erase k d)) ≡ length d
  unfolding lookup erase
  length-erase k w [] n h = absurd (cc)
  length-erase k w ((j, x) ∷ d) n h = ground (arith, length-erase k w d n.1, erase_absent k d)

  pub length-erase-le : (k : K) (d : Dict K V) → length (erase k d) ≤ length d
  unfolding erase
  length-erase-le k [] = omega arith
  length-erase-le k (_ ∷ d) = ground (arith, length-erase-le k d)

  pub insert-NodupKeys : (k : K) (v : V) (d : Dict K V) → NodupKeys d → NodupKeys (insert k v d)
  unfolding insert lookup
  insert-NodupKeys k v [] n = (refl, tt)
  insert-NodupKeys k v ((j, _) ∷ d) (fresh, n) =
      ground (arith, insert-NodupKeys k v d n, lookup-insert j k v d)

  pub erase-NodupKeys : (k : K) (d : Dict K V) → NodupKeys d → NodupKeys (erase k d)
  unfolding erase
  erase-NodupKeys k [] n = tt
  erase-NodupKeys k ((j, _) ∷ d) (fresh, n) =
      ground (arith, erase-NodupKeys k d n, lookup-erase j k d)

  pub append_new-NodupKeys :
      (k : K) (v : V) (d : Dict K V)
      → lookup k d ≡ none
      → NodupKeys d
      → NodupKeys (d ++ ((k, v) ∷ []))
  unfolding lookup
  append_new-NodupKeys k v [] h n = (refl, tt)
  append_new-NodupKeys k v ((j, _) ∷ d) h (fresh, n) =
      ground (arith, append_new-NodupKeys k v d, lookup-append_new j k v d)

  pub move_to_end-NodupKeys :
      (k : K) (v : V) (d : Dict K V) → NodupKeys d → NodupKeys (move_to_end k v d)
  unfolding move_to_end
  move_to_end-NodupKeys k v d n =
      append_new-NodupKeys k v (erase k d) (lookup-erase_self k d) (erase-NodupKeys k d n)

  pub length-move_to_end :
      (k : K) (v w : V) (d : Dict K V)
      → NodupKeys d
      → lookup k d ≡ some w
      → length (move_to_end k v d) ≡ length d
  unfolding move_to_end
  length-move_to_end k v w d n h =
      omega (arith, length-append (erase k d) ((k, v) ∷ []), length-erase k w d n h)

  pub found_in_append :
      (d : Dict K V) (k : K) (v : V) (rest : Dict K V) → lookup k (d ++ ((k, v) ∷ rest)) ≡ none → ⊥
  unfolding lookup
  found_in_append [] k v rest h = ground arith
  found_in_append (_ ∷ d) k v rest h = ground (arith, found_in_append d k v rest)

  -- Before its place in a dict a key is absent.
  pub absent_before :
      (d : Dict K V) (k : K) (v : V) (rest : Dict K V)
      → NodupKeys (d ++ ((k, v) ∷ rest))
      → lookup k d ≡ none
  unfolding lookup
  absent_before [] k v rest n = refl
  absent_before ((j, w) ∷ d) k v rest n = elim (e.dec k j) [
    | yes same ↦ absurd (
        found_in_append d k v rest
          (subst (λ x. lookup x (d ++ ((k, v) ∷ rest)) ≡ none) (sym same) n.0))
    | no differ ↦ ground (arith, absent_before d k v rest n.1)
  ]

  pub insert_new :
      (k : K) (v : V) (d : Dict K V) → lookup k d ≡ none → insert k v d ≡ d ++ ((k, v) ∷ [])
  unfolding insert lookup
  insert_new k v [] h = refl
  insert_new k v (_ ∷ d) h = ground (arith, insert_new k v d)

  -- Every value of the dict satisfies P.
  abbrev pub AllValues : (V → Type ℓ) → Dict K V → Type ℓ
  AllValues P [] = Unit
  AllValues P ((_, v) ∷ d) = P v × AllValues P d

  pub lookup-AllValues :
      (P : V → Type ℓ) (k : K) (v : V) (d : Dict K V) → AllValues P d → lookup k d ≡ some v → P v
  unfolding lookup
  lookup-AllValues P k v [] a h = absurd (cc)
  lookup-AllValues P k v ((j, w) ∷ d) (p, a) h = elim (e.dec k j) [
    | yes same ↦
        let e' : w ≡ v = some-injective w v (sym (if_pos (e.dec k j) same _ _) ∙ h) in subst P e' p
    | no differ ↦ lookup-AllValues P k v d a (sym (if_neg (e.dec k j) differ _ _) ∙ h)
  ]

  pub insert-AllValues :
      (P : V → Type ℓ) (k : K) (v : V) (d : Dict K V)
      → P v
      → AllValues P d
      → AllValues P (insert k v d)
  unfolding insert
  insert-AllValues P k v [] p a = (p, tt)
  insert-AllValues P k v ((j, w) ∷ d) p (q, a) = elim (e.dec k j) [
    | yes same ↦ rw (if_pos (e.dec k j) same) (p, a)
    | no differ ↦ rw (if_neg (e.dec k j) differ) (q, insert-AllValues P k v d p a)
  ]

  pub erase-AllValues :
      (P : V → Type ℓ) (k : K) (d : Dict K V) → AllValues P d → AllValues P (erase k d)
  unfolding erase
  erase-AllValues P k [] a = tt
  erase-AllValues P k ((j, w) ∷ d) (q, a) = elim (e.dec k j) [
    | yes same ↦ rw (if_pos (e.dec k j) same) (erase-AllValues P k d a)
    | no differ ↦ rw (if_neg (e.dec k j) differ) (q, erase-AllValues P k d a)
  ]

  pub length-insert-le : (k : K) (v : V) (d : Dict K V) → length (insert k v d) ≤ suc (length d)
  unfolding insert
  length-insert-le k v [] = omega arith
  length-insert-le k v (_ ∷ d) = ground (arith, length-insert-le k v d)

  pub lookup-insert_self : (k : K) (v : V) (d : Dict K V) → lookup k (insert k v d) ≡ some v
  lookup-insert_self k v d = lookup-insert k k v d ∙ if_pos (e.dec k k) refl _ _

  pub found_inserted : (k : K) (v w : V) (d : Dict K V) → lookup k (insert k v d) ≡ some w → v ≡ w
  found_inserted k v w d h = some-injective v w (sym (lookup-insert_self k v d) ∙ h)

  pub found_erased : (k : K) (w : V) (d : Dict K V) → lookup k (erase k d) ≡ some w → ⊥
  found_erased k w d h = ground (arith, lookup-erase_self k d)
