-- ===== src/Sender/Normalizer/Consistent.antt =====
-- The builder keeps the payload and its availability in step.
use Prim.Native.String.{String}
use ot_security.Common.{
  ◌≡◌, refl, sym, ◌∙◌, Bool, true, false, Option, none, some, List, [], ◌∷◌, if_pos, if_neg, ◌≢◌,
  Option-cases, inl, inr,
}
use ot_security.Common.Dict.{
  Dict, lookup, insert, erase, NodupKeys, insert-NodupKeys, lookup-insert, lookup-erase,
}
use ot_security.Common.Strings.{string_eq, string_dec, listed}
use ot_security.Sender.Normalizer.Payload.{
  Value, null, number, duration, flag, words, word_list, Builder, empty, Seen, absent, wrong, found,
  put, unavailable, hide, field_of,
}

unfoldable pub is_null : {F : Type 0} → Value F → Bool
is_null null = true
is_null (number _) = false
is_null (duration _) = false
is_null (flag _) = false
is_null (words _) = false
is_null (word_list _) = false

-- A null has an availability, a value has none, and nothing else has one.
abbrev pub Agrees : {F : Type 0} → Option (Value F) → Option String → Type 0
Agrees none none = Unit
Agrees none (some _) = ⊥
Agrees (some v) none = is_null v ≡ false
Agrees (some v) (some _) = is_null v ≡ true

abbrev pub Reasoned : Option String → Option String → Type 0
Reasoned none none = Unit
Reasoned none (some _) = ⊥
Reasoned (some _) _ = Unit

-- The builder is in step, and has written no field but those of the list.
pub record IsBuilt {F : Type 0} (fs : List String) (b : Builder F) : Type 0 where
  pub agrees : (k : String) → Agrees (lookup k b.payload) (lookup k b.availability)
  pub reasoned : (k : String) → Reasoned (lookup k b.availability) (lookup k b.reasons)
  pub unwritten : (k : String) → listed fs k ≡ false → lookup k b.payload ≡ none
  pub distinct : NodupKeys b.payload

pub empty-IsBuilt : {F : Type 0} → IsBuilt {F = F} [] empty
unfolding lookup
empty-IsBuilt = record {
  agrees = λ k. tt;
  reasoned = λ k. tt;
  unwritten = λ k h. refl;
  distinct = tt;
}

-- A name that a longer list does not hold is another one, and the list itself does not hold it.
listed_later :
    (fs : List String) (f k : String) → listed (f ∷ fs) k ≡ false → (k ≢ f) × (listed fs k ≡ false)
unfolding listed
listed_later fs f k h = elim (string_dec k f) [
  | yes e ↦ absurd (true_false (sym (if_pos (string_dec k f) e _ _) ∙ h))
  | no n ↦ (n, sym (if_neg (string_dec k f) n _ _) ∙ h)
]
  where
    true_false : true ≡ false → ⊥
    true_false e = absurd (cc)

module _ {V : Type 0} (k f : String) (v : V) (d : Dict String V) where
  lookup_hit : k ≡ f → lookup k (insert f v d) ≡ some v
  lookup_hit e = lookup-insert k f v d ∙ if_pos (string_dec k f) e _ _

  lookup_miss : k ≢ f → lookup k (insert f v d) ≡ lookup k d
  lookup_miss n = lookup-insert k f v d ∙ if_neg (string_dec k f) n _ _

module _ {V : Type 0} (k f : String) (d : Dict String V) where
  erased_miss : k ≢ f → lookup k (erase f d) ≡ lookup k d
  erased_miss n = lookup-erase k f d ∙ if_neg (string_dec k f) n _ _

not_available :
    {F : Type 0} (o : Option (Value F)) (a : Option String) → Agrees o a → o ≡ none → a ≡ none
not_available none none h e = refl
not_available none (some _) h e = absurd h
not_available (some v) a h e = absurd (cc)

not-Reasoned : (a r : Option String) → Reasoned a r → a ≡ none → r ≡ none
not-Reasoned none none h e = refl
not-Reasoned none (some _) h e = absurd h
not-Reasoned (some _) r h e = absurd (cc)

module _ {F : Type 0} (fs : List String) (f : String) (b : Builder F) (built : IsBuilt fs b) where
  pub put-IsBuilt :
      (v : Value F) → is_null v ≡ false → listed fs f ≡ false → IsBuilt (f ∷ fs) (put f v b)
  unfolding put
  put-IsBuilt v some_value new =
      let unmarked : lookup f b.availability ≡ none =
        not_available (lookup f b.payload) (lookup f b.availability) (built.agrees f)
          (built.unwritten f new) in
      record {
        agrees = λ k. elim (string_dec k f) [
          | yes e ↦ rw (lookup_hit k f v b.payload e, e, unmarked) some_value
          | no n ↦ rw (lookup_miss k f v b.payload n) (built.agrees k)
        ];
        reasoned = built.reasoned;
        unwritten = λ k h.
            let (n, old) = listed_later fs f k h in
            lookup_miss k f v b.payload n ∙ built.unwritten k old;
        distinct = insert-NodupKeys f v b.payload built.distinct;
      }

  pub unavailable-IsBuilt :
      (state reason : String) → IsBuilt (f ∷ fs) (unavailable f state reason b)
  unfolding unavailable is_null
  unavailable-IsBuilt state reason = record {
    agrees = λ k. elim (string_dec k f) [
      | yes e ↦ rw (lookup_hit k f null b.payload e, lookup_hit k f state b.availability e) refl
      | no n ↦
          rw (lookup_miss k f null b.payload n, lookup_miss k f state b.availability n)
            (built.agrees k)
    ];
    reasoned = λ k. elim (string_dec k f) [
      | yes e ↦ rw (lookup_hit k f state b.availability e) tt
      | no n ↦
          rw (lookup_miss k f state b.availability n, lookup_miss k f reason b.reasons n)
            (built.reasoned k)
    ];
    unwritten = λ k h.
        let (n, old) = listed_later fs f k h in
        lookup_miss k f null b.payload n ∙ built.unwritten k old;
    distinct = insert-NodupKeys f null b.payload built.distinct;
  }

  pub hide-IsBuilt : IsBuilt (f ∷ fs) (hide f b)
  unfolding hide unavailable is_null
  hide-IsBuilt = record {
    agrees = λ k. elim (string_dec k f) [
      | yes e ↦
          rw (lookup_hit k f null b.payload e, lookup_hit k f "UNKNOWN" (erase f b.availability) e)
            refl
      | no n ↦
          rw
            (
              lookup_miss k f null b.payload n,
              lookup_miss k f "UNKNOWN" (erase f b.availability) n,
              erased_miss k f b.availability n,
            )
            (built.agrees k)
    ];
    reasoned = λ k. elim (string_dec k f) [
      | yes e ↦ rw (lookup_hit k f "UNKNOWN" (erase f b.availability) e) tt
      | no n ↦
          rw
            (
              lookup_miss k f "UNKNOWN" (erase f b.availability) n,
              erased_miss k f b.availability n,
              lookup_miss k f "direction_not_observed" (erase f b.reasons) n,
              erased_miss k f b.reasons n,
            )
            (built.reasoned k)
    ];
    unwritten = λ k h.
        let (n, old) = listed_later fs f k h in
        lookup_miss k f null b.payload n ∙ built.unwritten k old;
    distinct = insert-NodupKeys f null b.payload built.distinct;
  }

  -- A field that the contract accepts is one with a value.
  pub field_of-IsBuilt :
      {A : Type 0} (seen : Seen A) (accept : A → Option (Value F)) (state reason : String)
      → ((a : A) (v : Value F) → accept a ≡ some v → is_null v ≡ false)
      → listed fs f ≡ false
      → IsBuilt (f ∷ fs) (field_of seen accept f state reason b)
  unfolding field_of
  field_of-IsBuilt absent accept state reason h new = unavailable-IsBuilt state reason
  field_of-IsBuilt wrong accept state reason h new =
      unavailable-IsBuilt "UNKNOWN" "value_out_of_contract"
  field_of-IsBuilt (found a) accept state reason h new = elim (Option-cases (accept a)) [
    | inl e ↦ rw (e, field_of) (unavailable-IsBuilt "UNKNOWN" "value_out_of_contract")
    | inr (v, e) ↦ rw (e, field_of) (put-IsBuilt v (h a v e) new)
  ]

-- A field that is known already adds nothing to the list.
listed_known :
    (fs : List String) (f k : String)
    → listed fs f ≡ true
    → listed fs k ≡ false
    → listed (f ∷ fs) k ≡ false
unfolding listed
listed_known fs f k h out = if_neg (string_dec k f) (λ e. differ (rw (← e) at h) out) _ _ ∙ out
  where
    differ : listed fs k ≡ true → listed fs k ≡ false → ⊥
    differ a b = absurd (cc)

pub known-IsBuilt :
    {F : Type 0} (fs : List String) (f : String) (b : Builder F)
    → listed fs f ≡ true
    → IsBuilt (f ∷ fs) b
    → IsBuilt fs b
known-IsBuilt fs f b h built = record {
  agrees = built.agrees;
  reasoned = built.reasoned;
  unwritten = λ k out. built.unwritten k (listed_known fs f k h out);
  distinct = built.distinct;
}
