-- ===== src/Detect/Scan/Counts.antt =====
-- The tallies of flink/sih_detect/scan.py against the counts of the pairs by a key of theirs.
use ot_security.Common.{
  ℕ, zero, suc, ◌+◌, ◌-◌, ◌≡◌, refl, sym, ◌∙◌, ap, ◌==◌, Bool, true, false, Option, none, some, [],
  ◌∷◌, length, ite, if_pos, if◌then◌else◌, arith,
}
use mathlib.Core.Option.{none-ne-some}
use ot_security.Common.Dict.{
  Text, text_dec, text_eq, Dict, lookup, insert, erase, NodupKeys, lookup-insert, lookup-erase,
  length-insert_new, length-insert_old, length-erase, insert-NodupKeys, erase-NodupKeys,
  erase_absent,
}
use ot_security.Detect.Scan.{Tally, or_zero, or_one, add, remove}

-- The number of pairs with the key k
unfoldable pub count_by : (Text → Text) → Text → Dict Text ℕ → ℕ
count_by g k [] = 0
count_by g k ((p, _) ∷ d) = let rest = count_by g k d in ite (text_dec k (g p)) (suc rest) rest

-- A count of zero has no key.
unfoldable pub positive : ℕ → Option ℕ
positive zero = none
positive (suc n) = some (suc n)

pub record IsTally (g : Text → Text) (pairs : Dict Text ℕ) (t : Tally) : Type 0 where
  pub nodup : NodupKeys t.counts
  pub counted : (k : Text) → lookup k t.counts ≡ positive (count_by g k pairs)
  pub size : t.size ≡ length t.counts

pub count_by-insert_new :
    (g : Text → Text) (k p : Text) (v : ℕ) (d : Dict Text ℕ)
    → lookup p d ≡ none
    → count_by g k (insert p v d) ≡ ite (text_dec k (g p)) (suc (count_by g k d)) (count_by g k d)
unfolding count_by lookup insert
count_by-insert_new g k p v [] h = refl
count_by-insert_new g k p v (_ ∷ d) h = ground (arith, count_by-insert_new g k p v d)

pub count_by-insert_old :
    (g : Text → Text) (k p : Text) (v w : ℕ) (d : Dict Text ℕ)
    → lookup p d ≡ some w
    → count_by g k (insert p v d) ≡ count_by g k d
unfolding count_by lookup insert
count_by-insert_old g k p v w [] h = absurd (none-ne-some w h)
count_by-insert_old g k p v w (_ ∷ d) h = ground (arith, count_by-insert_old g k p v w d)

pub count_by-erase :
    (g : Text → Text) (k p : Text) (w : ℕ) (d : Dict Text ℕ)
    → NodupKeys d
    → lookup p d ≡ some w
    → count_by g k d
      ≡ ite (text_dec k (g p)) (suc (count_by g k (erase p d))) (count_by g k (erase p d))
unfolding count_by lookup erase
count_by-erase g k p w [] n h = absurd (none-ne-some w h)
count_by-erase g k p w (_ ∷ d) n h = ground (arith, count_by-erase g k p w d n.1, erase_absent p d)

-- A pair that is put again changes no count.
pub put-IsTally :
    (g : Text → Text) (p : Text) (v w : ℕ) (d : Dict Text ℕ) (t : Tally)
    → lookup p d ≡ some w
    → IsTally g d t
    → IsTally g (insert p v d) t
put-IsTally g p v w d t h i = record {
  nodup = i.nodup;
  counted = λ k. i.counted k ∙ ap positive (sym (count_by-insert_old g k p v w d h));
  size = i.size;
}

or_zero-positive : (n : ℕ) → or_zero (positive n) ≡ n
unfolding or_zero positive
or_zero-positive zero = refl
or_zero-positive (suc n) = refl

or_one-positive : (n : ℕ) → or_one (positive (suc n)) ≡ suc n
unfolding or_one positive
or_one-positive n = ground arith

pub add-IsTally :
    (g : Text → Text) (p : Text) (v : ℕ) (d : Dict Text ℕ) (t : Tally)
    → lookup p d ≡ none
    → IsTally g d t
    → IsTally g (insert p v d) (add (g p) t)
unfolding add positive
add-IsTally g p v d t h i = record {
  nodup = insert-NodupKeys (g p) (c + 1) t.counts i.nodup;
  counted = λ k.
      lookup-insert k (g p) (c + 1) t.counts
      ∙ counted k (text_dec k (g p))
      ∙ ap positive (sym (count_by-insert_new g k p v d h));
  size = sized (lookup (g p) t.counts) refl;
}
  where
    c : ℕ
    c = or_zero (lookup (g p) t.counts)

    counted :
        (k : Text) (e : Dec (k ≡ g p))
        → ite e (some (c + 1)) (lookup k t.counts)
          ≡ positive (ite e (suc (count_by g k d)) (count_by g k d))
    counted k (yes e) = ap some (
        ap (λ x. x + 1) (ap or_zero (i.counted (g p)) ∙ or_zero-positive (count_by g (g p) d))
        ∙ more (count_by g (g p) d)
        ∙ ap (λ x. suc (count_by g x d)) (sym e))
      where
        more : (n : ℕ) → n + 1 ≡ suc n
        more n = omega arith
    counted k (no n) = i.counted k

    sized :
        (o : Option ℕ)
        → lookup (g p) t.counts ≡ o
        → elim o as (λ _. ℕ) [ none ↦ t.size + 1 | some _ ↦ t.size ]
          ≡ length (insert (g p) (c + 1) t.counts)
    sized none e =
        let l = length-insert_new (g p) (c + 1) t.counts e in let m = i.size in omega arith
    sized (some w) e = i.size ∙ sym (length-insert_old (g p) (c + 1) w t.counts e)

is_zero : (c : ℕ) → (c == 0) ≡ true → c ≡ 0
is_zero c e = ground arith

positive-some : (c : ℕ) → (c == 0) ≡ false → positive c ≡ some c
unfolding positive
positive-some zero e = absurd (is_not (sym e))
  where
    is_not : ¬ (false ≡ (0 == 0))
    is_not h = ground arith
positive-some (suc c) e = refl

pub remove-IsTally :
    (g : Text → Text) (p : Text) (w : ℕ) (d : Dict Text ℕ) (t : Tally)
    → NodupKeys d
    → lookup p d ≡ some w
    → IsTally g d t
    → IsTally g (erase p d) (remove (g p) t)
unfolding remove positive
remove-IsTally g p w d t n h i =
    go (or_one (lookup (g p) t.counts) - 1) less (or_one (lookup (g p) t.counts) - 1 == 0) refl
  where
    left : Text → ℕ
    left k = count_by g k (erase p d)

    before : (k : Text) → count_by g k d ≡ ite (text_dec k (g p)) (suc (left k)) (left k)
    before k = count_by-erase g k p w d n h

    found : lookup (g p) t.counts ≡ some (suc (left (g p)))
    found = i.counted (g p) ∙ ap positive (before (g p) ∙ if_pos (text_dec (g p) (g p)) refl _ _)

    less : or_one (lookup (g p) t.counts) - 1 ≡ left (g p)
    less = ap (λ x. x - 1) (ap or_one found ∙ or_one-positive (left (g p))) ∙ pred (left (g p))
      where
        pred : (m : ℕ) → suc m - 1 ≡ m
        pred m = omega arith

    counted :
        (m : ℕ)
        → m ≡ left (g p)
        → (k : Text) (e : Dec (k ≡ g p)) → count_by g k d ≡ ite e (suc (left k)) (left k)
        → ite e (positive m) (lookup k t.counts) ≡ positive (left k)
    counted m q k (yes e) b = ap positive (q ∙ ap left (sym e))
    counted m q k (no e) b = i.counted k ∙ ap positive b

    go :
        (c : ℕ)
        → c ≡ left (g p)
        → (b : Bool) → (c == 0) ≡ b
        → IsTally g (erase p d) (
            if b
            then record { counts = erase (g p) t.counts; size = t.size - 1 }
            else record t { counts = insert (g p) c t.counts })
    go c q true e = record {
      nodup = erase-NodupKeys (g p) t.counts i.nodup;
      counted = λ k.
          lookup-erase k (g p) t.counts
          ∙ counted 0 (sym (is_zero c e) ∙ q) k (text_dec k (g p)) (before k);
      size =
          let l = length-erase (g p) (suc (left (g p))) t.counts i.nodup found in
          let m = i.size in omega arith;
    }
    go c q false e = record {
      nodup = insert-NodupKeys (g p) c t.counts i.nodup;
      counted = λ k.
          lookup-insert k (g p) c t.counts
          ∙ ap (λ x. ite (text_dec k (g p)) x (lookup k t.counts)) (sym (positive-some c e))
          ∙ counted c q k (text_dec k (g p)) (before k);
      size = i.size ∙ sym (length-insert_old (g p) c (suc (left (g p))) t.counts found);
    }
