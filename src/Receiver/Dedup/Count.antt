-- ===== src/Receiver/Dedup/Count.antt =====
-- How many sequences of a range have not been accepted.
use ot_security.Common.{
  ℕ, zero, suc, ◌+◌, ◌-◌, ◌≤◌, ◌<◌, ◌≡◌, Bool, true, false, ◌||◌, arith, ltb, ◌==◌, if◌then◌else◌,
}

-- The sequences below n that p does not hold of.
unfoldable pub unseen_below : (ℕ → Bool) → ℕ → ℕ
unseen_below p zero = 0
unseen_below p (suc n) = unseen_below p n + (if p n then 0 else 1)

-- The sequences q with a ≤ q < b that p does not hold of.
abbrev pub unseen : (ℕ → Bool) → ℕ → ℕ → ℕ
unseen p a b = unseen_below p b - unseen_below p a

-- p, and x as well
abbrev pub with_seq : (ℕ → Bool) → ℕ → ℕ → Bool
with_seq p x q = q == x || p q

pub unseen_below_suc :
    (p : ℕ → Bool) (n : ℕ) → unseen_below p (n + 1) ≡ unseen_below p n + (if p n then 0 else 1)
unfolding unseen_below
unseen_below_suc p n = ground arith

pub unseen_below_hit :
    (p : ℕ → Bool) (n : ℕ) → p n ≡ true → unseen_below p (n + 1) ≡ unseen_below p n
unseen_below_hit p n h = ground (arith, unseen_below_suc p n)

pub unseen_below_miss :
    (p : ℕ → Bool) (n : ℕ) → p n ≡ false → unseen_below p (n + 1) ≡ unseen_below p n + 1
unseen_below_miss p n h = ground (arith, unseen_below_suc p n)

pub unseen_below_mono : (p : ℕ → Bool) (a n : ℕ) → unseen_below p a ≤ unseen_below p (a + n)
unfolding unseen_below
unseen_below_mono p a zero = let e : a + 0 ≡ a = omega arith in rw e (omega arith)
unseen_below_mono p a (suc n) =
    let e : a + suc n ≡ suc (a + n) = omega arith in rw e (omega (arith, unseen_below_mono p a n))

pub unseen_below_le : (p : ℕ → Bool) (a b : ℕ) → a ≤ b → unseen_below p a ≤ unseen_below p b
unseen_below_le p a b h =
    let e : a + (b - a) ≡ b = omega arith in rw (← e) (unseen_below_mono p a (b - a))

-- Above a, where nothing has been accepted, every sequence counts.
pub unseen_below_above :
    (p : ℕ → Bool) (a n : ℕ)
    → ((q : ℕ) → a ≤ q → p q ≡ false)
    → unseen_below p (a + n) ≡ unseen_below p a + n
unfolding unseen_below
unseen_below_above p a zero h = let e : a + 0 ≡ a = omega arith in rw e (omega arith)
unseen_below_above p a (suc n) h =
    let e : a + suc n ≡ suc (a + n) = omega arith in
    rw e (ground (arith, unseen_below_above p a n h, h (a + n)))

-- Accepting x takes one off every count that reaches past x.
pub unseen_below_with :
    (p : ℕ → Bool) (x n : ℕ)
    → p x ≡ false
    → unseen_below p n ≡ unseen_below (with_seq p x) n + (if ltb x n then 1 else 0)
unfolding unseen_below
unseen_below_with p x zero h = ground arith
unseen_below_with p x (suc n) h = ground (arith, unseen_below_with p x n h)

pub unseen_with_below :
    (p : ℕ → Bool) (x n : ℕ)
    → p x ≡ false
    → n ≤ x
    → unseen_below (with_seq p x) n ≡ unseen_below p n
unseen_with_below p x n h l = ground (arith, unseen_below_with p x n h)

pub unseen_with_past :
    (p : ℕ → Bool) (x n : ℕ)
    → p x ≡ false
    → x < n
    → unseen_below p n ≡ unseen_below (with_seq p x) n + 1
unseen_with_past p x n h l = ground (arith, unseen_below_with p x n h)
