-- ===== src/Receiver/Dedup/Bitmap.antt =====
-- The bytearray of a stream behaves as one bit for each residue of the window.
use ot_security.Common.{
  ◌∙◌, ltb→lt, ap, ℕ, zero, suc, ◌/◌, ◌%◌, ◌<◌, ◌+◌, ◌≤◌, ◌≡◌, ◌≢◌, refl, Bool, true, false, ◌&&◌,
  ◌||◌, [], ◌∷◌, arith, ltb, ◌==◌, ==_iff, if◌then◌else◌, Bool-cases, inl, inr, length, get_or, set,
  replicate, All, length-set, get_or-set_self, get_or-set_ne, length-replicate, get_or-replicate,
}
use ot_security.Common.Int.{ℤ, pos, negsuc}
use ot_security.Common.Bytes.{Bytes, IsByte}
use ot_security.Receiver.Dedup.{bit_test, bit_set, bit_clear, slot, get, put, zero_bits}

-- The test holds of the n numbers from i on.
holds_from : (ℕ → Bool) → ℕ → ℕ → Bool
holds_from test i zero = true
holds_from test i (suc n) = test i && holds_from test (i + 1) n

holds_from-at :
    (test : ℕ → Bool) (i n x : ℕ) → i ≤ x → x < i + n → holds_from test i n ≡ true → test x ≡ true
unfolding holds_from
holds_from-at test i zero x l u h = absurd (omega arith)
holds_from-at test i (suc n) x l u h = elim (Bool-cases (i == x)) [
  | inl same ↦ ground arith
  | inr differ ↦ holds_from-at test (i + 1) n x (ground arith) (omega arith) (ground arith)
]

same : Bool → Bool → Bool
same true b = b
same false true = false
same false false = true

same_eq : (a b : Bool) → same a b ≡ true → a ≡ b
unfolding same
same_eq true b h = cc
same_eq false true h = cc
same_eq false false h = refl

byte_law : ℕ → ℕ → ℕ → Bool
byte_law b k j =
    same (bit_test (bit_set b k) j) (j == k || bit_test b j)
    && same (bit_test (bit_clear b k) j) (if j == k then false else bit_test b j)
    && ltb (bit_set b k) 256
    && ltb (bit_clear b k) 256

byte_table : holds_from (λ b. holds_from (λ k. holds_from (byte_law b k) 0 8) 0 8) 0 256 ≡ true
unfolding holds_from byte_law bit_test bit_set bit_clear same
byte_table = refl

byte_laws : (b k j : ℕ) → b < 256 → k < 8 → j < 8 → byte_law b k j ≡ true
byte_laws b k j hb hk hj =
    let row : ℕ → Bool = λ b. holds_from (λ k. holds_from (byte_law b k) 0 8) 0 8 in
    let cell : ℕ → Bool = λ k. holds_from (byte_law b k) 0 8 in
    let one_row = holds_from-at row 0 256 b (omega arith) hb byte_table in
    let one_cell = holds_from-at cell 0 8 k (omega arith) hk one_row in
    holds_from-at (byte_law b k) 0 8 j (omega arith) hj one_cell

and_left : (a b : Bool) → a && b ≡ true → a ≡ true
and_left true b h = refl
and_left false b h = h

and_right : (a b : Bool) → a && b ≡ true → b ≡ true
and_right true b h = h
and_right false b h = absurd (cc)

module _ (b k j : ℕ) (hb : b < 256) (hk : k < 8) (hj : j < 8) where
  test-set : bit_test (bit_set b k) j ≡ (j == k || bit_test b j)
  unfolding byte_law
  test-set = same_eq _ _ (and_left _ _ (and_left _ _ (and_left _ _ (byte_laws b k j hb hk hj))))

  test-clear : bit_test (bit_clear b k) j ≡ (if j == k then false else bit_test b j)
  unfolding byte_law
  test-clear = same_eq _ _ (and_right _ _ (and_left _ _ (and_left _ _ (byte_laws b k j hb hk hj))))

  set-IsByte : bit_set b k < 256
  unfolding byte_law
  set-IsByte = ltb→lt _ _ (and_right _ _ (and_left _ _ (byte_laws b k j hb hk hj)))

  clear-IsByte : bit_clear b k < 256
  unfolding byte_law
  clear-IsByte = ltb→lt _ _ (and_right _ _ (byte_laws b k j hb hk hj))

-- The shape that every operation keeps: one byte for eight slots.
pub record IsBitmap (bits : Bytes) : Type 0 where
  pub size : length bits ≡ 8192
  pub bytes : All IsByte bits

get_or-IsByte : (bits : Bytes) (i : ℕ) → All IsByte bits → get_or bits i 0 < 256
get_or-IsByte [] i h = omega arith
get_or-IsByte (x ∷ xs) zero h = h.0
get_or-IsByte (x ∷ xs) (suc i) h = get_or-IsByte xs i h.1

set-All : (bits : Bytes) (i v : ℕ) → v < 256 → All IsByte bits → All IsByte (set bits i v)
set-All [] i v hv h = tt
set-All (x ∷ xs) zero v hv h = (hv, h.1)
set-All (x ∷ xs) (suc i) v hv h = (h.0, set-All xs i v hv h.1)

replicate-All : (n : ℕ) → All IsByte (replicate n 0)
replicate-All zero = tt
replicate-All (suc n) = (omega arith, replicate-All n)

pub slot-lt : (z : ℤ) → slot z < 65536
unfolding slot
slot-lt (pos n) = omega arith
slot-lt (negsuc n) = omega arith

pub put-IsBitmap : (bits : Bytes) (z : ℤ) (v : Bool) → IsBitmap bits → IsBitmap (put bits z v)
unfolding put
put-IsBitmap bits z true h = record {
  size = length-set bits (slot z / 8) _ ∙ h.size;
  bytes =
      set-All bits (slot z / 8) _
        (set-IsByte _ _ 0 (get_or-IsByte bits (slot z / 8) h.bytes) (omega arith) (omega arith))
        h.bytes;
}
put-IsBitmap bits z false h = record {
  size = length-set bits (slot z / 8) _ ∙ h.size;
  bytes =
      set-All bits (slot z / 8) _
        (clear-IsByte _ _ 0 (get_or-IsByte bits (slot z / 8) h.bytes) (omega arith) (omega arith))
        h.bytes;
}

pub zeros-IsBitmap : (bits : Bytes) → IsBitmap bits → IsBitmap (replicate (length bits) 0)
zeros-IsBitmap bits h = record {
  size = length-replicate (length bits) 0 ∙ h.size;
  bytes = replicate-All (length bits);
}

pub zero_bits-IsBitmap : IsBitmap zero_bits
unfolding zero_bits
zero_bits-IsBitmap = record { size = length-replicate {A = ℕ} 8192 0; bytes = replicate-All 8192 }

zero_table : holds_from (λ k. same (bit_test 0 k) false) 0 8 ≡ true
unfolding holds_from same bit_test
zero_table = refl

test-zero : (k : ℕ) → k < 8 → bit_test 0 k ≡ false
test-zero k h =
    same_eq _ _ (holds_from-at (λ k. same (bit_test 0 k) false) 0 8 k (omega arith) h zero_table)

-- A cleared bitmap has no bit set.
pub get-zeros : (n : ℕ) (z : ℤ) → get (replicate n 0) z ≡ false
unfolding get
get-zeros n z =
    ap (λ b. bit_test b (slot z % 8)) (get_or-replicate n (slot z / 8) 0)
    ∙ test-zero (slot z % 8) (omega arith)

-- A write of the byte w at the place of bit i, read at bit j.
write_read :
    (bits : Bytes) (i j w : ℕ) (r : Bool)
    → i < 65536
    → j < 65536
    → IsBitmap bits
    → (i / 8 ≡ j / 8
        → bit_test w (j % 8)
          ≡ (if j % 8 == i % 8 then r else bit_test (get_or bits (i / 8) 0) (j % 8)))
    → bit_test (get_or (set bits (i / 8) w) (j / 8) 0) (j % 8)
      ≡ (if j == i then r else bit_test (get_or bits (j / 8) 0) (j % 8))
write_read bits i j w r hi hj h law = elim (Bool-cases (i / 8 == j / 8)) [
  | inl e ↦
      let e' : i / 8 ≡ j / 8 = (==_iff _ _).0 e in
      let at : get_or (set bits (i / 8) w) (j / 8) 0 ≡ w =
        rw (← e') (get_or-set_self bits (i / 8) w 0 (omega (arith, h.size))) in
      ground (arith, at, law e', e')
  | inr n ↦
      let n' : i / 8 ≢ j / 8 = ground arith in
      ground (arith, get_or-set_ne bits (i / 8) (j / 8) w 0 n')
]

-- After a write the written slot has the value, and every other slot its own.
pub get-put :
    (bits : Bytes) (y z : ℤ) (v : Bool)
    → IsBitmap bits
    → get (put bits z v) y ≡ (if slot y == slot z then v else get bits y)
unfolding get put
get-put bits y z true h =
    let b = get_or bits (slot z / 8) 0 in
    write_read bits (slot z) (slot y) (bit_set b (slot z % 8)) true (slot-lt z) (slot-lt y) h (λ e.
      ground (
        arith,
        test-set b (slot z % 8) (slot y % 8) (get_or-IsByte bits (slot z / 8) h.bytes) (omega arith)
            (omega arith),
      ))
get-put bits y z false h =
    let b = get_or bits (slot z / 8) 0 in
    write_read bits (slot z) (slot y) (bit_clear b (slot z % 8)) false (slot-lt z) (slot-lt y) h
      (λ e. ground (
        arith,
        test-clear b (slot z % 8) (slot y % 8) (get_or-IsByte bits (slot z / 8) h.bytes)
            (omega arith) (omega arith),
      ))
