-- ===== src/Receiver/Spool/Prefix.antt =====
-- What `_valid_prefix` finds in a segment whose last write may have been torn.
use ot_security.Common.{
  ℕ, zero, suc, ◌+◌, ◌^◌, ◌≤◌, ◌<◌, ◌≡◌, refl, ap, sym, ◌∙◌, Bool, true, false, ◌&&◌, List, [], ◌∷◌,
  ◌++◌, arith, ltb, leb, ltb→lt, ltb_false→le, le→leb, lt→leb, lt→ltb, ==_refl, ◌==◌, All, length,
  take, drop, take-append, drop-append, drop-append_past, Bool-cases, inl, inr, length-append,
  length-take, append_assoc,
}
use ot_security.Common.Bytes.{Bytes, be_bytes, be_value, length-be_bytes, be_value-be_bytes}
use ot_security.Receiver.Spool.{frame, valid_from, valid_prefix}

-- The bodies that `append` writes are neither empty nor beyond the length field.
abbrev pub IsBody : Bytes → Type 0
IsBody body = (0 < length body) × (length body < 2 ^ 32)

module _ (crc32 : Bytes → ℕ) where
  unfoldable pub frames : List Bytes → Bytes
  frames [] = []
  frames (b ∷ bs) = frame crc32 b ++ frames bs

  -- The first bytes of a record, but not the whole of it.
  abbrev pub IsTorn : Bytes → Type 0
  IsTorn t =
      (body : Bytes) × (k : ℕ) × IsBody body
      × (k < length (frame crc32 body))
      × (t ≡ take k (frame crc32 body))

  length-frame : (body : Bytes) → length (frame crc32 body) ≡ 8 + length body
  unfolding frame
  length-frame body = omega (
    arith,
    length-append (be_bytes 4 (length body)) (body ++ be_bytes 4 (crc32 body)),
    length-append body (be_bytes 4 (crc32 body)),
    length-be_bytes 4 (length body),
    length-be_bytes 4 (crc32 body),
  )

  frame-parts :
      (body rest : Bytes)
      → frame crc32 body ++ rest
        ≡ be_bytes 4 (length body) ++ (body ++ (be_bytes 4 (crc32 body) ++ rest))
  unfolding frame
  frame-parts body rest =
      append_assoc (be_bytes 4 (length body)) (body ++ be_bytes 4 (crc32 body)) rest
      ∙ ap (λ t. be_bytes 4 (length body) ++ t) (append_assoc body (be_bytes 4 (crc32 body)) rest)

  -- The test of the loop at an offset, for a body of the given length.
  accepts : Bytes → ℕ → ℕ → Bool
  accepts bytes at blen =
      leb (at + 8) (length bytes)
      && ltb 0 blen
      && leb (at + 8 + blen) (length bytes)
      && crc32 (take blen (drop (at + 4) bytes)) == be_value (take 4 (drop (at + 4 + blen) bytes))

  valid_from-accepts :
      (n : ℕ) (bytes : Bytes) (at : ℕ)
      → accepts bytes at (be_value (take 4 (drop at bytes))) ≡ true
      → valid_from crc32 (suc n) bytes at
        ≡ valid_from crc32 n bytes (at + 8 + be_value (take 4 (drop at bytes)))
  unfolding valid_from accepts
  valid_from-accepts n bytes at h = rw (h, valid_from) refl

  valid_from-rejects :
      (n : ℕ) (bytes : Bytes) (at : ℕ)
      → accepts bytes at (be_value (take 4 (drop at bytes))) ≡ false
      → valid_from crc32 n bytes at ≡ at
  unfolding valid_from accepts
  valid_from-rejects zero bytes at h = refl
  valid_from-rejects (suc n) bytes at h = rw (h, valid_from) refl

  -- The loop goes on behind a whole record.
  valid_from-frame :
      (n : ℕ) (before body rest : Bytes)
      → IsBody body
      → crc32 body < 2 ^ 32
      → valid_from crc32 (suc n) (before ++ (frame crc32 body ++ rest)) (length before)
        ≡ valid_from crc32 n
            (before ++ (frame crc32 body ++ rest))
            (length before + 8 + length body)
  unfolding accepts
  valid_from-frame n before body rest b small =
      let bytes = before ++ (frame crc32 body ++ rest) in
      let len = be_bytes 4 (length body) in
      let crc = be_bytes 4 (crc32 body) in
      let len_size = length-be_bytes 4 (length body) in
      let size : length bytes ≡ length before + (8 + length body + length rest) = omega (
        arith,
        length-append before (frame crc32 body ++ rest),
        length-append (frame crc32 body) rest,
        length-frame body,
      ) in
      let at_len : drop (length before) bytes ≡ len ++ (body ++ (crc ++ rest)) =
        drop-append (length before) before (frame crc32 body ++ rest) refl
        ∙ frame-parts body rest in
      let blen : be_value (take 4 (drop (length before) bytes)) ≡ length body =
        ap (λ t. be_value (take 4 t)) at_len
        ∙ (ap be_value (take-append 4 len (body ++ (crc ++ rest)) (sym len_size))
            ∙ be_value-be_bytes 4 (length body) (omega (arith, b.1))) in
      let at_body : drop (length before + 4) bytes ≡ body ++ (crc ++ rest) =
        drop-append_past (length before + 4) 4 before (frame crc32 body ++ rest) refl
        ∙ (ap (drop 4) (frame-parts body rest)
            ∙ drop-append 4 len (body ++ (crc ++ rest)) (sym len_size)) in
      let at_crc : drop (length before + 4 + length body) bytes ≡ crc ++ rest =
        drop-append_past (length before + 4 + length body) (4 + length body) before
          (frame crc32 body ++ rest) (omega arith)
        ∙ (ap (drop (4 + length body)) (frame-parts body rest)
            ∙ (drop-append_past (4 + length body) (length body) len (body ++ (crc ++ rest))
                  (omega (arith, len_size))
                ∙ drop-append (length body) body (crc ++ rest) refl)) in
      let sum : be_value (take 4 (crc ++ rest)) ≡ crc32 body =
        ap be_value (take-append 4 crc rest (sym (length-be_bytes 4 (crc32 body))))
        ∙ be_value-be_bytes 4 (crc32 body) (omega arith) in
      let whole : accepts bytes (length before) (length body) ≡ true = rw (
        at_body,
        at_crc,
        sum,
        take-append (length body) body (crc ++ rest) refl,
        ==_refl (crc32 body),
        le→leb (length before + 8) (length bytes) (omega (arith, size)),
        lt→ltb 0 (length body) b.0,
        le→leb (length before + 8 + length body) (length bytes) (omega (arith, size)),
      ) in
      valid_from-accepts n bytes (length before) (rw blen whole)
      ∙ ap (λ l. valid_from crc32 n bytes (length before + 8 + l)) blen

  take-take : (m k : ℕ) (xs : Bytes) → m ≤ k → take m (take k xs) ≡ take m xs
  take-take zero k xs l = refl
  take-take (suc m) zero xs l = absurd (omega arith)
  take-take (suc m) (suc k) [] l = refl
  take-take (suc m) (suc k) (x ∷ xs) l = ap (◌∷◌ x) (take-take m k xs (omega arith))

  take_len : (body : Bytes) → take 4 (frame crc32 body) ≡ be_bytes 4 (length body)
  unfolding frame
  take_len body =
      take-append 4 (be_bytes 4 (length body)) (body ++ be_bytes 4 (crc32 body))
        (sym (length-be_bytes 4 (length body)))

  rejects_few :
      (bytes : Bytes) (at blen : ℕ)
      → leb (at + 8) (length bytes) ≡ false
      → accepts bytes at blen ≡ false
  unfolding accepts
  rejects_few bytes at blen h = ground (arith, h)

  accepts_short :
      (bytes : Bytes) (at blen : ℕ)
      → leb (at + 8 + blen) (length bytes) ≡ false
      → accepts bytes at blen ≡ false
  unfolding accepts
  accepts_short bytes at blen h = ground (arith, h)

  -- It stops in front of a torn one.
  valid_from-torn :
      (n : ℕ) (before torn : Bytes)
      → IsTorn torn
      → valid_from crc32 n (before ++ torn) (length before) ≡ length before
  valid_from-torn n before torn (body, k, b, short, e) =
      let bytes = before ++ torn in
      let torn_size : length torn ≡ k =
        ap (λ t. length t) e ∙ omega (arith, length-take k (frame crc32 body)) in
      let size : length bytes ≡ length before + k =
        omega (arith, length-append before torn, torn_size) in
      valid_from-rejects n bytes (length before) (elim (Bool-cases (ltb k 8)) [
        | inl no_head ↦
            let few : leb (length before + 8) (length bytes) ≡ false =
              lt→leb _ _ (omega (arith, size, ltb→lt _ _ no_head)) in
            rejects_few bytes (length before) _ few
        | inr head ↦
            let len = be_bytes 4 (length body) in
            let start : take 4 (drop (length before) bytes) ≡ len =
              ap (take 4) (drop-append (length before) before torn refl ∙ e)
              ∙ (take-take 4 k (frame crc32 body) (omega (arith, ltb_false→le _ _ head))
                  ∙ take_len body) in
            let blen : be_value (take 4 (drop (length before) bytes)) ≡ length body =
              ap be_value start ∙ be_value-be_bytes 4 (length body) (omega (arith, b.1)) in
            let few : leb (length before + 8 + length body) (length bytes) ≡ false =
              lt→leb _ _ (omega (arith, size, short, length-frame body)) in
            rw blen (accepts_short bytes (length before) (length body) few)
      ])

  module _ (small : (b : Bytes) → crc32 b < 2 ^ 32) where
    valid_from-frames :
        (n : ℕ) (before : Bytes) (bodies : List Bytes) (torn : Bytes)
        → length bodies ≤ n
        → All IsBody bodies
        → IsTorn torn
        → valid_from crc32 n (before ++ (frames bodies ++ torn)) (length before)
          ≡ length before + length (frames bodies)
    unfolding frames
    valid_from-frames n before [] torn l w t =
        let e : length before + 0 ≡ length before = omega arith in
        rw e (valid_from-torn n before torn t)
    valid_from-frames zero before (b ∷ bs) torn l w t = absurd (omega arith)
    valid_from-frames (suc n) before (b ∷ bs) torn l w t =
        let rest = frames bs ++ torn in
        let regroup : before ++ ((frame crc32 b ++ frames bs) ++ torn)
            ≡ before ++ (frame crc32 b ++ rest) =
          ap (λ t. before ++ t) (append_assoc (frame crc32 b) (frames bs) torn) in
        let onward : (before ++ frame crc32 b) ++ rest ≡ before ++ (frame crc32 b ++ rest) =
          append_assoc before (frame crc32 b) rest in
        let at : length (before ++ frame crc32 b) ≡ length before + 8 + length b =
          omega (arith, length-append before (frame crc32 b), length-frame b) in
        let tail = valid_from-frames n (before ++ frame crc32 b) bs torn (omega arith) w.1 t in
        let size : length before + 8 + length b + length (frames bs)
            ≡ length before + length (frame crc32 b ++ frames bs) =
          omega (arith, length-append (frame crc32 b) (frames bs), length-frame b) in
        ap (λ d. valid_from crc32 (suc n) d (length before)) regroup
        ∙ (valid_from-frame n before b rest w.0 (small b) ∙ (rw (onward, at) at tail ∙ size))

    frames-le : (bodies : List Bytes) → length bodies ≤ length (frames bodies)
    unfolding frames
    frames-le [] = omega arith
    frames-le (b ∷ bs) =
        omega (arith, frames-le bs, length-append (frame crc32 b) (frames bs), length-frame b)

    -- Of a segment of whole records and a torn one behind them, the valid prefix is the whole records,
    -- where a checksum fits four bytes.
    pub valid_prefix-frames :
        (bodies : List Bytes) (torn : Bytes)
        → All IsBody bodies
        → IsTorn torn
        → take (valid_prefix crc32 (frames bodies ++ torn)) (frames bodies ++ torn) ≡ frames bodies
    unfolding valid_prefix
    valid_prefix-frames bodies torn w t =
        let bytes = frames bodies ++ torn in
        let found =
          valid_from-frames (length bytes) [] bodies torn
            (omega (arith, frames-le bodies, length-append (frames bodies) torn)) w t in
        take-append (valid_from crc32 (length bytes) bytes 0) (frames bodies) torn
          (omega (arith, found))
