-- ===== src/Sender/Normalizer/Size.antt =====
-- The size of an envelope, and when its original record is left out.
use Prim.Native.String.{String}
use ot_security.Common.{
  ℕ, ◌≡◌, refl, Bool, true, false, ◌&&◌, Option, none, some, arith, ltb, leb, ◌≤◌, ◌<◌,
  if◌then◌else◌, Bool-cases, inl, inr, ◌⊎◌, sym, ◌∙◌, subst, ok, err, length,
}
use ot_security.Common.Int.{ℤ}
use ot_security.Common.Bytes.{Bytes}
use ot_security.Common.Dict.{Text}
use ot_security.Link.Frame.{max_record_bytes}
use ot_security.Sender.Normalizer.{
  Normalized, Envelope, record_too_large, envelope_of, envelope, original_max_chars,
}

-- The encoding fits, and is the whole one wherever that one may be sent.
abbrev pub Chosen : Text → Bytes → Bytes → Bytes → Type 0
Chosen line whole smaller out =
    (length out ≤ max_record_bytes)
    × (((length line ≤ original_max_chars) × (out ≡ whole))
        ⊎ (((original_max_chars < length line) ⊎ (max_record_bytes < length whole))
            × (out ≡ smaller)))

-- The test at the end, and the choice before it.
bounded :
    (sent out : Bytes)
    → (if ltb max_record_bytes (length sent) then err record_too_large else ok sent) ≡ ok out
    → (length out ≤ max_record_bytes) × (sent ≡ out)
bounded sent out h = elim (Bool-cases (ltb max_record_bytes (length sent))) [
  | inl e ↦ ground arith
  | inr e ↦ ground arith
]

refused :
    (sent : Bytes)
    → (if ltb max_record_bytes (length sent) then err record_too_large else ok sent)
      ≡ err record_too_large
    → max_record_bytes < length sent
refused sent h = ground arith

-- What is sent in place of the whole encoding.
abbrev fallback : Bytes → Bytes → Bytes
fallback whole smaller = if ltb max_record_bytes (length whole) && true then smaller else whole

fallback-Chosen :
    (line : Text) (whole smaller out : Bytes)
    → leb (length line) original_max_chars ≡ true
    → length out ≤ max_record_bytes
    → fallback whole smaller ≡ out
    → Chosen line whole smaller out
fallback-Chosen line whole smaller out e small same =
    elim (Bool-cases (ltb max_record_bytes (length whole))) [
      | inl big ↦ (small, inr (inr (ground arith), sym (rw (big) at same)))
      | inr fits ↦ (small, inl (ground arith, sym (rw (fits) at same)))
    ]

length-fallback :
    (whole smaller : Bytes)
    → max_record_bytes < length (fallback whole smaller)
    → max_record_bytes < length smaller
length-fallback whole smaller h = elim (Bool-cases (ltb max_record_bytes (length whole))) [
  | inl big ↦ rw (big) at h
  | inr fits ↦ ground arith
]

unsent : (c : Bool) (smaller : Bytes) → (if c && false then smaller else smaller) ≡ smaller
unsent true smaller = refl
unsent false smaller = refl

module _ {F : Type 0} (sha256 : Text → Text) (event_id : Text → Text → ℕ → Text → Text)
    (dumps : Envelope F → Bytes) (coverage : String) (r : Normalized F) (sensor_id boot_id : Text)
    (sequence : ℕ) (run : Option Text) (offset : ℤ) (capture_mode : String) where
  abbrev built : Option Text → Bytes
  built original = dumps (
      envelope_of sha256 event_id dumps coverage r sensor_id boot_id sequence run offset
        capture_mode original)

  -- An envelope that is returned has at most MAX_RECORD_BYTES bytes. It holds the original line where that has
  -- at most 4096 characters and the envelope with it fits, and else leaves it out.
  pub envelope-max_record_bytes :
      (out : Bytes)
      → envelope sha256 event_id dumps coverage r sensor_id boot_id sequence run offset capture_mode
        ≡ ok out
      → Chosen r.original_line (built (some r.original_line)) (built none) out
  unfolding envelope
  envelope-max_record_bytes out h =
      elim (Bool-cases (leb (length r.original_line) original_max_chars)) [
        | inl e ↦
            let (small, same) = bounded _ out (rw (e) at h) in
            fallback-Chosen r.original_line _ _ out e small same
        | inr e ↦
            let (small, same) = bounded _ out (rw (e) at h) in
            (small, inr (inl (ground arith), sym same ∙ unsent _ _))
      ]

  -- An envelope that is refused as too large is too large even without the original line.
  pub envelope-record_too_large :
      envelope sha256 event_id dumps coverage r sensor_id boot_id sequence run offset capture_mode
        ≡ err record_too_large
      → max_record_bytes < length (built none)
  unfolding envelope
  envelope-record_too_large h =
      elim (Bool-cases (leb (length r.original_line) original_max_chars)) [
        | inl e ↦
            let big = refused _ (rw (e) at h) in
            length-fallback (built (some r.original_line)) (built none) big
        | inr e ↦
            let big = refused _ (rw (e) at h) in
            subst (λ x. max_record_bytes < length x) (unsent _ _) big
      ]
