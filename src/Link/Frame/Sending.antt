-- ===== src/Link/Frame/Sending.antt =====
-- The frames of a whole record.
use ot_security.Common.{
  ok, ℕ, zero, suc, ◌+◌, ◌≤◌, ◌≡◌, refl, true, ◌||◌, some, List, [], ◌∷◌, arith, ltb, le→leb,
  lt→ltb, ◌==◌, length,
}
use ot_security.Common.Bytes.{Bytes}
use ot_security.Common.Dict.{Text}
use ot_security.Link.Frame.{
  Codec, IsCodec, Frame, chunk_count, frames_from, encode, decode, all_chars, sid_ok,
}
use ot_security.Link.Frame.RoundTrip.{IsSendable, frame_of, decode-frame}

-- Each datagram is decoded to the frame at its place.
abbrev pub Decodes : Codec → List Bytes → List Frame → Type 0
Decodes c [] [] = Unit
Decodes c (d ∷ ds) (f ∷ fs) = (decode c d ≡ ok f) × Decodes c ds fs
Decodes c _ _ = ⊥

module _ (c : Codec) (ftype : ℕ) (sid : Text) (boot : Bytes) (sequence : ℕ) (bytes : Bytes) where
  -- The n fragments of the record from i on.
  unfoldable pub fragments : ℕ → ℕ → List Frame
  fragments i zero = []
  fragments i (suc n) = frame_of c ftype sid boot sequence bytes i ∷ fragments (i + 1) n

  frames_from-Decodes :
      IsCodec c
      → IsSendable ftype sid boot sequence bytes
      → (i n : ℕ) → i + n ≤ chunk_count (length bytes)
      → Decodes c
          (frames_from c ftype sid boot sequence bytes (chunk_count (length bytes)) i n)
          (fragments i n)
  unfolding fragments frames_from
  frames_from-Decodes lawful s i zero l = tt
  frames_from-Decodes lawful s i (suc n) l = (
    decode-frame c ftype sid boot sequence bytes i s (omega arith) lawful,
    frames_from-Decodes lawful s (i + 1) n (omega arith),
  )

ascii_of_sid : (sid : Text) → all_chars sid_ok sid ≡ true → all_chars (λ b. ltb b 128) sid ≡ true
unfolding all_chars sid_ok
ascii_of_sid [] h = refl
ascii_of_sid (b ∷ bs) h = ground (arith, ascii_of_sid bs)

-- A record that may be sent is encoded, where the uuid module knows the boot id and the codec has the
-- documented sizes, and its datagrams are decoded to its fragments, in order.
pub encode-decode :
    (c : Codec) (ftype : ℕ) (sid boot_id : Text) (boot : Bytes) (sequence : ℕ) (bytes : Bytes)
    → IsCodec c
    → c.uuid_bytes boot_id ≡ some boot
    → IsSendable ftype sid boot sequence bytes
    → (datagrams : List Bytes) × (encode c ftype sid boot_id sequence bytes ≡ ok datagrams)
      × Decodes c datagrams
          (fragments c ftype sid boot sequence bytes 0 (chunk_count (length bytes)))
unfolding encode
encode-decode c ftype sid boot_id boot sequence bytes lawful known s =
    let type_small : ltb ftype 256 ≡ true = type_fits s.known in
    (
      frames_from c ftype sid boot sequence bytes (chunk_count (length bytes)) 0
          (chunk_count (length bytes)),
      rw (
        le→leb _ _ s.fits,
        lt→ltb _ _ s.some_bytes,
        ascii_of_sid sid s.sid_chars,
        le→leb _ _ s.sid_some,
        le→leb _ _ s.sid_short,
        known,
        type_small,
        lt→ltb _ _ s.in_range,
      ),
      frames_from-Decodes c ftype sid boot sequence bytes lawful s 0 (chunk_count (length bytes))
          (omega arith),
    )
  where
    type_fits : (ftype == 1 || ftype == 2) ≡ true → ltb ftype 256 ≡ true
    type_fits h = ground arith
