-- ===== src/Link/Frame/RoundTrip.antt =====
-- `decode` gives back what `encode` put into each frame.
use ot_security.Common.{
  ok, ℕ, ◌+◌, ◌-◌, ◌*◌, ◌^◌, ◌≤◌, ◌<◌, ◌≡◌, refl, true, ◌&&◌, ◌||◌, ◌++◌, arith, ltb, leb, le→leb,
  ==_refl, ◌==◌, length, take, drop, Bool-cases, inl, inr, take-append, drop-append, length-append,
  length-take,
}
use ot_security.Common.Bytes.{Bytes}
use ot_security.Common.Dict.{Text}
use ot_security.Link.Frame.{
  Codec, IsCodec, decode, Frame, magic, chunk_of, chunk_count, frame_body, decode_body, decode_mid,
  lengths_ok, geometry_ok, all_chars, sid_ok, type_event, type_health, max_record_bytes,
}
use ot_security.Link.Frame.Layout.{
  bytes_eq_refl, mid_of, mid_boot, mid_chunk, mid_sequence, mid_total, mid_len, length-mid,
  chunk_length, length-chunk_of,
}

-- What the receiver accepts of a record and of its sender.
pub record IsSendable (ftype : ℕ) (sid : Text) (boot : Bytes) (sequence : ℕ) (bytes : Bytes)
    : Type 0 where
  pub known : (ftype == type_event || ftype == type_health) ≡ true
  pub sid_some : 1 ≤ length sid
  pub sid_short : length sid ≤ 63
  pub sid_chars : all_chars sid_ok sid ≡ true
  pub boot_size : length boot ≡ 16
  pub in_range : sequence < 2 ^ 64
  pub some_bytes : 0 < length bytes
  pub fits : length bytes ≤ max_record_bytes

lengths_in_range :
    (n k : ℕ) → 0 < n → n ≤ 9600 → k ≤ 1200 → (leb 1 n && leb n 9600 && k == k && leb k 1200) ≡ true
lengths_in_range n k p q r = ground arith

chunk_length_pos : (n i : ℕ) → 0 < n → i < chunk_count n → 0 < chunk_length n i
unfolding chunk_count
chunk_length_pos n i p l = elim (Bool-cases (ltb i (chunk_count n - 1))) [
  | inl full ↦ rw full (omega arith)
  | inr rest ↦ rw rest (omega arith)
]

module _ (c : Codec) (ftype : ℕ) (sid : Text) (boot : Bytes) (sequence : ℕ) (bytes : Bytes)
    (i : ℕ) where
  abbrev pub frame_of : Frame
  frame_of = record {
    type = ftype;
    frag_index = i;
    frag_count = chunk_count (length bytes);
    sensor_id = sid;
    boot_id = c.uuid_text boot;
    sequence = sequence;
    total_length = length bytes;
    chunk = chunk_of bytes i;
  }

  module _ (s : IsSendable ftype sid boot sequence bytes) (l : i < chunk_count (length bytes)) where
    abbrev mid : Bytes
    mid = mid_of boot sequence (length bytes) (length (chunk_of bytes i)) (chunk_of bytes i)

    count_ok :
        (leb 1 (chunk_count (length bytes))
          && leb (chunk_count (length bytes)) 8
          && ltb i (chunk_count (length bytes)))
        ≡ true
    unfolding chunk_count
    count_ok = ground (arith, s.fits)

    room_ok :
        leb
          (10 + length sid + 30)
          (length (frame_body ftype sid boot sequence bytes (chunk_count (length bytes)) i))
        ≡ true
    unfolding frame_body
    room_ok = le→leb _ _ (
        omega (
          arith,
          length-append sid mid,
          length-mid boot sequence (length bytes) (length (chunk_of bytes i)) (chunk_of bytes i)
              s.boot_size,
        ))

    lengths_fit :
        (leb 1 (length bytes)
          && leb (length bytes) 9600
          && length (chunk_of bytes i) == length (chunk_of bytes i)
          && leb (length (chunk_of bytes i)) 1200)
        ≡ true
    lengths_fit =
        lengths_in_range (length bytes) (length (chunk_of bytes i)) s.some_bytes s.fits
          (omega (arith, length-take 1200 (drop (i * 1200) bytes)))

    geometry_fits :
        (chunk_count (length bytes) == chunk_count (length bytes)
          && length (chunk_of bytes i) == chunk_length (length bytes) i)
        ≡ true
    geometry_fits =
        rw (length-chunk_of bytes i l, ==_refl (chunk_count (length bytes)))
          (==_refl (chunk_length (length bytes) i))

    decode_body-frame_body :
        decode_body c (frame_body ftype sid boot sequence bytes (chunk_count (length bytes)) i)
        ≡ ok frame_of
    unfolding decode_body decode_mid lengths_ok geometry_ok frame_body
    decode_body-frame_body =
        let sid_eq : take (length sid) (sid ++ mid) ≡ sid = take-append (length sid) sid mid refl in
        let mid_eq : drop (length sid) (sid ++ mid) ≡ mid = drop-append (length sid) sid mid refl in
        let len_small : length (chunk_of bytes i) < 2 ^ 16 =
          omega (arith, length-take 1200 (drop (i * 1200) bytes)) in
        let seq_eq =
          mid_sequence boot sequence (length bytes) (length (chunk_of bytes i)) (chunk_of bytes i)
            s.boot_size s.in_range in
        let total_eq =
          mid_total boot sequence (length bytes) (length (chunk_of bytes i)) (chunk_of bytes i)
            s.boot_size (omega (arith, s.fits)) in
        let len_eq =
          mid_len boot sequence (length bytes) (length (chunk_of bytes i)) (chunk_of bytes i)
            s.boot_size len_small in
        let chunk_eq =
          mid_chunk boot sequence (length bytes) (length (chunk_of bytes i)) (chunk_of bytes i)
            s.boot_size in
        let boot_eq =
          mid_boot boot sequence (length bytes) (length (chunk_of bytes i)) (chunk_of bytes i)
            s.boot_size in
        rw (bytes_eq_refl magic) (
          rw sid_eq (
            rw mid_eq (
              rw s.known (
                rw count_ok (
                  rw (le→leb _ _ s.sid_some) (
                    rw (le→leb _ _ s.sid_short) (
                      rw room_ok (
                        rw s.sid_chars (
                          rw (
                            total_eq, len_eq, chunk_eq, lengths_fit, geometry_fits, seq_eq, boot_eq,
                          ))))))))))

    length-frame_body :
        length (frame_body ftype sid boot sequence bytes (chunk_count (length bytes)) i)
        ≡ 40 + length sid + length (chunk_of bytes i)
    unfolding frame_body
    length-frame_body = omega (
      arith,
      length-append sid mid,
      length-mid boot sequence (length bytes) (length (chunk_of bytes i)) (chunk_of bytes i)
          s.boot_size,
    )

    -- Each frame that is sent is decoded to its fields.
    pub decode-frame :
        IsCodec c
        → let body = frame_body ftype sid boot sequence bytes (chunk_count (length bytes)) i in
          decode c (body ++ c.mac body) ≡ ok frame_of
    unfolding decode
    decode-frame lawful =
        let body = frame_body ftype sid boot sequence bytes (chunk_count (length bytes)) i in
        let size = length-append body (c.mac body) in
        let cut : length (body ++ c.mac body) - 32 ≡ length body =
          omega (arith, size, lawful.mac_size body) in
        let chunk_size = length-take 1200 (drop (i * 1200) bytes) in
        let some_chunk = chunk_length_pos (length bytes) i s.some_bytes l in
        let low : leb 73 (length (body ++ c.mac body)) ≡ true = le→leb _ _ (
          omega (
            arith,
            size,
            length-frame_body,
            lawful.mac_size body,
            s.sid_some,
            length-chunk_of bytes i l,
            some_chunk,
          )) in
        let high : leb (length (body ++ c.mac body)) 1400 ≡ true =
          le→leb _ _ (
            omega
              (arith, size, length-frame_body, lawful.mac_size body, s.sid_short, chunk_size)) in
        rw
          (
            low,
            high,
            cut,
            take-append (length body) body (c.mac body) refl,
            drop-append (length body) body (c.mac body) refl,
            bytes_eq_refl (c.mac body),
          )
          decode_body-frame_body
