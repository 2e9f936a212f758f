-- ===== src/Link/Frame/Checks.antt =====
-- What a frame that `decode` accepts satisfies.
use ot_security.Common.{
  ok, ℕ, ◌-◌, ◌≤◌, ◌<◌, ◌≡◌, sym, ◌∙◌, true, ◌||◌, arith, ◌==◌, length, take, drop, get_or,
}
use ot_security.Common.Bytes.{Bytes, be_value}
use ot_security.Common.Dict.{Text}
use ot_security.Link.Frame.{
  Codec, Frame, bytes_eq, chunk_count, decode_body, decode_mid, lengths_ok, geometry_ok, decode,
  all_chars, sid_ok, min_frame, max_datagram_bytes, max_record_bytes, max_fragments,
}
use ot_security.Link.Frame.Layout.{chunk_length}

-- The geometry of a fragment, which the reassembly relies on.
pub record IsFragment (f : Frame) : Type 0 where
  pub known : (f.type == 1 || f.type == 2) ≡ true
  pub indexed : f.frag_index < f.frag_count
  pub few : f.frag_count ≤ max_fragments
  pub some_bytes : 1 ≤ f.total_length
  pub fits : f.total_length ≤ max_record_bytes
  pub counted : f.frag_count ≡ chunk_count f.total_length
  pub filled : length f.chunk ≡ chunk_length f.total_length f.frag_index
  pub sid_chars : all_chars sid_ok f.sensor_id ≡ true

bytes_eq→eq : (a b : Bytes) → bytes_eq a b ≡ true → a ≡ b
bytes_eq→eq a b h = ground arith

lengths_meaning :
    (total len : ℕ) (chunk : Bytes)
    → lengths_ok total len chunk ≡ true
    → (1 ≤ total) × (total ≤ max_record_bytes) × (len ≡ length chunk)
unfolding lengths_ok
lengths_meaning total len chunk h = ground arith

geometry_meaning :
    (total count idx len : ℕ)
    → geometry_ok total count idx len ≡ true
    → (count ≡ chunk_count total) × (len ≡ chunk_length total idx)
unfolding geometry_ok
geometry_meaning total count idx len h = ground arith

module _ (c : Codec) where
  module _ (ftype idx count : ℕ) (sid : Text) (mid : Bytes) (f : Frame) where
    decode_mid-fields :
        decode_mid c ftype idx count sid mid ≡ ok f
        → (f.type ≡ ftype) × (f.frag_index ≡ idx) × (f.frag_count ≡ count) × (f.sensor_id ≡ sid)
    unfolding decode_mid
    decode_mid-fields h = ground arith

    decode_mid-tests :
        decode_mid c ftype idx count sid mid ≡ ok f
        → let len = be_value (take 2 (drop 28 mid)) in
          (lengths_ok f.total_length len f.chunk ≡ true)
          × (geometry_ok f.total_length f.frag_count f.frag_index len ≡ true)
    unfolding decode_mid
    decode_mid-tests h = (ground arith, ground arith)

  -- What the checks before the lengths have made sure of.
  decode_body-checked :
      (body : Bytes) (f : Frame)
      → decode_body c body ≡ ok f
      → let sid = take (get_or body 9 0) (drop 10 body) in
        ((get_or body 5 0 == 1 || get_or body 5 0 == 2) ≡ true)
        × (get_or body 7 0 < get_or body 8 0)
        × (get_or body 8 0 ≤ max_fragments)
        × (all_chars sid_ok sid ≡ true)
        × (decode_mid c
              (get_or body 5 0)
              (get_or body 7 0)
              (get_or body 8 0)
              sid
              (drop (get_or body 9 0) (drop 10 body))
            ≡ ok f)
  unfolding decode_body
  decode_body-checked body f h =
      (ground arith, ground arith, ground arith, ground arith, ground arith)

  decode_body-IsFragment : (body : Bytes) (f : Frame) → decode_body c body ≡ ok f → IsFragment f
  decode_body-IsFragment body f h =
      let (known, indexed, few, chars, rest) = decode_body-checked body f h in
      let (e1, e2, e3, e4) = decode_mid-fields _ _ _ _ _ f rest in
      let (lengths, geometry) = decode_mid-tests _ _ _ _ _ f rest in
      let (l1, l2, l3) = lengths_meaning f.total_length _ f.chunk lengths in
      let (g1, g2) = geometry_meaning f.total_length f.frag_count f.frag_index _ geometry in
      record {
        known = rw e1 known;
        indexed = rw (e2, e3) indexed;
        few = rw e3 few;
        some_bytes = l1;
        fits = l2;
        counted = g1;
        filled = sym l3 ∙ g2;
        sid_chars = rw e4 chars;
      }

  -- A datagram that is decoded has a size in bounds and ends in the 32 bytes of the tag of what stands
  -- before them.
  pub decode_authentic :
      (datagram : Bytes) (f : Frame)
      → decode c datagram ≡ ok f
      → (min_frame ≤ length datagram)
        × (length datagram ≤ max_datagram_bytes)
        × (c.mac (take (length datagram - 32) datagram) ≡ drop (length datagram - 32) datagram)
  unfolding decode
  decode_authentic datagram f h = (ground arith, ground arith, ground arith)

  -- A frame that is decoded is a fragment of a record within the limits.
  pub decode-IsFragment : (datagram : Bytes) (f : Frame) → decode c datagram ≡ ok f → IsFragment f
  unfolding decode
  decode-IsFragment datagram f h =
      ground (arith, decode_body-IsFragment (take (length datagram - 32) datagram) f)
