-- ===== src/Link/Frame/Tests.antt =====
-- Frames of a small record, and each theorem about them at an input that meets its hypotheses.
use ot_security.Common.{
  or_raise, ok, err, ℕ_discrete, ◌-◌, ◌≤◌, ◌<◌, ◌≡◌, ◌++◌, ◌^◌, refl, some, List, [], ◌∷◌, arith,
  length, take, drop, replicate,
}
use ot_security.Common.Bytes.{Bytes, be_bytes, be_value, length-be_bytes}
use ot_security.Common.Dict.{Text, text_dec}
use ot_security.Link.Frame.{
  all_chars, sid_ok, Frame, frame_hmac_invalid, Codec, IsCodec, struct_error, record_too_large,
  encode, decode, frame_body, chunk_count,
}
use ot_security.Link.Frame.RoundTrip.{IsSendable, frame_of, decode-frame}
use ot_security.Link.Frame.Sending.{Decodes, fragments, encode-decode}
use ot_security.Link.Frame.Checks.{IsFragment, decode_authentic, decode-IsFragment}

-- A codec with the sizes of the real one; its tag is the value of the body.
abbrev pub codec : Codec
codec = record {
  mac = λ body. be_bytes 32 (be_value body);
  uuid_bytes = λ t. some (be_bytes 16 (be_value t));
  uuid_text = λ b. b;
}

codec-IsCodec : IsCodec codec
codec-IsCodec = record {
  mac_size = λ body. length-be_bytes 32 (be_value body);
  uuid_size = λ t b e. size_of t b e;
}
  where
    size_of : (t : Text) (b : Bytes) → some (be_bytes 16 (be_value t)) ≡ some b → length b ≡ 16
    size_of t b e = ground (arith, length-be_bytes 16 (be_value t))

abbrev pub sensor : Text
sensor = 115 ∷ 49 ∷ []

abbrev boot : Bytes
boot = be_bytes 16 7

abbrev small : Bytes
small = 1 ∷ 2 ∷ []

small-IsSendable : IsSendable 1 sensor boot 5 small
unfolding be_bytes all_chars sid_ok
small-IsSendable = record {
  known = refl;
  sid_some = omega arith;
  sid_short = omega arith;
  sid_chars = refl;
  boot_size = refl;
  in_range = omega arith;
  some_bytes = omega arith;
  fits = omega arith;
}

encode-decode_example :
    (datagrams : List Bytes) × (encode codec 1 sensor (7 ∷ []) 5 small ≡ ok datagrams)
    × Decodes codec datagrams (fragments codec 1 sensor boot 5 small 0 (chunk_count 2))
unfolding be_value
encode-decode_example =
    encode-decode codec 1 sensor (7 ∷ []) boot 5 small codec-IsCodec refl small-IsSendable

abbrev first : Frame
first = frame_of codec 1 sensor boot 5 small 0

-- The one datagram of the record.
abbrev datagram : Bytes
datagram =
    let body = frame_body 1 sensor boot 5 small (chunk_count 2) 0 in
    body ++ be_bytes 32 (be_value body)

one_fragment : 0 < chunk_count 2
unfolding chunk_count
one_fragment = omega arith

datagram_decoded : decode codec datagram ≡ ok first
datagram_decoded =
    decode-frame codec 1 sensor boot 5 small 0 small-IsSendable one_fragment codec-IsCodec

decode_authentic_example :
    (73 ≤ length datagram)
    × (length datagram ≤ 1400)
    × (be_bytes 32 (be_value (take (length datagram - 32) datagram))
        ≡ drop (length datagram - 32) datagram)
decode_authentic_example = decode_authentic codec datagram first datagram_decoded

decode-IsFragment_example : IsFragment first
decode-IsFragment_example = decode-IsFragment codec datagram first datagram_decoded

-- A record above the limit is refused, and a sequence that does not fit eight bytes.
too_large : encode codec 1 sensor boot 5 (replicate 9601 7) ≡ err record_too_large
unfolding encode
too_large = refl

too_high : encode codec 1 sensor boot (2 ^ 64) small ≡ err struct_error
unfolding encode or_raise all_chars
too_high = refl

-- A changed tag is refused.
forged : decode codec (replicate 79 7 ++ (8 ∷ [])) ≡ err frame_hmac_invalid
unfolding decode be_bytes be_value text_dec ℕ_discrete
forged = refl
