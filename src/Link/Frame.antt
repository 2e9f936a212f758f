-- ===== src/Link/Frame.antt =====
-- lib/sih_common/linkframe.py: the frames of the one-way link. HMAC-SHA256 and the uuid module are
-- parameters.
pub mod Layout
pub mod RoundTrip
pub mod Checks
pub mod Sending
pub mod Tests
use ot_security.Common.{
  Outcome, ok, err, ◌>>=◌, ◌>>◌, ensure, or_raise, ℕ, zero, suc, ◌+◌, ◌-◌, ◌*◌, ◌/◌, ◌^◌, ◌≡◌, Bool,
  true, false, not, ◌&&◌, ◌||◌, Option, none, some, List, [], ◌∷◌, ◌++◌, ltb, leb, ◌==◌,
  if◌then◌else◌, ite, length, get_or, take, drop,
}
use ot_security.Common.Bytes.{Bytes, be_bytes, be_value}
use ot_security.Common.Dict.{Text, text_dec}

abbrev pub type_event : ℕ
type_event = 1

abbrev pub type_health : ℕ
type_health = 2

abbrev pub max_datagram_bytes : ℕ
max_datagram_bytes = 1400

abbrev pub max_chunk_bytes : ℕ
max_chunk_bytes = 1200

abbrev pub max_record_bytes : ℕ
max_record_bytes = 9600

abbrev pub max_fragments : ℕ
max_fragments = 8

abbrev pub hmac_bytes : ℕ
hmac_bytes = 32

-- The sizes of `_HEAD` and `_MID`, and `_MIN_FRAME`.
abbrev pub head_size : ℕ
head_size = 10

abbrev pub mid_size : ℕ
mid_size = 30

abbrev pub min_frame : ℕ
min_frame = head_size + 1 + mid_size + hmac_bytes

-- `b"SIH1"`
abbrev pub magic : Bytes
magic = 0x53 ∷ 0x49 ∷ 0x48 ∷ 0x31 ∷ []

abbrev pub version : ℕ
version = 1

-- `_SID_OK`: lower-case letters, digits and the dash
unfoldable pub sid_ok : ℕ → Bool
sid_ok b = (leb 97 b && leb b 122) || (leb 48 b && leb b 57) || b == 45

unfoldable pub all_chars : (ℕ → Bool) → Bytes → Bool
all_chars p [] = true
all_chars p (b ∷ bs) = p b && all_chars p bs

abbrev pub bytes_eq : Bytes → Bytes → Bool
bytes_eq a b = ite (text_dec a b) true false

pub record Frame : Type 0 where
  pub type : ℕ
  pub frag_index : ℕ
  pub frag_count : ℕ
  pub sensor_id : Text
  pub boot_id : Text
  pub sequence : ℕ
  pub total_length : ℕ
  pub chunk : Bytes

-- The exceptions of `encode` and the reasons of the `FrameError` of `decode`.
pub data Error : Type 0 where
  record_too_large value_error unicode_error struct_error : Error
  frame_malformed frame_hmac_invalid : Error

abbrev pub Result {ℓ} : Type ℓ → Type ℓ
Result A = Outcome Error A

-- `-(-n // MAX_CHUNK_BYTES)`
unfoldable pub chunk_count : ℕ → ℕ
chunk_count n = (n + (max_chunk_bytes - 1)) / max_chunk_bytes

-- `record[i * MAX_CHUNK_BYTES:(i + 1) * MAX_CHUNK_BYTES]`
abbrev pub chunk_of : Bytes → ℕ → Bytes
chunk_of bytes i = take max_chunk_bytes (drop (i * max_chunk_bytes) bytes)

-- What the codec calls: `hmac.new(key, body, sha256).digest()`, `uuid.UUID(text).bytes` (`none` is its
-- ValueError) and `str(uuid.UUID(bytes=...))`.
pub record Codec : Type 0 where
  pub mac : Bytes → Bytes
  pub uuid_bytes : Text → Option Bytes
  pub uuid_text : Bytes → Text

-- The documented sizes of a digest and of a UUID.
pub record IsCodec (c : Codec) : Type 0 where
  pub mac_size : (body : Bytes) → length (c.mac body) ≡ hmac_bytes
  pub uuid_size : (t : Text) (b : Bytes) → c.uuid_bytes t ≡ some b → length b ≡ 16

-- `body` of `encode`
unfoldable pub frame_body : ℕ → Bytes → Bytes → ℕ → Bytes → ℕ → ℕ → Bytes
frame_body ftype sid boot sequence bytes count i =
    let chunk = chunk_of bytes i in
    (magic ++ (version ∷ ftype ∷ 0 ∷ i ∷ count ∷ length sid ∷ []))
    ++ (sid
        ++ (boot
            ++ (be_bytes 8 sequence
                ++ (be_bytes 4 (length bytes) ++ (be_bytes 2 (length chunk) ++ chunk)))))

-- `LinkCodec.__init__` refuses a short key.
unfoldable pub new_codec :
    (Bytes → Bytes → Bytes) → (Text → Option Bytes) → (Bytes → Text) → Bytes → Result Codec
new_codec hmac uuid_bytes uuid_text link_key = do
  ensure (leb 16 (length link_key)) value_error
  ok (record { mac = hmac link_key; uuid_bytes = uuid_bytes; uuid_text = uuid_text })

-- The last two tests of `decode`.
unfoldable pub lengths_ok : ℕ → ℕ → Bytes → Bool
lengths_ok total chunk_len chunk =
    leb 1 total
    && leb total max_record_bytes
    && chunk_len == length chunk
    && leb chunk_len max_chunk_bytes

unfoldable pub geometry_ok : ℕ → ℕ → ℕ → ℕ → Bool
geometry_ok total count idx chunk_len =
    let expected_count = chunk_count total in
    let expected_len =
      if ltb idx (expected_count - 1)
      then max_chunk_bytes
      else total - (expected_count - 1) * max_chunk_bytes in
    expected_count == count && chunk_len == expected_len

module _ (c : Codec) where
  -- The loop over `range(count)`: n rounds from i on.
  unfoldable pub frames_from : ℕ → Bytes → Bytes → ℕ → Bytes → ℕ → ℕ → ℕ → List Bytes
  unfolding frame_body
  frames_from ftype sid boot sequence bytes count i zero = []
  frames_from ftype sid boot sequence bytes count i (suc n) =
      let body = frame_body ftype sid boot sequence bytes count i in
      (body ++ c.mac body) ∷ frames_from ftype sid boot sequence bytes count (i + 1) n

  -- `struct.pack` refuses a type of more than one byte and a sequence of more than eight; the other
  -- numbers of a frame always fit.
  unfoldable pub encode : ℕ → Text → Text → ℕ → Bytes → Result (List Bytes)
  unfolding or_raise all_chars chunk_count
  encode ftype sensor_id boot_id sequence bytes = do
    ensure (leb (length bytes) max_record_bytes) record_too_large
    ensure (ltb 0 (length bytes)) value_error
    ensure (all_chars (λ b. ltb b 128) sensor_id) unicode_error
    ensure (leb 1 (length sensor_id) && leb (length sensor_id) 63) value_error
    boot ← or_raise (c.uuid_bytes boot_id) value_error
    ensure (ltb ftype 256 && ltb sequence (2 ^ 64)) struct_error
    let count = chunk_count (length bytes)
    ok (frames_from ftype sensor_id boot sequence bytes count 0 count)

  -- `decode` from the boot id on: the lengths, and the geometry of the fragment.
  unfoldable pub decode_mid : ℕ → ℕ → ℕ → Text → Bytes → Result Frame
  decode_mid ftype idx count sid mid = do
    let sequence = be_value (take 8 (drop 16 mid))
    let total = be_value (take 4 (drop 24 mid))
    let chunk_len = be_value (take 2 (drop 28 mid))
    let chunk = drop mid_size mid
    ensure (lengths_ok total chunk_len chunk) frame_malformed
    ensure (geometry_ok total count idx chunk_len) frame_malformed
    ok (record {
      type = ftype;
      frag_index = idx;
      frag_count = count;
      sensor_id = sid;
      boot_id = c.uuid_text (take 16 mid);
      sequence = sequence;
      total_length = total;
      chunk = chunk;
    })

  -- The checks of `decode` on an authenticated body.
  unfoldable pub decode_body : Bytes → Result Frame
  decode_body body = do
    let ftype = get_or body 5 0
    let idx = get_or body 7 0
    let count = get_or body 8 0
    let sid_len = get_or body 9 0
    ensure (bytes_eq (take 4 body) magic && get_or body 4 0 == version) frame_malformed
    ensure (ftype == type_event || ftype == type_health) frame_malformed
    ensure (leb 1 count && leb count max_fragments && ltb idx count) frame_malformed
    ensure (leb 1 sid_len && leb sid_len 63 && leb (head_size + sid_len + mid_size) (length body))
        frame_malformed
    let sid = take sid_len (drop head_size body)
    ensure (all_chars sid_ok sid) frame_malformed
    decode_mid ftype idx count sid (drop sid_len (drop head_size body))

  unfoldable pub decode : Bytes → Result Frame
  unfolding decode_body
  decode datagram = do
    let n = length datagram
    ensure (leb min_frame n && leb n max_datagram_bytes) frame_malformed
    let body = take (n - hmac_bytes) datagram
    let tag = drop (n - hmac_bytes) datagram
    ensure (bytes_eq (c.mac body) tag) frame_hmac_invalid
    decode_body body
