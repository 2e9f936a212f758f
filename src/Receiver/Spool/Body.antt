-- ===== src/Receiver/Spool/Body.antt =====
-- The body of a spool record is parsed to the fields that it was packed from.
use ot_security.Common.{
  ℕ, ◌-◌, ◌^◌, ◌<◌, ◌≡◌, refl, ap, sym, ◌∙◌, true, false, Option, none, some, ◌∷◌, ◌++◌, arith, ltb,
  ltb→lt, if◌then◌else◌, length, take, drop, take-append, drop-append, drop-append_past, take_all,
  le→ltb, ok, or_raise,
}
use ot_security.Common.Int.{ℤ, pos, negsuc}
use ot_security.Common.Bytes.{Bytes, be_bytes, be_value, length-be_bytes, be_value-be_bytes}
use ot_security.Common.Dict.{Text}
use ot_security.Receiver.Spool.{
  Position, signed_bytes, signed_value, signed_fits, or_empty, is_empty, join_body, body_of,
  parse_body,
}

length-signed_bytes : (z : ℤ) → length (signed_bytes z) ≡ 8
unfolding signed_bytes
length-signed_bytes (pos n) = length-be_bytes 8 n
length-signed_bytes (negsuc n) = length-be_bytes 8 (2 ^ 64 - 1 - n)

-- A signed number of eight bytes is unpacked to itself.
signed_value-signed_bytes : (z : ℤ) → signed_fits z ≡ true → signed_value (signed_bytes z) ≡ z
unfolding signed_bytes signed_value signed_fits
signed_value-signed_bytes (pos n) h =
    let small = ltb→lt _ _ h in rw (be_value-be_bytes 8 n (omega arith), h)
signed_value-signed_bytes (negsuc n) h =
    let small = ltb→lt _ _ h in
    let back : 2 ^ 64 - 1 - (2 ^ 64 - 1 - n) ≡ n = omega arith in
    let high : ltb (2 ^ 64 - 1 - n) (2 ^ 63) ≡ false = le→ltb _ _ (omega arith) in
    rw (be_value-be_bytes 8 (2 ^ 64 - 1 - n) (omega arith), high, back)

module _ (topic : ℕ) (key : Bytes) (sid : Text) (boot : Bytes) (seq ts_ms : ℤ) (value : Bytes) where
  -- What `append` writes for the fields.
  pub record IsPackable : Type 0 where
    pub key_fits : length key < 2 ^ 16
    pub boot_size : length boot ≡ 16
    pub seq_fits : signed_fits seq ≡ true
    pub ts_fits : signed_fits ts_ms ≡ true
    pub value_fits : length value < 2 ^ 32

  abbrev tail : Bytes
  tail = signed_bytes seq ++ (signed_bytes ts_ms ++ (be_bytes 4 (length value) ++ value))

  abbrev rest : Bytes
  rest = length sid ∷ (sid ++ (boot ++ tail))

  drop_ts : drop 8 tail ≡ signed_bytes ts_ms ++ (be_bytes 4 (length value) ++ value)
  drop_ts = drop-append 8 (signed_bytes seq) _ (sym (length-signed_bytes seq))

  drop_len : drop 16 tail ≡ be_bytes 4 (length value) ++ value
  drop_len =
      drop-append_past 16 8 (signed_bytes seq) _ (omega (arith, length-signed_bytes seq))
      ∙ drop-append 8 (signed_bytes ts_ms) _ (sym (length-signed_bytes ts_ms))

  drop_value : drop 20 tail ≡ value
  drop_value =
      drop-append_past 20 12 (signed_bytes seq) _ (omega (arith, length-signed_bytes seq))
      ∙ (drop-append_past 12 4 (signed_bytes ts_ms) _ (omega (arith, length-signed_bytes ts_ms))
          ∙ drop-append 4 (be_bytes 4 (length value)) value
              (sym (length-be_bytes 4 (length value))))

  parse_body-join_body :
      (uuid_text : Bytes → Text) (start end : Position)
      → IsPackable
      → parse_body uuid_text (join_body topic key sid boot seq ts_ms value) start end ≡ record {
        topic = topic;
        key = key;
        sensor_id = if is_empty sid then none else some sid;
        boot_id = if is_empty sid then none else some (uuid_text boot);
        sequence = seq;
        ts_ms = ts_ms;
        value = value;
        start = start;
        end = end;
      }
  unfolding parse_body join_body
  parse_body-join_body uuid_text start end p =
      let len2 = length-be_bytes 2 (length key) in
      let klen : be_value (take 2 (be_bytes 2 (length key) ++ (key ++ rest))) ≡ length key =
        ap be_value (take-append 2 (be_bytes 2 (length key)) (key ++ rest) (sym len2))
        ∙ be_value-be_bytes 2 (length key) (omega (arith, p.key_fits)) in
      let at_key : drop 2 (be_bytes 2 (length key) ++ (key ++ rest)) ≡ key ++ rest =
        drop-append 2 (be_bytes 2 (length key)) (key ++ rest) (sym len2) in
      let vlen : be_value (take 4 (drop 16 tail)) ≡ length value =
        ap (λ b. be_value (take 4 b)) drop_len
        ∙ (ap be_value (
              take-append 4 (be_bytes 4 (length value)) value
                (sym (length-be_bytes 4 (length value))))
            ∙ be_value-be_bytes 4 (length value) (omega (arith, p.value_fits))) in
      let ts : take 8 (drop 8 tail) ≡ signed_bytes ts_ms =
        ap (take 8) drop_ts
        ∙ take-append 8 (signed_bytes ts_ms) _ (sym (length-signed_bytes ts_ms)) in
      let seqs : take 8 tail ≡ signed_bytes seq =
        take-append 8 (signed_bytes seq) _ (sym (length-signed_bytes seq)) in
      rw (
        klen,
        at_key,
        take-append (length key) key rest refl,
        drop-append (length key) key rest refl,
        take-append (length sid) sid (boot ++ tail) refl,
        drop-append (length sid) sid (boot ++ tail) refl,
        take-append 16 boot tail (sym p.boot_size),
        drop-append 16 boot tail (sym p.boot_size),
        vlen,
        ts,
        seqs,
        drop_value,
        take_all (length value) value (omega arith),
        signed_value-signed_bytes seq p.seq_fits,
        signed_value-signed_bytes ts_ms p.ts_fits,
      )

module _ (uuid_bytes : Text → Option Bytes) (topic : ℕ) (key : Bytes) (sid boot_id : Text)
    (boot : Bytes) (seq ts_ms : ℤ) (value body : Bytes) where
  -- What an append without an exception has made sure of.
  body_of-checked :
      is_empty boot_id ≡ false
      → uuid_bytes boot_id ≡ some boot
      → body_of uuid_bytes topic key (some sid) (some boot_id) seq ts_ms value ≡ ok body
      → (length key < 2 ^ 16)
        × (signed_fits seq ≡ true)
        × (signed_fits ts_ms ≡ true)
        × (length value < 2 ^ 32)
        × (body ≡ join_body topic key sid boot seq ts_ms value)
  unfolding body_of or_empty or_raise
  body_of-checked named known h =
      let h' = rw (named, known) at h in
      (ground arith, ground arith, ground arith, ground arith, ground arith)

  -- The body of a record with a sensor and a boot id is parsed to exactly its fields, where the uuid
  -- module reads and writes the boot id in 16 bytes, and the packing raised no exception.
  pub parse_body-body_of :
      (uuid_text : Bytes → Text) (start end : Position)
      → is_empty sid ≡ false
      → is_empty boot_id ≡ false
      → uuid_bytes boot_id ≡ some boot
      → uuid_text boot ≡ boot_id
      → length boot ≡ 16
      → body_of uuid_bytes topic key (some sid) (some boot_id) seq ts_ms value ≡ ok body
      → parse_body uuid_text body start end ≡ record {
        topic = topic;
        key = key;
        sensor_id = some sid;
        boot_id = some boot_id;
        sequence = seq;
        ts_ms = ts_ms;
        value = value;
        start = start;
        end = end;
      }
  parse_body-body_of uuid_text start end sensor named known text size h =
      let (k, s, t, v, same) = body_of-checked named known h in
      let parsed =
        parse_body-join_body topic key sid boot seq ts_ms value uuid_text start end
          (record { key_fits = k; boot_size = size; seq_fits = s; ts_fits = t; value_fits = v }) in
      rw same (rw (sensor, text) at parsed)
