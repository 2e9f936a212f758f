-- ===== src/Sender/Normalizer/Payload.antt =====
-- ingest/sender/sih_sender/normalizer.py: the records of Zeek, and the builder of a payload. Numbers with
-- a fraction, addresses and the text of a nested value are those of Python's modules: parameters.
use Prim.Native.String.{String}
use ot_security.Common.{
  ℕ, Bool, true, ◌&&◌, Option, none, some, List, [], ◌∷◌, leb, if◌then◌else◌, length,
}
use ot_security.Common.Int.{ℤ, pos, negsuc}
use ot_security.Common.Dict.{Dict, Text, lookup, insert, erase}
use ot_security.Common.Strings.{string_eq}

-- A JSON value; D is the type of the numbers with a fraction.
mutual
  pub data Json (D : Type 0) : Type 0 where
    none_value : Json D
    bool_value : Bool → Json D
    int_value : ℤ → Json D
    decimal_value : D → Json D
    str_value : Text → Json D
    list_value : Items D → Json D
    dict_value : Json D
    -- NaN, Infinity and -Infinity, the floats that `loads` makes in spite of `parse_float`
    nan_value : Json D

  pub data Items (D : Type 0) : Type 0 where
    nil : Items D
    cons : Json D → Items D → Items D

-- A record of Zeek: the members of a JSON object.
abbrev pub Record : Type 0 → Type 0
Record D = Dict String (Json D)

-- What the code calls of `decimal`, `float`, `ipaddress` and `str`.
pub record Tools (D F : Type 0) : Type 0 where
  pub of_int : ℤ → D
  -- `0 <= v <= maximum`
  pub up_to : ℕ → D → Bool
  -- `v >= 0`
  pub non_negative : D → Bool
  -- `0.1 <= v <= 3600`
  pub is_interval : D → Bool
  pub float : D → F
  -- `int((d * 1_000_000).quantize(Decimal(1), rounding=ROUND_HALF_UP))`: `none` is InvalidOperation
  pub micros : D → Option ℤ
  -- whether `ipaddress.ip_address` accepts a text
  pub ip_address : Text → Bool
  -- `str(v)` of a value that is not a text
  pub show : Json D → Text

-- A value of the payload.
pub data Value (F : Type 0) : Type 0 where
  null : Value F
  number : ℕ → Value F
  duration : F → Value F
  flag : Bool → Value F
  words : Text → Value F
  word_list : List Text → Value F

-- `_Builder`
pub record Builder (F : Type 0) : Type 0 where
  pub payload : Dict String (Value F)
  pub availability : Dict String String
  pub reasons : Dict String String

abbrev pub max_safe : ℕ
max_safe = 9007199254740991

-- What the code sees of a value: None, a value of the type that it asks for, or another one.
pub data Seen (A : Type 0) : Type 0 where
  absent wrong : Seen A
  found : A → Seen A

module _ {D : Type 0} where
  -- `n.get(key)`: a missing member and a null are both None.
  unfoldable pub get : Record D → String → Json D
  get n key = elim (lookup key n) [ none ↦ none_value | some v ↦ v ]

  unfoldable pub items : Items D → List (Json D)
  items nil = []
  items (cons v vs) = v ∷ items vs

  -- `_is_int`
  unfoldable pub as_int : Json D → Seen ℤ
  as_int none_value = absent
  as_int (int_value v) = found v
  as_int _ = wrong

  unfoldable pub as_bool : Json D → Seen Bool
  as_bool none_value = absent
  as_bool (bool_value v) = found v
  as_bool _ = wrong

  unfoldable pub as_text : Json D → Seen Text
  as_text none_value = absent
  as_text (str_value s) = found s
  as_text _ = wrong

  unfoldable pub as_list : Json D → Seen (List (Json D))
  unfolding items
  as_list none_value = absent
  as_list (list_value vs) = found (items vs)
  as_list _ = wrong

  -- `_is_num`, with the number
  unfoldable pub as_num : (ℤ → D) → Json D → Seen D
  as_num of_int none_value = absent
  as_num of_int (int_value v) = found (of_int v)
  as_num of_int (decimal_value d) = found d
  as_num of_int _ = wrong

-- A pattern of characters of one class, between two lengths, matched in full.
unfoldable pub all_of : (ℕ → Bool) → Text → Bool
all_of p [] = true
all_of p (c ∷ cs) = p c && all_of p cs

unfoldable pub matches : (ℕ → Bool) → ℕ → ℕ → Text → Bool
unfolding all_of
matches p low high t = leb low (length t) && leb (length t) high && all_of p t

module _ {F : Type 0} where
  abbrev pub empty : Builder F
  empty = record { payload = []; availability = []; reasons = [] }

  -- `self.payload[field] = v`
  unfoldable pub put : String → Value F → Builder F → Builder F
  put field v b = record b { payload = insert field v b.payload }

  -- `unavailable`; every call gives a reason.
  unfoldable pub unavailable : String → String → String → Builder F → Builder F
  unavailable field state reason b = record {
    payload = insert field Value.null b.payload;
    availability = insert field state b.availability;
    reasons = insert field reason b.reasons;
  }

  abbrev pub out_of_contract : String → Builder F → Builder F
  out_of_contract field b = unavailable field "UNKNOWN" "value_out_of_contract" b

  -- `.pop(f, None)` on both, then `unavailable`: the loop over the hidden fields
  unfoldable pub hide : String → Builder F → Builder F
  hide field b =
      unavailable field "UNKNOWN" "direction_not_observed"
        (record b { availability = erase field b.availability; reasons = erase field b.reasons })

module _ {F : Type 0} where
  -- The shape of `count`, `seconds`, `boolean` and `text`: None, a value that the contract accepts, or
  -- another one.
  unfoldable pub field_of :
      {A : Type 0}
      → Seen A
      → (A → Option (Value F))
      → String
      → String
      → String
      → Builder F
      → Builder F
  field_of absent accept field state reason b = unavailable field state reason b
  field_of wrong accept field state reason b = out_of_contract field b
  field_of (found v) accept field state reason b = elim (accept v) [
    | none ↦ out_of_contract field b
    | some x ↦ put field x b
  ]

  -- `0 <= v <= maximum`
  unfoldable pub count_value : ℕ → ℤ → Option (Value F)
  count_value maximum (pos v) = if leb v maximum then some (number v) else none
  count_value maximum (negsuc _) = none

module _ {D F : Type 0} where
  unfoldable pub count : Record D → String → String → ℕ → String → String → Builder F → Builder F
  unfolding field_of count_value
  count n zeek field maximum state reason b =
      field_of (as_int (get n zeek)) (count_value maximum) field state reason b

  unfoldable pub port : Record D → String → String → Builder F → Builder F
  unfolding count
  port n zeek field b = count n zeek field 65535 "MISSING" "zeek_field_absent" b

  unfoldable pub seconds :
      Tools D F → Record D → String → String → String → String → Builder F → Builder F
  unfolding field_of
  seconds t n zeek field state reason b =
      field_of (as_num t.of_int (get n zeek))
        (λ d. if t.up_to 31536000 d then some (duration (t.float d)) else none) field state reason b

  unfoldable pub boolean : Record D → String → String → String → String → Builder F → Builder F
  unfolding field_of
  boolean n zeek field state reason b =
      field_of (as_bool (get n zeek)) (λ v. some (flag v)) field state reason b

  -- The pattern of None is the one that accepts every text.
  unfoldable pub text :
      Record D → String → String → (Text → Bool) → ℕ → String → String → Builder F → Builder F
  unfolding field_of
  text n zeek field pattern max_len state reason b =
      field_of (as_text (get n zeek))
        (λ v. if leb (length v) max_len && pattern v then some (words v) else none) field state
        reason b
