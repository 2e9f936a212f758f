-- ===== src/Contracts.antt =====
-- lib/sih_common/contracts.py: the rules that a record meets besides its JSON Schema. The schema
-- validator is a parameter.
use Prim.Native.String.{String}
use ot_security.Common.{
  Bool, true, false, not, ◌&&◌, none, some, List, [], ◌∷◌, ◌++◌, if◌then◌else◌, Outcome, ok, err,
}
use ot_security.Common.Int.{ℤ, ltb_ℤ}
use ot_security.Common.Dict.{Dict, lookup}
use ot_security.Common.Strings.{string_eq, same, listed}

-- The codes of the errors, with the field that the message names.
pub data Problem : Type 0 where
  unsupported_schema_version schema original_record_null : Problem
  availability_null availability_on_value availability_unknown_field : String → Problem
  reason_without_availability capped_unknown time_order : String → Problem
  confidence_consistency calibration_consistency model_version_consistency : Problem

-- `key in d`
unfoldable pub has_key : {V : Type 0} → String → Dict String V → Bool
has_key k d = elim (lookup k d) [ none ↦ false | some _ ↦ true ]

-- The loops of `availability_errors`
module _ {V : Type 0} (is_null : V → Bool) where
  unfoldable pub value_errors : Dict String V → Dict String String → List Problem
  value_errors [] availability = []
  value_errors ((key, v) ∷ values) availability =
      let rest = value_errors values availability in
      let marked = has_key key availability in
      let missing = if is_null v && not marked then availability_null key ∷ [] else [] in
      let extra = if not (is_null v) && marked then availability_on_value key ∷ [] else [] in
      missing ++ (extra ++ rest)

unfoldable pub unknown_errors : {V : Type 0} → Dict String V → Dict String String → List Problem
unknown_errors values [] = []
unknown_errors values ((key, _) ∷ availability) =
    let rest = unknown_errors values availability in
    if has_key key values then rest else availability_unknown_field key ∷ rest

unfoldable pub reason_errors : Dict String String → Dict String String → List Problem
reason_errors availability [] = []
reason_errors availability ((key, _) ∷ reasons) =
    let rest = reason_errors availability reasons in
    if has_key key availability then rest else reason_without_availability key ∷ rest

-- `availability_errors`; reasons of None are no reasons.
unfoldable pub availability_errors :
    {V : Type 0}
    → (V → Bool)
    → Dict String V
    → Dict String String
    → Dict String String
    → List Problem
unfolding value_errors unknown_errors reason_errors
availability_errors is_null values availability reasons =
    value_errors is_null values availability
    ++ (unknown_errors values availability ++ reason_errors availability reasons)

-- `_event_rules`
unfoldable pub event_rules :
    {V : Type 0}
    → (V → Bool)
    → Dict String V
    → Dict String String
    → Dict String String
    → Bool
    → Bool
    → List Problem
unfolding availability_errors
event_rules is_null payload availability reasons record_null truncated =
    availability_errors is_null payload availability reasons
    ++ (if record_null && not truncated then original_record_null ∷ [] else [])

-- The fields that `_alert_rules` reads; the times are those that `parse_us` gives.
pub record AlertFields : Type 0 where
  pub confidence_null : Bool
  pub confidence_kind : String
  pub calibration_status : String
  pub model_version_null : Bool
  pub detection_method : String
  pub window_start : ℤ
  pub window_end : ℤ
  pub first_seen : ℤ
  pub last_seen : ℤ

-- `a == b` of Booleans
unfoldable pub iff : Bool → Bool → Bool
iff true b = b
iff false b = not b

unfoldable pub alert_rules : AlertFields → List Problem
alert_rules al =
    let unavailable = same al.confidence_kind "unavailable" in
    let modelled = listed ("model" ∷ "hybrid" ∷ []) al.detection_method in
    (if not (iff al.confidence_null unavailable) then confidence_consistency ∷ [] else [])
    ++ ((if same al.confidence_kind "calibrated_probability"
            && not (same al.calibration_status "calibrated")
          then calibration_consistency ∷ []
          else [])
        ++ ((if iff al.model_version_null modelled then model_version_consistency ∷ [] else [])
            ++ ((if ltb_ℤ al.window_end al.window_start then time_order "window_start" ∷ [] else [])
                ++ (if ltb_ℤ al.last_seen al.first_seen
                    then time_order "first_seen" ∷ []
                    else []))))

-- `for key in fr["capped"]`
unfoldable pub capped_errors :
    {V : Type 0} → (V → Bool) → Dict String V → List String → List Problem
capped_errors is_null values [] = []
capped_errors is_null values (key ∷ capped) =
    let rest = capped_errors is_null values capped in
    elim (lookup key values) [
      | none ↦ capped_unknown key ∷ rest
      | some v ↦ if is_null v then capped_unknown key ∷ rest else rest
    ]

unfoldable pub feature_rules :
    {V : Type 0} → (V → Bool) → Dict String V → Dict String String → List String → List Problem
unfolding availability_errors capped_errors
feature_rules is_null values availability capped =
    availability_errors is_null values availability [] ++ capped_errors is_null values capped

-- What the handling of a record raises and no `except` of it catches: TypeError for a version that cannot be hashed,
-- UnicodeEncodeError for a text with a surrogate, and the ValueError or OverflowError of a time.
pub data RecordError : Type 0 where
  unhashable_version unencodable_text no_time : RecordError

-- The version that a record names: none where it is no dict with that field, a text, another value with a hash, or a
-- list or a dict, for which `in` on a set raises TypeError.
pub data Version : Type 0 where
  unnamed : Version
  named : String → Version
  hashable unhashable : Version

-- `validate`: the version, the errors of the schema, and the cross-field rule of the kind.
unfoldable pub validate : Version → List Problem → List Problem → Outcome RecordError (List Problem)
validate version schema_errors rule_errors =
    let by_schema : List Problem = elim schema_errors [ [] ↦ rule_errors | ◌∷◌ e es ↦ e ∷ es ] in
    elim version [
      | unnamed ↦ ok by_schema
      | named v ↦
          ok (if listed ("1.0.0" ∷ []) v then by_schema else unsupported_schema_version ∷ [])
      | hashable ↦ ok (unsupported_schema_version ∷ [])
      | unhashable ↦ err unhashable_version
    ]
