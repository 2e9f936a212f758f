-- ===== src/Sender/Normalizer/Steps.antt =====
-- The fields of each type of record, written once each, keep the builder in step.
use Prim.Native.String.{String}
use ot_security.Common.{
  ℕ, ◌≡◌, refl, Bool, false, ◌&&◌, none, some, List, ◌∷◌, arith, leb, if◌then◌else◌, length,
}
use ot_security.Common.Int.{ℤ, pos, negsuc}
use ot_security.Common.Dict.{Text}
use ot_security.Common.Strings.{listed, string_eq}
use ot_security.Sender.Normalizer.Payload.{
  Record, Tools, Value, duration, flag, words, Builder, get, as_int, as_num, as_bool, as_text,
  count_value, count, seconds, boolean, text, put,
}
use ot_security.Sender.Normalizer.Consistent.{IsBuilt, is_null, put-IsBuilt, field_of-IsBuilt}

module _ {F : Type 0} (fs : List String) (f : String) (b : Builder F) (built : IsBuilt fs b)
    (new : listed fs f ≡ false) where
  pub put_text : (s : Text) → IsBuilt (f ∷ fs) (put f (words s) b)
  unfolding is_null
  put_text s = put-IsBuilt fs f b built (words s) refl new

  module _ {D : Type 0} (n : Record D) (zeek state reason : String) where
    pub count-IsBuilt : (maximum : ℕ) → IsBuilt (f ∷ fs) (count n zeek f maximum state reason b)
    unfolding count count_value is_null
    count-IsBuilt maximum =
        field_of-IsBuilt fs f b built (as_int (get n zeek)) (count_value maximum) state reason
          accepted new
      where
        accepted : (z : ℤ) (v : Value F) → count_value maximum z ≡ some v → is_null v ≡ false
        accepted (pos k) v h = ground arith
        accepted (negsuc k) v h = absurd (cc)

    pub boolean-IsBuilt : IsBuilt (f ∷ fs) (boolean n zeek f state reason b)
    unfolding boolean is_null
    boolean-IsBuilt =
        field_of-IsBuilt fs f b built (as_bool (get n zeek)) (λ v. some (flag v)) state reason
          (λ a v h. ground arith) new

    pub text-IsBuilt :
        (pattern : Text → Bool) (max_len : ℕ)
        → IsBuilt (f ∷ fs) (text n zeek f pattern max_len state reason b)
    unfolding text is_null
    text-IsBuilt pattern max_len =
        field_of-IsBuilt fs f b built (as_text (get n zeek))
          (λ v. if leb (length v) max_len && pattern v then some (words v) else none) state reason
          (λ a v h. ground arith) new

    pub seconds-IsBuilt : (t : Tools D F) → IsBuilt (f ∷ fs) (seconds t n zeek f state reason b)
    unfolding seconds is_null
    seconds-IsBuilt t =
        field_of-IsBuilt fs f b built (as_num t.of_int (get n zeek))
          (λ d. if t.up_to 31536000 d then some (duration (t.float d)) else none) state reason
          (λ a v h. ground arith) new
