-- ===== src/Sender/Normalizer/BuiltOthers.antt =====
-- The fields of a query and of a handshake that are more than one check keep the builder in step.
use Prim.Native.String.{String}
use ot_security.Common.{
  ℕ, ◌≡◌, refl, Bool, true, false, ◌||◌, List, [], ◌∷◌, leb, if◌then◌else◌, length, map, take, ltb,
}
use ot_security.Common.Dict.{Text}
use ot_security.Common.Strings.{listed, string_eq}
use ot_security.Sender.Normalizer.Payload.{
  Json, Record, Tools, number, flag, words, word_list, Builder, Seen, absent, wrong, found, get,
  as_text, as_list, put, unavailable, out_of_contract,
}
use ot_security.Sender.Normalizer.Fields.{str_of}
use ot_security.Sender.Normalizer.Records.{
  add_query, any_long, has_rcode, add_answers, add_cert_chain, is_tls13,
}
use ot_security.Sender.Normalizer.Consistent.{IsBuilt, is_null, put-IsBuilt, unavailable-IsBuilt}
use ot_security.Sender.Normalizer.Steps.{put_text}

module _ {D F : Type 0} (t : Tools D F) (n : Record D) (fs : List String) (b : Builder F)
    (v : IsBuilt fs b) where
  -- A field and the flag that tells whether it was cut.
  truncated-IsBuilt :
      (f g : String) (c : Builder F) (cut : Bool)
      → IsBuilt (f ∷ fs) c
      → listed (f ∷ fs) g ≡ false
      → IsBuilt (g ∷ f ∷ fs) (put g (flag cut) c)
  unfolding is_null
  truncated-IsBuilt f g c cut w new = put-IsBuilt (f ∷ fs) g c w (flag cut) refl new

  pub query-IsBuilt :
      listed fs "query" ≡ false
      → listed ("query" ∷ fs) "query_truncated" ≡ false
      → IsBuilt ("query_truncated" ∷ "query" ∷ fs) (add_query t n b)
  unfolding add_query
  query-IsBuilt new new' = go (as_text (get n "query"))
    where
      go :
          (q : Seen Text)
          → IsBuilt ("query_truncated" ∷ "query" ∷ fs) (elim q [
            | found q ↦
                put "query_truncated"
                  (flag (ltb 255 (length q)))
                  (put "query" (words (take 255 q)) b)
            | absent ↦
                put "query_truncated"
                  (flag false)
                  (unavailable "query" "MISSING" "zeek_field_absent" b)
            | wrong ↦
                put "query_truncated"
                  (flag false)
                  (unavailable "query" "MISSING" "zeek_field_absent" b)
          ])
      go (found q) =
          truncated-IsBuilt "query" "query_truncated" _ _ (put_text fs "query" b v new (take 255 q))
            new'
      go absent =
          truncated-IsBuilt "query" "query_truncated" _ _
            (unavailable-IsBuilt fs "query" b v "MISSING" "zeek_field_absent") new'
      go wrong =
          truncated-IsBuilt "query" "query_truncated" _ _
            (unavailable-IsBuilt fs "query" b v "MISSING" "zeek_field_absent") new'

  pub answers-IsBuilt :
      listed fs "answers" ≡ false
      → listed ("answers" ∷ fs) "answers_truncated" ≡ false
      → IsBuilt ("answers_truncated" ∷ "answers" ∷ fs) (add_answers t n b)
  unfolding add_answers is_null
  answers-IsBuilt new new' = go (as_list (get n "answers"))
    where
      none_observed :
          (c : Bool)
          → IsBuilt ("answers_truncated" ∷ "answers" ∷ fs) (
              if c
              then put "answers_truncated" (flag false) (put "answers" (word_list []) b)
              else put "answers_truncated"
                  (flag false)
                  (unavailable "answers" "MISSING" "no_response_observed" b))
      none_observed true =
          truncated-IsBuilt "answers" "answers_truncated" _ _
            (put-IsBuilt fs "answers" b v (word_list []) refl new) new'
      none_observed false =
          truncated-IsBuilt "answers" "answers_truncated" _ _
            (unavailable-IsBuilt fs "answers" b v "MISSING" "no_response_observed") new'

      go :
          (a : Seen (List (Json D)))
          → IsBuilt ("answers_truncated" ∷ "answers" ∷ fs) (elim a [
            | found vs ↦
                put "answers_truncated"
                  (flag (ltb 16 (length vs) || any_long (map (str_of t) (take 16 vs))))
                  (put "answers" (word_list (map (take 255) (map (str_of t) (take 16 vs)))) b)
            | absent ↦
                if has_rcode b
                then put "answers_truncated" (flag false) (put "answers" (word_list []) b)
                else put "answers_truncated"
                    (flag false)
                    (unavailable "answers" "MISSING" "no_response_observed" b)
            | wrong ↦
                if has_rcode b
                then put "answers_truncated" (flag false) (put "answers" (word_list []) b)
                else put "answers_truncated"
                    (flag false)
                    (unavailable "answers" "MISSING" "no_response_observed" b)
          ])
      go (found vs) =
          truncated-IsBuilt "answers" "answers_truncated" _ _
            (put-IsBuilt fs "answers" b v _ refl new) new'
      go absent = none_observed (has_rcode b)
      go wrong = none_observed (has_rcode b)

  pub chain-IsBuilt :
      listed fs "cert_chain_len" ≡ false → IsBuilt ("cert_chain_len" ∷ fs) (add_cert_chain t n b)
  unfolding add_cert_chain is_null
  chain-IsBuilt new = go (as_list (get n "cert_chain_fps"))
    where
      hidden_reason : String
      hidden_reason =
          if is_tls13 t n then "tls13_certificates_encrypted" else "no_certificate_observed"

      counted :
          (k : ℕ) (c : Bool)
          → IsBuilt
              ("cert_chain_len" ∷ fs)
              (if c then put "cert_chain_len" (number k) b else out_of_contract "cert_chain_len" b)
      counted k true = put-IsBuilt fs "cert_chain_len" b v (number k) refl new
      counted k false =
          unavailable-IsBuilt fs "cert_chain_len" b v "UNKNOWN" "value_out_of_contract"

      go :
          (a : Seen (List (Json D)))
          → IsBuilt ("cert_chain_len" ∷ fs) (elim a [
            | found vs ↦
                if leb (length vs) 32
                then put "cert_chain_len" (number (length vs)) b
                else out_of_contract "cert_chain_len" b
            | absent ↦ unavailable "cert_chain_len" "UNKNOWN" hidden_reason b
            | wrong ↦ unavailable "cert_chain_len" "UNKNOWN" hidden_reason b
          ])
      go (found vs) = counted (length vs) (leb (length vs) 32)
      go absent = unavailable-IsBuilt fs "cert_chain_len" b v "UNKNOWN" hidden_reason
      go wrong = unavailable-IsBuilt fs "cert_chain_len" b v "UNKNOWN" hidden_reason
