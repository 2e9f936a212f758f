-- ===== src/Sender/Normalizer/Records.antt =====
-- ingest/sender/sih_sender/normalizer.py: the payload of each type of record.
use Prim.Native.String.{String}
use ot_security.Common.{
  Bool, true, false, ◌||◌, Option, none, some, List, [], ◌∷◌, ltb, leb, if◌then◌else◌, length, take,
  map, Outcome, ok, err, ◌>>=◌, ◌>>◌, ensure,
}
use ot_security.Common.Dict.{Text, lookup}
use ot_security.Common.Strings.{same, string_eq}
use ot_security.Sender.Normalizer.Payload.{
  Json, none_value, str_value, list_value, dict_value, Record, Tools, items, Value, null, words,
  word_list, number, flag, Builder, get, put, unavailable, out_of_contract, hide, count, seconds,
  boolean, text, max_safe, Seen, absent, wrong, found, as_text, as_list, field_of,
}
use ot_security.Sender.Normalizer.Fields.{
  Error, normalization_error, type_error, uid_pattern, service_pattern, history_pattern,
  ssl_history_pattern, qtype_pattern, rcode_pattern, tls_version_pattern, cipher_pattern,
  curve_pattern, weird_name_ok, text_in, conn_states, counters, is_ip, str_of, join_comma,
  endpoints, transport,
}

-- The pattern None
abbrev pub any_text : Text → Bool
any_text s = true

module _ {F : Type 0} where
  -- `for f in hidden`
  unfoldable pub hide_all : List String → Builder F → Builder F
  hide_all [] b = b
  hide_all (f ∷ fs) b = hide_all fs (hide f b)

-- `hidden`: the counters of the direction that the sensor does not see
unfoldable pub hidden : String → List String
hidden coverage =
    if same coverage "originator_only"
    then "resp_bytes" ∷ "resp_pkts" ∷ "resp_ip_bytes" ∷ []
    else if same coverage "responder_only"
    then "orig_bytes" ∷ "orig_pkts" ∷ "orig_ip_bytes" ∷ []
    else []

-- A list or a dict cannot be looked up in `CONN_STATES`.
unfoldable pub hashable : {D : Type 0} → Json D → Bool
hashable (list_value _) = false
hashable dict_value = false
hashable _ = true

-- Whether an answer, or the list of them, is cut
unfoldable pub any_long : List Text → Bool
any_long [] = false
any_long (s ∷ ss) = ltb 255 (length s) || any_long ss

-- The payload's `rcode` is not None
unfoldable pub has_rcode : {F : Type 0} → Builder F → Bool
has_rcode b = elim (lookup "rcode" b.payload) [
  | none ↦ false
  | some null ↦ false
  | some (number _) ↦ true
  | some (Value.duration _) ↦ true
  | some (flag _) ↦ true
  | some (words _) ↦ true
  | some (word_list _) ↦ true
]

module _ {D F : Type 0} (t : Tools D F) (n : Record D) where
  -- A list of services is joined.
  unfoldable pub services : Json D → Seen Text
  services (list_value vs) = found (join_comma t (items vs))
  services none_value = absent
  services (str_value s) = found s
  services _ = wrong

  unfoldable pub add_service : Builder F → Builder F
  add_service b =
      field_of (services (get n "service"))
        (λ s. if service_pattern s then some (words s) else none) "service" "UNKNOWN"
        "no_protocol_identified" b

  -- `for f in COUNTERS`
  unfoldable pub add_counters : List String → Builder F → Builder F
  add_counters [] b = b
  add_counters (f ∷ fs) b = add_counters fs (count n f f max_safe "MISSING" "zeek_field_absent" b)

  unfoldable pub add_conn_state : Builder F → Outcome Error (Builder F)
  add_conn_state b = do
    ensure (hashable (get n "conn_state")) type_error
    ok (
        field_of (as_text (get n "conn_state"))
          (λ s. if text_in conn_states s then some (words s) else none) "conn_state" "MISSING"
          "zeek_field_absent" b)

  -- The fields of a terminal record
  unfoldable pub add_terminal : Builder F → Outcome Error (Builder F)
  add_terminal b = do
    b1 ←
        add_conn_state
          (count n "missed_bytes" "missed_bytes" max_safe "MISSING" "zeek_field_absent" b)
    let b2 = boolean n "local_orig" "local_orig" "UNKNOWN" "site_networks_unconfigured" b1
    ok (boolean n "local_resp" "local_resp" "UNKNOWN" "site_networks_unconfigured" b2)

  -- `_conn_like`
  unfoldable pub conn_like : String → Bool → Builder F → Outcome Error (Text × Builder F)
  conn_like coverage terminal b0 = do
    (uid, b1) ← endpoints t n b0
    let b2 = add_service (put "proto" (words (transport n)) b1)
    let b3 = seconds t n "duration" "duration_s" "MISSING" "zeek_field_absent" b2
    let b4 =
        text n "history" "history" history_pattern 64 "MISSING" "zeek_field_absent"
          (add_counters counters b3)
    b5 ← if terminal then add_terminal b4 else ok b4
    ok (uid, hide_all (hidden coverage) b5)

  unfoldable pub add_query : Builder F → Builder F
  add_query b =
      let absent_query =
        put "query_truncated" (flag false) (unavailable "query" "MISSING" "zeek_field_absent" b) in
      elim (as_text (get n "query")) [
        | found q ↦
            put "query_truncated" (flag (ltb 255 (length q))) (put "query" (words (take 255 q)) b)
        | absent ↦ absent_query
        | wrong ↦ absent_query
      ]

  unfoldable pub add_answers : Builder F → Builder F
  add_answers b =
      let no_answers =
        if has_rcode b
        then put "answers_truncated" (flag false) (put "answers" (word_list []) b)
        else put "answers_truncated" (flag false)
            (unavailable "answers" "MISSING" "no_response_observed" b) in
      elim (as_list (get n "answers")) [
        | found vs ↦
            let kept = map (str_of t) (take 16 vs) in
            put "answers_truncated" (flag (ltb 16 (length vs) || any_long kept))
              (put "answers" (word_list (map (take 255) kept)) b)
        | absent ↦ no_answers
        | wrong ↦ no_answers
      ]

  -- `_dns`
  unfoldable pub dns : Builder F → Outcome Error (Text × Builder F)
  dns b0 = do
    (uid, b1) ← endpoints t n b0
    let proto = transport n
    ensure (text_in ("udp" ∷ "tcp" ∷ []) proto) (normalization_error "dns proto must be udp or tcp")
    let b2 =
        count n "trans_id" "trans_id" 65535 "MISSING" "zeek_field_absent"
          (put "proto" (words proto) b1)
    let b3 = add_query (seconds t n "rtt" "rtt_s" "MISSING" "no_response_observed" b2)
    let b4 = count n "qclass" "qclass" 65535 "MISSING" "zeek_field_absent" b3
    let b5 = count n "qtype" "qtype" 65535 "MISSING" "zeek_field_absent" b4
    let b6 = text n "qtype_name" "qtype_name" qtype_pattern 16 "MISSING" "zeek_field_absent" b5
    let b7 = count n "rcode" "rcode" 65535 "MISSING" "no_response_observed" b6
    let b8 = text n "rcode_name" "rcode_name" rcode_pattern 32 "MISSING" "no_response_observed" b7
    let b9 = boolean n "AA" "aa" "MISSING" "zeek_field_absent" b8
    let b10 = boolean n "TC" "tc" "MISSING" "zeek_field_absent" b9
    let b11 = boolean n "RD" "rd" "MISSING" "zeek_field_absent" b10
    let b12 = boolean n "RA" "ra" "MISSING" "zeek_field_absent" b11
    ok (uid, boolean n "rejected" "rejected" "MISSING" "zeek_field_absent" (add_answers b12))

  -- `n.get("version") == "TLSv13"`
  unfoldable pub is_tls13 : Bool
  is_tls13 = elim (as_text (get n "version")) [
    | found v ↦ text_in ("TLSv13" ∷ []) v
    | absent ↦ false
    | wrong ↦ false
  ]

  unfoldable pub add_cert_chain : Builder F → Builder F
  add_cert_chain b =
      let no_chain =
        unavailable "cert_chain_len" "UNKNOWN"
          (if is_tls13 then "tls13_certificates_encrypted" else "no_certificate_observed") b in
      elim (as_list (get n "cert_chain_fps")) [
        | found vs ↦
            if leb (length vs) 32
            then put "cert_chain_len" (number (length vs)) b
            else out_of_contract "cert_chain_len" b
        | absent ↦ no_chain
        | wrong ↦ no_chain
      ]

  -- `_ssl`
  unfoldable pub ssl : Builder F → Outcome Error (Text × Builder F)
  ssl b0 = do
    (uid, b1) ← endpoints t n b0
    let b2 = text n "version" "version" tls_version_pattern 16 "MISSING" "handshake_incomplete" b1
    let b3 = text n "cipher" "cipher" cipher_pattern 128 "MISSING" "handshake_incomplete" b2
    let b4 = text n "curve" "curve" curve_pattern 64 "UNKNOWN" "zeek_field_absent" b3
    let b5 = text n "server_name" "server_name" any_text 255 "MISSING" "not_sent_by_client" b4
    let b6 = boolean n "resumed" "resumed" "MISSING" "zeek_field_absent" b5
    let b7 = boolean n "established" "established" "MISSING" "zeek_field_absent" b6
    let b8 =
        text n "next_protocol" "next_protocol" any_text 64 "NOT_APPLICABLE" "alpn_not_negotiated" b7
    let b9 =
        text n "ssl_history" "ssl_history" ssl_history_pattern 64 "MISSING" "zeek_field_absent" b8
    let b10 =
        text n "validation_status" "validation_status" any_text 128 "UNKNOWN"
          "validation_not_configured" b9
    ok (
      uid,
      boolean n "sni_matches_cert" "sni_matches_cert" "UNKNOWN" "zeek_field_absent"
          (add_cert_chain b10),
    )

  unfoldable pub optional_uid : Option Text
  optional_uid = elim (as_text (get n "uid")) [
    | found u ↦ if uid_pattern u then some u else none
    | absent ↦ none
    | wrong ↦ none
  ]

  unfoldable pub add_uid : Builder F → Builder F
  add_uid b = elim optional_uid [
    | some u ↦ put "uid" (words u) b
    | none ↦ unavailable "uid" "NOT_APPLICABLE" "not_connection_scoped" b
  ]

  unfoldable pub add_ip : String → String → Builder F → Builder F
  add_ip zeek field b =
      field_of (as_text (get n zeek)) (λ v. if is_ip t v then some (words v) else none) field
        "NOT_APPLICABLE" "not_connection_scoped" b

  -- 95 is the underscore.
  unfoldable pub weird_name : Outcome Error Text
  weird_name = elim (as_text (get n "name")) [
    | found [] ↦ err (normalization_error "weird name missing")
    | found (c ∷ cs) ↦ ok (take 128 (map (λ x. if weird_name_ok x then x else 95) (c ∷ cs)))
    | absent ↦ err (normalization_error "weird name missing")
    | wrong ↦ err (normalization_error "weird name missing")
  ]

  -- Every value but None, as its text
  unfoldable pub any_value : Json D → Seen Text
  any_value none_value = absent
  any_value v = found (str_of t v)

  unfoldable pub add_addl : Builder F → Builder F
  add_addl b =
      field_of (any_value (get n "addl")) (λ s. some (words (take 256 s))) "addl" "NOT_APPLICABLE"
        "no_additional_info" b

  -- `_weird`
  unfoldable pub weird : Builder F → Outcome Error (Option Text × Builder F)
  weird b0 = do
    let b1 = add_ip "id.resp_h" "dst_ip" (add_ip "id.orig_h" "src_ip" (add_uid b0))
    let b2 = count n "id.orig_p" "src_port" 65535 "NOT_APPLICABLE" "not_connection_scoped" b1
    let b3 = count n "id.resp_p" "dst_port" 65535 "NOT_APPLICABLE" "not_connection_scoped" b2
    name ← weird_name
    let b4 =
        boolean n "notice" "notice" "MISSING" "zeek_field_absent"
          (add_addl (put "name" (words name) b3))
    let b5 = text n "peer" "peer" any_text 64 "MISSING" "zeek_field_absent" b4
    ok (optional_uid, text n "source" "source" any_text 64 "NOT_APPLICABLE" "zeek_field_absent" b5)
