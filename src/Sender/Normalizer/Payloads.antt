-- ===== src/Sender/Normalizer/Payloads.antt =====
-- The payloads of queries, handshakes, weird records and snapshots, whole.
use Prim.Native.String.{String}
use ot_security.Common.{
  ◌≡◌, refl, false, Option, none, some, List, [], ◌∷◌, arith, if◌then◌else◌, ok, Yields,
  bind-Yields, ensure-Yields, take,
}
use ot_security.Common.Dict.{Text}
use ot_security.Common.Strings.{listed, string_dec, dec_of, string_eq}
use ot_security.Sender.Normalizer.Payload.{
  Record, Tools, words, Builder, empty, get, as_text, count, seconds, boolean, text, put,
  unavailable,
}
use ot_security.Sender.Normalizer.Fields.{
  Error, normalization_error, endpoints, transport, text_in, is_ip, qtype_pattern, rcode_pattern,
  tls_version_pattern, cipher_pattern, curve_pattern, ssl_history_pattern,
}
use ot_security.Sender.Normalizer.Records.{
  add_query, add_answers, dns, any_text, ssl, optional_uid, add_uid, add_ip, weird_name, any_value,
  add_addl, weird,
}
use ot_security.Sender.Normalizer.Consistent.{
  IsBuilt, is_null, empty-IsBuilt, unavailable-IsBuilt, field_of-IsBuilt,
}
use ot_security.Sender.Normalizer.Steps.{
  put_text, count-IsBuilt, boolean-IsBuilt, text-IsBuilt, seconds-IsBuilt,
}
use ot_security.Sender.Normalizer.Built.{Builds, anything, endpoint_fields, endpoints-Builds}
use ot_security.Sender.Normalizer.BuiltOthers.{query-IsBuilt, answers-IsBuilt, chain-IsBuilt}

abbrev pub dns_fields : List String
dns_fields =
    "rejected" ∷ "answers_truncated" ∷ "answers" ∷ "ra" ∷ "rd" ∷ "tc" ∷ "aa" ∷ "rcode_name"
    ∷ "rcode" ∷ "qtype_name" ∷ "qtype" ∷ "qclass" ∷ "query_truncated" ∷ "query" ∷ "rtt_s"
    ∷ "trans_id" ∷ "proto" ∷ endpoint_fields

abbrev pub ssl_fields : List String
ssl_fields =
    "sni_matches_cert" ∷ "cert_chain_len" ∷ "validation_status" ∷ "ssl_history" ∷ "next_protocol"
    ∷ "established" ∷ "resumed" ∷ "server_name" ∷ "curve" ∷ "cipher" ∷ "version" ∷ endpoint_fields

abbrev pub weird_fields : List String
weird_fields =
    "source" ∷ "peer" ∷ "notice" ∷ "addl" ∷ "name" ∷ "dst_port" ∷ "src_port" ∷ "dst_ip" ∷ "src_ip"
    ∷ "uid" ∷ []

module _ {D F : Type 0} (t : Tools D F) (n : Record D) where
  -- The fields of a query, after the endpoints.
  dns_body :
      (b : Builder F)
      → IsBuilt endpoint_fields b
      → let b2 =
          count n "trans_id" "trans_id" 65535 "MISSING" "zeek_field_absent"
            (put "proto" (words (transport n)) b) in
        let b3 = add_query t n (seconds t n "rtt" "rtt_s" "MISSING" "no_response_observed" b2) in
        let b4 = count n "qclass" "qclass" 65535 "MISSING" "zeek_field_absent" b3 in
        let b5 = count n "qtype" "qtype" 65535 "MISSING" "zeek_field_absent" b4 in
        let b6 =
          text n "qtype_name" "qtype_name" qtype_pattern 16 "MISSING" "zeek_field_absent" b5 in
        let b7 = count n "rcode" "rcode" 65535 "MISSING" "no_response_observed" b6 in
        let b8 =
          text n "rcode_name" "rcode_name" rcode_pattern 32 "MISSING" "no_response_observed" b7 in
        let b9 = boolean n "AA" "aa" "MISSING" "zeek_field_absent" b8 in
        let b10 = boolean n "TC" "tc" "MISSING" "zeek_field_absent" b9 in
        let b11 = boolean n "RD" "rd" "MISSING" "zeek_field_absent" b10 in
        let b12 = boolean n "RA" "ra" "MISSING" "zeek_field_absent" b11 in
        IsBuilt dns_fields
          (boolean n "rejected" "rejected" "MISSING" "zeek_field_absent" (add_answers t n b12))
  unfolding listed string_dec dec_of
  dns_body b v =
      let v1 = put_text _ "proto" b v refl (transport n) in
      let v2 =
        count-IsBuilt _ "trans_id" _ v1 refl n "trans_id" "MISSING" "zeek_field_absent" 65535 in
      let v3 = seconds-IsBuilt _ "rtt_s" _ v2 refl n "rtt" "MISSING" "no_response_observed" t in
      let v4 = query-IsBuilt t n _ _ v3 refl refl in
      let v5 = count-IsBuilt _ "qclass" _ v4 refl n "qclass" "MISSING" "zeek_field_absent" 65535 in
      let v6 = count-IsBuilt _ "qtype" _ v5 refl n "qtype" "MISSING" "zeek_field_absent" 65535 in
      let v7 =
        text-IsBuilt _ "qtype_name" _ v6 refl n "qtype_name" "MISSING" "zeek_field_absent"
          qtype_pattern 16 in
      let v8 = count-IsBuilt _ "rcode" _ v7 refl n "rcode" "MISSING" "no_response_observed" 65535 in
      let v9 =
        text-IsBuilt _ "rcode_name" _ v8 refl n "rcode_name" "MISSING" "no_response_observed"
          rcode_pattern 32 in
      let v10 = boolean-IsBuilt _ "aa" _ v9 refl n "AA" "MISSING" "zeek_field_absent" in
      let v11 = boolean-IsBuilt _ "tc" _ v10 refl n "TC" "MISSING" "zeek_field_absent" in
      let v12 = boolean-IsBuilt _ "rd" _ v11 refl n "RD" "MISSING" "zeek_field_absent" in
      let v13 = boolean-IsBuilt _ "ra" _ v12 refl n "RA" "MISSING" "zeek_field_absent" in
      let v14 = answers-IsBuilt t n _ _ v13 refl refl in
      boolean-IsBuilt _ "rejected" _ v14 refl n "rejected" "MISSING" "zeek_field_absent"

  pub dns-IsBuilt : Yields (Builds dns_fields) (dns t n (empty {F = F}))
  unfolding dns
  dns-IsBuilt =
      bind-Yields (Builds endpoint_fields) (Builds dns_fields) (endpoints t n empty) _
        (endpoints-Builds t n)
        (λ r v.
          ensure-Yields {E = Error} {B = Text × Builder F} (Builds dns_fields)
            (text_in ("udp" ∷ "tcp" ∷ []) (transport n))
            (normalization_error "dns proto must be udp or tcp") (ok (r.0, _)) (dns_body r.1 v))

  pub ssl-IsBuilt : Yields (Builds ssl_fields) (ssl t n (empty {F = F}))
  unfolding ssl listed string_dec dec_of
  ssl-IsBuilt =
      bind-Yields (Builds endpoint_fields) (Builds ssl_fields) (endpoints t n empty) _
        (endpoints-Builds t n)
        (λ r v.
          let v1 =
            text-IsBuilt _ "version" _ v refl n "version" "MISSING" "handshake_incomplete"
              tls_version_pattern 16 in
          let v2 =
            text-IsBuilt _ "cipher" _ v1 refl n "cipher" "MISSING" "handshake_incomplete"
              cipher_pattern 128 in
          let v3 =
            text-IsBuilt _ "curve" _ v2 refl n "curve" "UNKNOWN" "zeek_field_absent" curve_pattern
              64 in
          let v4 =
            text-IsBuilt _ "server_name" _ v3 refl n "server_name" "MISSING" "not_sent_by_client"
              any_text 255 in
          let v5 =
            boolean-IsBuilt _ "resumed" _ v4 refl n "resumed" "MISSING" "zeek_field_absent" in
          let v6 =
            boolean-IsBuilt _ "established" _ v5 refl n "established" "MISSING"
              "zeek_field_absent" in
          let v7 =
            text-IsBuilt _ "next_protocol" _ v6 refl n "next_protocol" "NOT_APPLICABLE"
              "alpn_not_negotiated" any_text 64 in
          let v8 =
            text-IsBuilt _ "ssl_history" _ v7 refl n "ssl_history" "MISSING" "zeek_field_absent"
              ssl_history_pattern 64 in
          let v9 =
            text-IsBuilt _ "validation_status" _ v8 refl n "validation_status" "UNKNOWN"
              "validation_not_configured" any_text 128 in
          let v10 = chain-IsBuilt t n _ _ v9 refl in
          boolean-IsBuilt _ "sni_matches_cert" _ v10 refl n "sni_matches_cert" "UNKNOWN"
            "zeek_field_absent")

  uid-IsBuilt : IsBuilt ("uid" ∷ []) (add_uid t n (empty {F = F}))
  unfolding add_uid listed string_dec dec_of
  uid-IsBuilt = go (optional_uid t n)
    where
      go :
          (o : Option Text)
          → IsBuilt ("uid" ∷ []) (elim o [
            | some u ↦ put "uid" (words u) (empty {F = F})
            | none ↦ unavailable "uid" "NOT_APPLICABLE" "not_connection_scoped" (empty {F = F})
          ])
      go none =
          unavailable-IsBuilt [] "uid" empty empty-IsBuilt "NOT_APPLICABLE" "not_connection_scoped"
      go (some u) = put_text [] "uid" empty empty-IsBuilt refl u

  ip-IsBuilt :
      (fs : List String) (b : Builder F) (zeek f : String)
      → IsBuilt fs b
      → listed fs f ≡ false
      → IsBuilt (f ∷ fs) (add_ip t n zeek f b)
  unfolding add_ip is_null
  ip-IsBuilt fs b zeek f v new =
      field_of-IsBuilt fs f b v (as_text (get n zeek))
        (λ s. if is_ip t s then some (words s) else none) "NOT_APPLICABLE" "not_connection_scoped"
        (λ a w h. ground arith) new

  addl-IsBuilt :
      (fs : List String) (b : Builder F)
      → IsBuilt fs b
      → listed fs "addl" ≡ false
      → IsBuilt ("addl" ∷ fs) (add_addl t n b)
  unfolding add_addl is_null
  addl-IsBuilt fs b v new =
      field_of-IsBuilt fs "addl" b v (any_value t n (get n "addl")) (λ s. some (words (take 256 s)))
        "NOT_APPLICABLE" "no_additional_info" (λ a w h. ground arith) new

  pub weird-IsBuilt : Yields (Builds weird_fields) (weird t n (empty {F = F}))
  unfolding weird listed string_dec dec_of
  weird-IsBuilt =
      bind-Yields (λ u. Unit {0}) (Builds weird_fields) (weird_name t n) _ (anything _)
        (λ name h.
          let v1 = uid-IsBuilt in
          let v2 = ip-IsBuilt _ _ "id.orig_h" "src_ip" v1 refl in
          let v3 = ip-IsBuilt _ _ "id.resp_h" "dst_ip" v2 refl in
          let v4 =
            count-IsBuilt _ "src_port" _ v3 refl n "id.orig_p" "NOT_APPLICABLE"
              "not_connection_scoped" 65535 in
          let v5 =
            count-IsBuilt _ "dst_port" _ v4 refl n "id.resp_p" "NOT_APPLICABLE"
              "not_connection_scoped" 65535 in
          let v6 = put_text _ "name" _ v5 refl name in
          let v7 = addl-IsBuilt _ _ v6 refl in
          let v8 = boolean-IsBuilt _ "notice" _ v7 refl n "notice" "MISSING" "zeek_field_absent" in
          let v9 =
            text-IsBuilt _ "peer" _ v8 refl n "peer" "MISSING" "zeek_field_absent" any_text 64 in
          text-IsBuilt _ "source" _ v9 refl n "source" "NOT_APPLICABLE" "zeek_field_absent" any_text
            64)
