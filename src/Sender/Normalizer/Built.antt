-- ===== src/Sender/Normalizer/Built.antt =====
-- Every payload that a type of record builds is in step with its availability.
use Prim.Native.String.{String}
use ot_security.Common.{
  ◌≡◌, refl, Bool, true, false, ◌&&◌, none, some, List, [], ◌∷◌, arith, if◌then◌else◌, Bool-cases,
  inl, inr, Outcome, ok, err, Yields, bind-Yields, ensure-Yields,
}
use ot_security.Common.Strings.{listed, string_dec, dec_of, same, string_eq}
use ot_security.Sender.Normalizer.Payload.{
  Record, Tools, words, Builder, empty, get, as_text, port, seconds, text, put, max_safe, hide,
}
use ot_security.Sender.Normalizer.Fields.{
  type_error, endpoints, required_uid, required_ip, transport, counters, text_in, conn_states,
  service_pattern, history_pattern,
}
use ot_security.Sender.Normalizer.Records.{
  hide_all, hidden, services, add_service, add_counters, hashable, add_conn_state, add_terminal,
  conn_like,
}
use ot_security.Sender.Normalizer.Consistent.{
  IsBuilt, is_null, empty-IsBuilt, hide-IsBuilt, known-IsBuilt, field_of-IsBuilt,
}
use ot_security.Sender.Normalizer.Steps.{
  put_text, count-IsBuilt, boolean-IsBuilt, text-IsBuilt, seconds-IsBuilt,
}

-- The value is a text and a builder that is in step.
abbrev pub Builds : {A F : Type 0} → List String → A × Builder F → Type 0
Builds fs (_, b) = IsBuilt fs b

pub anything : {E : Type 0} {A : Type 0} (m : Outcome E A) → Yields (λ a. Unit {0}) m
anything (err e) = tt
anything (ok a) = tt

abbrev pub endpoint_fields : List String
endpoint_fields = "dst_port" ∷ "dst_ip" ∷ "src_port" ∷ "src_ip" ∷ "uid" ∷ []

module _ {D F : Type 0} (t : Tools D F) (n : Record D) where
  pub endpoints-Builds : Yields (Builds endpoint_fields) (endpoints {F = F} t n empty)
  unfolding endpoints port listed string_dec dec_of
  endpoints-Builds =
      bind-Yields (λ u. Unit {0}) (Builds endpoint_fields) (required_uid t n) _ (anything _)
        (λ uid h1.
          bind-Yields (λ u. Unit {0}) (Builds endpoint_fields) (required_ip t n "id.orig_h") _
            (anything _)
            (λ src h2.
              bind-Yields (λ u. Unit {0}) (Builds endpoint_fields) (required_ip t n "id.resp_h") _
                (anything _)
                (λ dst h3.
                  let v1 = put_text [] "uid" empty empty-IsBuilt refl uid in
                  let v2 = put_text _ "src_ip" _ v1 refl src in
                  let v3 =
                    count-IsBuilt _ "src_port" _ v2 refl n "id.orig_p" "MISSING" "zeek_field_absent"
                      65535 in
                  let v4 = put_text _ "dst_ip" _ v3 refl dst in
                  count-IsBuilt _ "dst_port" _ v4 refl n "id.resp_p" "MISSING" "zeek_field_absent"
                    65535)))

-- The names of the list are among the fields.
all_listed : List String → List String → Bool
all_listed fs [] = true
all_listed fs (g ∷ gs) = listed fs g && all_listed fs gs

hide_all-IsBuilt :
    {F : Type 0} (fs gs : List String) (b : Builder F)
    → all_listed fs gs ≡ true
    → IsBuilt fs b
    → IsBuilt fs (hide_all gs b)
unfolding hide_all all_listed
hide_all-IsBuilt fs [] b h v = v
hide_all-IsBuilt fs (g ∷ gs) b h v =
    hide_all-IsBuilt fs gs (hide g b) (ground arith)
      (known-IsBuilt fs g (hide g b) (ground arith) (hide-IsBuilt fs g b v))

abbrev pub snapshot_fields : List String
snapshot_fields =
    "history" ∷ "resp_ip_bytes" ∷ "orig_ip_bytes" ∷ "resp_pkts" ∷ "orig_pkts" ∷ "resp_bytes"
    ∷ "orig_bytes" ∷ "duration_s" ∷ "service" ∷ "proto" ∷ endpoint_fields

abbrev pub conn_fields : List String
conn_fields = "local_resp" ∷ "local_orig" ∷ "conn_state" ∷ "missed_bytes" ∷ snapshot_fields

hidden_listed :
    (coverage : String) (fs : List String)
    → all_listed fs counters ≡ true
    → all_listed fs (hidden coverage) ≡ true
unfolding hidden all_listed
hidden_listed coverage fs h = elim (Bool-cases (same coverage "originator_only")) [
  | inl e ↦ rw e (ground arith)
  | inr n ↦ elim (Bool-cases (same coverage "responder_only")) [
    | inl e ↦ rw (n, e) (ground arith)
    | inr m ↦ rw (n, m) refl
  ]
]

module _ {D F : Type 0} (t : Tools D F) (n : Record D) where
  service-IsBuilt :
      (fs : List String) (b : Builder F)
      → IsBuilt fs b
      → listed fs "service" ≡ false
      → IsBuilt ("service" ∷ fs) (add_service t n b)
  unfolding add_service is_null
  service-IsBuilt fs b v new =
      field_of-IsBuilt fs "service" b v (services t n (get n "service"))
        (λ s. if service_pattern s then some (words s) else none) "UNKNOWN" "no_protocol_identified"
        (λ a w h. ground arith) new

  -- The fields that a snapshot and a terminal record share.
  common-IsBuilt :
      (b : Builder F)
      → IsBuilt endpoint_fields b
      → let b2 = add_service t n (put "proto" (words (transport n)) b) in
        let b3 = seconds t n "duration" "duration_s" "MISSING" "zeek_field_absent" b2 in
        IsBuilt snapshot_fields (
          text n "history" "history" history_pattern 64 "MISSING" "zeek_field_absent"
            (add_counters t n counters b3))
  unfolding add_counters listed string_dec dec_of
  common-IsBuilt b v =
      let v1 = put_text endpoint_fields "proto" b v refl (transport n) in
      let v2 = service-IsBuilt _ _ v1 refl in
      let v3 =
        seconds-IsBuilt _ "duration_s" _ v2 refl n "duration" "MISSING" "zeek_field_absent" t in
      let c1 =
        count-IsBuilt _ "orig_bytes" _ v3 refl n "orig_bytes" "MISSING" "zeek_field_absent"
          max_safe in
      let c2 =
        count-IsBuilt _ "resp_bytes" _ c1 refl n "resp_bytes" "MISSING" "zeek_field_absent"
          max_safe in
      let c3 =
        count-IsBuilt _ "orig_pkts" _ c2 refl n "orig_pkts" "MISSING" "zeek_field_absent"
          max_safe in
      let c4 =
        count-IsBuilt _ "resp_pkts" _ c3 refl n "resp_pkts" "MISSING" "zeek_field_absent"
          max_safe in
      let c5 =
        count-IsBuilt _ "orig_ip_bytes" _ c4 refl n "orig_ip_bytes" "MISSING" "zeek_field_absent"
          max_safe in
      let c6 =
        count-IsBuilt _ "resp_ip_bytes" _ c5 refl n "resp_ip_bytes" "MISSING" "zeek_field_absent"
          max_safe in
      text-IsBuilt _ "history" _ c6 refl n "history" "MISSING" "zeek_field_absent" history_pattern
        64

  terminal-IsBuilt :
      (b : Builder F)
      → IsBuilt snapshot_fields b
      → Yields (IsBuilt conn_fields) (add_terminal t n b)
  unfolding add_terminal add_conn_state is_null listed string_dec dec_of
  terminal-IsBuilt b v =
      let v1 =
        count-IsBuilt snapshot_fields "missed_bytes" b v refl n "missed_bytes" "MISSING"
          "zeek_field_absent" max_safe in
      let v2 =
        field_of-IsBuilt _ "conn_state" _ v1 (as_text (get n "conn_state"))
          (λ s. if text_in conn_states s then some (words s) else none) "MISSING"
          "zeek_field_absent" (λ a w h. ground arith) refl in
      bind-Yields (IsBuilt ("conn_state" ∷ "missed_bytes" ∷ snapshot_fields)) (IsBuilt conn_fields)
        (add_conn_state t n _) _
        (ensure-Yields (IsBuilt ("conn_state" ∷ "missed_bytes" ∷ snapshot_fields))
          (hashable (get n "conn_state")) type_error _ v2)
        (λ b' w.
          let v3 =
            boolean-IsBuilt _ "local_orig" b' w refl n "local_orig" "UNKNOWN"
              "site_networks_unconfigured" in
          boolean-IsBuilt _ "local_resp" _ v3 refl n "local_resp" "UNKNOWN"
            "site_networks_unconfigured")

  pub conn_like-IsBuilt :
      (coverage : String)
      → Yields (Builds conn_fields) (conn_like t n coverage true (empty {F = F}))
  unfolding conn_like all_listed listed string_dec dec_of
  conn_like-IsBuilt coverage =
      bind-Yields (Builds endpoint_fields) (Builds conn_fields) (endpoints t n empty) _
        (endpoints-Builds t n)
        (λ r v.
          bind-Yields (IsBuilt conn_fields) (Builds conn_fields) (add_terminal t n _) _
            (terminal-IsBuilt _ (common-IsBuilt r.1 v))
            (λ b w.
              hide_all-IsBuilt conn_fields (hidden coverage) b
                (hidden_listed coverage conn_fields refl) w))

  pub snapshot-IsBuilt :
      (coverage : String)
      → Yields (Builds snapshot_fields) (conn_like t n coverage false (empty {F = F}))
  unfolding conn_like all_listed listed string_dec dec_of
  snapshot-IsBuilt coverage =
      bind-Yields (Builds endpoint_fields) (Builds snapshot_fields) (endpoints t n empty) _
        (endpoints-Builds t n)
        (λ r v.
          hide_all-IsBuilt snapshot_fields (hidden coverage) _
            (hidden_listed coverage snapshot_fields refl) (common-IsBuilt r.1 v))
