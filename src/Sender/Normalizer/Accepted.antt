-- ===== src/Sender/Normalizer/Accepted.antt =====
-- A record that the sender normalizes meets the availability rule that the receiver checks.
use Prim.Native.String.{String}
use mathlib.Core.Option.{some-injective}
use ot_security.Common.{
  ◌≡◌, refl, ap, sym, ◌∙◌, Bool, true, false, Option, none, some, List, [], ◌∷◌, arith,
  if◌then◌else◌, Bool-cases, inl, inr, Outcome, ok, Yields, bind-Yields, ensure-Yields, Yields-ok,
}
use ot_security.Common.Int.{ℤ}
use ot_security.Common.Dict.{Dict, Text, lookup, NodupKeys}
use ot_security.Common.Strings.{listed, string_dec, dec_of, same, string_eq}
use ot_security.Contracts.{
  has_key, value_errors, unknown_errors, reason_errors, availability_errors,
}
use ot_security.Sender.Normalizer.Payload.{Value, Builder, number, duration}
use ot_security.Sender.Normalizer.{
  Normalized, log_types, parse, time_of, end_of, has_duration, add_snapshot, snapshot_seq,
  snapshot_interval, of_conn, of_flow_update, of_dns, of_ssl, of_weird, payload_of, normalize,
}
use ot_security.Sender.Normalizer.Payload.{Json, Record, Tools, empty}
use ot_security.Sender.Normalizer.Records.{conn_like, dns, ssl, weird}
use ot_security.Sender.Normalizer.Built.{
  Builds, anything, conn_like-IsBuilt, snapshot-IsBuilt, snapshot_fields, conn_fields,
}
use ot_security.Sender.Normalizer.Payloads.{
  dns-IsBuilt, ssl-IsBuilt, weird-IsBuilt, dns_fields, ssl_fields, weird_fields,
}
use ot_security.Sender.Normalizer.Consistent.{put-IsBuilt}
use ot_security.Sender.Normalizer.Consistent.{IsBuilt, is_null, Agrees, Reasoned}

module _ {V : Type 0} where
  -- A key of the tail is a key of the dict.
  has_key_later :
      (k j : String) (v : V) (d : Dict String V)
      → has_key k d ≡ true
      → has_key k ((j, v) ∷ d) ≡ true
  unfolding has_key lookup
  has_key_later k j v d h = elim (string_dec k j) [ yes e ↦ ground arith | no n ↦ ground arith ]

  has_key_here : (j : String) (v : V) (d : Dict String V) → has_key j ((j, v) ∷ d) ≡ true
  unfolding has_key lookup
  has_key_here j v d = ground arith

  lookup_here : (j : String) (v : V) (d : Dict String V) → lookup j ((j, v) ∷ d) ≡ some v
  unfolding lookup
  lookup_here j v d = ground arith

  -- A member of the tail keeps its value in a dict of distinct keys.
  lookup_later :
      (k j : String) (v w : V) (d : Dict String V)
      → lookup j d ≡ none
      → lookup k d ≡ some w
      → lookup k ((j, v) ∷ d) ≡ some w
  unfolding lookup
  lookup_later k j v w d h g = ground arith

  value_errors_none :
      (is_null : V → Bool) (d : Dict String V) (availability : Dict String String)
      → NodupKeys d
      → ((k : String) (v : V) → lookup k d ≡ some v → has_key k availability ≡ is_null v)
      → value_errors is_null d availability ≡ []
  unfolding value_errors
  value_errors_none is_null [] availability u h = refl
  value_errors_none is_null ((j, v) ∷ d) availability (new, u) h =
      let here = h j v (lookup_here j v d) in
      let later =
        value_errors_none is_null d availability u
          (λ k w g. h k w (lookup_later k j v w d new g)) in
      elim (Bool-cases (is_null v)) [ inl n ↦ ground arith | inr n ↦ ground arith ]

unknown_errors_none :
    {V : Type 0} (values : Dict String V) (availability : Dict String String)
    → ((k : String) → has_key k availability ≡ true → has_key k values ≡ true)
    → unknown_errors values availability ≡ []
unfolding unknown_errors
unknown_errors_none values [] h = refl
unknown_errors_none values ((j, s) ∷ availability) h =
    let later =
      unknown_errors_none values availability (λ k g. h k (has_key_later k j s availability g)) in
    let here = h j (has_key_here j s availability) in ground arith

reason_errors_none :
    (availability reasons : Dict String String)
    → ((k : String) → has_key k reasons ≡ true → has_key k availability ≡ true)
    → reason_errors availability reasons ≡ []
unfolding reason_errors
reason_errors_none availability [] h = refl
reason_errors_none availability ((j, s) ∷ reasons) h =
    let later =
      reason_errors_none availability reasons (λ k g. h k (has_key_later k j s reasons g)) in
    let here = h j (has_key_here j s reasons) in ground arith

module _ {F : Type 0} (fs : List String) (b : Builder F) (built : IsBuilt fs b) where
  marked :
      (o : Option (Value F)) (a : Option String) (v : Value F)
      → Agrees o a
      → o ≡ some v
      → elim a [ none ↦ false | some _ ↦ true ] ≡ is_null v
  marked none a v h e = absurd (cc)
  marked (some w) none v h e = sym h ∙ ap is_null (some-injective w v e)
  marked (some w) (some _) v h e = sym h ∙ ap is_null (some-injective w v e)

  known :
      (o : Option (Value F)) (a : Option String)
      → Agrees o a
      → elim a [ none ↦ false | some _ ↦ true ] ≡ true
      → elim o [ none ↦ false | some _ ↦ true ] ≡ true
  known none none h e = e
  known none (some _) h e = absurd h
  known (some w) a h e = refl

  explained :
      (a r : Option String)
      → Reasoned a r
      → elim r [ none ↦ false | some _ ↦ true ] ≡ true
      → elim a [ none ↦ false | some _ ↦ true ] ≡ true
  explained none none h e = e
  explained none (some _) h e = absurd h
  explained (some w) r h e = refl

  -- A builder that is in step meets the rule.
  pub IsBuilt-availability_errors :
      availability_errors is_null b.payload b.availability b.reasons ≡ []
  unfolding availability_errors has_key
  IsBuilt-availability_errors =
      let values =
        value_errors_none is_null b.payload b.availability built.distinct
          (λ k v g. marked (lookup k b.payload) (lookup k b.availability) v (built.agrees k) g) in
      let unknown =
        unknown_errors_none b.payload b.availability
          (λ k g. known (lookup k b.payload) (lookup k b.availability) (built.agrees k) g) in
      let reasons =
        reason_errors_none b.availability b.reasons
          (λ k g. explained (lookup k b.availability) (lookup k b.reasons) (built.reasoned k) g) in
      rw (values, unknown, reasons) refl

if-Yields :
    {E A : Type 0} (P : A → Type 0) (test : Bool) (m k : Outcome E A)
    → Yields P m
    → Yields P k
    → Yields P (if test then m else k)
if-Yields P true m k h g = h
if-Yields P false m k h g = g

-- The builder of a result meets the rule.
abbrev Meets : {A B F : Type 0} → A × Builder F × B → Type 0
Meets (_, b, _) = availability_errors is_null b.payload b.availability b.reasons ≡ []

module _ {D F : Type 0} (t : Tools D F) (loads : Text → Option (Json D × Record D)) where
  snapshot_put :
      (n : Record D) (b : Builder F)
      → IsBuilt snapshot_fields b
      → Yields
          (IsBuilt ("snapshot_interval_s" ∷ "snapshot_seq" ∷ snapshot_fields))
          (add_snapshot t loads n b)
  unfolding add_snapshot is_null listed string_dec dec_of
  snapshot_put n b v =
      let fs : List String = "snapshot_interval_s" ∷ "snapshot_seq" ∷ snapshot_fields in
      bind-Yields (λ u. Unit {0}) (IsBuilt fs) (snapshot_seq t loads n) _ (anything _)
        (λ seq h.
          bind-Yields (λ u. Unit {0}) (IsBuilt fs) (snapshot_interval t loads n) _ (anything _)
            (λ interval g.
              put-IsBuilt _ "snapshot_interval_s" _
                (put-IsBuilt _ "snapshot_seq" b v (number seq) refl refl) (duration interval) refl
                refl))

  conn-Meets :
      (coverage : String) (n : Record D) (ts : ℤ) → Yields Meets (of_conn t loads coverage n ts)
  unfolding of_conn
  conn-Meets coverage n ts =
      bind-Yields (Builds conn_fields) Meets (conn_like t n coverage true empty) _
        (conn_like-IsBuilt t n coverage)
        (λ r v.
          bind-Yields (λ u. Unit {0}) Meets
            (if has_duration t loads r.1 then end_of t loads n ts else ok ts) _ (anything _)
            (λ emit h. IsBuilt-availability_errors conn_fields r.1 v))

  flow_update-Meets :
      (coverage : String) (n : Record D) (ts : ℤ)
      → Yields Meets (of_flow_update t loads coverage n ts)
  unfolding of_flow_update
  flow_update-Meets coverage n ts =
      bind-Yields (Builds snapshot_fields) Meets (conn_like t n coverage false empty) _
        (snapshot-IsBuilt t n coverage)
        (λ r v.
          bind-Yields (IsBuilt _) Meets (add_snapshot t loads n r.1) _ (snapshot_put n r.1 v)
            (λ b w. IsBuilt-availability_errors _ b w))

  dns-Meets : (n : Record D) (ts : ℤ) → Yields Meets (of_dns t loads n ts)
  unfolding of_dns
  dns-Meets n ts =
      bind-Yields (Builds dns_fields) Meets (dns t n empty) _ (dns-IsBuilt t n)
        (λ r v. IsBuilt-availability_errors dns_fields r.1 v)

  ssl-Meets : (n : Record D) (ts : ℤ) → Yields Meets (of_ssl t loads n ts)
  unfolding of_ssl
  ssl-Meets n ts =
      bind-Yields (Builds ssl_fields) Meets (ssl t n empty) _ (ssl-IsBuilt t n)
        (λ r v. IsBuilt-availability_errors ssl_fields r.1 v)

  weird-Meets : (n : Record D) (ts : ℤ) → Yields Meets (of_weird t loads n ts)
  unfolding of_weird
  weird-Meets n ts =
      bind-Yields (Builds weird_fields) Meets (weird t n empty) _ (weird-IsBuilt t n)
        (λ r v. IsBuilt-availability_errors weird_fields r.1 v)

  payload-Meets :
      (coverage log_type : String) (n : Record D) (ts : ℤ)
      → Yields Meets (payload_of t loads coverage log_type n ts)
  unfolding payload_of
  payload-Meets coverage log_type n ts =
      if-Yields Meets (same log_type "conn") _ _ (conn-Meets coverage n ts) (
        if-Yields Meets (same log_type "flow_update") _ _ (flow_update-Meets coverage n ts) (
          if-Yields Meets (same log_type "dns") _ _ (dns-Meets n ts)
            (if-Yields Meets (same log_type "ssl") _ _ (ssl-Meets n ts) (weird-Meets n ts))))

  abbrev IsAccepted : Normalized F → Type 0
  IsAccepted r =
      availability_errors is_null r.built.payload r.built.availability r.built.reasons ≡ []

  normalize-IsAccepted :
      (coverage log_type : String) (line : Text)
      → Yields IsAccepted (normalize t loads coverage log_type line)
  unfolding normalize
  normalize-IsAccepted coverage log_type line =
      ensure-Yields IsAccepted (listed log_types log_type) _ _ (
        bind-Yields (λ u. Unit {0}) IsAccepted (parse t loads line) _ (anything _)
          (λ n h.
            bind-Yields (λ u. Unit {0}) IsAccepted (time_of t loads n) _ (anything _)
              (λ ts g.
                bind-Yields Meets IsAccepted (payload_of t loads coverage log_type n ts) _
                  (payload-Meets coverage log_type n ts) (λ r v. v))))

  -- Where a line is normalized, the payload meets the availability rule of the contract: every null has an
  -- availability, no value has one, and every availability and reason names a field that has one.
  pub normalize-availability_errors :
      (coverage log_type : String) (line : Text) (r : Normalized F)
      → normalize t loads coverage log_type line ≡ ok r
      → availability_errors is_null r.built.payload r.built.availability r.built.reasons ≡ []
  normalize-availability_errors coverage log_type line r =
      Yields-ok IsAccepted (normalize t loads coverage log_type line) r
        (normalize-IsAccepted coverage log_type line)
