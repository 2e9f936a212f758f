-- ===== src/Sender/Normalizer/Fields.antt =====
-- ingest/sender/sih_sender/normalizer.py: the fields that several types of records share.
use Prim.Native.Char.{code}
use Prim.Native.String.{String}
use ot_security.Common.{
  ℕ, Bool, true, false, not, ◌&&◌, ◌||◌, List, [], ◌∷◌, ◌++◌, leb, ◌==◌, if◌then◌else◌, ite, length,
  Outcome, ok, err, ◌>>=◌,
}
use ot_security.Common.Dict.{Text, text_dec}
use ot_security.Sender.Normalizer.Payload.{
  Json, str_value, Record, Tools, absent, wrong, found, as_text, words, Builder, get, all_of,
  matches, put, port,
}

-- The code points of a constant.
abbrev pub codes : String → Text
codes String.[] = []
codes (String.◌∷◌ c s) = code c ∷ codes s

-- What ends a call of the normalizer: its own exception, with its message in short; the InvalidOperation of a
-- number of too many digits; the TypeError of a set that is asked for a list.
pub data Error : Type 0 where
  normalization_error : String → Error
  invalid_operation type_error : Error

unfoldable pub among : String → ℕ → Bool
among String.[] c = false
among (String.◌∷◌ d s) c = c == code d || among s c

unfoldable pub is_letter : ℕ → Bool
is_letter c = (leb 65 c && leb c 90) || (leb 97 c && leb c 122)

unfoldable pub is_alnum : ℕ → Bool
unfolding is_letter
is_alnum c = is_letter c || (leb 48 c && leb c 57)

-- `UID`, `SERVICE` and the other patterns
unfoldable pub uid_pattern : Text → Bool
unfolding matches is_alnum
uid_pattern = matches is_alnum 1 32

unfoldable pub service_pattern : Text → Bool
unfolding matches is_alnum among
service_pattern = matches (λ c. is_alnum c || among "_,.-" c) 1 64

unfoldable pub history_pattern : Text → Bool
unfolding matches is_letter among
history_pattern = matches (λ c. is_letter c || among "^" c) 0 64

unfoldable pub ssl_history_pattern : Text → Bool
unfolding matches is_letter
ssl_history_pattern = matches is_letter 0 64

unfoldable pub qtype_pattern : Text → Bool
unfolding matches is_alnum among
qtype_pattern = matches (λ c. is_alnum c || among "_*-" c) 1 16

unfoldable pub rcode_pattern : Text → Bool
unfolding matches is_alnum among
rcode_pattern = matches (λ c. is_alnum c || among "_-" c) 1 32

unfoldable pub tls_version_pattern : Text → Bool
unfolding matches is_alnum among
tls_version_pattern = matches (λ c. is_alnum c || among "._ -" c) 1 16

unfoldable pub cipher_pattern : Text → Bool
unfolding matches is_alnum among
cipher_pattern = matches (λ c. is_alnum c || among "_-" c) 1 128

unfoldable pub curve_pattern : Text → Bool
unfolding matches is_alnum among
curve_pattern = matches (λ c. is_alnum c || among "_-" c) 1 64

-- The characters that `WEIRD_NAME_BAD` leaves alone
unfoldable pub weird_name_ok : ℕ → Bool
unfolding is_alnum among
weird_name_ok c = is_alnum c || among "_./:-" c

-- `t in names`
unfoldable pub text_in : List String → Text → Bool
text_in [] t = false
text_in (n ∷ names) t = ite (text_dec t (codes n)) true (text_in names t)

abbrev pub conn_states : List String
conn_states =
    "S0" ∷ "S1" ∷ "SF" ∷ "REJ" ∷ "S2" ∷ "S3" ∷ "RSTO" ∷ "RSTR" ∷ "RSTOS0" ∷ "RSTRH" ∷ "SH" ∷ "SHR"
    ∷ "OTH" ∷ []

abbrev pub counters : List String
counters =
    "orig_bytes" ∷ "resp_bytes" ∷ "orig_pkts" ∷ "resp_pkts" ∷ "orig_ip_bytes" ∷ "resp_ip_bytes" ∷ []

module _ {D F : Type 0} (t : Tools D F) where
  -- `is_ip` of lib/sih_common/iputil.py, on a text; 37 is the percent sign
  unfoldable pub is_ip : Text → Bool
  is_ip s = leb 2 (length s) && leb (length s) 45 && all_of (λ c. not (c == 37)) s && t.ip_address s

  unfoldable pub required_uid : Record D → Outcome Error Text
  required_uid n = elim (as_text (get n "uid")) [
    | found u ↦ if uid_pattern u then ok u else err (normalization_error "uid missing or invalid")
    | absent ↦ err (normalization_error "uid missing or invalid")
    | wrong ↦ err (normalization_error "uid missing or invalid")
  ]

  unfoldable pub required_ip : Record D → String → Outcome Error Text
  required_ip n field = elim (as_text (get n field)) [
    | found v ↦ if is_ip v then ok v else err (normalization_error "not an IP literal")
    | absent ↦ err (normalization_error "not an IP literal")
    | wrong ↦ err (normalization_error "not an IP literal")
  ]

  -- `str(v)`
  unfoldable pub str_of : Json D → Text
  str_of (str_value s) = s
  str_of v = t.show v

  -- `",".join(str(s) for s in svc)`
  unfoldable pub join_comma : List (Json D) → Text
  join_comma [] = []
  join_comma (v ∷ []) = str_of v
  join_comma (v ∷ w ∷ vs) = str_of v ++ (codes "," ++ join_comma (w ∷ vs))

  -- uid, addresses and ports: the first lines of a connection, a query and a handshake
  unfoldable pub endpoints : Record D → Builder F → Outcome Error (Text × Builder F)
  endpoints n b = do
    uid ← required_uid n
    src ← required_ip n "id.orig_h"
    dst ← required_ip n "id.resp_h"
    let b1 = port n "id.orig_p" "src_port" (put "src_ip" (words src) (put "uid" (words uid) b))
    ok (uid, port n "id.resp_p" "dst_port" (put "dst_ip" (words dst) b1))

-- `_transport`
unfoldable pub transport : {D : Type 0} → Record D → Text
transport n = elim (as_text (get n "proto")) [
  | found p ↦ if text_in ("tcp" ∷ "udp" ∷ "icmp" ∷ []) p then p else codes "unknown_transport"
  | absent ↦ codes "unknown_transport"
  | wrong ↦ codes "unknown_transport"
]
