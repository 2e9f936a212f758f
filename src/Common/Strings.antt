-- ===== src/Common/Strings.antt =====
-- Names as native texts: field names, states and reasons, which the code only compares.
use Prim.Native.String.{String}
use mathlib.Core.Path.{◌≡◌, refl}
use mathlib.Core.Logic.{◌↔◌, ite}
use mathlib.Core.Bool.{Bool, true, false, false≢true}
use mathlib.Core.List.{List, [], ◌∷◌}
use text.Mathlib.Text
use text.Mathlib.TextEquality.{eq_iff}
use ot_security.Common.Dict.{Eq}

-- A test that decides a statement.
unfoldable pub dec_of {ℓ} : {P : Type ℓ} (b : Bool) → ((b ≡ true) ↔ P) → Dec P
dec_of true h = yes (h.0 refl)
dec_of false h = no (λ p. false≢true (h.1 p))

unfoldable pub string_dec : Discrete String
unfolding dec_of
string_dec s t = dec_of (Text.◌==◌ s t) (eq_iff s t)

instance abbrev pub string_eq : Eq String
string_eq = record { dec = string_dec }

-- `s == t`
unfoldable pub same : String → String → Bool
same s t = Text.◌==◌ s t

-- `s in names`
unfoldable pub listed : List String → String → Bool
listed [] s = false
listed (n ∷ names) s = ite (string_dec s n) true (listed names s)
