-- ===== src/Consumers/Archive/Tests.antt =====
-- Runs of the archiver over one partition, and the theorem of its drops at one of them.
use ot_security.Common.{
  ℕ, ◌≡◌, ◌==◌, refl, Bool, true, false, Option, none, some, List, [], ◌∷◌, ◌++◌, map, length,
}
use ot_security.Common.Bytes.{Bytes}
use ot_security.Common.Dict.{Text, text_dec}
use ot_security.Consumers.Archive.{Tools}
use ot_security.Consumers.Archive.Cycle.{Step, cycle_step, restore_step, arrive_step, run}
use ot_security.Consumers.Archive.Justified.{Justified}
use ot_security.Consumers.Archive.Dropped.{fresh, run-Justified}

-- A row is a number, and its line the number and a line feed; nothing is compressed, and the fourth call raises.
abbrev dump : List ℕ → Bytes
dump [] = []
dump (r ∷ rs) = r ∷ 10 ∷ dump rs

abbrev load : Bytes → List ℕ
load [] = []
load (r ∷ []) = []
load (r ∷ _ ∷ bs) = r ∷ load bs

abbrev tools : Tools ℕ
tools = record {
  dump = dump;
  load = load;
  compress = λ b. b;
  decompress = λ b. some b;
  sha256 = λ b. b;
  describe = λ c. c.object_key;
  raises = λ n. n == 3;
}

-- Partition "01" of table "t", with two rows
abbrev table : Text
table = 116 ∷ []

abbrev pid : Text
pid = 48 ∷ 49 ∷ []

abbrev hot : Text → Text → List ℕ
hot t p = 5 ∷ 6 ∷ []

abbrev parts : List (Text × List Text)
parts = (table, pid ∷ []) ∷ []

-- A cycle on day "02" with the cutoff "00", and one with the cutoff "02"
abbrev early : Step ℕ
early = cycle_step (48 ∷ 50 ∷ []) (48 ∷ 48 ∷ []) parts

abbrev late : Step ℕ
late = cycle_step (48 ∷ 50 ∷ []) (48 ∷ 50 ∷ []) parts

abbrev steps : List (Step ℕ)
steps = early ∷ early ∷ late ∷ restore_step table pid ∷ []

run-Justified_example : Justified tools (run tools steps (fresh tools hot)).log
run-Justified_example = run-Justified tools hot steps

-- The partition is restored as it was dropped.
restored : (run tools steps (fresh tools hot)).hot table pid ≡ 5 ∷ 6 ∷ []
unfolding run text_dec ot_security.Common.ℕ_discrete
restored = refl

-- A row that arrives once the partition is verified is dropped with it, and the archive does not have it.
late_row :
    (run tools
        (early ∷ early ∷ arrive_step table pid (7 ∷ []) ∷ late ∷ restore_step table pid ∷ [])
        (fresh tools hot)).hot
      table pid
    ≡ 5 ∷ 6 ∷ []
unfolding run text_dec ot_security.Common.ℕ_discrete
late_row = refl

-- The first cycle raises; then the partition is verified, dropped and restored.
three_events : length (run tools steps (fresh tools hot)).log ≡ 3
unfolding run text_dec ot_security.Common.ℕ_discrete
three_events = refl
