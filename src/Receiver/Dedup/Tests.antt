-- ===== src/Receiver/Dedup/Tests.antt =====
-- Runs of the window, and each theorem about it at an input that meets its hypotheses.
use ot_security.Common.{◌≤◌, max, ◌≡◌, refl, false, List, [], ◌∷◌, arith, ◌==◌, ℕ_discrete}
use ot_security.Common.Int.{pos, ◌+ℤ◌, ◌-ℤ◌}
use ot_security.Common.Dict.{Text, text_eq, text_dec, lookup, insert, move_to_end, erase}
use ot_security.Receiver.Dedup.{
  Totals, DedupWindow, init, fresh, zero_bits, slot, get, put, bit_test, bit_set, bit_clear,
  classify, sweep, sweep_range, advance, settle, mark_stream, key, trim, check, mark,
  missing_in_window, highest,
}
use ot_security.Receiver.Dedup.Mark.{
  accepts, after_mark, ideal_class, mark_stream-IsTracked, first-IsTracked,
}
use ot_security.Receiver.Dedup.Accept.{IsTracked}
use ot_security.Receiver.Dedup.History.{run, times, BalancedFrom, accepted_once, run_balanced}
use ot_security.Receiver.Dedup.Window.{mark-check, mark_isolated}
use ot_security.Receiver.Dedup.Sound.{IsSound, init-IsSound, mark-IsSound}
use ot_security.Receiver.Dedup.Copies.{Marked, marks, check-mark}
use ot_security.Receiver.Dedup.Snapshot.{snapshot, restore, restore-snapshot}

program : Unit {0}
unfolding init fresh zero_bits slot get put bit_test bit_set bit_clear classify sweep sweep_range
    advance settle mark_stream key trim check mark lookup insert move_to_end erase text_dec ◌+ℤ◌
    ◌-ℤ◌ missing_in_window highest
program = tt

abbrev zero_totals : Totals
zero_totals = record { gaps = pos 0; duplicates = 0; reorders = 0; stales = 0 }

abbrev sensor : Text
sensor = 115 ∷ 49 ∷ []

abbrev boot : Text
boot = 98 ∷ []

abbrev other_boot : Text
other_boot = 99 ∷ []

abbrev marked_once : DedupWindow
marked_once = (mark init sensor boot 5).1

-- The sequences 5, 8, 6, 6 and 3: new, new, reordered, duplicate and stale.
run_classes : (run zero_totals fresh (5 ∷ 8 ∷ 6 ∷ 6 ∷ 3 ∷ [])).accepted ≡ 5 ∷ 8 ∷ 6 ∷ []
unfolding program run
run_classes = refl

run_totals :
    (run zero_totals fresh (5 ∷ 8 ∷ 6 ∷ 6 ∷ 3 ∷ [])).totals
    ≡ record { gaps = pos 0; duplicates = 1; reorders = 1; stales = 1 }
unfolding program run
run_totals = refl

-- A jump of more than the window turns what is missing, and what was jumped over, into gaps.
run_jump : (run zero_totals fresh (5 ∷ 8 ∷ 70000 ∷ [])).totals.gaps ≡ pos 4458
unfolding program run
run_jump = refl

accepted_once_example : times 6 (run zero_totals fresh (5 ∷ 8 ∷ 6 ∷ 6 ∷ [])).accepted ≤ 1
accepted_once_example = accepted_once 6 zero_totals (5 ∷ 8 ∷ 6 ∷ 6 ∷ [])

run_balanced_example : BalancedFrom 0 (pos 0) (run zero_totals fresh (5 ∷ 8 ∷ 6 ∷ []))
run_balanced_example = run_balanced zero_totals 5 (8 ∷ 6 ∷ [])

mark_stream-IsTracked_example :
    let m = mark_stream zero_totals fresh 5 in
    let r = mark_stream m.totals m.stream 7 in
    (r.class ≡ ideal_class (λ q. q == 5) 5 5 7)
    × IsTracked (after_mark (λ q. q == 5) r.class 7) 5 (max 5 7) (pos 0) r.totals.gaps r.stream
mark_stream-IsTracked_example =
    mark_stream-IsTracked (mark_stream zero_totals fresh 5).totals 7
      (first-IsTracked zero_totals 5).1

mark-check_example : (mark init sensor boot 5).0 ≡ check init sensor boot 5
mark-check_example = mark-check init sensor boot 5

mark_isolated_example :
    lookup (key sensor other_boot) (mark init sensor boot 5).1.streams
    ≡ lookup (key sensor other_boot) init.streams
unfolding init key
mark_isolated_example =
    mark_isolated init sensor boot 5 (key sensor other_boot) (omega arith) (λ e. ground arith)

mark-IsSound_example : IsSound (mark init sensor boot 5).1
mark-IsSound_example = mark-IsSound init sensor boot 5 init-IsSound

-- Records of another boot and of the same stream come after the record 9.
abbrev after_nine : List Marked
after_nine =
    record { sensor_id = sensor; boot_id = 7 ∷ []; sequence = 1 }
    ∷ record { sensor_id = sensor; boot_id = boot; sequence = 300 }
    ∷ []

check-mark_example :
    accepts (check (marks (mark marked_once sensor boot 9).1 after_nine) sensor boot 9) ≡ false
unfolding mark lookup text_dec insert erase move_to_end trim mark_stream key init ℕ_discrete
check-mark_example =
    check-mark marked_once sensor boot 9 after_nine (mark-IsSound init sensor boot 5 init-IsSound)
      ((_, refl, tt), ((_, refl, tt), tt))

restore-snapshot_example :
    restore (λ t. t) (λ t. t) (snapshot (λ t. t) (λ t. t) marked_once) ≡ marked_once
restore-snapshot_example =
    restore-snapshot (λ t. t) (λ t. t) (λ b. refl) marked_once
      (mark-IsSound init sensor boot 5 init-IsSound).window
