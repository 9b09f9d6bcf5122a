-- ===== src/Gate/Examples.antt =====
-- The theorems on `core/src/management/gate.rs` at concrete schedules.
use fly_ruler_proto.Base.{ℕ, ◌≤◌, ◌≡◌, refl, true, false, some, List, [], ◌∷◌, arith, get_elem?}
use fly_ruler_proto.Gate.{
  paused, Entry, with_ingestion, with_paused, advance, schedule, run_threads,
}
use fly_ruler_proto.Gate.Exclusion.{
  holds_permit, holds_activity, holds_mutex, total, run_threads-paused, run_threads-enabled,
}
use fly_ruler_proto.Gate.Progress.{busy, CanStep, run_threads-CanStep}

-- The first thread passes the first check, the second pauses ingestion, and the first is turned away.
abbrev choices : List (ℕ × Entry)
choices =
    (1, with_paused)
    ∷ (0, with_ingestion)
    ∷ (0, with_ingestion)
    ∷ (1, with_paused)
    ∷ (1, with_paused)
    ∷ (0, with_ingestion)
    ∷ []

second-paused : get_elem? (run_threads 2 choices).threads 1 ≡ some paused
unfolding run_threads schedule advance
second-paused = refl

run_threads-paused_example :
    (total holds_permit (run_threads 2 choices).threads ≡ 0)
    × (total holds_activity (run_threads 2 choices).threads ≡ 1)
    × ((run_threads 2 choices).gate.enabled ≡ false)
run_threads-paused_example = run_threads-paused 2 choices 1 second-paused

one_busy : 1 ≤ total busy (run_threads 2 choices).threads
unfolding run_threads schedule advance
one_busy = omega arith

run_threads-CanStep_example : CanStep (run_threads 2 choices).gate (run_threads 2 choices).threads
run_threads-CanStep_example = run_threads-CanStep 2 choices one_busy

abbrev released : List (ℕ × Entry)
released = (1, with_paused) ∷ (1, with_paused) ∷ (1, with_paused) ∷ choices

no_mutex : total holds_mutex (run_threads 2 released).threads ≡ 0
unfolding run_threads schedule advance
no_mutex = refl

run_threads-enabled_example : (run_threads 2 released).gate.enabled ≡ true
run_threads-enabled_example = run_threads-enabled 2 released no_mutex
