-- ===== src/Gate.antt =====
-- `core/src/management/gate.rs`: threads that ingest and threads that pause ingestion.
pub mod Exclusion
pub mod Progress
mod Examples
use fly_ruler_proto.Base.{
  ℕ, zero, suc, ◌+◌, ◌-◌, ◌%◌, ◌^◌, Bool, true, false, not, ◌||◌, Option, none, some, List, [], ◌∷◌,
  ltb, if◌then◌else◌, and_then, get_elem?,
}

-- The atomics, and what the locks hold: the maintenance mutex, and the readers and the writer of
-- the activity lock.
pub record IngestionGate : Type 0 where
  pub enabled : Bool
  pub dropped : ℕ
  pub maintenance : Bool
  pub readers : ℕ
  pub writing : Bool

-- `IngestionGate::new`.
abbrev pub new_gate : IngestionGate
new_gate = record { enabled = true; dropped = 0; maintenance = false; readers = 0; writing = false }

-- Where a thread stands. In `with_ingestion`: after the first check, with the permit but before the
-- second check, and running its action. In `with_paused`: with the mutex, after it has cleared the
-- flag, running its action with the activity lock, after the guard's `drop` has set the flag, and
-- after the mutex, the guard's first lock field, is released.
pub data Phase : Type 0 where
  idle checked reading acting locked disabled paused resumed unlocked : Phase

-- What an idle thread calls.
pub data Entry : Type 0 where
  with_ingestion with_paused : Entry

-- `fetch_add(1)` on the counter.
abbrev pub count_drop : IngestionGate → IngestionGate
count_drop g = record g { dropped = (g.dropped + 1) % 2 ^ 64 }

-- The thread's next step; none while it waits for a lock. A step is one atomic or lock operation,
-- but for a refused ingestion: there the load, the count and the release of the permit are one.
unfoldable pub advance : Entry → IngestionGate → Phase → Option (IngestionGate × Phase)
advance with_ingestion g idle = some (if g.enabled then (g, checked) else (count_drop g, idle))
advance with_paused g idle =
    if g.maintenance then none else some (record g { maintenance = true }, locked)
advance entry g checked =
    if g.writing then none else some (record g { readers = g.readers + 1 }, reading)
advance entry g reading =
    some
      (if g.enabled then (g, acting) else (record (count_drop g) { readers = g.readers - 1 }, idle))
advance entry g acting = some (record g { readers = g.readers - 1 }, idle)
advance entry g locked = some (record g { enabled = false }, disabled)
advance entry g disabled =
    if g.writing || ltb 0 g.readers then none else some (record g { writing = true }, paused)
advance entry g paused = some (record g { enabled = true }, resumed)
advance entry g resumed = some (record g { maintenance = false }, unlocked)
advance entry g unlocked = some (record g { writing = false }, idle)

pub record System : Type 0 where
  pub gate : IngestionGate
  pub threads : List Phase

abbrev pub set_phase : ℕ → Phase → List Phase → List Phase
set_phase i p [] = []
set_phase zero p (q ∷ ts) = p ∷ ts
set_phase (suc i) p (q ∷ ts) = q ∷ set_phase i p ts

-- A thread takes a step; a thread that waits, or that there is not, changes nothing.
unfoldable pub schedule : ℕ × Entry → System → System
unfolding advance
schedule (i, entry) s = elim (and_then (get_elem? s.threads i) (advance entry s.gate)) [
  | none ↦ s
  | some (g, p) ↦ record { gate = g; threads = set_phase i p s.threads }
]

abbrev pub all_idle : ℕ → List Phase
all_idle zero = []
all_idle (suc n) = idle ∷ all_idle n

-- A new gate with so many threads, after a schedule. The latest choice comes first.
unfoldable pub run_threads : ℕ → List (ℕ × Entry) → System
unfolding schedule
run_threads n [] = record { gate = new_gate; threads = all_idle n }
run_threads n (choice ∷ earlier) = schedule choice (run_threads n earlier)
