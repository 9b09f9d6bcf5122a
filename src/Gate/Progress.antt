-- ===== src/Gate/Progress.antt =====
-- The threads at the gate never all wait for each other.
use fly_ruler_proto.Base.{
  ℕ, suc, ◌≤◌, ◌≡◌, refl, ap, inl, inr, false, some, List, [], ◌∷◌, arith, leb, Bool-cases,
  get_elem?, ◌+◌, true,
}
use fly_ruler_proto.Gate.{
  IngestionGate, Phase, idle, checked, reading, acting, locked, disabled, paused, resumed, unlocked,
  Entry, with_ingestion, advance, run_threads,
}
use fly_ruler_proto.Gate.Exclusion.{bit, holds_permit, holds_activity, total, run_threads-IsGuarded}

abbrev pub busy : Phase → ℕ
busy idle = 0
busy p = 1

-- A thread that stands inside a call and can take its next step.
abbrev pub CanStep : IngestionGate → List Phase → Type 0
CanStep g ts =
    (i : ℕ) × (p : Phase) × (r : IngestionGate × Phase) × (get_elem? ts i ≡ some p)
    × (busy p ≡ 1)
    × (advance with_ingestion g p ≡ some r)

member-of_total :
    (w : Phase → ℕ) (ts : List Phase)
    → 1 ≤ total w ts
    → (i : ℕ) × (p : Phase) × (get_elem? ts i ≡ some p) × (1 ≤ w p)
member-of_total w [] h = absurd (omega arith)
member-of_total w (p ∷ ts) h = elim (Bool-cases (leb 1 (w p))) [
  | inl e ↦ (0, p, refl, ground arith)
  | inr e ↦ let (i, q, here, k) = member-of_total w ts (ground arith) in (suc i, q, here, k)
]

writer_steps :
    (g : IngestionGate) (p : Phase)
    → 1 ≤ holds_activity p
    → (r : IngestionGate × Phase) × (busy p ≡ 1) × (advance with_ingestion g p ≡ some r)
unfolding advance
writer_steps g paused h = (_, refl, refl)
writer_steps g resumed h = (_, refl, refl)
writer_steps g unlocked h = (_, refl, refl)
writer_steps g idle h = absurd (omega arith)
writer_steps g checked h = absurd (omega arith)
writer_steps g reading h = absurd (omega arith)
writer_steps g acting h = absurd (omega arith)
writer_steps g locked h = absurd (omega arith)
writer_steps g disabled h = absurd (omega arith)

reader_steps :
    (g : IngestionGate) (p : Phase)
    → 1 ≤ holds_permit p
    → (r : IngestionGate × Phase) × (busy p ≡ 1) × (advance with_ingestion g p ≡ some r)
unfolding advance
reader_steps g reading h = (_, refl, refl)
reader_steps g acting h = (_, refl, refl)
reader_steps g idle h = absurd (omega arith)
reader_steps g checked h = absurd (omega arith)
reader_steps g paused h = absurd (omega arith)
reader_steps g resumed h = absurd (omega arith)
reader_steps g unlocked h = absurd (omega arith)
reader_steps g locked h = absurd (omega arith)
reader_steps g disabled h = absurd (omega arith)

-- With the activity lock free, whoever is inside a call can go on.
free_steps :
    (g : IngestionGate) (p : Phase)
    → g.writing ≡ false
    → g.readers ≡ 0
    → 1 ≤ busy p
    → (r : IngestionGate × Phase) × (busy p ≡ 1) × (advance with_ingestion g p ≡ some r)
unfolding advance
free_steps g idle w r h = absurd (omega arith)
free_steps g checked w r h = ((record g { readers = g.readers + 1 }, reading), refl, rw w refl)
free_steps g reading w r h = (_, refl, refl)
free_steps g acting w r h = (_, refl, refl)
free_steps g locked w r h = (_, refl, refl)
free_steps g disabled w r h = ((record g { writing = true }, paused), refl, rw (w, r) refl)
free_steps g paused w r h = (_, refl, refl)
free_steps g resumed w r h = (_, refl, refl)
free_steps g unlocked w r h = (_, refl, refl)

-- For any number of threads and any interleaving of their steps at a new gate: if some thread is
-- inside a call, some thread that is inside a call is not waiting for a lock.
pub run_threads-CanStep :
    (n : ℕ) (choices : List (ℕ × Entry))
    → 1 ≤ total busy (run_threads n choices).threads
    → CanStep (run_threads n choices).gate (run_threads n choices).threads
run_threads-CanStep n choices h =
    let s = run_threads n choices in
    let k = run_threads-IsGuarded n choices in
    elim (Bool-cases s.gate.writing) [
      | inl e ↦
          let (i, p, here, holds) =
            member-of_total holds_activity s.threads (omega (arith, k.writing, ap bit e)) in
          let (r, inside, steps) = writer_steps s.gate p holds in (i, p, r, here, inside, steps)
      | inr e ↦ elim (Bool-cases (leb 1 s.gate.readers)) [
        | inl f ↦
            let (i, p, here, holds) =
              member-of_total holds_permit s.threads (ground (arith, k.readers)) in
            let (r, inside, steps) = reader_steps s.gate p holds in (i, p, r, here, inside, steps)
        | inr f ↦
            let (i, p, here, holds) = member-of_total busy s.threads h in
            let (r, inside, steps) = free_steps s.gate p e (ground arith) holds in
            (i, p, r, here, inside, steps)
      ]
    ]
