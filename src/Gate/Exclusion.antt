-- ===== src/Gate/Exclusion.antt =====
-- While a thread pauses ingestion, no thread ingests.
use fly_ruler_proto.Base.{
  ℕ, zero, suc, ◌+◌, ◌≤◌, ◌≡◌, ap, ◌⊎◌, Bool, true, false, not, some, List, [], ◌∷◌, arith,
  get_elem?, sym, refl, Option-cases, inl, inr,
}
use fly_ruler_proto.Gate.{
  IngestionGate, Phase, idle, checked, reading, acting, locked, disabled, paused, resumed, unlocked,
  Entry, with_ingestion, with_paused, advance, set_phase, run_threads, schedule, all_idle, System,
}

abbrev pub bit : Bool → ℕ
bit true = 1
bit false = 0

-- Which phases hold a read permit, the write permit, the mutex, and which keep the flag cleared.
abbrev pub holds_permit : Phase → ℕ
holds_permit reading = 1
holds_permit acting = 1
holds_permit p = 0

abbrev pub holds_activity : Phase → ℕ
holds_activity paused = 1
holds_activity resumed = 1
holds_activity unlocked = 1
holds_activity p = 0

abbrev pub holds_mutex : Phase → ℕ
holds_mutex locked = 1
holds_mutex disabled = 1
holds_mutex paused = 1
holds_mutex resumed = 1
holds_mutex p = 0

abbrev pub keeps_disabled : Phase → ℕ
keeps_disabled disabled = 1
keeps_disabled paused = 1
keeps_disabled p = 0

abbrev pub total : (Phase → ℕ) → List Phase → ℕ
total w [] = 0
total w (p ∷ ts) = w p + total w ts

total-set_phase :
    (w : Phase → ℕ) (i : ℕ) (p q : Phase) (ts : List Phase)
    → get_elem? ts i ≡ some p
    → total w (set_phase i q ts) + w p ≡ total w ts + w q
total-set_phase w i p q [] e = absurd (cc)
total-set_phase w zero p q (r ∷ ts) e = let same : r ≡ p = ground arith in ground (arith, ap w same)
total-set_phase w (suc i) p q (r ∷ ts) e = omega (arith, total-set_phase w i p q ts e)

-- The locks hold what the threads hold, and the flag is cleared exactly while a thread keeps it so.
pub record IsGuarded (g : IngestionGate) (ts : List Phase) : Type 0 where
  pub readers : g.readers ≡ total holds_permit ts
  pub writing : bit g.writing ≡ total holds_activity ts
  pub maintenance : bit g.maintenance ≡ total holds_mutex ts
  pub flag : bit (not g.enabled) ≡ total keeps_disabled ts
  pub exclusive : (g.writing ≡ false) ⊎ (g.readers ≡ 0)

-- What a step changes in a gate is what the thread's phase changes in the totals.
abbrev Balanced : IngestionGate → Phase → IngestionGate → Phase → Type 0
Balanced g p h q =
    (h.readers + holds_permit p ≡ g.readers + holds_permit q)
    × (bit h.writing + holds_activity p ≡ bit g.writing + holds_activity q)
    × (bit h.maintenance + holds_mutex p ≡ bit g.maintenance + holds_mutex q)
    × (bit (not h.enabled) + keeps_disabled p ≡ bit (not g.enabled) + keeps_disabled q)
    × ((h.writing ≡ false) ⊎ (h.readers ≡ 0))

advance-Balanced :
    (entry : Entry) (g h : IngestionGate) (p q : Phase) (ts : List Phase)
    → IsGuarded g ts
    → holds_permit p ≤ total holds_permit ts
    → holds_activity p ≤ total holds_activity ts
    → holds_mutex p ≤ total holds_mutex ts
    → keeps_disabled p ≤ total keeps_disabled ts
    → total keeps_disabled ts + holds_mutex p ≤ total holds_mutex ts + keeps_disabled p
    → advance entry g p ≡ some (h, q)
    → Balanced g p h q
unfolding advance
advance-Balanced with_ingestion g h idle q ts k a b c d x e = ground arith
advance-Balanced with_paused g h idle q ts k a b c d x e = ground arith
advance-Balanced entry g h checked q ts k a b c d x e = ground arith
advance-Balanced entry g h reading q ts k a b c d x e = ground arith
advance-Balanced entry g h acting q ts k a b c d x e = ground arith
advance-Balanced entry g h locked q ts k a b c d x e = ground arith
advance-Balanced entry g h disabled q ts k a b c d x e = ground arith
advance-Balanced entry g h paused q ts k a b c d x e = ground arith
advance-Balanced entry g h resumed q ts k a b c d x e = ground arith
advance-Balanced entry g h unlocked q ts k a b c d x e = ground arith

pub total-member :
    (w : Phase → ℕ) (i : ℕ) (p : Phase) (ts : List Phase)
    → get_elem? ts i ≡ some p
    → w p ≤ total w ts
total-member w i p [] e = absurd (cc)
total-member w zero p (r ∷ ts) e = let same : r ≡ p = ground arith in ground (arith, ap w same)
total-member w (suc i) p (r ∷ ts) e = omega (arith, total-member w i p ts e)

keeps-le-mutex : (p : Phase) → keeps_disabled p ≤ holds_mutex p
keeps-le-mutex idle = omega arith
keeps-le-mutex checked = omega arith
keeps-le-mutex reading = omega arith
keeps-le-mutex acting = omega arith
keeps-le-mutex locked = omega arith
keeps-le-mutex disabled = omega arith
keeps-le-mutex paused = omega arith
keeps-le-mutex resumed = omega arith
keeps-le-mutex unlocked = omega arith

total-keeps-le-mutex : (ts : List Phase) → total keeps_disabled ts ≤ total holds_mutex ts
total-keeps-le-mutex [] = omega arith
total-keeps-le-mutex (p ∷ ts) = omega (arith, keeps-le-mutex p, total-keeps-le-mutex ts)

-- The mutex is held by those that keep the flag cleared and, beside them, by this thread.
total-keeps_beside :
    (i : ℕ) (p : Phase) (ts : List Phase)
    → get_elem? ts i ≡ some p
    → total keeps_disabled ts + holds_mutex p ≤ total holds_mutex ts + keeps_disabled p
total-keeps_beside i p [] e = absurd (cc)
total-keeps_beside zero p (r ∷ ts) e =
    let same : r ≡ p = ground arith in
    omega (arith, ap keeps_disabled same, ap holds_mutex same, total-keeps-le-mutex ts)
total-keeps_beside (suc i) p (r ∷ ts) e =
    omega (arith, keeps-le-mutex r, total-keeps_beside i p ts e)

step-IsGuarded :
    (i : ℕ) (entry : Entry) (g h : IngestionGate) (p q : Phase) (ts : List Phase)
    → IsGuarded g ts
    → get_elem? ts i ≡ some p
    → advance entry g p ≡ some (h, q)
    → IsGuarded h (set_phase i q ts)
step-IsGuarded i entry g h p q ts k here e =
    let (r, w, m, f, x) =
      advance-Balanced entry g h p q ts k (total-member holds_permit i p ts here)
        (total-member holds_activity i p ts here) (total-member holds_mutex i p ts here)
        (total-member keeps_disabled i p ts here) (total-keeps_beside i p ts here) e in
    record {
      readers = omega (arith, r, k.readers, total-set_phase holds_permit i p q ts here);
      writing = omega (arith, w, k.writing, total-set_phase holds_activity i p q ts here);
      maintenance = omega (arith, m, k.maintenance, total-set_phase holds_mutex i p q ts here);
      flag = omega (arith, f, k.flag, total-set_phase keeps_disabled i p q ts here);
      exclusive = x;
    }

schedule-IsGuarded :
    (i : ℕ) (entry : Entry) (s : System)
    → IsGuarded s.gate s.threads
    → IsGuarded (schedule (i, entry) s).gate (schedule (i, entry) s).threads
unfolding schedule
schedule-IsGuarded i entry s k = elim (Option-cases (get_elem? s.threads i)) [
  | inl e ↦ rw (e, schedule) k
  | inr (p, e) ↦ elim (Option-cases (advance entry s.gate p)) [
    | inl f ↦ rw (e, f, schedule) k
    | inr ((h, q), f) ↦ rw (e, f, schedule) (step-IsGuarded i entry s.gate h p q s.threads k e f)
  ]
]

total-all_idle : (w : Phase → ℕ) (n : ℕ) → w idle ≡ 0 → total w (all_idle n) ≡ 0
total-all_idle w zero e = refl
total-all_idle w (suc n) e = omega (arith, e, total-all_idle w n e)

pub run_threads-IsGuarded :
    (n : ℕ) (choices : List (ℕ × Entry))
    → IsGuarded (run_threads n choices).gate (run_threads n choices).threads
unfolding run_threads
run_threads-IsGuarded n [] = record {
  readers = sym (total-all_idle holds_permit n refl);
  writing = sym (total-all_idle holds_activity n refl);
  maintenance = sym (total-all_idle holds_mutex n refl);
  flag = sym (total-all_idle keeps_disabled n refl);
  exclusive = inl refl;
}
run_threads-IsGuarded n ((i, entry) ∷ earlier) =
    schedule-IsGuarded i entry (run_threads n earlier) (run_threads-IsGuarded n earlier)

-- For any number of threads and any interleaving of their steps at a new gate: while a thread runs
-- its paused section, no thread holds an ingestion permit, no other thread holds the activity lock
-- for writing, and the flag is cleared.
pub run_threads-paused :
    (n : ℕ) (choices : List (ℕ × Entry)) (i : ℕ)
    → get_elem? (run_threads n choices).threads i ≡ some paused
    → (total holds_permit (run_threads n choices).threads ≡ 0)
      × (total holds_activity (run_threads n choices).threads ≡ 1)
      × ((run_threads n choices).gate.enabled ≡ false)
run_threads-paused n choices i here =
    let s = run_threads n choices in
    let k = run_threads-IsGuarded n choices in
    let writes = total-member holds_activity i paused s.threads here in
    let keeps = total-member keeps_disabled i paused s.threads here in
    ground (arith, k.readers, k.writing, k.flag, k.exclusive)

-- For any number of threads and any interleaving of their steps at a new gate: if no thread holds
-- the maintenance mutex, the flag is set.
pub run_threads-enabled :
    (n : ℕ) (choices : List (ℕ × Entry))
    → total holds_mutex (run_threads n choices).threads ≡ 0
    → (run_threads n choices).gate.enabled ≡ true
run_threads-enabled n choices none_paused =
    let s = run_threads n choices in
    let k = run_threads-IsGuarded n choices in
    ground (arith, k.flag, total-keeps-le-mutex s.threads)
