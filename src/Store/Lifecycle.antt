-- ===== src/Store/Lifecycle.antt =====
-- The lifecycle that `core/src/store.rs` reads off an aircraft's events, and what an append changes.
use fly_ruler_proto.Pb.{AircraftSpawnInfo, DespawnInfo}
use fly_ruler_proto.Store.{
  custom, despawned, AircraftId, Event, spawned, TimestampedEvent, event_time, TimeSeriesStore,
  entry_or_default,
}
use fly_ruler_proto.Base.{
  All, Bool, subst, ◌⊎◌, sym, ◌≡◌, refl, ap, ◌∙◌, inl, inr, true, false, none, some, List, [], ◌∷◌,
  ◌++◌, arith, Option-cases, unwrap_or,
}
use fly_ruler_proto.Timeline.Ranges
use fly_ruler_proto.Base.Equality.{string_eq, str_eq_iff, Str}
use fly_ruler_proto.Base.Dict.{lookup}
use fly_ruler_proto.Float.{F64, plus, minus, is_finite}
use fly_ruler_proto.Timeline.Recent.{up_to, up_to-insert_self}
use fly_ruler_proto.Store.Append.{configure, push_event, append_event}
use fly_ruler_proto.Store.Query.{lifecycle, last_lifecycle, is_positive_infinity, is_spawned_at}
use fly_ruler_proto.Store.Valid.Steps.{IsValid, lookup-IsValid, entry-IsValid, append_event-IsValid}
use fly_ruler_proto.Store.Reads.{entry-set_series}

pub events_up_to : TimeSeriesStore → AircraftId → F64 → List TimestampedEvent
events_up_to s id t = up_to event_time t (entry_or_default s id).events

finite-not_infinity : (t : F64) → is_finite t ≡ true → is_positive_infinity t ≡ false
unfolding is_finite
finite-not_infinity (plus m) h = ground arith
finite-not_infinity (minus m) h = refl

-- The query reads the events at or before the time.
pub is_spawned_at-last_lifecycle :
    (s : TimeSeriesStore) (id : AircraftId) (t : F64)
    → IsValid s
    → is_finite t ≡ true
    → is_spawned_at s id t ≡ unwrap_or (last_lifecycle (events_up_to s id t)) false
unfolding is_spawned_at events_up_to up_to last_lifecycle
is_spawned_at-last_lifecycle s id t h f = elim (Option-cases (lookup id s.series)) [
  | inl e ↦ rw e
  | inr (v, e) ↦
      rw (e, finite-not_infinity t f, f)
        (ap (λ xs. unwrap_or (last_lifecycle xs) false)
          (Ranges.take-partition_point event_time t v.events (lookup-IsValid s id v h e).events))
]

events_up_to-append :
    (s : TimeSeriesStore) (id : AircraftId) (t : F64) (event : Event)
    → IsValid s
    → is_finite t ≡ true
    → events_up_to (append_event s id t event) id t
      ≡ events_up_to s id t ++ record { timestamp_secs = t; event = event } ∷ []
unfolding append_event events_up_to
events_up_to-append s id t (spawned i) h f = ground (
  arith,
  str_eq_iff id id,
  entry-set_series s id id
      (push_event t (spawned i) (configure (spawned i) (entry_or_default s id))),
  up_to-insert_self event_time (record { timestamp_secs = t; event = spawned i })
      (entry_or_default s id).events f (entry-IsValid s id h).events,
)
events_up_to-append s id t event h f = ground (
  arith,
  str_eq_iff id id,
  entry-set_series s id id (push_event t event (entry_or_default s id)),
  up_to-insert_self event_time (record { timestamp_secs = t; event = event })
      (entry_or_default s id).events f (entry-IsValid s id h).events,
)

last_lifecycle-concat :
    (es : List TimestampedEvent) (e : TimestampedEvent)
    → last_lifecycle (es ++ e ∷ [])
      ≡ elim (lifecycle e.event) [ some b ↦ some b | none ↦ last_lifecycle es ]
unfolding last_lifecycle
last_lifecycle-concat [] e = ground arith
last_lifecycle-concat (x ∷ es) e = ground (arith, last_lifecycle-concat es e)

abbrev pub IsCustom : TimestampedEvent → Type 0
IsCustom e = (text : Str) × (e.event ≡ custom text)

-- A spawn, or a despawn.
abbrev pub Changes : Bool → TimestampedEvent → Type 0
Changes true e = (i : AircraftSpawnInfo) × (e.event ≡ spawned i)
Changes false e = (i : DespawnInfo) × (e.event ≡ despawned i)

-- A spawn or a despawn with custom events alone after it.
abbrev pub EndsWith : Bool → List TimestampedEvent → Type 0
EndsWith b es =
    (before : List TimestampedEvent) × (e : TimestampedEvent) × (after : List TimestampedEvent)
    × (es ≡ before ++ e ∷ after)
    × Changes b e
    × All IsCustom after

-- What the events say: the last spawn or despawn decides; without one the aircraft is not there.
abbrev pub Decide : List TimestampedEvent → Bool → Type 0
Decide es b = EndsWith b es ⊎ (All IsCustom es × (b ≡ false))

event_kinds :
    (e : TimestampedEvent)
    → ((b : Bool) × Changes b e × (lifecycle e.event ≡ some b))
      ⊎ (IsCustom e × (lifecycle e.event ≡ none))
event_kinds e = kinds e e.event refl
  where
    kinds :
        (e : TimestampedEvent) (event : Event)
        → e.event ≡ event
        → ((b : Bool) × Changes b e × (lifecycle e.event ≡ some b))
          ⊎ (IsCustom e × (lifecycle e.event ≡ none))
    kinds e (spawned i) f = inl (true, (i, f), rw f refl)
    kinds e (despawned i) f = inl (false, (i, f), rw f refl)
    kinds e (custom text) f = inr ((text, f), rw f refl)

last_lifecycle-cases :
    (es : List TimestampedEvent)
    → ((b : Bool) × EndsWith b es × (last_lifecycle es ≡ some b))
      ⊎ (All IsCustom es × (last_lifecycle es ≡ none))
unfolding last_lifecycle
last_lifecycle-cases [] = inr (tt, refl)
last_lifecycle-cases (e ∷ es) = elim (last_lifecycle-cases es) [
  | inl (b, (before, d, after, split, change, quiet), last) ↦
      inl
        (b, (e ∷ before, d, after, ap (◌∷◌ e) split, change, quiet), rw (last_lifecycle, last) refl)
  | inr (quiet, last) ↦ elim (event_kinds e) [
    | inl (b, change, kind) ↦
        inl (b, ([], e, es, refl, change, quiet), rw (last_lifecycle, last) kind)
    | inr (plain, kind) ↦ inr ((plain, quiet), rw (last_lifecycle, last) kind)
  ]
]

-- In a store whose vectors are sorted by finite times, for a finite time, the answer whether an
-- aircraft is spawned is that of one of its events at or before the time, yes for a spawn and no
-- for a despawn, after which up to the time there are only custom events; or all its events up to
-- the time are custom events, and the answer is no.
pub is_spawned_at-Decide :
    (s : TimeSeriesStore) (id : AircraftId) (t : F64)
    → IsValid s
    → is_finite t ≡ true
    → Decide (events_up_to s id t) (is_spawned_at s id t)
is_spawned_at-Decide s id t h f =
    let read = is_spawned_at-last_lifecycle s id t h f in
    elim (last_lifecycle-cases (events_up_to s id t)) [
      | inl (b, ends, last) ↦
          let answer : is_spawned_at s id t ≡ b = rw last at read in
          inl (subst (λ c. EndsWith c (events_up_to s id t)) (sym answer) ends)
      | inr (quiet, last) ↦
          let answer : is_spawned_at s id t ≡ false = rw last at read in inr (quiet, answer)
    ]

-- In a store whose vectors are sorted by finite times, an event with a finite time that is
-- appended for an aircraft decides whether it is spawned at that time: a spawn says yes, a despawn
-- no, and a custom event leaves the answer as it was.
pub is_spawned_at-append_event :
    (s : TimeSeriesStore) (id : AircraftId) (t : F64) (event : Event)
    → IsValid s
    → is_finite t ≡ true
    → is_spawned_at (append_event s id t event) id t
      ≡ unwrap_or (lifecycle event) (is_spawned_at s id t)
is_spawned_at-append_event s id t event h f =
    is_spawned_at-last_lifecycle (append_event s id t event) id t
      (append_event-IsValid s id t event h) f
    ∙ ground (
      arith,
      events_up_to-append s id t event h f,
      last_lifecycle-concat (events_up_to s id t) (record { timestamp_secs = t; event = event }),
      is_spawned_at-last_lifecycle s id t h f,
    )
