-- ===== src/Store/Adjacent/Global.antt =====
-- The timestamp next to a cursor over all aircraft: the reduction of the per-aircraft candidates.
use fly_ruler_proto.Base.Equality.{string_eq}
use fly_ruler_proto.Base.{
  ◌≡◌, ◌⊎◌, inl, inr, Bool, true, false, Option, none, some, List, [], ◌∷◌, ◌++◌, map, append-nil,
  if◌then◌else◌, Bool-cases, All, All-append, Any-append_left, Any-append_right, All-implies, subst,
  Option-cases, append_assoc, arith,
}
use fly_ruler_proto.Base.Dict.{AllValues}
use fly_ruler_proto.Float.{
  F64, is_finite, is_nan, le_trans, le-of_lt, not_nan-of_le, le-of_not_total_lt, le-of_total_lt,
}
use fly_ruler_proto.Store.{AircraftId, state_time, event_time, AircraftTimeSeries, TimeSeriesStore}
use fly_ruler_proto.Store.Valid.Steps.{IsValidSeries, IsValid}
use fly_ruler_proto.Store.Adjacent.{
  TimelineEntryKind, state_entry, event_entry, adjacent_in_series, candidates, is_better, best_from,
  reduce_best, nearest, adjacent_global_timestamp, adjacent_rounds,
}
use fly_ruler_proto.Store.Adjacent.Nearest.{before, up_to, IsAdjacent, adjacent_in-IsAdjacent}

unfoldable pub times_of : TimelineEntryKind → AircraftTimeSeries → List F64
times_of state_entry v = map state_time v.states
times_of event_entry v = map event_time v.events

-- The timestamps of one kind, over all aircraft.
unfoldable pub all_times : TimelineEntryKind → List (AircraftId × AircraftTimeSeries) → List F64
all_times kind [] = []
all_times kind ((id, v) ∷ m) = times_of kind v ++ all_times kind m

series-IsAdjacent :
    (kind : TimelineEntryKind) (forward : Bool) (probe : F64) (v : AircraftTimeSeries)
    → is_finite probe ≡ true
    → IsValidSeries v
    → IsAdjacent forward probe (times_of kind v) (adjacent_in_series kind forward probe v)
unfolding times_of
series-IsAdjacent state_entry forward probe v f h =
    adjacent_in-IsAdjacent state_time forward probe v.states f h.states
series-IsAdjacent event_entry forward probe v f h =
    adjacent_in-IsAdjacent event_time forward probe v.events f h.events

-- The better of a best so far and a candidate, if there is one.
abbrev better_of : Bool → F64 → Option F64 → F64
better_of forward b none = b
better_of forward b (some c) = if is_better forward c b then c else b

pub before-not_nan :
    (forward : Bool) (a b : F64)
    → before forward a b ≡ true
    → (is_nan a ≡ false) × (is_nan b ≡ false)
before-not_nan true a b h = not_nan-of_le a b (le-of_lt a b h)
before-not_nan false a b h = let (p, q) = not_nan-of_le b a (le-of_lt b a h) in (q, p)

pub up_to_trans :
    (forward : Bool) (a b c : F64)
    → up_to forward a b ≡ true
    → up_to forward b c ≡ true
    → up_to forward a c ≡ true
up_to_trans true a b c h k = le_trans a b c h k
up_to_trans false a b c h k = le_trans c b a k h

-- A candidate that is not better is not nearer, and one that is better is.
better_up_to :
    (forward : Bool) (c b : F64)
    → is_nan c ≡ false
    → is_nan b ≡ false
    → is_better forward c b ≡ true
    → up_to forward c b ≡ true
better_up_to true c b p q h = le-of_total_lt c b p q h
better_up_to false c b p q h = le-of_total_lt b c q p h

not_better_up_to :
    (forward : Bool) (c b : F64)
    → is_nan c ≡ false
    → is_nan b ≡ false
    → is_better forward c b ≡ false
    → up_to forward b c ≡ true
not_better_up_to true c b p q h = le-of_not_total_lt b c q p h
not_better_up_to false c b p q h = le-of_not_total_lt c b p q h

-- Times that a nearer candidate covers.
widen_cover :
    (forward : Bool) (probe c d : F64) (ts : List F64)
    → up_to forward d c ≡ true
    → All (λ t. (up_to forward t probe ≡ true) ⊎ (up_to forward c t ≡ true)) ts
    → All (λ t. (up_to forward t probe ≡ true) ⊎ (up_to forward d t ≡ true)) ts
widen_cover forward probe c d ts h k =
    All-implies (λ t. (up_to forward t probe ≡ true) ⊎ (up_to forward c t ≡ true))
      (λ t. (up_to forward t probe ≡ true) ⊎ (up_to forward d t ≡ true)) ts
      (λ t p. elim p [ inl x ↦ inl x | inr x ↦ inr (up_to_trans forward d c t h x) ]) k

join-IsAdjacent :
    (forward : Bool) (probe b : F64) (o : Option F64) (ts us : List F64)
    → IsAdjacent forward probe ts (some b)
    → IsAdjacent forward probe us o
    → IsAdjacent forward probe (ts ++ us) (some (better_of forward b o))
join-IsAdjacent forward probe b none ts us h k = (
  h.0,
  All-append (λ t. (up_to forward t probe ≡ true) ⊎ (up_to forward b t ≡ true)) ts us h.1
      (All-implies (λ t. up_to forward t probe ≡ true)
        (λ t. (up_to forward t probe ≡ true) ⊎ (up_to forward b t ≡ true)) us (λ t p. inl p) k),
  Any-append_left (λ t. t ≡ b) ts us h.2,
)
join-IsAdjacent forward probe b (some c) ts us h k =
    let nb = (before-not_nan forward probe b h.0).1 in
    let nc = (before-not_nan forward probe c k.0).1 in
    elim (Bool-cases (is_better forward c b)) [
      | inl better ↦ rw better (
        k.0,
        All-append (λ t. (up_to forward t probe ≡ true) ⊎ (up_to forward c t ≡ true)) ts us
            (widen_cover forward probe b c ts (better_up_to forward c b nc nb better) h.1) k.1,
        Any-append_right (λ t. t ≡ c) ts us k.2,
      )
      | inr worse ↦ rw worse (
        h.0,
        All-append (λ t. (up_to forward t probe ≡ true) ⊎ (up_to forward b t ≡ true)) ts us h.1
            (widen_cover forward probe c b us (not_better_up_to forward c b nc nb worse) k.1),
        Any-append_left (λ t. t ≡ b) ts us h.2,
      )
    ]

-- Nothing past the probe on the left: the right side decides.
join_none-IsAdjacent :
    (forward : Bool) (probe : F64) (o : Option F64) (ts us : List F64)
    → IsAdjacent forward probe ts none
    → IsAdjacent forward probe us o
    → IsAdjacent forward probe (ts ++ us) o
join_none-IsAdjacent forward probe none ts us h k =
    All-append (λ t. up_to forward t probe ≡ true) ts us h k
join_none-IsAdjacent forward probe (some c) ts us h k = (
  k.0,
  All-append (λ t. (up_to forward t probe ≡ true) ⊎ (up_to forward c t ≡ true)) ts us
      (All-implies (λ t. up_to forward t probe ≡ true)
        (λ t. (up_to forward t probe ≡ true) ⊎ (up_to forward c t ≡ true)) ts (λ t p. inl p) h)
      k.1,
  Any-append_right (λ t. t ≡ c) ts us k.2,
)

module _ (kind : TimelineEntryKind) (forward : Bool) (probe : F64)
    (f : is_finite probe ≡ true) where
  best_from-cons :
      (b : F64) (id : AircraftId) (w : AircraftTimeSeries)
      (m : List (AircraftId × AircraftTimeSeries))
      → best_from forward b (candidates kind forward probe ((id, w) ∷ m))
        ≡ best_from forward
            (better_of forward b (adjacent_in_series kind forward probe w))
            (candidates kind forward probe m)
  unfolding candidates best_from
  best_from-cons b id w m = elim (Option-cases (adjacent_in_series kind forward probe w)) [
    | inl e ↦ rw (e, candidates)
    | inr (c, e) ↦ rw (e, candidates)
  ]

  best_from-IsAdjacent :
      (b : F64) (ts : List F64) (m : List (AircraftId × AircraftTimeSeries))
      → AllValues IsValidSeries m
      → IsAdjacent forward probe ts (some b)
      → IsAdjacent forward probe
          (ts ++ all_times kind m)
          (some (best_from forward b (candidates kind forward probe m)))
  unfolding all_times
  best_from-IsAdjacent b ts [] v h = unfold candidates best_from in rw (append-nil ts) h
  best_from-IsAdjacent b ts ((id, w) ∷ m) v h =
      let o = adjacent_in_series kind forward probe w in
      let joined =
        join-IsAdjacent forward probe b o ts (times_of kind w) h
          (series-IsAdjacent kind forward probe w f v.0) in
      rw (best_from-cons b id w m) (
        subst
          (λ us.
            IsAdjacent forward probe us
              (some (best_from forward (better_of forward b o) (candidates kind forward probe m))))
          (append_assoc ts (times_of kind w) (all_times kind m))
          (best_from-IsAdjacent (better_of forward b o) (ts ++ times_of kind w) m v.1 joined))

  pub nearest-IsAdjacent :
      (m : List (AircraftId × AircraftTimeSeries))
      → AllValues IsValidSeries m
      → IsAdjacent forward probe (all_times kind m) (nearest kind forward probe m)
  unfolding all_times candidates reduce_best
  nearest-IsAdjacent [] v = tt
  nearest-IsAdjacent ((id, w) ∷ m) v =
      let here = series-IsAdjacent kind forward probe w f v.0 in
      elim (Option-cases (adjacent_in_series kind forward probe w)) [
        | inl e ↦
            rw (e, candidates)
              (join_none-IsAdjacent forward probe _ (times_of kind w) (all_times kind m)
                (subst (IsAdjacent forward probe (times_of kind w)) e here)
                (nearest-IsAdjacent m v.1))
        | inr (c, e) ↦
            rw (e, candidates)
              (best_from-IsAdjacent c (times_of kind w) m v.1
                (subst (IsAdjacent forward probe (times_of kind w)) e here))
      ]

-- In a store whose vectors are sorted by finite times, for a finite cursor, a step of one entry
-- finds a timestamp of that kind, of some aircraft, strictly past the cursor in the direction of
-- the step, with no other one between; it finds none only if no timestamp is strictly past the
-- cursor.
pub adjacent_global_timestamp-IsAdjacent :
    (s : TimeSeriesStore) (cursor : F64) (kind : TimelineEntryKind) (forward : Bool)
    → IsValid s
    → is_finite cursor ≡ true
    → IsAdjacent forward cursor
        (all_times kind s.series)
        (adjacent_global_timestamp s cursor 1 kind forward)
unfolding adjacent_global_timestamp adjacent_rounds
adjacent_global_timestamp-IsAdjacent s cursor kind forward h f =
    let found = nearest-IsAdjacent kind forward cursor f s.series h in
    subst (IsAdjacent forward cursor (all_times kind s.series)) (ground arith) found
