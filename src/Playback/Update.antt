-- ===== src/Playback/Update.antt =====
-- The effective cursor of `core/src/playback.rs` stays within the bounds, and `clamp` never panics.
use fly_ruler_proto.Base.{
  ℕ, ◌^◌, ◌<◌, ◌≡◌, refl, inl, inr, Bool, true, false, Option, none, some, arith, Bool-cases,
  unwrap_or, is_none_or,
}
use fly_ruler_proto.Float.{
  F64, is_finite, le, lt, le_refl, le-of_lt, not_nan-of_finite, le-of_not_lt, lt-of_not_le, fmax,
  finite_between,
}
use fly_ruler_proto.Playback.{
  Arithmetic, PlaybackMode, live_mode, replay_paused, replay_playing, ReplayConfig, PlaybackInner,
  Reply, reply, clamp, wrapping_next, without_data, next_cursor, update_mode,
  update_effective_cursor, validate_speed,
}

-- Finite bounds in order, or none.
abbrev pub IsBounds : Option (F64 × F64) → Type 0
IsBounds none = Unit
IsBounds (some (a, b)) = (is_finite a ≡ true) × (is_finite b ≡ true) × (le a b ≡ true)

-- The cursor is within the bounds, or there are none.
abbrev pub IsWithin : Option (F64 × F64) → Option F64 → Type 0
IsWithin none cursor = cursor ≡ none
IsWithin (some (a, b)) cursor = (c : F64) × (cursor ≡ some c) × (le a c ≡ true) × (le c b ≡ true)

abbrev pub is_playing : PlaybackMode → Bool
is_playing live_mode = false
is_playing replay_paused = false
is_playing replay_playing = true

abbrev pub is_some {ℓ} : {A : Type ℓ} → Option A → Bool
is_some none = false
is_some (some a) = true

abbrev pub IsSpeed : ReplayConfig → F64 → Type 0
IsSpeed config speed =
    (is_finite speed ≡ true)
    × (le config.min_speed speed ≡ true)
    × (le speed config.max_speed ≡ true)

pub validate_speed-IsSpeed :
    (config : ReplayConfig) (speed : F64)
    → validate_speed config speed ≡ reply tt
    → IsSpeed config speed
unfolding validate_speed
validate_speed-IsSpeed config speed h = ground arith

-- A cursor is finite, the speed within its limits, the revision a `u64`, and there is an anchor
-- exactly while the timeline plays.
pub record IsTimeline (config : ReplayConfig) (inner : PlaybackInner) : Type 0 where
  pub cursor : is_none_or inner.cursor_secs is_finite ≡ true
  pub speed : IsSpeed config inner.speed
  pub revision : inner.revision < 2 ^ 64
  pub anchored : is_some inner.anchor ≡ is_playing inner.mode

pub clamp-within :
    (x a b : F64)
    → is_finite x ≡ true
    → is_finite a ≡ true
    → is_finite b ≡ true
    → le a b ≡ true
    → (c : F64) × (clamp x a b ≡ reply c) × (le a c ≡ true) × (le c b ≡ true)
unfolding clamp
clamp-within x a b f g h r = elim (Bool-cases (lt x a)) [
  | inl e ↦ (a, rw (r, e), le_refl a g, r)
  | inr e ↦ elim (Bool-cases (lt b x)) [
    | inl k ↦ (b, rw (r, e, k), r, le_refl b h)
    | inr k ↦ (
      x,
      rw (r, e, k),
      le-of_not_lt a x (not_nan-of_finite a g) (not_nan-of_finite x f) e,
      le-of_not_lt x b (not_nan-of_finite x f) (not_nan-of_finite b h) k,
    )
  ]
]

-- The cursor while the timeline plays on: at least the start, also if the sum is a NaN.
fmax-within :
    (next a b : F64)
    → is_finite a ≡ true
    → is_finite b ≡ true
    → le a b ≡ true
    → le b next ≡ false
    → (le a (fmax next a) ≡ true) × (le (fmax next a) b ≡ true)
unfolding fmax
fmax-within next a b f g r e = ground (
  arith,
  not_nan-of_finite a f,
  not_nan-of_finite b g,
  le_refl a f,
  le-of_not_lt a next,
  le-of_lt next b,
  lt-of_not_le b next,
)

module _ (ops : Arithmetic) (config : ReplayConfig) where
  -- What an update gives: a state as above, with the cursor within the bounds.
  abbrev pub Updates : Reply PlaybackInner → Option (F64 × F64) → Type 0
  Updates r bounds =
      (inner : PlaybackInner) × (r ≡ reply inner)
      × IsTimeline config inner
      × IsWithin bounds inner.cursor_secs

  finite_cursor :
      (o : Option F64) (start : F64)
      → is_none_or o is_finite ≡ true
      → is_finite start ≡ true
      → is_finite (unwrap_or o start) ≡ true
  finite_cursor none start h f = f
  finite_cursor (some c) start h f = h

  update_mode-Updates :
      (m : PlaybackMode) (elapsed_at anchor_at : ℕ) (inner : PlaybackInner) (a b : F64)
      → inner.mode ≡ m
      → IsTimeline config inner
      → IsBounds (some (a, b))
      → Updates (update_mode ops m elapsed_at anchor_at inner a b) (some (a, b))
  unfolding update_mode
  update_mode-Updates live_mode elapsed_at anchor_at inner a b e h r = (
    record inner { cursor_secs = some b; anchor = none },
    refl,
    record { cursor = r.1; speed = h.speed; revision = h.revision; anchored = rw e },
    (b, refl, r.2, le_refl b r.1),
  )
  update_mode-Updates replay_paused elapsed_at anchor_at inner a b e h r =
      let (c, done, low, high) =
        clamp-within (unwrap_or inner.cursor_secs a) a b
          (finite_cursor inner.cursor_secs a h.cursor r.0) r.0 r.1 r.2 in
      (
        record inner { cursor_secs = some c; anchor = none },
        rw done,
        record {
          cursor = finite_between a c b r.0 r.1 low high;
          speed = h.speed;
          revision = h.revision;
          anchored = rw e;
        },
        (c, refl, low, high),
      )
  update_mode-Updates replay_playing elapsed_at anchor_at inner a b e h r =
      let next = next_cursor ops elapsed_at a inner in
      elim (Bool-cases (le b next)) [
        | inl over ↦ (
          record inner {
            cursor_secs = some b;
            mode = replay_paused;
            anchor = none;
            revision = wrapping_next inner.revision;
          },
          rw over,
          record { cursor = r.1; speed = h.speed; revision = omega arith; anchored = refl },
          (b, refl, r.2, le_refl b r.1),
        )
        | inr going ↦
            let (low, high) = fmax-within next a b r.0 r.1 r.2 going in
            (
              record inner { cursor_secs = some (fmax next a); anchor = some anchor_at },
              rw going,
              record {
                cursor = finite_between a (fmax next a) b r.0 r.1 low high;
                speed = h.speed;
                revision = h.revision;
                anchored = rw e;
              },
              (fmax next a, refl, low, high),
            )
      ]

  without_data-not_playing : (m : PlaybackMode) → is_playing (without_data m) ≡ false
  without_data-not_playing live_mode = refl
  without_data-not_playing replay_paused = refl
  without_data-not_playing replay_playing = refl

  pub update-Updates :
      (clock : ℕ × ℕ) (inner : PlaybackInner) (bounds : Option (F64 × F64))
      → IsTimeline config inner
      → IsBounds bounds
      → Updates (update_effective_cursor ops clock inner bounds) bounds
  unfolding update_effective_cursor
  update-Updates clock inner none h r = (
    record inner { cursor_secs = none; anchor = none; mode = without_data inner.mode },
    refl,
    record {
      cursor = refl;
      speed = h.speed;
      revision = h.revision;
      anchored = rw (without_data-not_playing inner.mode);
    },
    refl,
  )
  update-Updates (elapsed_at, anchor_at) inner (some (a, b)) h r =
      update_mode-Updates inner.mode elapsed_at anchor_at inner a b refl h r
