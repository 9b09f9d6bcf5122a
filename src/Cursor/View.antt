-- ===== src/Cursor/View.antt =====
-- In which order items of the cursor stream may come to a consumer.
use fly_ruler_proto.Base.Equality.{string_eq, ◌==◌}
use fly_ruler_proto.Base.{
  if◌then◌else◌, none, some, [], ◌∷◌, List, Option, ◌<◌, ℕ, ◌≡◌, ◌≤◌, ◌&&◌, not, false,
}
use fly_ruler_proto.Cursor.Payloads.{frame, event_batch, reset, CursorClientEvent, CursorEventBatch}
use fly_ruler_proto.Cursor.Client.{item, failure, CursorClient, epoch_of, Received, is_revision}

-- What a consumer knows of the stream from the items that it got: the epoch and the revision of the
-- timeline, and the numbers of the last batch and of the last frame.
pub record View : Type 0 where
  pub epoch : List ℕ
  pub revision : Option ℕ
  pub batch : ℕ
  pub frame : ℕ

abbrev pub blank_view : View
blank_view = record { epoch = []; revision = none; batch = 0; frame = 0 }

-- A batch of another epoch starts anew, and so do the batches at a baseline of another revision.
abbrev pub at_epoch : CursorEventBatch → View → View
at_epoch b v =
    if v.epoch == epoch_of b.server_epoch
    then v
    else record { epoch = epoch_of b.server_epoch; revision = none; batch = 0; frame = 0 }

abbrev pub at_baseline : CursorEventBatch → View → View
at_baseline b v =
    if b.baseline && not (is_revision v.revision b.revision)
    then record v { revision = some b.revision; batch = 0 }
    else v

abbrev pub before_batch : CursorEventBatch → View → View
before_batch b v = at_baseline b (at_epoch b v)

-- A frame is newer than the last one, and its events were handed on; a batch is newer than the last
-- one; a reset is of another epoch or revision.
abbrev pub Allowed : View → CursorClientEvent → Type 0
Allowed v (frame f) = (v.frame < f.frame_sequence) × (f.event_watermark ≤ v.batch)
Allowed v (event_batch b) = (before_batch b v).batch < b.event_sequence
Allowed v (reset r) =
    (v.epoch == epoch_of r.server_epoch && is_revision v.revision r.revision) ≡ false

abbrev pub next_view : View → CursorClientEvent → View
next_view v (frame f) = record v { frame = f.frame_sequence }
next_view v (event_batch b) = record (before_batch b v) { batch = b.event_sequence }
next_view v (reset r) = record {
  epoch = epoch_of r.server_epoch;
  revision = some r.revision;
  batch = 0;
  frame = 0;
}

-- Every item is allowed after those before it.
abbrev pub IsOrdered : View → List CursorClientEvent → Type 0
IsOrdered v [] = Unit
IsOrdered v (e ∷ events) = Allowed v e × IsOrdered (next_view v e) events

abbrev pub view_of : CursorClient → View
view_of c = record {
  epoch = c.stream_epoch;
  revision = c.baseline_revision;
  batch = c.applied_event_sequence;
  frame = c.last_frame_sequence;
}

-- A result that the view allows, and the client's view after it.
abbrev pub Follows : View → CursorClient → Option Received → Type 0
Follows v c none = view_of c ≡ v
Follows v c (some (failure e)) = view_of c ≡ v
Follows v c (some (item e)) = Allowed v e × (view_of c ≡ next_view v e)
