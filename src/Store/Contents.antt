-- ===== src/Store/Contents.antt =====
-- Snapshots and whole-store replacement of `core/src/store.rs`.
use fly_ruler_proto.Base.Equality.{string_eq}
use fly_ruler_proto.Base.{
  ◌≡◌, Bool, List, [], ◌∷◌, if◌then◌else◌, false, ◌++◌, sym, append-nil, ◌∙◌, append_assoc,
}
use fly_ruler_proto.Base.Dict.{
  insert, Distinct, Missing, Missing-nil, insert_missing, Missing-concat,
}
use fly_ruler_proto.Store.{AircraftId, AircraftTimeSeries, TimeSeriesStore, new_store}

-- The loop that inserts every entry of a map into another.
unfoldable pub copy_into :
    List (AircraftId × AircraftTimeSeries)
    → List (AircraftId × AircraftTimeSeries)
    → List (AircraftId × AircraftTimeSeries)
copy_into target [] = target
copy_into target ((id, v) ∷ m) = copy_into (insert id v target) m

-- The receipts of live states are not copied.
unfoldable pub snapshot_clone : TimeSeriesStore → TimeSeriesStore
unfolding copy_into
snapshot_clone s = record { series = copy_into [] s.series; live_state_receipts = [] }

-- `same` says whether both arguments are one object (`std::ptr::eq`).
unfoldable pub replace_from : Bool → TimeSeriesStore → TimeSeriesStore → TimeSeriesStore
unfolding copy_into
replace_from same s other =
    if same then s else record { series = copy_into [] other.series; live_state_receipts = [] }

unfoldable pub clear : TimeSeriesStore → TimeSeriesStore
clear s = new_store

copy_into-append :
    (target m : List (AircraftId × AircraftTimeSeries))
    → Distinct m
    → Missing target m
    → copy_into target m ≡ target ++ m
unfolding copy_into
copy_into-append target [] d h = sym (append-nil target)
copy_into-append target ((id, v) ∷ m) d h = rw (insert_missing id v target h.0) (
    copy_into-append (target ++ (id, v) ∷ []) m d.1 (Missing-concat id v target m h.1 d.0)
    ∙ append_assoc target ((id, v) ∷ []) m)

-- Every aircraft has one entry.
abbrev pub HasDistinctIds : TimeSeriesStore → Type 0
HasDistinctIds s = Distinct s.series

-- For a store with one entry for each aircraft, a snapshot holds the same series and no live
-- receipt, and a store that is replaced from that snapshot, another object, holds what the
-- snapshot holds.
pub replace_from-snapshot_clone :
    (s self : TimeSeriesStore)
    → HasDistinctIds s
    → (snapshot_clone s ≡ record s { live_state_receipts = [] })
      × (replace_from false self (snapshot_clone s) ≡ snapshot_clone s)
unfolding snapshot_clone replace_from
replace_from-snapshot_clone s self d =
    let same = copy_into-append [] s.series d (Missing-nil s.series) in (rw same, rw (same, same))
