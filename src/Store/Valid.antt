-- ===== src/Store/Valid.antt =====
-- Every vector of every aircraft is sorted by time: an invariant of the store.
pub mod Steps
pub mod Messages
