-- ===== src/Server/Turns.antt =====
-- The actions on the sessions in the order in which they take place: turns of the receive loop and
-- what the publisher of the cursor stream does through its handle.
use fly_ruler_proto.Base.Equality.{string_eq}
use fly_ruler_proto.Base.{ℕ, true, List, [], ◌∷◌}
use fly_ruler_proto.Server.{SocketAddr, new_sessions, set_cursor_epoch, remove_by_addr}
use fly_ruler_proto.Server.Receive.{Arrival, ServerLoop, receive}

pub data Turn : Type 0 where
  arrives : Arrival → Turn
  -- `ServerPublisherHandle::remove_session` and `set_cursor_epoch`.
  removes : SocketAddr → Turn
  sets_epoch : SocketAddr → List ℕ → Turn

unfoldable pub take_turn : ℕ → Turn → ServerLoop → ServerLoop
take_turn timeout (arrives arrival) l = (receive timeout arrival l).after
take_turn timeout (removes addr) l = record l { sessions = remove_by_addr addr l.sessions }
take_turn timeout (sets_epoch addr epoch) l = record l {
  sessions = set_cursor_epoch addr epoch l.sessions;
}

-- `ServerRuntime::start`, before the first turn.
abbrev pub new_loop : ServerLoop
new_loop = record { sessions = new_sessions; running = true }

-- The latest turn comes first.
unfoldable pub run_turns : ℕ → List Turn → ServerLoop
run_turns timeout [] = new_loop
run_turns timeout (turn ∷ earlier) = take_turn timeout turn (run_turns timeout earlier)
