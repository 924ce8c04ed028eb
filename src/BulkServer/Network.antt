-- ===== src/BulkServer/Network.antt =====
-- HW_10/include/server_p.hpp: a session of the bulk server, as the calls of the library that it makes.
-- What `async_read_until` puts into the buffer and how many bytes it hands over are events.
pub mod Sessions
use cplus_plus_developer_pro.Prelude.{
  ℕ, ◌+◌, Bool, true, false, not, ◌&&◌, ◌||◌, List, [], ◌∷◌, ◌++◌, ◌==◌, if◌then◌else◌, is_empty,
  snoc, take, drop,
}
use cplus_plus_developer_pro.Prelude.Text.{Text}
use cplus_plus_developer_pro.BulkServer.Lifecycle.{Call, connects, receives, disconnects}

pub data ErrorCode : Type 0 where
  no_error : ErrorCode
  eof : ErrorCode
  other : ErrorCode

-- The session, the calls that it has made, and whether the server's list has it.
pub record Session : Type 0 where
  pub handle : ℕ
  pub buffer : Text
  pub is_listed : Bool
  pub calls : List Call

-- `start`, with the handle that `connect` gives.
unfoldable pub start : (bulk_size address : ℕ) → Session
start bulk_size address = record {
  handle = address;
  buffer = [];
  is_listed = true;
  calls = connects bulk_size address ∷ [];
}

abbrev pub ends_line : Text → Bool
ends_line [] = false
ends_line (c ∷ []) = c == 10
ends_line (c ∷ d ∷ s) = ends_line (d ∷ s)

abbrev pub completed : Text → Text
completed data' = if not (is_empty data') && not (ends_line data') then snoc data' 10 else data'

-- Bytes arrive, or a read completes.
pub data Event : Type 0 where
  arrives : Text → Event
  reads : ℕ → Event

-- The clock of each call of `receive` is the same function here.
module _ (clock : ℕ → ℕ) where
  -- The call of `disconnect` in `handle_read` and in the destructor.
  unfoldable pub leave : Session → Session
  leave s =
      if s.handle == 0
      then s
      else record s { handle = 0; calls = snoc s.calls (disconnects s.handle) }

  unfoldable pub read_rest : Session → Session
  read_rest s = if is_empty s.buffer then s else record s {
    buffer = [];
    calls = snoc s.calls (receives clock s.handle (completed s.buffer));
  }

  unfoldable pub handle_read : ErrorCode → ℕ → Session → Session
  handle_read no_error bytes_transferred s = record s {
    buffer = drop bytes_transferred s.buffer;
    calls = snoc s.calls (receives clock s.handle (take bytes_transferred s.buffer));
  }
  handle_read eof bytes_transferred s = record (leave (read_rest s)) { is_listed = false }
  handle_read other bytes_transferred s = s

  unfoldable pub event : Event → Session → Session
  event (arrives chunk) s = record s { buffer = s.buffer ++ chunk }
  event (reads bytes_transferred) s = handle_read no_error bytes_transferred s

  unfoldable pub events : List Event → Session → Session
  events [] s = s
  events (e ∷ es) s = events es (event e s)
