-- ===== src/Serve/Session.antt =====
-- internal/cli/serve.go: a run of requests, as the read loop hands them on one after the other.
use terminal_todo.Base.{Bool, ◌≡◌}
use terminal_todo.Store.{TaskStore}
use terminal_todo.Store.Transaction.{load_unlocked}
use terminal_todo.Errors.{ok}
use terminal_todo.Serve.{Host}
use terminal_todo.Serve.Handlers.{File, Request, dispatch}
use terminal_todo.Serve.Reads.{HasRoom}
use terminal_todo.Serve.Steady.{ReadsWellFormed, dispatch-ReadsWellFormed}

-- The surroundings of one request: another time, other faults, another configuration, the same file.
abbrev pub meanwhile : Host → Host → Host
meanwhile h e = record e { codec = h.codec }

-- What the tasks file can be behind requests in any order, each handled at its own time and with its
-- own faults. Before each one the event counter has room.
pub data Session (h : Host) (start : File h) : File h → Type 1 where
  opened : Session h start start
  handled :
      {file : File h} (e : Host) (initialized : Bool) (q : Request)
      → Session h start file
      → ((s : TaskStore) → load_unlocked h.codec file ≡ ok s → HasRoom 2 s)
      → Session h start (dispatch (meanwhile h e) initialized q file).0

-- From a tasks file that reads as a well-formed store, every run of the seven requests, each at its
-- own time and with its own faults, and with room in the event counter, leads to files that read as a
-- well-formed store.
pub Session-ReadsWellFormed :
    (h : Host) (start file : File h)
    → ReadsWellFormed h start
    → Session h start file
    → ReadsWellFormed h file
Session-ReadsWellFormed h start file v opened = v
Session-ReadsWellFormed h start file v (handled {file = before} e initialized q run room) =
    let (s, loaded, fine) = Session-ReadsWellFormed h start before v run in
    dispatch-ReadsWellFormed (meanwhile h e) initialized q before
      (record { store = s; loaded = loaded; well_formed = fine; room = room s loaded })
