-- ===== src/Serve/Life.antt =====
-- internal/cli/serve.go: the life of a server, request after request.
use terminal_todo.Base.{◌≡◌, Bytes}
use terminal_todo.Store.{TaskStore}
use terminal_todo.Store.Transaction.{load_unlocked}
use terminal_todo.Errors.{Result, ok}
use terminal_todo.Serve.{Host}
use terminal_todo.Serve.Handlers.{File}
use terminal_todo.Serve.Session.{meanwhile}
use terminal_todo.Serve.Space.{HasSpace}
use terminal_todo.Serve.Effect.{ReadsSteady, IsReady}
use terminal_todo.Serve.Server.{Method, State, todo_init, serve}
use terminal_todo.Serve.Whole.{serve-ReadsSteady}
use terminal_todo.Serve.Backup.{handle_backup, handle_restore}
use terminal_todo.Serve.Saving.{BothSteady, handle_backup-steady, handle_restore-steady}

-- Whatever store the file reads as, its counters have room for the request.
abbrev pub Roomy : (h : Host) → Method → File h → Type 0
Roomy h q file = (s : TaskStore) → load_unlocked h.codec file ≡ ok s → HasSpace q 2 s

-- The server, its tasks file and the file of a backup.
abbrev pub World : Host → Type 0
World h = State h × File h

abbrev pub after_request : (h : Host) → Method → World h → World h
after_request h q (state, backup) = ((serve h q state).0, backup)

abbrev pub after_backup : (h : Host) → World h → World h
after_backup h (state, backup) =
    let o = handle_backup h state.0 state.1 backup in ((state.0, o.0.0), o.0.1)

abbrev pub after_restore : (h : Host) → Bytes → Result (Unit {0}) → World h → World h
after_restore h path opened (state, backup) =
    let o = handle_restore h state.0 path opened state.1 backup in ((state.0, o.0.0), o.0.1)

-- What requests in any order lead to, each handled at its own time, with its own faults and its own
-- configuration. Before each one the counters have room; a backup needs the room of a request that
-- makes no events.
pub data Life (h : Host) (start : World h) : World h → Type 1 where
  started : Life h start start
  served :
      {w : World h} (e : Host) (q : Method)
      → Life h start w
      → Roomy h q w.0.1
      → Life h start (after_request (meanwhile h e) q w)
  backed_up :
      {w : World h} (e : Host)
      → Life h start w
      → Roomy h todo_init w.0.1
      → Life h start (after_backup (meanwhile h e) w)
  brought_back :
      {w : World h} (e : Host) (path : Bytes) (opened : Result (Unit {0}))
      → Life h start w
      → Life h start (after_restore (meanwhile h e) path opened w)

ready :
    (h e : Host) (q : Method) (file : File h)
    → ReadsSteady h file
    → Roomy h q file
    → IsReady (meanwhile h e) q 2 file
ready h e q file (s, loaded, fine) room = record {
  store = s;
  loaded = loaded;
  steady = fine;
  space = room s loaded;
}

-- From a tasks file and a file for backups that are missing or read as well-formed stores whose graphs
-- have no cycle, every run of the requests `serve` answers, of backups to that file and of restores
-- from it, each at its own time and with its own faults, and with room in the counters, leads to two
-- files that read as well-formed stores whose graphs have no cycle.
pub Life-BothSteady :
    (h : Host) (start after : World h)
    → BothSteady h (start.0.1, start.1)
    → Life h start after
    → BothSteady h (after.0.1, after.1)
Life-BothSteady h start after v started = v
Life-BothSteady h start after v (served {w = w} e q run room) =
    let (file, saved) = Life-BothSteady h start w v run in
    (serve-ReadsSteady (meanwhile h e) q w.0.0 w.0.1 (ready h e q w.0.1 file room), saved)
Life-BothSteady h start after v (backed_up {w = w} e run room) =
    let (file, saved) = Life-BothSteady h start w v run in
    handle_backup-steady (meanwhile h e) w.0.0 w.0.1 w.1 (ready h e todo_init w.0.1 file room) saved
Life-BothSteady h start after v (brought_back {w = w} e path opened run) =
    let (file, saved) = Life-BothSteady h start w v run in
    handle_restore-steady (meanwhile h e) w.0.0 path opened w.0.1 w.1 file saved
