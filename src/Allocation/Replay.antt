-- ===== src/Allocation/Replay.antt =====
-- internal/cli/allocation.go: `acquireFromStore` on a request that comes again.
use terminal_todo.Base.{Eq-nat, Eq-bytes}
