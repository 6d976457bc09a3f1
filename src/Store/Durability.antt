-- ===== src/Store/Durability.antt =====
-- store/store.go: a file that was written, for every codec.
use terminal_todo.Base.{ℕ, ◌≡◌, some}
use terminal_todo.Store.{TaskStore}
use terminal_todo.Store.Transaction.{Codec, load_unlocked, stamped}
use terminal_todo.Errors.{ok}

module _ (codec : Codec) where
  open codec use {Data, marshal, unmarshal, unmarshal-marshal}

  -- A file that was written reads back.
  pub load-stamped :
      (now : ℕ) (s : TaskStore)
      → load_unlocked codec (some (marshal (stamped codec now s))) ≡ ok (stamped codec now s)
  unfolding load_unlocked
  load-stamped now s = rw (unmarshal-marshal (stamped codec now s), load_unlocked)
