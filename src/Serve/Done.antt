-- ===== src/Serve/Done.antt =====
-- internal/cli/serve.go: `handleDone`, which completes several tasks in one transaction.
use terminal_todo.Base.{
  Eq-nat, ℕ, Bool, false, List, [], ◌∷◌, none, some, Bytes, nat_eq, length, if◌then◌else◌,
}
use terminal_todo.Base.Text.{codes}
use terminal_todo.Store.{TaskStore}
use terminal_todo.Store.Ops.{get_all_tasks}
use terminal_todo.Store.Transaction.{load_current}
use terminal_todo.Errors.{Result, ok, err}
use terminal_todo.Limits.{validate_actor}
use terminal_todo.Dag.Ready.{Resolver}
use terminal_todo.Lifecycle.Leases.{Outcome, complete_task}
use terminal_todo.Lifecycle.Prune.{ids_of, newly_ready_after}
use terminal_todo.Compaction.{unique_task_ids}
use terminal_todo.Serve.{
  Checked, refuse_if, accept, ◌>>◌, ensure_initialized, Response, failed, result, Host,
  rpc_store_corrupted, snapshot_dependency_resolver,
}
use terminal_todo.Serve.Receipt.{
  MutationReceipt, new_mutation_receipt, task_detail_follow_up, graph_detail_follow_up,
}
use terminal_todo.Serve.Params.{DoneParams, Answer, receipt_of, done_of}
use terminal_todo.Serve.Handlers.{File, Handled, before, transact}

-- The next round of the loop, unless this one failed. What it wrote stays written.
abbrev pub next_round :
    Outcome → (TaskStore → TaskStore × Result (Unit {0})) → TaskStore × Result (Unit {0})
next_round (s, err e) rest = (s, err e)
next_round (s, ok id) rest = rest s

unfoldable pub complete_all :
    List ℕ → Bytes → Resolver → ℕ → TaskStore → TaskStore × Result (Unit {0})
unfolding complete_task
complete_all [] actor resolver now s = (s, ok tt)
complete_all (id ∷ ids) actor resolver now s =
    next_round (complete_task id actor resolver now s) (complete_all ids actor resolver now)

-- One task is shown by itself, several by the graph.
abbrev pub done_receipt : List ℕ → MutationReceipt
done_receipt (id ∷ []) = record (new_mutation_receipt (codes "complete") (id ∷ [])) {
  task =
      some (record { id = id; status = codes "completed"; lease_expires = none; retry_count = 0 });
  detail_follow_up = task_detail_follow_up id;
}
done_receipt ids = record (new_mutation_receipt (codes "complete") ids) {
  detail_follow_up = graph_detail_follow_up;
}

abbrev pub done_answer : Bool → List ℕ → Resolver → TaskStore → Response Answer
done_answer receipt ids resolver s =
    if receipt
    then result (receipt_of (done_receipt ids))
    else result (done_of ids (ids_of (newly_ready_after s ids resolver)))

abbrev pub done_checks : Bool → DoneParams → Checked (Unit {0})
done_checks initialized p = do
  refuse_if (nat_eq (length p.ids) 0)
  accept (validate_actor p.actor false)
  ensure_initialized initialized

module _ (h : Host) where
  abbrev pub after_done_preflight : DoneParams → List ℕ → File h × Result TaskStore → Handled h
  after_done_preflight p ids (file, err e) = (file, failed rpc_store_corrupted)
  after_done_preflight p ids (file, ok preflight) =
      let resolver = snapshot_dependency_resolver h.live (get_all_tasks preflight) in
      transact h (complete_all ids p.actor resolver h.now) (done_answer p.receipt ids resolver) file

  unfoldable pub handle_done : Bool → DoneParams → File h → Handled h
  unfolding complete_all unique_task_ids
  handle_done initialized p file = before h (done_checks initialized p) file λ _.
      after_done_preflight p (unique_task_ids p.ids) (load_current h.codec h.load_fault h.now file)
