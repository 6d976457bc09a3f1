-- ===== src/Serve/Course.antt =====
-- internal/cli/serve.go: the course that every handler takes.
use terminal_todo.Base.{Eq-nat, ℕ, ◌≡◌, refl, ◌⊎◌, inl, inr, Bool, true, false, none, some, Bytes}
use terminal_todo.Store.{Task, TaskStore}
use terminal_todo.Store.Ops.{get_task}
use terminal_todo.Store.Transaction.{load_current}
use terminal_todo.Errors.{Result, ok, err}
use terminal_todo.Dag.Ready.{Resolver}
use terminal_todo.Lifecycle.Invariant.{
  Call, claim, release, block, unblock, log, renew, handoff, perform,
}
use terminal_todo.Lifecycle.Exclusion.{target, caller}
use terminal_todo.Serve.{
  RpcCode, Checked, refused, passed, Response, failed, result, Host, claim_resolver,
  rpc_store_corrupted,
}
use terminal_todo.Serve.Params.{Answer}
use terminal_todo.Serve.Handlers.{
  File, Handled, before, transact, of_task, receipt_or, claim_answer, after_preflight, handle_claim,
  handle_heartbeat, handle_release, handle_handoff, handle_block, handle_unblock, handle_log,
  Request, todo_claim, todo_heartbeat, todo_release, todo_handoff, todo_block, todo_unblock,
  todo_log, dispatch,
}

abbrev pub request_id : Request → ℕ
request_id (todo_claim p) = p.id
request_id (todo_heartbeat p) = p.id
request_id (todo_release p) = p.id
request_id (todo_handoff p) = p.id
request_id (todo_block p) = p.id
request_id (todo_unblock p) = p.id
request_id (todo_log p) = p.id

abbrev pub request_actor : Request → Bytes
request_actor (todo_claim p) = p.actor
request_actor (todo_heartbeat p) = p.actor
request_actor (todo_release p) = p.actor
request_actor (todo_handoff p) = p.actor
request_actor (todo_block p) = p.actor
request_actor (todo_unblock p) = p.actor
request_actor (todo_log p) = p.actor

-- An answer that follows at most the pointer of this task.
abbrev pub Shows : ℕ → (TaskStore → Response Answer) → Type 0
Shows id k = (s : TaskStore) (t : Task) → get_task id s ≡ some t → (a : Answer) × (k s ≡ result a)

-- The file, or what a first look leaves of it.
abbrev pub Looks : (h : Host) → File h → File h → Type 0
Looks h file f = (f ≡ file) ⊎ (f ≡ (load_current h.codec h.load_fault h.now file).0)

-- A request is refused before its transaction, or it runs one transition of its task.
pub data Course (h : Host) (file : File h) (id : ℕ) (actor : Bytes) (o : Handled h) : Type 0 where
  stopped :
      (f : File h) (c : RpcCode) → Looks h file f → o ≡ (f, failed c) → Course h file id actor o
  ran :
      (f : File h) (r : Resolver) (c : Call) (k : TaskStore → Response Answer)
      → Looks h file f
      → target c ≡ id
      → caller c ≡ actor
      → Shows id k
      → o ≡ transact h (perform r h.now c) k f
      → Course h file id actor o

of_task-Shows : (h : Host) (id : ℕ) (show : Task → Answer) → Shows id (of_task h id show)
of_task-Shows h id show s t e = (show t, rw (e, of_task) refl)

receipt_or-Shows :
    (h : Host) (wanted : Bool) (operation : Bytes) (id : ℕ) (plain : Answer)
    → Shows id (receipt_or h wanted operation id plain)
receipt_or-Shows h true operation id plain s t e = of_task-Shows h id _ s t e
receipt_or-Shows h false operation id plain s t e = (plain, refl)

module _ (h : Host) (file : File h) (id : ℕ) (actor : Bytes) where
  before-Course {ℓ} :
      {A : Type ℓ} (checks : Checked A) (rest : A → Handled h)
      → ((a : A) → Course h file id actor (rest a))
      → Course h file id actor (before h checks file rest)
  before-Course (refused c) rest k = stopped file c (inl refl) refl
  before-Course (passed a) rest k = k a

pub dispatch-Course :
    (h : Host) (initialized : Bool) (q : Request) (file : File h)
    → Course h file (request_id q) (request_actor q) (dispatch h initialized q file)
unfolding dispatch handle_claim handle_heartbeat handle_release handle_handoff handle_block
    handle_unblock handle_log perform
dispatch-Course h initialized (todo_claim p) file =
    before-Course h file p.id p.actor _ _ λ ttl. look ttl
  where
    looked :
        (ttl : ℕ) (f : File h) (r : Result TaskStore)
        → f ≡ (load_current h.codec h.load_fault h.now file).0
        → Course h file p.id p.actor (after_preflight h p ttl (f, r))
    looked ttl f (err e) q = stopped f rpc_store_corrupted (inr q) refl
    looked ttl f (ok preflight) q =
        ran f (claim_resolver h.live p.id preflight) (claim p.id p.actor ttl) (claim_answer h p)
          (inr q) refl refl (of_task-Shows h p.id _) refl

    look :
        (ttl : ℕ)
        → Course h file p.id p.actor
            (after_preflight h p ttl (load_current h.codec h.load_fault h.now file))
    look ttl =
        looked ttl (load_current h.codec h.load_fault h.now file).0
          (load_current h.codec h.load_fault h.now file).1 refl
dispatch-Course h initialized (todo_heartbeat p) file = before-Course h file p.id p.actor _ _ λ ttl.
    ran file none (renew p.id p.actor ttl) _ (inl refl) refl refl (of_task-Shows h p.id _) refl
dispatch-Course h initialized (todo_release p) file = before-Course h file p.id p.actor _ _ λ _.
    ran file none (release p.id p.actor p.error) _ (inl refl) refl refl
      (receipt_or-Shows h p.receipt _ p.id _) refl
dispatch-Course h initialized (todo_handoff p) file = before-Course h file p.id p.actor _ _ λ _.
    ran file none (handoff p.id p.actor p.extra) _ (inl refl) refl refl
      (receipt_or-Shows h p.receipt _ p.id _) refl
dispatch-Course h initialized (todo_block p) file = before-Course h file p.id p.actor _ _ λ _.
    ran file none (block p.id p.actor p.reason) _ (inl refl) refl refl
      (receipt_or-Shows h p.receipt _ p.id _) refl
dispatch-Course h initialized (todo_unblock p) file = before-Course h file p.id p.actor _ _ λ _.
    ran file none (unblock p.id p.actor) _ (inl refl) refl refl
      (receipt_or-Shows h p.receipt _ p.id _) refl
dispatch-Course h initialized (todo_log p) file = before-Course h file p.id p.actor _ _ λ _.
    ran file none (log p.id p.actor p.message) _ (inl refl) refl refl
      (receipt_or-Shows h p.receipt _ p.id _) refl
