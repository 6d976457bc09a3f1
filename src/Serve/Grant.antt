-- ===== src/Serve/Grant.antt =====
-- internal/cli/serve.go: what the answer of `handleClaim` promises.
use terminal_todo.Base.{
  Eq-nat, ℕ, ◌<◌, ◌≡◌, refl, sym, ◌∙◌, inl, inr, Bool, false, [], arith, Bytes, bytes_eq,
}
use terminal_todo.Store.{TaskStore}
use terminal_todo.Store.Ops.{get_task}
use terminal_todo.Store.Transaction.{load_unlocked, stamped, update, load_current}
use terminal_todo.Errors.{Result, ok, err, Result-cases}
use terminal_todo.Dag.Ready.{Resolver}
use terminal_todo.Lifecycle.Leases.{claim_task, lease_end}
use terminal_todo.Lifecycle.Exclusion.{IsHeld, claim-IsHeld}
use terminal_todo.Serve.{Checked, refused, passed, result, Host, parse_lease_ttl, claim_resolver}
use terminal_todo.Serve.Params.{Answer, ClaimParams}
use terminal_todo.Serve.Handlers.{
  File, before, transact, lease_checks, claim_answer, after_preflight, handle_claim,
}
use terminal_todo.Serve.Reads.{cleaned, update-Succeeds}
use terminal_todo.Serve.Steady.{IsSound, Looks-Seen, answered-file}
use terminal_todo.Serve.Pointers.{answered-err, answered-ok}

stamped-IsHeld :
    (h : Host) (later id : ℕ) (a : Bytes) (s : TaskStore)
    → IsHeld later id a s
    → IsHeld later id a (stamped h.codec h.now s)
unfolding get_task
stamped-IsHeld h later id a s held = record {
  task = held.task;
  found = held.found;
  running = held.running;
  owned = held.owned;
  named = held.named;
  live = held.live;
}

lease_checks-passed :
    (h : Host) (initialized : Bool) (id : ℕ) (actor text : Bytes) (ttl : ℕ)
    → lease_checks h initialized id actor text ≡ passed ttl
    → (parse_lease_ttl h text ≡ passed ttl) × (bytes_eq actor [] ≡ false)
lease_checks-passed h initialized id actor text ttl e = (ground arith, ground arith)

-- The TTL of the request is valid, the agent holds the task in the file until the lease ends, and the
-- answer shows the task as it is there.
abbrev pub Grants : (h : Host) → ClaimParams → Answer → File h → Type 0
Grants h p a file =
    (ttl : ℕ) × (parse_lease_ttl h p.ttl ≡ passed ttl)
    × ((s : TaskStore) × (load_unlocked h.codec file ≡ ok s)
        × (claim_answer h p s ≡ result a)
        × ((later : ℕ) → later < lease_end h.now ttl → IsHeld later p.id p.actor s))

module _ (h : Host) (p : ClaimParams) (ttl : ℕ) (r : Resolver) (f : File h) (s : TaskStore)
    (named : bytes_eq p.actor [] ≡ false) (valid : parse_lease_ttl h p.ttl ≡ passed ttl)
    (loaded : load_unlocked h.codec f ≡ ok s) where
  abbrev claimed_file : File h × Result TaskStore
  claimed_file = update h.codec h.fault h.now (claim_task p.id p.actor ttl r h.now) f

  committed-Grants :
      (x : TaskStore) (a : Answer)
      → claimed_file.1 ≡ ok x
      → claim_answer h p x ≡ result a
      → Grants h p a claimed_file.0
  committed-Grants x a q shown =
      let mutate = claim_task p.id p.actor ttl r h.now in
      let done = update-Succeeds h.codec h.fault h.now mutate s x f loaded q in
      (
        ttl,
        valid,
        (
          x,
          done.1,
          shown,
          λ later live. rw (done.0) (
              stamped-IsHeld h later p.id p.actor _ (
                claim-IsHeld p.id p.actor ttl r h.now later done.2.0 (cleaned h.codec h.now s)
                  done.2.1 named live)),
        ),
      )

  transact-Grants :
      (a : Answer)
      → (transact h (claim_task p.id p.actor ttl r h.now) (claim_answer h p) f).1 ≡ result a
      → Grants h p a (transact h (claim_task p.id p.actor ttl r h.now) (claim_answer h p) f).0
  transact-Grants a shown = elim (Result-cases claimed_file.1) [
    | inr (e, q) ↦ absurd (cc (answered-err h (claim_answer h p) claimed_file e q, shown))
    | inl (x, q) ↦
        rw (answered-file h (claim_answer h p) claimed_file)
          (committed-Grants x a q (sym (answered-ok h (claim_answer h p) claimed_file x q) ∙ shown))
  ]

preflight-Grants :
    (h : Host) (p : ClaimParams) (ttl : ℕ) (o : File h × Result TaskStore) (w : IsSound h 1 o.0)
    (a : Answer)
    → bytes_eq p.actor [] ≡ false
    → parse_lease_ttl h p.ttl ≡ passed ttl
    → (after_preflight h p ttl o).1 ≡ result a
    → Grants h p a (after_preflight h p ttl o).0
preflight-Grants h p ttl (f, err e) w a named valid shown = absurd (cc shown)
preflight-Grants h p ttl (f, ok preflight) w a named valid shown =
    transact-Grants h p ttl (claim_resolver h.live p.id preflight) f w.store named valid w.loaded a
      shown

before-Grants :
    (h : Host) (p : ClaimParams) (file : File h) (v : IsSound h 2 file) (a : Answer)
    (checks : Checked ℕ)
    → ((ttl : ℕ)
        → checks ≡ passed ttl
        → (parse_lease_ttl h p.ttl ≡ passed ttl) × (bytes_eq p.actor [] ≡ false))
    → (before h checks file
        (λ ttl. after_preflight h p ttl (load_current h.codec h.load_fault h.now file))).1
      ≡ result a
    → Grants h p a
        (before h checks file
          (λ ttl. after_preflight h p ttl (load_current h.codec h.load_fault h.now file))).0
before-Grants h p file v a (refused c) k shown = absurd (cc shown)
before-Grants h p file v a (passed ttl) k shown =
    let first = load_current h.codec h.load_fault h.now file in
    let w = (Looks-Seen h 1 file first.0 v (inr refl)).0 in
    preflight-Grants h p ttl first w a (k ttl refl).1 (k ttl refl).0 shown

-- Where the tasks file reads as a well-formed store whose event counter has room, a claim that is
-- answered with a result has a valid TTL, and the file behind it reads as a store in which the agent
-- holds the task until the lease ends; the answer shows the task of that store.
pub handle_claim-Grants :
    (h : Host) (initialized : Bool) (p : ClaimParams) (file : File h) (a : Answer)
    (v : IsSound h 2 file)
    → (handle_claim h initialized p file).1 ≡ result a
    → Grants h p a (handle_claim h initialized p file).0
unfolding handle_claim
handle_claim-Grants h initialized p file a v =
    before-Grants h p file v a (lease_checks h initialized p.id p.actor p.ttl)
      (lease_checks-passed h initialized p.id p.actor p.ttl)
