-- ===== src/Tests/Serve.antt =====
-- Runs of the handlers of internal/cli/serve.go.
mod Server
use terminal_todo.Base.{
  Eq-nat, ℕ, ◌+◌, ◌*◌, ◌<◌, ◌≡◌, refl, Bool, true, false, List, [], ◌∷◌, ◌++◌, Option, none, some,
  arith, Bytes, bytes_eq, length, if◌then◌else◌,
}
use terminal_todo.Base.Text.{codes}
use terminal_todo.Base.Time.{timestamp_string}
use terminal_todo.Tests.{ann, bob, held, project, project-IsWellFormed}
use terminal_todo.Store.Ops.{get_task}
use terminal_todo.Store.Transaction.{no_fault, after_rename, load_unlocked}
use terminal_todo.Errors.{ok, err_no_ready_tasks, update_store_code}
use terminal_todo.Lifecycle.Exclusion.{IsHeld}
use terminal_todo.Serve.{
  Host, rpc_code_for_error_code, rpc_error_from_domain, failed, crashed, result,
  rpc_already_claimed,
}
use terminal_todo.Serve.Params.{DoneParams, done_of, Answer, claimed, ClaimParams}
use terminal_todo.Serve.Handlers.{todo_claim, handle_claim, dispatch}
use terminal_todo.Serve.Steady.{IsSound, ReadsWellFormed, dispatch-ReadsWellFormed}
use terminal_todo.Serve.Failure.{Leaves, dispatch-Leaves}
use terminal_todo.Serve.Exclusion.{Rejects, dispatch-Rejects}
use terminal_todo.Serve.Grant.{Grants, handle_claim-Grants}
use terminal_todo.Serve.Done.{handle_done}
use terminal_todo.Serve.Completion.{Completes, handle_done-Completes}
use terminal_todo.Store.{TaskStore}
use terminal_todo.Serve.Reads.{HasRoom}
use terminal_todo.Serve.Session.{meanwhile, Session, opened, handled, Session-ReadsWellFormed}
use terminal_todo.Tests.Store.{memory}

abbrev ten_minutes : Bytes → Option ℕ
ten_minutes text = if bytes_eq text (codes "10m") then some (600 * 1000000000) else none

abbrev desk : Host
desk = record {
  codec = memory;
  now = 200;
  load_fault = no_fault;
  fault = no_fault;
  load_config =
      some (record { default_ttl = codes "15m"; default_priority = 0x3F000000; default_caps = [] });
  parse_duration = ten_minutes;
  touch_agent = λ actor. ok tt;
  load_agent_registry = some [];
  digest = λ actor ttl_mode capabilities_mode capabilities. actor ++ ttl_mode;
  live = λ uri. false;
  to_lower = λ text. text;
  make_directory = ok tt;
}

project_reads : load_unlocked memory (some project) ≡ ok project
unfolding load_unlocked
project_reads = refl

abbrev sound_project : IsSound desk 2 (some project)
sound_project = record {
  store = project;
  loaded = project_reads;
  well_formed = project-IsWellFormed;
  room = omega arith;
}

abbrev bobs_claim : ℕ → ClaimParams
bobs_claim id = record { id = id; actor = bob; ttl = codes "10m"; receipt = false }

abbrev bobs_answer : Answer
bobs_answer = claimed (record {
  id = 2;
  owner = bob;
  expires = timestamp_string 600200;
  retry_count = 0;
  last_error = [];
})

no_fault-whole : no_fault ≡ after_rename → ⊥
no_fault-whole e = absurd (cc e)

denied :
    (dispatch desk true (todo_claim (bobs_claim 1)) (some project)).1 ≡ failed rpc_already_claimed
unfolding dispatch bytes_eq terminal_todo.Limits.validate_actor terminal_todo.Base.Text.trim_space
    terminal_todo.Base.Text.valid_utf8 terminal_todo.Serve.ensure_initialized
    terminal_todo.Serve.parse_lease_ttl terminal_todo.Store.Transaction.load_current
    terminal_todo.Base.Dict.values terminal_todo.Store.Transaction.update
    terminal_todo.Lifecycle.Leases.claim_task terminal_todo.Base.Dict.lookup
    terminal_todo.Dag.Ready.dependencies_complete terminal_todo.Serve.rpc_error_from_domain
denied = refl

dispatch-Leaves_example :
    Leaves desk project (dispatch desk true (todo_claim (bobs_claim 1)) (some project)).0
dispatch-Leaves_example =
    dispatch-Leaves desk true (todo_claim (bobs_claim 1)) (some project) rpc_already_claimed
      sound_project no_fault-whole denied

ann-IsHeld : IsHeld 200 1 ann project
unfolding get_task bytes_eq terminal_todo.Base.Dict.lookup
ann-IsHeld = record {
  task = held;
  found = refl;
  running = refl;
  owned = refl;
  named = refl;
  live = omega arith;
}

not_bob : bytes_eq ann bob ≡ false
unfolding bytes_eq
not_bob = refl

dispatch-Rejects_example :
    Rejects desk 1 ann (dispatch desk true (todo_claim (bobs_claim 1)) (some project))
dispatch-Rejects_example =
    dispatch-Rejects desk true (todo_claim (bobs_claim 1)) (some project) ann sound_project
      ann-IsHeld not_bob

granted : (handle_claim desk true (bobs_claim 2) (some project)).1 ≡ result bobs_answer
unfolding handle_claim bytes_eq terminal_todo.Limits.validate_actor
    terminal_todo.Base.Text.trim_space terminal_todo.Base.Text.valid_utf8
    terminal_todo.Serve.ensure_initialized terminal_todo.Serve.parse_lease_ttl
    terminal_todo.Store.Transaction.load_current terminal_todo.Base.Dict.values
    terminal_todo.Store.Transaction.update terminal_todo.Lifecycle.Leases.claim_task
    terminal_todo.Base.Dict.lookup terminal_todo.Dag.Ready.dependencies_complete
    terminal_todo.Store.Ops.add_log terminal_todo.Base.Dict.modify
granted = refl

handle_claim-Grants_example :
    Grants desk (bobs_claim 2) bobs_answer (handle_claim desk true (bobs_claim 2) (some project)).0
handle_claim-Grants_example =
    handle_claim-Grants desk true (bobs_claim 2) (some project) bobs_answer sound_project granted

-- The ID is given twice.
abbrev bobs_done : DoneParams
bobs_done = record { ids = 2 ∷ 2 ∷ []; actor = bob; receipt = false }

finishes : (handle_done desk true bobs_done (some project)).1 ≡ result (done_of (2 ∷ []) [])
unfolding handle_done terminal_todo.Limits.validate_actor bytes_eq
    terminal_todo.Base.Text.trim_space terminal_todo.Base.Text.valid_utf8
    terminal_todo.Serve.ensure_initialized terminal_todo.Store.Transaction.load_current
    terminal_todo.Base.Dict.values terminal_todo.Store.Transaction.update terminal_todo.Base.has
    terminal_todo.Base.Dict.lookup terminal_todo.Dag.Ready.dependencies_complete
    terminal_todo.Lifecycle.Prune.newly_ready_after terminal_todo.Base.Dict.modify
    terminal_todo.Dag.Uri.parse_local_id terminal_todo.Base.Decimal.parse_uint
finishes = refl

handle_done-Completes_example :
    Completes desk bobs_done
      (done_of (2 ∷ []) [])
      (handle_done desk true bobs_done (some project)).0
handle_done-Completes_example =
    handle_done-Completes desk true bobs_done (some project) (done_of (2 ∷ []) []) sound_project
      finishes

-- The write of the claim fails behind its rename.
abbrev shaky : Host
shaky = record desk { fault = after_rename }
