-- ===== src/Serve/Receipt.antt =====
-- internal/cli/mutation_receipt.go: the receipts of mutations.
use terminal_todo.Base.{ℕ, Bool, true, false, List, [], ◌∷◌, ◌++◌, Option, none, some, Bytes}
use terminal_todo.Base.Text.{codes}
use terminal_todo.Base.Decimal.{format}
use terminal_todo.Store.{Task}
use terminal_todo.Protocol.{protocol_version, status_name, optional_timestamp}
use terminal_todo.Compaction.{MutationAffected, new_mutation_affected}

pub record MutationTaskReference : Type 0 where
  pub id : ℕ
  pub status : Bytes
  pub lease_expires : Option Bytes
  pub retry_count : ℕ

pub record MutationDetailFollowUp : Type 0 where
  pub available : Bool
  pub cli : Bytes
  pub native_method : Bytes
  pub mcp_tool : Bytes
  pub guidance : Bytes

pub record MutationReceipt : Type 0 where
  pub schema_version : Bytes
  pub operation : Bytes
  pub task : Option MutationTaskReference
  pub affected : MutationAffected
  pub replayed : Option Bool
  pub detail_follow_up : MutationDetailFollowUp

unfoldable pub new_mutation_receipt : Bytes → List ℕ → MutationReceipt
unfolding new_mutation_affected
new_mutation_receipt operation ids = record {
  schema_version = protocol_version;
  operation = operation;
  task = none;
  affected = new_mutation_affected ids;
  replayed = none;
  detail_follow_up = record {
    available = false;
    cli = [];
    native_method = [];
    mcp_tool = [];
    guidance =
        codes
          "full detail is unavailable after this mutation; inspect or export state before running it";
  };
}

unfoldable pub new_mutation_task_reference : Task → MutationTaskReference
unfolding status_name
new_mutation_task_reference task = record {
  id = task.id;
  status = status_name task.status;
  lease_expires = optional_timestamp task.lease_expires;
  retry_count = task.retry_count;
}

unfoldable pub task_detail_follow_up : ℕ → MutationDetailFollowUp
unfolding format
task_detail_follow_up id = record {
  available = true;
  cli = codes "todo cat " ++ (format id ++ codes " --json");
  native_method = codes "todo.cat";
  mcp_tool = codes "terminal_todo_cat";
  guidance = [];
}

unfoldable pub new_task_mutation_receipt : Bytes → Task → MutationReceipt
unfolding new_mutation_receipt new_mutation_task_reference task_detail_follow_up
new_task_mutation_receipt operation task = record (new_mutation_receipt operation (task.id ∷ [])) {
  task = some (new_mutation_task_reference task);
  detail_follow_up = task_detail_follow_up task.id;
}

abbrev pub graph_detail_follow_up : MutationDetailFollowUp
graph_detail_follow_up = record {
  available = true;
  cli = codes "todo status --json";
  native_method = codes "todo.status";
  mcp_tool = codes "terminal_todo_status";
  guidance = [];
}

unfoldable pub lineage_detail_follow_up : ℕ → MutationDetailFollowUp
unfolding format
lineage_detail_follow_up id = record {
  available = true;
  cli = codes "todo lineage " ++ (format id ++ codes " --json");
  native_method = codes "todo.lineage";
  mcp_tool = [];
  guidance =
      codes
        "MCP callers can read the parent with terminal_todo_cat, then inspect its dependency task IDs";
}
