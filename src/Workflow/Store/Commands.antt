-- ===== src/Workflow/Store/Commands.antt =====
-- Command identifiers: `loadCommandResult`, `reserveCommand`, `reserveTaskCommand`,
-- `recordRunCommandResult`, `recordTaskCommandResult` and `replayAfterConflict` of
-- go/internal/workflow/store.go.
use basic.Base.{
  String, Bool, true, not, Option, none, some, List, [], ◌∷◌, ◌++◌, map, Result, ok, err, str_eq,
  if◌then◌else◌,
}
use basic.Base.Table.{find_row, update_rows}
use basic.Workflow.Types.{command_conflict, Actor, CommandEnvelope, Event}
use basic.Workflow.Task.Model.{Task}
use basic.Workflow.Store.Rows.{Columns}
use basic.Workflow.Store.Tables.{
  CommandResult, CommandRow, Tables, StoreErr, sentinel, replay_after_conflict, no_rows, Tx,
}

abbrev pub has_id : String → CommandRow → Bool
has_id id row = str_eq row.command_id id

-- A stored command against the digest of the request, for a row that was found.
unfoldable pub stored_result : String → CommandRow → Result StoreErr CommandResult
stored_result digest row =
    if not (str_eq row.request_digest digest)
    then err (sentinel command_conflict)
    else elim row.result [ none ↦ err (sentinel command_conflict) | some result ↦ ok result ]

abbrev pub found_result :
    Tables → Result StoreErr CommandResult → Result StoreErr (Option CommandResult × Tables)
found_result db (ok result) = ok (some result, db)
found_result db (err e) = err e

-- The result of an earlier execution, or nothing where there is none.
unfoldable pub load_command_result : String → String → Tx (Option CommandResult)
load_command_result id digest db = elim (find_row (has_id id) db.commands) [
  | none ↦ ok (none, db)
  | some row ↦ found_result db (stored_result digest row)
]

-- `result.Replay = true`
abbrev pub replayed : CommandResult → CommandResult
replayed result = record result { replay = true }

-- An actor as its columns keep it.
abbrev pub kept_actor : Columns → Actor → Actor
kept_actor col a = record a { id = col.uuid a.id }

-- The row of `reserveCommand` and `reserveTaskCommand`, which has no result yet.
abbrev pub reserved_row : Columns → String → String → String → CommandEnvelope → CommandRow
reserved_row col type id digest meta = record {
  command_id = col.uuid meta.command_id;
  aggregate_type = type;
  aggregate_id = col.uuid id;
  request_digest = digest;
  actor = kept_actor col meta.actor;
  expected_revision = meta.expected_revision;
  correlation_id = col.uuid meta.correlation_id;
  causation_id = col.uuid meta.causation_id;
  requested_at = col.time meta.timestamp;
  result = none;
}

-- The insertion, whose unique violation becomes `errReplayAfterConflict`: the identifier is taken
-- by an earlier command, or by one of `arrived`, which other transactions have committed since this
-- one began.
unfoldable pub reserve : List CommandRow → CommandRow → Tx (Unit {0})
reserve arrived row db = elim (find_row (has_id row.command_id) (db.commands ++ arrived)) [
  | none ↦ ok (tt, record db { commands = db.commands ++ row ∷ [] })
  | some other ↦ err replay_after_conflict
]

abbrev pub complete : CommandResult → CommandRow → CommandRow
complete result row = record row { result = some result }

-- `UPDATE workflow_commands SET result`
unfoldable pub record_result : String → CommandResult → Tx CommandResult
record_result id result db =
    ok (result, record db { commands = update_rows (has_id id) (complete result) db.commands })

abbrev pub as_replay : Result StoreErr CommandResult → Result StoreErr CommandResult
as_replay (ok result) = ok (replayed result)
as_replay (err e) = err e

-- `replayAfterConflict`, on the commands committed by then.
unfoldable pub replay_after : String → String → List CommandRow → Result StoreErr CommandResult
replay_after id digest commands = elim (find_row (has_id id) commands) [
  | none ↦ err no_rows
  | some row ↦ elim (stored_result digest row) [ ok result ↦ ok (replayed result) | err e ↦ err e ]
]

unfoldable pub event_ids : List Event → List String
event_ids = map (λ e. e.id)

unfoldable pub task_ids : List Task → List String
task_ids = map (λ t. t.id)
