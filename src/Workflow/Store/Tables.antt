-- ===== src/Workflow/Store/Tables.antt =====
-- The tables of the command store and the transactions on them, for go/internal/workflow/store.go
-- and the schema in go/internal/workflow/migrations. Transactions are serializable, so each runs
-- alone; one that ends with an error is rolled back.
use basic.Base.{
  ℕ, String, Bool, true, false, Option, none, some, List, [], Result, ok, err, ◌>>=◌ as bind,
}
use basic.Workflow.Types.{Err, Actor, Event}
use basic.Workflow.Task.Command.{TaskCommand}
use basic.Workflow.Run.Command.{RunCommand}
use basic.Workflow.Store.Rows.{TaskRow, RunRow, Columns}
pub use basic.Workflow.Store.Rows.{
  StoreErr, sentinel, replay_after_conflict, violation, no_rows, unmarshalable, undecodable,
  injected,
}

pub record CommandResult : Type 0 where
  pub aggregate_id : String
  pub state : String
  pub revision : ℕ
  pub event_ids : List String
  pub task_ids : List String
  pub replay : Bool

-- `workflow_commands`. The time of completion, which nothing reads, is left out.
pub record CommandRow : Type 0 where
  pub command_id : String
  pub aggregate_type : String
  pub aggregate_id : String
  pub request_digest : String
  pub actor : Actor
  pub expected_revision : ℕ
  pub correlation_id : String
  pub causation_id : String
  pub requested_at : ℕ
  pub result : Option CommandResult

-- `workflow_events`, without its sequence number: the rows stand in order.
pub record EventRow : Type 0 where
  pub command_id : String
  pub event : Event

-- `workflow_task_dependencies`
pub record DependencyRow : Type 0 where
  pub run_id : String
  pub task_id : String
  pub depends_on_task_id : String

pub record Tables : Type 0 where
  pub runs : List RunRow
  pub tasks : List TaskRow
  pub dependencies : List DependencyRow
  pub commands : List CommandRow
  pub events : List EventRow

abbrev pub empty_tables : Tables
empty_tables = record { runs = []; tasks = []; dependencies = []; commands = []; events = [] }

pub data FaultPoint : Type 0 where
  before_events before_snapshot before_commit : FaultPoint

-- The columns of a locked task that `makeDependentsReady` and `cancelRunTasks` scan.
pub record LockedTask : Type 0 where
  pub id : String
  pub revision : ℕ

-- What the store takes from outside: what its columns keep of a value, the order of the rows
-- of a query that names none, the typed request that is hashed (the type's name and the JSON of a
-- command, if it can be encoded), and the hash.
pub record Backend : Type 0 where
  pub columns : Columns
  pub row_order : List LockedTask → List LockedTask
  pub run_request : RunCommand → Option String
  pub task_request : TaskCommand → Option String
  pub sha256_hex : String → String

-- The field `inject` of `Store`.
pub record Store : Type 0 where
  pub inject : Option (FaultPoint → Option String)

abbrev pub Tx : Type 0 → Type 0
Tx A = Tables → Result StoreErr (A × Tables)

module _ {A : Type 0} where
  infixl 5 ◌>>=◌ ◌>>◌
  abbrev pub ◌>>=◌ : {B : Type 0} → Tx A → (A → Tx B) → Tx B
  ◌>>=◌ m f db = bind (m db) (λ p. f p.0 p.1)

  abbrev pub ◌>>◌ : Tx (Unit {0}) → Tx A → Tx A
  ◌>>◌ m k db = bind (m db) (λ p. k p.1)

  abbrev pub pure : A → Tx A
  pure a db = ok (a, db)

  abbrev pub gets : (Tables → A) → Tx A
  gets f db = ok (f db, db)

  abbrev pub throw : StoreErr → Tx A
  throw e db = err e

  abbrev pub lift_store : Result StoreErr A → Tx A
  lift_store (ok a) db = ok (a, db)
  lift_store (err e) db = err e

  -- A result of the domain's functions inside a transaction.
  abbrev pub lift : Result Err A → Tx A
  lift (ok a) db = ok (a, db)
  lift (err e) db = err (sentinel e)

abbrev pub modify : (Tables → Tables) → Tx (Unit {0})
modify f db = ok (tt, f db)

abbrev pub raise_if : Bool → StoreErr → Tx (Unit {0})
raise_if true e db = err e
raise_if false e db = ok (tt, db)

-- `Store.fault`
unfoldable pub fault : Store → FaultPoint → Tx (Unit {0})
fault s point = elim s.inject [
  | none ↦ pure tt
  | some inject ↦ elim (inject point) [ none ↦ pure tt | some e ↦ throw (injected e) ]
]
