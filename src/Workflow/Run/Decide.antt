-- ===== src/Workflow/Run/Decide.antt =====
-- What the store decides for a run command: `decideRunCommand` of go/internal/workflow/store.go.
use basic.Base.{List, [], Result, ok, ◌>>=◌}
use basic.Workflow.Types.{Err, Env, Event}
use basic.Workflow.Task.Model.{Task}
use basic.Workflow.Plan.Graph.{TaskDependency}
use basic.Workflow.Run.Model.{Run}
use basic.Workflow.Run.Command.{RunCommand, create_run, approve_task_graph}
use basic.Workflow.Run.Intake.{new_run, approve_planning}
use basic.Workflow.Run.Apply.{apply_run}

pub record RunPersistenceDecision : Type 0 where
  pub current : Run
  pub next : Run
  pub tasks : List Task
  pub dependencies : List TaskDependency
  pub events : List Event

unfoldable pub decide_run_command : Env → Run → RunCommand → Result Err RunPersistenceDecision
decide_run_command env current (create_run c) = do
  made ← new_run env c
  ok (record { current = current; next = made.0; tasks = []; dependencies = []; events = made.1 })
decide_run_command env current (approve_task_graph c) = do
  decision ← approve_planning env current c
  ok (record {
    current = current;
    next = decision.run;
    tasks = decision.tasks;
    dependencies = decision.dependencies;
    events = decision.events;
  })
decide_run_command env current c = do
  applied ← apply_run env current c
  ok (record {
    current = current;
    next = applied.0;
    tasks = [];
    dependencies = [];
    events = applied.1;
  })
