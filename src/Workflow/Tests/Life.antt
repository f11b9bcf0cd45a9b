-- ===== src/Workflow/Tests/Life.antt =====
-- A run from its creation to its merge.
use basic.Base.{refl, none, some, List, [], ◌∷◌, Result, ok, err}
use basic.Base.Text.{matches_hex}
use basic.Workflow.Types.{
  Err, RunState, ActorKind, is_terminal_run, validate_artifact, validate_bound_artifact,
}
use basic.Workflow.Plan.Graph.{has, planned_task_ids, planned_task_graph}
use basic.Workflow.Plan.Kahn.{task_graph_acyclic}
use basic.Workflow.Plan.Build.{build_planned_tasks, new_planned_tasks}
use basic.Workflow.Run.Model.{Run, validate_run}
use basic.Workflow.Run.Command.{
  RunCommand, CreateRun, create_run, propose_specification, approve_specification,
  propose_task_graph, approve_task_graph, start_run, record_run_execution, record_run_verification,
  record_run_review, approve_run, record_merge, validate_run_command,
}
use basic.Workflow.Run.Intake.{
  finish_run_transition, validate_specification_review, new_run, approve_planning,
}
use basic.Workflow.Run.Completion.{validate_run_human_review}
use basic.Workflow.Run.Apply.{apply_run_command, validate_applied, apply_run}
use basic.Workflow.Run.Decide.{RunPersistenceDecision, decide_run_command}
use basic.Workflow.Run.History.{Reached, created, decided}
use basic.Workflow.Tests.Samples.{env, artifact, commit, meta}

abbrev pub creation : CreateRun
creation = record { meta = meta ActorKind.workflow_service 0 1000; id = "run" }

abbrev pub drafted : Run
drafted = record {
  id = "run";
  state = RunState.draft;
  revision = 1;
  specification = none;
  task_graph = none;
  execution = none;
  candidate_commit = "";
  verification = none;
  review = none;
  approval = none;
  publication = none;
  merge = none;
  created_at = 1000;
  updated_at = 1000;
}

-- The snapshot and the decision of each command on the way.
abbrev pub proposing : RunCommand
proposing = propose_specification (record {
  meta = meta ActorKind.workflow_service 1 2000;
  id = "run";
  specification = artifact "cas:specification";
})

abbrev pub approving_specification : RunCommand
approving_specification = approve_specification (record {
  meta = meta ActorKind.human 2 3000;
  id = "run";
  specification = artifact "cas:specification";
})

abbrev pub planning : RunCommand
planning = propose_task_graph (record {
  meta = meta ActorKind.workflow_service 3 4000;
  id = "run";
  task_graph = artifact "cas:graph";
})

abbrev pub approving_plan : RunCommand
approving_plan = approve_task_graph (record {
  meta = meta ActorKind.human 4 5000;
  id = "run";
  task_graph = artifact "cas:graph";
  tasks = record { id = "task"; max_attempts = 2 } ∷ [];
  dependencies = [];
})

abbrev pub starting : RunCommand
starting = start_run (record { meta = meta ActorKind.workflow_service 5 6000; id = "run" })

abbrev pub executing : RunCommand
executing = record_run_execution (record {
  meta = meta ActorKind.execution_service 6 7000;
  id = "run";
  execution = artifact "cas:execution";
  candidate_commit = commit;
})

abbrev pub verifying : RunCommand
verifying = record_run_verification (record {
  meta = meta ActorKind.verification_service 7 8000;
  id = "run";
  candidate_commit = commit;
  evidence = artifact "cas:evidence";
})

abbrev pub reviewing : RunCommand
reviewing = record_run_review (record {
  meta = meta ActorKind.review_service 8 9000;
  id = "run";
  candidate_commit = commit;
  review = artifact "cas:review";
})

abbrev pub approving : RunCommand
approving = approve_run (record {
  meta = meta ActorKind.human 9 10000;
  id = "run";
  candidate_commit = commit;
  review = artifact "cas:review";
  approval = artifact "cas:approval";
})

abbrev pub merging : RunCommand
merging = record_merge (record {
  meta = meta ActorKind.merge_service 10 11000;
  id = "run";
  candidate_commit = commit;
  approval = artifact "cas:approval";
  merge = artifact "cas:merge";
})

abbrev pub proposed : Run
proposed = record drafted {
  state = RunState.specification_review;
  revision = 2;
  specification = some (artifact "cas:specification");
  updated_at = 2000;
}

abbrev pub specified : Run
specified = record proposed { state = RunState.task_planning; revision = 3; updated_at = 3000 }

abbrev pub graphed : Run
graphed = record specified {
  state = RunState.task_plan_review;
  revision = 4;
  task_graph = some (artifact "cas:graph");
  updated_at = 4000;
}

abbrev pub planned : Run
planned = record graphed { state = RunState.ready; revision = 5; updated_at = 5000 }

abbrev pub started : Run
started = record planned { state = RunState.executing; revision = 6; updated_at = 6000 }

abbrev pub executed : Run
executed = record started {
  state = RunState.verifying;
  revision = 7;
  execution = some (artifact "cas:execution");
  candidate_commit = commit;
  updated_at = 7000;
}

abbrev pub verified : Run
verified = record executed {
  state = RunState.reviewing;
  revision = 8;
  verification = some (artifact "cas:evidence");
  updated_at = 8000;
}

abbrev pub reviewed : Run
reviewed = record verified {
  state = RunState.awaiting_approval;
  revision = 9;
  review = some (artifact "cas:review");
  updated_at = 9000;
}

abbrev pub approved : Run
approved = record reviewed {
  state = RunState.merge_ready;
  revision = 10;
  approval = some (artifact "cas:approval");
  updated_at = 10000;
}

abbrev pub merged : Run
merged = record approved {
  state = RunState.merged;
  revision = 11;
  merge = some (artifact "cas:merge");
  updated_at = 11000;
}

-- The decision that leads from one snapshot to the next.
abbrev pub decision : Result Err RunPersistenceDecision → RunPersistenceDecision
decision (ok d) = d
decision (err e) = record {
  current = drafted;
  next = drafted;
  tasks = [];
  dependencies = [];
  events = [];
}

-- The commands of the whole life, the last first.
abbrev pub life : List RunCommand
life =
    merging
    ∷ approving
    ∷ reviewing
    ∷ verifying
    ∷ executing
    ∷ starting
    ∷ approving_plan
    ∷ planning
    ∷ approving_specification
    ∷ proposing
    ∷ create_run creation
    ∷ []

pub life-Reached : Reached env life merged
unfolding decide_run_command apply_run validate_applied validate_run validate_run_command
    is_terminal_run apply_run_command finish_run_transition validate_specification_review
    validate_run_human_review validate_artifact validate_bound_artifact matches_hex new_run
    approve_planning new_planned_tasks planned_task_ids planned_task_graph has task_graph_acyclic
    build_planned_tasks
life-Reached =
    decided {d = decision (decide_run_command env approved merging)}
      (decided {d = decision (decide_run_command env reviewed approving)}
        (decided {d = decision (decide_run_command env verified reviewing)}
          (decided {d = decision (decide_run_command env executed verifying)}
            (decided {d = decision (decide_run_command env started executing)}
              (decided {d = decision (decide_run_command env planned starting)}
                (decided {d = decision (decide_run_command env graphed approving_plan)}
                  (decided {d = decision (decide_run_command env specified planning)}
                    (decided
                      {d = decision (decide_run_command env proposed approving_specification)}
                      (decided {d = decision (decide_run_command env drafted proposing)}
                        (created {c = creation} refl) refl refl)
                      refl refl)
                    refl refl)
                  refl refl)
                refl refl)
              refl refl)
            refl refl)
          refl refl)
        refl refl)
      refl refl
