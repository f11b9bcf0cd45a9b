-- ===== src/Workflow/Tests/Samples.antt =====
-- The values that the tests share. An identifier or a URI is any text that is not empty.
use Prim.Native.String.{◌++◌ as concat}
use basic.Base.{ℕ, String, true, not, none, some, List, [], ◌∷◌, str_eq}
use basic.Workflow.Types.{
  Env, TaskState, ActorKind, ArtifactRef, CommandEnvelope, Event, Value, text,
}
use basic.Workflow.Task.Model.{LeaseRef, Task}
use basic.Workflow.Task.Command.{
  TaskCommand, lease_task, start_reasoning, accept_task_proposal, record_task_execution,
  record_task_verification, record_task_review, approve_task, fail_task, envelope,
}

abbrev pub env : Env
env = record {
  parses_uuid = λ s. not (str_eq s "");
  is_absolute_uri = λ s. not (str_eq s "");
  range_order = λ ids. ids;
  sha1_uuid = λ space name. concat space name;
}

abbrev pub digest : String
digest = "a1a1a1a1a1a1a1a1a1a1a1a1a1a1a1a1a1a1a1a1a1a1a1a1a1a1a1a1a1a1a1a1"

abbrev pub commit : String
commit = "0b0b0b0b0b0b0b0b0b0b0b0b0b0b0b0b0b0b0b0b"

abbrev pub artifact : String → ArtifactRef
artifact uri = record { uri = uri; digest = digest }

-- A command's envelope from an actor, at a revision and a time.
abbrev pub meta : ActorKind → ℕ → ℕ → CommandEnvelope
meta kind revision time = record {
  command_id = "command";
  actor = record { id = "actor"; kind = kind };
  expected_revision = revision;
  timestamp = time;
  correlation_id = "correlation";
  causation_id = "causation";
}

abbrev pub first_lease : LeaseRef
first_lease = record { id = "lease"; owner_id = "owner"; expires_at = 9000; fencing_token = 1 }

abbrev pub ready_task : Task
ready_task = record {
  id = "task";
  run_id = "run";
  state = TaskState.ready;
  revision = 1;
  max_attempts = 2;
  current_attempt = 0;
  lease = none;
  proposal = none;
  execution = none;
  candidate_commit = "";
  verification = none;
  review = none;
  approval = none;
  created_at = 1000;
  updated_at = 1000;
}

abbrev pub leasing : TaskCommand
leasing = lease_task (record {
  meta = meta ActorKind.workflow_service 1 2000;
  run = "run";
  id = "task";
  lease = first_lease;
})

abbrev pub reasoning : TaskCommand
reasoning = start_reasoning (record {
  meta = meta ActorKind.reasoning_service 2 3000;
  run = "run";
  id = "task";
  lease = first_lease;
})

abbrev pub accepting : TaskCommand
accepting = accept_task_proposal (record {
  meta = meta ActorKind.execution_service 3 4000;
  run = "run";
  id = "task";
  proposal = artifact "cas:proposal";
  lease = first_lease;
})

abbrev pub executing : TaskCommand
executing = record_task_execution (record {
  meta = meta ActorKind.execution_service 4 5000;
  run = "run";
  id = "task";
  proposal = artifact "cas:proposal";
  execution = artifact "cas:execution";
  candidate_commit = commit;
  lease = first_lease;
})

abbrev pub verifying : TaskCommand
verifying = record_task_verification (record {
  meta = meta ActorKind.verification_service 5 6000;
  run = "run";
  id = "task";
  candidate_commit = commit;
  evidence = artifact "cas:evidence";
  passed = true;
})

abbrev pub reviewing : TaskCommand
reviewing = record_task_review (record {
  meta = meta ActorKind.review_service 6 7000;
  run = "run";
  id = "task";
  candidate_commit = commit;
  review = artifact "cas:review";
  passed = true;
})

abbrev pub approving : TaskCommand
approving = approve_task (record {
  meta = meta ActorKind.human 7 8000;
  run = "run";
  id = "task";
  candidate_commit = commit;
  review = artifact "cas:review";
  approval = artifact "cas:approval";
})

-- One attempt from its lease to its approval.
abbrev pub one_attempt : List TaskCommand
one_attempt = leasing ∷ reasoning ∷ accepting ∷ executing ∷ verifying ∷ reviewing ∷ approving ∷ []

abbrev pub leased_task : Task
leased_task = record ready_task {
  state = TaskState.leased;
  revision = 2;
  current_attempt = 1;
  lease = some first_lease;
  updated_at = 2000;
}

abbrev pub reasoning_task : Task
reasoning_task = record leased_task { state = TaskState.reasoning; revision = 3; updated_at = 3000 }

abbrev pub executing_task : Task
executing_task = record reasoning_task {
  state = TaskState.executing;
  revision = 4;
  proposal = some (artifact "cas:proposal");
  updated_at = 4000;
}

-- The event of a command on the sample task.
abbrev task_event : TaskCommand → ℕ → String → List (String × Value) → Event
task_event c revision type payload = record {
  id = "command";
  aggregate_type = "TASK";
  aggregate_id = "task";
  revision = revision;
  type = type;
  timestamp = (envelope c).timestamp;
  actor = (envelope c).actor;
  correlation_id = "correlation";
  causation_id = "causation";
  payload = payload;
}

abbrev pub leasing_event : Event
leasing_event = task_event leasing 2 "TASK_LEASED" (("lease_id", text "lease") ∷ [])

abbrev pub accepting_event : Event
accepting_event = task_event accepting 4 "TASK_EXECUTION_STARTED" []

-- A ready task whose attempts are used up, as the release of its last lease leaves it.
abbrev pub spent_task : Task
spent_task = record ready_task { revision = 5; current_attempt = 2 }

abbrev pub failing : TaskCommand
failing = fail_task (record {
  meta = meta ActorKind.workflow_service 5 9000;
  run = "run";
  id = "task";
  evidence = artifact "cas:evidence";
  reason = "no attempt left";
})

abbrev pub failed_task : Task
failed_task = record spent_task { state = TaskState.failed; revision = 6; updated_at = 9000 }

abbrev pub failing_event : Event
failing_event = task_event failing 6 "TASK_FAILED" []
