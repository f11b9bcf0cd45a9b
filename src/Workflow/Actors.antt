-- ===== src/Workflow/Actors.antt =====
-- The tests of an actor's kind, `command.Meta.Actor.Kind != ActorHuman` and so on, and
-- `trustedOperationalActor` of go/internal/workflow/task.go.
use basic.Base.{Bool, true, false}
use basic.Workflow.Types.{ActorKind}

abbrev pub is_human : ActorKind → Bool
is_human ActorKind.human = true
is_human _ = false

abbrev pub is_workflow_service : ActorKind → Bool
is_workflow_service ActorKind.workflow_service = true
is_workflow_service _ = false

abbrev pub is_reasoning_service : ActorKind → Bool
is_reasoning_service ActorKind.reasoning_service = true
is_reasoning_service _ = false

abbrev pub is_execution_service : ActorKind → Bool
is_execution_service ActorKind.execution_service = true
is_execution_service _ = false

abbrev pub is_verification_service : ActorKind → Bool
is_verification_service ActorKind.verification_service = true
is_verification_service _ = false

abbrev pub is_review_service : ActorKind → Bool
is_review_service ActorKind.review_service = true
is_review_service _ = false

abbrev pub trusted_operational_actor : ActorKind → Bool
trusted_operational_actor ActorKind.workflow_service = true
trusted_operational_actor ActorKind.reasoning_service = true
trusted_operational_actor ActorKind.execution_service = true
trusted_operational_actor ActorKind.verification_service = true
trusted_operational_actor ActorKind.review_service = true
trusted_operational_actor _ = false

abbrev pub is_publication_service : ActorKind → Bool
is_publication_service ActorKind.publication_service = true
is_publication_service _ = false

abbrev pub is_merge_service : ActorKind → Bool
is_merge_service ActorKind.merge_service = true
is_merge_service _ = false
