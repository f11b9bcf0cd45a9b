-- ===== src/Workflow/Task/Effect.antt =====
-- What every accepted command does to the snapshot and to the log: the revision, the identity and
-- the one event.
use basic.Base.{◌≡◌, refl, ap, List, [], ◌∷◌, ok, arith, ◌+◌}
use basic.Workflow.Types.{Env, Event, u64}
use basic.Workflow.Task.Model.{Task}
use basic.Workflow.Task.Command.{TaskCommand, envelope, lease_task}
use basic.Workflow.Task.Checks.{TaskTransition, finish_task_transition}
use basic.Workflow.Task.Apply.{apply_command, apply}
use basic.Workflow.Task.Inversion.{apply_cases}

-- What no transition touches.
record SameIdentity (t u : Task) : Type 0 where
  id : u.id ≡ t.id
  run_id : u.run_id ≡ t.run_id
  revision : u.revision ≡ t.revision
  max_attempts : u.max_attempts ≡ t.max_attempts
  created_at : u.created_at ≡ t.created_at

-- The event that goes with the snapshot `t'`.
pub record Recorded (c : TaskCommand) (t' : Task) (e : Event) : Type 0 where
  pub event_id : e.id ≡ (envelope c).command_id
  pub aggregate_type : e.aggregate_type ≡ "TASK"
  pub aggregate_id : e.aggregate_id ≡ t'.id
  pub event_revision : e.revision ≡ t'.revision
  pub event_timestamp : e.timestamp ≡ (envelope c).timestamp
  pub event_actor : e.actor ≡ (envelope c).actor

pub record Effect (t : Task) (c : TaskCommand) (t' : Task) (es : List Event) : Type 0 where
  pub id : t'.id ≡ t.id
  pub run_id : t'.run_id ≡ t.run_id
  pub max_attempts : t'.max_attempts ≡ t.max_attempts
  pub created_at : t'.created_at ≡ t.created_at
  pub updated_at : t'.updated_at ≡ (envelope c).timestamp
  pub expected : (envelope c).expected_revision ≡ t.revision
  pub revision : t'.revision ≡ u64 (t.revision + 1)
  pub event : (e : Event) × (es ≡ e ∷ []) × Recorded c t' e

module _ (env : Env) where
  apply_command-SameIdentity :
      (t : Task) (c : TaskCommand) {tr : TaskTransition}
      → apply_command env t c ≡ ok tr
      → SameIdentity t tr.next
  unfolding apply_command
  apply_command-SameIdentity t (lease_task c) h = ground arith
  apply_command-SameIdentity t c h = ground arith

  -- An accepted command advances the revision by one (mod 2^64) from the one it expects, keeps the
  -- identity, the attempt limit and the creation time, and yields exactly one event, which has the
  -- command's identifier, actor and time and the new snapshot's identifier and revision.
  pub apply-Effect :
      (t : Task) (c : TaskCommand) {t' : Task} {es : List Event}
      → apply env t c ≡ ok (t', es)
      → Effect t c t' es
  unfolding finish_task_transition
  apply-Effect t c h =
      apply_cases env t c (λ p. Effect t c p.0 p.1) h
        λ tr a e.
          let s = apply_command-SameIdentity t c e in
          record {
            id = s.id;
            run_id = s.run_id;
            max_attempts = s.max_attempts;
            created_at = s.created_at;
            updated_at = refl;
            expected = a.current;
            revision = ap (λ n. u64 (n + 1)) s.revision;
            event = (
              _,
              refl,
              record {
                event_id = refl;
                aggregate_type = refl;
                aggregate_id = refl;
                event_revision = refl;
                event_timestamp = refl;
                event_actor = refl;
              },
            );
          }
