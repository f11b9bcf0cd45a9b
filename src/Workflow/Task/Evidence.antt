-- ===== src/Workflow/Task/Evidence.antt =====
-- Which references a task holds in which state: the evidence that a state rests on, and that a
-- fresh attempt starts with none.
use basic.Base.{◌≡◌, Bool, true, false, Option, none, some, List, ok, arith, ℕ, ◌≤◌, ◌<◌}
use basic.Base.Text.{matches_hex}
use basic.Workflow.Types.{Env, Event, TaskState, is_terminal_task}
use basic.Workflow.Task.Model.{Task, LeaseRef}
use basic.Workflow.Task.States.{is_accepted}
use basic.Workflow.Task.Command.{TaskCommand, lease_task}
use basic.Workflow.Task.Checks.{TaskTransition, finish_task_transition, validate_human_review}
use basic.Workflow.Task.Apply.{apply_command, apply}
use basic.Workflow.Task.Inversion.{apply_cases}

abbrev pub is_some : {A : Type 0} → Option A → Bool
is_some none = false
is_some (some a) = true

-- Before the first transition of an attempt.
abbrev pub is_idle : TaskState → Bool
is_idle TaskState.pending = true
is_idle TaskState.ready = true
is_idle _ = false

-- Before the attempt has a proposal.
abbrev pub is_fresh : TaskState → Bool
is_fresh TaskState.leased = true
is_fresh TaskState.reasoning = true
is_fresh s = is_idle s

-- An attempt holds a lease, from `LEASED` up to its verdict.
abbrev pub holds_lease : TaskState → Bool
holds_lease TaskState.leased = true
holds_lease TaskState.reasoning = true
holds_lease TaskState.proposal_rejected = true
holds_lease TaskState.executing = true
holds_lease TaskState.verifying = true
holds_lease TaskState.reviewing = true
holds_lease TaskState.rework_required = true
holds_lease TaskState.awaiting_approval = true
holds_lease TaskState.accepted = true
holds_lease _ = false

abbrev pub needs_proposal : TaskState → Bool
needs_proposal TaskState.proposal_rejected = true
needs_proposal TaskState.executing = true
needs_proposal TaskState.verifying = true
needs_proposal TaskState.reviewing = true
needs_proposal TaskState.rework_required = true
needs_proposal TaskState.awaiting_approval = true
needs_proposal TaskState.accepted = true
needs_proposal _ = false

-- A candidate exists: an execution report with a well-formed commit.
abbrev pub needs_candidate : TaskState → Bool
needs_candidate TaskState.verifying = true
needs_candidate TaskState.reviewing = true
needs_candidate TaskState.rework_required = true
needs_candidate TaskState.awaiting_approval = true
needs_candidate TaskState.accepted = true
needs_candidate _ = false

abbrev pub needs_verification : TaskState → Bool
needs_verification TaskState.reviewing = true
needs_verification TaskState.rework_required = true
needs_verification TaskState.awaiting_approval = true
needs_verification TaskState.accepted = true
needs_verification _ = false

abbrev pub needs_review : TaskState → Bool
needs_review TaskState.awaiting_approval = true
needs_review TaskState.accepted = true
needs_review _ = false

-- The token of a lease that is there.
abbrev pub fence : Option LeaseRef → ℕ → ℕ
fence none n = n
fence (some l) n = l.fencing_token

pub record HasEvidence (t : Task) : Type 0 where
  pub attempts : t.current_attempt ≤ t.max_attempts
  pub limit : t.max_attempts < 4294967296
  pub idle_unleased : is_idle t.state ≡ true → t.lease ≡ none
  pub fresh_empty :
      is_fresh t.state ≡ true
      → (t.proposal ≡ none)
        × (t.execution ≡ none)
        × (t.candidate_commit ≡ "")
        × (t.verification ≡ none)
        × (t.review ≡ none)
  pub leased : holds_lease t.state ≡ true → is_some t.lease ≡ true
  pub fenced : fence t.lease t.current_attempt ≡ t.current_attempt
  pub proposed : needs_proposal t.state ≡ true → is_some t.proposal ≡ true
  pub candidate :
      needs_candidate t.state ≡ true
      → (is_some t.execution ≡ true) × (matches_hex 40 t.candidate_commit ≡ true)
  pub verified : needs_verification t.state ≡ true → is_some t.verification ≡ true
  pub reviewed : needs_review t.state ≡ true → is_some t.review ≡ true
  pub approved : is_some t.approval ≡ is_accepted t.state

module _ (env : Env) where
  apply_command-HasEvidence :
      (t : Task) (c : TaskCommand) {tr : TaskTransition}
      → HasEvidence t
      → is_terminal_task t.state ≡ false
      → apply_command env t c ≡ ok tr
      → HasEvidence tr.next
  unfolding apply_command validate_human_review is_terminal_task
  apply_command-HasEvidence t (lease_task c) v l h = ground arith
  apply_command-HasEvidence t c v l h = ground arith

  -- Every accepted command keeps the evidence invariant: each state has the references that it
  -- rests on, an idle task has none, and a lease in force has the current attempt as its token.
  pub apply-HasEvidence :
      (t : Task) (c : TaskCommand) {t' : Task} {es : List Event}
      → HasEvidence t
      → apply env t c ≡ ok (t', es)
      → HasEvidence t'
  unfolding finish_task_transition
  apply-HasEvidence t c v h =
      apply_cases env t c (λ p. HasEvidence p.0) h
        λ tr a e. let n = apply_command-HasEvidence t c v a.live e in ground arith
