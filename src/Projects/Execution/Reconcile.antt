-- ===== src/Projects/Execution/Reconcile.antt =====
-- `reconcile_milestone`: the status of a milestone, from its deliverables and the date.
use grad_sync.Prelude.{
  ℕ, suc, Bool, true, not, ◌&&◌, Option, none, some, List, [], ◌∷◌, any, select, ltb, ◌==◌,
  if◌then◌else◌,
}
use grad_sync.Projects.Execution.Model.{
  MilestoneStatus, Milestone, Deliverable, is_null, is_completed, is_accepted, is_blocked,
  is_under_way,
}
use grad_sync.Projects.Execution.{Environment, Step, get_milestone, store_milestone, is_empty}
use grad_sync.Transactions.{ok, pure, check, atomic, ◌>>=◌, ◌>>◌, modify}

-- `all(p(x) for x in xs)`
abbrev pub all {ℓ} : {A : Type ℓ} → (A → Bool) → List A → Bool
all p [] = true
all p (x ∷ xs) = p x && all p xs

-- The required deliverables of a milestone that are not archived.
abbrev pub counts : ℕ → Deliverable → Bool
counts pk d = d.milestone == pk && d.required && is_null d.archived_at

abbrev pub required_of : ℕ → List Deliverable → List Deliverable
required_of pk rows = select (counts pk) rows

-- The status, once the milestone is not archived.
unfoldable pub open_status : ℕ → ℕ → List Deliverable → MilestoneStatus
open_status today target_date required =
    if not (is_empty required) && all (λ d. is_accepted d.current_status) required
    then MilestoneStatus.completed
    else if any (λ d. is_blocked d.current_status) required
    then MilestoneStatus.blocked
    else if ltb target_date today
    then MilestoneStatus.overdue
    else if any (λ d. is_under_way d.current_status) required
    then MilestoneStatus.in_progress
    else MilestoneStatus.planned

unfoldable pub derived_status : ℕ → Milestone → List Deliverable → MilestoneStatus
derived_status today m rows =
    if is_null m.archived_at
    then open_status today m.target_date (required_of m.id rows)
    else MilestoneStatus.archived

abbrev pub status_number : MilestoneStatus → ℕ
status_number MilestoneStatus.planned = 0
status_number MilestoneStatus.in_progress = 1
status_number MilestoneStatus.at_risk = 2
status_number MilestoneStatus.blocked = 3
status_number MilestoneStatus.overdue = 4
status_number MilestoneStatus.completed = 5
status_number MilestoneStatus.archived = 6

-- `milestone.completed_at or timezone.now()`
abbrev pub first_time : Option ℕ → ℕ → Option ℕ
first_time none now = some now
first_time (some t) now = some t

-- The row that is saved, for the status that was found.
unfoldable pub reconciled : ℕ → MilestoneStatus → Milestone → Milestone
reconciled now status m = record m {
  current_status = status;
  completed_at = if is_completed status then first_time m.completed_at now else none;
  version =
      if status_number m.current_status == status_number status then m.version else suc m.version;
}

unfoldable pub reconcile_milestone : Environment → ℕ → Step Milestone
unfolding derived_status
reconcile_milestone env pk = atomic do
  m ← get_milestone pk
  status ← check λ db. ok (derived_status env.today m db.deliverables)
  modify (store_milestone (reconciled env.now status m))
  pure (reconciled env.now status m)
