-- ===== src/Projects/Execution/Calls.antt =====
-- Sequences of calls of the execution services, by any users, whether they succeed or raise.
use grad_sync.Prelude.{ℕ, ◌≡◌, subst, Bool, false, Option, some, List, [], ◌∷◌, Text}
use grad_sync.Accounts.{User}
use grad_sync.Projects.Model.{ResearchProject}
use grad_sync.Projects.Execution.Model.{Recommendation, FinalDecision}
use grad_sync.Projects.Execution.{Database, Environment}
use grad_sync.Projects.Execution.Reconcile.{reconcile_milestone}
use grad_sync.Projects.Execution.Milestones.{
  NewMilestone, MilestoneChange, create_milestone, update_milestone, reorder_milestones,
  archive_milestone,
}
use grad_sync.Projects.Execution.Deliverables.{
  NewDeliverable, create_deliverable, archive_deliverable,
}
use grad_sync.Projects.Execution.Updates.{Planning, Progress, update_deliverable}
use grad_sync.Projects.Execution.Revisions.{NewRevision, submit_deliverable}
use grad_sync.Projects.Execution.Reviews.{recommend_deliverable, decide_deliverable}
use grad_sync.Projects.Execution.Plan.{plan_of, Change, Act, AreStamped, AreFit, AreEarned}
use grad_sync.Projects.Execution.PlanChanges.{Change-AreStamped, Change-AreFit, Change-AreEarned}
use grad_sync.Projects.Execution.Changes.{
  create_milestone-Change, update_milestone-Change, reorder_milestones-Change,
  archive_milestone-Change, reconcile_milestone-Change,
}
use grad_sync.Projects.Execution.WorkChanges.{
  debt_of, create_deliverable-Change, update_deliverable-Change, archive_deliverable-Change,
}
use grad_sync.Projects.Execution.ReviewChanges.{
  judged, recommend_deliverable-Change, decide_deliverable-Change,
}
use grad_sync.Projects.Execution.SubmissionChanges.{submit_deliverable-Change}

-- One call, with its arguments.
pub data Call : Type 0 where
  creates_milestone : User → ResearchProject → NewMilestone → Call
  updates_milestone : User → ℕ → ℕ → MilestoneChange → Call
  reorders : User → ResearchProject → List ℕ → Call
  archives_milestone : User → ℕ → ℕ → Call
  reconciles : ℕ → Call
  creates : User → ℕ → NewDeliverable → Call
  updates : User → ℕ → ℕ → Option Planning → Progress → Call
  archives : User → ℕ → ℕ → Call
  submits : User → ℕ → NewRevision → Call
  recommends : User → ℕ → Option Recommendation → Text → Call
  decides : User → ℕ → Option FinalDecision → Text → Text → Call

-- The database after a call, at the time of the environment.
unfoldable pub after : Environment → Call → Database → Database
after env (Call.creates_milestone u p new) db = (create_milestone env u p new db).1
after env (Call.updates_milestone u pk v change) db = (update_milestone env u pk v change db).1
after env (Call.reorders u p ids) db = (reorder_milestones u p ids db).1
after env (Call.archives_milestone u pk v) db = (archive_milestone env u pk v db).1
after env (Call.reconciles pk) db = (reconcile_milestone env pk db).1
after env (Call.creates u pk new) db = (create_deliverable env u pk new db).1
after env (Call.updates u pk v planning progress) db =
    (update_deliverable env u pk v planning progress db).1
after env (Call.archives u pk v) db = (archive_deliverable env u pk v db).1
after env (Call.submits u pk new) db = (submit_deliverable env u pk new db).1
after env (Call.recommends u pk choice rationale) db =
    (recommend_deliverable env u pk choice rationale db).1
after env (Call.decides u pk choice rationale key) db =
    (decide_deliverable env u pk choice rationale key db).1

unfoldable pub after_all : List (Environment × Call) → Database → Database
after_all [] db = db
after_all ((env, call) ∷ calls) db = after_all calls (after env call db)

-- The call creates a required deliverable in a milestone that is completed.
abbrev pub has_debt : Call → Database → Bool
has_debt (Call.creates u pk new) db = debt_of pk new db
has_debt _ db = false

-- What the call is there to change: a decision, the deliverable of the revision that it names.
abbrev pub act_of : Call → Database → Act
act_of (Call.creates_milestone u p new) db = Act.adds db.next_id
act_of (Call.updates_milestone u pk v change) db = Act.edits pk
act_of (Call.reorders u p ids) db = Act.reorders
act_of (Call.archives_milestone u pk v) db = Act.closes pk
act_of (Call.reconciles pk) db = Act.derives pk
act_of (Call.creates u pk new) db = Act.creates pk db.next_id
act_of (Call.updates u pk v planning progress) db = Act.works (some pk)
act_of (Call.archives u pk v) db = Act.works (some pk)
act_of (Call.submits u pk new) db = Act.works (some pk)
act_of (Call.recommends u pk choice rationale) db = Act.reads
act_of (Call.decides u pk choice rationale key) db = Act.works (judged pk db)

-- Every call refines a step of the abstract plan: whatever its arguments, and whether it succeeds
-- or raises, it leaves the milestones and deliverables as they are, or makes the one change of
-- `Change` that `act_of` gives for the call, of the milestone or deliverable that the call names. A
-- new row has the next key of the database; a reordering neither loses a milestone nor doubles one,
-- and changes orders and versions alone; what is edited, archived or replaced is a stored row, and
-- an edit of a milestone changes its texts, date and version alone; work on a deliverable keeps its
-- project, milestone, order and author and raises its version by one; and the status of a milestone
-- that is edited, or whose deliverable is replaced, is derived again.
pub after-Change :
    (env : Environment) (call : Call) (db : Database)
    → Change env (act_of call db) (has_debt call db) (plan_of db) (plan_of (after env call db))
unfolding after
after-Change env (Call.creates_milestone u p new) db = create_milestone-Change env false u p new db
after-Change env (Call.updates_milestone u pk v change) db =
    update_milestone-Change env false u pk v change db
after-Change env (Call.reorders u p ids) db = reorder_milestones-Change env false u p ids db
after-Change env (Call.archives_milestone u pk v) db = archive_milestone-Change env false u pk v db
after-Change env (Call.reconciles pk) db = reconcile_milestone-Change env false pk db
after-Change env (Call.creates u pk new) db = create_deliverable-Change env u pk new db
after-Change env (Call.updates u pk v planning progress) db =
    update_deliverable-Change env false u pk v planning progress db
after-Change env (Call.archives u pk v) db = archive_deliverable-Change env false u pk v db
after-Change env (Call.submits u pk new) db = submit_deliverable-Change env false u pk new db
after-Change env (Call.recommends u pk choice rationale) db =
    recommend_deliverable-Change env false u pk choice rationale db
after-Change env (Call.decides u pk choice rationale key) db =
    decide_deliverable-Change env false u pk choice rationale key db

-- Every sequence of calls keeps the check constraints of both tables: a milestone has a time of
-- completion exactly when it is completed and a time of archiving exactly when it is archived, the
-- progress of a deliverable is at most 100, and it has an accepted revision exactly when it has a time
-- of acceptance.
pub after_all-AreStamped :
    (calls : List (Environment × Call)) (db : Database)
    → AreStamped (plan_of db)
    → AreFit (plan_of db)
    → AreStamped (plan_of (after_all calls db)) × AreFit (plan_of (after_all calls db))
unfolding after_all
after_all-AreStamped [] db stamped fit = (stamped, fit)
after_all-AreStamped ((env, call) ∷ calls) db stamped fit =
    let change = after-Change env call db in
    after_all-AreStamped calls (after env call db) (Change-AreStamped change stamped)
      (Change-AreFit change fit)

-- When every required deliverable of every completed milestone is accepted, archived ones left out,
-- it is so after any call too, with one exception: the creation of a required deliverable in a
-- milestone that is completed.
pub after-AreEarned :
    (env : Environment) (call : Call) (db : Database)
    → has_debt call db ≡ false
    → AreEarned (plan_of db)
    → AreEarned (plan_of (after env call db))
after-AreEarned env call db free earned =
    Change-AreEarned
      (subst (λ b. Change env (act_of call db) b (plan_of db) (plan_of (after env call db))) free
        (after-Change env call db))
      earned
