-- ===== src/Projects/Execution/Guards.antt =====
-- A project that is archived or held is read-only for its execution.
use grad_sync.Prelude.{
  unnegated, clash, ◌≡◌, refl, ap, sym, subst, ◌∙◌, true, false, Option, none, some, find, some_eq,
}
use grad_sync.Projects.Model.{ResearchProject}
use grad_sync.Projects.Execution.Model.{Milestone, Deliverable, DeliverableRevision}
use grad_sync.Projects.Execution.{Database, Environment, Step, is_writable}
use grad_sync.Projects.Execution.Milestones.{
  create_milestone, update_milestone, reorder_milestones, archive_milestone,
}
use grad_sync.Projects.Execution.Deliverables.{create_deliverable, archive_deliverable}
use grad_sync.Projects.Execution.Updates.{update_deliverable}
use grad_sync.Projects.Execution.Revisions.{submit_deliverable}
use grad_sync.Projects.Execution.Reviews.{decide_deliverable}
use grad_sync.Projects.Execution.Runs.{require_capability_ok}
use grad_sync.Projects.Execution.Calls.{Call, after}
use grad_sync.Transactions.{ok, atomic}
use grad_sync.Transactions.Runs.{check_ok, raise_if_ok, atomic_ok, or_raise_ok, atomic-keeps}

abbrev pub project_of_milestone : Database → Option Milestone → Option ResearchProject
project_of_milestone db none = none
project_of_milestone db (some m) = find (λ r. r.id) m.project db.projects

abbrev pub project_of_deliverable : Database → Option Deliverable → Option ResearchProject
project_of_deliverable db none = none
project_of_deliverable db (some d) = find (λ r. r.id) d.project db.projects

abbrev pub project_of_revision : Database → Option DeliverableRevision → Option ResearchProject
project_of_revision db none = none
project_of_revision db (some r) = find (λ x. x.id) r.project db.projects

-- The project that a call changes. Recommendations, and the derivation of a status, ask for none.
abbrev pub guarded_project : Call → Database → Option ResearchProject
guarded_project (Call.creates_milestone u p new) db = some p
guarded_project (Call.updates_milestone u pk v change) db =
    project_of_milestone db (find (λ r. r.id) pk db.milestones)
guarded_project (Call.reorders u p ids) db = some p
guarded_project (Call.archives_milestone u pk v) db =
    project_of_milestone db (find (λ r. r.id) pk db.milestones)
guarded_project (Call.reconciles pk) db = none
guarded_project (Call.creates u pk new) db =
    project_of_milestone db (find (λ r. r.id) pk db.milestones)
guarded_project (Call.updates u pk v planning progress) db =
    project_of_deliverable db (find (λ r. r.id) pk db.deliverables)
guarded_project (Call.archives u pk v) db =
    project_of_deliverable db (find (λ r. r.id) pk db.deliverables)
guarded_project (Call.submits u pk new) db =
    project_of_deliverable db (find (λ r. r.id) pk db.deliverables)
guarded_project (Call.recommends u pk choice rationale) db = none
guarded_project (Call.decides u pk choice rationale key) db =
    project_of_revision db (find (λ r. r.id) pk db.revisions)

-- A step that succeeds only in a writable project changes nothing of another.
refused :
    {A : Type 0} (m : Step A) (db : Database) (o : Option ResearchProject) (p : ResearchProject)
    → o ≡ some p
    → is_writable p ≡ false
    → ((a : A) (db' : Database)
        → atomic m db ≡ (ok a, db')
        → (q : ResearchProject) × (o ≡ some q) × (is_writable q ≡ true))
    → (atomic m db).1 ≡ db
refused m db o p at closed writes =
    atomic-keeps (λ d. d ≡ db) m db refl
      (λ a db' h.
        let (q, q_at, open_q) = writes a db' h in
        absurd (
          clash (is_writable p) (subst (λ x. is_writable x ≡ true) (some_eq (sym q_at ∙ at)) open_q)
            closed))

-- A call by anyone, other than a recommendation or the derivation of a status, changes nothing when
-- the project that it changes is archived or on hold.
pub after-read_only :
    (env : Environment) (call : Call) (db : Database) (p : ResearchProject)
    → guarded_project call db ≡ some p
    → is_writable p ≡ false
    → after env call db ≡ db
unfolding after create_milestone update_milestone reorder_milestones archive_milestone
    create_deliverable update_deliverable archive_deliverable submit_deliverable decide_deliverable
after-read_only env (Call.creates_milestone u q new) db p at closed =
    refused _ db (some q) p at closed
      λ a db' h. require_capability_ok _ _ _ _ _ (atomic_ok _ h) λ w c h1. (q, refl, w)
after-read_only env (Call.updates_milestone u pk v change) db p at closed =
    refused _ db _ p at closed λ a db' h. check_ok _ _ _ (atomic_ok _ h) λ m found h1.
      check_ok _ _ _ h1 λ q known h2. require_capability_ok _ _ _ _ _ h2 λ w c h3.
        (q, ap (project_of_milestone db) (or_raise_ok _ _ found) ∙ or_raise_ok _ _ known, w)
after-read_only env (Call.reorders u q ids) db p at closed =
    refused _ db (some q) p at closed
      λ a db' h. require_capability_ok _ _ _ _ _ (atomic_ok _ h) λ w c h1. (q, refl, w)
after-read_only env (Call.archives_milestone u pk v) db p at closed =
    refused _ db _ p at closed λ a db' h. check_ok _ _ _ (atomic_ok _ h) λ m found h1.
      check_ok _ _ _ h1 λ q known h2. require_capability_ok _ _ _ _ _ h2 λ w c h3.
        (q, ap (project_of_milestone db) (or_raise_ok _ _ found) ∙ or_raise_ok _ _ known, w)
after-read_only env (Call.reconciles pk) db p at closed = cc
after-read_only env (Call.creates u pk new) db p at closed = refused _ db _ p at closed λ a db' h.
    check_ok _ _ _ (atomic_ok _ h) λ m found h1. check_ok _ _ _ h1 λ q known h2.
      require_capability_ok _ _ _ _ _ h2 λ w c h3.
        (q, ap (project_of_milestone db) (or_raise_ok _ _ found) ∙ or_raise_ok _ _ known, w)
after-read_only env (Call.updates u pk v planning progress) db p at closed =
    refused _ db _ p at closed λ a db' h. check_ok _ _ _ (atomic_ok _ h) λ d found h1.
      check_ok _ _ _ h1 λ q known h2. raise_if_ok _ _ _ _ h2 λ w h3. (
        q,
        ap (project_of_deliverable db) (or_raise_ok _ _ found) ∙ or_raise_ok _ _ known,
        unnegated (is_writable q) w,
      )
after-read_only env (Call.archives u pk v) db p at closed = refused _ db _ p at closed λ a db' h.
    check_ok _ _ _ (atomic_ok _ h) λ d found h1. check_ok _ _ _ h1 λ m placed h2.
      check_ok _ _ _ h2 λ q known h3. require_capability_ok _ _ _ _ _ h3 λ w c h4.
        (q, ap (project_of_deliverable db) (or_raise_ok _ _ found) ∙ or_raise_ok _ _ known, w)
after-read_only env (Call.submits u pk new) db p at closed = refused _ db _ p at closed λ a db' h.
    check_ok _ _ _ (atomic_ok _ h) λ d found h1. check_ok _ _ _ h1 λ q known h2.
      raise_if_ok _ _ _ _ h2 λ w h3. (
        q,
        ap (project_of_deliverable db) (or_raise_ok _ _ found) ∙ or_raise_ok _ _ known,
        unnegated (is_writable q) w,
      )
after-read_only env (Call.recommends u pk choice rationale) db p at closed = cc
after-read_only env (Call.decides u pk choice rationale key) db p at closed =
    refused _ db _ p at closed λ a db' h. check_ok _ _ _ (atomic_ok _ h) λ r found h1.
      check_ok _ _ _ h1 λ q known h2. require_capability_ok _ _ _ _ _ h2 λ w c h3.
        (q, ap (project_of_revision db) (or_raise_ok _ _ found) ∙ or_raise_ok _ _ known, w)
