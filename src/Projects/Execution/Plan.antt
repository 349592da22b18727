-- ===== src/Projects/Execution/Plan.antt =====
-- The plan of a project as its milestones and deliverables alone, and the ways in which it changes.
use grad_sync.Prelude.{
  ℕ, ◌≤◌, ◌≡◌, Bool, true, not, ◌&&◌, none, some, List, map, find, put, ◌==◌, All, IsIn, any,
  Option, count_where, suc,
}
use grad_sync.Projects.Execution.Model.{
  MilestoneStatus, Milestone, DeliverableStatus, Deliverable, is_null, is_completed,
  is_archived_milestone, is_accepted,
}
use grad_sync.Projects.Execution.{Database, Environment}
use grad_sync.Projects.Execution.Reconcile.{counts, derived_status, reconciled}
use grad_sync.Projects.Execution.Milestones.{archive_row, archived_milestone}

pub record Plan : Type 0 where
  pub milestones : List Milestone
  pub deliverables : List Deliverable

abbrev pub plan_of : Database → Plan
plan_of db = record { milestones = db.milestones; deliverables = db.deliverables }

-- The check constraints of the table of milestones: the times say when the status was reached.
abbrev pub IsStamped : Milestone → Type 0
IsStamped m =
    (is_completed m.current_status ≡ not (is_null m.completed_at))
    × (is_archived_milestone m.current_status ≡ not (is_null m.archived_at))

-- The range of the progress, and an accepted revision with the time of its acceptance.
abbrev pub IsFit : Deliverable → Type 0
IsFit d = (d.progress_percent ≤ 100) × (is_null d.accepted_at ≡ is_null d.accepted_revision)

-- A deliverable that a milestone counts is accepted.
abbrev pub IsSettled : ℕ → Deliverable → Type 0
IsSettled pk d = counts pk d ≡ true → is_accepted d.current_status ≡ true

-- A milestone that is completed has nothing left to accept.
abbrev pub IsEarned : List Deliverable → Milestone → Type 0
IsEarned rows m = is_completed m.current_status ≡ true → All (IsSettled m.id) rows

abbrev pub AreStamped : Plan → Type 0
AreStamped db = All IsStamped db.milestones

abbrev pub AreFit : Plan → Type 0
AreFit db = All IsFit db.deliverables

abbrev pub AreEarned : Plan → Type 0
AreEarned db = All (IsEarned db.deliverables) db.milestones

-- The row with another order and version.
abbrev pub relabelled : ℕ → ℕ → Milestone → Milestone
relabelled order version m = record m { order = order; version = version }

-- The row is one of the table, but for its order and version.
abbrev pub Comes : List Milestone → Milestone → Type 0
Comes rows m' = (m : Milestone) × IsIn m rows × (relabelled m'.order m'.version m ≡ m')

-- Whether the milestone is completed.
abbrev pub has_completed : ℕ → Plan → Bool
has_completed pk db = any (λ m. m.id == pk && is_completed m.current_status) db.milestones

-- No key is lost or stands more often than before.
abbrev pub KeepsKeys : List Milestone → List Milestone → Type 0
KeepsKeys rows rows' =
    (k : ℕ)
    → (count_where (λ m. m.id == k) rows' ≤ count_where (λ m. m.id == k) rows)
      × (1 ≤ count_where (λ m. m.id == k) rows → 1 ≤ count_where (λ m. m.id == k) rows')

-- The same milestone, with another text or date.
abbrev pub IsEditOf : Milestone → Milestone → Type 0
IsEditOf old new = new ≡ record old {
  title = new.title;
  description = new.description;
  target_date = new.target_date;
  version = suc old.version;
}

-- Work on a deliverable keeps its project, its order and its author, and raises its version by one.
abbrev pub IsWorkOf : Deliverable → Deliverable → Type 0
IsWorkOf old new =
    (old.project ≡ new.project)
    × (old.order ≡ new.order)
    × (old.created_by ≡ new.created_by)
    × (new.version ≡ suc old.version)

-- What a call is there to change: a new milestone with a key; the milestone with a key; a new
-- deliverable, by the keys of its milestone and of itself; the deliverable with a key, if there is one;
-- the order of the milestones; or neither table.
pub data Act : Type 0 where
  adds : ℕ → Act
  edits derives closes : ℕ → Act
  creates : ℕ → ℕ → Act
  works : Option ℕ → Act
  reorders reads : Act

-- What one call does to the plan: nothing; or what it is there for. That is a new milestone; a
-- milestone edited, and its status derived again; a status derived again; the same milestones in
-- another order; a milestone archived with its deliverables; a new deliverable; a deliverable
-- replaced, and the status of its milestone derived again. There is a debt when the new deliverable
-- is required and its milestone is completed.
pub data Change (env : Environment) (act : Act) (debt : Bool) (db db' : Plan) : Type 0 where
  unchanged :
      db'.milestones ≡ db.milestones
      → db'.deliverables ≡ db.deliverables
      → Change env act debt db db'
  added :
      (m : Milestone)
      → act ≡ Act.adds m.id
      → m.current_status ≡ MilestoneStatus.planned
      → m.completed_at ≡ none
      → m.archived_at ≡ none
      → db'.milestones ≡ put (λ r. r.id) m db.milestones
      → db'.deliverables ≡ db.deliverables
      → Change env act debt db db'
  edited :
      (old new m : Milestone)
      → act ≡ Act.edits old.id
      → find (λ r. r.id) old.id db.milestones ≡ some old
      → IsEditOf old new
      → find (λ r. r.id) new.id (put (λ r. r.id) new db.milestones) ≡ some m
      → new.id ≡ m.id
      → db'.milestones
        ≡ put
            (λ r. r.id)
            (reconciled env.now (derived_status env.today m db.deliverables) m)
            (put (λ r. r.id) new db.milestones)
      → db'.deliverables ≡ db.deliverables
      → Change env act debt db db'
  derived :
      (k : ℕ) (m : Milestone)
      → act ≡ Act.derives k
      → find (λ r. r.id) k db.milestones ≡ some m
      → db'.milestones
        ≡ put
            (λ r. r.id)
            (reconciled env.now (derived_status env.today m db.deliverables) m)
            db.milestones
      → db'.deliverables ≡ db.deliverables
      → Change env act debt db db'
  reordered :
      act ≡ Act.reorders
      → KeepsKeys db.milestones db'.milestones
      → All (Comes db.milestones) db'.milestones
      → db'.deliverables ≡ db.deliverables
      → Change env act debt db db'
  closed :
      (m : Milestone)
      → act ≡ Act.closes m.id
      → find (λ r. r.id) m.id db.milestones ≡ some m
      → db'.milestones ≡ put (λ r. r.id) (archived_milestone env.now m) db.milestones
      → db'.deliverables ≡ map (archive_row env.now m.id) db.deliverables
      → Change env act debt db db'
  created :
      (d : Deliverable)
      → act ≡ Act.creates d.milestone d.id
      → IsFit d
      → d.current_status ≡ DeliverableStatus.planned
      → debt ≡ (d.required && has_completed d.milestone db)
      → db'.milestones ≡ db.milestones
      → db'.deliverables ≡ put (λ r. r.id) d db.deliverables
      → Change env act debt db db'
  worked :
      (old new : Deliverable) (m : Milestone)
      → act ≡ Act.works (some old.id)
      → find (λ r. r.id) old.id db.deliverables ≡ some old
      → old.id ≡ new.id
      → old.milestone ≡ new.milestone
      → IsWorkOf old new
      → (IsFit old → IsFit new)
      → find (λ r. r.id) new.milestone db.milestones ≡ some m
      → db'.milestones
        ≡ put
            (λ r. r.id)
            (reconciled env.now
              (derived_status env.today m (put (λ r. r.id) new db.deliverables))
              m)
            db.milestones
      → db'.deliverables ≡ put (λ r. r.id) new db.deliverables
      → Change env act debt db db'
