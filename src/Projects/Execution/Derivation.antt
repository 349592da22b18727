-- ===== src/Projects/Execution/Derivation.antt =====
-- What `reconcile_milestone` derives, against the definition of a completed milestone.
use grad_sync.Prelude.{
  ℕ, ◌<◌, ◌≡◌, ◌↔◌, refl, ap, sym, subst, ◌∙◌, true, not, inl, inr, Option, none, some, List, [],
  ◌∷◌, any, arith, find, put_idem, find_pk, find-put_self, some_eq, All, Bool-cases, and_both,
}
use grad_sync.Projects.Execution.Model.{
  MilestoneStatus, Milestone, Deliverable, is_accepted, is_blocked,
}
use grad_sync.Projects.Execution.{Database, Environment, is_empty, store_milestone}
use grad_sync.Projects.Execution.Reconcile.{
  all, counts, required_of, open_status, derived_status, first_time, reconciled,
  reconcile_milestone,
}
use grad_sync.Projects.Execution.Runs.{settle, reconcile_run}
use grad_sync.Projects.Execution.Plan.{IsSettled}
use grad_sync.Projects.Execution.PlanChanges.{settles}
use grad_sync.Transactions.Results.{check-finds, modify-runs, atomic-runs, or_raise-finds}
use grad_sync.Transactions.{ok, pure}

-- Some deliverable counts, and all that count are accepted.
abbrev pub IsDone : ℕ → List Deliverable → Type 0
IsDone pk rows = (any (counts pk) rows ≡ true) × All (IsSettled pk) rows

settled_back :
    (pk : ℕ) (rows : List Deliverable)
    → All (IsSettled pk) rows
    → all (λ d. is_accepted d.current_status) (required_of pk rows) ≡ true
settled_back pk [] h = refl
settled_back pk (d ∷ rows) h = elim (Bool-cases (counts pk d)) [
  | inl in_it ↦ rw (in_it, h.0 in_it, settled_back pk rows h.1)
  | inr out ↦ rw (out, settled_back pk rows h.1)
]

nonempty_iff :
    (pk : ℕ) (rows : List Deliverable) → not (is_empty (required_of pk rows)) ≡ any (counts pk) rows
nonempty_iff pk [] = refl
nonempty_iff pk (d ∷ rows) = elim (Bool-cases (counts pk d)) [
  | inl in_it ↦ rw in_it
  | inr out ↦ rw (out, nonempty_iff pk rows)
]

open_status_completed :
    (today date pk : ℕ) (rows : List Deliverable)
    → open_status today date (required_of pk rows) ≡ MilestoneStatus.completed ↔ IsDone pk rows
unfolding open_status
open_status_completed today date pk rows = (there, back)
  where
    there :
        open_status today date (required_of pk rows) ≡ MilestoneStatus.completed → IsDone pk rows
    there e =
        let (some_count, accepted) =
          and_both (not (is_empty (required_of pk rows))) _ (ground arith) in
        (sym (nonempty_iff pk rows) ∙ some_count, settles pk rows accepted)

    back : IsDone pk rows → open_status today date (required_of pk rows) ≡ MilestoneStatus.completed
    back (some_count, settled) =
        rw (nonempty_iff pk rows, some_count, settled_back pk rows settled) refl

reconciled_key : (now : ℕ) (s : MilestoneStatus) (m : Milestone) → (reconciled now s m).id ≡ m.id
unfolding reconciled
reconciled_key now s m = refl

-- What is stored is found again.
reconcile_stored :
    (env : Environment) (pk : ℕ) (db db' : Database) (r m' : Milestone)
    → find (λ x. x.id) pk db.milestones ≡ some r
    → settle env r db ≡ db'
    → reconciled env.now (derived_status env.today r db.deliverables) r ≡ m'
    → find (λ x. x.id) pk db'.milestones ≡ some m'
reconcile_stored env pk db db' r m' at stored same =
    let new : Milestone = reconciled env.now (derived_status env.today r db.deliverables) r in
    let key : new.id ≡ pk =
      reconciled_key env.now (derived_status env.today r db.deliverables) r
      ∙ find_pk (λ x. x.id) pk db.milestones at in
    subst (λ k. find (λ x. x.id) k db'.milestones ≡ some m') key
      (subst (λ (d : Database). find (λ x. x.id) new.id d.milestones ≡ some m') stored
        (find-put_self (λ x. x.id) new db.milestones ∙ ap some same))

open_status_overdue :
    (today date : ℕ) (required : List Deliverable)
    → open_status today date required ≡ MilestoneStatus.overdue
    → date < today
unfolding open_status
open_status_overdue today date required h = ground arith

open_status_blocked :
    (today date : ℕ) (required : List Deliverable)
    → open_status today date required ≡ MilestoneStatus.blocked
    → any (λ d. is_blocked d.current_status) required ≡ true
unfolding open_status
open_status_blocked today date required h = ground arith

derived_open :
    (now today : ℕ) (m : Milestone) (rows : List Deliverable)
    → m.archived_at ≡ none
    → (reconciled now (derived_status today m rows) m).current_status
      ≡ open_status today m.target_date (required_of m.id rows)
unfolding reconciled derived_status
derived_open now today m rows live = rw live

-- The status that `reconcile_milestone` stores, for a milestone that is not archived: it is completed
-- exactly when some required deliverable of it is not archived and all such are accepted. It is overdue
-- only after the target date, and blocked only with a required deliverable that is.
pub reconcile_milestone_iff :
    (env : Environment) (pk : ℕ) (db db' : Database) (m m' : Milestone)
    → find (λ r. r.id) pk db.milestones ≡ some m
    → m.archived_at ≡ none
    → reconcile_milestone env pk db ≡ (ok m', db')
    → (find (λ r. r.id) pk db'.milestones ≡ some m')
      × (m'.current_status ≡ MilestoneStatus.completed ↔ IsDone pk db.deliverables)
      × (m'.current_status ≡ MilestoneStatus.overdue → m.target_date < env.today)
      × (m'.current_status ≡ MilestoneStatus.blocked
          → any (λ d. is_blocked d.current_status) (required_of pk db.deliverables) ≡ true)
reconcile_milestone_iff env pk db db' m m' found live h =
    let (r, at, stored, same) = reconcile_run env pk db db' m' h in
    let row : r ≡ m = some_eq (sym at ∙ found) in
    let key : m.id ≡ pk = find_pk (λ x. x.id) pk db.milestones found in
    let made : reconciled env.now (derived_status env.today m db.deliverables) m ≡ m' =
      subst (λ x. reconciled env.now (derived_status env.today x db.deliverables) x ≡ m') row
        same in
    let status : open_status env.today m.target_date (required_of pk db.deliverables)
        ≡ m'.current_status =
      subst
        (λ k.
          open_status env.today m.target_date (required_of k db.deliverables) ≡ m'.current_status)
        key
        (sym (derived_open env.now env.today m db.deliverables live)
          ∙ ap (λ (x : Milestone). x.current_status) made) in
    let (there, back) = open_status_completed env.today m.target_date pk db.deliverables in
    (
      reconcile_stored env pk db db' r m' at stored same,
      (λ e. there (status ∙ e), λ done. sym status ∙ back done),
      λ e. open_status_overdue env.today m.target_date _ (status ∙ e),
      λ e. open_status_blocked env.today m.target_date _ (status ∙ e),
    )

-- A row whose status was derived, derived again.
reconciled_idem :
    (now later : ℕ) (s : MilestoneStatus) (m : Milestone)
    → reconciled later s (reconciled now s m) ≡ reconciled now s m
unfolding reconciled
reconciled_idem now later s m = ground (arith, first_time_idem m.completed_at)
  where
    first_time_idem : (o : Option ℕ) → first_time (first_time o now) later ≡ first_time o now
    first_time_idem none = refl
    first_time_idem (some t) = refl

derived_again :
    (now today : ℕ) (s : MilestoneStatus) (m : Milestone) (rows : List Deliverable)
    → derived_status today (reconciled now s m) rows ≡ derived_status today m rows
unfolding reconciled derived_status
derived_again now today s m rows = refl

reconcile_result :
    (env : Environment) (pk : ℕ) (db : Database) (m : Milestone)
    → find (λ x. x.id) pk db.milestones ≡ some m
    → reconcile_milestone env pk db
      ≡ (ok (reconciled env.now (derived_status env.today m db.deliverables) m), settle env m db)
unfolding reconcile_milestone pure
reconcile_result env pk db m found =
    atomic-runs db _
      (check-finds db _ _ (or_raise-finds _ found) ∙ check-finds db _ _ refl ∙ modify-runs db _ _)

-- Twice on the same date is once: the second call finds the status that it derives, and changes
-- nothing of the row, the time of completion and the version included.
pub reconcile_milestone_idem :
    (env later : Environment) (pk : ℕ) (db db' : Database) (m' : Milestone)
    → later.today ≡ env.today
    → reconcile_milestone env pk db ≡ (ok m', db')
    → reconcile_milestone later pk db' ≡ (ok m', db')
reconcile_milestone_idem env later pk db db' m' today h =
    let (r, at, stored, same) = reconcile_run env pk db db' m' h in
    let s : MilestoneStatus = derived_status env.today r db.deliverables in
    let new : Milestone = reconciled env.now s r in
    let status : derived_status later.today new db.deliverables ≡ s =
      derived_again env.now later.today s r db.deliverables
      ∙ ap (λ t. derived_status t r db.deliverables) today in
    let settled : reconciled later.now (derived_status later.today new db.deliverables) new ≡ new =
      ap (λ t. reconciled later.now t new) status ∙ reconciled_idem env.now later.now s r in
    let again : reconciled later.now (derived_status later.today m' db'.deliverables) m' ≡ m' =
      subst (λ x. reconciled later.now (derived_status later.today x db'.deliverables) x ≡ x) same
        (subst
          (λ (d : Database).
            reconciled later.now (derived_status later.today new d.deliverables) new ≡ new)
          stored settled) in
    let kept : store_milestone m' db' ≡ db' =
      subst (λ x. store_milestone x db' ≡ db') same
        (subst (λ d. store_milestone new d ≡ d) stored
          (ap (λ ms. record db { milestones = ms }) (put_idem (λ x. x.id) new db.milestones))) in
    reconcile_result later pk db' m' (reconcile_stored env pk db db' r m' at stored same)
    ∙ rw again (ap (λ d. (ok m', d)) kept)
