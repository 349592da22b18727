-- ===== src/Projects/Execution/WorkChanges.antt =====
-- The change of the plan that each function on deliverables makes.
use grad_sync.Prelude.{
  ℕ, suc, ◌≤◌, ◌≡◌, refl, ap, sym, subst, ◌∙◌, Bool, true, false, not, ◌&&◌, ◌||◌, Option, none,
  some, List, Text, is_blank, arith, find, find_pk, if◌then◌else◌,
}
use grad_sync.Prelude.Int.{ℤ, pos, pos_part, leb_ℤ}
use grad_sync.Accounts.{User}
use grad_sync.Projects.Execution.Model.{Deliverable, is_blocked}
use grad_sync.Projects.Execution.{Reason, Error, Database, Environment}
use grad_sync.Projects.Execution.Deliverables.{
  NewDeliverable, create_deliverable, archived_deliverable, archive_deliverable,
}
use grad_sync.Projects.Execution.Updates.{
  Planning, reassign, plan, StatusText, Progress, is_given, with_progress, with_status,
  with_blocker, report_progress, update_deliverable,
}
use grad_sync.Projects.Execution.Runs.{
  fresh_id_ok, reconcile_ok, save_deliverable_ok, require_capability_ok,
}
use grad_sync.Projects.Execution.Plan.{plan_of, Change, Act, IsFit, has_completed}
use grad_sync.Projects.Execution.Changes.{atomic-Change, found_itself}
use grad_sync.Transactions.{ok, pure, check, ◌>>=◌, ◌>>◌, raise_if}
use grad_sync.Transactions.Runs.{
  check_ok, bind_ok, raise_if_ok, modify_ok, modify_done, returns, atomic_ok, or_raise_ok, ok_eq,
  ok_if,
}

-- The debt of a call that creates a deliverable.
abbrev pub debt_of : ℕ → NewDeliverable → Database → Bool
debt_of pk new db = new.required && has_completed pk (plan_of db)

pub create_deliverable-Change :
    (env : Environment) (actor : User) (pk : ℕ) (new : NewDeliverable) (db : Database)
    → Change env
        (Act.creates pk db.next_id)
        (debt_of pk new db)
        (plan_of db)
        (plan_of (create_deliverable env actor pk new db).1)
unfolding create_deliverable
create_deliverable-Change env actor pk new db =
    atomic-Change env (Act.creates pk db.next_id) (debt_of pk new db) _ db λ d db' h.
      check_ok _ _ _ (atomic_ok _ h) λ m found h1. check_ok _ _ _ h1 λ project of h2.
        require_capability_ok _ _ _ _ _ h2 λ w c h3. raise_if_ok _ _ _ _ h3 λ live h4.
          check_ok _ _ _ h4 λ assignees a h5. check_ok _ _ _ h5 λ reviewers r h6.
            raise_if_ok _ _ _ _ h6 λ eligible h7. raise_if_ok _ _ _ _ h7 λ reviewed h8.
              raise_if_ok _ _ _ _ h8 λ criteria h9. check_ok _ _ _ h9 λ order next h10.
                fresh_id_ok _ _ h10 λ h11. save_deliverable_ok _ _ _ h11 λ free h12.
                  modify_ok _ _ _ h12 λ h13. raise_if_ok _ _ _ _ h13 λ tasks h14.
                    modify_ok _ _ _ h14 λ h15. modify_ok _ _ _ h15 λ h16.
                      let at : pk ≡ m.id =
                        sym (find_pk (λ r. r.id) pk db.milestones (or_raise_ok _ _ found)) in
                      returns
                        (λ b d.
                          Change env (Act.creates pk db.next_id) (debt_of pk new db) (plan_of db)
                            (plan_of d))
                        _ h16
                        (Change.created _ (ap (λ k. Act.creates k db.next_id) at)
                          (omega arith, refl) refl
                          (ap (λ k. new.required && has_completed k (plan_of db)) at) refl refl)

-- A deliverable that a step hands on: the same row, with the milestone, project, order, author and
-- version that it had, as fit as it was.
abbrev Follows : Deliverable → Deliverable → Type 0
Follows old new =
    (old.id ≡ new.id)
    × (old.milestone ≡ new.milestone)
    × (IsFit old → IsFit new)
    × (old.project ≡ new.project)
    × (old.order ≡ new.order)
    × (old.created_by ≡ new.created_by)
    × (old.version ≡ new.version)

reassign_ok :
    (env : Environment) (actor : User) (d : Deliverable) (ids : Option (List ℕ)) (db mid : Database)
    (u : Unit {0})
    → reassign env actor d ids db ≡ (ok u, mid)
    → plan_of mid ≡ plan_of db
unfolding reassign
reassign_ok env actor d none db mid u h = returns (λ b d. plan_of d ≡ plan_of db) _ h refl
reassign_ok env actor d (some ids) db mid u h =
    check_ok _ _ _ h λ members known h1. subst (λ d. plan_of d ≡ plan_of db) (modify_done _ h1) refl

plan_ok :
    (env : Environment) (actor : User) (may : Bool) (p : Option Planning) (d new : Deliverable)
    (db mid : Database)
    → plan env actor may p d db ≡ (ok new, mid)
    → (plan_of mid ≡ plan_of db) × Follows d new
unfolding plan
plan_ok env actor may none d new db mid h =
    returns (λ b m. (plan_of m ≡ plan_of db) × Follows d b) _ h
      (refl, (refl, refl, λ f. f, refl, refl, refl, refl))
plan_ok env actor may (some p) d new db mid h = raise_if_ok _ _ _ _ h λ allowed h1.
    bind_ok _ _ _ h1 λ u last run h2.
      returns (λ b m. (plan_of m ≡ plan_of db) × Follows d b) _ h2
        (
          reassign_ok env actor d p.assignee_ids db last u run,
          (refl, refl, λ f. f, refl, refl, refl, refl),
        )

with_progress_ok : (p : Option ℤ) (d new : Deliverable) → with_progress p d ≡ ok new → Follows d new
unfolding with_progress
with_progress_ok none d new h =
    subst (Follows d) (ok_eq h) (refl, refl, λ f. f, refl, refl, refl, refl)
with_progress_ok (some p) d new h =
    let (fits, same) = ok_if _ _ h in
    subst (Follows d) same (refl, refl, λ f. (in_range p fits, f.1), refl, refl, refl, refl)
  where
    in_range : (p : ℤ) → (leb_ℤ (pos 0) p && leb_ℤ p (pos 100)) ≡ true → pos_part p ≤ 100
    in_range p e = ground arith

with_status_ok :
    (s : Option StatusText) (d new : Deliverable) → with_status s d ≡ ok new → Follows d new
unfolding with_status
with_status_ok none d new h =
    subst (Follows d) (ok_eq h) (refl, refl, λ f. f, refl, refl, refl, refl)
with_status_ok (some StatusText.unknown) d new h = cc
with_status_ok (some (StatusText.named s)) d new h =
    subst (Follows d) (ok_if _ _ h).1 (refl, refl, λ f. f, refl, refl, refl, refl)

with_blocker_lem : (t : Option Text) (d : Deliverable) → Follows d (with_blocker t d)
with_blocker_lem none d = (refl, refl, λ f. f, refl, refl, refl, refl)
with_blocker_lem (some t) d = (refl, refl, λ f. f, refl, refl, refl, refl)

chain : (a b c : Deliverable) → Follows a b → Follows b c → Follows a c
chain a b c f g =
    (f.0 ∙ g.0, f.1 ∙ g.1, λ x. g.2 (f.2 x), f.3 ∙ g.3, f.4 ∙ g.4, f.5 ∙ g.5, f.6 ∙ g.6)

report_progress_ok :
    (may : Bool) (p : Progress) (d new : Deliverable) (db mid : Database)
    → report_progress may p d db ≡ (ok new, mid)
    → (mid ≡ db) × Follows d new
unfolding report_progress
report_progress_ok may p d new db mid h =
    go (is_given p.progress_percent || is_given p.work_status || is_given p.blocker_summary) h
  where
    go :
        (on : Bool)
        → (if on
              then (do
                raise_if (not may) Error.permission_denied
                d1 ← check λ _. with_progress p.progress_percent d
                d2 ← check λ _. with_status p.work_status d1
                let d3 : Deliverable = with_blocker p.blocker_summary d2
                raise_if
                    (is_blocked d3.current_status && is_blank d3.blocker_summary)
                    (Error.value Reason.blocker_missing)
                pure d3)
              else pure d)
            db
          ≡ (ok new, mid)
        → (mid ≡ db) × Follows d new
    go false e =
        returns (λ b m. (m ≡ db) × Follows d b) _ e
          (refl, (refl, refl, λ f. f, refl, refl, refl, refl))
    go true e = raise_if_ok _ _ _ _ e λ allowed h1. check_ok _ _ _ h1 λ d1 first h2.
        check_ok _ _ _ h2 λ d2 second h3. raise_if_ok _ _ _ _ h3 λ told h4.
          returns (λ b m. (m ≡ db) × Follows d b) _ h4
            (
              refl,
              chain d d1 (with_blocker p.blocker_summary d2)
                  (with_progress_ok p.progress_percent d d1 first)
                  (chain d1 d2 (with_blocker p.blocker_summary d2)
                    (with_status_ok p.work_status d1 d2 second)
                    (with_blocker_lem p.blocker_summary d2)),
            )

pub update_deliverable-Change :
    (env : Environment) (debt : Bool) (actor : User) (pk version : ℕ) (planning : Option Planning)
    (progress : Progress) (db : Database)
    → Change env
        (Act.works (some pk))
        debt
        (plan_of db)
        (plan_of (update_deliverable env actor pk version planning progress db).1)
unfolding update_deliverable
update_deliverable-Change env debt actor pk version planning progress db =
    atomic-Change env (Act.works (some pk)) debt _ db λ r db' h.
      check_ok _ _ _ (atomic_ok _ h) λ d found h1. check_ok _ _ _ h1 λ project of h2.
        raise_if_ok _ _ _ _ h2 λ writable h3. raise_if_ok _ _ _ _ h3 λ same h4.
          check_ok _ _ _ h4 λ manages m1 h5. check_ok _ _ _ h5 λ assigned m2 h6.
            bind_ok _ _ _ h6 λ d1 mid planned h7. bind_ok _ _ _ h7 λ d2 last reported h8.
              save_deliverable_ok _ _ _ h8 λ free h9. reconcile_ok _ _ _ _ h9 λ m a at h10.
                modify_ok _ _ _ h10 λ h11.
                  let (p_same, f1) = plan_ok env actor manages planning d d1 db mid planned in
                  let (r_same, f2) = report_progress_ok _ progress d1 d2 mid last reported in
                  let f = chain d d1 d2 f1 f2 in
                  let same_plan : plan_of last ≡ plan_of db = ap plan_of r_same ∙ p_same in
                  subst (λ p. Change env (Act.works (some pk)) debt p (plan_of db')) same_plan
                    (returns
                      (λ b x. Change env (Act.works (some pk)) debt (plan_of last) (plan_of x)) _
                      h11
                      (Change.worked d (record d2 { version = suc d2.version }) m
                        (ap (λ k. Act.works (some k))
                          (sym (find_pk (λ r. r.id) pk db.deliverables (or_raise_ok _ _ found))))
                        (subst (λ p. find (λ r. r.id) d.id p.deliverables ≡ some d) (sym same_plan)
                          (found_itself (λ r. r.id) d pk db.deliverables (or_raise_ok _ _ found)))
                        f.0 f.1 (f.3, f.4, f.5, ap suc (sym f.6)) f.2 at refl refl))

pub archive_deliverable-Change :
    (env : Environment) (debt : Bool) (actor : User) (pk version : ℕ) (db : Database)
    → Change env
        (Act.works (some pk))
        debt
        (plan_of db)
        (plan_of (archive_deliverable env actor pk version db).1)
unfolding archive_deliverable
archive_deliverable-Change env debt actor pk version db =
    atomic-Change env (Act.works (some pk)) debt _ db λ r db' h.
      check_ok _ _ _ (atomic_ok _ h) λ d found h1. check_ok _ _ _ h1 λ m0 known h2.
        check_ok _ _ _ h2 λ project of h3. require_capability_ok _ _ _ _ _ h3 λ w c h4.
          raise_if_ok _ _ _ _ h4 λ same h5. raise_if_ok _ _ _ _ h5 λ incomplete h6.
            save_deliverable_ok _ _ _ h6 λ free h7. reconcile_ok _ _ _ _ h7 λ m a at h8.
              modify_ok _ _ _ h8 λ h9.
                returns (λ b x. Change env (Act.works (some pk)) debt (plan_of db) (plan_of x)) _ h9
                  (Change.worked d (archived_deliverable env.now d) m
                    (ap (λ k. Act.works (some k))
                      (sym (find_pk (λ r. r.id) pk db.deliverables (or_raise_ok _ _ found))))
                    (found_itself (λ r. r.id) d pk db.deliverables (or_raise_ok _ _ found)) refl
                    refl (refl, refl, refl, refl) (λ f. f) at refl refl)
