-- ===== src/Projects/Execution/Submitting.antt =====
-- What `submit_deliverable` promises.
use grad_sync.Prelude.{
  ℕ, suc, max, ◌<◌, ◌≡◌, refl, ap, sym, subst, ◌∙◌, Bool, true, false, ◌||◌, inl, inr, Option, none,
  some, List, [], ◌∷◌, ◌++◌, Text, select, arith, find, find_pk, find-put_self, some_eq, ◌==◌,
  if◌then◌else◌, All, Bool-cases,
}
use grad_sync.Accounts.{User}
use grad_sync.Projects.Execution.Model.{
  DeliverableStatus, Deliverable, DeliverableRevision, DeliverableEvidence, EvidenceSource,
  is_accepted, is_archived,
}
use grad_sync.Projects.Execution.{Error, Database, Environment, is_empty, max_of}
use grad_sync.Projects.Execution.Evidence.{
  EvidenceItem, supplied, check_source, label_of, evidence_row, one_source, validate_evidence,
  prepare_evidence,
}
use grad_sync.Projects.Execution.Revisions.{
  submitted_before, revision_numbers, next_number, NewRevision, submitted, or_submit,
  submit_deliverable,
}
use grad_sync.Projects.Execution.SubmissionChanges.{SubmissionRun, submit_new_run}
use grad_sync.Transactions.{Result, ok, err}
use grad_sync.Transactions.Runs.{check_ok, raise_if_ok, atomic_ok, or_raise_ok, ok_eq}

max_bound :
    (rows : List DeliverableRevision)
    → All (λ x. x.revision_number < next_number (max_of (λ r. r.revision_number) rows)) rows
unfolding max_of
max_bound [] = tt
max_bound (r ∷ rows) = go (max_of (λ x. x.revision_number) rows) rows (max_bound rows)
  where
    joined : Option ℕ → Option ℕ
    joined o = elim o [ none ↦ some r.revision_number | some n ↦ some (max r.revision_number n) ]

    mono : (o : Option ℕ) (k : ℕ) → k < next_number o → k < next_number (joined o)
    mono none k h = omega arith
    mono (some n) k h = ground arith

    top : (o : Option ℕ) → r.revision_number < next_number (joined o)
    top none = omega arith
    top (some n) = ground arith

    all_mono :
        (o : Option ℕ) (xs : List DeliverableRevision)
        → All (λ x. x.revision_number < next_number o) xs
        → All (λ x. x.revision_number < next_number (joined o)) xs
    all_mono o [] h = tt
    all_mono o (x ∷ xs) h = (mono o x.revision_number h.0, all_mono o xs h.1)

    go :
        (o : Option ℕ) (xs : List DeliverableRevision)
        → All (λ x. x.revision_number < next_number o) xs
        → (r.revision_number < next_number (joined o))
          × All (λ x. x.revision_number < next_number (joined o)) xs
    go o xs h = (top o, all_mono o xs h)

-- What holds of the rows that a filter selects holds of every row that passes it.
selected :
    (P : DeliverableRevision → Type 0) (p : DeliverableRevision → Bool)
    (rows : List DeliverableRevision)
    → All P (select p rows)
    → All (λ x. p x ≡ true → P x) rows
selected P p [] h = tt
selected P p (r ∷ rows) h = elim (Bool-cases (p r)) [
  | inl passes ↦ let h2 = rw passes at h in (λ e. h2.0, selected P p rows h2.1)
  | inr fails ↦ (λ e. cc, selected P p rows (rw fails at h))
]

-- The source that an item names: exactly one of the four, a key of 0 and an empty address counting
-- as none.
abbrev pub Names : EvidenceItem → EvidenceSource → Type 0
Names item source = supplied item ≡ source ∷ []

-- The rows are those of the items, one for each and in their order, of the revision and by the user.
abbrev pub AreKept : ℕ → ℕ → ℕ → List EvidenceItem → List DeliverableEvidence → Type 0
AreKept project revision user [] [] = Unit
AreKept project revision user (item ∷ items) (e ∷ rows) =
    (e.project ≡ project)
    × (e.revision ≡ revision)
    × (e.added_by ≡ user)
    × Names item e.source
    × (e.label_snapshot ≡ label_of item.label)
    × AreKept project revision user items rows
AreKept project revision user _ _ = ⊥

one_source_ok :
    (env : Environment) (actor : User) (project revision : ℕ) (label : Text)
    (sources : List EvidenceSource) (e : DeliverableEvidence)
    → one_source env actor project revision label sources ≡ ok e
    → (e.project ≡ project)
      × (e.revision ≡ revision)
      × (e.added_by ≡ actor.id)
      × (sources ≡ e.source ∷ [])
      × (e.label_snapshot ≡ label_of label)
unfolding one_source
one_source_ok env actor project revision label [] e h = cc
one_source_ok env actor project revision label (s ∷ []) e h = go (check_source env project s) h
  where
    go :
        (v : Result Error (Unit {0}))
        → elim v [ ok u ↦ ok (evidence_row project actor revision s label) | err x ↦ err x ] ≡ ok e
        → (e.project ≡ project)
          × (e.revision ≡ revision)
          × (e.added_by ≡ actor.id)
          × (s ∷ [] ≡ e.source ∷ [])
          × (e.label_snapshot ≡ label_of label)
    go (err x) f = cc
    go (ok u) f =
        subst
          (λ (x : DeliverableEvidence).
            (x.project ≡ project)
            × (x.revision ≡ revision)
            × (x.added_by ≡ actor.id)
            × (s ∷ [] ≡ x.source ∷ [])
            × (x.label_snapshot ≡ label_of label))
          (ok_eq f) (refl, refl, refl, refl, refl)
one_source_ok env actor project revision label (s ∷ t ∷ sources) e h = cc

prepare_evidence-AreKept :
    (env : Environment) (actor : User) (project revision : ℕ) (items : List EvidenceItem)
    (rows : List DeliverableEvidence)
    → prepare_evidence env actor project revision items ≡ ok rows
    → AreKept project revision actor.id items rows
unfolding prepare_evidence validate_evidence
prepare_evidence-AreKept env actor project revision [] rows h =
    subst (AreKept project revision actor.id []) (ok_eq h) tt
prepare_evidence-AreKept env actor project revision (item ∷ items) rows h =
    go (validate_evidence env actor project revision item) refl
      (prepare_evidence env actor project revision items)
      (prepare_evidence-AreKept env actor project revision items) h
  where
    go :
        (v : Result Error DeliverableEvidence)
        → validate_evidence env actor project revision item ≡ v
        → (p : Result Error (List DeliverableEvidence))
        → ((rs : List DeliverableEvidence) → p ≡ ok rs → AreKept project revision actor.id items rs)
        → elim v [ err e ↦ err e | ok row ↦ elim p [ err e ↦ err e | ok rs ↦ ok (row ∷ rs) ] ]
          ≡ ok rows
        → AreKept project revision actor.id (item ∷ items) rows
    go (err e) is p f h = cc
    go (ok row) is (err e) f h = cc
    go (ok row) is (ok rs) f h =
        let (a, b, c, d, e) =
          one_source_ok env actor project revision item.label (supplied item) row is in
        subst (AreKept project revision actor.id (item ∷ items)) (ok_eq h)
          (a, b, c, d, e, f rs refl)

-- What an accepted submission has done, when its key was not used before: the deliverable was neither
-- accepted nor archived, and evidence was given. The revision is stored with the criteria of the moment
-- and a number above those of all earlier revisions of the deliverable. The evidence is that of before,
-- and a row of the revision for each item in turn, with its source, label and the submitter; and the
-- deliverable names the revision and waits for a review when it requires a reviewer, for a
-- decision otherwise.
pub submit_deliverable_ok :
    (env : Environment) (actor : User) (pk : ℕ) (new : NewRevision) (db db' : Database)
    (d : Deliverable) (r : DeliverableRevision)
    → submit_deliverable env actor pk new db ≡ (ok r, db')
    → find (λ x. x.id) pk db.deliverables ≡ some d
    → submitted_before d.id new.idempotency_key db ≡ none
    → ((is_accepted d.current_status || is_archived d.current_status) ≡ false)
      × (is_empty new.evidence ≡ false)
      × (find (λ x. x.id) r.id db'.revisions ≡ some r)
      × (r.criteria_snapshot ≡ d.acceptance_criteria)
      × All
          (λ x. (x.deliverable == d.id) ≡ true → x.revision_number < r.revision_number)
          db.revisions
      × ((rows : List DeliverableEvidence) × (db'.evidence ≡ db.evidence ++ rows)
          × AreKept d.project r.id actor.id new.evidence rows)
      × (find (λ x. x.id) pk db'.deliverables
          ≡ some (record d {
            current_revision = some r.id;
            current_status =
                if d.reviewer_required
                then DeliverableStatus.under_review
                else DeliverableStatus.submitted;
            version = suc d.version;
          }))
unfolding submit_deliverable
submit_deliverable_ok env actor pk new db db' d r h found free =
    check_ok _ _ _ (atomic_ok _ h) λ d0 found0 h1. check_ok _ _ _ h1 λ project of h2.
      raise_if_ok _ _ _ _ h2 λ writable h3. check_ok _ _ _ h3 λ existing known h4.
        let same : d0 ≡ d = some_eq (sym (or_raise_ok _ _ found0) ∙ found) in
        let none_before : none ≡ existing =
          sym free
          ∙ ap (λ (x : Deliverable). submitted_before x.id new.idempotency_key db) (sym same)
          ∙ ok_eq known in
        finish (
          submit_new_run env actor d project new db db' r (
            subst (λ o. or_submit env actor d project new o db ≡ (ok r, db')) (sym none_before)
              (subst (λ x. or_submit env actor x project new existing db ≡ (ok r, db')) same h4)))
  where
    finish :
        SubmissionRun env actor d new db db' r
        → ((is_accepted d.current_status || is_archived d.current_status) ≡ false)
          × (is_empty new.evidence ≡ false)
          × (find (λ x. x.id) r.id db'.revisions ≡ some r)
          × (r.criteria_snapshot ≡ d.acceptance_criteria)
          × All
              (λ x. (x.deliverable == d.id) ≡ true → x.revision_number < r.revision_number)
              db.revisions
          × ((rows : List DeliverableEvidence) × (db'.evidence ≡ db.evidence ++ rows)
              × AreKept d.project r.id actor.id new.evidence rows)
          × (find (λ x. x.id) pk db'.deliverables ≡ some (submitted r.id d))
    finish run =
        let (rows, prepared, kept) = run.evidence in
        (
          run.unfinished,
          run.given,
          rw run.revisions (find-put_self (λ x. x.id) r db.revisions),
          run.criteria,
          subst
              (λ n. All (λ x. (x.deliverable == d.id) ≡ true → x.revision_number < n) db.revisions)
              (sym run.number)
              (selected (λ x. x.revision_number < next_number (revision_numbers d.id db.revisions))
                (λ x. x.deliverable == d.id) db.revisions
                (max_bound (select (λ x. x.deliverable == d.id) db.revisions))),
          (
            rows,
            kept,
            prepare_evidence-AreKept env actor d.project r.id new.evidence rows prepared,
          ),
          subst (λ k. find (λ x. x.id) k db'.deliverables ≡ some (submitted r.id d))
              (find_pk (λ x. x.id) pk db.deliverables found)
              (rw run.deliverables (find-put_self (λ x. x.id) (submitted r.id d) db.deliverables)),
        )
