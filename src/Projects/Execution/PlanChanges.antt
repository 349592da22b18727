-- ===== src/Projects/Execution/PlanChanges.antt =====
-- The abstract plan: what every change of it keeps.
use grad_sync.Prelude.{
  ℕ, ◌≡◌, refl, sym, subst, Bool, true, false, ◌&&◌, inl, inr, List, [], ◌∷◌, map, arith, put,
  find_pk, ◌==◌, All, All-find, All-weaken, All-remove, All-map, All-put, All-put-put, All-IsIn,
  any, ==_ne, ◌∙◌, Bool-cases, and_both,
}
use grad_sync.Projects.Execution.Model.{
  MilestoneStatus, Milestone, Deliverable, is_completed, is_archived_milestone, is_accepted,
}
use grad_sync.Projects.Execution.{Environment}
use grad_sync.Projects.Execution.Reconcile.{
  counts, required_of, open_status, derived_status, reconciled, all,
}
use grad_sync.Projects.Execution.Milestones.{archive_row, archived_milestone}
use grad_sync.Projects.Execution.Plan.{
  Plan, IsStamped, IsFit, IsSettled, IsEarned, AreStamped, AreFit, AreEarned, relabelled, Comes,
  Change, Act,
}

-- A status that is derived has its times.
open_status_open :
    (today date : ℕ) (rows : List Deliverable)
    → is_archived_milestone (open_status today date rows) ≡ false
unfolding open_status
open_status_open today date rows = ground arith

reconciled-IsStamped :
    (now today : ℕ) (m : Milestone) (rows : List Deliverable)
    → IsStamped (reconciled now (derived_status today m rows) m)
unfolding reconciled derived_status
reconciled-IsStamped now today m rows =
    ground (arith, open_status_open today m.target_date (required_of m.id rows))

pub settles :
    (pk : ℕ) (rows : List Deliverable)
    → all (λ d. is_accepted d.current_status) (required_of pk rows) ≡ true
    → All (IsSettled pk) rows
settles pk [] h = tt
settles pk (d ∷ rows) h = elim (Bool-cases (counts pk d)) [
  | inl in_it ↦
      let (here, rest) = and_both (is_accepted d.current_status) _ (rw in_it at h) in
      (λ e. here, settles pk rows rest)
  | inr out ↦ (λ e. cc, settles pk rows (rw out at h))
]

-- A status that is derived as completed is earned.
reconciled-IsEarned :
    (now today : ℕ) (m : Milestone) (rows : List Deliverable)
    → IsEarned rows (reconciled now (derived_status today m rows) m)
unfolding reconciled derived_status open_status
reconciled-IsEarned now today m rows done = settles m.id rows (ground arith)

-- A deliverable of another milestone leaves what is earned as it was.
other-IsEarned :
    (new : Deliverable) (rows : List Deliverable) (m : Milestone)
    → (m.id == new.milestone) ≡ false
    → IsEarned rows m
    → IsEarned (put (λ r. r.id) new rows) m
other-IsEarned new rows m away earned done =
    All-put (IsSettled m.id) (λ r. r.id) new rows (λ e. absurd (elsewhere e)) (earned done)
  where
    elsewhere : counts m.id new ≡ true → ⊥
    elsewhere e = ground arith

-- A deliverable that is not required, or whose milestone is not completed, leaves it as well.
without_debt :
    (d : Deliverable) (rows : List Deliverable) (ms : List Milestone)
    → (d.required && any (λ m. m.id == d.milestone && is_completed m.current_status) ms) ≡ false
    → All (IsEarned rows) ms
    → All (IsEarned (put (λ r. r.id) d rows)) ms
without_debt d rows [] free h = tt
without_debt d rows (m ∷ ms) free h = (
  λ done. All-put (IsSettled m.id) (λ r. r.id) d rows (λ e. absurd (uncounted done e)) (h.0 done),
  without_debt d rows ms (ground arith) h.1,
)
  where
    uncounted : is_completed m.current_status ≡ true → counts m.id d ≡ true → ⊥
    uncounted done e = ground arith

archive_row-IsSettled :
    (now pk k : ℕ) (d : Deliverable) → IsSettled k d → IsSettled k (archive_row now pk d)
archive_row-IsSettled now pk k d h e = ground arith

archive_row-IsFit : (now pk : ℕ) (d : Deliverable) → IsFit d → IsFit (archive_row now pk d)
archive_row-IsFit now pk d h = ground arith

moved :
    {ds ds' : List Deliverable} {ms ms' : List Milestone}
    → ms' ≡ ms
    → ds' ≡ ds
    → All (IsEarned ds) ms
    → All (IsEarned ds') ms'
moved {ds} {ds'} {ms} {ms'} e f h =
    subst (λ rows. All (IsEarned rows) ms') (sym f) (subst (All (IsEarned ds)) (sym e) h)

-- What holds whatever the order and the version are, holds of rows that come from the table.
rows_keep :
    (P : Milestone → Type 0) (rows rows' : List Milestone)
    → ((m : Milestone) (order version : ℕ) → P m → P (relabelled order version m))
    → All P rows
    → All (Comes rows) rows'
    → All P rows'
rows_keep P rows rows' blind h comes =
    All-weaken (Comes rows) P rows'
      (λ m' (m, at, same). subst P same (blind m m'.order m'.version (All-IsIn P m rows h at)))
      comes

-- Every change keeps the check constraints on milestones.
pub Change-AreStamped :
    {env : Environment} {act : Act} {debt : Bool} {db db' : Plan}
    → Change env act debt db db'
    → AreStamped db
    → AreStamped db'
unfolding reconciled
Change-AreStamped (Change.unchanged ms ds) h = rw ms h
Change-AreStamped {db} (Change.added m is status done at ms ds) h =
    rw ms (All-put IsStamped (λ r. r.id) m db.milestones (rw (status, done, at) (refl, refl)) h)
Change-AreStamped {env} {db} (Change.edited old new m is here edit found same ms ds) h = rw ms (
    All-put-put IsStamped (λ r. r.id)
      (reconciled env.now (derived_status env.today m db.deliverables) m) new db.milestones same
      (reconciled-IsStamped env.now env.today m db.deliverables) h)
Change-AreStamped {env} {db} (Change.derived k m is found ms ds) h = rw ms (
    All-put IsStamped (λ r. r.id)
      (reconciled env.now (derived_status env.today m db.deliverables) m) db.milestones
      (reconciled-IsStamped env.now env.today m db.deliverables) h)
Change-AreStamped {db} {db'} (Change.reordered is keys keeps ds) h =
    rows_keep IsStamped db.milestones db'.milestones (λ m o v p. p) h keeps
Change-AreStamped {env} {db} (Change.closed m is found ms ds) h =
    rw ms
      (All-put IsStamped (λ r. r.id) (archived_milestone env.now m) db.milestones (refl, refl) h)
Change-AreStamped (Change.created d is fit status owes ms ds) h = rw ms h
Change-AreStamped {env} {db} (Change.worked old new m is found same same' work fit at ms ds) h =
    rw ms (
      All-put IsStamped (λ r. r.id)
        (reconciled env.now (derived_status env.today m (put (λ r. r.id) new db.deliverables)) m)
        db.milestones
        (reconciled-IsStamped env.now env.today m (put (λ r. r.id) new db.deliverables)) h)

-- Every change keeps the range of the progress.
pub Change-AreFit :
    {env : Environment} {act : Act} {debt : Bool} {db db' : Plan}
    → Change env act debt db db'
    → AreFit db
    → AreFit db'
Change-AreFit (Change.unchanged ms ds) h = rw ds h
Change-AreFit (Change.added m is status done at ms ds) h = rw ds h
Change-AreFit (Change.edited old new m is here edit found same ms ds) h = rw ds h
Change-AreFit (Change.derived k m is found ms ds) h = rw ds h
Change-AreFit (Change.reordered is keys keeps ds) h = rw ds h
Change-AreFit {env} {db} (Change.closed m is found ms ds) h = rw ds (
    All-map IsFit IsFit (archive_row env.now m.id) db.deliverables (archive_row-IsFit env.now m.id)
      h)
Change-AreFit {db} (Change.created d is fit status owes ms ds) h =
    rw ds (All-put IsFit (λ r. r.id) d db.deliverables fit h)
Change-AreFit {db} (Change.worked old new m is found same same' work fit at ms ds) h = rw ds (
    All-put IsFit (λ r. r.id) new db.deliverables
      (fit (All-find IsFit (λ r. r.id) old.id db.deliverables h found)) h)

unplanned : (s : MilestoneStatus) → s ≡ MilestoneStatus.planned → is_completed s ≡ true → ⊥
unplanned s e f = ground arith

-- Every change without a debt keeps what is earned.
pub Change-AreEarned :
    {env : Environment} {act : Act} {db db' : Plan}
    → Change env act false db db'
    → AreEarned db
    → AreEarned db'
unfolding reconciled
Change-AreEarned (Change.unchanged ms ds) h = moved ms ds h
Change-AreEarned {db} (Change.added m is status done at ms ds) h = moved ms ds (
    All-put (IsEarned db.deliverables) (λ r. r.id) m db.milestones
      (λ e. absurd (unplanned m.current_status status e)) h)
Change-AreEarned {env} {db} (Change.edited old new m is here edit found same ms ds) h =
    moved ms ds (
      All-put-put (IsEarned db.deliverables) (λ r. r.id)
        (reconciled env.now (derived_status env.today m db.deliverables) m) new db.milestones same
        (reconciled-IsEarned env.now env.today m db.deliverables) h)
Change-AreEarned {env} {db} (Change.derived k m is found ms ds) h = moved ms ds (
    All-put (IsEarned db.deliverables) (λ r. r.id)
      (reconciled env.now (derived_status env.today m db.deliverables) m) db.milestones
      (reconciled-IsEarned env.now env.today m db.deliverables) h)
Change-AreEarned {db} {db'} (Change.reordered is keys keeps ds) h =
    moved refl ds
      (rows_keep (IsEarned db.deliverables) db.milestones db'.milestones (λ m o v p. p) h keeps)
Change-AreEarned {env} {db} (Change.closed m is found ms ds) h = moved ms ds (
    All-put (IsEarned rows) (λ r. r.id) (archived_milestone env.now m) db.milestones (λ e. cc)
      (All-weaken (IsEarned db.deliverables) (IsEarned rows) db.milestones
        (λ r p done.
          All-map (IsSettled r.id) (IsSettled r.id) (archive_row env.now m.id) db.deliverables
            (archive_row-IsSettled env.now m.id r.id) (p done))
        h))
  where
    rows : List Deliverable
    rows = map (archive_row env.now m.id) db.deliverables
Change-AreEarned {db} (Change.created d is fit status owes ms ds) h =
    moved ms ds (without_debt d db.deliverables db.milestones (sym owes) h)
Change-AreEarned {env} {db} (Change.worked old new m is found same same' work fit at ms ds) h =
    moved ms ds (
      reconciled-IsEarned env.now env.today m rows,
      All-remove (IsEarned db.deliverables) (IsEarned rows) (λ r. r.id) m.id db.milestones
          (λ r p e.
            other-IsEarned new db.deliverables r
              (==_ne r.id new.milestone
                (λ f. cut r e (f ∙ sym (find_pk (λ r. r.id) new.milestone db.milestones at))))
              p)
          h,
    )
  where
    rows : List Deliverable
    rows = put (λ r. r.id) new db.deliverables

    cut : (r : Milestone) → (r.id == m.id) ≡ false → r.id ≡ m.id → ⊥
    cut r e f = ground arith
