-- ===== src/Projects/Governance/Risks/Log.antt =====
-- The revisions of a risk say what it is and number its changes.
use grad_sync.Prelude.{
  ℕ, ◌+◌, ◌≡◌, ap, sym, subst, ◌∙◌, ◌⊎◌, inl, inr, true, false, Option, some, List, ◌∷◌, is_blank,
  arith, find, put, find-put_cases, ◌==◌, ==_iff, ==_ne,
}
use grad_sync.Projects.Model.{RiskRecord, RiskRevision}
use grad_sync.Projects.Access.{first_where}
use grad_sync.Projects.Governance.{Database}
use grad_sync.Projects.Governance.Risks.{risk_matrix, last_number, is_set}
use grad_sync.Projects.Governance.Risks.Moves.{is_closed}

-- The newest revision of a risk.
abbrev pub latest : ℕ → List RiskRevision → Option RiskRevision
latest k revisions = first_where (λ r. r.risk == k) revisions

-- The revision holds what the risk is.
pub record Logs (risk : RiskRecord) (revision : RiskRevision) : Type 0 where
  pub risk_id : revision.risk ≡ risk.id
  pub state : revision.new_state ≡ risk.state
  pub likelihood : revision.likelihood ≡ risk.likelihood
  pub impact : revision.impact ≡ risk.impact
  pub severity : revision.severity ≡ risk.severity
  pub owner : revision.owner_id_snapshot ≡ risk.owner
  pub treatment : revision.treatment ≡ risk.treatment
  pub review_date : revision.review_date ≡ risk.review_date
  pub rationale : revision.closure_rationale ≡ risk.closure_rationale

-- The newest revision of each risk holds what the risk is, and has the highest number.
unfoldable pub IsLogged : Database → Type 0
IsLogged db =
    (k : ℕ) (risk : RiskRecord)
    → find (λ r. r.id) k db.risks ≡ some risk
    → (revision : RiskRevision) × (latest k db.revisions ≡ some revision)
      × Logs risk revision
      × (revision.revision_number ≡ last_number k db.revisions)

-- The severity is that of the matrix, and a closed risk has a rationale and the time it was closed.
pub record IsSound (risk : RiskRecord) : Type 0 where
  pub severity : risk.severity ≡ risk_matrix risk.likelihood risk.impact
  pub rationale : is_closed risk.state ≡ true → is_blank risk.closure_rationale ≡ false
  pub closing : is_closed risk.state ≡ true → is_set risk.closed_at ≡ true

unfoldable pub AreSound : Database → Type 0
AreSound db = (k : ℕ) (risk : RiskRecord) → find (λ r. r.id) k db.risks ≡ some risk → IsSound risk

-- A change of a risk stores it with a revision of the next number.
pub record RiskRun (db db' : Database) (risk : RiskRecord) : Type 0 where
  pub risks : db'.risks ≡ put (λ r. r.id) risk db.risks
  pub revision : RiskRevision
  pub revisions : db'.revisions ≡ revision ∷ db.revisions
  pub logs : Logs risk revision
  pub number : revision.revision_number ≡ last_number risk.id db.revisions + 1
  pub sound : AreSound db → IsSound risk

RiskRun-AreSound :
    (db db' : Database) (risk : RiskRecord) → RiskRun db db' risk → AreSound db → AreSound db'
unfolding AreSound
RiskRun-AreSound db db' risk run sound k stored found =
    elim (find-put_cases (λ r. r.id) k risk db.risks (rw run.risks at found)) [
      | inl (e, same) ↦ subst IsSound same (run.sound sound)
      | inr (away, before) ↦ sound k stored before
    ]

RiskRun-IsLogged :
    (db db' : Database) (risk : RiskRecord) → RiskRun db db' risk → IsLogged db → IsLogged db'
unfolding IsLogged
RiskRun-IsLogged db db' risk run logged k stored found =
    elim (find-put_cases (λ r. r.id) k risk db.risks (rw run.risks at found)) [
      | inl (e, same) ↦
          let here : (run.revision.risk == k) ≡ true =
            (==_iff run.revision.risk k).1 (run.logs.risk_id ∙ sym e) in
          (
            run.revision,
            rw (run.revisions, here),
            subst (λ r. Logs r run.revision) same run.logs,
            rw (run.revisions, here)
                (omega (arith, run.number, ap (λ n. last_number n db.revisions) e)),
          )
      | inr (away, before) ↦
          let (revision, last, logs, number) = logged k stored before in
          let other : (run.revision.risk == k) ≡ false =
            ==_ne run.revision.risk k (λ e. away (sym e ∙ run.logs.risk_id)) in
          (
            revision,
            rw (run.revisions, other) last,
            logs,
            rw (run.revisions, other) (omega (arith, number)),
          )
    ]

-- Nothing has changed, or one risk, with a revision.
unfoldable pub Changes : Database → Database → RiskRecord → Type 0
Changes db db' risk = (db' ≡ db) ⊎ RiskRun db db' risk

pub Changes-IsLogged :
    (db db' : Database) (risk : RiskRecord) → Changes db db' risk → IsLogged db → IsLogged db'
unfolding Changes
Changes-IsLogged db db' risk (inl same) logged = subst IsLogged (sym same) logged
Changes-IsLogged db db' risk (inr run) logged = RiskRun-IsLogged db db' risk run logged

pub Changes-AreSound :
    (db db' : Database) (risk : RiskRecord) → Changes db db' risk → AreSound db → AreSound db'
unfolding Changes
Changes-AreSound db db' risk (inl same) sound = subst AreSound (sym same) sound
Changes-AreSound db db' risk (inr run) sound = RiskRun-AreSound db db' risk run sound
