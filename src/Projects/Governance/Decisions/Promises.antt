-- ===== src/Projects/Governance/Decisions/Promises.antt =====
-- What publishing promises.
use grad_sync.Prelude.{
  none-some, ℕ, ◌≡◌, ◌≢◌, refl, ap, sym, subst, ◌∙◌, inl, inr, false, none, some, arith, find, put,
  find-put_self, find-put_ne, find_pk,
}
use grad_sync.Accounts.{User}
use grad_sync.Projects.Model.{ResearchProject, DecisionRecord, DecisionStatus}
use grad_sync.Projects.Governance.{Error, Reason, Database, Environment}
use grad_sync.Projects.Governance.Decisions.{
  NewDecision, published_before, is_current, get_predecessor, save_decision, supersede, key_of,
  publish_decision,
}
use grad_sync.Transactions.{ok, err}
use grad_sync.Projects.Governance.Decisions.Succession.{
  Superseded, get_predecessor_facts, PublicationRun, publish_decision_run,
}

-- The key of the new decision is that of no decision yet.
abbrev pub HasFreshKey : Database → Type 0
HasFreshKey db = find (λ r. r.id) db.next_id db.decisions ≡ none

fresh_apart :
    (db : Database) (old : DecisionRecord) (pk key : ℕ)
    → HasFreshKey db
    → find (λ r. r.id) pk db.decisions ≡ some old
    → key ≡ db.next_id
    → key ≢ old.id
fresh_apart db old pk key fresh found is_next same =
    let at_next : find (λ r. r.id) db.next_id db.decisions ≡ some old =
      subst (λ n. find (λ r. r.id) n db.decisions ≡ some old)
        (sym (find_pk (λ r. r.id) pk db.decisions found) ∙ sym same ∙ is_next) found in
    none-some (sym fresh ∙ at_next)

not_current :
    (project pk : ℕ) (d : DecisionRecord) (db : Database)
    → find (λ r. r.id) pk db.decisions ≡ some d
    → is_current d.status ≡ false
    → get_predecessor project (some pk) db ≡ err (Error.value Reason.only_current_superseded)
unfolding get_predecessor
not_current project pk d db found past = rw found (ground arith)

-- Publishing a decision that supersedes another, with a key that was not used before, asks that the
-- other be a current one of the project without a successor. It stores the new decision as current
-- and the successor of the other, and marks the other superseded, so that it cannot be superseded
-- again.
pub publish_decision-supersedes :
    (env : Environment) (actor : User) (project : ResearchProject) (new : NewDecision) (pk : ℕ)
    (db db' : Database) (decision : DecisionRecord)
    → publish_decision env actor project new db ≡ (ok decision, db')
    → published_before project.id new.idempotency_key db ≡ none
    → new.supersedes ≡ some pk
    → HasFreshKey db
    → (old : DecisionRecord) × Superseded project.id pk db old
      × (find (λ r. r.id) pk db'.decisions
          ≡ some (record old { status = DecisionStatus.superseded }))
      × (find (λ r. r.id) decision.id db'.decisions ≡ some decision)
      × (decision.status ≡ DecisionStatus.current)
      × (decision.supersedes ≡ some old.id)
      × (get_predecessor project.id (some pk) db'
          ≡ err (Error.value Reason.only_current_superseded))
publish_decision-supersedes env actor project new pk db db' decision h unused names fresh =
    elim (publish_decision_run env actor project new db db' decision h).1 [
      | inl (used, same) ↦ absurd (none-some (sym unused ∙ used))
      | inr (free, run) ↦ superseding run
    ]
  where
    superseding :
        PublicationRun actor project new db db' decision
        → (old : DecisionRecord) × Superseded project.id pk db old
          × (find (λ r. r.id) pk db'.decisions
              ≡ some (record old { status = DecisionStatus.superseded }))
          × (find (λ r. r.id) decision.id db'.decisions ≡ some decision)
          × (decision.status ≡ DecisionStatus.current)
          × (decision.supersedes ≡ some old.id)
          × (get_predecessor project.id (some pk) db'
              ≡ err (Error.value Reason.only_current_superseded))
    superseding run =
        let checked : get_predecessor project.id (some pk) db ≡ ok run.predecessor =
          subst (λ o. get_predecessor project.id o db ≡ ok run.predecessor) names run.checked in
        let (old, is_old, facts) = get_predecessor_facts project.id pk db run.predecessor checked in
        let past : DecisionRecord = record old { status = DecisionStatus.superseded } in
        let rows : db'.decisions ≡ put (λ r. r.id) past (put (λ r. r.id) decision db.decisions) =
          run.decisions ∙ ap (λ p. (supersede p (save_decision decision db)).decisions) is_old in
        let at_old : find (λ r. r.id) old.id db'.decisions ≡ some past =
          rw rows (find-put_self (λ r. r.id) past (put (λ r. r.id) decision db.decisions)) in
        let at_pk : find (λ r. r.id) pk db'.decisions ≡ some past =
          subst (λ n. find (λ r. r.id) n db'.decisions ≡ some past)
            (find_pk (λ r. r.id) pk db.decisions facts.found) at_old in
        let apart = fresh_apart db old pk decision.id fresh facts.found run.key in
        (
          old,
          facts,
          at_pk,
          ap (find (λ r. r.id) decision.id) rows
              ∙ find-put_ne (λ r. r.id) decision.id past (put (λ r. r.id) decision db.decisions)
                  apart
              ∙ find-put_self (λ r. r.id) decision db.decisions,
          run.status,
          run.supersedes ∙ ap key_of is_old,
          not_current project.id pk past db' at_pk refl,
        )
