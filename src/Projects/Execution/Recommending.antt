-- ===== src/Projects/Execution/Recommending.antt =====
-- What an accepted recommendation has done.
use grad_sync.Prelude.{
  Option, clash, ℕ, ◌≡◌, refl, ap, sym, subst, ◌∙◌, inl, inr, Bool, true, false, ◌&&◌, none, some,
  List, [], ◌∷◌, Text, strip, is_blank, map, arith, find, put, find_pk, find-put_self, some_eq,
  ◌==◌, All, All-remove, Bool-cases,
}
use grad_sync.Accounts.{User}
use grad_sync.Projects.Execution.Model.{
  RevisionState, DeliverableRevision, Recommendation, DeliverableReviewRecommendation,
}
use grad_sync.Projects.Execution.{Database, Environment}
use grad_sync.Projects.Execution.Reviews.{
  key_of, open_recommendation, supersede, recommended_state, recommend_deliverable,
}
use grad_sync.Projects.Execution.Runs.{fresh_id_ok}
use grad_sync.Transactions.{ok}
use grad_sync.Transactions.Runs.{
  check_ok, raise_if_ok, modify_ok, returns, atomic_ok, or_raise_ok, ok_eq,
}

self_open : (k j : ℕ) → (k == k && true && j == j) ≡ true
self_open k j = ground arith

abbrev pub is_open_by : ℕ → ℕ → DeliverableReviewRecommendation → Bool
is_open_by revision reviewer n = open_recommendation revision n && n.reviewer == reviewer

supersede-closes :
    (now revision : ℕ) (actor : User) (rows : List DeliverableReviewRecommendation)
    → All (λ n. is_open_by revision actor.id n ≡ false) (map (supersede now revision actor) rows)
supersede-closes now revision actor [] = tt
supersede-closes now revision actor (n ∷ rows) =
    (closes n, supersede-closes now revision actor rows)
  where
    closes :
        (n : DeliverableReviewRecommendation)
        → is_open_by revision actor.id (supersede now revision actor n) ≡ false
    closes n = elim (Bool-cases (is_open_by revision actor.id n)) [
      | inl was ↦ ground arith
      | inr not_open ↦ ground arith
    ]

-- The revision is stored as one that is recommended for acceptance or for return.
abbrev pub Recommends : Recommendation → DeliverableRevision → Option DeliverableRevision → Type 0
Recommends Recommendation.accept r found =
    found ≡ some (record r { state = RevisionState.recommended_accept })
Recommends Recommendation.return r found =
    found ≡ some (record r { state = RevisionState.recommended_return })

recommends :
    (c : Recommendation) (r : DeliverableRevision) (found : Option DeliverableRevision)
    → found ≡ some (record r { state = recommended_state c })
    → Recommends c r found
recommends Recommendation.accept r found h = h
recommends Recommendation.return r found h = h

-- What an accepted recommendation has done: it was given a reason, the revision is recommended for
-- acceptance or for return, as the recommendation says, whatever state it had before, also that of
-- a final decision, the new recommendation is the only one of this reviewer on the revision that is
-- not superseded, and no deliverable and no decision is changed.
pub recommend_deliverable_ok :
    (env : Environment) (actor : User) (pk : ℕ) (choice : Recommendation) (rationale : Text)
    (db db' : Database) (r : DeliverableRevision) (n : DeliverableReviewRecommendation)
    → recommend_deliverable env actor pk (some choice) rationale db ≡ (ok n, db')
    → find (λ x. x.id) pk db.revisions ≡ some r
    → (is_blank (strip rationale) ≡ false)
      × (n.recommendation ≡ choice)
      × Recommends choice r (find (λ x. x.id) pk db'.revisions)
      × (find (λ x. x.id) n.id db'.recommendations ≡ some n)
      × (is_open_by r.id actor.id n ≡ true)
      × All (λ x. is_open_by r.id actor.id x ≡ true → x ≡ n) db'.recommendations
      × (db'.deliverables ≡ db.deliverables)
      × (db'.decisions ≡ db.decisions)
unfolding recommend_deliverable
recommend_deliverable_ok env actor pk choice rationale db db' r n h found =
    check_ok _ _ _ (atomic_ok _ h) λ r0 found0 h1. check_ok _ _ _ h1 λ project of h2.
      check_ok _ _ _ h2 λ allowed may h3. raise_if_ok _ _ _ _ h3 λ designated h4.
        check_ok _ _ _ h4 λ choice0 chosen h5. raise_if_ok _ _ _ _ h5 λ told h6.
          modify_ok _ _ _ h6 λ h7. check_ok _ _ _ h7 λ a assigned h8. fresh_id_ok _ _ h8 λ h9.
            modify_ok _ _ _ h9 λ h10. modify_ok _ _ _ h10 λ h11. modify_ok _ _ _ h11 λ h12.
              modify_ok _ _ _ h12 λ h13.
                let same : r0 ≡ r = some_eq (sym (or_raise_ok _ _ found0) ∙ found) in
                let kept : choice0 ≡ choice = sym (ok_eq chosen) in
                let result : DeliverableReviewRecommendation = record {
                  id = db.next_id;
                  project = r0.project;
                  revision = r0.id;
                  reviewer = actor.id;
                  recommendation = choice0;
                  rationale = strip rationale;
                  review_assignment = key_of a;
                  superseded_at = none;
                } in
                let older : List DeliverableReviewRecommendation =
                  map (supersede env.now r0.id actor) db.recommendations in
                let row : DeliverableRevision = record r0 { state = recommended_state choice0 } in
                let closed : All (λ y. is_open_by r.id actor.id y ≡ false) older =
                  subst
                    (λ (x : DeliverableRevision).
                      All (λ y. is_open_by x.id actor.id y ≡ false) older)
                    same (supersede-closes env.now r0.id actor db.recommendations) in
                returns
                  (λ (b : DeliverableReviewRecommendation) (x : Database).
                    (is_blank (strip rationale) ≡ false)
                    × (b.recommendation ≡ choice)
                    × Recommends choice r (find (λ y. y.id) pk x.revisions)
                    × (find (λ y. y.id) b.id x.recommendations ≡ some b)
                    × (is_open_by r.id actor.id b ≡ true)
                    × All (λ y. is_open_by r.id actor.id y ≡ true → y ≡ b) x.recommendations
                    × (x.deliverables ≡ db.deliverables)
                    × (x.decisions ≡ db.decisions))
                  _ h13
                  (
                    told,
                    kept,
                    recommends choice r _ (
                        subst
                          (λ k. find (λ y. y.id) k (put (λ y. y.id) row db.revisions) ≡ some row)
                          (find_pk (λ y. y.id) pk db.revisions (or_raise_ok _ _ found0))
                          (find-put_self (λ y. y.id) row db.revisions)
                        ∙ ap
                            (λ (x : DeliverableRevision).
                              some (record x { state = recommended_state choice0 }))
                            same
                        ∙ ap (λ c. some (record r { state = recommended_state c })) kept),
                    find-put_self (λ y. y.id) result older,
                    subst
                        (λ (x : DeliverableRevision).
                          (r0.id == x.id && true && actor.id == actor.id) ≡ true)
                        same (self_open r0.id actor.id),
                    (
                      λ e. refl,
                      All-remove (λ y. is_open_by r.id actor.id y ≡ false)
                          (λ y. is_open_by r.id actor.id y ≡ true → y ≡ result) (λ y. y.id)
                          db.next_id older
                          (λ y p away e. absurd (clash (is_open_by r.id actor.id y) e p)) closed,
                    ),
                    refl,
                    refl,
                  )
