-- ===== src/Projects/Execution/DecidedOnce.antt =====
-- A revision gets one final decision, which stays.
use grad_sync.Prelude.{
  none-some, ℕ, suc, ◌≤◌, ◌<◌, ◌≡◌, refl, ap, sym, subst, ◌∙◌, inl, inr, Bool, true, false, Option,
  none, some, List, [], ◌∷◌, Text, arith, remove, count_where, ◌==◌, ==_iff, Bool-cases, All,
  All-weaken,
}
use grad_sync.Accounts.{User}
use grad_sync.Projects.Access.{first_where}
use grad_sync.Projects.Execution.Model.{
  DeliverableRevision, FinalDecision, DeliverableFinalDecision,
}
use grad_sync.Projects.Execution.{Database, Environment}
use grad_sync.Projects.Execution.Reviews.{decided_before, or_decide, decide_deliverable}
use grad_sync.Projects.Execution.Runs.{require_capability_ok}
use grad_sync.Projects.Execution.ReviewChanges.{DecisionRun, decide_new_run}
use grad_sync.Transactions.{ok}
use grad_sync.Transactions.Runs.{check_ok, returns, atomic_ok, ok_eq, atomic-keeps}

-- No revision has two decisions, and the keys of the decisions are below the next one.
abbrev pub IsDecidedOnce : Database → Type 0
IsDecidedOnce db =
    ((k : ℕ) → count_where (λ (f : DeliverableFinalDecision). f.revision == k) db.decisions ≤ 1)
    × All (λ (f : DeliverableFinalDecision). f.id < db.next_id) db.decisions

-- Every revision that has a decision keeps that one.
abbrev pub Stays : Database → Database → Type 0
Stays db db' =
    (k : ℕ) (f : DeliverableFinalDecision)
    → decided_before k db ≡ some f
    → decided_before k db' ≡ some f

remove_fresh :
    (n : ℕ) (rows : List DeliverableFinalDecision)
    → All (λ f. f.id < n) rows
    → remove (λ f. f.id) n rows ≡ rows
remove_fresh n [] h = refl
remove_fresh n (f ∷ rows) h =
    let away : (f.id == n) ≡ false = below f.id h.0 in
    rw away (ap (λ l. f ∷ l) (remove_fresh n rows h.1))
  where
    below : (k : ℕ) → k < n → (k == n) ≡ false
    below k less = ground arith

first-none :
    (p : DeliverableFinalDecision → Bool) (rows : List DeliverableFinalDecision)
    → first_where p rows ≡ none
    → count_where p rows ≡ 0
first-none p [] h = refl
first-none p (f ∷ rows) h = elim (Bool-cases (p f)) [
  | inl passes ↦ absurd (none-some (sym (rw passes at h)))
  | inr fails ↦ rw fails (let rest = first-none p rows (rw fails at h) in rw rest (omega arith))
]

decided :
    (env : Environment) (actor : User) (r : DeliverableRevision) (rationale key : Text)
    (db db' : Database) (f : DeliverableFinalDecision)
    → decided_before r.id db ≡ none
    → IsDecidedOnce db
    → DecisionRun env actor r rationale key db db' f
    → IsDecidedOnce db' × Stays db db'
unfolding decided_before
decided env actor r rationale key db db' f undecided (once, below) run =
    let rows : db'.decisions ≡ f ∷ db.decisions =
      run.decisions
      ∙ ap (λ l. f ∷ l)
          (ap (λ k. remove (λ (x : DeliverableFinalDecision). x.id) k db.decisions) run.own_key
            ∙ remove_fresh db.next_id db.decisions below) in
    (
      (
        λ k. rw rows (count k (f.revision == k) refl),
        rw rows (
            subst (λ n. All (λ (x : DeliverableFinalDecision). x.id < n) (f ∷ db.decisions))
              (sym run.next)
              (
                own f.id run.own_key,
                All-weaken (λ (x : DeliverableFinalDecision). x.id < db.next_id)
                    (λ (x : DeliverableFinalDecision). x.id < suc db.next_id) db.decisions
                    (λ x less. omega arith) below,
              )),
      ),
      λ k g before. rw rows (stays k g before (f.revision == k) refl),
    )
  where
    own : (k : ℕ) → k ≡ db.next_id → k < suc db.next_id
    own k same = omega arith

    here : (k : ℕ) → (f.revision == k) ≡ true → r.id ≡ k
    here k same = sym run.names ∙ (==_iff f.revision k).0 same

    none_of : (k : ℕ) → r.id ≡ k → first_where (λ x. x.revision == k) db.decisions ≡ none
    none_of k same =
        subst (λ j. first_where (λ x. x.revision == j) db.decisions ≡ none) same undecided

    count :
        (k : ℕ) (b : Bool)
        → (f.revision == k) ≡ b
        → count_where (λ (x : DeliverableFinalDecision). x.revision == k) (f ∷ db.decisions) ≤ 1
    count k true same =
        let zero_before =
          first-none (λ x. x.revision == k) db.decisions (none_of k (here k same)) in
        rw (same, zero_before) (omega arith)
    count k false other = let few = once k in rw other (omega arith)

    stays :
        (k : ℕ) (g : DeliverableFinalDecision)
        → first_where (λ x. x.revision == k) db.decisions ≡ some g
        → (b : Bool) → (f.revision == k) ≡ b
        → first_where (λ x. x.revision == k) (f ∷ db.decisions) ≡ some g
    stays k g before true same = absurd (none-some (sym (none_of k (here k same)) ∙ before))
    stays k g before false other = rw other before

-- A revision is decided once, and its decision stays: where no revision has two decisions and the keys
-- of the decisions are below the next one, that is so after any call for a decision, by anyone and
-- whether it succeeds or raises, and every revision that had a decision has the same one.
pub decide_deliverable-IsDecidedOnce :
    (env : Environment) (actor : User) (pk : ℕ) (decision : Option FinalDecision)
    (rationale key : Text) (db : Database)
    → IsDecidedOnce db
    → IsDecidedOnce (decide_deliverable env actor pk decision rationale key db).1
      × Stays db (decide_deliverable env actor pk decision rationale key db).1
unfolding decide_deliverable
decide_deliverable-IsDecidedOnce env actor pk decision rationale key db once =
    atomic-keeps (λ d. IsDecidedOnce d × Stays db d) _ db (once, λ k f h. h)
      λ f db' h. check_ok _ _ _ (atomic_ok _ h) λ r found h1. check_ok _ _ _ h1 λ project of h2.
        require_capability_ok _ _ _ _ _ h2
          λ w c h3. check_ok _ _ _ h3 λ existing known h4. go r existing (ok_eq known) f db' h4
  where
    go :
        (r : DeliverableRevision) (existing : Option DeliverableFinalDecision)
        → decided_before r.id db ≡ existing
        → (f : DeliverableFinalDecision) (db' : Database)
        → or_decide env actor r decision rationale key existing db ≡ (ok f, db')
        → IsDecidedOnce db' × Stays db db'
    go r (some old) known f db' e =
        returns (λ b d. IsDecidedOnce d × Stays db d) _ e (once, λ k g h. h)
    go r none known f db' e =
        decided env actor r rationale key db db' f known once
          (decide_new_run env actor r decision rationale key db db' f e)
