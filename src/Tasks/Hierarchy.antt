-- ===== src/Tasks/Hierarchy.antt =====
-- The loop of `Task.clean` ends, and keeps the hierarchy of tasks without cycles.
use grad_sync.Prelude.{
  ℕ, zero, suc, count_where, ◌≤◌, ◌<◌, ◌≡◌, ◌≢◌, refl, ap, sym, subst, ◌∙◌, inl, inr, Bool, true,
  false, not, Option, none, some, List, [], ◌∷◌, arith, length, put, find-put_ne, find-put_self,
  find-put_cases, ◌==◌, ==_iff, ==_ne, Bool-cases, Option-cases,
}
use grad_sync.Transactions.{Result, ok, err}
use grad_sync.Tasks.{
  Task, Error, Reason, Database, find_task, is_seen, walk, then_check, clean, save_task,
}

-- From the task, the parents lead to a task that has none.
pub data Rooted (rows : List Task) : ℕ → Type 0 where
  root : {k : ℕ} (t : Task) → find_task k rows ≡ some t → t.parent_task ≡ none → Rooted rows k
  child :
      {k : ℕ} (t : Task) (p : ℕ)
      → find_task k rows ≡ some t
      → t.parent_task ≡ some p
      → Rooted rows p
      → Rooted rows k

-- Every task has such a way up: the hierarchy has no cycle.
unfoldable pub AreRooted : List Task → Type 0
AreRooted rows = (k : ℕ) (t : Task) → find_task k rows ≡ some t → Rooted rows k

unseen_step :
    (fuel : ℕ) (rows : List Task) (seen : List ℕ) (k : ℕ)
    → walk (suc fuel) rows seen (some k) ≡ ok tt
    → (t : Task) × (find_task k rows ≡ some t)
      × (is_seen k seen ≡ false)
      × (walk fuel rows (k ∷ seen) t.parent_task ≡ ok tt)
unfolding walk
unseen_step fuel rows seen k h = elim (Bool-cases (is_seen k seen)) [
  | inl again ↦ absurd (stopped (rw again at h))
  | inr new ↦ elim (Option-cases (find_task k rows)) [
    | inl missing ↦ absurd (lost (rw (new, missing) at h))
    | inr (t, found) ↦ (t, found, new, rw (new, found) at h)
  ]
]
  where
    stopped :
        ◌≡◌ {A = Result Error (Unit {0})} (err (Error.validation Reason.hierarchy_cycle)) (ok tt)
        → ⊥
    stopped e = cc

    lost : ◌≡◌ {A = Result Error (Unit {0})} (err Error.does_not_exist) (ok tt) → ⊥
    lost e = cc

seen_apart : (k j : ℕ) (seen : List ℕ) → is_seen k seen ≡ false → is_seen j seen ≡ true → k ≢ j
seen_apart k j seen new old e =
    let both : true ≡ false = sym old ∙ ap (λ n. is_seen n seen) (sym e) ∙ new in
    absurd (clash both)
  where
    clash : true ≡ false → ⊥
    clash c = cc

seen_more : (j k : ℕ) (seen : List ℕ) → is_seen j seen ≡ true → is_seen j (k ∷ seen) ≡ true
seen_more j k seen h = ground arith

-- The loop that ends without a cycle has met no task that it had seen, so that the way up stays one
-- when such a task is saved.
walk-Rooted :
    (fuel : ℕ) (rows : List Task) (seen : List ℕ) (task : Task) (k : ℕ)
    → is_seen task.id seen ≡ true
    → walk fuel rows seen (some k) ≡ ok tt
    → Rooted (put (λ t. t.id) task rows) k
unfolding walk
walk-Rooted zero rows seen task k known h = absurd (cut h)
  where
    cut : ◌≡◌ {A = Result Error (Unit {0})} (err Error.endless) (ok tt) → ⊥
    cut e = cc
walk-Rooted (suc fuel) rows seen task k known h =
    let (t, found, new, rest) = unseen_step fuel rows seen k h in
    let away = seen_apart k task.id seen new known in
    let stays : find_task k (put (λ r. r.id) task rows) ≡ some t =
      find-put_ne (λ r. r.id) k task rows away ∙ found in
    elim (Option-cases t.parent_task) [
      | inl top ↦ Rooted.root t stays top
      | inr (p, up) ↦ Rooted.child t p stays up (
          walk-Rooted fuel rows (k ∷ seen) task p (seen_more task.id k seen known)
            (subst (λ o. walk fuel rows (k ∷ seen) o ≡ ok tt) up rest))
    ]

-- With a way up from its parent, the saved task has one, and so has every task that had one before.
saved-Rooted :
    (task : Task) (rows : List Task)
    → Rooted (put (λ t. t.id) task rows) task.id
    → (k : ℕ) → Rooted rows k
    → Rooted (put (λ t. t.id) task rows) k
saved-Rooted task rows own k (Rooted.root t found top) = elim (Bool-cases (k == task.id)) [
  | inl same ↦ subst (Rooted (put (λ r. r.id) task rows)) (sym ((==_iff k task.id).0 same)) own
  | inr other ↦ Rooted.root t (find-put_ne (λ r. r.id) k task rows (ground arith) ∙ found) top
]
saved-Rooted task rows own k (Rooted.child t p found up above) = elim (Bool-cases (k == task.id)) [
  | inl same ↦ subst (Rooted (put (λ r. r.id) task rows)) (sym ((==_iff k task.id).0 same)) own
  | inr other ↦
      Rooted.child t p (find-put_ne (λ r. r.id) k task rows (ground arith) ∙ found) up
        (saved-Rooted task rows own p above)
]

clean_walk : (a b c : Result Error (Unit {0})) → then_check a (then_check b c) ≡ ok tt → b ≡ ok tt
clean_walk (ok u) (ok v) c h = refl
clean_walk (ok u) (err e) c h = cc
clean_walk (err e) b c h = cc

-- Saving a task that passes `Task.clean` keeps the hierarchy of all tasks without cycles.
pub clean-AreRooted :
    (task : Task) (db : Database)
    → clean task db ≡ ok tt
    → AreRooted db.tasks
    → AreRooted (save_task task db).tasks
unfolding clean AreRooted
clean-AreRooted task db passes rooted k t found =
    let walked = clean_walk _ _ _ passes in
    let own : Rooted (put (λ r. r.id) task db.tasks) task.id =
      elim (Option-cases task.parent_task) [
        | inl top ↦ Rooted.root task (find-put_self (λ r. r.id) task db.tasks) top
        | inr (p, up) ↦ Rooted.child task p (find-put_self (λ r. r.id) task db.tasks) up (
            walk-Rooted (suc (length db.tasks)) db.tasks (task.id ∷ []) task p (self_seen task.id) (
              subst (λ o. walk (suc (length db.tasks)) db.tasks (task.id ∷ []) o ≡ ok tt) up
                walked))
      ] in
    elim (find-put_cases (λ r. r.id) k task db.tasks found) [
      | inl (e, same) ↦ subst (Rooted (put (λ r. r.id) task db.tasks)) (sym e) own
      | inr (away, before) ↦ saved-Rooted task db.tasks own k (rooted k t before)
    ]
  where
    self_seen : (n : ℕ) → is_seen n (n ∷ []) ≡ true
    self_seen n = ground arith

true-false : true ≡ false → ⊥
true-false c = cc

-- How many rows the loop has not seen.
abbrev unseen : List ℕ → List Task → ℕ
unseen seen = count_where (λ t. not (is_seen t.id seen))

unseen_mono : (k : ℕ) (seen : List ℕ) (rows : List Task) → unseen (k ∷ seen) rows ≤ unseen seen rows
unseen_mono k seen [] = omega arith
unseen_mono k seen (r ∷ rows) = ground (arith, unseen_mono k seen rows)

unseen_less :
    (k : ℕ) (seen : List ℕ) (rows : List Task) (t : Task)
    → find_task k rows ≡ some t
    → is_seen k seen ≡ false
    → unseen (k ∷ seen) rows < unseen seen rows
unseen_less k seen [] t found new = cc
unseen_less k seen (r ∷ rows) t found new = elim (Bool-cases (r.id == k)) [
  | inl here ↦
      let e = (==_iff r.id k).0 here in
      let was_new : is_seen r.id seen ≡ false = ap (λ n. is_seen n seen) e ∙ new in
      let flipped : (k == r.id) ≡ true = (==_iff k r.id).1 (sym e) in
      rw (flipped, was_new) (omega (arith, unseen_mono k seen rows))
  | inr other ↦
      let flipped : (k == r.id) ≡ false =
        ==_ne k r.id (λ e. true-false (sym ((==_iff r.id k).1 (sym e)) ∙ other)) in
      let less = unseen_less k seen rows t (rw other at found) new in
      rw flipped (omega (arith, less))
]

unseen_le : (seen : List ℕ) (rows : List Task) → unseen seen rows ≤ length rows
unseen_le seen [] = omega arith
unseen_le seen (r ∷ rows) = ground (arith, unseen_le seen rows)

abbrev is_endless : Error → Bool
is_endless Error.endless = true
is_endless _ = false

ok-endless : ◌≡◌ {A = Result Error (Unit {0})} (ok tt) (err Error.endless) → ⊥
ok-endless e = cc

err-endless :
    (x : Error)
    → is_endless x ≡ false
    → ◌≡◌ {A = Result Error (Unit {0})} (err x) (err Error.endless)
    → ⊥
err-endless x other e = true-false (
    sym (ap (λ (r : Result Error (Unit {0})). elim r [ ok a ↦ false | err y ↦ is_endless y ]) e)
    ∙ other)

none_less : {n : ℕ} → n < 0 → ⊥
none_less h = omega arith

cycle_other : is_endless (Error.validation Reason.hierarchy_cycle) ≡ false
cycle_other = refl

missing_other : is_endless Error.does_not_exist ≡ false
missing_other = refl

walk_fueled :
    (fuel : ℕ) (rows : List Task) (seen : List ℕ) (o : Option ℕ)
    → unseen seen rows < fuel
    → walk fuel rows seen o ≢ err Error.endless
unfolding walk
walk_fueled fuel rows seen none more h = ok-endless h
walk_fueled zero rows seen (some k) more h = absurd (none_less more)
walk_fueled (suc fuel) rows seen (some k) more h = elim (Bool-cases (is_seen k seen)) [
  | inl again ↦ err-endless _ cycle_other (rw again at h)
  | inr new ↦ elim (Option-cases (find_task k rows)) [
    | inl missing ↦ err-endless _ missing_other (rw (new, missing) at h)
    | inr (t, found) ↦
        walk_fueled fuel rows (k ∷ seen) t.parent_task
          (omega (arith, more, unseen_less k seen rows t found new)) (rw (new, found) at h)
  ]
]

-- The loop ends: with one step more than there are tasks it is never cut off, whatever the rows are,
-- also if they have cycles.
pub walk_ends :
    (rows : List Task) (seen : List ℕ) (o : Option ℕ)
    → walk (suc (length rows)) rows seen o ≢ err Error.endless
walk_ends rows seen o =
    walk_fueled (suc (length rows)) rows seen o (omega (arith, unseen_le seen rows))
