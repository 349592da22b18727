-- ===== src/Projects/Governance/Steps.antt =====
-- Runs of the steps that decisions and risks share.
use grad_sync.Prelude.{
  ℕ, suc, ◌≡◌, refl, sym, subst, Bool, true, false, List, [], ◌++◌, any, if◌then◌else◌,
}
use grad_sync.Accounts.{User}
use grad_sync.Projects.Model.{Source, ProjectRecordLink}
use grad_sync.Projects.Governance.{
  Error, Database, Environment, Step, fresh_id, LinkRequest, link_rows, is_linked, create_links,
}
use grad_sync.Transactions.{Result, ok, err, pure, check, ◌>>=◌, ◌>>◌, modify}
use grad_sync.Transactions.Runs.{check_ok, bind_ok, raise_if_ok, modify_done}

module _ {B P : Type 0} (db : Database) {db' : Database} {b : B} where
  pub fresh_id_ok :
      (k : ℕ → Step B)
      → (fresh_id >>= k) db ≡ (ok b, db')
      → (k db.next_id (record db { next_id = suc db.next_id }) ≡ (ok b, db') → P)
      → P
  unfolding fresh_id check modify pure ◌>>=◌
  fresh_id_ok k h rest = rest h

  pub create_links_ok :
      (env : Environment) (actor : User) (project : ℕ) (source : Source) (links : List LinkRequest)
      (k : Step B)
      → (create_links env actor project source links >> k) db ≡ (ok b, db')
      → ((rows : List ProjectRecordLink)
          → link_rows env actor project source db links [] ≡ ok rows
          → any (is_linked db.links) rows ≡ false
          → k (record db { links = db.links ++ rows }) ≡ (ok b, db')
          → P)
      → P
  unfolding create_links
  create_links_ok env actor project source links k h rest = bind_ok _ _ _ h λ u mid run more.
      raise_if_ok _ _ _ _ run λ few run1. check_ok _ _ _ run1 λ rows built run2.
        check_ok _ _ _ run2 λ v apart run3.
          rest rows built (none_linked _ _ apart)
            (subst (λ d. k d ≡ (ok b, db')) (sym (modify_done _ run3)) more)
    where
      none_linked :
          (c : Bool) (v : Unit {0})
          → ◌≡◌ {A = Result Error (Unit {0})} (if c then err Error.integrity else ok tt) (ok v)
          → c ≡ false
      none_linked true v e = cc
      none_linked false v e = refl
