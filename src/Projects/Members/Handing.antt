-- ===== src/Projects/Members/Handing.antt =====
-- What a transfer of a project returns and stores, and what a second call of it does.
use grad_sync.Prelude.{
  refl, ◌&&◌, Bool, suc, ℕ, ◌≡◌, ◌<◌, sym, ap, ◌∙◌, subst, true, false, not, none, some, some_eq,
  map, All, All-map, All-put, find, find-put_self, find-put_ne, find-map, put, ◌==◌, Bool-cases,
  inl, inr, if◌then◌else◌, arith,
}
use grad_sync.Accounts.{User}
use grad_sync.Projects.Model.{
  ResearchProject, ProjectMembership, PreviousAdvisorResult, ProjectOwnershipTransfer, Role,
  MembershipStatus, GovernanceState,
}
use grad_sync.Projects.Access.{first_where}
use grad_sync.Projects.Members.{Reason, Error, Database, is_live_primary, is_row_of}
use grad_sync.Projects.Members.Transfer.{
  demoted, handed_over, Handover, has_key, may_transfer, hand_over, transfer_ownership,
}
use grad_sync.Projects.Members.Owners.{Owner, IsOwned}
use grad_sync.Projects.Members.Runs.{row_for_run}
use grad_sync.Projects.Members.TransferOwners.{new_owner, other_key}
use grad_sync.Projects.Members.TransferRuns.{HandedOver, hand_over_run, demoted_id}
use grad_sync.Transactions.{ok, err}
use grad_sync.Transactions.Results.{
  check-finds, check-raises, raise_if-raises, atomic-raises, or_raise-finds,
}
use grad_sync.Transactions.Runs.{check_ok, raise_if_ok, atomic_ok, or_raise_ok, ok_eq}

-- What the former advisor is asked to be, as a role and a status.
abbrev pub former : PreviousAdvisorResult → Role × MembershipStatus
former PreviousAdvisorResult.co_advisor = (Role.co_advisor, MembershipStatus.active)
former PreviousAdvisorResult.reviewer = (Role.reviewer, MembershipStatus.active)
former PreviousAdvisorResult.observer = (Role.observer, MembershipStatus.active)
former PreviousAdvisorResult.removed = (Role.observer, MembershipStatus.removed)

abbrev pub is_current_owner : ℕ → ProjectMembership → Bool
is_current_owner project r = r.project == project && is_live_primary r

-- After the handing over of a project `p`.
abbrev pub IsHanded : ℕ → User → ResearchProject → Handover → Database → Database → Type 0
IsHanded now actor p h db db' =
    ((p' : ResearchProject) × (find (λ r. r.id) p.id db'.projects ≡ some p')
      × (p'.advisor ≡ h.new_advisor.id)
      × (p'.governance_state ≡ GovernanceState.normal)
      × (p'.governance_hold_reason ≡ none)
      × (p'.governance_version ≡ suc p.governance_version)
      × (p'.status ≡ p.status)
      × Owner p' db'.memberships)
    × All (λ r. r.project ≡ p.id → is_live_primary r ≡ true → r.user ≡ h.new_advisor.id)
        db'.memberships
    × ((r : ProjectMembership)
        → find (λ y. y.id) r.id db.memberships ≡ some r
        → is_row_of p.id h.new_advisor.id r ≡ false
        → (is_current_owner p.id r ≡ true
            → find (λ y. y.id) r.id db'.memberships
              ≡ some (record r {
                role = (former h.previous_advisor_result).0;
                status = (former h.previous_advisor_result).1;
                role_changed_at = some now;
              }))
          × (is_current_owner p.id r ≡ false → find (λ y. y.id) r.id db'.memberships ≡ some r))

demoted-owner :
    (now project : ℕ) (result : PreviousAdvisorResult) (m : ProjectMembership)
    → is_current_owner project m ≡ true
    → demoted now project result m ≡ record m {
      role = (former result).0;
      status = (former result).1;
      role_changed_at = some now;
    }
demoted-owner now project PreviousAdvisorResult.co_advisor m owner = ground arith
demoted-owner now project PreviousAdvisorResult.reviewer m owner = ground arith
demoted-owner now project PreviousAdvisorResult.observer m owner = ground arith
demoted-owner now project PreviousAdvisorResult.removed m owner = ground arith

demoted-same :
    (now project : ℕ) (result : PreviousAdvisorResult) (m : ProjectMembership)
    → is_current_owner project m ≡ false
    → demoted now project result m ≡ m
demoted-same now project result m other = ground arith

demoted-no_primary :
    (now project : ℕ) (result : PreviousAdvisorResult) (m : ProjectMembership)
    → (demoted now project result m).project ≡ project
    → is_live_primary (demoted now project result m) ≡ true
    → ⊥
demoted-no_primary now project result m at live = ground arith

finished-IsHanded :
    (now : ℕ) (actor : User) (p : ResearchProject) (h : Handover) (db db' : Database)
    → IsOwned db
    → HandedOver now actor p h db db'
    → IsHanded now actor p h db db'
finished-IsHanded now actor p h db db' owned (existing, m, mid, first, saved, end) =
    let run = row_for_run _ _ existing _ mid m saved in
    let g = demoted now p.id h.previous_advisor_result in
    let (rows, projects, project, user, live) =
      new_owner now actor p h db mid existing m owned first run in
    let rows' : put (λ r. r.id) m (map g db.memberships) ≡ db'.memberships =
      sym rows ∙ ap (λ d. d.memberships) end in
    let ids = demoted_id now p.id h.previous_advisor_result in
    let kept : (r : ProjectMembership)
        → find (λ y. y.id) r.id db.memberships ≡ some r
        → is_row_of p.id h.new_advisor.id r ≡ false
        → find (λ y. y.id) r.id db'.memberships ≡ some (g r) =
      λ r at other.
        subst (λ l. find (λ y. y.id) r.id l ≡ some (g r)) rows'
          (find-put_ne (λ y. y.id) r.id m (map g db.memberships)
              (other_key now actor p h db mid existing m r owned first run at other)
            ∙ find-map (λ y. y.id) g r.id db.memberships ids at) in
    (
      (
        handed_over now actor h.new_advisor h.reason p,
        subst
            (λ d.
              find (λ r. r.id) p.id d.projects
              ≡ some (handed_over now actor h.new_advisor h.reason p))
            end
            (find-put_self (λ r. r.id) (handed_over now actor h.new_advisor h.reason p)
              mid.projects),
        refl,
        refl,
        refl,
        refl,
        refl,
        (
          m,
          subst (λ l. find (λ r. r.id) m.id l ≡ some m) rows'
              (find-put_self (λ r. r.id) m (map g db.memberships)),
          project,
          user,
          live,
        ),
      ),
      subst (All (λ r. r.project ≡ p.id → is_live_primary r ≡ true → r.user ≡ h.new_advisor.id))
          rows'
          (All-put _ (λ r. r.id) m (map g db.memberships) (λ at l. user)
            (All-map (λ r. r.id < db.next_id) _ g db.memberships
              (λ r old at l. absurd (demoted-no_primary now p.id h.previous_advisor_result r at l))
              owned.1)),
      λ r at other. (
        (λ owner.
            kept r at other
            ∙ ap (λ x. some x) (demoted-owner now p.id h.previous_advisor_result r owner)),
        (λ away.
            kept r at other
            ∙ ap (λ x. some x) (demoted-same now p.id h.previous_advisor_result r away)),
      ),
    )

-- A transfer that succeeds, with a key that no transfer of the project has and where every project
-- has its owner's live membership, asked for the governance version that the project had and for
-- another advisor than its own. It leaves the project with the new advisor, in the normal
-- governance state, with no reason for a hold, with the next governance version and with the status
-- that it had. The new advisor has its live primary membership and nobody else has one. A stored
-- membership of anyone else, or of another project, is what it was, but that a live primary advisor
-- of the project has become what was asked for: active as co-advisor, reviewer or observer, or
-- removed as an observer.
pub transfer_ownership_ok :
    (now : ℕ) (actor : User) (p : ResearchProject) (h : Handover) (db db' : Database)
    (t : ProjectOwnershipTransfer)
    → IsOwned db
    → find (λ r. r.id) p.id db.projects ≡ some p
    → first_where (has_key p.id h.idempotency_key) db.transfers ≡ none
    → transfer_ownership now actor p.id h db ≡ (ok t, db')
    → (p.governance_version ≡ h.expected_version)
      × (h.new_advisor.id ≡ p.advisor → ⊥)
      × IsHanded now actor p h db db'
unfolding transfer_ownership
transfer_ownership_ok now actor p h db db' t owned known unkeyed run =
    check_ok _ _ _ (atomic_ok _ run) λ q found h1. check_ok _ _ _ h1 λ v allowed h2.
      raise_if_ok _ _ _ _ h2 λ current h3. raise_if_ok _ _ _ _ h3 λ reasoned h4.
        raise_if_ok _ _ _ _ h4 λ eligible h5. raise_if_ok _ _ _ _ h5 λ different h6.
          check_ok _ _ _ h6 λ existing keyed h7.
            let same : q ≡ p = some_eq (sym (or_raise_ok _ _ found) ∙ known) in
            let unused_key : existing ≡ none =
              sym (ok_eq keyed)
              ∙ ap (λ x. first_where (has_key x.id h.idempotency_key) db.transfers) same
              ∙ unkeyed in
            subst
              (λ x.
                (x.governance_version ≡ h.expected_version)
                × (h.new_advisor.id ≡ x.advisor → ⊥)
                × IsHanded now actor x h db db')
              same
              (
                ground arith,
                (λ e. ground arith),
                finished-IsHanded now actor q h db db' owned (
                    hand_over_run now actor q h db db' t
                      (subst (λ o. hand_over now actor q h o db ≡ (ok t, db')) unused_key h7)),
              )

-- The call ends with an exception, and changes nothing.
abbrev pub IsRefused : ℕ → User → ℕ → Handover → Database → Type 0
IsRefused now actor project h db =
    (e : Error) × (transfer_ownership now actor project h db ≡ (err e, db))

stale-IsRefused :
    (later : ℕ) (actor' : User) (p : ResearchProject) (h : Handover) (db' : Database)
    (q : ResearchProject)
    → find (λ r. r.id) p.id db'.projects ≡ some q
    → (q.governance_version == h.expected_version) ≡ false
    → IsRefused later actor' p.id h db'
unfolding transfer_ownership
stale-IsRefused later actor' p h db' q at stale = elim (Bool-cases (may_transfer actor' q db')) [
  | inl may ↦ (
    Error.validation Reason.stale_project,
    atomic-raises db' _ (
        check-finds db' _ _ (or_raise-finds _ at)
        ∙ check-finds db' _ _ (ap (λ c. if c then ok tt else err Error.permission_denied) may)
        ∙ raise_if-raises db' _ _ _ (ap not stale)),
  )
  | inr may_not ↦ (
    Error.permission_denied,
    atomic-raises db' _ (
        check-finds db' _ _ (or_raise-finds _ at)
        ∙ check-raises db' _ _
            (ap (λ c. if c then ok tt else err Error.permission_denied) may_not)),
  )
]

-- Where every project has its owner's live membership, a second call of a transfer that succeeded with
-- a key that no transfer of the project had, with the same arguments and key, by anyone and at any
-- time, is refused and changes nothing, as the project's governance version is looked at before the
-- key is.
pub transfer_ownership-retry :
    (now later : ℕ) (actor actor' : User) (p : ResearchProject) (h : Handover) (db db' : Database)
    (t : ProjectOwnershipTransfer)
    → IsOwned db
    → find (λ r. r.id) p.id db.projects ≡ some p
    → first_where (has_key p.id h.idempotency_key) db.transfers ≡ none
    → transfer_ownership now actor p.id h db ≡ (ok t, db')
    → IsRefused later actor' p.id h db'
transfer_ownership-retry now later actor actor' p h db db' t owned known unkeyed run =
    let (
      version,
      different,
      ((p', stored, owner, state, reason, next, status, whose), others, more),
    ) =
      transfer_ownership_ok now actor p h db db' t owned known unkeyed run in
    stale-IsRefused later actor' p h db' p' stored (moved_on p' version next)
  where
    moved_on :
        (p' : ResearchProject)
        → p.governance_version ≡ h.expected_version
        → p'.governance_version ≡ suc p.governance_version
        → (p'.governance_version == h.expected_version) ≡ false
    moved_on p' same next = ground arith
