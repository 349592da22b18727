-- ===== src/Projects/Tests/Members.antt =====
-- What the members of the project may do.
use grad_sync.Prelude.{◌≡◌, refl, false, [], ◌∷◌}
use grad_sync.Projects.Access.{project_capabilities}
use grad_sync.Projects.Access.Rules.{may_write, project_capabilities-held}
use grad_sync.Projects.Tests.{lead, held_thesis, lead_membership}

project_capabilities-held_example :
    may_write (project_capabilities lead held_thesis (lead_membership ∷ [])) ≡ false
project_capabilities-held_example =
    project_capabilities-held lead held_thesis (lead_membership ∷ []) refl
