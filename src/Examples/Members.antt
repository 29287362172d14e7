-- ===== src/Examples/Members.antt =====
-- Members of a project at concrete states (backend/src/api/services/project-service.js).
use hook_tracker.Prelude.{ℕ, ◌<◌, ◌≡◌, refl, [], ◌∷◌, none, arith}
use hook_tracker.Authorization.{owner}
use hook_tracker.Sessions.{Accounts, MembershipRow}
use hook_tracker.Members.{owners, check_removal, delete_membership, remove_member}
use hook_tracker.Members.LastOwner.{remove_member-owners, remove_both}

abbrev owner_row : ℕ → MembershipRow
owner_row user_id = record { user_id = user_id; project_id = 3; role = owner }

abbrev two_owners : Accounts
two_owners = record {
  users = [];
  projects = [];
  memberships = owner_row 1 ∷ owner_row 2 ∷ [];
  tokens = [];
}

remove_member-owners_example : 0 < owners 3 (remove_member 3 1 two_owners).1.memberships
unfolding owners
remove_member-owners_example =
    remove_member-owners 3 1 3 two_owners (refl, (refl, tt)) (omega arith)

remove_both_example :
    (check_removal 3 1 two_owners ≡ none)
    × (check_removal 3 2 two_owners ≡ none)
    × (owners 3 (delete_membership 3 2 (delete_membership 3 1 two_owners)).memberships ≡ 0)
unfolding owners
remove_both_example =
    remove_both 3 1 2 two_owners (owner_row 1) (owner_row 2) (refl, (refl, tt)) (λ h. ground arith)
      refl refl refl refl refl
