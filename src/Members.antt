-- ===== src/Members.antt =====
-- The members of a project in backend/src/api/services/project-service.js, over the tables of
-- Sessions.antt. `removeMember` reads, counts and deletes in statements of their own, so it is a
-- check and a delete, between which other requests may run.
pub mod LastOwner
use hook_tracker.Prelude.{
  ℕ, Bool, true, false, not, ◌&&◌, List, [], ◌∷◌, ◌++◌, Option, none, some, find, keep, length,
  is_some, ◌==◌, if◌then◌else◌,
}
use hook_tracker.World.{Error, conflict, unprocessable, no_such_member}
use hook_tracker.Authorization.{Role, owner, is_owner}
use hook_tracker.Sessions.{Accounts, MembershipRow, User, Answer, granted, refused, user_of}

-- `userId_projectId`, the primary key.
abbrev pub is_row : ℕ → ℕ → MembershipRow → Bool
is_row user_id project_id m = m.user_id == user_id && m.project_id == project_id

abbrev pub owns : ℕ → MembershipRow → Bool
owns project_id m = m.project_id == project_id && is_owner m.role

unfoldable pub owners : ℕ → List MembershipRow → ℕ
owners project_id rows = length (keep (owns project_id) rows)

abbrev pub with_memberships : List MembershipRow → Accounts → Accounts
with_memberships rows s = record s { memberships = rows }

unfoldable pub without : ℕ → ℕ → List MembershipRow → List MembershipRow
without user_id project_id rows = keep (λ m. not (is_row user_id project_id m)) rows

abbrev pub removable : ℕ → List MembershipRow → Option MembershipRow → Option Error
removable project_id rows none = some no_such_member
removable project_id rows (some m) =
    if is_owner m.role && owners project_id rows == 1 then some conflict else none

-- What `removeMember` throws before the delete, if anything.
unfoldable pub check_removal : ℕ → ℕ → Accounts → Option Error
unfolding owners
check_removal project_id user_id s =
    removable project_id s.memberships (find (is_row user_id project_id) s.memberships)

unfoldable pub delete_membership : ℕ → ℕ → Accounts → Accounts
unfolding without
delete_membership project_id user_id s =
    with_memberships (without user_id project_id s.memberships) s

delete_unless : Option Error → ℕ → ℕ → Accounts → Option Error × Accounts
unfolding delete_membership
delete_unless (some e) project_id user_id s = (some e, s)
delete_unless none project_id user_id s = (none, delete_membership project_id user_id s)

-- With no other request in between.
unfoldable pub remove_member : ℕ → ℕ → Accounts → Option Error × Accounts
unfolding delete_unless check_removal
remove_member project_id user_id s =
    delete_unless (check_removal project_id user_id s) project_id user_id s

add_user : ℕ → Role → Option (ℕ × User) → Accounts → Answer MembershipRow × Accounts
add_user project_id role none s = (refused unprocessable, s)
add_user project_id role (some (user_id, u)) s =
    if is_some (find (is_row user_id project_id) s.memberships)
    then (refused conflict, s)
    else (let row : MembershipRow = record {
      user_id = user_id;
      project_id = project_id;
      role = role;
    } in
        (granted row, with_memberships (s.memberships ++ row ∷ []) s))

unfoldable pub add_member : ℕ → List ℕ → Role → Accounts → Answer MembershipRow × Accounts
unfolding add_user
add_member project_id email role s = add_user project_id role (user_of email s) s

-- The project and its owner are one transaction.
unfoldable pub create_project : ℕ → List ℕ → ℕ → Accounts → Accounts
create_project user_id name project_id s = record s {
  projects = s.projects ++ (project_id, name) ∷ [];
  memberships =
      s.memberships ++ record { user_id = user_id; project_id = project_id; role = owner } ∷ [];
}
