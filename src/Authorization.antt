-- ===== src/Authorization.antt =====
-- backend/src/api/authorization.js: who may do what in a project.
use hook_tracker.Prelude.{
  ℕ, Bool, true, false, ◌&&◌, not, List, Option, none, some, find, ◌==◌, if◌then◌else◌, ◌≡◌, ◌⊎◌,
  inl, inr, arith, refl, find-some, ==_iff,
}
use hook_tracker.World.{no_such_project, forbidden, Error}

pub data Role : Type 0 where
  owner member : Role

pub record Membership : Type 0 where
  pub project_id : ℕ
  pub role : Role

abbrev pub is_owner : Role → Bool
is_owner owner = true
is_owner member = false

unfoldable pub membership_for : List Membership → ℕ → Option Membership
membership_for memberships project_id = find (λ m. m.project_id == project_id) memberships

-- `none` passes; an error is what is thrown.
abbrev pub refusal : Role → Option Membership → Option Error
refusal role none = some no_such_project
refusal role (some m) = if is_owner role && not (is_owner m.role) then some forbidden else none

unfoldable pub assert_membership : List Membership → ℕ → Role → Option Error
unfolding membership_for
assert_membership memberships project_id role = refusal role (membership_for memberships project_id)

role_cases :
    (asked had : Role) → ((asked ≡ owner) × (had ≡ member)) ⊎ ((asked ≡ member) ⊎ (had ≡ owner))
role_cases owner owner = inr (inr refl)
role_cases owner member = inl (refl, refl)
role_cases member had = inr (inl refl)

refusal_cases :
    (ms : List Membership) (project_id : ℕ) (role : Role) (o : Option Membership)
    → find (λ m. m.project_id == project_id) ms ≡ o
    → ((refusal role o ≡ some no_such_project) × (o ≡ none))
      ⊎ ((refusal role o ≡ some forbidden) × (role ≡ owner))
      ⊎ ((refusal role o ≡ none)
          × ((m : Membership) × (o ≡ some m)
              × (m.project_id ≡ project_id)
              × ((role ≡ member) ⊎ (m.role ≡ owner))))
refusal_cases ms project_id role none e = inl (refl, refl)
refusal_cases ms project_id role (some m) e =
    let same : m.project_id ≡ project_id =
      (==_iff m.project_id project_id).0 (find-some (λ m. m.project_id == project_id) ms m e) in
    elim (role_cases role m.role) [
      | inl (a, b) ↦ inr (inl (rw a (ground arith), a))
      | inr h ↦ inr (inr (ground arith, (m, refl, same, h)))
    ]

-- Exactly one of three things: the caller has no membership of the project and is told that there
-- is no such project; or is a member where an owner is asked for, and is forbidden; or passes, as a
-- member of this project who is an owner if an owner is asked for.
pub assert_membership_cases :
    (ms : List Membership) (project_id : ℕ) (role : Role)
    → ((assert_membership ms project_id role ≡ some no_such_project)
        × (membership_for ms project_id ≡ none))
      ⊎ ((assert_membership ms project_id role ≡ some forbidden) × (role ≡ owner))
      ⊎ ((assert_membership ms project_id role ≡ none)
          × ((m : Membership) × (membership_for ms project_id ≡ some m)
              × (m.project_id ≡ project_id)
              × ((role ≡ member) ⊎ (m.role ≡ owner))))
unfolding assert_membership membership_for
assert_membership_cases ms project_id role =
    refusal_cases ms project_id role (find (λ m. m.project_id == project_id) ms) refl
