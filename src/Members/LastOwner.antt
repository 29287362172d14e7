-- ===== src/Members/LastOwner.antt =====
-- The last owner of a project (backend/src/api/services/project-service.js).
use hook_tracker.Prelude.{
  ℕ, ◌+◌, ◌<◌, ◌≡◌, ◌≢◌, refl, subst, true, false, ◌&&◌, List, [], ◌∷◌, Option, none, some, find,
  any, ◌==◌, if◌then◌else◌, arith, Bool-cases, find-some, ◌∙◌, inl, inr,
}
use hook_tracker.Authorization.{is_owner}
use hook_tracker.Sessions.{Accounts, MembershipRow}
use hook_tracker.Members.{
  is_row, owns, owners, without, removable, check_removal, delete_membership, remove_member,
  delete_unless,
}

-- The primary key: no two rows are of the same user and project.
abbrev pub IsKeyed : List MembershipRow → Type 0
IsKeyed [] = Unit
IsKeyed (m ∷ rows) = (any (is_row m.user_id m.project_id) rows ≡ false) × IsKeyed rows

without-absent :
    (u p : ℕ) (rows : List MembershipRow) → any (is_row u p) rows ≡ false → without u p rows ≡ rows
unfolding without
without-absent u p [] h = refl
without-absent u p (m ∷ rows) h = ground (arith, without-absent u p rows)

some-injective : (m n : MembershipRow) → some m ≡ some n → m ≡ n
some-injective m n h = cc

owners_head :
    (q : ℕ) (n : MembershipRow) (rows kept : List MembershipRow)
    → kept ≡ rows
    → owners q kept + (if owns q n then 1 else 0) ≡ owners q (n ∷ rows)
unfolding owners
owners_head q n rows kept h = rw h (ground arith)

-- The row that is found is the only one that goes.
owners-without :
    (u p q : ℕ) (rows : List MembershipRow) (m : MembershipRow)
    → IsKeyed rows
    → find (is_row u p) rows ≡ some m
    → owners q (without u p rows) + (if owns q m then 1 else 0) ≡ owners q rows
unfolding without owners
owners-without u p q [] m k h = cc
owners-without u p q (n ∷ rows) m k h = elim (Bool-cases (is_row u p n)) [
  | inl e ↦
      let same_user : n.user_id ≡ u = ground arith in
      let same_project : n.project_id ≡ p = ground arith in
      let absent : any (is_row u p) rows ≡ false =
        subst (λ x. any (is_row x p) rows ≡ false) same_user
          (subst (λ y. any (is_row n.user_id y) rows ≡ false) same_project k.0) in
      let found : n ≡ m = some-injective n m (rw e at h) in
      rw (e, ← found) (owners_head q n rows (without u p rows) (without-absent u p rows absent))
  | inr e ↦ let rest = owners-without u p q rows m k.1 (rw e at h) in rw e (ground (arith, rest))
]

find_row-IsRow :
    (u p : ℕ) (rows : List MembershipRow) (m : MembershipRow)
    → find (is_row u p) rows ≡ some m
    → m.project_id ≡ p
find_row-IsRow u p rows m h =
    let e : is_row u p m ≡ true = find-some (is_row u p) rows m h in ground arith

-- Taking away one of the owners of `q` that are more than one, or none of them.
owners_left :
    (p q before after : ℕ) (m : MembershipRow)
    → after + (if owns q m then 1 else 0) ≡ before
    → m.project_id ≡ p
    → (p ≡ q → (is_owner m.role && before == 1) ≡ false)
    → 0 < before
    → 0 < after
owners_left p q before after m sum same more some_left = elim (Bool-cases (owns q m)) [
  | inl e ↦ let here : p ≡ q = ground arith in let several = more here in ground arith
  | inr e ↦ ground arith
]

removed-owners :
    (p u q : ℕ) (s : Accounts) (o : Option MembershipRow)
    → IsKeyed s.memberships
    → find (is_row u p) s.memberships ≡ o
    → 0 < owners q s.memberships
    → 0 < owners q (delete_unless (removable p s.memberships o) p u s).1.memberships
unfolding delete_unless delete_membership
removed-owners p u q s none k h n = n
removed-owners p u q s (some m) k h n =
    elim (Bool-cases (is_owner m.role && owners p s.memberships == 1)) [
      | inl e ↦ rw e n
      | inr e ↦ rw e (
          owners_left p q (owners q s.memberships) (owners q (without u p s.memberships)) m
            (owners-without u p q s.memberships m k h) (find_row-IsRow u p s.memberships m h)
            (λ same. subst (λ x. (is_owner m.role && owners x s.memberships == 1) ≡ false) same e)
            n)
    ]

-- A removal that no other request interrupts leaves no project without an owner that had one.
pub remove_member-owners :
    (p u q : ℕ) (s : Accounts)
    → IsKeyed s.memberships
    → 0 < owners q s.memberships
    → 0 < owners q (remove_member p u s).1.memberships
unfolding remove_member check_removal
remove_member-owners p u q s k n = removed-owners p u q s (find (is_row u p) s.memberships) k refl n

find-without :
    (u v p : ℕ) (rows : List MembershipRow)
    → u ≢ v
    → find (is_row v p) (without u p rows) ≡ find (is_row v p) rows
unfolding without
find-without u v p [] other = refl
find-without u v p (m ∷ rows) other = ground (arith, find-without u v p rows other)

any-without :
    (j i u p : ℕ) (rows : List MembershipRow)
    → any (is_row j i) rows ≡ false
    → any (is_row j i) (without u p rows) ≡ false
unfolding without
any-without j i u p [] h = refl
any-without j i u p (m ∷ rows) h = ground (arith, any-without j i u p rows)

without-IsKeyed : (u p : ℕ) (rows : List MembershipRow) → IsKeyed rows → IsKeyed (without u p rows)
unfolding without
without-IsKeyed u p [] k = tt
without-IsKeyed u p (m ∷ rows) k = elim (Bool-cases (is_row u p m)) [
  | inl e ↦ rw e (without-IsKeyed u p rows k.1)
  | inr e ↦ rw e (any-without m.user_id m.project_id u p rows k.0, without-IsKeyed u p rows k.1)
]

-- Two owners who remove each other at the same time: if both checks run before either delete, both
-- pass, and the project is left without an owner.
pub remove_both :
    (p u v : ℕ) (s : Accounts) (m n : MembershipRow)
    → IsKeyed s.memberships
    → u ≢ v
    → find (is_row u p) s.memberships ≡ some m
    → find (is_row v p) s.memberships ≡ some n
    → owns p m ≡ true
    → owns p n ≡ true
    → owners p s.memberships ≡ 2
    → (check_removal p u s ≡ none)
      × (check_removal p v s ≡ none)
      × (owners p (delete_membership p v (delete_membership p u s)).memberships ≡ 0)
unfolding check_removal delete_membership
remove_both p u v s m n k other fm fn om on two =
    let one = owners-without u p p s.memberships m k fm in
    let zero_left =
      owners-without v p p (without u p s.memberships) n (without-IsKeyed u p s.memberships k)
        (find-without u v p s.memberships other ∙ fn) in
    (rw (fm, two) (ground arith), rw (fn, two) (ground arith), ground arith)
