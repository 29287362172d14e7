-- ===== src/Store/Rows.antt =====
-- A table: rows under their primary keys.
use hook_tracker.Prelude.{
  ℕ, ◌≡◌, refl, List, [], ◌∷◌, ◌++◌, Option, none, some, ◌==◌, if◌then◌else◌, arith, is_some,
}
use mathlib.Core.Option

abbrev pub Table : Type 0 → Type 0
Table A = List (ℕ × A)

module _ {A : Type 0} where
  unfoldable pub find_row : ℕ → Table A → Option A
  find_row k [] = none
  find_row k ((j, a) ∷ t) = if j == k then some a else find_row k t

  -- `update … where: { id }`.
  unfoldable pub modify : ℕ → (A → A) → Table A → Table A
  modify k f [] = []
  modify k f ((j, a) ∷ t) = (if j == k then (j, f a) else (j, a)) ∷ modify k f t

  pub find_row-modify :
      (k j : ℕ) (f : A → A) (t : Table A)
      → find_row j (modify k f t) ≡ (if k == j then Option.map f (find_row j t) else find_row j t)
  unfolding find_row modify
  find_row-modify k j f [] = ground arith
  find_row-modify k j f ((i, a) ∷ t) = ground (arith, find_row-modify k j f t)

  pub find_row-append :
      (k : ℕ) (s t : Table A)
      → find_row k (s ++ t) ≡ (if is_some (find_row k s) then find_row k s else find_row k t)
  unfolding find_row
  find_row-append k [] t = refl
  find_row-append k ((i, a) ∷ s) t = ground (arith, find_row-append k s t)
