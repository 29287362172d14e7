-- ===== src/Examples/Pages.antt =====
-- Pages of five rows, two of which were created at the same time
-- (backend/src/api/services/keyset.js).
use hook_tracker.Prelude.{ℕ, ◌≡◌, refl, List, [], ◌∷◌, none, some, arith}
use hook_tracker.Pages.{Position, list_page, paginate}
use hook_tracker.Pages.Walk.{walk, walk-all}

abbrev at_time : ℕ → ℕ → Position
at_time created_at id = record { created_at = created_at; id = id }

abbrev rows : List Position
rows = at_time 9 1 ∷ at_time 8 7 ∷ at_time 8 4 ∷ at_time 8 2 ∷ at_time 3 9 ∷ []

first_page_test : (list_page rows none 2).next_cursor ≡ some (at_time 8 7)
unfolding list_page paginate
first_page_test = refl

second_page_test : (list_page rows (some (at_time 8 7)) 2).rows ≡ at_time 8 4 ∷ at_time 8 2 ∷ []
unfolding list_page paginate
second_page_test = refl

walk-all_example : walk 5 rows none 2 ≡ rows
walk-all_example = walk-all 5 2 rows (omega arith) (omega arith) (omega arith)
