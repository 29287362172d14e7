-- ===== src/Pages.antt =====
-- backend/src/api/services/keyset.js and the lists of deliveries that it pages through
-- (backend/src/api/services/delivery-service.js). A cursor is the position that its text encodes.
pub mod Walk
use hook_tracker.Prelude.{
  ℕ, suc, zero, Bool, true, false, ◌&&◌, ◌||◌, List, [], ◌∷◌, ◌++◌, Option, none, some, keep, take,
  length, ltb, ◌==◌, if◌then◌else◌, get_last?,
}

-- What `orderBy` and the cursors look at.
pub record Position : Type 0 where
  pub created_at : ℕ
  pub id : ℕ

abbrev pub older_than : Position → Position → Bool
older_than c p = ltb p.created_at c.created_at || (p.created_at == c.created_at && ltb p.id c.id)

pub record Page : Type 0 where
  pub rows : List Position
  pub next_cursor : Option Position

unfoldable pub paginate : List Position → ℕ → Page
paginate rows limit =
    if ltb limit (length rows)
    then record { rows = take limit rows; next_cursor = get_last? (take limit rows) }
    else record { rows = rows; next_cursor = none }

abbrev pub after_cursor : Option Position → List Position → List Position
after_cursor none rows = rows
after_cursor (some c) rows = keep (older_than c) rows

-- The rows of the table that match, newest first.
unfoldable pub list_page : List Position → Option Position → ℕ → Page
unfolding paginate
list_page rows cursor limit = paginate (take (suc limit) (after_cursor cursor rows)) limit
