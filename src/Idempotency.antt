-- ===== src/Idempotency.antt =====
-- backend/src/api/middleware/idempotency.js: one publish per key. A key stands for the text
-- `idem:<project>:<hash>`. Redis drops an entry when its time to live is over, which is a step
-- of its own here.
pub mod Once
use hook_tracker.Prelude.{
  ℕ, Bool, true, false, not, ◌&&◌, ◌||◌, List, [], ◌∷◌, Option, none, some, keep, leb, ◌==◌,
  if◌then◌else◌,
}
use hook_tracker.Store.{Table, find_row}

pub record Response : Type 0 where
  pub status : ℕ
  pub body : ℕ

pub data Entry : Type 0 where
  reserved : Entry
  stored : Response → Entry

-- What the middleware does with a request: it goes on to the publish, or it is answered.
pub data Verdict : Type 0 where
  goes_on in_flight : Verdict
  replayed : Response → Verdict

unfoldable pub delete_key : ℕ → Table Entry → Table Entry
delete_key key entries = keep (λ r. not (r.0 == key)) entries

unfoldable pub set_key : ℕ → Entry → Table Entry → Table Entry
unfolding delete_key
set_key key entry entries = (key, entry) ∷ delete_key key entries

-- `SET … NX`, then `GET` where the key was there; an entry that ran out in between reads as a
-- missing one.
abbrev pub on_entry : ℕ → Option Entry → Table Entry → Verdict × Table Entry
on_entry key none entries = (goes_on, (key, reserved) ∷ entries)
on_entry key (some reserved) entries = (in_flight, entries)
on_entry key (some (stored response)) entries = (replayed response, entries)

unfoldable pub reserve : ℕ → Table Entry → Verdict × Table Entry
reserve key entries = on_entry key (find_row key entries) entries

-- `req.idempotency.store`
unfoldable pub store : ℕ → Response → Table Entry → Table Entry
unfolding set_key
store key response entries = set_key key (stored response) entries

-- On `finish`: a request that failed and stored nothing gives the key back.
unfoldable pub finish : ℕ → Bool → ℕ → Table Entry → Table Entry
unfolding delete_key
finish key was_stored status entries =
    if was_stored || not (leb 400 status) then entries else delete_key key entries
