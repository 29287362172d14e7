-- ===== src/Idempotency/Once.antt =====
-- A key lets one request through (backend/src/api/middleware/idempotency.js).
use hook_tracker.Prelude.{
  ℕ, ◌≡◌, ◌≢◌, refl, Bool, true, false, not, ◌&&◌, ◌||◌, List, [], ◌∷◌, none, some, is_some, leb,
  ◌==◌, ==_refl, ==_iff, if◌then◌else◌, arith, All,
}
use hook_tracker.Store.{Table, find_row}
use hook_tracker.Idempotency.{
  Response, Entry, stored, goes_on, replayed, delete_key, set_key, reserve, store, finish,
}

-- What the requests of all keys do, in any order.
pub data Operation : Type 0 where
  reserving : ℕ → Operation
  storing : ℕ → Response → Operation
  finishing : ℕ → Bool → ℕ → Operation
  expiring : ℕ → Operation

abbrev pub apply : Operation → Table Entry → Table Entry
apply (reserving key) entries = (reserve key entries).1
apply (storing key response) entries = store key response entries
apply (finishing key was_stored status) entries = finish key was_stored status entries
apply (expiring key) entries = delete_key key entries

abbrev pub run : List Operation → Table Entry → Table Entry
run [] entries = entries
run (op ∷ ops) entries = run ops (apply op entries)

-- It may take the key away: a failed request that stored nothing, or the time to live.
abbrev pub frees : ℕ → Operation → Bool
frees key (reserving other) = false
frees key (storing other response) = false
frees key (finishing other was_stored status) =
    other == key && not (was_stored || not (leb 400 status))
frees key (expiring other) = other == key

find_row-delete_key :
    (key other : ℕ) (entries : Table Entry)
    → find_row key (delete_key other entries)
      ≡ (if other == key then none else find_row key entries)
unfolding find_row delete_key
find_row-delete_key key other [] = ground arith
find_row-delete_key key other ((j, e) ∷ entries) =
    ground (arith, find_row-delete_key key other entries)

abbrev IsTaken : ℕ → Table Entry → Type 0
IsTaken key entries = is_some (find_row key entries) ≡ true

apply-IsTaken :
    (key : ℕ) (op : Operation) (entries : Table Entry)
    → frees key op ≡ false
    → IsTaken key entries
    → IsTaken key (apply op entries)
unfolding reserve store set_key finish find_row
apply-IsTaken key (reserving other) entries f h = ground arith
apply-IsTaken key (storing other response) entries f h =
    ground (arith, find_row-delete_key key other entries)
apply-IsTaken key (finishing other was_stored status) entries f h =
    ground (arith, find_row-delete_key key other entries)
apply-IsTaken key (expiring other) entries f h =
    ground (arith, find_row-delete_key key other entries)

run-IsTaken :
    (key : ℕ) (ops : List Operation) (entries : Table Entry)
    → All (λ op. frees key op ≡ false) ops
    → IsTaken key entries
    → IsTaken key (run ops entries)
run-IsTaken key [] entries f h = h
run-IsTaken key (op ∷ ops) entries f h =
    run-IsTaken key ops (apply op entries) f.1 (apply-IsTaken key op entries f.0 h)

reserve-IsTaken : (key : ℕ) (entries : Table Entry) → IsTaken key (reserve key entries).1
unfolding reserve find_row
reserve-IsTaken key entries = ground (arith, ==_refl key)

taken-reserve :
    (key : ℕ) (entries : Table Entry) → IsTaken key entries → (reserve key entries).0 ≢ goes_on
unfolding reserve
taken-reserve key entries h = λ g. ground arith

-- After a request of a key was seen, none of the key goes on to the publish, whatever requests of
-- any key reserve, store and finish in between, unless the key's time to live runs out or a
-- request of it fails without having stored a response.
pub reserve-once :
    (key : ℕ) (entries : Table Entry) (ops : List Operation)
    → All (λ op. frees key op ≡ false) ops
    → (reserve key (run ops (reserve key entries).1)).0 ≢ goes_on
reserve-once key entries ops kept =
    taken-reserve key _
      (run-IsTaken key ops (reserve key entries).1 kept (reserve-IsTaken key entries))

-- It takes the key away or stores another response under it.
abbrev pub changes : ℕ → Operation → Bool
changes key (storing other response) = other == key
changes key op = frees key op

abbrev HasResponse : ℕ → Response → Table Entry → Type 0
HasResponse key response entries = find_row key entries ≡ some (stored response)

apply-HasResponse :
    (key : ℕ) (response : Response) (op : Operation) (entries : Table Entry)
    → changes key op ≡ false
    → HasResponse key response entries
    → HasResponse key response (apply op entries)
unfolding reserve store set_key finish find_row
apply-HasResponse key response (reserving other) entries f h = ground (arith, ==_iff other key)
apply-HasResponse key response (storing other r) entries f h =
    ground (arith, find_row-delete_key key other entries)
apply-HasResponse key response (finishing other was_stored status) entries f h =
    ground (arith, find_row-delete_key key other entries)
apply-HasResponse key response (expiring other) entries f h =
    ground (arith, find_row-delete_key key other entries)

run-HasResponse :
    (key : ℕ) (response : Response) (ops : List Operation) (entries : Table Entry)
    → All (λ op. changes key op ≡ false) ops
    → HasResponse key response entries
    → HasResponse key response (run ops entries)
run-HasResponse key response [] entries f h = h
run-HasResponse key response (op ∷ ops) entries f h =
    run-HasResponse key response ops (apply op entries) f.1
      (apply-HasResponse key response op entries f.0 h)

store-HasResponse :
    (key : ℕ) (response : Response) (entries : Table Entry)
    → HasResponse key response (store key response entries)
unfolding store set_key find_row
store-HasResponse key response entries = ground (arith, ==_refl key)

found-replayed :
    (key : ℕ) (response : Response) (entries : Table Entry)
    → HasResponse key response entries
    → reserve key entries ≡ (replayed response, entries)
unfolding reserve
found-replayed key response entries h = rw h refl

-- After a response was stored under a key, a request of the key is answered with that very
-- response and changes nothing, whatever happens to other keys and as long as the key's time to
-- live has not run out and nothing else is stored under it.
pub reserve-replays :
    (key : ℕ) (response : Response) (entries : Table Entry) (ops : List Operation)
    → All (λ op. changes key op ≡ false) ops
    → reserve key (run ops (store key response entries))
      ≡ (replayed response, run ops (store key response entries))
reserve-replays key response entries ops kept = found-replayed key response _ (
    run-HasResponse key response ops (store key response entries) kept
      (store-HasResponse key response entries))
