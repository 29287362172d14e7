-- ===== src/Pages/Walk.antt =====
-- A caller who follows the cursors sees every row once (backend/src/api/services/keyset.js).
use hook_tracker.Prelude.{
  ℕ, suc, zero, ◌+◌, ◌≤◌, ◌<◌, ◌≡◌, refl, sym, ap, subst, ◌∙◌, true, false, List, [], ◌∷◌, ◌++◌,
  append_assoc, append-nil, Option, none, some, keep, take, length, ltb, get_last?, arith, All,
  Bool-cases, inl, inr, ◌⊎◌,
}
use hook_tracker.Pages.{Position, older_than, paginate, after_cursor, list_page}

-- `orderBy: [{ createdAt: 'desc' }, { id: 'desc' }]`: one row stands before another.
abbrev pub IsBefore : Position → Position → Type 0
IsBefore p q = (q.created_at < p.created_at) ⊎ ((q.created_at ≡ p.created_at) × (q.id < p.id))

-- Newest first, and no two rows in one place.
abbrev pub IsOrdered : List Position → Type 0
IsOrdered [] = Unit
IsOrdered (p ∷ rows) = All (IsBefore p) rows × IsOrdered rows

-- The same by the test of the cursors.
abbrev IsDescending : List Position → Type 0
IsDescending [] = Unit
IsDescending (p ∷ rows) = All (λ q. older_than p q ≡ true) rows × IsDescending rows

IsBefore-older_than : (p q : Position) → IsBefore p q → older_than p q ≡ true
IsBefore-older_than p q h = ground arith

All-IsBefore :
    (p : Position) (rows : List Position)
    → All (IsBefore p) rows
    → All (λ q. older_than p q ≡ true) rows
All-IsBefore p [] h = tt
All-IsBefore p (q ∷ rows) (before, h) = (IsBefore-older_than p q before, All-IsBefore p rows h)

IsOrdered-IsDescending : (rows : List Position) → IsOrdered rows → IsDescending rows
IsOrdered-IsDescending [] h = tt
IsOrdered-IsDescending (p ∷ rows) (before, h) =
    (All-IsBefore p rows before, IsOrdered-IsDescending rows h)

older_than-asymmetric : (p q : Position) → older_than p q ≡ true → older_than q p ≡ false
older_than-asymmetric p q h = ground arith

keep-older :
    (c : Position) (rows : List Position)
    → All (λ q. older_than c q ≡ true) rows
    → keep (older_than c) rows ≡ rows
keep-older c [] h = refl
keep-older c (p ∷ rows) h = rw h.0 (ap (◌∷◌ p) (keep-older c rows h.1))

after_last :
    (front : List Position) (last : Position) (rest : List Position)
    → IsDescending (front ++ last ∷ rest)
    → keep (older_than last) (front ++ last ∷ rest) ≡ rest
after_last [] last rest h =
    let own : older_than last last ≡ false = ground arith in rw own (keep-older last rest h.0)
after_last (p ∷ front) last rest h =
    rw (older_than-asymmetric p last (All-middle front last rest h.0))
      (after_last front last rest h.1)
  where
    All-middle :
        (front : List Position) (last : Position) (rest : List Position)
        → All (λ q. older_than p q ≡ true) (front ++ last ∷ rest)
        → older_than p last ≡ true
    All-middle [] last rest k = k.0
    All-middle (q ∷ front) last rest k = All-middle front last rest k.1

abbrev drop : ℕ → List Position → List Position
drop zero rows = rows
drop (suc n) [] = []
drop (suc n) (p ∷ rows) = drop n rows

-- The first rows up to the last of them, which is the cursor.
record Split (n : ℕ) (rows : List Position) : Type 0 where
  front : List Position
  last : Position
  whole : rows ≡ front ++ last ∷ drop n rows
  cursor : get_last? (take n rows) ≡ some last

Split-at : (n : ℕ) (rows : List Position) → 0 < n → n ≤ length rows → Split n rows
Split-at zero rows pos le = let bad : ⊥ = omega (arith, pos) in elim bad [ ]
Split-at (suc n) [] pos le = let bad : ⊥ = omega (arith, le) in elim bad [ ]
Split-at (suc zero) (p ∷ rows) pos le = record { front = []; last = p; whole = refl; cursor = refl }
Split-at (suc (suc n)) (p ∷ []) pos le = let bad : ⊥ = omega (arith, le) in elim bad [ ]
Split-at (suc (suc n)) (p ∷ q ∷ rows) pos le =
    let s = Split-at (suc n) (q ∷ rows) (omega arith) (omega (arith, le)) in
    record { front = p ∷ s.front; last = s.last; whole = ap (◌∷◌ p) s.whole; cursor = s.cursor }

take_all : (n : ℕ) (rows : List Position) → length rows ≤ n → take n rows ≡ rows
take_all zero [] le = refl
take_all zero (p ∷ rows) le = let bad : ⊥ = omega (arith, le) in elim bad [ ]
take_all (suc n) [] le = refl
take_all (suc n) (p ∷ rows) le = ap (◌∷◌ p) (take_all n rows (omega (arith, le)))

take-take : (n : ℕ) (rows : List Position) → take n (take (suc n) rows) ≡ take n rows
take-take zero rows = refl
take-take (suc n) [] = refl
take-take (suc n) (p ∷ rows) = ap (◌∷◌ p) (take-take n rows)

take_one_more :
    (n : ℕ) (rows : List Position) → n < length rows → length (take (suc n) rows) ≡ suc n
take_one_more zero [] lt = let bad : ⊥ = omega (arith, lt) in elim bad [ ]
take_one_more zero (p ∷ rows) lt = refl
take_one_more (suc n) [] lt = let bad : ⊥ = omega (arith, lt) in elim bad [ ]
take_one_more (suc n) (p ∷ rows) lt = ap suc (take_one_more n rows (omega (arith, lt)))

take-drop : (n : ℕ) (rows : List Position) → take n rows ++ drop n rows ≡ rows
take-drop zero rows = refl
take-drop (suc n) [] = refl
take-drop (suc n) (p ∷ rows) = ap (◌∷◌ p) (take-drop n rows)

length-drop :
    (n : ℕ) (rows : List Position) → n ≤ length rows → length (drop n rows) + n ≡ length rows
length-drop zero rows le = omega arith
length-drop (suc n) [] le = let bad : ⊥ = omega (arith, le) in elim bad [ ]
length-drop (suc n) (p ∷ rows) le = omega (arith, length-drop n rows (omega (arith, le)))

-- The requests that a caller makes: the first page, and then one for each cursor.
unfoldable pub walk : ℕ → List Position → Option Position → ℕ → List Position
walk zero rows cursor limit = []
walk (suc fuel) rows cursor limit =
    let page = list_page rows cursor limit in
    page.rows ++ (elim page.next_cursor [ none ↦ [] | some c ↦ walk fuel rows (some c) limit ])

last_page :
    (limit : ℕ) (s : List Position)
    → length s ≤ limit
    → paginate (take (suc limit) s) limit ≡ record { rows = s; next_cursor = none }
unfolding paginate
last_page limit s le =
    let short : ltb limit (length s) ≡ false = ground arith in
    rw (take_all (suc limit) s (omega (arith, le)), short) refl

full_page :
    (limit : ℕ) (s : List Position) (last : Position)
    → limit < length s
    → get_last? (take limit s) ≡ some last
    → paginate (take (suc limit) s) limit ≡ record { rows = take limit s; next_cursor = some last }
unfolding paginate
full_page limit s last lt cursor =
    let long : ltb limit (suc limit) ≡ true = ground arith in
    rw (take_one_more limit s lt, long, take-take limit s, cursor) refl

walk_last :
    (fuel limit : ℕ) (rows s : List Position) (cursor : Option Position)
    → after_cursor cursor rows ≡ s
    → length s ≤ limit
    → walk (suc fuel) rows cursor limit ≡ s
unfolding walk list_page
walk_last fuel limit rows s cursor here le = rw (here, last_page limit s le) (append-nil s)

walk_on :
    (fuel limit : ℕ) (rows s : List Position) (cursor : Option Position) (last : Position)
    → after_cursor cursor rows ≡ s
    → limit < length s
    → get_last? (take limit s) ≡ some last
    → walk fuel rows (some last) limit ≡ drop limit s
    → walk (suc fuel) rows cursor limit ≡ s
unfolding walk list_page
walk_on fuel limit rows s cursor last here lt got rest =
    rw (here, full_page limit s last lt got, rest) (take-drop limit s)

walk_nothing :
    (rows : List Position) (cursor : Option Position) (limit : ℕ) → walk 0 rows cursor limit ≡ []
unfolding walk
walk_nothing rows cursor limit = refl

-- What is left after a cursor is walked through, page by page.
walk-rest :
    (fuel limit : ℕ) (before s rows : List Position) (cursor : Option Position)
    → 0 < limit
    → IsDescending rows
    → rows ≡ before ++ s
    → after_cursor cursor rows ≡ s
    → length s ≤ fuel
    → walk fuel rows cursor limit ≡ s
walk-rest zero limit before [] rows cursor pos down split here le = walk_nothing rows cursor limit
walk-rest zero limit before (p ∷ s) rows cursor pos down split here le =
    let bad : ⊥ = omega (arith, le) in elim bad [ ]
walk-rest (suc fuel) limit before s rows cursor pos down split here le =
    elim (Bool-cases (ltb limit (length s))) [
      | inr short ↦ walk_last fuel limit rows s cursor here (ground arith)
      | inl long ↦
          let lt : limit < length s = ground arith in
          let part = Split-at limit s pos (omega (arith, lt)) in
          let placed : rows ≡ (before ++ part.front) ++ part.last ∷ drop limit s =
            split
            ∙ ap (λ x. before ++ x) part.whole
            ∙ sym (append_assoc before part.front (part.last ∷ drop limit s)) in
          let further : keep (older_than part.last) rows ≡ drop limit s = rw placed (
            after_last (before ++ part.front) part.last (drop limit s)
              (subst IsDescending placed down)) in
          walk_on fuel limit rows s cursor part.last here lt part.cursor (
            walk-rest fuel limit ((before ++ part.front) ++ part.last ∷ []) (drop limit s) rows
              (some part.last) pos down
              (placed ∙ sym (append_assoc (before ++ part.front) (part.last ∷ []) (drop limit s)))
              further (omega (arith, length-drop limit s (omega (arith, lt)), le, pos)))
    ]

-- A caller who takes the first page and follows the cursors to the end gets every row exactly
-- once, in the order by time of creation and id, both descending, whatever the size of the pages: ties in the time of creation neither repeat
-- a row nor skip one. As many requests as there are rows are enough.
pub walk-all :
    (fuel limit : ℕ) (rows : List Position)
    → 0 < limit
    → IsOrdered rows
    → length rows ≤ fuel
    → walk fuel rows none limit ≡ rows
walk-all fuel limit rows pos ordered le =
    walk-rest fuel limit [] rows rows none pos (IsOrdered-IsDescending rows ordered) refl refl le
