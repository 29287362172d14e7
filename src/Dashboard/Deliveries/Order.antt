-- ===== src/Dashboard/Deliveries/Order.antt =====
-- In which order the answers of the API arrive (dashboard/src/stores/deliveries.js).
use hook_tracker.Prelude.{
  ℕ, suc, ==_refl, inl, inr, ◌<◌, ◌≡◌, sym, subst, none, refl, ap, ◌∙◌, List, [], ◌∷◌, ◌++◌, false,
  ◌==◌, All, arith, some,
}
use hook_tracker.Dashboard.Requests.{is_current, begin, run_of}
use hook_tracker.Dashboard.Deliveries.{
  DeliveryList, Load, More, PageAnswer, success, failure, ItemPage, start_load, settle_load,
  start_more, settle_more, load_answered, more_answered, more_from,
}
use hook_tracker.Dashboard.Deliveries.Reached.{
  Among, SameNumbers, same_numbers, Reached, IsNumbered, Reached-IsNumbered,
}

-- The answers to loads, in the order in which they arrive.
abbrev pub settle_all : List (Load × PageAnswer) → DeliveryList → DeliveryList
settle_all [] s = s
settle_all ((l, a) ∷ ls) s = settle_all ls (settle_load l a s)

-- A load that began before the latest one.
IsOlder : DeliveryList → Load → Type 0
IsOlder s l = (l.run.seq < s.latest) × (l.run.mine < s.list_request.own_seq)

not_current :
    (l : Load) (a : PageAnswer) (s : DeliveryList)
    → is_current l.run s.latest ≡ false
    → (l.run.mine == s.list_request.own_seq) ≡ false
    → settle_load l a s ≡ s
unfolding settle_load load_answered
not_current l a s seq mine = rw (seq, mine) refl

older_settles : (s : DeliveryList) (l : Load) (a : PageAnswer) → IsOlder s l → settle_load l a s ≡ s
unfolding IsOlder
older_settles s l a (seq, mine) = not_current l a s (ground arith) (ground arith)

older_settle :
    (s : DeliveryList) (ls : List (Load × PageAnswer))
    → All (λ x. IsOlder s x.0) ls
    → settle_all ls s ≡ s
older_settle s [] h = refl
older_settle s ((l, a) ∷ ls) (older, h) = rw (older_settles s l a older) (older_settle s ls h)

IsOlder-of :
    (id filters : ℕ) (s : DeliveryList) (ls : List Load) (l : Load)
    → All (IsNumbered s) ls
    → Among l ls
    → IsOlder (start_load id filters s).0 l
unfolding start_load IsOlder
IsOlder-of id filters s [] l h known = elim known [ ]
IsOlder-of id filters s (x ∷ ls) l ((seq, mine), h) (inl same) =
    (omega (arith, seq, ap (λ y. y.run.seq) same), omega (arith, mine, ap (λ y. y.run.mine) same))
IsOlder-of id filters s (x ∷ ls) l (numbers, h) (inr known) = IsOlder-of id filters s ls l h known

All-IsOlder :
    (id filters : ℕ) (s : DeliveryList) (ls : List Load) (answers : List (Load × PageAnswer))
    → All (IsNumbered s) ls
    → All (λ x. Among x.0 ls) answers
    → All (λ x. IsOlder (start_load id filters s).0 x.0) answers
All-IsOlder id filters s ls [] h known = tt
All-IsOlder id filters s ls (x ∷ answers) h (known, rest) =
    (IsOlder-of id filters s ls x.0 h known, All-IsOlder id filters s ls answers h rest)

IsOlder-on :
    (s t : DeliveryList) (answers : List (Load × PageAnswer))
    → SameNumbers s t
    → All (λ x. IsOlder s x.0) answers
    → All (λ x. IsOlder t x.0) answers
unfolding IsOlder
IsOlder-on s t [] n h = tt
IsOlder-on s t (x ∷ answers) n ((seq, mine), h) =
    ((omega (arith, seq, n.0), omega (arith, mine, n.1)), IsOlder-on s t answers n h)

only_latest :
    (l : Load) (a : PageAnswer) (before after : List (Load × PageAnswer)) (s : DeliveryList)
    → All (λ x. IsOlder s x.0) before
    → All (λ x. IsOlder s x.0) after
    → settle_all (before ++ (l, a) ∷ after) s ≡ settle_load l a s
only_latest l a [] after s older_b older_a =
    older_settle (settle_load l a s) after (IsOlder-on s _ after (same_numbers l a s) older_a)
only_latest l a ((x, b) ∷ before) after s (older, older_b) older_a =
    ap (settle_all (before ++ (l, a) ∷ after)) (older_settles s x b older)
    ∙ only_latest l a before after s older_b older_a

-- The store shows an answer: its page, or an empty list with the error.
abbrev pub Shows : PageAnswer → DeliveryList → Type 0
Shows (success body) s =
    (s.items ≡ body.deliveries)
    × (s.next_cursor ≡ body.next_cursor)
    × (s.list_request.error ≡ none)
    × (s.list_request.loading ≡ false)
Shows (failure caught) s =
    (s.items ≡ [])
    × (s.next_cursor ≡ none)
    × (s.list_request.error ≡ some caught)
    × (s.list_request.loading ≡ false)

latest-Shows :
    (id filters : ℕ) (a : PageAnswer) (s : DeliveryList)
    → Shows a (settle_load (start_load id filters s).1 a (start_load id filters s).0)
unfolding start_load settle_load load_answered
latest-Shows id filters (success body) s =
    rw (==_refl (suc s.latest), ==_refl (suc s.list_request.own_seq)) (refl, refl, refl, refl)
latest-Shows id filters (failure caught) s =
    rw (==_refl (suc s.latest), ==_refl (suc s.list_request.own_seq)) (refl, refl, refl, refl)

-- After any calls of the store, realtime events and answers of the API, a load is started. Then
-- its answer and any answers to loads that were started earlier come, in any order, with nothing
-- else in between: the list shows the answer to the latest load, its page or its failure, and is
-- no longer loading.
pub settle_all-latest :
    (id filters : ℕ) (a : PageAnswer) (before after : List (Load × PageAnswer)) {s : DeliveryList}
    {ls : List Load}
    → Reached s ls
    → All (λ x. Among x.0 ls) before
    → All (λ x. Among x.0 ls) after
    → Shows a (
        settle_all (before ++ ((start_load id filters s).1, a) ∷ after) (start_load id filters s).0)
settle_all-latest id filters a before after {s} {ls} reached known_b known_a =
    let numbers = Reached-IsNumbered reached in
    subst (Shows a)
      (sym (
        only_latest (start_load id filters s).1 a before after (start_load id filters s).0
          (All-IsOlder id filters s ls before numbers known_b)
          (All-IsOlder id filters s ls after numbers known_a)))
      (latest-Shows id filters a s)

-- The page that `loadMore` asks for while a load is on its way, and the store until its answer.
more_of : ℕ → ℕ → ℕ → DeliveryList → More
more_of id filters cursor s = record {
  run = run_of (begin s.more_request) (suc s.latest);
  query = record { project_id = id; filters = filters; cursor = some cursor };
}

waiting : ℕ → ℕ → DeliveryList → DeliveryList
unfolding start_load
waiting id filters s =
    let started = (start_load id filters s).0 in
    record started { more_request = begin started.more_request }

-- A page that is asked for while a load is on its way is asked for with the cursor of the old list.
-- If the load is answered first, the page is appended to the new list all the same, and its cursor
-- replaces that of the new list.
pub load_more_mixes :
    (id filters cursor : ℕ) (s : DeliveryList) (fresh more : ItemPage)
    → s.more_request.loading ≡ false
    → s.next_cursor ≡ some cursor
    → (m : More) × (t : DeliveryList) × (start_more (start_load id filters s).0 ≡ some (t, m))
      × (m.query.cursor ≡ some cursor)
      × ((settle_more m
            (success more)
            (settle_load (start_load id filters s).1 (success fresh) t)).items
          ≡ fresh.deliveries ++ more.deliveries)
      × ((settle_more m
            (success more)
            (settle_load (start_load id filters s).1 (success fresh) t)).next_cursor
          ≡ more.next_cursor)
unfolding start_load start_more settle_more settle_load load_answered more_answered more_from
    more_of waiting
load_more_mixes id filters cursor s fresh more idle at_cursor = (
  more_of id filters cursor s,
  waiting id filters s,
  rw (idle, at_cursor) refl,
  refl,
  rw (==_refl (suc s.latest), ==_refl (suc s.latest)) refl,
  rw (==_refl (suc s.latest), ==_refl (suc s.latest)) refl,
)
