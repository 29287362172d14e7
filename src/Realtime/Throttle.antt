-- ===== src/Realtime/Throttle.antt =====
-- No project is silenced by another, and none is over its budget
-- (backend/src/api/realtime/socket.js).
use hook_tracker.Prelude.{
  ℕ, ◌-◌, suc, ap, sym, subst, ◌≤◌, ◌≡◌, refl, ◌∙◌, Bool, true, false, ◌&&◌, List, [], ◌∷◌, Option,
  none, some, leb, ltb, ◌==◌, ==_iff, keep, length, arith, Bool-cases, inl, inr, if◌then◌else◌,
}
use hook_tracker.Realtime.{
  Window, find_window, allow_in, allow, second_of, BridgeMessage, forwarded,
}

abbrev pub is_for : ℕ → BridgeMessage → Bool
is_for project_id m = m.project_id == project_id

abbrev pub is_in : ℕ → BridgeMessage → Bool
is_in second m = second_of m.arrived_at == second

-- A throttle for one project: it has one window.
pub alone : ℕ → List BridgeMessage → Option Window → List BridgeMessage
alone limit [] w = []
alone limit (m ∷ ms) w =
    let (allowed, after) = allow_in limit (second_of m.arrived_at) w in
    let rest = alone limit ms (some after) in if allowed then m ∷ rest else rest

find-same :
    (p q : ℕ) (windows : List (ℕ × Window))
    → (p == q) ≡ true
    → find_window p windows ≡ find_window q windows
find-same p q windows same = ap (λ x. find_window x windows) ((==_iff p q).0 same)

find-own :
    (p q : ℕ) (w : Window) (windows : List (ℕ × Window))
    → (p == q) ≡ true
    → find_window q ((p, w) ∷ windows) ≡ some w
unfolding find_window
find-own p q w windows same = rw same refl

find-other :
    (p q : ℕ) (w : Window) (windows : List (ℕ × Window))
    → (p == q) ≡ false
    → find_window q ((p, w) ∷ windows) ≡ find_window q windows
unfolding find_window
find-other p q w windows other = rw other refl

keep-own :
    (project_id : ℕ) (m : BridgeMessage) (b : Bool) (ms : List BridgeMessage)
    → (m.project_id == project_id) ≡ true
    → keep (is_for project_id) (if b then m ∷ ms else ms)
      ≡ (if b then m ∷ keep (is_for project_id) ms else keep (is_for project_id) ms)
keep-own project_id m true ms same = rw same refl
keep-own project_id m false ms same = refl

keep-other :
    (project_id : ℕ) (m : BridgeMessage) (b : Bool) (ms : List BridgeMessage)
    → (m.project_id == project_id) ≡ false
    → keep (is_for project_id) (if b then m ∷ ms else ms) ≡ keep (is_for project_id) ms
keep-other project_id m true ms other = rw other refl
keep-other project_id m false ms other = refl

-- The messages of a project that pass are those that a throttle of its own lets pass, whatever the
-- other projects send.
pub forwarded-alone :
    (limit project_id : ℕ) (ms : List BridgeMessage) (windows : List (ℕ × Window))
    → keep (is_for project_id) (forwarded limit ms windows)
      ≡ alone limit (keep (is_for project_id) ms) (find_window project_id windows)
unfolding forwarded allow alone
forwarded-alone limit project_id [] windows = refl
forwarded-alone limit project_id (m ∷ ms) windows =
    let p = m.project_id in
    let answer = allow_in limit (second_of m.arrived_at) (find_window p windows) in
    let own = keep (is_for project_id) ms in
    let h = forwarded-alone limit project_id ms ((p, answer.1) ∷ windows) in
    elim (Bool-cases (p == project_id)) [
      | inl same ↦
          keep-own project_id m answer.0 _ same
          ∙ ap (λ rest. if answer.0 then m ∷ rest else rest)
              (h ∙ ap (alone limit own) (find-own p project_id answer.1 windows same))
          ∙ ap (alone limit (m ∷ own)) (find-same p project_id windows same)
          ∙ ap (λ x. alone limit x (find_window project_id windows))
              (sym (keep-own project_id m true ms same))
      | inr other ↦
          keep-other project_id m answer.0 _ other
          ∙ h
          ∙ ap (alone limit own) (find-other p project_id answer.1 windows other)
          ∙ ap (λ x. alone limit x (find_window project_id windows))
              (sym (keep-other project_id m true ms other))
    ]

-- The seconds do not go back.
abbrev pub is_ordered : ℕ → List BridgeMessage → Bool
is_ordered from [] = true
is_ordered from (m ∷ ms) =
    leb from (second_of m.arrived_at) && is_ordered (second_of m.arrived_at) ms

pub number : ℕ → List BridgeMessage → ℕ
number second ms = length (keep (is_in second) ms)

-- What is left of the budget of a second.
-- Of second `second`, in a window of the second `now`.
abbrev left : ℕ → ℕ → ℕ → ℕ → ℕ
left limit second now count =
    if now == second then limit - count else if ltb second now then 0 else limit

left-step :
    (limit second t n now count : ℕ)
    → 1 ≤ limit
    → leb now t ≡ true
    → n
      ≤ left limit second
          (allow_in limit t (some (record { second = now; count = count }))).1.second
          (allow_in limit t (some (record { second = now; count = count }))).1.count
    → (if (allow_in limit t (some (record { second = now; count = count }))).0 && (t == second)
        then suc n
        else n)
      ≤ left limit second now count
unfolding allow_in
left-step limit second t n now count some_limit later h = ground arith

number-passed :
    (second : ℕ) (m : BridgeMessage) (b : Bool) (ms : List BridgeMessage)
    → number second (if b then m ∷ ms else ms)
      ≡ (if b && is_in second m then suc (number second ms) else number second ms)
unfolding number
number-passed second m true ms = elim (Bool-cases (is_in second m)) [
  | inl now ↦ rw now refl
  | inr other ↦ rw other refl
]
number-passed second m false ms = refl

left-steps :
    (limit second t n : ℕ) (w : Window)
    → 1 ≤ limit
    → leb w.second t ≡ true
    → n ≤ left limit second (allow_in limit t (some w)).1.second (allow_in limit t (some w)).1.count
    → (if (allow_in limit t (some w)).0 && (t == second) then suc n else n)
      ≤ left limit second w.second w.count
left-steps limit second t n w = left-step limit second t n w.second w.count

moved :
    (limit t : ℕ) (w : Window) → leb w.second t ≡ true → (allow_in limit t (some w)).1.second ≡ t
unfolding allow_in
moved limit t w later = ground arith

first_ordered :
    (from t : ℕ) (rest : Bool) → leb from t && rest ≡ true → (leb from t ≡ true) × (rest ≡ true)
first_ordered from t rest ordered = (ground arith, ground arith)

started :
    (limit second t n : ℕ)
    → 1 ≤ limit
    → n ≤ left limit second t 1
    → (if t == second then suc n else n) ≤ limit
started limit second t n some_limit h = ground arith

alone-left :
    (limit second : ℕ) (ms : List BridgeMessage) (w : Window)
    → 1 ≤ limit
    → is_ordered w.second ms ≡ true
    → number second (alone limit ms (some w)) ≤ left limit second w.second w.count
unfolding alone number
alone-left limit second [] w some_limit ordered = ground arith
alone-left limit second (m ∷ ms) w some_limit ordered =
    let t = second_of m.arrived_at in
    let answer = allow_in limit t (some w) in
    let later = first_ordered w.second t (is_ordered t ms) ordered in
    let n =
      alone-left limit second ms answer.1 some_limit
        (subst (λ x. is_ordered x ms ≡ true) (sym (moved limit t w later.0)) later.1) in
    subst (λ n. n ≤ left limit second w.second w.count)
      (sym (number-passed second m answer.0 (alone limit ms (some answer.1))))
      (left-steps limit second t (number second (alone limit ms (some answer.1))) w some_limit
        later.0 n)

alone-Bounded :
    (limit second from : ℕ) (ms : List BridgeMessage)
    → 1 ≤ limit
    → is_ordered from ms ≡ true
    → number second (alone limit ms none) ≤ limit
unfolding alone allow_in number
alone-Bounded limit second from [] some_limit ordered = ground arith
alone-Bounded limit second from (m ∷ ms) some_limit ordered =
    let t = second_of m.arrived_at in
    let after : Window = record { second = t; count = 1 } in
    let later = first_ordered from t (is_ordered t ms) ordered in
    let n = alone-left limit second ms after some_limit later.1 in
    subst (λ n. n ≤ limit) (sym (number-passed second m true (alone limit ms (some after))))
      (started limit second t (number second (alone limit ms (some after))) some_limit n)

-- Of the messages that Redis hands over, in an order in which the seconds of the ones of a project
-- do not go back: those of the project that pass are those that a throttle of its own lets pass,
-- whatever the other projects send, and in every second at most `limit` of them pass, where the
-- limit is at least 1.
pub forwarded-Bounded :
    (limit project_id second from : ℕ) (ms : List BridgeMessage)
    → 1 ≤ limit
    → is_ordered from (keep (is_for project_id) ms) ≡ true
    → (keep (is_for project_id) (forwarded limit ms [])
        ≡ alone limit (keep (is_for project_id) ms) none)
      × (number second (keep (is_for project_id) (forwarded limit ms [])) ≤ limit)
unfolding find_window
forwarded-Bounded limit project_id second from ms some_limit ordered =
    let own = forwarded-alone limit project_id ms [] in
    (
      own,
      subst (λ x. number second x ≤ limit) (sym own)
          (alone-Bounded limit second from (keep (is_for project_id) ms) some_limit ordered),
    )
