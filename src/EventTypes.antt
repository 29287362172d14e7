-- ===== src/EventTypes.antt =====
-- backend/src/shared/event-types.js: event types and subscription patterns, as lists of code
-- points.
pub mod Patterns
use hook_tracker.Prelude.{
  ℕ, zero, suc, ◌-◌, ◌+◌, ◌≤◌, Bool, true, false, not, ◌&&◌, ◌||◌, List, [], ◌∷◌, ◌++◌, leb, ltb,
  ◌==◌, if◌then◌else◌, length, any, text_eq, starts_with, includes,
}

abbrev pub dot : ℕ
dot = b'.'

abbrev pub star : ℕ
star = b'*'

abbrev max_event_type_length : ℕ
max_event_type_length = 64

abbrev pub is_word : ℕ → Bool
is_word c = (leb b'a' c && leb c b'z') || (leb b'0' c && leb c b'9')

abbrev pub is_separator : ℕ → Bool
is_separator c = c == b'.' || c == b'_' || c == b'-'

-- /^[a-z0-9]+([._-][a-z0-9]+)*$/ read from the left: `inside` says that the character before was
-- one of a word, so that the text may end or a separator may follow.
matches_from : Bool → List ℕ → Bool
matches_from inside [] = inside
matches_from inside (c ∷ s) =
    (is_word c || (inside && is_separator c)) && matches_from (is_word c) s

unfoldable pub is_valid_event_type : List ℕ → Bool
unfolding matches_from
is_valid_event_type value = leb (length value) max_event_type_length && matches_from false value

-- `pattern.endsWith('.*')`, and the pattern without it.
abbrev pub ends_with_wildcard : List ℕ → Bool
ends_with_wildcard [] = false
ends_with_wildcard (a ∷ []) = false
ends_with_wildcard (a ∷ b ∷ []) = a == dot && b == star
ends_with_wildcard (a ∷ b ∷ c ∷ s) = ends_with_wildcard (b ∷ c ∷ s)

-- `pattern.slice(0, -2)`
abbrev pub drop_last_two : List ℕ → List ℕ
drop_last_two [] = []
drop_last_two (a ∷ []) = []
drop_last_two (a ∷ b ∷ []) = []
drop_last_two (a ∷ b ∷ c ∷ s) = a ∷ drop_last_two (b ∷ c ∷ s)

-- `s.slice(n)`
abbrev pub slice_from : ℕ → List ℕ → List ℕ
slice_from zero s = s
slice_from (suc n) [] = []
slice_from (suc n) (c ∷ s) = slice_from n s

unfoldable pub wildcard_matches : List ℕ → List ℕ → Bool
wildcard_matches prefix event_type =
    if starts_with (prefix ++ dot ∷ []) event_type
    then (let remainder = slice_from (length prefix + 1) event_type in
        ltb 0 (length remainder) && not (includes dot remainder))
    else false

unfoldable pub pattern_matches : List ℕ → List ℕ → Bool
unfolding wildcard_matches
pattern_matches pattern event_type =
    if text_eq pattern (star ∷ [])
    then false
    else if ends_with_wildcard pattern
    then wildcard_matches (drop_last_two pattern) event_type
    else text_eq pattern event_type

-- An empty list subscribes to every event.
unfoldable pub subscription_matches : List (List ℕ) → List ℕ → Bool
unfolding pattern_matches
subscription_matches [] event_type = true
subscription_matches (p ∷ patterns) event_type =
    any (λ pattern. pattern_matches pattern event_type) (p ∷ patterns)
