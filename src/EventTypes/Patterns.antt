-- ===== src/EventTypes/Patterns.antt =====
-- What a subscription pattern stands for (backend/src/shared/event-types.js).
use hook_tracker.Prelude.{
  ℕ, ◌≡◌, ◌≢◌, ◌↔◌, refl, sym, ap, ◌∙◌, inl, inr, true, false, not, ◌&&◌, List, [], ◌∷◌, ◌++◌,
  append_assoc, if◌then◌else◌, length, length-append, text_eq, text_eq_iff, starts_with,
  starts_with-append, starts_with-split, includes, arith, Bool-cases, ltb,
}
use hook_tracker.EventTypes.{
  dot, star, ends_with_wildcard, drop_last_two, slice_from, wildcard_matches, pattern_matches,
}

-- One more segment: something, with no dot in it.
abbrev pub IsSegment : List ℕ → Type 0
IsSegment s = (s ≢ []) × (includes dot s ≡ false)

slice_from-append : (p s : List ℕ) → slice_from (length p) (p ++ s) ≡ s
slice_from-append [] s = refl
slice_from-append (c ∷ p) s = slice_from-append p s

drop_last_two-wildcard :
    (p : List ℕ) → ends_with_wildcard p ≡ true → p ≡ drop_last_two p ++ dot ∷ star ∷ []
drop_last_two-wildcard [] h = cc
drop_last_two-wildcard (a ∷ []) h = cc
drop_last_two-wildcard (a ∷ b ∷ []) h = ground arith
drop_last_two-wildcard (a ∷ b ∷ c ∷ s) h = ap (◌∷◌ a) (drop_last_two-wildcard (b ∷ c ∷ s) h)

wildcard-ends : (p : List ℕ) → ends_with_wildcard (p ++ dot ∷ star ∷ []) ≡ true
wildcard-ends [] = refl
wildcard-ends (a ∷ []) = refl
wildcard-ends (a ∷ b ∷ []) = refl
wildcard-ends (a ∷ b ∷ c ∷ s) = wildcard-ends (b ∷ c ∷ s)

drop_last_two-append : (p : List ℕ) → drop_last_two (p ++ dot ∷ star ∷ []) ≡ p
drop_last_two-append [] = refl
drop_last_two-append (a ∷ []) = refl
drop_last_two-append (a ∷ b ∷ []) = refl
drop_last_two-append (a ∷ b ∷ c ∷ s) = ap (◌∷◌ a) (drop_last_two-append (b ∷ c ∷ s))

ltb-length : (s : List ℕ) → (ltb 0 (length s) ≡ true) ↔ (s ≢ [])
ltb-length [] = (λ h. cc, λ h. absurd (h refl))
ltb-length (c ∷ s) = (λ h e. cc, λ h. ground arith)

-- The test on what follows the prefix and its dot.
wildcard_matches-append :
    (prefix rest : List ℕ)
    → wildcard_matches prefix ((prefix ++ dot ∷ []) ++ rest)
      ≡ (ltb 0 (length rest) && not (includes dot rest))
unfolding wildcard_matches
wildcard_matches-append prefix rest = rw (
  starts_with-append (prefix ++ dot ∷ []) rest,
  sym (length-append prefix (dot ∷ [])),
  slice_from-append (prefix ++ dot ∷ []) rest,
)

wildcard_matches-IsSegment :
    (prefix seg : List ℕ) → IsSegment seg → wildcard_matches prefix (prefix ++ dot ∷ seg) ≡ true
wildcard_matches-IsSegment prefix seg s = rw (
  sym (append_assoc prefix (dot ∷ []) seg),
  wildcard_matches-append prefix seg,
  (ltb-length seg).1 s.0,
  s.1,
)

IsSegment-wildcard_matches :
    (prefix t : List ℕ)
    → wildcard_matches prefix t ≡ true
    → (seg : List ℕ) × (t ≡ prefix ++ dot ∷ seg) × IsSegment seg
unfolding wildcard_matches
IsSegment-wildcard_matches prefix t h = elim (Bool-cases (starts_with (prefix ++ dot ∷ []) t)) [
  | inr off ↦ cc (rw off at h)
  | inl on ↦
      let (rest, e) = starts_with-split (prefix ++ dot ∷ []) t on in
      let k =
        sym (wildcard_matches-append prefix rest) ∙ ap (wildcard_matches prefix) (sym e) ∙ h in
      (rest, e ∙ append_assoc prefix (dot ∷ []) rest, tested rest k)
]
  where
    tested :
        (rest : List ℕ) → (ltb 0 (length rest) && not (includes dot rest)) ≡ true → IsSegment rest
    tested rest k = ((ltb-length rest).0 (ground arith), ground arith)

ends-or-not : (prefix : List ℕ) → text_eq (prefix ++ dot ∷ star ∷ []) (star ∷ []) ≡ false
ends-or-not [] = refl
ends-or-not (c ∷ []) = ground arith
ends-or-not (c ∷ d ∷ s) = ground arith

plain_matches :
    (p t : List ℕ)
    → ((if text_eq p (star ∷ []) then false else text_eq p t) ≡ true) ↔ ((p ≢ star ∷ []) × (p ≡ t))
plain_matches p t = (
  λ h. (λ e. ground (arith, (text_eq_iff p (star ∷ [])).1 e), (text_eq_iff p t).0 (ground arith)),
  λ h. ground (arith, (text_eq_iff p t).1 h.1, (text_eq_iff p (star ∷ [])).0),
)

-- A pattern that ends in `.*` matches the event types that have exactly one more segment after
-- what stands before the `.*`; any other pattern but `*`, which matches nothing, matches only
-- itself.
pub pattern_matches_iff :
    (p t : List ℕ)
    → ((pattern_matches (p ++ dot ∷ star ∷ []) t ≡ true)
        ↔ ((seg : List ℕ) × (t ≡ p ++ dot ∷ seg) × IsSegment seg))
      × (ends_with_wildcard p ≡ false → (pattern_matches p t ≡ true) ↔ ((p ≢ star ∷ []) × (p ≡ t)))
unfolding pattern_matches
pattern_matches_iff p t = (
  rw (ends-or-not p, wildcard-ends p, drop_last_two-append p)
      (IsSegment-wildcard_matches p t, λ s. rw s.1 (wildcard_matches-IsSegment p s.0 s.2)),
  λ plain. rw plain (plain_matches p t),
)
