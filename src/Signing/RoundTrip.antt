-- ===== src/Signing/RoundTrip.antt =====
-- A header that the worker builds is one that the receiver accepts (backend/src/shared/hmac.js).
use hook_tracker.Prelude.{
  ℕ, ◌≤◌, ◌≡◌, inl, inr, refl, ap, subst, ◌∙◌, Bool, true, false, ◌&&◌, not, List, [], ◌∷◌, ◌++◌,
  some, map, keep, any, all, length, ltb, ◌==◌, ==_refl, starts_with, text_eq, text_eq_iff, arith,
  All, Bool-cases,
}
use hook_tracker.Address.Text.{split_on}
use hook_tracker.Signing.{
  Text, Scheme, version_prefix, join_comma, is_filled, is_blank, trim_start, trim_end, drop_version,
  parse_signature_header, valid, distance, build_signature_header, signatures_match,
  check_candidates, verify_signature,
}

-- No comma and no blank.
abbrev is_plain_code : ℕ → Bool
is_plain_code c = not (is_blank c) && not (c == b',')

abbrev pub IsPlain : Text → Type 0
IsPlain s = all is_plain_code s ≡ true

trim_end-plain : (s : Text) → IsPlain s → trim_end s ≡ s
unfolding trim_end
trim_end-plain [] h = refl
trim_end-plain (c ∷ s) h = ground (arith, trim_end-plain s)

trim_start-plain : (s : Text) → IsPlain s → trim_start s ≡ s
unfolding trim_start
trim_start-plain [] h = refl
trim_start-plain (c ∷ s) h = ground arith

split_on-plain : (s : Text) → IsPlain s → split_on b',' s ≡ s ∷ []
unfolding split_on
split_on-plain [] h = refl
split_on-plain (c ∷ s) h = ground (arith, split_on-plain s)

split_on-comma :
    (s rest : Text) → IsPlain s → split_on b',' (s ++ b',' ∷ rest) ≡ s ∷ split_on b',' rest
unfolding split_on
split_on-comma [] rest h = refl
split_on-comma (c ∷ s) rest h = ground (arith, split_on-comma s rest)

split_on-join_comma :
    (s : Text) (parts : List Text)
    → All IsPlain (s ∷ parts)
    → split_on b',' (join_comma (s ∷ parts)) ≡ s ∷ parts
unfolding join_comma
split_on-join_comma s [] h = split_on-plain s h.0
split_on-join_comma s (t ∷ parts) h =
    split_on-comma s (join_comma (t ∷ parts)) h.0 ∙ ap (◌∷◌ s) (split_on-join_comma t parts h.1)

abbrev entry : Text → Text
entry s = version_prefix ++ s

entry-IsPlain : (sigs : List Text) → All IsPlain sigs → All IsPlain (map entry sigs)
entry-IsPlain [] h = tt
entry-IsPlain (s ∷ sigs) h = (h.0, entry-IsPlain sigs h.1)

abbrev read : List Text → List Text
read parts =
    map drop_version
      (keep (starts_with version_prefix) (map (λ part. trim_end (trim_start part)) parts))

read-entries : (sigs : List Text) → All IsPlain sigs → read (map entry sigs) ≡ sigs
read-entries [] h = refl
read-entries (s ∷ sigs) h =
    rw (trim_start-plain (entry s) h.0, trim_end-plain (entry s) h.0)
      (ap (◌∷◌ s) (read-entries sigs h.1))

parse-join_comma :
    (sigs : List Text)
    → All IsPlain sigs
    → parse_signature_header (some (join_comma (map entry sigs))) ≡ sigs
unfolding parse_signature_header join_comma split_on trim_start trim_end
parse-join_comma [] h = refl
parse-join_comma (s ∷ sigs) h =
    rw (split_on-join_comma (entry s) (map entry sigs) (entry-IsPlain (s ∷ sigs) h))
      (read-entries (s ∷ sigs) h)

module _ (h : Scheme) where
  -- A signature is hexadecimal, so it has no comma and no blank.
  abbrev pub SignsPlainly : Type 0
  SignsPlainly =
      (secret : Text) (timestamp : ℕ) (body : Text) → IsPlain (h.sign secret timestamp body)

  signed-IsPlain :
      SignsPlainly
      → (timestamp : ℕ) (body : Text) (secrets : List Text)
      → All IsPlain (map (λ secret. h.sign secret timestamp body) secrets)
  signed-IsPlain plain timestamp body [] = tt
  signed-IsPlain plain timestamp body (s ∷ secrets) =
      (plain s timestamp body, signed-IsPlain plain timestamp body secrets)

  map-entry :
      (f : Text → Text) (secrets : List Text)
      → map (λ secret. version_prefix ++ f secret) secrets ≡ map entry (map f secrets)
  map-entry f [] = refl
  map-entry f (s ∷ secrets) = ap (◌∷◌ (entry (f s))) (map-entry f secrets)

  -- What is read from a header is the signatures that were written into it, one for each secret
  -- that is not empty, in their order.
  pub parse-build :
      SignsPlainly
      → (secrets : List Text) (timestamp : ℕ) (body : Text)
      → parse_signature_header (some (build_signature_header h secrets timestamp body))
        ≡ map (λ secret. h.sign secret timestamp body) (keep is_filled secrets)
  unfolding build_signature_header
  parse-build plain secrets timestamp body =
      rw (map-entry (λ secret. h.sign secret timestamp body) (keep is_filled secrets))
        (parse-join_comma _ (signed-IsPlain plain timestamp body (keep is_filled secrets)))

  matches_itself :
      (signature : Text)
      → is_filled (h.unhex signature) ≡ true
      → signatures_match h signature signature ≡ true
  unfolding signatures_match
  matches_itself signature filled =
      rw (filled, ==_refl (length (h.unhex signature)))
        ((text_eq_iff (h.unhex signature) (h.unhex signature)).1 refl)

  matches_own :
      (secret : Text) (timestamp : ℕ) (body : Text) (secrets : List Text)
      → is_filled (h.unhex (h.sign secret timestamp body)) ≡ true
      → is_filled secret ≡ true
      → any (text_eq secret) secrets ≡ true
      → any
          (signatures_match h (h.sign secret timestamp body))
          (map (λ s. h.sign s timestamp body) (keep is_filled secrets))
        ≡ true
  matches_own secret timestamp body [] filled own held = cc
  matches_own secret timestamp body (s ∷ secrets) filled own held =
      elim (Bool-cases (text_eq secret s)) [
        | inl e ↦
            let same : secret ≡ s = (text_eq_iff secret s).0 e in
            rw
              (
                subst (λ x. is_filled x ≡ true) same own,
                subst
                    (λ x.
                      signatures_match h (h.sign secret timestamp body) (h.sign x timestamp body)
                      ≡ true)
                    same (matches_itself (h.sign secret timestamp body) filled),
              )
              refl
        | inr e ↦
            let rest = matches_own secret timestamp body secrets filled own (rw e at held) in
            elim (Bool-cases (is_filled s)) [
              | inl k ↦ rw (k, rest) (ground arith)
              | inr k ↦ rw k rest
            ]
      ]

  accepted :
      (secret : Text) (timestamp : ℕ) (body : Text) (sigs : List Text)
      → any (signatures_match h (h.sign secret timestamp body)) sigs ≡ true
      → check_candidates h secret timestamp body sigs ≡ valid
  unfolding check_candidates
  accepted secret timestamp body [] e = cc
  accepted secret timestamp body (s ∷ sigs) e = rw e refl

  -- A receiver that holds one of the secrets accepts the header, if its clock is within the
  -- tolerance of the time of the signature.
  pub verify-build :
      SignsPlainly
      → (secret : Text) (secrets : List Text) (timestamp now tolerance : ℕ) (body : Text)
      → is_filled (h.unhex (h.sign secret timestamp body)) ≡ true
      → is_filled secret ≡ true
      → any (text_eq secret) secrets ≡ true
      → distance now timestamp ≤ tolerance
      → verify_signature h
          (some (build_signature_header h secrets timestamp body))
          secret
          (some timestamp)
          body
          tolerance
          now
        ≡ valid
  unfolding verify_signature
  verify-build plain secret secrets timestamp now tolerance body filled own held near =
      let in_time : ltb tolerance (distance now timestamp) ≡ false = ground arith in
      rw (in_time, parse-build plain secrets timestamp body)
        (accepted secret timestamp body _
          (matches_own secret timestamp body secrets filled own held))
