-- ===== src/HttpClient/Snippet.antt =====
-- What is kept of a response (backend/src/shared/http-client.js).
use hook_tracker.Prelude.{
  ℕ, zero, suc, ◌≤◌, ◌<◌, ◌≡◌, refl, sym, subst, ap, ◌⊎◌, inl, inr, List, [], ◌∷◌, ◌++◌,
  append_assoc, append-nil, take, leb, length, Bool-cases, arith, leb→le,
}
use hook_tracker.HttpClient.{
  Body, ended, chunk, broken, Read, read_bytes, read_throws, read_chunks, read_snippet, snipped,
  TransportError,
}

-- All the bytes of a body, up to where it ends or breaks off.
abbrev pub all_bytes : Body → List ℕ
all_bytes ended = []
all_bytes (broken error) = []
all_bytes (chunk bytes rest) = bytes ++ all_bytes rest

-- The error of a body that breaks off.
abbrev pub Breaks : Body → TransportError → Type 0
Breaks ended error = ⊥
Breaks (broken e) error = e ≡ error
Breaks (chunk bytes rest) error = Breaks rest error

take-append : (n : ℕ) (xs ys : List ℕ) → n ≤ length xs → take n (xs ++ ys) ≡ take n xs
take-append zero xs ys le = refl
take-append (suc n) [] ys le = ground (arith, le)
take-append (suc n) (x ∷ xs) ys le = ap (λ l. x ∷ l) (take-append n xs ys (omega (arith, le)))

abbrev pub Snips : ℕ → List ℕ → Body → Read → Type 0
Snips limit so_far body r =
    (r ≡ read_bytes (take limit (so_far ++ all_bytes body)))
    ⊎ ((error : TransportError) × (r ≡ read_throws error)
        × Breaks body error
        × (length (so_far ++ all_bytes body) < limit))

chunk-Snips :
    (limit : ℕ) (so_far bytes : List ℕ) (rest : Body) (r : Read)
    → Snips limit (so_far ++ bytes) rest r
    → Snips limit so_far (chunk bytes rest) r
chunk-Snips limit so_far bytes rest r h =
    subst
      (λ l.
        (r ≡ read_bytes (take limit l))
        ⊎ ((error : TransportError) × (r ≡ read_throws error)
            × Breaks rest error
            × (length l < limit)))
      (append_assoc so_far bytes (all_bytes rest)) h

read_chunks-Snips :
    (limit : ℕ) (so_far : List ℕ) (body : Body)
    → length so_far < limit
    → Snips limit so_far body (snipped limit (read_chunks limit so_far body))
unfolding read_chunks
read_chunks-Snips limit so_far ended below =
    inl (ap (λ l. read_bytes (take limit l)) (sym (append-nil so_far)))
read_chunks-Snips limit so_far (broken error) below =
    inr (error, refl, refl, rw (append-nil so_far) below)
read_chunks-Snips limit so_far (chunk bytes rest) below =
    elim (Bool-cases (leb limit (length (so_far ++ bytes)))) [
      | inl full ↦ rw full (
          chunk-Snips limit so_far bytes rest _ (
            inl (
              ap read_bytes
                (sym (take-append limit (so_far ++ bytes) (all_bytes rest) (leb→le _ _ full))))))
      | inr room ↦ rw room (
          chunk-Snips limit so_far bytes rest _
            (read_chunks-Snips limit (so_far ++ bytes) rest (ground arith)))
    ]

-- However the body is cut into chunks: what is kept are its first bytes, up to the limit, with
-- nothing lost or repeated at the seams; and an error is reported only if the body broke off
-- before it had given as many bytes as the limit, so an error after that is never noticed. The limit
-- is not 0.
pub read_snippet-Snips :
    (limit : ℕ) (body : Body) → 0 < limit → Snips limit [] body (read_snippet limit body)
unfolding read_snippet
read_snippet-Snips limit body some_room = read_chunks-Snips limit [] body some_room
