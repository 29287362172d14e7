-- ===== src/Address/Embedded.antt =====
-- IPv6 addresses that carry an IPv4 address (backend/src/shared/ssrf.js).
use hook_tracker.Prelude.{ℕ, ◌≡◌, ◌≢◌, refl, List, [], ◌∷◌, some, arith, ◌↔◌}
use hook_tracker.Address.{
  public_range, classify_octets, classify_bytes, classify_low, classify_prefixed, classify_embedded,
}

abbrev eight_zeros : List ℕ → List ℕ
eight_zeros rest = 0 ∷ 0 ∷ 0 ∷ 0 ∷ 0 ∷ 0 ∷ 0 ∷ 0 ∷ rest

-- `::ffff:a.b.c.d`, `::a.b.c.d`, `64:ff9b::a.b.c.d`.
abbrev pub mapped : ℕ → ℕ → ℕ → ℕ → List ℕ
mapped a b c d = eight_zeros (0 ∷ 0 ∷ 0xff ∷ 0xff ∷ a ∷ b ∷ c ∷ d ∷ [])

abbrev pub compatible : ℕ → ℕ → ℕ → ℕ → List ℕ
compatible a b c d = eight_zeros (0 ∷ 0 ∷ 0 ∷ 0 ∷ a ∷ b ∷ c ∷ d ∷ [])

abbrev pub translated : ℕ → ℕ → ℕ → ℕ → List ℕ
translated a b c d = 0 ∷ 0x64 ∷ 0xff ∷ 0x9b ∷ 0 ∷ 0 ∷ 0 ∷ 0 ∷ 0 ∷ 0 ∷ 0 ∷ 0 ∷ a ∷ b ∷ c ∷ d ∷ []

first_zero : (a b c d : ℕ) → a ≡ 0 → classify_octets a b c ≢ public_range
unfolding classify_octets
first_zero a b c d h = ground arith

compatible_iff :
    (a b c d : ℕ)
    → (classify_bytes (some (compatible a b c d)) ≡ public_range)
      ↔ (classify_octets a b c ≡ public_range)
unfolding classify_bytes classify_low classify_embedded
compatible_iff a b c d =
    (λ h. ground (arith, first_zero a b c d), λ h. ground (arith, first_zero a b c d))

-- An IPv4 address inside an IPv6 address, mapped, of NAT64 or compatible, is in the public range
-- exactly if it is by itself; the first two forms are in the very class of the address that they
-- carry.
pub classify_bytes-embedded :
    (a b c d : ℕ)
    → (classify_bytes (some (mapped a b c d)) ≡ classify_octets a b c)
      × (classify_bytes (some (translated a b c d)) ≡ classify_octets a b c)
      × ((classify_bytes (some (compatible a b c d)) ≡ public_range)
          ↔ (classify_octets a b c ≡ public_range))
unfolding classify_bytes classify_low classify_prefixed classify_embedded
classify_bytes-embedded a b c d = (refl, refl, compatible_iff a b c d)
