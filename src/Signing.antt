-- ===== src/Signing.antt =====
-- backend/src/shared/hmac.js and `activeSecrets` of backend/src/worker/signing.js. The HMAC, the
-- reading of hexadecimal texts and the decryption of secrets are Node's and crypto.js's:
-- arguments. A text is the list of its code points.
pub mod RoundTrip
use hook_tracker.Prelude.{
  ℕ, ◌+◌, ◌-◌, ◌*◌, ◌/◌, String, Bool, true, false, ◌&&◌, ◌||◌, not, List, [], ◌∷◌, ◌++◌, Option,
  none, some, map, keep, any, length, leb, ltb, ◌==◌, if◌then◌else◌, starts_with, text_eq,
}
use hook_tracker.Address.Text.{split_on}
use hook_tracker.Store.{Endpoint}

abbrev pub Text : Type 0
Text = List ℕ

pub record Scheme : Type 0 where
  pub sign : Text → ℕ → Text → Text
  pub unhex : Text → List ℕ
  pub decrypt : String → Option Text

abbrev pub hour_ms : ℕ
hour_ms = 3_600_000

abbrev pub tolerance_seconds : ℕ
tolerance_seconds = 300

-- `v1=`
abbrev pub version_prefix : Text
version_prefix = b'v' ∷ b'1' ∷ b'=' ∷ []

unfoldable pub previous_secret_expires_at : ℕ → ℕ → ℕ
previous_secret_expires_at secret_rotated_at grace_hours = secret_rotated_at + grace_hours * hour_ms

-- `parts.join(',')`
unfoldable pub join_comma : List Text → Text
join_comma [] = []
join_comma (s ∷ []) = s
join_comma (s ∷ t ∷ parts) = s ++ b',' ∷ join_comma (t ∷ parts)

abbrev pub is_filled : Text → Bool
is_filled [] = false
is_filled (c ∷ s) = true

-- `s.trim()`, for the blanks of ASCII.
abbrev pub is_blank : ℕ → Bool
is_blank c = c == 32 || (leb 9 c && leb c 13)

unfoldable pub trim_start : Text → Text
trim_start [] = []
trim_start (c ∷ s) = if is_blank c then trim_start s else c ∷ s

unfoldable pub trim_end : Text → Text
trim_end [] = []
trim_end (c ∷ s) =
    let rest = trim_end s in if is_blank c && not (is_filled rest) then [] else c ∷ rest

abbrev drop_version : Text → Text
drop_version (v ∷ one ∷ equals ∷ s) = s
drop_version _ = []

unfoldable pub parse_signature_header : Option Text → List Text
unfolding split_on trim_start trim_end
parse_signature_header none = []
parse_signature_header (some header) = map drop_version (
    keep (starts_with version_prefix)
      (map (λ entry. trim_end (trim_start entry)) (split_on b',' header)))

pub data Verdict : Type 0 where
  valid missing_timestamp timestamp_skew missing_signature signature_mismatch : Verdict

-- `Math.abs(a - b)`
abbrev pub distance : ℕ → ℕ → ℕ
distance a b = (a - b) + (b - a)

module _ (h : Scheme) where
  unfoldable pub build_signature_header : List Text → ℕ → Text → Text
  unfolding join_comma
  build_signature_header secrets timestamp raw_body =
      join_comma (
        map (λ secret. version_prefix ++ h.sign secret timestamp raw_body) (keep is_filled secrets))

  unfoldable pub signatures_match : Text → Text → Bool
  signatures_match expected candidate =
      is_filled (h.unhex expected)
      && (length (h.unhex expected) == length (h.unhex candidate)
          && text_eq (h.unhex expected) (h.unhex candidate))

  unfoldable pub check_candidates : Text → ℕ → Text → List Text → Verdict
  unfolding signatures_match
  check_candidates secret timestamp raw_body [] = missing_signature
  check_candidates secret timestamp raw_body (first ∷ rest) =
      if any (signatures_match (h.sign secret timestamp raw_body)) (first ∷ rest)
      then valid
      else signature_mismatch

  -- `none` is a timestamp that is no finite number.
  unfoldable pub verify_signature : Option Text → Text → Option ℕ → Text → ℕ → ℕ → Verdict
  unfolding check_candidates parse_signature_header
  verify_signature header secret none raw_body tolerance now = missing_timestamp
  verify_signature header secret (some sent_at) raw_body tolerance now =
      if ltb tolerance (distance now sent_at)
      then timestamp_skew
      else check_candidates secret sent_at raw_body (parse_signature_header header)

  previous_if : Bool → Text → Option Text → Option (List Text)
  previous_if false first previous = some (first ∷ [])
  previous_if true first none = none
  previous_if true first (some second) = some (first ∷ second ∷ [])

  -- What is stored for the time of a rotation: both fields or none.
  with_previous : ℕ → ℕ → Text → Option String → Option ℕ → Option (List Text)
  unfolding previous_if
  with_previous grace_hours now first (some previous) (some rotated_at) =
      previous_if (ltb now (previous_secret_expires_at rotated_at grace_hours)) first
        (h.decrypt previous)
  with_previous grace_hours now first _ _ = some (first ∷ [])

  secrets_of : ℕ → ℕ → Option Text → Endpoint → Option (List Text)
  unfolding with_previous
  secrets_of grace_hours now none ep = none
  secrets_of grace_hours now (some first) ep =
      with_previous grace_hours now first ep.previous_secret ep.secret_rotated_at

  -- `none`: a secret does not decrypt, and it throws.
  unfoldable pub active_secrets : ℕ → ℕ → Endpoint → Option (List Text)
  unfolding secrets_of
  active_secrets grace_hours now ep = secrets_of grace_hours now (h.decrypt ep.secret) ep
