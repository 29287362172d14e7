-- ===== src/Address/Text.antt =====
-- `ipv6ToBytes` of backend/src/shared/ssrf.js, and the splits of texts that it needs.
use hook_tracker.Prelude.{
  ℕ, zero, suc, ◌+◌, ◌-◌, ◌*◌, ◌/◌, ◌%◌, true, false, ◌&&◌, List, [], ◌∷◌, ◌++◌, Option, none, some,
  leb, ◌==◌, if◌then◌else◌, map, length, includes,
}

abbrev onto_first : ℕ → List (List ℕ) → List (List ℕ)
onto_first c [] = (c ∷ []) ∷ []
onto_first c (s ∷ parts) = (c ∷ s) ∷ parts

-- `s.split(c)`
unfoldable pub split_on : ℕ → List ℕ → List (List ℕ)
split_on c [] = [] ∷ []
split_on c (d ∷ s) = let rest = split_on c s in if d == c then [] ∷ rest else onto_first d rest

-- `s.split('::')`
split_double : List ℕ → List (List ℕ)
split_double [] = [] ∷ []
split_double (a ∷ []) = (a ∷ []) ∷ []
split_double (a ∷ b ∷ s) = elim (a == b':' && b == b':') [
  | true ↦ [] ∷ split_double s
  | false ↦ onto_first a (split_double (b ∷ s))
]

-- `Number(text)` of a text of decimal digits.
decimal_from : ℕ → List ℕ → ℕ
decimal_from n [] = n
decimal_from n (c ∷ s) = decimal_from (n * 10 + (c - b'0')) s

unfoldable pub decimal : List ℕ → ℕ
unfolding decimal_from
decimal text = decimal_from 0 text

hex_digit : ℕ → Option ℕ
hex_digit c =
    if leb b'0' c && leb c b'9'
    then some (c - b'0')
    else if leb b'a' c && leb c b'f'
    then some (c - b'a' + 10)
    else none

-- `Number.parseInt(text, 16)` of a text that starts with no sign, blank or `0x`: the digits up to
-- the first character that is none.
more_hex : Option ℕ → ℕ → ℕ
more_hex none digit = digit
more_hex (some n) digit = n * 16 + digit

parse_hex : Option ℕ → List ℕ → Option ℕ
unfolding hex_digit more_hex
parse_hex value [] = value
parse_hex value (c ∷ s) = elim (hex_digit c) [
  | none ↦ value
  | some digit ↦ parse_hex (some (more_hex value digit)) s
]

-- A group of an address: its text, or a number that `toString(16)` would write and `parseInt` read
-- back.
pub data Group : Type 0 where
  written : List ℕ → Group
  number : ℕ → Group

-- `((a << 8) | b) >>> 0` and `((c << 8) | d) >>> 0`.
pair_up : List ℕ → List Group
pair_up (a ∷ b ∷ c ∷ d ∷ _) = number (a * 256 + b) ∷ number (c * 256 + d) ∷ []
pair_up _ = []

-- `expandIpv4Suffix`: only the last group is looked at.
expand_ipv4_suffix : List (List ℕ) → List Group
unfolding pair_up
expand_ipv4_suffix [] = []
expand_ipv4_suffix (last ∷ []) =
    if includes b'.' last then pair_up (map decimal (split_on b'.' last)) else written last ∷ []
expand_ipv4_suffix (g ∷ h ∷ groups) = written g ∷ expand_ipv4_suffix (h ∷ groups)

split_groups : List ℕ → List Group
unfolding expand_ipv4_suffix
split_groups [] = []
split_groups (c ∷ part) = expand_ipv4_suffix (split_on b':' (c ∷ part))

group_value : Group → Option ℕ
unfolding parse_hex
group_value (written text) = parse_hex none text
group_value (number n) = some n

-- The two bytes of a group, before those of the others.
onto_bytes : Option ℕ → Option (List ℕ) → Option (List ℕ)
onto_bytes none bytes = none
onto_bytes (some n) none = none
onto_bytes (some n) (some bytes) = if leb n 0xffff then some (n / 256 ∷ n % 256 ∷ bytes) else none

groups_to_bytes : List Group → Option (List ℕ)
unfolding group_value onto_bytes
groups_to_bytes [] = some []
groups_to_bytes (g ∷ groups) = onto_bytes (group_value g) (groups_to_bytes groups)

zeros : ℕ → List Group
zeros zero = []
zeros (suc n) = written (b'0' ∷ []) ∷ zeros n

bytes_of : List Group → Option (List ℕ)
unfolding groups_to_bytes
bytes_of groups = if length groups == 8 then groups_to_bytes groups else none

-- The parts around `::`, none or one of them.
unfoldable pub parts_to_bytes : List (List ℕ) → Option (List ℕ)
unfolding bytes_of split_groups zeros
parts_to_bytes (head ∷ []) = bytes_of (split_groups head)
parts_to_bytes (head ∷ tail ∷ []) =
    let leading = split_groups head in
    let trailing = split_groups tail in
    if leb (length leading + length trailing) 8
    then bytes_of (leading ++ zeros (8 - (length leading + length trailing)) ++ trailing)
    else none
parts_to_bytes _ = none

to_lower : ℕ → ℕ
to_lower c = if leb b'A' c && leb c b'Z' then c + 32 else c

unfoldable pub ipv6_to_bytes : List ℕ → Option (List ℕ)
unfolding parts_to_bytes split_double to_lower
ipv6_to_bytes address = parts_to_bytes (split_double (map to_lower address))
