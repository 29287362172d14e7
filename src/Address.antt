-- ===== src/Address.antt =====
-- backend/src/shared/ssrf.js: what an IP address is. A text is the list of its code points, and
-- is one that `isIP` of Node accepts where the code has asked it.
pub mod Text
pub mod Blocks
pub mod Embedded
use hook_tracker.Prelude.{
  ℕ, zero, suc, ◌/◌, Bool, true, false, ◌&&◌, ◌||◌, List, Option, none, some, leb, ◌==◌,
  if◌then◌else◌, get_elem?, or_else, map,
}
use hook_tracker.Address.Text.{split_on, decimal, ipv6_to_bytes}

pub data Class : Type 0 where
  reserved private_range loopback cgnat link_local multicast unique_local public_range unknown :
      Class

unfoldable pub classify_octets : ℕ → ℕ → ℕ → Class
classify_octets first second third =
    if first == 0
    then reserved
    else if first == 10
    then private_range
    else if first == 127
    then loopback
    else if first == 100 && (leb 64 second && leb second 127)
    then cgnat
    else if first == 169 && second == 254
    then link_local
    else if first == 172 && (leb 16 second && leb second 31)
    then private_range
    else if first == 192 && (second == 0 && third == 0)
    then reserved
    else if first == 192 && (second == 0 && third == 2)
    then reserved
    else if first == 192 && second == 168
    then private_range
    else if first == 198 && (second == 18 || second == 19)
    then reserved
    else if first == 198 && (second == 51 && third == 100)
    then reserved
    else if first == 203 && (second == 0 && third == 113)
    then reserved
    else if leb 224 first && leb first 239
    then multicast
    else if leb 240 first
    then reserved
    else public_range

-- `bytes[i]`; an address has all of its parts.
abbrev pub at_index : List ℕ → ℕ → ℕ
at_index bytes i = or_else (get_elem? bytes i) 0

unfoldable pub classify_ipv4 : List ℕ → Class
unfolding classify_octets split_on decimal
classify_ipv4 address =
    let parts = map decimal (split_on b'.' address) in
    classify_octets (at_index parts 0) (at_index parts 1) (at_index parts 2)

-- `isZeroRange(bytes, start, start + n)`.
abbrev pub is_zero_range : List ℕ → ℕ → ℕ → Bool
is_zero_range bytes start zero = true
is_zero_range bytes start (suc n) = at_index bytes start == 0 && is_zero_range bytes (suc start) n

unfoldable pub classify_embedded : List ℕ → Class
classify_embedded bytes =
    classify_octets (at_index bytes 12) (at_index bytes 13) (at_index bytes 14)

abbrev pub is_nat64 : List ℕ → Bool
is_nat64 bytes =
    (at_index bytes 0 == 0
      && (at_index bytes 1 == 0x64 && (at_index bytes 2 == 0xff && at_index bytes 3 == 0x9b)))
    && (is_zero_range bytes 4 8 || (at_index bytes 4 == 0 && at_index bytes 5 == 1))

-- The rest: `& 0xc0` and `& 0xfe` keep the high bits of a byte, which a division tells as well.
classify_native : List ℕ → Class
classify_native bytes =
    if at_index bytes 0 == 0xfe && at_index bytes 1 / 64 == 2
    then link_local
    else if at_index bytes 0 / 2 == 126
    then unique_local
    else if at_index bytes 0 == 0xff
    then multicast
    else public_range

classify_prefixed : List ℕ → Class
unfolding classify_native classify_embedded
classify_prefixed bytes = if is_nat64 bytes then classify_embedded bytes else classify_native bytes

classify_low : List ℕ → Class
unfolding classify_embedded classify_prefixed
classify_low bytes =
    if at_index bytes 10 == 0xff && at_index bytes 11 == 0xff
    then classify_embedded bytes
    else if at_index bytes 10 == 0 && at_index bytes 11 == 0
    then (if is_zero_range bytes 12 4
        then reserved
        else if is_zero_range bytes 12 3 && at_index bytes 15 == 1
        then loopback
        else classify_embedded bytes)
    else classify_prefixed bytes

unfoldable pub classify_bytes : Option (List ℕ) → Class
unfolding classify_low classify_prefixed
classify_bytes none = unknown
classify_bytes (some bytes) =
    if is_zero_range bytes 0 10 then classify_low bytes else classify_prefixed bytes

unfoldable pub classify_ipv6 : List ℕ → Class
unfolding classify_bytes ipv6_to_bytes
classify_ipv6 address = classify_bytes (ipv6_to_bytes address)

-- `isIP(text)`: 4, 6, or neither.
pub data Version : Type 0 where
  v4 v6 no_version : Version

unfoldable pub classify_address : (List ℕ → Version) → List ℕ → Class
unfolding classify_ipv4 classify_ipv6
classify_address is_ip address = elim (is_ip address) [
  | v4 ↦ classify_ipv4 address
  | v6 ↦ classify_ipv6 address
  | no_version ↦ unknown
]
