-- ===== src/Examples/Guard.antt =====
-- Addresses and targets at concrete texts (backend/src/shared/ssrf.js).
use hook_tracker.Prelude.{
  ℕ, ◌≡◌, ◌↔◌, refl, List, [], ◌∷◌, none, some, codes, starts_with, if◌then◌else◌, false, arith,
}
use hook_tracker.Address.{
  loopback, private_range, link_local, unique_local, public_range, unknown, v4, no_version,
  classify_ipv4, classify_ipv6, classify_octets, classify_bytes,
}
use hook_tracker.Address.Text.{ipv6_to_bytes, split_on, decimal}
use hook_tracker.Address.Blocks.{value, class_in, blocks, classify_octets-class_in}
use hook_tracker.Address.Embedded.{mapped, translated, compatible, classify_bytes-embedded}
use hook_tracker.Target.{
  https, Policy, SafeTarget, Network, resolve_safe_target, check_url, check_port, pin, addresses_of,
  has_private,
}
use hook_tracker.Target.Guard.{IsSafe, resolve_safe_target-IsSafe}

mapped_test : classify_ipv6 (codes "::ffff:7F00:1") ≡ loopback
unfolding classify_ipv6 ipv6_to_bytes classify_bytes classify_octets split_on decimal
mapped_test = refl

dotted_test : classify_ipv6 (codes "64:ff9b::10.1.2.3") ≡ private_range
unfolding classify_ipv6 ipv6_to_bytes classify_bytes classify_octets split_on decimal
dotted_test = refl

whole_test : classify_ipv6 (codes "fe80:0:0:0:1:2:3:4") ≡ link_local
unfolding classify_ipv6 ipv6_to_bytes classify_bytes split_on
whole_test = refl

short_test : classify_ipv6 (codes "fd00::1") ≡ unique_local
unfolding classify_ipv6 ipv6_to_bytes classify_bytes split_on
short_test = refl

public_test : classify_ipv6 (codes "2606:4700::1111") ≡ public_range
unfolding classify_ipv6 ipv6_to_bytes classify_bytes split_on
public_test = refl

twice_test : classify_ipv6 (codes "1::2::3") ≡ unknown
unfolding classify_ipv6 ipv6_to_bytes classify_bytes split_on
twice_test = refl

metadata_test : classify_ipv4 (codes "169.254.169.254") ≡ link_local
unfolding classify_ipv4 classify_octets split_on decimal
metadata_test = refl

classify_octets-class_in_example : classify_octets 172 31 255 ≡ class_in blocks (value 172 31 255 1)
classify_octets-class_in_example =
    classify_octets-class_in 172 31 255 1 (omega arith) (omega arith) (omega arith) (omega arith)

classify_bytes-embedded_example :
    (classify_bytes (some (mapped 10 0 0 1)) ≡ classify_octets 10 0 0)
    × (classify_bytes (some (translated 10 0 0 1)) ≡ classify_octets 10 0 0)
    × ((classify_bytes (some (compatible 10 0 0 1)) ≡ public_range)
        ↔ (classify_octets 10 0 0 ≡ public_range))
classify_bytes-embedded_example = classify_bytes-embedded 10 0 0 1

abbrev host : List ℕ
host = codes "partner.example"

abbrev net : Network
net = record {
  parse = λ raw. some (record { protocol = https; port = none; hostname = host });
  is_ip = λ text. if starts_with (codes "93.") text then v4 else no_version;
  lookup = λ name. some (codes "93.184.216.34" ∷ []);
}

abbrev policy : Policy
policy = record { allow_private = false; allowlist_hosts = []; blocked_ports = 25 ∷ [] }

abbrev target : SafeTarget
target = record { hostname = host; port = 443; address = codes "93.184.216.34" }

resolve_safe_target-IsSafe_example : IsSafe net policy "https://partner.example/hook" target
unfolding resolve_safe_target check_url check_port pin addresses_of has_private classify_ipv4
    classify_octets split_on decimal
resolve_safe_target-IsSafe_example =
    resolve_safe_target-IsSafe net policy "https://partner.example/hook" target refl
