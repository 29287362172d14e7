-- ===== src/Address/Blocks.antt =====
-- The classes of IPv4 addresses as a table of networks (backend/src/shared/ssrf.js).
use hook_tracker.Prelude.{
  ℕ, ◌+◌, ◌-◌, ◌*◌, ◌/◌, ◌^◌, ◌<◌, ◌≡◌, refl, Bool, ◌&&◌, ◌||◌, List, [], ◌∷◌, leb, ◌==◌,
  if◌then◌else◌, arith,
}
use hook_tracker.Address.{
  Class, reserved, private_range, loopback, cgnat, link_local, multicast, public_range,
  classify_octets,
}

-- An address as a number of 32 bits.
abbrev pub value : ℕ → ℕ → ℕ → ℕ → ℕ
value a b c d = ((a * 256 + b) * 256 + c) * 256 + d

-- `base/prefix`, as the base and how many addresses the network has.
pub record Block : Type 0 where
  pub base : ℕ
  pub size : ℕ
  pub class : Class

abbrev pub in_block : ℕ → Block → Bool
in_block v b = v / b.size == b.base / b.size

abbrev pub class_in : List Block → ℕ → Class
class_in [] v = public_range
class_in (b ∷ blocks) v = if in_block v b then b.class else class_in blocks v

abbrev network : ℕ → ℕ → ℕ → ℕ → Class → Block
network a b c prefix class = record {
  base = value a b c 0;
  size = 2 ^ (32 - prefix);
  class = class;
}

abbrev pub blocks : List Block
blocks =
    network 0 0 0 8 reserved
    ∷ network 10 0 0 8 private_range
    ∷ network 127 0 0 8 loopback
    ∷ network 100 64 0 10 cgnat
    ∷ network 169 254 0 16 link_local
    ∷ network 172 16 0 12 private_range
    ∷ network 192 0 0 24 reserved
    ∷ network 192 0 2 24 reserved
    ∷ network 192 168 0 16 private_range
    ∷ network 198 18 0 15 reserved
    ∷ network 198 51 100 24 reserved
    ∷ network 203 0 113 24 reserved
    ∷ network 224 0 0 4 multicast
    ∷ network 240 0 0 4 reserved
    ∷ []

module _ (a b c d : ℕ) (ha : a < 256) (hb : b < 256) (hc : c < 256) (hd : d < 256) where
  first_0 : (a == 0) ≡ in_block (value a b c d) (network 0 0 0 8 reserved)
  first_0 = ground arith

  first_10 : (a == 10) ≡ in_block (value a b c d) (network 10 0 0 8 private_range)
  first_10 = ground arith

  first_127 : (a == 127) ≡ in_block (value a b c d) (network 127 0 0 8 loopback)
  first_127 = ground arith

  in_100_64 :
      (a == 100 && (leb 64 b && leb b 127)) ≡ in_block (value a b c d) (network 100 64 0 10 cgnat)
  in_100_64 = ground arith

  in_169_254 : (a == 169 && b == 254) ≡ in_block (value a b c d) (network 169 254 0 16 link_local)
  in_169_254 = ground arith

  in_172_16 :
      (a == 172 && (leb 16 b && leb b 31))
      ≡ in_block (value a b c d) (network 172 16 0 12 private_range)
  in_172_16 = ground arith

  in_192_0_0 :
      (a == 192 && (b == 0 && c == 0)) ≡ in_block (value a b c d) (network 192 0 0 24 reserved)
  in_192_0_0 = ground arith

  in_192_0_2 :
      (a == 192 && (b == 0 && c == 2)) ≡ in_block (value a b c d) (network 192 0 2 24 reserved)
  in_192_0_2 = ground arith

  in_192_168 :
      (a == 192 && b == 168) ≡ in_block (value a b c d) (network 192 168 0 16 private_range)
  in_192_168 = ground arith

  in_198_18 :
      (a == 198 && (b == 18 || b == 19)) ≡ in_block (value a b c d) (network 198 18 0 15 reserved)
  in_198_18 = ground arith

  in_198_51 :
      (a == 198 && (b == 51 && c == 100))
      ≡ in_block (value a b c d) (network 198 51 100 24 reserved)
  in_198_51 = ground arith

  in_203_0 :
      (a == 203 && (b == 0 && c == 113)) ≡ in_block (value a b c d) (network 203 0 113 24 reserved)
  in_203_0 = ground arith

  from_224 : (leb 224 a && leb a 239) ≡ in_block (value a b c d) (network 224 0 0 4 multicast)
  from_224 = ground arith

  from_240 : leb 240 a ≡ in_block (value a b c d) (network 240 0 0 4 reserved)
  from_240 = ground arith

  -- An address is in the class of the first network of the table that it is in, and in the public
  -- range if it is in none.
  pub classify_octets-class_in : classify_octets a b c ≡ class_in blocks (value a b c d)
  unfolding classify_octets
  classify_octets-class_in =
      rw
        (
          ← first_0,
          ← first_10,
          ← first_127,
          ← in_100_64,
          ← in_169_254,
          ← in_172_16,
          ← in_192_0_0,
          ← in_192_0_2,
          ← in_192_168,
          ← in_198_18,
          ← in_198_51,
          ← in_203_0,
          ← from_224,
          ← from_240,
        )
        refl
