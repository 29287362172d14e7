-- ===== src/Target/Guard.antt =====
-- What a target that passed the guard is (backend/src/shared/ssrf.js).
use hook_tracker.Prelude.{
  ℕ, ◌≡◌, ◌⊎◌, inl, inr, refl, sym, ap, ◌∙◌, subst, Bool, true, false, not, ◌&&◌, List, [], ◌∷◌,
  Option, none, some, String, any, ◌==◌, arith, All, Bool-cases,
}
use hook_tracker.Exchange.{Resolved, pinned, rejected, private_address, blocked_port, TargetReason}
use hook_tracker.Address.{
  Class, reserved, private_range, loopback, cgnat, link_local, multicast, unique_local, unknown,
  public_range, classify_address,
}
use hook_tracker.Target.{
  Protocol, http, https, other, Url, default_port, Policy, SafeTarget, Network, is_public,
  is_allowlisted, target_port, has_private, pin, addresses_of, check_port, check_url,
  resolve_safe_target, blocked,
}

abbrev unpin : SafeTarget → Resolved SafeTarget → SafeTarget
unpin t (pinned u) = u
unpin t (rejected r) = t

blocked-pinned : (reason : TargetReason) (t : SafeTarget) → blocked reason ≡ pinned t → ⊥
blocked-pinned reason t h = cc

module _ (net : Network) (policy : Policy) where
  abbrev pub IsPublic : List ℕ → Type 0
  IsPublic a = classify_address net.is_ip a ≡ public_range

  -- The guard is off, or the host is on the list, or every address of the host is public.
  pub record IsSafe (raw_url : String) (t : SafeTarget) : Type 0 where
    pub url : Url
    pub rest : List (List ℕ)
    pub parsed : net.parse raw_url ≡ some url
    pub web : (url.protocol ≡ http) ⊎ (url.protocol ≡ https)
    pub same_host : t.hostname ≡ url.hostname
    pub port_allowed : any (λ p. p == t.port) policy.blocked_ports ≡ false
    pub first_address :
        addresses_of net policy url.hostname (net.is_ip url.hostname) ≡ some (t.address ∷ rest)
    pub where_to :
        (policy.allow_private ≡ true)
        ⊎ (is_allowlisted policy url.hostname ≡ true)
        ⊎ All IsPublic (t.address ∷ rest)

  is_public-public_range : (c : Class) → is_public c ≡ true → c ≡ public_range
  is_public-public_range reserved h = cc
  is_public-public_range private_range h = cc
  is_public-public_range loopback h = cc
  is_public-public_range cgnat h = cc
  is_public-public_range link_local h = cc
  is_public-public_range multicast h = cc
  is_public-public_range unique_local h = cc
  is_public-public_range public_range h = refl
  is_public-public_range unknown h = cc

  All-IsPublic : (as' : List (List ℕ)) → has_private net policy as' ≡ false → All IsPublic as'
  unfolding has_private
  All-IsPublic [] h = tt
  All-IsPublic (a ∷ as') h = (
    is_public-public_range (classify_address net.is_ip a) (ground arith),
    All-IsPublic as' (ground arith),
  )

  abbrev guards : List ℕ → List (List ℕ) → Bool
  guards host as' =
      not policy.allow_private && (not (is_allowlisted policy host) && has_private net policy as')

  guarded_by :
      (host : List ℕ) (as' : List (List ℕ))
      → guards host as' ≡ false
      → (policy.allow_private ≡ true) ⊎ (is_allowlisted policy host ≡ true) ⊎ All IsPublic as'
  guarded_by host as' h = elim (Bool-cases policy.allow_private) [
    | inl e ↦ inl e
    | inr e ↦ inr (elim (Bool-cases (is_allowlisted policy host)) [
      | inl k ↦ inl k
      | inr k ↦ inr (All-IsPublic as' (ground arith))
    ])
  ]

  pin_passes :
      (url : Url) (port : ℕ) (first : List ℕ) (rest : List (List ℕ))
      → guards url.hostname (first ∷ rest) ≡ false
      → pin net policy url port (some (first ∷ rest))
        ≡ pinned (record { hostname = url.hostname; port = port; address = first })
  unfolding pin
  pin_passes url port first rest e = rw e refl

  pin-IsSafe :
      (raw : String) (url : Url) (port : ℕ) (o : Option (List (List ℕ))) (t : SafeTarget)
      → net.parse raw ≡ some url
      → (url.protocol ≡ http) ⊎ (url.protocol ≡ https)
      → any (λ p. p == port) policy.blocked_ports ≡ false
      → addresses_of net policy url.hostname (net.is_ip url.hostname) ≡ o
      → pin net policy url port o ≡ pinned t
      → IsSafe raw t
  unfolding pin
  pin-IsSafe raw url port none t p w b a h = cc
  pin-IsSafe raw url port (some []) t p w b a h = cc
  pin-IsSafe raw url port (some (first ∷ rest)) t p w b a h =
      elim (Bool-cases (guards url.hostname (first ∷ rest))) [
        | inl e ↦ elim (blocked-pinned private_address t (sym (rw e refl) ∙ h)) [ ]
        | inr e ↦
            subst (IsSafe raw) (ap (unpin t) (sym (pin_passes url port first rest e) ∙ h)) (record {
              url = url;
              rest = rest;
              parsed = p;
              web = w;
              same_host = refl;
              port_allowed = b;
              first_address = a;
              where_to = guarded_by url.hostname (first ∷ rest) e;
            })
      ]

  web_protocol : (p : Protocol) (n : ℕ) → default_port p ≡ some n → (p ≡ http) ⊎ (p ≡ https)
  web_protocol http n h = inl refl
  web_protocol https n h = inr refl
  web_protocol other n h = cc

  check_port-IsSafe :
      (raw : String) (url : Url) (o : Option ℕ) (t : SafeTarget)
      → net.parse raw ≡ some url
      → default_port url.protocol ≡ o
      → check_port net policy url o ≡ pinned t
      → IsSafe raw t
  unfolding check_port
  check_port-IsSafe raw url none t p d h = cc
  check_port-IsSafe raw url (some n) t p d h =
      elim (Bool-cases (any (λ q. q == target_port url n) policy.blocked_ports)) [
        | inl e ↦ elim (blocked-pinned blocked_port t (sym (rw e refl) ∙ h)) [ ]
        | inr e ↦
            pin-IsSafe raw url (target_port url n) _ t p (web_protocol url.protocol n d) e refl
              (sym (rw e refl) ∙ h)
      ]

  check_url-IsSafe :
      (raw : String) (o : Option Url) (t : SafeTarget)
      → net.parse raw ≡ o
      → check_url net policy o ≡ pinned t
      → IsSafe raw t
  unfolding check_url
  check_url-IsSafe raw none t p h = cc
  check_url-IsSafe raw (some url) t p h = check_port-IsSafe raw url _ t p refl h

  -- A target that the guard lets through came from a URL of http or https; its port is not on
  -- the list of blocked ports; the address that is pinned is the first of those of the host;
  -- and every address of the host is in the public range, unless private targets are allowed or
  -- the host is on the list.
  pub resolve_safe_target-IsSafe :
      (raw : String) (t : SafeTarget) → resolve_safe_target net policy raw ≡ pinned t → IsSafe raw t
  unfolding resolve_safe_target
  resolve_safe_target-IsSafe raw t h = check_url-IsSafe raw (net.parse raw) t refl h
