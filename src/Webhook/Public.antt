-- ===== src/Webhook/Public.antt =====
-- What it means for an address that it is not found private.
use text.Mathlib.Text.{starts_with}
use mathlib.Core.Bool.{true≢false}
use ojuri.Prelude.{
  ℕ, ◌≤◌, String, ◌≡◌, ◌≢◌, refl, sym, ◌∙◌, Bool, true, false, Option, none, some, List, [], ◌∷◌,
  ◌||◌, ◌⊎◌, inl, inr, arith, map, all, ◌==◌, str_eq, eq_iff, Bool-cases, if◌then◌else◌,
}
use ojuri.Webhook.{
  Network, split_dots, is_octet, is_private_parts, is_private_network, is_private_ipv4,
  is_private_ipv6, is_private_address, is_private_mapped, mapped,
}
use ojuri.Webhook.Ranges.{ipv4, is_special, is_private_network-special}

-- Four numbers to 255, of an address that is in no special block.
abbrev pub IsPublicParts : List (Option ℕ) → Type 0
IsPublicParts parts =
    (a : ℕ) × (b : ℕ) × (c : ℕ) × (d : ℕ) × (parts ≡ some a ∷ some b ∷ some c ∷ some d ∷ [])
    × (a ≤ 255)
    × (b ≤ 255)
    × (c ≤ 255)
    × (d ≤ 255)
    × (is_special (ipv4 a b c d) ≡ false)

octets :
    (a b c d : ℕ) (private : Bool)
    → (if all is_octet (some a ∷ some b ∷ some c ∷ some d ∷ []) then private else true) ≡ false
    → (a ≤ 255) × (b ≤ 255) × (c ≤ 255) × (d ≤ 255) × (private ≡ false)
octets a b c d private h =
    (ground (arith, h), ground (arith, h), ground (arith, h), ground (arith, h), ground (arith, h))

is_private_parts-IsPublicParts :
    (parts : List (Option ℕ)) → is_private_parts parts ≡ false → IsPublicParts parts
is_private_parts-IsPublicParts [] h = cc
is_private_parts-IsPublicParts (none ∷ ps) h = cc
is_private_parts-IsPublicParts (some a ∷ []) h = cc
is_private_parts-IsPublicParts (some a ∷ none ∷ ps) h = cc
is_private_parts-IsPublicParts (some a ∷ some b ∷ []) h = cc
is_private_parts-IsPublicParts (some a ∷ some b ∷ none ∷ ps) h = cc
is_private_parts-IsPublicParts (some a ∷ some b ∷ some c ∷ []) h = cc
is_private_parts-IsPublicParts (some a ∷ some b ∷ some c ∷ none ∷ ps) h = cc
is_private_parts-IsPublicParts (some a ∷ some b ∷ some c ∷ some d ∷ e ∷ ps) h = cc
is_private_parts-IsPublicParts (some a ∷ some b ∷ some c ∷ some d ∷ []) h =
    let (ha, hb, hc, hd, passed) = octets a b c d (is_private_network a b) h in
    let apart : is_special (ipv4 a b c d) ≡ false = elim (Bool-cases (is_special (ipv4 a b c d))) [
      | inl special ↦
          absurd
            (true≢false (sym ((is_private_network-special a b c d ha hb hc hd).0 special) ∙ passed))
      | inr common ↦ common
    ] in
    (a, b, c, d, refl, ha, hb, hc, hd, apart)

either_false : (x y : Bool) → (x || y) ≡ false → (x ≡ false) × (y ≡ false)
either_false false y h = (refl, h)
either_false true y h = cc

apart_of : (s t : String) → str_eq s t ≡ false → s ≢ t
apart_of s t h same = true≢false (sym ((eq_iff s t).1 same) ∙ h)

module _ (network : Network) where
  abbrev pub IsPublic4 : String → Type 0
  IsPublic4 addr = IsPublicParts (map network.parse_int (split_dots addr))

  abbrev IsPublicMapped : Option String → Type 0
  IsPublicMapped none = Unit
  IsPublicMapped (some addr) = IsPublic4 addr

  -- The text is not that of the unspecified address or of loopback, starts with none of fe80: for
  -- link local, fc and fd for private use and ff for multicast, and is not an address of version 4
  -- in a special block, written behind ::ffff: with dots.
  abbrev pub IsPublic6 : String → Type 0
  IsPublic6 addr =
      let lower = network.to_lower addr in
      (lower ≢ "::")
      × (lower ≢ "::1")
      × (starts_with lower "fe80:" ≡ false)
      × (starts_with lower "fc" ≡ false)
      × (starts_with lower "fd" ≡ false)
      × (starts_with lower "ff" ≡ false)
      × IsPublicMapped (mapped network lower)

  abbrev pub IsPublic : String → Type 0
  IsPublic addr =
      ((network.is_ip addr ≡ 4) × IsPublic4 addr) ⊎ ((network.is_ip addr ≡ 6) × IsPublic6 addr)

  mapped-IsPublicMapped :
      (o : Option String) → is_private_mapped network o ≡ false → IsPublicMapped o
  unfolding is_private_ipv4
  mapped-IsPublicMapped none h = tt
  mapped-IsPublicMapped (some addr) h = is_private_parts-IsPublicParts _ h

  is_private_ipv6-IsPublic6 :
      (addr : String) → is_private_ipv6 network addr ≡ false → IsPublic6 addr
  unfolding is_private_ipv6
  is_private_ipv6-IsPublic6 addr h =
      let (named, rest) = either_false _ _ h in
      let (unspecified, loopback) = either_false _ _ named in
      let (link, others) = either_false _ _ rest in
      let (unique, last) = either_false _ _ others in
      let (fc, fd) = either_false _ _ unique in
      let (multicast, inner) = either_false _ _ last in
      (
        apart_of _ _ unspecified,
        apart_of _ _ loopback,
        link,
        fc,
        fd,
        multicast,
        mapped-IsPublicMapped _ inner,
      )

  pub is_private_address-IsPublic :
      (addr : String) → is_private_address network addr ≡ false → IsPublic addr
  unfolding is_private_address is_private_ipv4
  is_private_address-IsPublic addr h = elim (Bool-cases (network.is_ip addr == 4)) [
    | inl four ↦ inl (ground (arith, four), is_private_parts-IsPublicParts _ ((rw four at h)))
    | inr other ↦ elim (Bool-cases (network.is_ip addr == 6)) [
      | inl six ↦ inr (ground (arith, six), is_private_ipv6-IsPublic6 addr ((rw (other, six) at h)))
      | inr neither ↦ absurd (true≢false ((rw (other, neither) at h)))
    ]
  ]
