-- ===== src/Webhook/Safe.antt =====
-- What a good verdict means.
use ojuri.Prelude.{
  String, ◌≡◌, refl, sym, ◌∙◌, true, false, not, Option, none, some, List, [], ◌∷◌, str_eq, eq_iff,
  All, Bool-cases, Option-cases, inl, inr,
}
use mathlib.Core.Bool.{true≢false}
use ojuri.Webhook.Public.{IsPublic, is_private_address-IsPublic}
use ojuri.Webhook.{
  Url, Network, Flags, UrlVerdict, safe, host_of, is_private_address, first_of, check_addresses,
  check_lookup, addresses_of, is_scheme_allowed, check_url, is_webhook_url_safe,
}

module _ (network : Network) where
  -- The URL carries no credentials, its scheme is allowed, and all that its name stands for is
  -- public; `address` is the first of it.
  abbrev pub IsGood : Flags → Option String → Url → Type 0
  IsGood flags address url =
      (url.username ≡ "")
      × (url.password ≡ "")
      × (is_scheme_allowed network flags url.protocol ≡ true)
      × ((addresses : List String) × (addresses_of network (host_of network url.hostname)
            ≡ some addresses)
          × (address ≡ first_of network addresses)
          × All (IsPublic network) addresses)

  safe-injective : (a b : Option String) → safe a ≡ safe b → a ≡ b
  safe-injective a b e = cc

  private-safe :
      (a : String) (address : Option String) → UrlVerdict.private_address a ≡ safe address → ⊥
  private-safe a address e = cc

  empty-of : (s : String) → not (str_eq s "") ≡ false → s ≡ ""
  empty-of s e = elim (Bool-cases (str_eq s "")) [
    | inl same ↦ (eq_iff s "").0 same
    | inr other ↦ absurd (true≢false (sym (rw other refl) ∙ e))
  ]

  check_addresses-safe :
      (every addresses : List String) (address : Option String)
      → check_addresses network false every addresses ≡ safe address
      → (address ≡ first_of network every) × All (IsPublic network) addresses
  check_addresses-safe every [] address e = (sym (safe-injective _ _ e), tt)
  check_addresses-safe every (a ∷ rest) address e =
      elim (Bool-cases (is_private_address network a)) [
        | inl private ↦ absurd (private-safe a address ((rw private at e)))
        | inr open_to_all ↦
            let (first, others) = check_addresses-safe every rest address ((rw open_to_all at e)) in
            (first, (is_private_address-IsPublic network a open_to_all, others))
      ]

  check_lookup-safe :
      (flags : Flags) (found : Option (List String)) (address : Option String)
      → flags.allow_private ≡ false
      → check_lookup network flags found ≡ safe address
      → (addresses : List String) × (found ≡ some addresses)
        × (address ≡ first_of network addresses)
        × All (IsPublic network) addresses
  check_lookup-safe flags none address strict e = cc
  check_lookup-safe flags (some addresses) address strict e =
      let (first, open_to_all) =
        check_addresses-safe addresses addresses address ((rw strict at e)) in
      (addresses, refl, first, open_to_all)

  -- A URL without credentials, of an allowed scheme and with a name, is judged by its addresses.
  check_url-safe :
      (flags : Flags) (url : Url) (address : Option String)
      → flags.allow_private ≡ false
      → check_url network flags (some url) ≡ safe address
      → IsGood flags address url
  check_url-safe flags url address strict e = elim (Bool-cases (not (str_eq url.username ""))) [
    | inl named ↦ cc
    | inr unnamed ↦ elim (Bool-cases (not (str_eq url.password ""))) [
      | inl keyed ↦ cc
      | inr keyless ↦ elim (Bool-cases (is_scheme_allowed network flags url.protocol)) [
        | inr refused ↦ cc
        | inl allowed ↦ elim (Bool-cases (str_eq (host_of network url.hostname) "")) [
          | inl nowhere ↦ cc
          | inr host ↦ (
            empty-of url.username unnamed,
            empty-of url.password keyless,
            allowed,
            check_lookup-safe flags (addresses_of network (host_of network url.hostname)) address
                strict ((rw (unnamed, keyless, allowed, host) at e)),
          )
        ]
      ]
    ]
  ]

  -- Where private networks are not allowed, a URL is found safe only if it parses, carries no
  -- credentials, has an allowed scheme, and each address of its name is of version 4, with four
  -- numbers to 255 and in no special block, or of version 6, and by its text not the unspecified or
  -- the loopback address, nor one that starts as link local, for private use or multicast, nor one
  -- of version 4 in a special block behind ::ffff: with dots; the address that is given with the
  -- verdict is the first of these.
  pub is_webhook_url_safe-IsGood :
      (flags : Flags) (raw : String) (address : Option String)
      → flags.allow_private ≡ false
      → is_webhook_url_safe network flags raw ≡ safe address
      → (url : Url) × (network.parse_url raw ≡ some url) × IsGood flags address url
  unfolding is_webhook_url_safe
  is_webhook_url_safe-IsGood flags raw address strict e =
      elim (Option-cases (network.parse_url raw)) [
        | inl unparsed ↦ absurd (invalid-safe address ((rw unparsed at e)))
        | inr (url, parsed) ↦
            (url, parsed, check_url-safe flags url address strict ((rw parsed at e)))
      ]
    where
      invalid-safe : (a : Option String) → UrlVerdict.invalid ≡ safe a → ⊥
      invalid-safe a h = cc
