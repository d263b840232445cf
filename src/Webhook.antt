-- ===== src/Webhook.antt =====
-- src/shared/webhooks/url-guard.ts: which URLs a webhook may be sent to. The URL parser, the names'
-- lookup and JavaScript's number parser are parameters.

pub mod Ranges
pub mod Public
pub mod Safe
mod Tests
use Prim.Native.Char.{Char, code}
use Prim.Native.String.{len, slice}
use text.Mathlib.Text.{starts_with}
use ojuri.Prelude.{
  ℕ, characters, of_characters, String, Bool, true, false, not, ◌&&◌, ◌||◌, Option, none, some,
  List, [], ◌∷◌, map, length, all, any, leb, str_eq, ◌==◌, if◌then◌else◌,
}

-- What `new URL` makes of a text.
pub record Url : Type 0 where
  pub username : String
  pub password : String
  pub protocol : String
  pub hostname : String

-- `parse_url` is `none` where `new URL` throws, `lookup` where the lookup does; `parse_int` is
-- `none` on NaN and on a number below 0.
pub record Network : Type 0 where
  pub parse_url : String → Option Url
  pub is_ip : String → ℕ
  pub lookup : String → Option (List String)
  pub parse_int : String → Option ℕ
  pub to_lower : String → String

-- `WEBHOOK_ALLOW_HTTP` and `WEBHOOK_ALLOW_PRIVATE_NETWORKS`
pub record Flags : Type 0 where
  pub allow_http : Bool
  pub allow_private : Bool

-- The reasons that a verdict gives, and the address of a good one.
pub data UrlVerdict : Type 0 where
  invalid credentials scheme empty_host lookup_failed : UrlVerdict
  private_address : String → UrlVerdict
  safe : Option String → UrlVerdict

-- `split(".")`
abbrev pub split_char : ℕ → List Char → List Char × List (List Char)
split_char c [] = ([], [])
split_char c (d ∷ ds) =
    let (first, rest) = split_char c ds in
    if code d == c then ([], first ∷ rest) else (d ∷ first, rest)

abbrev pub split_dots : String → List String
split_dots s =
    let (first, rest) = split_char b'.' (characters s) in
    of_characters first ∷ map of_characters rest

-- The tests of the first two numbers.
unfoldable pub is_private_network : ℕ → ℕ → Bool
is_private_network a b =
    a == 10
    || (a == 127
        || (a == 0
            || ((a == 169 && b == 254)
                || ((a == 172 && (leb 16 b && leb b 31))
                    || ((a == 192 && b == 168)
                        || ((a == 192 && b == 0)
                            || ((a == 198 && (b == 18 || b == 19))
                                || ((a == 100 && (leb 64 b && leb b 127)) || leb 224 a))))))))

abbrev pub is_octet : Option ℕ → Bool
is_octet none = false
is_octet (some n) = leb n 255

-- Four numbers to 255, or private.
abbrev pub is_private_parts : List (Option ℕ) → Bool
is_private_parts (some a ∷ some b ∷ some c ∷ some d ∷ []) =
    if all is_octet (some a ∷ some b ∷ some c ∷ some d ∷ []) then is_private_network a b else true
is_private_parts _ = true

module _ (network : Network) where
  unfoldable pub is_private_ipv4 : String → Bool
  unfolding is_private_network
  is_private_ipv4 addr = is_private_parts (map network.parse_int (split_dots addr))

  abbrev pub strip_start : List Char → List Char
  strip_start [] = []
  strip_start (c ∷ cs) = if code c == b'[' then cs else c ∷ cs

  abbrev pub strip_end : List Char → List Char
  strip_end [] = []
  strip_end (c ∷ []) = if code c == b']' then [] else c ∷ []
  strip_end (c ∷ d ∷ cs) = c ∷ strip_end (d ∷ cs)

  -- `toLowerCase().replace(/^\[|\]$/g, "")`
  unfoldable pub host_of : String → String
  host_of hostname =
      of_characters (strip_end (strip_start (characters (network.to_lower hostname))))

  -- `[0-9.]`
  abbrev pub is_digit_or_dot : Char → Bool
  is_digit_or_dot c = (leb (b'0') (code c) && leb (code c) (b'9')) || code c == b'.'

  abbrev pub mapped_prefix : String
  mapped_prefix = "::ffff:"

  abbrev pub is_dotted : List Char → Bool
  is_dotted [] = false
  is_dotted (c ∷ cs) = all is_digit_or_dot (c ∷ cs)

  -- The match of `/^::ffff:([0-9.]+)$/`.
  abbrev pub mapped : String → Option String
  mapped lower =
      if starts_with lower mapped_prefix
      then (if is_dotted (characters (slice lower 7 (len lower)))
          then some (slice lower 7 (len lower))
          else none)
      else none

  abbrev pub is_private_mapped : Option String → Bool
  is_private_mapped none = false
  is_private_mapped (some addr) = is_private_ipv4 addr

  unfoldable pub is_private_ipv6 : String → Bool
  unfolding is_private_ipv4
  is_private_ipv6 addr =
      let lower = network.to_lower addr in
      (str_eq lower "::" || str_eq lower "::1")
      || (starts_with lower "fe80:"
          || ((starts_with lower "fc" || starts_with lower "fd")
              || (starts_with lower "ff" || is_private_mapped (mapped lower))))

  unfoldable pub is_private_address : String → Bool
  unfolding is_private_ipv6
  is_private_address addr =
      if network.is_ip addr == 4
      then is_private_ipv4 addr
      else if network.is_ip addr == 6
      then is_private_ipv6 addr
      else true

  abbrev pub first_of : List String → Option String
  first_of [] = none
  first_of (a ∷ rest) = some a

  abbrev pub check_addresses : Bool → List String → List String → UrlVerdict
  check_addresses allow_private all [] = safe (first_of all)
  check_addresses allow_private all (a ∷ rest) =
      let verdict = check_addresses allow_private all rest in
      if not allow_private && is_private_address a then private_address a else verdict

  abbrev pub check_lookup : Flags → Option (List String) → UrlVerdict
  check_lookup flags none = lookup_failed
  check_lookup flags (some addresses) = check_addresses flags.allow_private addresses addresses

  abbrev pub addresses_of : String → Option (List String)
  addresses_of hostname =
      if network.is_ip hostname == 0 then network.lookup hostname else some (hostname ∷ [])

  abbrev pub is_scheme_allowed : Flags → String → Bool
  is_scheme_allowed flags protocol =
      str_eq protocol "https:" || (str_eq protocol "http:" && flags.allow_http)

  abbrev pub check_url : Flags → Option Url → UrlVerdict
  check_url flags none = invalid
  check_url flags (some url) =
      if not (str_eq url.username "") || not (str_eq url.password "")
      then credentials
      else if is_scheme_allowed flags url.protocol
      then (if str_eq (host_of url.hostname) ""
          then empty_host
          else check_lookup flags (addresses_of (host_of url.hostname)))
      else scheme

  unfoldable pub is_webhook_url_safe : Flags → String → UrlVerdict
  unfolding is_private_address host_of
  is_webhook_url_safe flags raw = check_url flags (network.parse_url raw)
