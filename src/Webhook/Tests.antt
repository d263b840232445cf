-- ===== src/Webhook/Tests.antt =====
-- Verdicts over a small network.
use Prim.Native.Char.{Char, code}
use ojuri.Prelude.{
  ℕ, ◌⊎◌, characters, ◌+◌, ◌-◌, ◌*◌, ◌≡◌, refl, true, false, ◌&&◌, Option, none, some, List, [],
  ◌∷◌, arith, leb, str_eq, if◌then◌else◌,
}
use ojuri.Webhook.{
  Url, Network, Flags, safe, is_private_network, is_private_ipv6, is_webhook_url_safe,
}
use ojuri.Webhook.Ranges.{is_special, ipv4, is_private_network-special}
use ojuri.Webhook.Safe.{IsGood, is_webhook_url_safe-IsGood}

abbrev decimal : ℕ → List Char → Option ℕ
decimal n [] = some n
decimal n (c ∷ cs) =
    let rest = decimal (n * 10 + (code c - b'0')) cs in
    if leb b'0' (code c) && leb (code c) b'9' then rest else none

abbrev hooks : Url
hooks = record { username = ""; password = ""; protocol = "https:"; hostname = "hooks.example" }

-- One name, and addresses of version 4 otherwise.
abbrev network : Network
network = record {
  parse_url = λ raw. some hooks;
  is_ip = λ s. if str_eq s "hooks.example" then 0 else 4;
  lookup = λ s. some ("93.184.216.34" ∷ []);
  parse_int = λ s. decimal 0 (characters s);
  to_lower = λ s. s;
}

abbrev strict : Flags
strict = record { allow_http = false; allow_private = false }

found_safe :
    is_webhook_url_safe network strict "https://hooks.example/" ≡ safe (some "93.184.216.34")
unfolding is_webhook_url_safe
found_safe = refl

is_webhook_url_safe-IsGood_example :
    (url : Url) × (network.parse_url "https://hooks.example/" ≡ some url)
    × IsGood network strict (some "93.184.216.34") url
is_webhook_url_safe-IsGood_example =
    is_webhook_url_safe-IsGood network strict "https://hooks.example/" (some "93.184.216.34") refl
      found_safe

is_private_network-special_example :
    (is_special (ipv4 172 20 0 1) ≡ true → is_private_network 172 20 ≡ true)
    × (is_private_network 172 20 ≡ true
        → (is_special (ipv4 172 20 0 1) ≡ true) ⊎ (◌≡◌ {A = ℕ} 172 192 × ◌≡◌ {A = ℕ} 20 0))
is_private_network-special_example =
    is_private_network-special 172 20 0 1 (omega arith) (omega arith) (omega arith) (omega arith)

-- The URL parser writes an address of version 4 within one of version 6 in hexadecimal, which the
-- pattern of the mapped addresses does not match.
dotted_loopback : is_private_ipv6 network "::ffff:127.0.0.1" ≡ true
unfolding is_private_ipv6
dotted_loopback = refl

hexadecimal_loopback : is_private_ipv6 network "::ffff:7f00:1" ≡ false
unfolding is_private_ipv6
hexadecimal_loopback = refl

-- fe80::/10 goes to febf.
link_local : is_private_ipv6 network "fe90::1" ≡ false
unfolding is_private_ipv6
link_local = refl
