-- ===== src/Webhook/Ranges.antt =====
-- The tests of an address' numbers, as the ranges of addresses that they block.
use ojuri.Prelude.{
  ℕ, ◌⊎◌, inl, inr, Bool-cases, ◌+◌, ◌*◌, ◌/◌, List, [], ◌∷◌, any, true, false, ◌≤◌, ◌≡◌, Bool,
  ◌&&◌, ◌||◌, arith, leb, ◌==◌,
}
use ojuri.Webhook.{is_private_network}

-- The address a.b.c.d as its number of 32 bits.
abbrev pub ipv4 : ℕ → ℕ → ℕ → ℕ → ℕ
ipv4 a b c d = a * 16777216 + b * 65536 + c * 256 + d

-- The address is in the block of `size` addresses that starts with `first`, a multiple of `size`:
-- CIDR notation, with a prefix of 32 - log2 size bits.
abbrev pub in_block : ℕ × ℕ → ℕ → Bool
in_block (first, size) n = (n / size) == (first / size)

-- This host, private use, shared addresses, loopback, link local, private use, IETF protocol
-- assignments, private use, benchmarking, multicast, and reserved: of RFC 6890 and RFC 5771.
abbrev pub special_blocks : List (ℕ × ℕ)
special_blocks =
    (ipv4 0 0 0 0, 16777216)
    ∷ (ipv4 10 0 0 0, 16777216)
    ∷ (ipv4 100 64 0 0, 4194304)
    ∷ (ipv4 127 0 0 0, 16777216)
    ∷ (ipv4 169 254 0 0, 65536)
    ∷ (ipv4 172 16 0 0, 1048576)
    ∷ (ipv4 192 0 0 0, 256)
    ∷ (ipv4 192 168 0 0, 65536)
    ∷ (ipv4 198 18 0 0, 131072)
    ∷ (ipv4 224 0 0 0, 268435456)
    ∷ (ipv4 240 0 0 0, 268435456)
    ∷ []

abbrev pub is_special : ℕ → Bool
is_special n = any (λ block. in_block block n) special_blocks

-- The blocks as tests of the first two numbers, three of them as they stand.
abbrev tests : ℕ → ℕ → Bool → Bool → Bool → Bool
tests a b protocol multicast reserved =
    a == 0
    || (a == 10
        || ((a == 100 && (leb 64 b && leb b 127))
            || (a == 127
                || ((a == 169 && b == 254)
                    || ((a == 172 && (leb 16 b && leb b 31))
                        || (protocol
                            || ((a == 192 && b == 168)
                                || ((a == 198 && (b == 18 || b == 19))
                                    || (multicast || (reserved || false))))))))))

tests-private :
    (a b : ℕ) (protocol multicast reserved : Bool)
    → (protocol ≡ true → (a == 192 && b == 0) ≡ true)
    → (multicast || reserved) ≡ leb 224 a
    → tests a b protocol multicast reserved ≡ true
    → is_private_network a b ≡ true
unfolding is_private_network
tests-private a b protocol multicast reserved p m h = ground (arith, p, m, h)

private-tests :
    (a b : ℕ) (protocol multicast reserved : Bool)
    → (multicast || reserved) ≡ leb 224 a
    → is_private_network a b ≡ true
    → (tests a b protocol multicast reserved ≡ true) ⊎ ((a ≡ 192) × (b ≡ 0))
unfolding is_private_network
private-tests a b protocol multicast reserved m h =
    elim (Bool-cases (tests a b protocol multicast reserved)) [
      | inl found ↦ inl found
      | inr missed ↦ inr (ground (arith, m, h, missed), ground (arith, m, h, missed))
    ]

module _ (a b c d : ℕ) (ha : a ≤ 255) (hb : b ≤ 255) (hc : c ≤ 255) (hd : d ≤ 255) where
  block_8 : (k : ℕ) → in_block (ipv4 k 0 0 0, 16777216) (ipv4 a b c d) ≡ (a == k)
  block_8 k = ground (arith, hb, hc, hd)

  block_16 :
      (k l : ℕ) → l ≤ 255 → in_block (ipv4 k l 0 0, 65536) (ipv4 a b c d) ≡ (a == k && b == l)
  block_16 k l top = ground (arith, hb, hc, hd, top)

  block_10 :
      in_block (ipv4 100 64 0 0, 4194304) (ipv4 a b c d) ≡ (a == 100 && (leb 64 b && leb b 127))
  block_10 = ground (arith, hb, hc, hd)

  block_12 :
      in_block (ipv4 172 16 0 0, 1048576) (ipv4 a b c d) ≡ (a == 172 && (leb 16 b && leb b 31))
  block_12 = ground (arith, hb, hc, hd)

  block_15 : in_block (ipv4 198 18 0 0, 131072) (ipv4 a b c d) ≡ (a == 198 && (b == 18 || b == 19))
  block_15 = ground (arith, hb, hc, hd)

  block_24 : in_block (ipv4 192 0 0 0, 256) (ipv4 a b c d) ≡ true → (a == 192 && b == 0) ≡ true
  block_24 h = ground (arith, hb, hc, hd, h)

  block_4 :
      (in_block (ipv4 224 0 0 0, 268435456) (ipv4 a b c d)
        || in_block (ipv4 240 0 0 0, 268435456) (ipv4 a b c d))
      ≡ leb 224 a
  block_4 = ground (arith, ha, hb, hc, hd)

  -- An address a.b.c.d in one of the special blocks is found private by its first two numbers; and
  -- one that is found private is in one of these blocks, or in the rest of 192.0.0.0/16.
  pub is_private_network-special :
      (is_special (ipv4 a b c d) ≡ true → is_private_network a b ≡ true)
      × (is_private_network a b ≡ true → (is_special (ipv4 a b c d) ≡ true) ⊎ ((a ≡ 192) × (b ≡ 0)))
  unfolding is_private_network
  is_private_network-special =
      rw
        (
          block_8 0,
          block_8 10,
          block_10,
          block_8 127,
          block_16 169 254 (omega arith),
          block_12,
          block_16 192 168 (omega arith),
          block_15,
        )
        (tests-private a b _ _ _ block_24 block_4, private-tests a b _ _ _ block_4)
