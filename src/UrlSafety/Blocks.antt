-- ===== src/UrlSafety/Blocks.antt =====
-- The address blocks that tier1/src/url_safety.rs refuses, in CIDR notation.
use thumbrella.Base.{
  any, ℕ, ◌+◌, ◌*◌, ◌/◌, ◌<◌, ◌≡◌, refl, Bool, true, false, not, ◌&&◌, ◌||◌, List, [], ◌∷◌, ◌==◌,
  leb, if◌then◌else◌, arith,
}
use thumbrella.UrlSafety.{Ipv4Addr, Ipv6Addr, is_safe_ipv4, is_safe_ipv6, any}

-- A block: its network address, and the number of addresses in it.
pub record Block : Type 0 where
  pub network : ℕ
  pub size : ℕ

abbrev pub address : ℕ → ℕ → ℕ → ℕ → ℕ
address a b c d = ((a * 256 + b) * 256 + c) * 256 + d

abbrev pub value : Ipv4Addr → ℕ
value x = address x.a x.b x.c x.d

-- Both addresses have the same network part.
abbrev pub in_block : Ipv4Addr → Block → Bool
in_block x block = value x / block.size == block.network / block.size

abbrev pub block : ℕ → ℕ → ℕ → ℕ → ℕ → Block
block a b c d size = record { network = address a b c d; size = size }

if-or :
    (p q r : Bool) → (if p || q then false else r) ≡ (if p then false else if q then false else r)
if-or true q r = refl
if-or false q r = refl

not-or : (p q : Bool) → not (p || q) ≡ (if p then false else not q)
not-or true q = refl
not-or false q = refl

-- The octets are octets.
pub record IsAddr (x : Ipv4Addr) : Type 0 where
  pub a_lt : x.a < 256
  pub b_lt : x.b < 256
  pub c_lt : x.c < 256
  pub d_lt : x.d < 256

abbrev pub refused : List Block
refused =
    block 127 0 0 0 16777216
    ∷ block 10 0 0 0 16777216
    ∷ block 172 16 0 0 1048576
    ∷ block 192 168 0 0 65536
    ∷ block 169 254 0 0 65536
    ∷ block 0 0 0 0 1
    ∷ block 255 255 255 255 1
    ∷ block 224 0 0 0 268435456
    ∷ block 192 0 2 0 256
    ∷ block 198 51 100 0 256
    ∷ block 203 0 113 0 256
    ∷ block 100 64 0 0 4194304
    ∷ block 192 0 0 0 65536
    ∷ block 198 18 0 0 131072
    ∷ block 240 0 0 0 268435456
    ∷ []

module _ (x : Ipv4Addr) (ok : IsAddr x) where
  prefix8 : value x / 16777216 ≡ x.a
  prefix8 = omega (arith, ok.b_lt, ok.c_lt, ok.d_lt)

  prefix16 : value x / 65536 ≡ x.a * 256 + x.b
  prefix16 = omega (arith, ok.b_lt, ok.c_lt, ok.d_lt)

  prefix4 : value x / 268435456 ≡ x.a / 16
  prefix4 = omega (arith, ok.b_lt, ok.c_lt, ok.d_lt)

  prefix10 : value x / 4194304 ≡ x.a * 4 + x.b / 64
  prefix10 = omega (arith, ok.b_lt, ok.c_lt, ok.d_lt)

  prefix12 : value x / 1048576 ≡ x.a * 16 + x.b / 16
  prefix12 = omega (arith, ok.b_lt, ok.c_lt, ok.d_lt)

  prefix15 : value x / 131072 ≡ x.a * 128 + x.b / 2
  prefix15 = omega (arith, ok.b_lt, ok.c_lt, ok.d_lt)

  prefix24 : value x / 256 ≡ (x.a * 256 + x.b) * 256 + x.c
  prefix24 = omega (arith, ok.b_lt, ok.c_lt, ok.d_lt)

  in-loopback : in_block x (block 127 0 0 0 16777216) ≡ (x.a == 127)
  in-loopback = rw prefix8 (ground (arith, ok.a_lt, ok.b_lt, ok.c_lt))

  in-private_a : in_block x (block 10 0 0 0 16777216) ≡ (x.a == 10)
  in-private_a = rw prefix8 (ground (arith, ok.a_lt, ok.b_lt, ok.c_lt))

  in-private_b : in_block x (block 172 16 0 0 1048576) ≡ (x.a == 172 && (leb 16 x.b && leb x.b 31))
  in-private_b = rw prefix12 (ground (arith, ok.a_lt, ok.b_lt, ok.c_lt))

  in-private_c : in_block x (block 192 168 0 0 65536) ≡ (x.a == 192 && x.b == 168)
  in-private_c = rw prefix16 (ground (arith, ok.a_lt, ok.b_lt, ok.c_lt))

  in-link_local : in_block x (block 169 254 0 0 65536) ≡ (x.a == 169 && x.b == 254)
  in-link_local = rw prefix16 (ground (arith, ok.a_lt, ok.b_lt, ok.c_lt))

  in-this_host : in_block x (block 0 0 0 0 1) ≡ (x.a == 0 && (x.b == 0 && (x.c == 0 && x.d == 0)))
  in-this_host = ground (arith, ok.a_lt, ok.b_lt, ok.c_lt, ok.d_lt)

  in-broadcast :
      in_block x (block 255 255 255 255 1)
      ≡ (x.a == 255 && (x.b == 255 && (x.c == 255 && x.d == 255)))
  in-broadcast = ground (arith, ok.a_lt, ok.b_lt, ok.c_lt, ok.d_lt)

  in-multicast : in_block x (block 224 0 0 0 268435456) ≡ (leb 224 x.a && leb x.a 239)
  in-multicast = rw prefix4 (ground (arith, ok.a_lt, ok.b_lt, ok.c_lt))

  in-test_a : in_block x (block 192 0 2 0 256) ≡ (x.a == 192 && (x.b == 0 && x.c == 2))
  in-test_a = rw prefix24 (ground (arith, ok.a_lt, ok.b_lt, ok.c_lt))

  in-test_b : in_block x (block 198 51 100 0 256) ≡ (x.a == 198 && (x.b == 51 && x.c == 100))
  in-test_b = rw prefix24 (ground (arith, ok.a_lt, ok.b_lt, ok.c_lt))

  in-test_c : in_block x (block 203 0 113 0 256) ≡ (x.a == 203 && (x.b == 0 && x.c == 113))
  in-test_c = rw prefix24 (ground (arith, ok.a_lt, ok.b_lt, ok.c_lt))

  in-shared : in_block x (block 100 64 0 0 4194304) ≡ (x.a == 100 && (leb 64 x.b && leb x.b 127))
  in-shared = rw prefix10 (ground (arith, ok.a_lt, ok.b_lt, ok.c_lt))

  in-protocol : in_block x (block 192 0 0 0 65536) ≡ (x.a == 192 && x.b == 0)
  in-protocol = rw prefix16 (ground (arith, ok.a_lt, ok.b_lt, ok.c_lt))

  in-benchmark : in_block x (block 198 18 0 0 131072) ≡ (x.a == 198 && (leb 18 x.b && leb x.b 19))
  in-benchmark = rw prefix15 (ground (arith, ok.a_lt, ok.b_lt, ok.c_lt))

  in-reserved : in_block x (block 240 0 0 0 268435456) ≡ (leb 240 x.a && leb x.a 255)
  in-reserved = rw prefix4 (ground (arith, ok.a_lt, ok.b_lt, ok.c_lt))

  -- An address is refused if and only if it lies in one of the blocks.
  pub is_safe_ipv4-blocks : is_safe_ipv4 x ≡ not (any (in_block x) refused)
  unfolding is_safe_ipv4 any
  is_safe_ipv4-blocks =
      rw
        (
          in-loopback, in-private_a, in-private_b, in-private_c, in-link_local, in-this_host,
          in-broadcast, in-multicast, in-test_a, in-test_b, in-test_c, in-shared, in-protocol,
          in-benchmark, in-reserved,
        )
        (simp (is_safe_ipv4, if-or, not-or))

-- `::ffff:a.b.c.d`, the IPv6 spelling of an IPv4 address.
abbrev pub mapped : Ipv4Addr → Ipv6Addr
mapped x = record {
  s0 = 0;
  s1 = 0;
  s2 = 0;
  s3 = 0;
  s4 = 0;
  s5 = 0xffff;
  s6 = x.a * 256 + x.b;
  s7 = x.c * 256 + x.d;
}

-- The IPv6 spelling of every IPv4 address passes, also of one whose IPv4 spelling is refused.
pub is_safe_ipv6-mapped : (x : Ipv4Addr) → is_safe_ipv6 (mapped x) ≡ true
unfolding is_safe_ipv6
is_safe_ipv6-mapped x = refl
