-- ===== src/UrlSafety.antt =====
-- tier1/src/url_safety.rs, with the address tests of Rust's standard library that it calls. The `url`
-- crate's parser is a parameter.
pub mod Blocks
pub mod Hosts
pub mod Allowlist
use thumbrella.Base.{
  any, ends_with, ℕ, ◌+◌, ◌-◌, Bool, true, false, not, ◌&&◌, ◌||◌, Option, none, some, List, [],
  ◌∷◌, ◌++◌, Bytes, ascii, bytes_eq, ◌==◌, ltb, leb, if◌then◌else◌, is_empty, strip_prefix,
  to_ascii_lowercase, length, drop,
}

-- The octets.
pub record Ipv4Addr : Type 0 where
  pub a : ℕ
  pub b : ℕ
  pub c : ℕ
  pub d : ℕ

-- The 16-bit segments.
pub record Ipv6Addr : Type 0 where
  pub s0 : ℕ
  pub s1 : ℕ
  pub s2 : ℕ
  pub s3 : ℕ
  pub s4 : ℕ
  pub s5 : ℕ
  pub s6 : ℕ
  pub s7 : ℕ

pub data Host : Type 0 where
  domain : Bytes → Host
  ipv4 : Ipv4Addr → Host
  ipv6 : Ipv6Addr → Host

-- What the code asks of a parsed URL: `host` as the parser understands it, `host_str` as text.
pub record Url : Type 0 where
  pub scheme : Bytes
  pub host : Option Host
  pub host_str : Option Bytes

abbrev is_loopback : Ipv4Addr → Bool
is_loopback x = x.a == 127

abbrev is_private : Ipv4Addr → Bool
is_private x = x.a == 10 || (x.a == 172 && (leb 16 x.b && leb x.b 31) || x.a == 192 && x.b == 168)

abbrev is_link_local : Ipv4Addr → Bool
is_link_local x = x.a == 169 && x.b == 254

abbrev is_unspecified : Ipv4Addr → Bool
is_unspecified x = x.a == 0 && (x.b == 0 && (x.c == 0 && x.d == 0))

abbrev is_broadcast : Ipv4Addr → Bool
is_broadcast x = x.a == 255 && (x.b == 255 && (x.c == 255 && x.d == 255))

abbrev is_multicast : Ipv4Addr → Bool
is_multicast x = leb 224 x.a && leb x.a 239

abbrev is_documentation : Ipv4Addr → Bool
is_documentation x =
    x.a == 192 && (x.b == 0 && x.c == 2)
    || (x.a == 198 && (x.b == 51 && x.c == 100) || x.a == 203 && (x.b == 0 && x.c == 113))

unfoldable pub is_safe_ipv4 : Ipv4Addr → Bool
is_safe_ipv4 x =
    if is_loopback x
      || (is_private x
          || (is_link_local x
              || (is_unspecified x || (is_broadcast x || (is_multicast x || is_documentation x)))))
    then false
    else if x.a == 100 && (leb 64 x.b && leb x.b 127)
    then false
    else if x.a == 192 && x.b == 0
    then false
    else if x.a == 198 && (leb 18 x.b && leb x.b 19)
    then false
    else if leb 240 x.a && leb x.a 255
    then false
    else true

abbrev is_zero : Ipv6Addr → Bool
is_zero x =
    x.s0 == 0
    && (x.s1 == 0 && (x.s2 == 0 && (x.s3 == 0 && (x.s4 == 0 && (x.s5 == 0 && x.s6 == 0)))))

-- `Ipv6Addr::is_multicast` tests the first octet.
unfoldable pub is_safe_ipv6 : Ipv6Addr → Bool
is_safe_ipv6 x =
    if is_zero x && x.s7 == 1 || (is_zero x && x.s7 == 0 || leb 0xff00 x.s0)
    then false
    else if leb 0xfc00 x.s0 && leb x.s0 0xfdff
    then false
    else if leb 0xfe80 x.s0 && leb x.s0 0xfebf
    then false
    else true

-- `str::contains` of one byte.
unfoldable pub contains : ℕ → Bytes → Bool
contains x [] = false
contains x (y ∷ ys) = x == y || contains x ys

unfoldable pub host_is_safe : Bool → Host → Bool
unfolding is_safe_ipv4 is_safe_ipv6 contains
host_is_safe allow_localhost (domain name) =
    let h = to_ascii_lowercase name in
    if is_empty h
    then false
    else if not allow_localhost && (bytes_eq h (ascii "localhost") || not (contains 46 h))
    then false
    else true
host_is_safe allow_localhost (ipv4 x) =
    if not allow_localhost && not (is_safe_ipv4 x) then false else true
host_is_safe allow_localhost (ipv6 x) =
    if not allow_localhost && not (is_safe_ipv6 x) then false else true

-- One turn of the closure of `url_host_allowed`.
unfoldable pub pattern_allows : Bytes → Bytes → Bool
unfolding ends_with
pattern_allows host entry = elim (strip_prefix (ascii "*.") entry) [
  | some suffix ↦ ends_with host (ascii "." ++ to_ascii_lowercase suffix)
  | none ↦ bytes_eq host (to_ascii_lowercase entry)
]

module _ (parse : Bytes → Option Url) where
  unfoldable pub is_safe_url : Bytes → Bool → ℕ → Bool
  unfolding host_is_safe
  is_safe_url raw allow_localhost max_len =
      if ltb max_len (length raw) then false else elim (parse raw) [
        | none ↦ false
        | some url ↦
            if not (bytes_eq url.scheme (ascii "http") || bytes_eq url.scheme (ascii "https"))
            then false
            else elim url.host [ none ↦ false | some host ↦ host_is_safe allow_localhost host ]
      ]

  unfoldable pub url_host_allowed : Bytes → List Bytes → Bool
  unfolding pattern_allows any
  url_host_allowed url [] = true
  url_host_allowed url (entry ∷ entries) = elim (parse url) [
    | none ↦ false
    | some parsed ↦ elim parsed.host_str [
      | none ↦ false
      | some host ↦ any (pattern_allows (to_ascii_lowercase host)) (entry ∷ entries)
    ]
  ]
