-- ===== src/UrlSafety/Hosts.antt =====
-- Which URLs tier1/src/url_safety.rs lets through.
use thumbrella.Base.{
  ℕ, ◌≤◌, ◌≡◌, refl, subst, ◌↔◌, ◌⊎◌, inl, inr, Bool, true, false, not, ◌||◌, Option, none, some,
  [], ◌∷◌, Bytes, ascii, bytes_eq, bytes_eq_sound, ltb, if◌then◌else◌, is_empty, to_ascii_lowercase,
  length, arith, Bool-cases,
}
use thumbrella.UrlSafety.{
  Ipv4Addr, Ipv6Addr, Host, domain, ipv4, ipv6, Url, is_safe_ipv4, is_safe_ipv6, contains,
  host_is_safe, is_safe_url,
}

-- A host that a request from the public internet may name.
pub data Public : Host → Type 0 where
  named :
      {name : Bytes}
      → bytes_eq (to_ascii_lowercase name) (ascii "localhost") ≡ false
      → contains 46 (to_ascii_lowercase name) ≡ true
      → Public (domain name)
  numbered4 : {x : Ipv4Addr} → is_safe_ipv4 x ≡ true → Public (ipv4 x)
  numbered6 : {x : Ipv6Addr} → is_safe_ipv6 x ≡ true → Public (ipv6 x)

-- A guard that returns false.
guard-inv : (p q : Bool) → (if p then false else q) ≡ true → (p ≡ false) × (q ≡ true)
guard-inv true q h = absurd (ground arith)
guard-inv false q h = (refl, h)

or-inv : (p q : Bool) → (p || q) ≡ false → (p ≡ false) × (q ≡ false)
or-inv true q h = absurd (ground arith)
or-inv false q h = (refl, h)

not-inv : (p : Bool) → not p ≡ false → p ≡ true
not-inv true h = refl
not-inv false h = absurd (ground arith)

contains-is_empty : (x : ℕ) (s : Bytes) → contains x s ≡ true → is_empty s ≡ false
unfolding contains
contains-is_empty x [] h = absurd (ground arith)
contains-is_empty x (y ∷ ys) h = refl

host_is_safe-Public : (h : Host) → host_is_safe false h ≡ true → Public h
unfolding host_is_safe
host_is_safe-Public (domain name) safe =
    let h = to_ascii_lowercase name in
    let (quiet, _) = guard-inv _ _ (guard-inv (is_empty h) _ safe).1 in
    let (local, bare) = or-inv (bytes_eq h (ascii "localhost")) (not (contains 46 h)) quiet in
    named local (not-inv (contains 46 h) bare)
host_is_safe-Public (ipv4 x) safe =
    numbered4 (not-inv (is_safe_ipv4 x) (guard-inv (not (is_safe_ipv4 x)) true safe).0)
host_is_safe-Public (ipv6 x) safe =
    numbered6 (not-inv (is_safe_ipv6 x) (guard-inv (not (is_safe_ipv6 x)) true safe).0)

Public-host_is_safe : (h : Host) → Public h → host_is_safe false h ≡ true
unfolding host_is_safe
Public-host_is_safe (domain name) (named local dotted) =
    rw (contains-is_empty 46 (to_ascii_lowercase name) dotted, local, dotted) refl
Public-host_is_safe (ipv4 x) (numbered4 safe) = rw safe refl
Public-host_is_safe (ipv6 x) (numbered6 safe) = rw safe refl

is_web : Bytes → Bool
is_web scheme = bytes_eq scheme (ascii "http") || bytes_eq scheme (ascii "https")

is_web-schemes : (s : Bytes) → not (is_web s) ≡ false → s ≡ ascii "http" ⊎ s ≡ ascii "https"
unfolding is_web
is_web-schemes s web = elim (Bool-cases (bytes_eq s (ascii "http"))) [
  | inl e ↦ inl (bytes_eq_sound _ _ e)
  | inr ne ↦ inr (
      bytes_eq_sound _ _
        (not-inv _ (subst (λ b. not (b || bytes_eq s (ascii "https")) ≡ false) ne web)))
]

schemes-is_web : (s : Bytes) → s ≡ ascii "http" ⊎ s ≡ ascii "https" → not (is_web s) ≡ false
unfolding is_web bytes_eq
schemes-is_web s (inl e) = rw e refl
schemes-is_web s (inr e) = rw e refl

module _ (parse : Bytes → Option Url) where
  pub record Reachable (raw : Bytes) (max_len : ℕ) : Type 0 where
    pub fits : length raw ≤ max_len
    pub url : Url
    pub parsed : parse raw ≡ some url
    pub scheme : url.scheme ≡ ascii "http" ⊎ url.scheme ≡ ascii "https"
    pub host : Host
    pub has_host : url.host ≡ some host
    pub public : Public host

  -- Without the exception for local hosts, a URL passes if and only if it is no longer than the
  -- limit, parses, has the scheme http or https, and names a host that is a dotted name other than
  -- localhost or an address outside the refused blocks.
  pub is_safe_url-Reachable :
      (raw : Bytes) (max_len : ℕ)
      → (is_safe_url parse raw false max_len ≡ true) ↔ Reachable raw max_len
  unfolding is_safe_url is_web
  is_safe_url-Reachable raw max_len = (passes, reaches)
    where
      rest : Url → Bool
      rest url =
          if not (is_web url.scheme)
          then false
          else elim url.host [ none ↦ false | some host ↦ host_is_safe false host ]

      of_host :
          (url : Url) (h : Option Host)
          → url.host ≡ h
          → ltb max_len (length raw) ≡ false
          → parse raw ≡ some url
          → not (is_web url.scheme) ≡ false
          → (elim h [ none ↦ false | some host ↦ host_is_safe false host ]) ≡ true
          → Reachable raw max_len
      of_host url none e short parsed web safe = absurd (ground arith)
      of_host url (some host) e short parsed web safe = record {
        fits = ground arith;
        url = url;
        parsed = parsed;
        scheme = is_web-schemes url.scheme web;
        host = host;
        has_host = e;
        public = host_is_safe-Public host safe;
      }

      of_parse :
          (o : Option Url)
          → parse raw ≡ o
          → ltb max_len (length raw) ≡ false
          → (elim o [ none ↦ false | some url ↦ rest url ]) ≡ true
          → Reachable raw max_len
      of_parse none e short safe = absurd (ground arith)
      of_parse (some url) e short safe =
          let (web, hosted) = guard-inv _ _ safe in of_host url url.host refl short e web hosted

      passes : is_safe_url parse raw false max_len ≡ true → Reachable raw max_len
      passes safe =
          let (short, parsed) = guard-inv _ _ safe in of_parse (parse raw) refl short parsed

      short_enough : length raw ≤ max_len → ltb max_len (length raw) ≡ false
      short_enough fits = ground arith

      reaches : Reachable raw max_len → is_safe_url parse raw false max_len ≡ true
      reaches r =
          rw
            (
              is_safe_url,
              short_enough r.fits,
              r.parsed,
              schemes-is_web r.url.scheme r.scheme,
              r.has_host,
            )
            (Public-host_is_safe r.host r.public)
