-- ===== src/Hints/Freshness.antt =====
-- What the response headers of tier1/src/source.rs make of a token, and what a 304 changes.
use mathlib.Core.List.{foldl, foldl-append}
use thumbrella.Base.{
  ℕ, ◌-◌, ◌^◌, ◌<◌, ◌≡◌, refl, sym, ap, subst, ◌∙◌, ◌⊎◌, inl, inr, true, false, Option, none, some,
  List, [], ◌∷◌, ◌++◌, map, Bytes, ascii, bytes_eq, saturating_add, unwrap_or, and_then, trim,
  to_ascii_lowercase, arith, Option-cases,
}
use thumbrella.Base.Decimal.{parse_decimal-le, split}
use thumbrella.Hints.{CacheHints, disallow_caching}
use thumbrella.Hints.Headers.{
  Headers, parse_u64, parse_u32, Scan, directive_parts, directive, scan_directive, start, scan,
  age_consumed, window, cache_control, validator, scan_headers, answer, from_response_headers,
  or_keep, revalidated, to_u32,
}

-- The directive's lowercase name.
abbrev key_of : Bytes → Bytes
key_of d = to_ascii_lowercase (directive_parts d).0

abbrev NotShared : Bytes → Type 0
NotShared d = bytes_eq (key_of d) (ascii "s-maxage") ≡ false

abbrev AllNotShared : List Bytes → Type 0
AllNotShared [] = Unit {0}
AllNotShared (d ∷ ds) = NotShared d × AllNotShared ds

directive-max_age_set :
    (s : Scan) (key : Bytes) (val : Option Bytes) (v : ℕ)
    → s.max_age ≡ some v
    → bytes_eq key (ascii "s-maxage") ≡ false
    → (directive s key val).max_age ≡ some v
unfolding directive
directive-max_age_set s key val v e other = ground arith

directive-s_maxage :
    (s : Scan) (key : Bytes) (val : Option Bytes) (v : ℕ)
    → bytes_eq key (ascii "s-maxage") ≡ true
    → and_then val parse_u64 ≡ some v
    → (directive s key val).max_age ≡ some v
unfolding directive
directive-s_maxage s key val v e read = rw (e, read) refl

keeps_max_age :
    (s : Scan) (ds : List Bytes) (v : ℕ)
    → s.max_age ≡ some v
    → AllNotShared ds
    → (foldl scan_directive s ds).max_age ≡ some v
unfolding scan_directive
keeps_max_age s [] v e h = e
keeps_max_age s (d ∷ ds) v e h =
    keeps_max_age (scan_directive s d) ds v
      (directive-max_age_set s (key_of d) (directive_parts d).1 v e h.0) h.1

-- `s-maxage` wins wherever it stands: whatever came before it, and every `max-age` behind it, is
-- overridden.
pub s_maxage_wins :
    (s : Scan) (before after : List Bytes) (d : Bytes) (v : ℕ)
    → bytes_eq (key_of d) (ascii "s-maxage") ≡ true
    → and_then (directive_parts d).1 parse_u64 ≡ some v
    → AllNotShared after
    → (foldl scan_directive s (before ++ d ∷ after)).max_age ≡ some v
unfolding scan_directive
s_maxage_wins s before after d v key read rest =
    rw (foldl-append scan_directive s before (d ∷ after)) (
      keeps_max_age (scan_directive (foldl scan_directive s before) d) after v
        (directive-s_maxage _ (key_of d) (directive_parts d).1 v key read) rest)

abbrev pub FitsU32 : Option ℕ → Type 0
FitsU32 none = Unit {0}
FitsU32 (some n) = n < 2 ^ 32

abbrev pub OneValidator : CacheHints → Type 0
OneValidator h = (h.etag ≡ none) ⊎ (h.last_modified ≡ none)

-- What every token made of response headers satisfies.
pub record IsWellFormed (h : CacheHints) : Type 0 where
  pub swr : FitsU32 h.stale_while_revalidate
  pub lifetime : FitsU32 h.max_age
  pub validators : OneValidator h

-- What the loop over the directives keeps.
record Scans (s : Scan) : Type 0 where
  swr : FitsU32 s.hints.stale_while_revalidate
  lifetime : s.hints.max_age ≡ none
  no_etag : s.hints.etag ≡ none
  no_date : s.hints.last_modified ≡ none

directive-Scans :
    (s : Scan) (key : Bytes) (val : Option Bytes) → Scans s → Scans (directive s key val)
unfolding directive
directive-Scans s key none i = ground arith
directive-Scans s key (some v) i = elim (Option-cases (parse_u32 v)) [
  | inl e ↦ ground arith
  | inr (n, e) ↦ let bound = parse_decimal-le _ v e in ground arith
]

foldl-Scans : (s : Scan) (ds : List Bytes) → Scans s → Scans (foldl scan_directive s ds)
unfolding scan_directive
foldl-Scans s [] i = i
foldl-Scans s (d ∷ ds) i =
    foldl-Scans (scan_directive s d) ds (directive-Scans s (key_of d) (directive_parts d).1 i)

scan-Scans : (cc_value : Bytes) → Scans (scan cc_value)
unfolding scan
scan-Scans cc_value =
    foldl-Scans start (map trim (split b',' cc_value))
      (record { swr = tt; lifetime = refl; no_etag = refl; no_date = refl })

-- Behind the window only the lifetime is new, and it fits.
record Windowed (s : Scan) : Type 0 where
  swr : FitsU32 s.hints.stale_while_revalidate
  lifetime : FitsU32 s.hints.max_age
  no_etag : s.hints.etag ≡ none
  no_date : s.hints.last_modified ≡ none

window-Windowed :
    (headers : Headers) (now : ℕ) (s : Scan) → Scans s → Windowed (window headers now s)
unfolding window
window-Windowed headers now s i = elim (Option-cases s.max_age) [
  | inl e ↦
      rw (e, window)
        (record {
          swr = i.swr;
          lifetime = rw i.lifetime tt;
          no_etag = i.no_etag;
          no_date = i.no_date;
        })
  | inr (n, e) ↦
      rw (e, window)
        (record {
          swr = i.swr;
          lifetime = to_u32-FitsU32 n;
          no_etag = i.no_etag;
          no_date = i.no_date;
        })
]
  where
    to_u32-FitsU32 : (n : ℕ) → FitsU32 (to_u32 n)
    to_u32-FitsU32 n = ground arith

cache_control-Windowed : (headers : Headers) (now : ℕ) → Windowed (cache_control headers now)
unfolding cache_control
cache_control-Windowed headers now = elim (Option-cases (headers (ascii "cache-control"))) [
  | inl e ↦
      rw (e, cache_control) (record { swr = tt; lifetime = tt; no_etag = refl; no_date = refl })
  | inr (v, e) ↦ rw (e, cache_control) (window-Windowed headers now (scan v) (scan-Scans v))
]

validator-IsWellFormed :
    (s : Scan) (tag date : Option Bytes) → Windowed s → IsWellFormed (validator s tag date).hints
unfolding validator
validator-IsWellFormed s none none w = record {
  swr = w.swr;
  lifetime = w.lifetime;
  validators = inl w.no_etag;
}
validator-IsWellFormed s none (some v) w = ground arith
validator-IsWellFormed s (some v) date w = ground arith

answer-hints : (s : Scan) {h : CacheHints} → answer s ≡ some h → s.hints ≡ h
unfolding answer
answer-hints s e = ground arith

-- A token made of response headers holds numbers that fit the wire format, and one validator at most.
pub from_response_headers-IsWellFormed :
    (headers : Headers) (now : ℕ) {h : CacheHints}
    → from_response_headers headers now ≡ some h
    → IsWellFormed h
unfolding from_response_headers scan_headers
from_response_headers-IsWellFormed headers now {h} e =
    subst IsWellFormed (answer-hints (scan_headers headers now) e) (
      validator-IsWellFormed (cache_control headers now) (headers (ascii "etag"))
        (headers (ascii "last-modified")) (cache_control-Windowed headers now))

validator-window :
    (s : Scan) (tag date : Option Bytes)
    → ((validator s tag date).hints.expires_at ≡ s.hints.expires_at)
      × ((validator s tag date).hints.max_age ≡ s.hints.max_age)
unfolding validator
validator-window s none none = (refl, refl)
validator-window s none (some v) = ground arith
validator-window s (some v) date = ground arith

cache_control-window :
    (headers : Headers) (now n : ℕ) (cc_value : Bytes)
    → headers (ascii "cache-control") ≡ some cc_value
    → (scan cc_value).max_age ≡ some n
    → ((cache_control headers now).hints.expires_at
        ≡ some (saturating_add now (n - age_consumed headers)))
      × ((cache_control headers now).hints.max_age ≡ to_u32 n)
unfolding cache_control window
cache_control-window headers now n cc_value policy age =
    rw (policy, cache_control, age, window) (refl, refl)

-- The new lifetime is what the response granted, less the time that it has spent in other caches.
pub from_response_headers-expires_at :
    (headers : Headers) (now n : ℕ) (cc_value : Bytes) {h : CacheHints}
    → headers (ascii "cache-control") ≡ some cc_value
    → (scan cc_value).max_age ≡ some n
    → from_response_headers headers now ≡ some h
    → (h.expires_at ≡ some (saturating_add now (n - age_consumed headers))) × (h.max_age ≡ to_u32 n)
unfolding from_response_headers scan_headers
from_response_headers-expires_at headers now n cc_value {h} cc age e =
    let kept =
      validator-window (cache_control headers now) (headers (ascii "etag"))
        (headers (ascii "last-modified")) in
    let granted = cache_control-window headers now n cc_value cc age in
    let same = answer-hints (scan_headers headers now) e in
    (
      ap (λ (x : CacheHints). x.expires_at) (sym same) ∙ kept.0 ∙ granted.0,
      ap (λ (x : CacheHints). x.max_age) (sym same) ∙ kept.1 ∙ granted.1,
    )

from_response_headers_silent :
    (headers : Headers) (now : ℕ)
    → headers (ascii "cache-control") ≡ none
    → headers (ascii "etag") ≡ none
    → headers (ascii "last-modified") ≡ none
    → from_response_headers headers now ≡ none
unfolding from_response_headers scan_headers cache_control validator answer
from_response_headers_silent headers now silent tag date =
    rw (silent, tag, date, cache_control) refl

-- A 304 that says nothing of caching restarts the clock of a reusable token, for the lifetime that
-- the origin once granted, and keeps every validator and policy that it does not replace.
pub revalidated_silent :
    (h : CacheHints) (headers : Headers) (now ttl : ℕ)
    → headers (ascii "cache-control") ≡ none
    → headers (ascii "etag") ≡ none
    → headers (ascii "last-modified") ≡ none
    → h.no_cache ≡ false
    → disallow_caching h ≡ false
    → revalidated h headers now ttl
      ≡ record h { expires_at = some (saturating_add now (unwrap_or h.max_age ttl)) }
unfolding revalidated
revalidated_silent h headers now ttl silent tag date nc dis =
    rw (from_response_headers_silent headers now silent tag date, silent) (ground arith)

-- A 304 with directives of its own replaces the policy of the token, and a window that it grants
-- becomes the expiry; without a window the clock restarts, unless reuse is now forbidden.
pub revalidated_policy :
    (h u : CacheHints) (headers : Headers) (now ttl : ℕ) (cc_value : Bytes)
    → headers (ascii "cache-control") ≡ some cc_value
    → from_response_headers headers now ≡ some u
    → let r = revalidated h headers now ttl in
      (r.no_store ≡ u.no_store)
      × (r.private ≡ u.private)
      × (r.no_cache ≡ u.no_cache)
      × (r.immutable ≡ u.immutable)
      × (r.stale_while_revalidate ≡ u.stale_while_revalidate)
      × (r.max_age ≡ or_keep u.max_age h.max_age)
      × (r.etag ≡ or_keep u.etag h.etag)
      × (r.last_modified ≡ or_keep u.last_modified h.last_modified)
      × ((u.expires_at ≡ none) ⊎ (r.expires_at ≡ u.expires_at))
unfolding revalidated
revalidated_policy h u headers now ttl cc_value policy e = rw (e, policy) (ground arith)
