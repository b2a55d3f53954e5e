-- ===== src/Hints/Headers.antt =====
-- `CacheHints::from_response_headers` and `CacheHints::revalidated` of tier1/src/source.rs. The
-- headers are a function from lowercase names; values are ASCII.
use mathlib.Core.List.{foldl}
use thumbrella.Base.{
  ℕ, ◌-◌, ◌^◌, Bool, true, false, not, ◌&&◌, Option, none, some, map, Bytes, ascii, bytes_eq, leb,
  u64_max, saturating_add, if◌then◌else◌, is_some, is_empty, unwrap_or, and_then, split_once, trim,
  to_ascii_lowercase,
}
use thumbrella.Base.Decimal.{parse_decimal, split}
use thumbrella.Hints.{CacheHints, default, disallow_caching}

abbrev pub Headers : Type 0
Headers = Bytes → Option Bytes

abbrev pub parse_u64 : Bytes → Option ℕ
parse_u64 = parse_decimal u64_max

abbrev pub parse_u32 : Bytes → Option ℕ
parse_u32 = parse_decimal (2 ^ 32 - 1)

-- The variables of the loop over the directives.
pub record Scan : Type 0 where
  pub hints : CacheHints
  pub max_age : Option ℕ
  pub any : Bool

-- `directive.split_once('=')`, each side trimmed.
unfoldable pub directive_parts : Bytes → Bytes × Option Bytes
directive_parts d = elim (split_once b'=' d) [
  | some (k, v) ↦ (trim k, some (trim v))
  | none ↦ (d, none)
]

abbrev set_max_age : Scan → Option ℕ → Scan
set_max_age s none = s
set_max_age s (some v) = record s { max_age = some v }

abbrev set_swr : Scan → Option ℕ → Scan
set_swr s none = s
set_swr s (some v) = record s {
  hints = record (s.hints) { stale_while_revalidate = some v };
  any = true;
}

abbrev flag : Scan → CacheHints → Scan
flag s h = record s { hints = h; any = true }

-- The `match` on the lowercase key.
unfoldable pub directive : Scan → Bytes → Option Bytes → Scan
directive s key val =
    if bytes_eq key (ascii "s-maxage")
    then set_max_age s (and_then val parse_u64)
    else if bytes_eq key (ascii "max-age") && not (is_some s.max_age)
    then set_max_age s (and_then val parse_u64)
    else if bytes_eq key (ascii "immutable")
    then flag s (record (s.hints) { immutable = true })
    else if bytes_eq key (ascii "stale-while-revalidate")
    then set_swr s (and_then val parse_u32)
    else if bytes_eq key (ascii "no-store")
    then flag s (record (s.hints) { no_store = true })
    else if bytes_eq key (ascii "no-cache")
    then flag s (record (s.hints) { no_cache = true })
    else if bytes_eq key (ascii "private")
    then flag s (record (s.hints) { private = true })
    else s

unfoldable pub scan_directive : Scan → Bytes → Scan
unfolding directive directive_parts
scan_directive s d = directive s (to_ascii_lowercase (directive_parts d).0) (directive_parts d).1

abbrev pub start : Scan
start = record { hints = default; max_age = none; any = false }

unfoldable pub scan : Bytes → Scan
unfolding scan_directive
scan cc_value = foldl scan_directive start (map trim (split b',' cc_value))

-- `u32::try_from(age_secs).ok()`.
abbrev pub to_u32 : ℕ → Option ℕ
to_u32 n = if leb n (2 ^ 32 - 1) then some n else none

unfoldable pub age_consumed : Headers → ℕ
age_consumed headers = unwrap_or (and_then (headers (ascii "age")) (λ v. parse_u64 (trim v))) 0

-- Behind the loop: the freshness window.
unfoldable pub window : Headers → ℕ → Scan → Scan
unfolding age_consumed
window headers now s = elim s.max_age [
  | none ↦ s
  | some age_secs ↦ record s {
    hints = record (s.hints) {
      expires_at = some (saturating_add now (age_secs - age_consumed headers));
      max_age = to_u32 age_secs;
    };
    any = true;
  }
]

unfoldable pub cache_control : Headers → ℕ → Scan
unfolding scan window
cache_control headers now = elim (headers (ascii "cache-control")) [
  | none ↦ start
  | some cc_value ↦ window headers now (scan cc_value)
]

unfoldable pub validator : Scan → Option Bytes → Option Bytes → Scan
validator s (some v) date =
    if is_empty (trim v) then s else flag s (record (s.hints) { etag = some (trim v) })
validator s none (some v) =
    if is_empty (trim v) then s else flag s (record (s.hints) { last_modified = some (trim v) })
validator s none none = s

unfoldable pub scan_headers : Headers → ℕ → Scan
unfolding cache_control validator
scan_headers headers now =
    validator (cache_control headers now) (headers (ascii "etag")) (headers (ascii "last-modified"))

-- `if any { Some(hints) } else { None }`.
unfoldable pub answer : Scan → Option CacheHints
answer s = if s.any then some s.hints else none

unfoldable pub from_response_headers : Headers → ℕ → Option CacheHints
from_response_headers headers now = answer (scan_headers headers now)

-- `if updated.x.is_some() { merged.x = updated.x; }`.
abbrev pub or_keep {ℓ} : {A : Type ℓ} → Option A → Option A → Option A
or_keep (some v) old = some v
or_keep none old = old

-- The directives of a 304 that has `Cache-Control` replace the stored ones as a whole.
unfoldable pub merge_policy : Bool → CacheHints → CacheHints → CacheHints
merge_policy false merged updated = merged
merge_policy true merged updated = record merged {
  no_cache = updated.no_cache;
  no_store = updated.no_store;
  private = updated.private;
  immutable = updated.immutable;
  stale_while_revalidate = updated.stale_while_revalidate;
  max_age = or_keep updated.max_age merged.max_age;
}

unfoldable pub merge : Bool → CacheHints → Option CacheHints → CacheHints
unfolding merge_policy
merge has_policy merged none = merged
merge has_policy merged (some updated) =
    let m = merge_policy has_policy merged updated in
    record m {
      expires_at = or_keep updated.expires_at m.expires_at;
      etag = or_keep updated.etag m.etag;
      last_modified = or_keep updated.last_modified m.last_modified;
    }

abbrev pub explicit_window : Bool → Option CacheHints → Bool
explicit_window has_policy none = false
explicit_window has_policy (some updated) = has_policy && is_some updated.expires_at

-- The freshness clock restarts unless the response gave a window or forbids reuse.
unfoldable pub restart : Bool → CacheHints → ℕ → ℕ → CacheHints
restart explicit merged now default_ttl_secs =
    if not explicit && not merged.no_cache && not (disallow_caching merged)
    then record merged {
      expires_at = some (saturating_add now (unwrap_or merged.max_age default_ttl_secs));
    }
    else merged

unfoldable pub revalidated : CacheHints → Headers → ℕ → ℕ → CacheHints
unfolding merge restart
revalidated h headers now default_ttl_secs =
    let updated = from_response_headers headers now in
    let has_policy = is_some (headers (ascii "cache-control")) in
    restart (explicit_window has_policy updated) (merge has_policy h updated) now default_ttl_secs
