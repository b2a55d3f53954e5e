-- ===== src/Hints.antt =====
-- `CacheHints` of tier1/src/source.rs: the record, and the policy questions asked of it.
-- The clock is an argument; a string is the list of its bytes.

pub mod Wire
pub mod Trim
pub mod Fields
pub mod Followed
pub mod RoundTrip
pub mod Headers
pub mod Freshness
use thumbrella.Base.{
  ℕ, ◌+◌, ◌%◌, ◌^◌, Bool, true, false, not, ◌&&◌, ◌||◌, Option, none, some, Bytes, ascii, ltb,
  if◌then◌else◌, is_some_and,
}

pub record CacheHints : Type 0 where
  pub expires_at : Option ℕ
  pub stale_while_revalidate : Option ℕ
  pub max_age : Option ℕ
  pub immutable : Bool
  pub etag : Option Bytes
  pub last_modified : Option Bytes
  pub no_store : Bool
  pub private : Bool
  pub no_cache : Bool

-- `CacheHints::default()`.
abbrev pub default : CacheHints
default = record {
  expires_at = none;
  stale_while_revalidate = none;
  max_age = none;
  immutable = false;
  etag = none;
  last_modified = none;
  no_store = false;
  private = false;
  no_cache = false;
}

-- The request header that a validator becomes.
pub data Conditional : Type 0 where
  if_none_match : Bytes → Conditional
  if_modified_since : Bytes → Conditional

unfoldable pub disallow_caching : CacheHints → Bool
disallow_caching h = h.no_store || h.private

unfoldable pub to_conditional : CacheHints → Option Conditional
to_conditional h = elim h.etag [
  | some tag ↦ some (if_none_match tag)
  | none ↦ elim h.last_modified [ some date ↦ some (if_modified_since date) | none ↦ none ]
]

unfoldable pub is_fresh : CacheHints → ℕ → Bool
unfolding disallow_caching
is_fresh h now = not h.no_cache && not (disallow_caching h) && is_some_and h.expires_at (ltb now)

-- `unix_now_secs() + secs` wraps in a release build.
unfoldable pub expiring_in : ℕ → ℕ → CacheHints
expiring_in now secs = record default { expires_at = some ((now + secs) % 2 ^ 64) }

unfoldable pub with_min_expiry : CacheHints → ℕ → ℕ → CacheHints
with_min_expiry h now secs =
    let floor = (now + secs) % 2 ^ 64 in
    if is_some_and h.expires_at (λ e. not (ltb e floor))
    then h
    else record h { expires_at = some floor }
