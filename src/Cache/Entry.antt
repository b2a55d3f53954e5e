-- ===== src/Cache/Entry.antt =====
-- `CacheEntry` of tier1/src/cache/mod.rs: one payload with a freshness, a cache and a pin deadline.
use thumbrella.Base.{
  ℕ, Bool, true, false, not, ◌&&◌, Option, none, some, [], Bytes, ltb, leb, ◌==◌, min, max,
  if◌then◌else◌, saturating_add, unwrap_or,
}
use thumbrella.Hints.{CacheHints, disallow_caching, to_conditional}
use thumbrella.Hints.Wire.{Base64, decode}
use thumbrella.Media.{ThumbMedia}

pub record CacheEntry : Type 0 where
  pub media : ThumbMedia
  pub fresh_until : ℕ
  pub cache_until : ℕ
  pub pin_until : ℕ
  pub last_accessed_at : ℕ
  pub render_cost : ℕ

pub record CacheEntryMetadata : Type 0 where
  pub fresh_until : ℕ
  pub cache_until : ℕ
  pub pin_until : ℕ
  pub last_accessed_at : ℕ
  pub render_cost : ℕ

-- `media.url.clear()`.
abbrev pub clear_url : ThumbMedia → ThumbMedia
clear_url m = record m { url = [] }

-- The filter of `freshness_deadline`.
abbrev pub reusable : CacheHints → Bool
reusable h = not h.no_cache && not (disallow_caching h)

unfoldable pub freshness_deadline : Base64 → Bytes → ℕ
freshness_deadline b64 token = elim (decode b64 token) [
  | none ↦ 0
  | some hints ↦ if reusable hints then unwrap_or hints.expires_at 0 else 0
]

unfoldable pub new : Base64 → ThumbMedia → ℕ → ℕ → ℕ → ℕ → CacheEntry
new b64 m cost cache_until pin_ttl now = record {
  media = clear_url m;
  fresh_until = freshness_deadline b64 m.cache;
  cache_until = cache_until;
  pin_until = if pin_ttl == 0 then 0 else saturating_add now pin_ttl;
  last_accessed_at = now;
  render_cost = cost;
}

unfoldable pub is_fresh : CacheEntry → ℕ → Bool
is_fresh e now = ltb now e.fresh_until

unfoldable pub set_cache : Base64 → CacheEntry → Bytes → CacheEntry
set_cache b64 e token = record e {
  media = record (e.media) { cache = token };
  fresh_until = freshness_deadline b64 token;
}

unfoldable pub retain_until : CacheEntry → ℕ
retain_until e = max e.cache_until e.pin_until

-- A hit notes the access, and an ordinary one extends the pin; a miss changes nothing.
unfoldable pub access : CacheEntry → ℕ → Bool → ℕ → CacheEntry × Bool
access e now pin pin_ttl =
    if leb (if pin then e.pin_until else e.cache_until) now then (e, false) else (
      record e {
        last_accessed_at = now;
        pin_until =
            if not pin && ltb 0 pin_ttl
            then max e.pin_until (saturating_add now pin_ttl)
            else e.pin_until;
      },
      true,
    )

unfoldable pub lookup : CacheEntry → ℕ → Bool → ℕ → CacheEntry × Option ThumbMedia
unfolding access
lookup e now pin pin_ttl =
    let (e', hit) = access e now pin pin_ttl in (e', if hit then some e'.media else none)

unfoldable pub metadata : CacheEntry → CacheEntryMetadata
metadata e = record {
  fresh_until = e.fresh_until;
  cache_until = e.cache_until;
  pin_until = e.pin_until;
  last_accessed_at = e.last_accessed_at;
  render_cost = e.render_cost;
}

unfoldable pub with_media : CacheEntryMetadata → ThumbMedia → CacheEntry
with_media d m = record {
  media = clear_url m;
  fresh_until = d.fresh_until;
  cache_until = d.cache_until;
  pin_until = d.pin_until;
  last_accessed_at = d.last_accessed_at;
  render_cost = d.render_cost;
}

-- How long a stored entry is kept, from the hints of its source.
unfoldable pub retention_deadline : ℕ → Option CacheHints → ℕ → ℕ → ℕ → ℕ
retention_deadline now none default_cache_ttl default_freshness_ttl max_ttl = 0
retention_deadline now (some hints) default_cache_ttl default_freshness_ttl max_ttl =
    if disallow_caching hints
    then 0
    else min
        (elim (to_conditional hints) [
          | some _ ↦ saturating_add now default_cache_ttl
          | none ↦ unwrap_or hints.expires_at (saturating_add now default_freshness_ttl)
        ])
        (saturating_add now max_ttl)
