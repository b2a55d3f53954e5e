-- ===== src/Cache/Deadlines.antt =====
-- The deadlines of a `CacheEntry` of tier1/src/cache/mod.rs, and where they come from.
use thumbrella.Base.{
  ℕ, ◌≤◌, ◌≡◌, refl, ◌∙◌, ◌⊎◌, Bool, true, false, ◌||◌, none, some, [], Bytes, min, if◌then◌else◌,
  saturating_add, arith, ltb, unwrap_or, split_once,
}
use thumbrella.Hints.{CacheHints, disallow_caching, to_conditional}
use thumbrella.Hints.Wire.{Base64, decode, encode, epoch}
use thumbrella.Hints.RoundTrip.{IsBase64, IsSent, received, decode-encode_received}
use thumbrella.Media.{ThumbMedia}
use thumbrella.Cache.Entry.{
  CacheEntry, clear_url, freshness_deadline, new, is_fresh, set_cache, retain_until, access,
  metadata, with_media, retention_deadline,
}

-- The deadline that a lookup goes by.
abbrev deadline : CacheEntry → Bool → ℕ
deadline e pin = if pin then e.pin_until else e.cache_until

-- A lookup hits exactly while its own deadline lies ahead. It never moves the freshness or the
-- cache deadline nor the payload, never shortens the pin, extends it by an ordinary hit alone, and
-- leaves the entry alone on a miss.
pub access_lem :
    (e : CacheEntry) (now : ℕ) (pin : Bool) (pin_ttl : ℕ)
    → let (e', hit) = access e now pin pin_ttl in
      (hit ≡ ltb now (deadline e pin))
      × (e'.media ≡ e.media)
      × (e'.fresh_until ≡ e.fresh_until)
      × (e'.cache_until ≡ e.cache_until)
      × (e'.render_cost ≡ e.render_cost)
      × (e.pin_until ≤ e'.pin_until)
      × ((e'.pin_until ≡ e.pin_until)
          ⊎ ((hit ≡ true) × (pin ≡ false) × (e'.pin_until ≡ saturating_add now pin_ttl)))
      × ((hit ≡ true) ⊎ (e' ≡ e))
unfolding access
access_lem e now pin pin_ttl = ground arith

-- An entry that is stored is found by an ordinary lookup exactly until its cache deadline, and by a
-- pin lookup for `pin_ttl` seconds from the store, which a zero `pin_ttl` disables.
pub access-new :
    (b64 : Base64) (m : ThumbMedia) (cost cache_until pin_ttl now later : ℕ)
    → ((access (new b64 m cost cache_until pin_ttl now) later false 0).1 ≡ ltb later cache_until)
      × ((access (new b64 m cost cache_until pin_ttl now) later true 0).1
          ≡ (if ltb 0 pin_ttl then ltb later (saturating_add now pin_ttl) else false))
unfolding access new
access-new b64 m cost cache_until pin_ttl now later = ground arith

-- A lookup never turns an expired entry into a retained one, and never drops a retained one early.
pub retain_until-access :
    (e : CacheEntry) (now : ℕ) (pin : Bool) (pin_ttl : ℕ)
    → retain_until e ≤ now
    → (access e now pin pin_ttl ≡ (e, false))
unfolding retain_until access
retain_until-access e now pin pin_ttl h = ground arith

-- Metadata that travels between backends renews no deadline, and the source URL does not travel.
pub with_media-metadata :
    (e : CacheEntry) (m : ThumbMedia) → with_media (metadata e) m ≡ record e { media = clear_url m }
unfolding with_media metadata
with_media-metadata e m = refl

freshness_deadline-decode :
    (b64 : Base64) (token : Bytes) (h : CacheHints)
    → decode b64 token ≡ some h
    → freshness_deadline b64 token
      ≡ (if h.no_cache || disallow_caching h then 0 else unwrap_or h.expires_at 0)
unfolding freshness_deadline
freshness_deadline-decode b64 token h e = rw (e, freshness_deadline) (ground arith)

-- The server reads back the freshness that it sent: an entry stored with a client's token is fresh
-- until the date in the token, and a `no-cache` one never is.
pub freshness_deadline-encode :
    {b64 : Base64} (engine : IsBase64 b64) (h : CacheHints) (now ttl : ℕ)
    → IsSent h (epoch h now ttl)
    → freshness_deadline b64 (encode b64 h now ttl) ≡ (if h.no_cache then 0 else epoch h now ttl)
freshness_deadline-encode {b64} engine h now ttl s =
    freshness_deadline-decode b64 (encode b64 h now ttl) (received h (epoch h now ttl))
      (decode-encode_received engine h now ttl s)
    ∙ unfold disallow_caching in ground arith

encode_uncacheable :
    (b64 : Base64) (h : CacheHints) (now ttl : ℕ)
    → disallow_caching h ≡ true
    → encode b64 h now ttl ≡ []
unfolding encode disallow_caching
encode_uncacheable b64 h now ttl d = rw d

freshness_deadline-nil : (b64 : Base64) → freshness_deadline b64 [] ≡ 0
unfolding freshness_deadline decode split_once
freshness_deadline-nil b64 = refl

-- What must not be stored has an empty token, and an entry with that token is never fresh.
pub is_fresh_uncacheable :
    (b64 : Base64) (h : CacheHints) (e : CacheEntry) (now ttl later : ℕ)
    → disallow_caching h ≡ true
    → is_fresh (set_cache b64 e (encode b64 h now ttl)) later ≡ false
unfolding is_fresh set_cache
is_fresh_uncacheable b64 h e now ttl later d =
    rw (encode_uncacheable b64 h now ttl d, freshness_deadline-nil b64) (ground arith)

-- Retention is never longer than the configured maximum; what must not be stored has none; media
-- with a validator is kept for the cache lifetime, other media until it is stale.
pub retention_deadline_lem :
    (now : ℕ) (h : CacheHints) (cache_ttl fresh_ttl max_ttl : ℕ)
    → let d = retention_deadline now (some h) cache_ttl fresh_ttl max_ttl in
      (d ≤ saturating_add now max_ttl)
      × ((disallow_caching h ≡ false) ⊎ (d ≡ 0))
      × ((disallow_caching h ≡ true)
          ⊎ ((to_conditional h ≡ none)
              × (d ≤ unwrap_or h.expires_at (saturating_add now fresh_ttl)))
          ⊎ ((d ≡ saturating_add now (min cache_ttl max_ttl))))
unfolding retention_deadline
retention_deadline_lem now h cache_ttl fresh_ttl max_ttl = ground arith
