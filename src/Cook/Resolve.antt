-- ===== src/Cook/Resolve.antt =====
-- `ThumbCook::resolve_cache` of tier1/src/cook.rs: the sticky result, the hints of the client, the
-- durable cache and the connection, in this order.
pub mod Ends
pub mod Confirmed
pub mod Renewals
use thumbrella.Base.{
  ℕ, Bool, true, false, not, Option, none, some, List, [], ◌∷◌, Bytes, ascii, if◌then◌else◌,
  is_some, is_empty, unwrap_or, and_then, is_some_and,
}
use thumbrella.Cache.Backend.{Backend}
use thumbrella.Cache.Entry
use thumbrella.Cache.Entry.{CacheEntry, set_cache, retention_deadline}
use thumbrella.Cache.Store.{Deferred, check_entry, revalidate}
use thumbrella.Cache.Moka.{Moka}
use thumbrella.Cook.Connect.{Transport, connect}
use thumbrella.FetchGuard.{Failure, Hold}
use thumbrella.Inspect.{canonical_extension}
use thumbrella.Cook.{CookStatus, ThumbCook}
use thumbrella.Hints.{CacheHints, is_fresh, to_conditional}
use thumbrella.Hints.Headers.{revalidated}
use thumbrella.Hints.Wire.{Base64, encode, decode}
use thumbrella.Media.{ThumbMedia, ThumbResult, ResultStatus, ResultSource}
use thumbrella.Source.{canonical_url}

-- What the request shares with others, and what it leaves to run behind the response.
pub record World (T SO SU : Type 0) : Type 0 where
  pub cache : T
  pub origins : SO
  pub urls : SU
  pub after : List (Deferred T)

-- `restore_cached_media`
unfoldable pub restore_cached_media : ThumbCook → ThumbMedia → Bytes → ThumbCook
unfolding canonical_extension
restore_cached_media c media backend = record c {
  out_thumbnail = media.thumbnail;
  media = record {
    file_size = some media.file_size;
    kind = some media.kind;
    extension = some (canonical_extension media.extension);
    mime = some media.mime;
    properties = some media.properties;
  };
  out_placeholder = if is_empty media.placeholder then none else some media.placeholder;
  cache_hit = some backend;
}

-- The status of a request that is answered with the result of another one.
abbrev pub sticky_status : ResultStatus → CookStatus
sticky_status ResultStatus.failed = CookStatus.failed
sticky_status ResultStatus.overloaded = CookStatus.overloaded
sticky_status ResultStatus.success = CookStatus.complete
sticky_status ResultStatus.intermediate = CookStatus.complete
sticky_status ResultStatus.batch_limit = CookStatus.complete

-- A result that is not the client's own copy comes from the cache.
abbrev pub as_cached : ThumbResult → ThumbResult
as_cached result = elim result.source [
  | none ↦ record result { source = some ResultSource.cache }
  | some source ↦ elim source [
    | ResultSource.not_modified ↦ result
    | ResultSource.render ↦ record result { source = some ResultSource.cache }
    | ResultSource.shortcut ↦ record result { source = some ResultSource.cache }
    | ResultSource.cache ↦ record result { source = some ResultSource.cache }
    | ResultSource.fallback ↦ record result { source = some ResultSource.cache }
    | ResultSource.placeholder ↦ record result { source = some ResultSource.cache }
    | ResultSource.client ↦ record result { source = some ResultSource.cache }
  ]
]

unfoldable pub answered_sticky : ThumbCook → ThumbResult → ThumbCook
answered_sticky c result = record c {
  status = sticky_status result.status;
  cache_hit = some (ascii "sticky");
  debounce_result = some (as_cached result);
}

abbrev pub cache_key_of : ThumbCook → Bytes
cache_key_of c = unwrap_or c.ctx_cache_key (unwrap_or (canonical_url c.url) c.url)

-- The request and the world, and whether the request is resolved.
abbrev pub Resolved : Type 0 → Type 0 → Type 0 → Type 0
Resolved T SO SU = ThumbCook × World T SO SU × Bool

-- What the request uses of its runtime.
pub record Runtime (T SO SU : Type 0) : Type 0 where
  pub b64 : Base64
  pub backend : Option (Backend T)
  pub origins : Moka SO Hold
  pub urls : Moka SU Failure
  pub transport : Transport
  pub backoff_default : ℕ
  pub cache_default_ttl_secs : ℕ

module _ {T SO SU : Type 0} (runtime : Runtime T SO SU) where
  unfoldable pub cache_expires_at : ThumbCook → ℕ → ℕ
  cache_expires_at c now =
      retention_deadline now c.src.cache_hints c.default_cache_ttl runtime.cache_default_ttl_secs
        c.cache_max_ttl_secs

  -- A 304 to the validator of a stored entry brings the entry back and renews it behind the response.
  unfoldable pub renew :
      ThumbCook
      → World T SO SU
      → CacheHints
      → Option (CacheEntry × Bytes)
      → ℕ
      → ThumbCook × World T SO SU
  unfolding revalidate encode
  renew c w refreshed none now = (c, w)
  renew c w refreshed (some (entry, name)) now =
      let c' = restore_cached_media c entry.media name in
      let renewed =
        record (set_cache runtime.b64 entry
          (encode runtime.b64 refreshed runtime.cache_default_ttl_secs now)) {
            cache_until = cache_expires_at c' now;
            last_accessed_at = now;
          } in
      (
        c',
        record w {
          after = revalidate runtime.backend (cache_key_of c) renewed entry.media.cache w.after;
        },
      )

  -- After a 304: the hints that the request carried, revalidated. Without any the source panics.
  unfoldable pub unchanged :
      ThumbCook
      → World T SO SU
      → Option CacheHints
      → Option (CacheEntry × Bytes)
      → ℕ
      → Resolved T SO SU
  unfolding renew revalidated
  unchanged c w none validated now = (c, w, true)
  unchanged c w (some prior) validated now =
      let refreshed = revalidated prior c.http_headers runtime.cache_default_ttl_secs now in
      let (c', w') =
        renew (record c { src = record (c.src) { cache_hints = some refreshed } }) w refreshed
          validated now in
      (c', w', true)

  -- The end of `resolve_cache`, by the status of the connection.
  unfoldable pub connected :
      CookStatus → ThumbCook → World T SO SU → Option (CacheEntry × Bytes) → ℕ → Resolved T SO SU
  unfolding unchanged
  connected CookStatus.processing c w validated now = (c, w, false)
  connected CookStatus.fresh c w validated now = unchanged c w c.input_cache validated now
  connected CookStatus.complete c w validated now = (c, w, true)
  connected CookStatus.failed c w validated now = (c, w, true)
  connected CookStatus.overloaded c w validated now = (c, w, true)
  connected CookStatus.intermediate c w validated now = (c, w, true)

  -- `validated` is the stored entry whose validator the request carries.
  unfoldable pub over_connection :
      ThumbCook → World T SO SU → Option (CacheEntry × Bytes) → ℕ → Resolved T SO SU
  unfolding connect connected
  over_connection c w validated now =
      let (c1, so, su) =
        connect runtime.origins runtime.urls runtime.transport runtime.backoff_default c w.origins
          w.urls now in
      connected c1.status c1 (record w { origins = so; urls = su }) validated now

  -- The hints of a stored entry that can validate it.
  abbrev pub validator_of : CacheEntry → Option CacheHints
  validator_of entry =
      and_then (decode runtime.b64 entry.media.cache)
        (λ hints. if is_some (to_conditional hints) then some hints else none)

  -- A stale entry is validated where it has hints for that.
  unfoldable pub validate :
      ThumbCook → World T SO SU → CacheEntry × Bytes → Option CacheHints → ℕ → Resolved T SO SU
  unfolding over_connection
  validate c w found none now = over_connection c w none now
  validate c w found (some hints) now =
      over_connection (record c { input_cache = some hints }) w (some found) now

  -- A fresh entry of the durable cache.
  unfoldable pub answered_stored : ThumbCook → CacheEntry → Bytes → ThumbCook
  unfolding restore_cached_media
  answered_stored c entry name =
      let c' = restore_cached_media c entry.media name in
      record c' {
        src = record (c'.src) { cache_hints = decode runtime.b64 entry.media.cache };
        status = CookStatus.complete;
      }

  unfoldable pub from_store :
      ThumbCook → World T SO SU → Option (CacheEntry × Bytes) → ℕ → Resolved T SO SU
  unfolding validate answered_stored
  from_store c w none now = over_connection c w none now
  from_store c w (some (entry, name)) now =
      let stale = validate c w (entry, name) (validator_of entry) now in
      if Entry.is_fresh entry now then (answered_stored c entry name, w, true) else stale

  -- The durable cache, which a handoff does not ask.
  unfoldable pub past_client : ThumbCook → World T SO SU → ℕ → Bool → Resolved T SO SU
  unfolding from_store check_entry
  past_client c w now true = from_store c w none now
  past_client c w now false =
      let (t, found) = check_entry runtime.backend w.cache now (cache_key_of c) c.default_pin_ttl in
      from_store c (record w { cache = t }) found now

  -- Behind the sticky result: the hints of the client.
  unfoldable pub past_sticky : ThumbCook → World T SO SU → ℕ → Resolved T SO SU
  unfolding past_client is_fresh
  past_sticky c w now =
      if is_some_and c.input_cache (λ h. is_fresh h now)
      then (
        record c {
          src = record (c.src) { cache_hints = c.input_cache };
          status = CookStatus.fresh;
        },
        w,
        true,
      )
      else past_client c w now c.ctx_handoff

  -- `debounced` is what `debounce_lookup` gives for the key.
  unfoldable pub answered_or : ThumbCook → World T SO SU → Option ThumbResult → ℕ → Resolved T SO SU
  unfolding past_sticky answered_sticky
  answered_or c w none now = past_sticky c w now
  answered_or c w (some result) now = (answered_sticky c result, w, true)

  unfoldable pub resolve_cache :
      ThumbCook → World T SO SU → Option ThumbResult → ℕ → Resolved T SO SU
  unfolding answered_or
  resolve_cache c w debounced now =
      let c0 = record c { cache_resolved = true } in
      if c.ctx_handoff
      then past_sticky c0 w now
      else answered_or (record c0 { src = record (c.src) { cache_key = some (cache_key_of c) } }) w
          debounced now
