-- ===== src/Cook/Resolve/Confirmed.antt =====
-- What the connection of `resolve_cache` in tier1/src/cook.rs leaves to run, when it has validated an entry.
use thumbrella.Base.{
  ℕ, ◌≡◌, refl, ap, subst, ◌∙◌, ◌⊎◌, inl, inr, Option, none, some, List, Bytes, unwrap_or, arith,
}
use thumbrella.Cache.Entry.{CacheEntry, set_cache}
use thumbrella.Cache.Store.{Deferred, revalidate}
use thumbrella.Cook.{CookStatus, ThumbCook}
use thumbrella.Cook.Connect.{connect}
use thumbrella.Cook.Connect.Outcomes.{Begun, connect-Outcome}
use thumbrella.Cook.Resolve.{
  Runtime, World, Resolved, cache_key_of, restore_cached_media, renew, unchanged, connected,
  over_connection,
}
use thumbrella.Hints.{CacheHints}
use thumbrella.Source.{canonical_url}

-- A stored entry is served and its renewal queued, for a 304.
pub record Renewal {T SO SU : Type 0} (runtime : Runtime T SO SU) (key : Bytes) (entry : CacheEntry)
    (carried : Option CacheHints) (after : List (Deferred T)) (r : Resolved T SO SU) : Type 0 where
  pub answer : r.0.status ≡ CookStatus.fresh
  pub asked : r.0.input_cache ≡ carried
  pub told : r.0.http_status ≡ some 304
  pub served : r.0.out_thumbnail ≡ entry.media.thumbnail
  pub renewed : CacheEntry
  pub same_bytes : renewed.media.thumbnail ≡ entry.media.thumbnail
  pub queued : r.1.after ≡ revalidate runtime.backend key renewed entry.media.cache after

key_kept :
    (c' c : ThumbCook)
    → c'.url ≡ c.url
    → c'.ctx_cache_key ≡ c.ctx_cache_key
    → cache_key_of c' ≡ cache_key_of c
key_kept c' c url key =
    ap (λ k. unwrap_or k (unwrap_or (canonical_url c'.url) c'.url)) key
    ∙ ap (λ u. unwrap_or c.ctx_cache_key (unwrap_or (canonical_url u) u)) url

none-some : {A : Type 0} {a : A} → none ≡ some a → ⊥
none-some h = ground arith

module _ {T SO SU : Type 0} (runtime : Runtime T SO SU) where
  abbrev pub Left :
      Bytes
      → Option CacheHints
      → List (Deferred T)
      → Option (CacheEntry × Bytes)
      → Resolved T SO SU
      → Type 0
  Left key carried after validated r =
      (r.1.after ≡ after)
      ⊎ ((found : CacheEntry × Bytes) × (validated ≡ some found)
          × Renewal runtime key found.0 carried after r)

  unchanged-Left :
      (c : ThumbCook) (w : World T SO SU) (prior : Option CacheHints)
      (validated : Option (CacheEntry × Bytes)) (now : ℕ)
      → c.status ≡ CookStatus.fresh
      → c.http_status ≡ some 304
      → Left
          (cache_key_of c)
          c.input_cache
          w.after
          validated
          (unchanged runtime c w prior validated now)
  unfolding unchanged renew restore_cached_media set_cache
  unchanged-Left c w none validated now e told = inl refl
  unchanged-Left c w (some prior) none now e told = inl refl
  unchanged-Left c w (some prior) (some (entry, name)) now e told = inr (
    (entry, name),
    refl,
    record {
      answer = e;
      asked = refl;
      told = told;
      served = refl;
      renewed = _;
      same_bytes = refl;
      queued = refl;
    },
  )

  connected-Left :
      (s : CookStatus) (c : ThumbCook) (w : World T SO SU) (validated : Option (CacheEntry × Bytes))
      (now : ℕ)
      → c.status ≡ s
      → (s ≡ CookStatus.fresh → c.http_status ≡ some 304)
      → Left
          (cache_key_of c)
          c.input_cache
          w.after
          validated
          (connected runtime s c w validated now)
  unfolding connected
  connected-Left CookStatus.processing c w validated now e told = inl refl
  connected-Left CookStatus.fresh c w validated now e told =
      unchanged-Left c w c.input_cache validated now e (told refl)
  connected-Left CookStatus.complete c w validated now e told = inl refl
  connected-Left CookStatus.failed c w validated now e told = inl refl
  connected-Left CookStatus.overloaded c w validated now e told = inl refl
  connected-Left CookStatus.intermediate c w validated now e told = inl refl

  abbrev met : ThumbCook → World T SO SU → ℕ → ThumbCook × SO × SU
  met c w now =
      connect runtime.origins runtime.urls runtime.transport runtime.backoff_default c w.origins
        w.urls now

  pub over_connection-Left :
      (c : ThumbCook) (w : World T SO SU) (validated : Option (CacheEntry × Bytes)) (now : ℕ)
      → Begun c
      → Left
          (cache_key_of c)
          c.input_cache
          w.after
          validated
          (over_connection runtime c w validated now)
  unfolding over_connection
  over_connection-Left c w validated now begun =
      let end =
        connect-Outcome runtime.origins runtime.urls runtime.transport runtime.backoff_default c
          w.origins w.urls now begun in
      subst
        (λ carried.
          Left (cache_key_of c) carried w.after validated
            (over_connection runtime c w validated now))
        end.same_hints
        (subst
          (λ key.
            Left key (met c w now).0.input_cache w.after validated
              (over_connection runtime c w validated now))
          (key_kept (met c w now).0 c end.same_url end.same_key)
          (connected-Left (met c w now).0.status (met c w now).0
            (record w { origins = (met c w now).1; urls = (met c w now).2 }) validated now refl
            (λ f. (end.unchanged f).1)))

  pub without :
      (key : Bytes) (carried : Option CacheHints) (after : List (Deferred T)) (r : Resolved T SO SU)
      → Left key carried after none r
      → r.1.after ≡ after
  without key carried after r (inl e) = e
  without key carried after r (inr (found, e, renewal)) = absurd (none-some e)
