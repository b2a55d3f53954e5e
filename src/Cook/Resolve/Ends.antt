-- ===== src/Cook/Resolve/Ends.antt =====
-- When `resolve_cache` of tier1/src/cook.rs has answered the request.
use thumbrella.Base.{
  ℕ, ◌≡◌, refl, sym, ap, ◌∙◌, inl, inr, Bool, true, false, Option, none, some, Bytes, is_some,
  is_some_and, Bool-cases,
}
use thumbrella.Cache.Entry
use thumbrella.Cache.Entry.{CacheEntry}
use thumbrella.Cook.{CookStatus, ThumbCook, is_processing}
use thumbrella.Cook.Connect.Outcomes.{Begun, connect-Outcome}
use thumbrella.Cook.Resolve.{
  Runtime, connected, unchanged, restore_cached_media, World, Resolved, sticky_status, renew,
  over_connection, validate, validator_of, from_store, past_client, past_sticky, resolve_cache,
  answered_or, answered_sticky, answered_stored,
}
use thumbrella.Hints.{CacheHints, is_fresh}
use thumbrella.Media.{ThumbResult, ResultStatus}

-- The request is answered, or its connection is installed and the pipeline goes on.
pub data Ending {T SO SU : Type 0} : Resolved T SO SU → Type 0 where
  answered :
      (c : ThumbCook) (w : World T SO SU) → is_processing c.status ≡ false → Ending (c, w, true)
  goes_on :
      (c : ThumbCook) (w : World T SO SU)
      → is_processing c.status ≡ true
      → is_some c.http_buf ≡ true
      → Ending (c, w, false)

-- A result of another request ends the pipeline, whatever its status.
sticky_ends : (status : ResultStatus) → is_processing (sticky_status status) ≡ false
unfolding is_processing
sticky_ends ResultStatus.success = refl
sticky_ends ResultStatus.failed = refl
sticky_ends ResultStatus.overloaded = refl
sticky_ends ResultStatus.intermediate = refl
sticky_ends ResultStatus.batch_limit = refl

module _ {T SO SU : Type 0} (runtime : Runtime T SO SU) where
  unchanged-Ending :
      (c : ThumbCook) (w : World T SO SU) (prior : Option CacheHints)
      (validated : Option (CacheEntry × Bytes)) (now : ℕ)
      → is_processing c.status ≡ false
      → Ending (unchanged runtime c w prior validated now)
  unfolding unchanged renew restore_cached_media
  unchanged-Ending c w none validated now e = answered c w e
  unchanged-Ending c w (some prior) none now e = answered _ w e
  unchanged-Ending c w (some prior) (some (entry, name)) now e = answered _ _ e

  connected-Ending :
      (s : CookStatus) (c : ThumbCook) (w : World T SO SU) (validated : Option (CacheEntry × Bytes))
      (now : ℕ)
      → c.status ≡ s
      → is_processing c.status ≡ is_some c.http_buf
      → Ending (connected runtime s c w validated now)
  unfolding connected is_processing
  connected-Ending CookStatus.processing c w validated now e h =
      goes_on c w (ap is_processing e) (sym h ∙ ap is_processing e)
  connected-Ending CookStatus.fresh c w validated now e h =
      unchanged-Ending c w c.input_cache validated now (ap is_processing e)
  connected-Ending CookStatus.complete c w validated now e h = answered c w (ap is_processing e)
  connected-Ending CookStatus.failed c w validated now e h = answered c w (ap is_processing e)
  connected-Ending CookStatus.overloaded c w validated now e h = answered c w (ap is_processing e)
  connected-Ending CookStatus.intermediate c w validated now e h = answered c w (ap is_processing e)

  over_connection-Ending :
      (c : ThumbCook) (w : World T SO SU) (validated : Option (CacheEntry × Bytes)) (now : ℕ)
      → Begun c
      → Ending (over_connection runtime c w validated now)
  unfolding over_connection
  over_connection-Ending c w validated now begun =
      connected-Ending _ _ _ validated now refl
        (connect-Outcome runtime.origins runtime.urls runtime.transport runtime.backoff_default c
          w.origins w.urls now begun).goes_on

  from_store-Ending :
      (c : ThumbCook) (w : World T SO SU) (found : Option (CacheEntry × Bytes)) (now : ℕ)
      → Begun c
      → Ending (from_store runtime c w found now)
  unfolding from_store validate answered_stored is_processing
  from_store-Ending c w none now begun = over_connection-Ending c w none now begun
  from_store-Ending c w (some (entry, name)) now begun =
      elim (Bool-cases (Entry.is_fresh entry now)) [
        | inl e ↦ rw e (answered _ _ refl)
        | inr e ↦ rw e (validate-Ending (validator_of runtime entry))
      ]
    where
      validate-Ending :
          (hints : Option CacheHints) → Ending (validate runtime c w (entry, name) hints now)
      validate-Ending none = over_connection-Ending c w none now begun
      validate-Ending (some hints) =
          over_connection-Ending _ w _ now (record { going = begun.going; closed = begun.closed })

  past_client-Ending :
      (c : ThumbCook) (w : World T SO SU) (now : ℕ) (handoff : Bool)
      → Begun c
      → Ending (past_client runtime c w now handoff)
  unfolding past_client
  past_client-Ending c w now true begun = from_store-Ending c w none now begun
  past_client-Ending c w now false begun = from_store-Ending c _ _ now begun

  past_sticky-Ending :
      (c : ThumbCook) (w : World T SO SU) (now : ℕ) → Begun c → Ending (past_sticky runtime c w now)
  unfolding past_sticky is_processing
  past_sticky-Ending c w now begun =
      elim (Bool-cases (is_some_and c.input_cache (λ h. is_fresh h now))) [
        | inl e ↦ rw e (answered _ _ refl)
        | inr e ↦ rw e (past_client-Ending c w now c.ctx_handoff begun)
      ]

  answered_or-Ending :
      (c : ThumbCook) (w : World T SO SU) (debounced : Option ThumbResult) (now : ℕ)
      → Begun c
      → Ending (answered_or runtime c w debounced now)
  unfolding answered_or answered_sticky
  answered_or-Ending c w none now begun = past_sticky-Ending c w now begun
  answered_or-Ending c w (some result) now begun = answered _ w (sticky_ends result.status)

  -- Every request that has just begun is answered, or goes on with an installed connection: never is a
  -- request reported as answered while it is in progress, nor does it go on without a connection.
  pub resolve_cache-Ending :
      (c : ThumbCook) (w : World T SO SU) (debounced : Option ThumbResult) (now : ℕ)
      → Begun c
      → Ending (resolve_cache runtime c w debounced now)
  unfolding resolve_cache answered_sticky
  resolve_cache-Ending c w debounced now begun = elim (Bool-cases c.ctx_handoff) [
    | inl e ↦
        rw e (past_sticky-Ending _ w now (record { going = begun.going; closed = begun.closed }))
    | inr e ↦ rw e (
        answered_or-Ending _ w debounced now
          (record { going = begun.going; closed = begun.closed }))
  ]
