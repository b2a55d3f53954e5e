-- ===== src/Cook/Resolve/Renewals.antt =====
-- What `resolve_cache` of tier1/src/cook.rs leaves to run behind the response.
use thumbrella.Base.{
  ℕ, ◌≡◌, refl, sym, ap, subst, ◌⊎◌, inl, inr, Bool, true, false, Option, none, some, List, Bytes,
  is_some_and, unwrap_or, Bool-cases, Option-cases,
}
use thumbrella.Cache.Entry
use thumbrella.Cache.Entry.{CacheEntry}
use thumbrella.Cache.Store.{Deferred, check_entry}
use thumbrella.Cook.{ThumbCook}
use thumbrella.Cook.Connect.Outcomes.{Begun}
use thumbrella.Cook.Resolve.{
  Runtime, World, Resolved, cache_key_of, restore_cached_media, over_connection, validate,
  validator_of, answered_stored, from_store, past_client, past_sticky, answered_or, resolve_cache,
}
use thumbrella.Hints.{CacheHints, is_fresh}
use thumbrella.Media.{ThumbResult}
use thumbrella.Cook.Resolve.Confirmed.{Renewal, without, over_connection-Left}

-- The entry that was found is stale and has a validator, and the source has confirmed it.
pub record Validated {T SO SU : Type 0} (runtime : Runtime T SO SU) (key : Bytes)
    (found : Option (CacheEntry × Bytes)) (now : ℕ) (after : List (Deferred T))
    (r : Resolved T SO SU) : Type 0 where
  pub entry : CacheEntry
  pub name : Bytes
  pub hints : CacheHints
  pub stored : found ≡ some (entry, name)
  pub stale : Entry.is_fresh entry now ≡ false
  pub validator : validator_of runtime entry ≡ some hints
  pub renewal : Renewal runtime key entry (some hints) after r

module _ {T SO SU : Type 0} (runtime : Runtime T SO SU) where
  -- What is left: nothing new, or the renewal of the entry that was found.
  abbrev pub Owed :
      Bytes → Option (CacheEntry × Bytes) → ℕ → List (Deferred T) → Resolved T SO SU → Type 0
  Owed key found now after r = (r.1.after ≡ after) ⊎ Validated runtime key found now after r

  abbrev pub looked_up : ThumbCook → World T SO SU → ℕ → Option (CacheEntry × Bytes)
  looked_up c w now = (check_entry runtime.backend w.cache now (cache_key_of c) c.default_pin_ttl).1

  validated-Owed :
      (c : ThumbCook) (w : World T SO SU) (entry : CacheEntry) (name : Bytes) (hints : CacheHints)
      (now : ℕ)
      → Begun c
      → Entry.is_fresh entry now ≡ false
      → validator_of runtime entry ≡ some hints
      → let r =
          over_connection runtime
            (record c { input_cache = some hints })
            w
            (some (entry, name))
            now in
        Owed (cache_key_of c) (some (entry, name)) now w.after r
  validated-Owed c w entry name hints now begun stale e =
      elim (over_connection-Left runtime (record c { input_cache = some hints }) w
        (some (entry, name)) now (record { going = begun.going; closed = begun.closed })) [
          | inl kept ↦ inl kept
          | inr x ↦ inr (record {
            entry = entry;
            name = name;
            hints = hints;
            stored = refl;
            stale = stale;
            validator = e;
            renewal =
                subst
                  (λ found. Renewal runtime (cache_key_of c) found.0 (some hints) w.after (
                    over_connection runtime (record c { input_cache = some hints }) w
                      (some (entry, name)) now))
                  (ap (λ o. unwrap_or o x.0) (sym x.1)) x.2;
          })
        ]

  validate-Owed :
      (c : ThumbCook) (w : World T SO SU) (entry : CacheEntry) (name : Bytes) (now : ℕ)
      → Begun c
      → Entry.is_fresh entry now ≡ false
      → Owed
          (cache_key_of c)
          (some (entry, name))
          now
          w.after
          (validate runtime c w (entry, name) (validator_of runtime entry) now)
  unfolding validate
  validate-Owed c w entry name now begun stale = elim (Option-cases (validator_of runtime entry)) [
    | inl e ↦ rw e (
        inl (
          without runtime _ c.input_cache w.after _
            (over_connection-Left runtime c w none now begun)))
    | inr (hints, e) ↦ rw e (validated-Owed c w entry name hints now begun stale e)
  ]

  from_store-Owed :
      (c : ThumbCook) (w : World T SO SU) (found : Option (CacheEntry × Bytes)) (now : ℕ)
      → Begun c
      → Owed (cache_key_of c) found now w.after (from_store runtime c w found now)
  unfolding from_store validate answered_stored restore_cached_media
  from_store-Owed c w none now begun =
      inl (
        without runtime _ c.input_cache w.after _ (over_connection-Left runtime c w none now begun))
  from_store-Owed c w (some (entry, name)) now begun =
      elim (Bool-cases (Entry.is_fresh entry now)) [
        | inl e ↦ rw e (inl refl)
        | inr e ↦ rw e (validate-Owed c w entry name now begun e)
      ]

  past_client-Owed :
      (c : ThumbCook) (w : World T SO SU) (now : ℕ) (handoff : Bool)
      → Begun c
      → Owed (cache_key_of c) (looked_up c w now) now w.after (past_client runtime c w now handoff)
  unfolding past_client
  past_client-Owed c w now true begun =
      inl (
        without runtime _ c.input_cache w.after _ (over_connection-Left runtime c w none now begun))
  past_client-Owed c w now false begun = from_store-Owed c _ _ now begun

  past_sticky-Owed :
      (c : ThumbCook) (w : World T SO SU) (now : ℕ)
      → Begun c
      → Owed (cache_key_of c) (looked_up c w now) now w.after (past_sticky runtime c w now)
  unfolding past_sticky
  past_sticky-Owed c w now begun =
      elim (Bool-cases (is_some_and c.input_cache (λ h. is_fresh h now))) [
        | inl e ↦ rw e (inl refl)
        | inr e ↦ rw e (past_client-Owed c w now c.ctx_handoff begun)
      ]

  answered_or-Owed :
      (c : ThumbCook) (w : World T SO SU) (debounced : Option ThumbResult) (now : ℕ)
      → Begun c
      → Owed
          (cache_key_of c)
          (looked_up c w now)
          now
          w.after
          (answered_or runtime c w debounced now)
  unfolding answered_or
  answered_or-Owed c w none now begun = past_sticky-Owed c w now begun
  answered_or-Owed c w (some result) now begun = inl refl

  -- What a request that has just begun leaves to run behind the response: nothing new, or the renewal of
  -- the entry that the durable cache has for its key. Then that entry is stale, its own hints gave the
  -- validator of the request, the source has answered 304, the request ends as unchanged with the thumbnail of the
  -- entry, and the renewed entry carries the same thumbnail under the same key.
  pub resolve_cache-Owed :
      (c : ThumbCook) (w : World T SO SU) (debounced : Option ThumbResult) (now : ℕ)
      → Begun c
      → Owed
          (cache_key_of c)
          (looked_up c w now)
          now
          w.after
          (resolve_cache runtime c w debounced now)
  unfolding resolve_cache
  resolve_cache-Owed c w debounced now begun = elim (Bool-cases c.ctx_handoff) [
    | inl e ↦
        rw e (past_sticky-Owed _ w now (record { going = begun.going; closed = begun.closed }))
    | inr e ↦
        rw e (
          answered_or-Owed _ w debounced now
            (record { going = begun.going; closed = begun.closed }))
  ]
