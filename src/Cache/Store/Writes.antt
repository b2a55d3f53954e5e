-- ===== src/Cache/Store/Writes.antt =====
-- What `store` of tier1/src/cache/mod.rs leaves in the in-memory backend.
use thumbrella.Base.{
  ℕ, ◌≡◌, refl, ap, ◌∙◌, true, false, Option, none, some, [], Bytes, is_empty, arith,
}
use thumbrella.Hints.Wire.{Base64}
use thumbrella.Media.{FileKind, ThumbMedia, ThumbResult}
use thumbrella.Cache.Entry.{CacheEntry}
use thumbrella.Cache.Moka.{Moka, IsMoka}
use thumbrella.Cache.Memory.{Memory, lookup, put, memory}
use thumbrella.Cache.Memory.Reads.{ReadBack, newest, over, lost, lookup-put}
use thumbrella.Cache.Store.{is_intermediate, is_placeholder, store, drain}

module _ {S : Type 0} (b64 : Base64) {moka : Moka S CacheEntry} {Evicts : Bytes → Type 0}
    (is_moka : IsMoka moka Evicts) (names : FileKind → Bytes → ℕ → Bytes) (m : Memory S) (now : ℕ)
    (key : Bytes) (result : ThumbResult) (media : ThumbMedia) (cost expires_at pin_ttl : ℕ) where
  -- The backend when the tasks that `store` schedules have run.
  abbrev pub after_store : Memory S
  after_store =
      drain (store (some (memory b64 moka names)) key result cost expires_at pin_ttl []) m now

  store-put :
      result.media ≡ some media
      → is_empty media.cache ≡ true
      → is_intermediate result.status ≡ false
      → is_placeholder result.source ≡ false
      → after_store ≡ put b64 moka m now key media cost 0 pin_ttl
  unfolding store memory
  store-put has bare final real = rw (store, final, real, has, bare) refl

  -- Over the in-memory backend, a final result whose media carries no freshness token is written for
  -- pins alone: when the write has run, no ordinary read of the key finds anything, with pins on or off,
  -- at any time and whatever the retention that was asked for, not even what was there before.
  pub store-uncacheable :
      (later read_ttl : ℕ)
      → result.media ≡ some media
      → is_empty media.cache ≡ true
      → is_intermediate result.status ≡ false
      → is_placeholder result.source ≡ false
      → (lookup b64 moka after_store later key false read_ttl).1 ≡ none
  store-uncacheable later read_ttl has bare final real =
      ap (λ s. (lookup b64 moka s later key false read_ttl).1) (store-put has bare final real)
      ∙ never (lookup-put b64 is_moka m now key media cost 0 pin_ttl later read_ttl)
    where
      never :
          {r : Option CacheEntry}
          → ReadBack b64 is_moka m now key media cost 0 pin_ttl later read_ttl r
          → r ≡ none
      never (newest e told ahead a b c d f g h) = absurd (omega (arith, ahead))
      never (over past e) = e
      never (lost why e) = e
