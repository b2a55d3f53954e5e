-- ===== src/Cache/Memory.antt =====
-- `MemoryCacheBackend` of tier1/src/cache/memory.rs over the third-party cache. Each method holds
-- the locks while it runs, so it is one step; the clock is an argument.
pub mod Pins
pub mod Reads
pub mod Aliases
use thumbrella.Base.{
  ℕ, Bool, true, false, not, ◌&&◌, Option, none, some, List, Bytes, bytes_eq, ascii, ltb, leb, max,
  if◌then◌else◌, is_some_and, saturating_add, and_then,
}
use mathlib.Core.Option
use thumbrella.Base.Assoc
use thumbrella.Hints.Wire.{Base64}
use thumbrella.Media.{FileKind, ThumbMedia}
use thumbrella.Cache.Entry.{CacheEntry, clear_url, new, retain_until, access}
use thumbrella.Cache.Backend.{
  Result, ok, err, PinClaim, claimed, conflict, missing, PinnedThumbnail, Backend, untracked_pin,
  issue_pin,
}
use thumbrella.Cache.Moka.{Moka}

pub record Memory (S : Type 0) : Type 0 where
  pub cache : S
  pub pins : List (Bytes × Bytes)

module _ {S : Type 0} (b64 : Base64) (moka : Moka S CacheEntry) where
  -- A hit is written back with its new access time; an entry past both deadlines is removed.
  unfoldable pub write_back : S → ℕ → Bytes → CacheEntry × Bool → S
  unfolding retain_until
  write_back s now key (entry, hit) =
      if leb (retain_until entry) now
      then moka.invalidate s key
      else if hit
      then moka.insert s key entry
      else s

  unfoldable pub lookup : Memory S → ℕ → Bytes → Bool → ℕ → Memory S × Option CacheEntry
  unfolding access write_back
  lookup m now key pin pin_ttl = elim (moka.get m.cache key) [
    | none ↦ (m, none)
    | some found ↦
        let r = access found now pin pin_ttl in
        (record m { cache = write_back m.cache now key r }, if r.1 then some r.0 else none)
  ]

  abbrev pub live_pin : S → ℕ → Bytes → Bool
  live_pin s now key = is_some_and (moka.get s key) (λ e. ltb now e.pin_until)

  -- `entry.retain_until() > now`, over what the key holds.
  unfoldable pub retained : S → ℕ → Bytes → Option CacheEntry
  unfolding retain_until
  retained s now key =
      and_then (moka.get s key) (λ e. if ltb now (retain_until e) then some e else none)

  unfoldable pub claim_pin : Memory S → ℕ → Bytes → Bytes → ℕ → Memory S × Result PinClaim
  unfolding retained
  claim_pin m now id key ttl =
      let pins = Assoc.retain (live_pin m.cache now) m.pins in
      if is_some_and (Assoc.get pins id) (λ owner. not (bytes_eq owner key))
      then (record m { pins = pins }, ok conflict)
      else elim (retained m.cache now key) [
        | none ↦ (record m { pins = pins }, ok missing)
        | some entry ↦ (
          record {
            cache =
                moka.insert m.cache key
                  (record entry { pin_until = max entry.pin_until (saturating_add now ttl) });
            pins = Assoc.insert pins id key;
          },
          ok claimed,
        )
      ]

  abbrev pub pinned : CacheEntry → PinnedThumbnail
  pinned e = record { bytes = e.media.thumbnail; cache = e.media.cache; until = e.pin_until }

  unfoldable pub pin_data : Memory S → ℕ → Bytes → Option PinnedThumbnail
  pin_data m now id =
      and_then (and_then (Assoc.get m.pins id) (moka.get m.cache))
        (λ e. if ltb now e.pin_until then some (pinned e) else none)

  unfoldable pub promote : Memory S → ℕ → Bytes → CacheEntry → Memory S
  unfolding retain_until
  promote m now key entry =
      if leb (retain_until entry) now
      then m
      else if is_some_and (moka.get m.cache key) (λ e. ltb now (retain_until e))
      then m
      else record m {
        cache = moka.insert m.cache key (record entry { media = clear_url (entry.media) });
      }

  abbrev pub store_or_drop : Memory S → ℕ → Bytes → CacheEntry → Memory S
  store_or_drop m now key entry =
      if leb (retain_until entry) now
      then record m { cache = moka.invalidate m.cache key }
      else record m { cache = moka.insert m.cache key entry }

  unfoldable pub revalidate : Memory S → ℕ → Bytes → CacheEntry → Bytes → Memory S
  unfolding retain_until
  revalidate m now key entry expected_cache =
      let bare = record entry { media = clear_url (entry.media) } in
      elim (moka.get m.cache key) [
        | none ↦ store_or_drop m now key bare
        | some existing ↦
            if bytes_eq existing.media.cache expected_cache
            then store_or_drop m now key
                (record bare { pin_until = max bare.pin_until existing.pin_until })
            else m
      ]

  -- `put` also sweeps every entry that is past both of its deadlines.
  unfoldable pub store_swept : Memory S → ℕ → Bytes → CacheEntry → Memory S
  unfolding retain_until
  store_swept m now key entry =
      if leb (retain_until entry) now
      then record m { cache = moka.invalidate m.cache key }
      else record m {
        cache =
            moka.insert (moka.invalidate_entries_if m.cache (λ e. leb (retain_until e) now)) key
              entry;
      }

  abbrev pub keep_pin : CacheEntry → Option CacheEntry → CacheEntry
  keep_pin entry none = entry
  keep_pin entry (some existing) = record entry {
    pin_until = max entry.pin_until existing.pin_until;
  }

  unfoldable pub put : Memory S → ℕ → Bytes → ThumbMedia → ℕ → ℕ → ℕ → Memory S
  unfolding store_swept new
  put m now key media cost cache_until pin_ttl =
      store_swept m now key
        (keep_pin (new b64 media cost cache_until pin_ttl now) (moka.get m.cache key))

  -- The implementation of the trait; the secret stands behind the candidate function.
  unfoldable pub memory : (FileKind → Bytes → ℕ → Bytes) → Backend (Memory S)
  unfolding lookup claim_pin pin_data promote revalidate put
  memory candidate = record {
    name = ascii "memory";
    pin_candidate = λ m kind key attempt. ok (candidate kind key attempt);
    untracked_pin = untracked_pin (λ m kind key attempt. ok (candidate kind key attempt)) claim_pin;
    issue_pin = issue_pin (λ m kind key attempt. ok (candidate kind key attempt)) claim_pin;
    claim_pin = claim_pin;
    pin_data = λ m now id. ok (pin_data m now id);
    get_entry = λ m now key pin_ttl. lookup m now key false pin_ttl;
    get_pin_entry = λ m now key. lookup m now key true 0;
    promote = promote;
    revalidate = revalidate;
    put = put;
  }
