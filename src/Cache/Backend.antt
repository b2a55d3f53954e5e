-- ===== src/Cache/Backend.antt =====
-- The trait `CacheBackend` of tier1/src/cache/mod.rs over a state `T`, and its default methods. The
-- clock is an argument; a deferred future is the change that it makes when it runs.
pub mod Issue
use thumbrella.Base.{ℕ, zero, suc, ◌+◌, ◌==◌, Option, none, some, Bytes, ascii, if◌then◌else◌}
use mathlib.Core.Option
use thumbrella.Media.{FileKind, ThumbMedia}
use thumbrella.Cache.Entry.{CacheEntry}

-- `Result<A, String>`.
pub data Result {ℓ} (A : Type ℓ) : Type ℓ where
  ok : A → Result A
  err : Bytes → Result A

-- tier1/src/cache/pins.rs.
pub data PinClaim : Type 0 where
  claimed conflict missing : PinClaim

-- tier1/src/http_cache.rs.
pub record PinnedThumbnail : Type 0 where
  pub bytes : Bytes
  pub cache : Bytes
  pub until : ℕ

pub record Backend (T : Type 0) : Type 0 where
  pub name : Bytes
  pub pin_candidate : T → FileKind → Bytes → ℕ → Result Bytes
  pub untracked_pin : T → FileKind → Bytes → Result Bytes
  pub issue_pin : T → (ℕ → ℕ) → FileKind → Bytes → ℕ → T × Result (Option Bytes)
  pub claim_pin : T → ℕ → Bytes → Bytes → ℕ → T × Result PinClaim
  pub pin_data : T → ℕ → Bytes → Result (Option PinnedThumbnail)
  pub get_entry : T → ℕ → Bytes → ℕ → T × Option CacheEntry
  pub get_pin_entry : T → ℕ → Bytes → T × Option CacheEntry
  pub promote : T → ℕ → Bytes → CacheEntry → T
  pub revalidate : T → ℕ → Bytes → CacheEntry → Bytes → T
  pub put : T → ℕ → Bytes → ThumbMedia → ℕ → ℕ → ℕ → T

-- The default methods that a backend may override stand over the two that they call.
module _ {T : Type 0} (pin_candidate : T → FileKind → Bytes → ℕ → Result Bytes)
    (claim_pin : T → ℕ → Bytes → Bytes → ℕ → T × Result PinClaim) where
  unfoldable pub untracked_pin : T → FileKind → Bytes → Result Bytes
  untracked_pin t kind key = pin_candidate t kind key 0

  -- What one turn of the loop does with the answer to its claim.
  unfoldable pub settle :
      Bytes → T × Result PinClaim → (T → T × Result (Option Bytes)) → T × Result (Option Bytes)
  settle id (t, err e) retry = (t, err e)
  settle id (t, ok claimed) retry = (t, ok (some id))
  settle id (t, ok missing) retry = (t, ok none)
  settle id (t, ok conflict) retry = retry t

  -- `rounds` turns are left of the 256, and `attempt` is the loop variable; each turn reads the
  -- clock.
  unfoldable pub issue_from : (ℕ → ℕ) → FileKind → Bytes → ℕ → ℕ → ℕ → T → T × Result (Option Bytes)
  unfolding settle
  issue_from clock kind key ttl zero attempt t =
      (t, err (ascii "pin identifier collision limit exceeded"))
  issue_from clock kind key ttl (suc rounds) attempt t = elim (pin_candidate t kind key attempt) [
    | err e ↦ (t, err e)
    | ok id ↦
        settle id (claim_pin t (clock attempt) id key ttl)
          (issue_from clock kind key ttl rounds (attempt + 1))
  ]

  unfoldable pub issue_pin : T → (ℕ → ℕ) → FileKind → Bytes → ℕ → T × Result (Option Bytes)
  unfolding issue_from
  issue_pin t clock kind key ttl =
      if ttl == 0 then (t, ok none) else issue_from clock kind key ttl 256 0 t

module _ {T : Type 0} (backend : Backend T) where
  unfoldable pub get_media : T → ℕ → Bytes → ℕ → T × Option ThumbMedia
  get_media t now key pin_ttl =
      let (t', entry) = backend.get_entry t now key pin_ttl in (t', Option.map (λ e. e.media) entry)

  unfoldable pub get_pin : T → ℕ → Bytes → T × Option ThumbMedia
  get_pin t now key =
      let (t', entry) = backend.get_pin_entry t now key in (t', Option.map (λ e. e.media) entry)

  unfoldable pub pin_thumbnail : T → ℕ → Bytes → Result (Option Bytes)
  pin_thumbnail t now id = elim (backend.pin_data t now id) [
    | err e ↦ err e
    | ok found ↦ ok (Option.map (λ pin. pin.bytes) found)
  ]
