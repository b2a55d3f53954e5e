-- ===== src/FetchGuard.antt =====
-- tier1/src/fetch_guard.rs, its native variant: URLs that failed lately, and origins that asked to be
-- left alone. Both stand over the third-party cache, whose own time limit may drop an entry early.
pub mod Backoff
use thumbrella.Base.{ℕ, ◌+◌, Option, some, none, Bytes, ltb, if◌then◌else◌, and_then}
use thumbrella.Cache.Moka.{Moka}

-- The value is the status and the message; the window is the cache's time limit.
abbrev pub Failure : Type 0
Failure = ℕ × Bytes

module _ {S : Type 0} (moka : Moka S Failure) where
  unfoldable pub check_url : S → Bytes → Option Failure
  check_url s url = moka.get s url

  unfoldable pub record_url : S → Bytes → ℕ → Bytes → S
  record_url s url status message = moka.insert s url (status, message)

-- The status, and the instant at which the back-off ends.
abbrev pub Hold : Type 0
Hold = ℕ × ℕ

module _ {S : Type 0} (moka : Moka S Hold) where
  unfoldable pub check_origin : S → Bytes → ℕ → Option ℕ
  check_origin s origin now =
      and_then (moka.get s origin) (λ hold. if ltb now hold.1 then some hold.0 else none)

  unfoldable pub record_origin : S → Bytes → ℕ → ℕ → ℕ → S
  record_origin s origin status ttl_secs now = moka.insert s origin (status, now + ttl_secs)
