-- ===== src/FetchGuard/Backoff.antt =====
-- How long tier1/src/fetch_guard.rs holds back requests to an origin.
use thumbrella.Base.{
  ℕ, ◌+◌, ◌≤◌, ◌<◌, ◌≡◌, refl, inl, inr, Bool, true, false, Option, none, some, Bytes, bytes_eq,
  ltb, if◌then◌else◌, arith,
}
use thumbrella.Cache.Moka.{Moka, IsMoka, MayBe}
use thumbrella.FetchGuard.{Hold, check_origin, record_origin}

module _ {S : Type 0} {moka : Moka S Hold} {Evicts : Bytes → Type 0} (is_moka : IsMoka moka Evicts)
    (s : S) (origin other : Bytes) (status ttl_secs now later : ℕ) where
  -- What a later check of an origin may say of a hold.
  pub data Held (answer : Option ℕ) : Type 0 where
    holds : later < now + ttl_secs → answer ≡ some status → Held answer
    over : now + ttl_secs ≤ later → answer ≡ none → Held answer
    dropped : Evicts origin → answer ≡ none → Held answer

  -- After an origin was recorded, a check of it reports that status until the time that the origin
  -- asked for has passed, and nothing from then on; before that a cache that may
  -- evict the origin can have dropped the hold, but no check reports another status.
  pub check_origin-record :
      Held (check_origin moka (record_origin moka s origin status ttl_secs now) origin later)
  unfolding check_origin record_origin
  check_origin-record = elim (is_moka.get-insert_self s origin (status, now + ttl_secs)) [
    | inl kept ↦ rw (check_origin, kept) (by_time (ltb later (now + ttl_secs)) refl)
    | inr (why, gone) ↦ dropped why (rw (check_origin, gone) refl)
  ]
    where
      by_time :
          (ahead : Bool)
          → ltb later (now + ttl_secs) ≡ ahead
          → Held (if ltb later (now + ttl_secs) then some status else none)
      by_time true e = holds (ground arith) (rw e refl)
      by_time false e = over (ground arith) (rw e refl)

  -- A record of one origin never makes a check of another report something new.
  pub check_origin-other :
      bytes_eq origin other ≡ false
      → MayBe
          (Evicts other)
          (check_origin moka (record_origin moka s origin status ttl_secs now) other later)
          (check_origin moka s other later)
  unfolding check_origin record_origin
  check_origin-other apart =
      elim (is_moka.get-insert_ne s origin other (status, now + ttl_secs) apart) [
        | inl kept ↦ inl (rw (check_origin, kept) refl)
        | inr (why, gone) ↦ inr (why, rw (check_origin, gone) refl)
      ]
