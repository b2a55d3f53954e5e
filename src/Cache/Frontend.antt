-- ===== src/Cache/Frontend.antt =====
-- The native `CacheFrontend` of tier1/src/cache/mod.rs: the sticky window over the third-party cache,
-- whose time limit is its own, and the coalescing of requests that are under way. An `Arc<()>` that
-- tells generations apart, and a oneshot channel, are numbers that have not been used before. Each
-- method holds the lock of `inflight`, so it is one step.
pub mod Generations
pub mod Leaders
pub mod Waiters
pub mod Copies
pub mod Answers
use thumbrella.Base.{
  ℕ, suc, ◌+◌, ◌==◌, Bool, true, false, not, ◌&&◌, ◌||◌, Option, none, some, List, [], ◌∷◌, ◌++◌,
  map, Bytes, bytes_eq, if◌then◌else◌, and_then, is_some_and,
}
use thumbrella.Base.Assoc
use thumbrella.Hints.{CacheHints, Conditional, if_none_match, if_modified_since, to_conditional}
use thumbrella.Hints.Wire.{Base64, decode}
use thumbrella.Media.{ThumbResult, ResultSource, ResultStatus}
use thumbrella.Cache.Moka.{Moka}

pub record InflightSlot : Type 0 where
  pub id : ℕ
  pub waiters : List ℕ

-- `settled` records what each channel got: a result, or nothing when its sender was dropped.
pub record Frontend (S : Type 0) : Type 0 where
  pub sticky : S
  pub inflight : List (Bytes × InflightSlot)
  pub next_id : ℕ
  pub next_channel : ℕ
  pub settled : List (ℕ × Option ThumbResult)

pub data Lookup : Type 0 where
  hit : ThumbResult → Lookup
  leader : ℕ → Lookup
  join : ℕ → ℕ → Lookup

-- The derived equality of the validators.
unfoldable pub same_conditional : Option Conditional → Option Conditional → Bool
same_conditional none none = true
same_conditional (some (if_none_match a)) (some (if_none_match b)) = bytes_eq a b
same_conditional (some (if_modified_since a)) (some (if_modified_since b)) = bytes_eq a b
same_conditional _ _ = false

unfoldable pub same_expiry : Option ℕ → Option ℕ → Bool
same_expiry none none = true
same_expiry (some a) (some b) = a == b
same_expiry _ _ = false

unfoldable pub is_none {ℓ} : {A : Type ℓ} → Option A → Bool
is_none none = true
is_none (some a) = false

unfoldable pub is_not_modified : Option ResultSource → Bool
is_not_modified (some ResultSource.not_modified) = true
is_not_modified _ = false

-- What `debounce_matches` compares once the stored token has been read.
unfoldable pub client_holds : CacheHints → Option CacheHints → Bool
unfolding to_conditional same_conditional same_expiry is_none
client_holds stored none = false
client_holds stored (some client) =
    if not (same_conditional (to_conditional stored) (to_conditional client))
      || is_none (to_conditional stored) && not (same_expiry stored.expires_at client.expires_at)
    then false
    else true

unfoldable pub debounce_matches : Base64 → ThumbResult → Option CacheHints → Bool
unfolding is_not_modified client_holds decode
debounce_matches b64 result client =
    if is_not_modified result.source
    then elim (and_then result.media (λ media. decode b64 media.cache)) [
      | none ↦ false
      | some stored ↦ client_holds stored client
    ]
    else true

-- What a waiter sees: a result, a dropped sender, or its own time limit.
pub data Wait : Type 0 where
  received : ThumbResult → Wait
  closed timed_out : Wait

module _ {S : Type 0} where
  -- `map.get(key).is_some_and(|slot| Arc::ptr_eq(&slot.id, id))`.
  unfoldable pub owns : Frontend S → Bytes → ℕ → Bool
  owns f key id = is_some_and (Assoc.get f.inflight key) (λ slot. slot.id == id)

  -- The slot goes, and each of its channels gets the outcome.
  unfoldable pub release : Frontend S → Bytes → Option ThumbResult → Frontend S
  release f key outcome = elim (Assoc.get f.inflight key) [
    | none ↦ f
    | some slot ↦ record f {
      inflight = Assoc.remove f.inflight key;
      settled = f.settled ++ map (λ tx. (tx, outcome)) slot.waiters;
    }
  ]

  unfoldable pub cancel : Frontend S → Bytes → ℕ → Frontend S
  unfolding owns release
  cancel f key id = if owns f key id then release f key none else f

module _ {S : Type 0} (moka : Moka S ThumbResult) where
  unfoldable pub sticky_check : Frontend S → Bytes → Option ThumbResult
  sticky_check f key = moka.get f.sticky key

  unfoldable pub sticky_store : Frontend S → Bytes → ThumbResult → Frontend S
  sticky_store f key result = record f { sticky = moka.insert f.sticky key result }

  unfoldable pub complete : Frontend S → Bytes → ℕ → ThumbResult → Frontend S
  unfolding owns release sticky_store
  complete f key id result =
      if not (owns f key id) then f else release (sticky_store f key result) key (some result)

  -- `DebounceLeader::complete`, with the drop of the guard that follows it.
  unfoldable pub leader_complete : Frontend S → Bytes → ℕ → ThumbResult → Frontend S
  unfolding complete cancel
  leader_complete f key id result = elim result.status [
    | ResultStatus.intermediate ↦ cancel f key id
    | ResultStatus.success ↦ cancel (complete f key id result) key id
    | ResultStatus.failed ↦ cancel (complete f key id result) key id
    | ResultStatus.overloaded ↦ cancel (complete f key id result) key id
    | ResultStatus.batch_limit ↦ cancel (complete f key id result) key id
  ]

module _ {S : Type 0} (b64 : Base64) where
  -- The end of a turn of the loop in `debounce_lookup_with_timeout`; `none` starts the next turn.
  unfoldable pub after_wait :
      Frontend S → Bytes → Option CacheHints → ℕ → Wait → Frontend S × Option ThumbResult
  unfolding debounce_matches cancel
  after_wait f key client id (received result) =
      if debounce_matches b64 result client then (f, some result) else (f, none)
  after_wait f key client id closed = (f, none)
  after_wait f key client id timed_out = (cancel f key id, none)

module _ {S : Type 0} (b64 : Base64) (moka : Moka S ThumbResult) where
  -- `debounce_check`, and the first test of `lookup`.
  unfoldable pub debounce_check : Frontend S → Bytes → Option CacheHints → Option ThumbResult
  unfolding sticky_check debounce_matches
  debounce_check f key client =
      and_then (sticky_check moka f key)
        (λ result. if debounce_matches b64 result client then some result else none)

  unfoldable pub lookup : Frontend S → Bytes → Option CacheHints → Frontend S × Lookup
  unfolding debounce_check
  lookup f key client = elim (debounce_check f key client) [
    | some result ↦ (f, hit result)
    | none ↦ elim (Assoc.get f.inflight key) [
      | some slot ↦ (
        record f {
          inflight =
              Assoc.insert f.inflight key
                (record slot { waiters = slot.waiters ++ f.next_channel ∷ [] });
          next_channel = f.next_channel + 1;
        },
        join slot.id f.next_channel,
      )
      | none ↦ (
        record f {
          inflight = Assoc.insert f.inflight key (record { id = f.next_id; waiters = [] });
          next_id = f.next_id + 1;
        },
        leader f.next_id,
      )
    ]
  ]
