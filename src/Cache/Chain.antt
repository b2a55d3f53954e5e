-- ===== src/Cache/Chain.antt =====
-- `ChainCacheBackend` of tier1/src/cache/chain.rs. A tier is a backend with its state; the states
-- share one type, which may be a sum. Spawned promotions wait in `pending` until they run.
pub mod Reads
pub mod Backfill
pub mod Claims
use mathlib.Core.List.{foldl}
use thumbrella.Base.{
  ℕ, zero, suc, ◌+◌, ◌==◌, Bool, true, false, Option, none, some, List, [], ◌∷◌, ◌++◌, map, Bytes,
  ascii, if◌then◌else◌, is_some,
}
use thumbrella.Media.{FileKind, ThumbMedia}
use thumbrella.Cache.Entry.{CacheEntry}
use thumbrella.Cache.Backend.{
  Result, ok, err, PinClaim, claimed, conflict, missing, PinnedThumbnail, Backend,
}

pub record Tier (T : Type 0) : Type 0 where
  pub backend : Backend T
  pub state : T

-- A promotion that was handed to the scheduler: the tier's index, the key and the entry.
pub record Task : Type 0 where
  pub index : ℕ
  pub key : Bytes
  pub entry : CacheEntry

pub record Chain (T : Type 0) : Type 0 where
  pub tiers : List (Tier T)
  pub pending : List Task

-- `tiers.last()` with the tiers before it.
unfoldable pub split_last {ℓ} : {A : Type ℓ} → List A → Option (List A × A)
split_last [] = none
split_last (x ∷ xs) = elim (split_last xs) [
  | none ↦ some ([], x)
  | some (before, last) ↦ some (x ∷ before, last)
]

-- What `get_entry` carries along the tiers.
pub record Walk : Type 0 where
  pub hit : Option CacheEntry
  pub missed : List ℕ
  pub spawned : List Task

unfoldable pub backfill : Bytes → CacheEntry → List ℕ → List Task
backfill key entry missed = map (λ index. record { index = index; key = key; entry = entry }) missed

-- Only the first hit is kept, and schedules its backfill.
unfoldable pub note_hit : Bytes → CacheEntry → Walk → Walk
unfolding backfill
note_hit key entry w =
    if is_some w.hit
    then w
    else record w { hit = some entry; spawned = w.spawned ++ backfill key entry w.missed }

unfoldable pub note_miss : ℕ → Walk → Walk
note_miss index w = if is_some w.hit then w else record w { missed = w.missed ++ index ∷ [] }

abbrev pub set_out : Walk
set_out = record { hit = none; missed = []; spawned = [] }

abbrev pub empty_chain : Bytes
empty_chain = ascii "pin cache chain is empty"

module _ {T : Type 0} where
  -- A tier after an operation of its backend.
  abbrev pub at_tier : (Backend T → T → T) → Tier T → Tier T
  at_tier f t = record t { state = f t.backend t.state }

  -- The loop of `get_entry`: a hit ends it unless a pin is to be refreshed.
  unfoldable pub walk : ℕ → Bytes → ℕ → ℕ → List (Tier T) → Walk → List (Tier T) × Walk
  unfolding note_hit note_miss
  walk now key pin_ttl index [] w = ([], w)
  walk now key pin_ttl index (tier ∷ tiers) w =
      let answer = tier.backend.get_entry tier.state now key pin_ttl in
      let tier' = record tier { state = answer.0 } in
      elim answer.1 [
        | none ↦
            let rest = walk now key pin_ttl (index + 1) tiers (note_miss index w) in
            (tier' ∷ rest.0, rest.1)
        | some entry ↦
            let rest = walk now key pin_ttl (index + 1) tiers (note_hit key entry w) in
            if pin_ttl == 0 then (tier' ∷ tiers, note_hit key entry w) else (tier' ∷ rest.0, rest.1)
      ]

  unfoldable pub get_entry : Chain T → ℕ → Bytes → ℕ → Chain T × Option CacheEntry
  unfolding walk
  get_entry c now key pin_ttl =
      let (tiers, w) = walk now key pin_ttl 0 c.tiers set_out in
      (record { tiers = tiers; pending = c.pending ++ w.spawned }, w.hit)

  -- The loop of `get_pin_entry` returns at the first hit.
  unfoldable pub pin_walk :
      ℕ → Bytes → ℕ → List ℕ → List (Tier T) → List (Tier T) × List Task × Option CacheEntry
  unfolding backfill
  pin_walk now key index missed [] = ([], [], none)
  pin_walk now key index missed (tier ∷ tiers) =
      let answer = tier.backend.get_pin_entry tier.state now key in
      let tier' = record tier { state = answer.0 } in
      elim answer.1 [
        | none ↦
            let rest = pin_walk now key (index + 1) (missed ++ index ∷ []) tiers in
            (tier' ∷ rest.0, rest.1, rest.2)
        | some entry ↦ (tier' ∷ tiers, backfill key entry missed, some entry)
      ]

  unfoldable pub get_pin_entry : Chain T → ℕ → Bytes → Chain T × Option CacheEntry
  unfolding pin_walk
  get_pin_entry c now key =
      let (tiers, spawned, hit) = pin_walk now key 0 [] c.tiers in
      (record { tiers = tiers; pending = c.pending ++ spawned }, hit)

  unfoldable pub promote : Chain T → ℕ → Bytes → CacheEntry → Chain T
  promote c now key entry = record c {
    tiers = map (at_tier (λ b s. b.promote s now key entry)) c.tiers;
  }

  unfoldable pub put : Chain T → ℕ → Bytes → ThumbMedia → ℕ → ℕ → ℕ → Chain T
  put c now key media cost cache_until pin_ttl = record c {
    tiers = map (at_tier (λ b s. b.put s now key media cost cache_until pin_ttl)) c.tiers;
  }

  abbrev pub revalidate_tiers : List (Tier T) → ℕ → Bytes → CacheEntry → Bytes → List (Tier T)
  revalidate_tiers tiers now key entry expected =
      map (at_tier (λ b s. b.revalidate s now key entry expected)) tiers

  unfoldable pub revalidate : Chain T → ℕ → Bytes → CacheEntry → Bytes → Chain T
  revalidate c now key entry expected = record c {
    tiers = revalidate_tiers c.tiers now key entry expected;
  }

  -- The copies in front of the owner of the alias take over the owner's entry.
  unfoldable pub refresh_pin_layers : Chain T → ℕ → Bytes → Chain T × Result (Unit {0})
  refresh_pin_layers c now key = elim (split_last c.tiers) [
    | none ↦ (c, err empty_chain)
    | some (before, last) ↦
        let answer = last.backend.get_pin_entry last.state now key in
        let last' = record last { state = answer.0 } in
        elim answer.1 [
          | none ↦ (
            record c { tiers = before ++ last' ∷ [] },
            err (ascii "claimed pin entry disappeared from its backend"),
          )
          | some entry ↦ (
            record c {
              tiers = revalidate_tiers before now key entry entry.media.cache ++ last' ∷ [];
            },
            ok tt,
          )
        ]
  ]

  -- `self.refresh_pin_layers(key).await?; Ok(value)`.
  unfoldable pub refreshed {ℓ} : {A : Type ℓ} → Chain T → ℕ → Bytes → A → Chain T × Result A
  unfolding refresh_pin_layers
  refreshed c now key value =
      let answer = refresh_pin_layers c now key in
      elim answer.1 [ err e ↦ (answer.0, err e) | ok _ ↦ (answer.0, ok value) ]

  unfoldable pub claim_pin : Chain T → ℕ → Bytes → Bytes → ℕ → Chain T × Result PinClaim
  unfolding refreshed
  claim_pin c now id key ttl = elim (split_last c.tiers) [
    | none ↦ (c, err empty_chain)
    | some (before, last) ↦
        let answer = last.backend.claim_pin last.state now id key ttl in
        let c' = record c { tiers = before ++ record last { state = answer.0 } ∷ [] } in
        elim answer.1 [
          | err e ↦ (c', err e)
          | ok claimed ↦ refreshed c' now key claimed
          | ok conflict ↦ (c', ok conflict)
          | ok missing ↦ (c', ok missing)
        ]
  ]

  unfoldable pub issue_pin :
      Chain T → (ℕ → ℕ) → FileKind → Bytes → ℕ → Chain T × Result (Option Bytes)
  unfolding refreshed
  issue_pin c clock kind key ttl = elim (split_last c.tiers) [
    | none ↦ (c, err empty_chain)
    | some (before, last) ↦
        let answer = last.backend.issue_pin last.state clock kind key ttl in
        let c' = record c { tiers = before ++ record last { state = answer.0 } ∷ [] } in
        elim answer.1 [
          | err e ↦ (c', err e)
          | ok none ↦ (c', ok none)
          | ok (some id) ↦ refreshed c' (clock 256) key (some id)
        ]
  ]

  abbrev at_last {ℓ} : {A : Type ℓ} → Chain T → (Tier T → Result A) → Result A
  at_last c f = elim (split_last c.tiers) [ none ↦ err empty_chain | some (before, last) ↦ f last ]

  unfoldable pub pin_candidate : Chain T → FileKind → Bytes → ℕ → Result Bytes
  pin_candidate c kind key attempt =
      at_last c (λ t. t.backend.pin_candidate t.state kind key attempt)

  unfoldable pub untracked_pin : Chain T → FileKind → Bytes → Result Bytes
  untracked_pin c kind key = at_last c (λ t. t.backend.untracked_pin t.state kind key)

  unfoldable pub pin_data : Chain T → ℕ → Bytes → Result (Option PinnedThumbnail)
  pin_data c now id = at_last c (λ t. t.backend.pin_data t.state now id)

  -- A pending promotion runs: it changes the tier at its index alone.
  unfoldable pub promote_at : List (Tier T) → ℕ → Task → ℕ → List (Tier T)
  promote_at [] now task index = []
  promote_at (t ∷ ts) now task zero =
      record t { state = t.backend.promote t.state now task.key task.entry } ∷ ts
  promote_at (t ∷ ts) now task (suc index) = t ∷ promote_at ts now task index

  unfoldable pub run_task : Chain T → ℕ → Chain T
  unfolding promote_at
  run_task c now = elim c.pending [
    | [] ↦ c
    | task ∷ rest ↦ record { tiers = promote_at c.tiers now task task.index; pending = rest }
  ]

  -- Every promotion that is pending, in the order in which they were scheduled.
  abbrev pub run_tasks : ℕ → Chain T → List Task → Chain T
  run_tasks now c [] = c
  run_tasks now c (task ∷ rest) = run_tasks now (run_task c now) rest

  unfoldable pub chain : Backend (Chain T)
  unfolding get_entry get_pin_entry promote put revalidate claim_pin issue_pin pin_candidate
      untracked_pin pin_data
  chain = record {
    name = ascii "chain";
    pin_candidate = pin_candidate;
    untracked_pin = untracked_pin;
    issue_pin = issue_pin;
    claim_pin = claim_pin;
    pin_data = pin_data;
    get_entry = get_entry;
    get_pin_entry = get_pin_entry;
    promote = promote;
    revalidate = revalidate;
    put = put;
  }
