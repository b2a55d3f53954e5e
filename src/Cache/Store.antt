-- ===== src/Cache/Store.antt =====
-- `CacheStore` of tier1/src/cache/mod.rs over its durable backend. What is pushed on `AfterResponse` is
-- a change of the backend that is made at the time when it runs, in the order of the list.
pub mod Writes
use thumbrella.Base.{
  ℕ, Bool, true, false, ◌||◌, Option, none, some, List, [], ◌∷◌, ◌++◌, Bytes, ascii, if◌then◌else◌,
  is_empty, is_some_and,
}
use mathlib.Core.Option
use thumbrella.Media.{ThumbMedia, ThumbResult, ResultStatus, ResultSource}
use thumbrella.Cache.Entry.{CacheEntry}
use thumbrella.Cache.Backend.{Backend, get_media, get_pin}

abbrev pub Deferred : Type 0 → Type 0
Deferred T = T → ℕ → T

unfoldable pub is_intermediate : ResultStatus → Bool
is_intermediate ResultStatus.intermediate = true
is_intermediate ResultStatus.success = false
is_intermediate ResultStatus.failed = false
is_intermediate ResultStatus.overloaded = false
is_intermediate ResultStatus.batch_limit = false

unfoldable pub is_placeholder : Option ResultSource → Bool
is_placeholder (some ResultSource.placeholder) = true
is_placeholder _ = false

-- A read through the backend, with its name, or nothing where there is none.
unfoldable pub named {ℓ} :
    {A : Type ℓ} {T : Type 0}
    → Option (Backend T)
    → T
    → (Backend T → T × Option A)
    → T × Option (A × Bytes)
named none t read = (t, none)
named (some backend) t read =
    let (t', found) = read backend in (t', Option.map (λ a. (a, backend.name)) found)

module _ {T : Type 0} (backend : Option (Backend T)) where
  unfoldable pub check_media : T → ℕ → Bytes → ℕ → T × Option (ThumbMedia × Bytes)
  unfolding named get_media
  check_media t now key pin_ttl = named backend t (λ b. get_media b t now key pin_ttl)

  unfoldable pub check_entry : T → ℕ → Bytes → ℕ → T × Option (CacheEntry × Bytes)
  unfolding named
  check_entry t now key pin_ttl = named backend t (λ b. b.get_entry t now key pin_ttl)

  unfoldable pub get_pin_entry : T → ℕ → Bytes → T × Option (CacheEntry × Bytes)
  unfolding named
  get_pin_entry t now key = named backend t (λ b. b.get_pin_entry t now key)

  unfoldable pub pinned_media : T → ℕ → Bytes → T × Option (ThumbMedia × Bytes)
  unfolding named get_pin
  pinned_media t now key = named backend t (λ b. get_pin b t now key)

  unfoldable pub promote : Bytes → CacheEntry → List (Deferred T) → List (Deferred T)
  promote key entry after = elim backend [
    | none ↦ after
    | some b ↦ after ++ (λ t now. b.promote t now key entry) ∷ []
  ]

  unfoldable pub revalidate : Bytes → CacheEntry → Bytes → List (Deferred T) → List (Deferred T)
  revalidate key entry expected after = elim backend [
    | none ↦ after
    | some b ↦ after ++ (λ t now. b.revalidate t now key entry expected) ∷ []
  ]

  unfoldable pub store : Bytes → ThumbResult → ℕ → ℕ → ℕ → List (Deferred T) → List (Deferred T)
  unfolding is_intermediate is_placeholder
  store key result cost expires_at pin_ttl after =
      if is_intermediate result.status || is_placeholder result.source
      then after
      else elim backend [
        | none ↦ after
        | some b ↦ elim result.media [
          | none ↦ after
          | some media ↦
              let cache_until = if is_empty media.cache then 0 else expires_at in
              after ++ (λ t now. b.put t now key media cost cache_until pin_ttl) ∷ []
        ]
      ]

  unfoldable pub backend_name : Bytes
  backend_name = elim backend [ none ↦ ascii "none" | some b ↦ b.name ]

-- `AfterResponse::drain_spawn` spawns the tasks; this is the schedule in which they run in order.
abbrev pub drain : {T : Type 0} → List (Deferred T) → T → ℕ → T
drain [] t now = t
drain (task ∷ tasks) t now = drain tasks (task t now) now
