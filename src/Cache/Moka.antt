-- ===== src/Cache/Moka.antt =====
-- What the in-memory backend of tier1/src/cache/memory.rs uses of the third-party concurrent cache.
use thumbrella.Base.{Bool, true, false, ◌≡◌, ◌⊎◌, Option, none, some, Bytes, bytes_eq}

pub record Moka (S V : Type 0) : Type 0 where
  pub get : S → Bytes → Option V
  pub insert : S → Bytes → V → S
  pub invalidate : S → Bytes → S
  pub invalidate_entries_if : S → (V → Bool) → S

-- A value, or nothing for the reason that is given.
abbrev pub MayBe : {V : Type 0} → Type 0 → Option V → Option V → Type 0
MayBe Reason found kept = (found ≡ kept) ⊎ (Reason × (found ≡ none))

-- Its documented behaviour: a key reads as what was last written for it, or as nothing if the cache may
-- evict it, which it may do at any write. `Evicts` names the keys that it may evict.
pub record IsMoka {S V : Type 0} (moka : Moka S V) (Evicts : Bytes → Type 0) : Type 0 where
  pub get-insert_self :
      (s : S) (k : Bytes) (v : V) → MayBe (Evicts k) (moka.get (moka.insert s k v) k) (some v)
  pub get-insert_ne :
      (s : S) (k j : Bytes) (v : V)
      → bytes_eq k j ≡ false
      → MayBe (Evicts j) (moka.get (moka.insert s k v) j) (moka.get s j)
  pub get-invalidate_self : (s : S) (k : Bytes) → moka.get (moka.invalidate s k) k ≡ none
  pub get-invalidate_ne :
      (s : S) (k j : Bytes)
      → bytes_eq k j ≡ false
      → MayBe (Evicts j) (moka.get (moka.invalidate s k) j) (moka.get s j)
  pub get-invalidate_if_hit :
      (s : S) (p : V → Bool) (k : Bytes) (v : V)
      → moka.get s k ≡ some v
      → p v ≡ true
      → moka.get (moka.invalidate_entries_if s p) k ≡ none
  pub get-invalidate_if_miss :
      (s : S) (p : V → Bool) (k : Bytes) (v : V)
      → moka.get s k ≡ some v
      → p v ≡ false
      → MayBe (Evicts k) (moka.get (moka.invalidate_entries_if s p) k) (some v)
  pub get-invalidate_if_none :
      (s : S) (p : V → Bool) (k : Bytes)
      → moka.get s k ≡ none
      → moka.get (moka.invalidate_entries_if s p) k ≡ none
