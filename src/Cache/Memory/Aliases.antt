-- ===== src/Cache/Memory/Aliases.antt =====
-- Pin aliases of tier1/src/cache/memory.rs: who owns one, and what it resolves to.
use thumbrella.Base.{
  ℕ, ◌<◌, ◌≡◌, refl, ◌∙◌, inl, inr, true, false, not, Option, none, some, List, Bytes, bytes_eq,
  bytes_eq_self, bytes_eq_iff, ltb, max, if◌then◌else◌, is_some_and, saturating_add, arith,
  Bool-cases, Option-cases, ltb→lt, ltb_ge, ◌≤◌,
}
use thumbrella.Base.Assoc
use thumbrella.Hints.Wire.{Base64}
use thumbrella.Cache.Entry.{CacheEntry, retain_until}
use thumbrella.Cache.Backend.{Result, PinClaim, PinnedThumbnail, ok, claimed, conflict, missing}
use thumbrella.Cache.Moka.{Moka, IsMoka, MayBe}
use thumbrella.Cache.Memory.{
  Memory, lookup, claim_pin, pin_data, promote, revalidate, put, retained, store_swept, live_pin,
}
use thumbrella.Cache.Memory.Pins.{Op, lookups, claims, promotes, revalidates, puts, step}

module _ {S : Type 0} (b64 : Base64) (moka : Moka S CacheEntry) where
  -- The alias `id` is held by the key `owner`, whose pin is live.
  pub record Holds (m : Memory S) (now : ℕ) (id owner : Bytes) : Type 0 where
    pub alias : Assoc.get m.pins id ≡ some owner
    pub entry : CacheEntry
    pub stored : moka.get m.cache owner ≡ some entry
    pub live : now < entry.pin_until

module _ {S : Type 0} (b64 : Base64) (moka : Moka S CacheEntry) (m : Memory S) (now : ℕ)
    {id owner : Bytes} (held : Holds b64 moka m now id owner) where
  kept_alias : Assoc.get (Assoc.retain (live_pin b64 moka m.cache now) m.pins) id ≡ some owner
  kept_alias =
      Assoc.get-retain (live_pin b64 moka m.cache now) m.pins id owner held.alias
        (live_owner held.entry held.stored held.live)
    where
      live_owner :
          (e : CacheEntry)
          → moka.get m.cache owner ≡ some e
          → now < e.pin_until
          → live_pin b64 moka m.cache now owner ≡ true
      live_owner e stored live = ground arith

  claim_pin-alias :
      (id' key : Bytes) (ttl : ℕ)
      → Assoc.get (claim_pin b64 moka m now id' key ttl).0.pins id ≡ some owner
  unfolding claim_pin
  claim_pin-alias id' key ttl =
      elim (Bool-cases (is_some_and (Assoc.get swept id') (λ holder. not (bytes_eq holder key)))) [
        | inl taken ↦ rw (taken, claim_pin) kept_alias
        | inr free ↦ elim (Option-cases (retained b64 moka m.cache now key)) [
          | inl gone ↦ rw (free, gone, claim_pin) kept_alias
          | inr (entry, here) ↦
              rw (free, here, claim_pin) (Assoc.get-insert swept id' id key ∙ same_owner free)
        ]
      ]
    where
      swept : List (Bytes × Bytes)
      swept = Assoc.retain (live_pin b64 moka m.cache now) m.pins

      same_owner :
          is_some_and (Assoc.get swept id') (λ holder. not (bytes_eq holder key)) ≡ false
          → (if bytes_eq id' id then some key else Assoc.get swept id) ≡ some owner
      same_owner free = ground (arith, kept_alias, bytes_eq_iff id' id, bytes_eq_iff owner key)

  -- No operation takes a live alias away from its owner: not another claim, nor a sweep.
  pub step-alias : (op : Op) → Assoc.get (step b64 moka m now op).pins id ≡ some owner
  unfolding step lookup promote revalidate put store_swept
  step-alias (claims id' key ttl) = claim_pin-alias id' key ttl
  step-alias (lookups key pin pin_ttl) = ground arith
  step-alias (promotes key entry) = ground arith
  step-alias (revalidates key entry expected) = ground arith
  step-alias (puts key media cost cache_until pin_ttl) = ground arith

module _ {S : Type 0} (b64 : Base64) (moka : Moka S CacheEntry) where
  -- The entry that a claim leaves behind.
  abbrev pub claimed_entry : CacheEntry → ℕ → ℕ → CacheEntry
  claimed_entry e now ttl = record e { pin_until = max e.pin_until (saturating_add now ttl) }

  -- The alias is held by no other key whose pin is live.
  abbrev pub IsFree : Memory S → ℕ → Bytes → Bytes → Type 0
  IsFree m now id key = (owner : Bytes) → Holds b64 moka m now id owner → bytes_eq owner key ≡ true

  -- The three outcomes of a claim, with what each leaves behind.
  pub data Outcome (Evicts : Bytes → Type 0) (m : Memory S) (now : ℕ) (id key : Bytes) (ttl : ℕ)
      (m' : Memory S) (answer : Result PinClaim) : Type 0 where
    granted :
        (e : CacheEntry)
        → answer ≡ ok claimed
        → IsFree m now id key
        → moka.get m.cache key ≡ some e
        → now < retain_until e
        → Assoc.get m'.pins id ≡ some key
        → MayBe (Evicts key) (moka.get m'.cache key) (some (claimed_entry e now ttl))
        → Outcome Evicts m now id key ttl m' answer
    absent :
        answer ≡ ok missing
        → IsFree m now id key
        → ((e : CacheEntry) → moka.get m.cache key ≡ some e → retain_until e ≤ now)
        → m'.cache ≡ m.cache
        → Outcome Evicts m now id key ttl m' answer
    taken :
        (owner : Bytes) (e : CacheEntry)
        → answer ≡ ok conflict
        → bytes_eq owner key ≡ false
        → Assoc.get m'.pins id ≡ some owner
        → moka.get m.cache owner ≡ some e
        → now < e.pin_until
        → m'.cache ≡ m.cache
        → Outcome Evicts m now id key ttl m' answer

module _ {S : Type 0} (b64 : Base64) {moka : Moka S CacheEntry} {Evicts : Bytes → Type 0}
    (laws : IsMoka moka Evicts) (m : Memory S) (now : ℕ) (id key : Bytes) (ttl : ℕ) where
  abbrev swept : List (Bytes × Bytes)
  swept = Assoc.retain (live_pin b64 moka m.cache now) m.pins

  other_owner :
      (holder : Option Bytes)
      → is_some_and holder (λ owner. not (bytes_eq owner key)) ≡ true
      → (owner : Bytes) × (holder ≡ some owner) × (bytes_eq owner key ≡ false)
  other_owner none e = absurd (ground arith)
  other_owner (some owner) e = (owner, refl, ground arith)

  swept-IsFree :
      is_some_and (Assoc.get swept id) (λ owner. not (bytes_eq owner key)) ≡ false
      → IsFree b64 moka m now id key
  swept-IsFree free owner held = same (kept_alias b64 moka m now held)
    where
      same : Assoc.get swept id ≡ some owner → bytes_eq owner key ≡ true
      same kept = ground (arith, kept, free)

  live_owner_of :
      (owner : Bytes)
      → live_pin b64 moka m.cache now owner ≡ true
      → (e : CacheEntry) × (moka.get m.cache owner ≡ some e) × (now < e.pin_until)
  live_owner_of owner live = elim (Option-cases (moka.get m.cache owner)) [
    | inl gone ↦ absurd (never gone)
    | inr (e, stored) ↦ (e, stored, ahead e stored)
  ]
    where
      never : moka.get m.cache owner ≡ none → ⊥
      never gone = ground arith

      ahead : (e : CacheEntry) → moka.get m.cache owner ≡ some e → now < e.pin_until
      ahead e stored = ground arith

  retained-stored :
      (e : CacheEntry)
      → retained b64 moka m.cache now key ≡ some e
      → (moka.get m.cache key ≡ some e) × (now < retain_until e)
  unfolding retained retain_until
  retained-stored e h = ground arith

  retained-past :
      retained b64 moka m.cache now key ≡ none
      → (e : CacheEntry) → moka.get m.cache key ≡ some e
      → retain_until e ≤ now
  unfolding retained retain_until
  retained-past gone e stored = ground arith

  -- A claim is granted only if the alias is held by no other key with a live pin and the own key has a
  -- retained entry; it then binds the alias to that key and stores the entry with its pin extended,
  -- unless the third-party cache may evict the key. A claim for which no entry is retained, or that
  -- meets another owner with a live pin, changes no entry and reports which; that owner keeps the alias.
  pub claim_pin-Outcome :
      Outcome b64 moka Evicts m now id key ttl
        (claim_pin b64 moka m now id key ttl).0
        (claim_pin b64 moka m now id key ttl).1
  unfolding claim_pin
  claim_pin-Outcome =
      elim (Bool-cases (is_some_and (Assoc.get swept id) (λ holder. not (bytes_eq holder key)))) [
        | inl busy ↦
            let (owner, alias, differs) = other_owner (Assoc.get swept id) busy in
            let (e, stored, ahead) =
              live_owner_of owner
                (Assoc.get-retain_passed (live_pin b64 moka m.cache now) m.pins id owner alias) in
            rw (busy, claim_pin) (taken owner e refl differs alias stored ahead refl)
        | inr free ↦ elim (Option-cases (retained b64 moka m.cache now key)) [
          | inl gone ↦
              rw (free, gone, claim_pin) (absent refl (swept-IsFree free) (retained-past gone) refl)
          | inr (entry, here) ↦
              let (stored, ahead) = retained-stored entry here in
              rw (free, here, claim_pin)
                (granted entry refl (swept-IsFree free) stored ahead
                  (Assoc.get-insert swept id id key ∙ rw (bytes_eq_self id) refl)
                  (laws.get-insert_self m.cache key (claimed_entry b64 moka entry now ttl)))
        ]
      ]

module _ {S : Type 0} (b64 : Base64) (moka : Moka S CacheEntry) (m : Memory S) (now : ℕ)
    (id : Bytes) where
  -- What a pin link is answered with: the payload of the holder of its alias, or nothing, with the
  -- reason for that.
  pub data Served (answer : Option PinnedThumbnail) : Type 0 where
    served :
        (owner : Bytes) (h : Holds b64 moka m now id owner)
        → answer
          ≡ some (record {
            bytes = h.entry.media.thumbnail;
            cache = h.entry.media.cache;
            until = h.entry.pin_until;
          })
        → Served answer
    unknown : Assoc.get m.pins id ≡ none → answer ≡ none → Served answer
    gone :
        (owner : Bytes)
        → Assoc.get m.pins id ≡ some owner
        → moka.get m.cache owner ≡ none
        → answer ≡ none
        → Served answer
    over :
        (owner : Bytes) (e : CacheEntry)
        → Assoc.get m.pins id ≡ some owner
        → moka.get m.cache owner ≡ some e
        → e.pin_until ≤ now
        → answer ≡ none
        → Served answer

  entry-Served :
      (owner : Bytes) (e : CacheEntry)
      → Assoc.get m.pins id ≡ some owner
      → moka.get m.cache owner ≡ some e
      → Served (pin_data b64 moka m now id)
  unfolding pin_data
  entry-Served owner e alias stored = elim (Bool-cases (ltb now e.pin_until)) [
    | inl ahead ↦
        served owner
          (record {
            alias = alias;
            entry = e;
            stored = stored;
            live = ltb→lt now e.pin_until ahead;
          })
          (rw (alias, stored, ahead) refl)
    | inr past ↦
        over owner e alias stored (ltb_ge now e.pin_until past) (rw (alias, stored, past) refl)
  ]

  -- A pin link serves the thumbnail, the freshness and the deadline of the key that holds its alias
  -- exactly while the pin of that key is live: it is answered with nothing only if the alias is
  -- unknown, its key has no entry, or the deadline of the pin has come.
  pub pin_data-Served : Served (pin_data b64 moka m now id)
  unfolding pin_data
  pin_data-Served = elim (Option-cases (Assoc.get m.pins id)) [
    | inl no_alias ↦ unknown no_alias (rw no_alias refl)
    | inr (owner, alias) ↦ elim (Option-cases (moka.get m.cache owner)) [
      | inl evicted ↦ gone owner alias evicted (rw (alias, evicted) refl)
      | inr (e, stored) ↦ entry-Served owner e alias stored
    ]
  ]
