-- ===== src/Cache/Memory/Pins.antt =====
-- Pin deadlines and pin aliases of tier1/src/cache/memory.rs across every operation.
use thumbrella.Base.{
  ℕ, ◌≤◌, ◌<◌, ◌≡◌, refl, sym, ap, subst, ◌∙◌, ◌⊎◌, inl, inr, Bool, true, false, not, Option, none,
  some, Bytes, bytes_eq, bytes_eq_sound, ltb, leb, max, if◌then◌else◌, is_some_and, saturating_add,
  arith, Bool-cases, Option-cases,
}
use thumbrella.Cache.Deadlines.{access_lem}
use thumbrella.Base.Assoc
use thumbrella.Base.Assoc.{get-retain, get-insert}
use thumbrella.Hints.Wire.{Base64}
use thumbrella.Media.{ThumbMedia}
use thumbrella.Cache.Entry.{CacheEntry, clear_url, new, retain_until, access}
use thumbrella.Cache.Moka.{Moka, IsMoka, MayBe}
use thumbrella.Cache.Memory.{
  Memory, write_back, lookup, claim_pin, promote, revalidate, put, retained, store_swept, live_pin,
  store_or_drop, keep_pin,
}

-- The operations of the backend that may change it.
pub data Op : Type 0 where
  lookups : Bytes → Bool → ℕ → Op
  claims : Bytes → Bytes → ℕ → Op
  promotes : Bytes → CacheEntry → Op
  revalidates : Bytes → CacheEntry → Bytes → Op
  puts : Bytes → ThumbMedia → ℕ → ℕ → ℕ → Op

-- What is found has a pin deadline of at least `p`, or is nothing for the reason that is given.
abbrev pub Pinned : Type 0 → ℕ → Option CacheEntry → Type 0
Pinned Reason p found =
    (Reason × (found ≡ none)) ⊎ ((e : CacheEntry) × (found ≡ some e) × (p ≤ e.pin_until))

module _ {S : Type 0} (b64 : Base64) (moka : Moka S CacheEntry) where
  unfoldable pub step : Memory S → ℕ → Op → Memory S
  step m now (lookups key pin pin_ttl) = (lookup b64 moka m now key pin pin_ttl).0
  step m now (claims id key ttl) = (claim_pin b64 moka m now id key ttl).0
  step m now (promotes key entry) = promote b64 moka m now key entry
  step m now (revalidates key entry expected) = revalidate b64 moka m now key entry expected
  step m now (puts key media cost cache_until pin_ttl) =
      put b64 moka m now key media cost cache_until pin_ttl

  -- Every pin that is live at `now` stays as long, or longer, under a key that the cache does not evict.
  abbrev pub PinsKept : (Bytes → Type 0) → ℕ → S → S → Type 0
  PinsKept Evicts now s t =
      (k : Bytes) (e : CacheEntry)
      → moka.get s k ≡ some e
      → now < e.pin_until
      → Pinned (Evicts k) e.pin_until (moka.get t k)

module _ {S : Type 0} (b64 : Base64) {moka : Moka S CacheEntry} {Evicts : Bytes → Type 0}
    (laws : IsMoka moka Evicts) (now : ℕ) where
  PinsKept-refl : (s : S) → PinsKept b64 moka Evicts now s s
  PinsKept-refl s k e found live = inr (e, found, omega arith)

  MayBe-Pinned :
      {R : Type 0} (found : Option CacheEntry) (e : CacheEntry)
      → MayBe R found (some e)
      → Pinned R e.pin_until found
  MayBe-Pinned found e (inl same) = inr (e, same, omega arith)
  MayBe-Pinned found e (inr gone) = inl gone

  Pinned-MayBe :
      {R : Type 0} (p : ℕ) (found kept : Option CacheEntry)
      → MayBe R found kept
      → Pinned R p kept
      → Pinned R p found
  Pinned-MayBe p found kept (inl same) (inl (why, gone)) = inl (why, same ∙ gone)
  Pinned-MayBe p found kept (inr gone) (inl _) = inl gone
  Pinned-MayBe p found kept (inl same) (inr (e, here, le)) = inr (e, same ∙ here, le)
  Pinned-MayBe p found kept (inr gone) (inr _) = inl gone

  -- A write over `t`, which has kept the pins of `s`, if the new entry has the pin of the old one.
  PinsKept-insert :
      (s t : S) (key : Bytes) (v : CacheEntry)
      → PinsKept b64 moka Evicts now s t
      → ((e : CacheEntry) → moka.get s key ≡ some e → now < e.pin_until → e.pin_until ≤ v.pin_until)
      → PinsKept b64 moka Evicts now s (moka.insert t key v)
  PinsKept-insert s t key v kept longer k e found live = elim (Bool-cases (bytes_eq key k)) [
    | inl here ↦
        let same : key ≡ k = bytes_eq_sound key k here in
        subst (λ j. Pinned (Evicts j) e.pin_until (moka.get (moka.insert t key v) j)) same
          (Pinned-MayBe e.pin_until _ _ (laws.get-insert_self t key v)
            (inr (v, refl, longer e (ap (moka.get s) same ∙ found) live)))
    | inr other ↦
        Pinned-MayBe e.pin_until _ _ (laws.get-insert_ne t key k v other) (kept k e found live)
  ]

  -- An entry may be dropped if it holds no live pin.
  PinsKept-invalidate :
      (s : S) (key : Bytes)
      → ((e : CacheEntry) → moka.get s key ≡ some e → now < e.pin_until → ⊥)
      → PinsKept b64 moka Evicts now s (moka.invalidate s key)
  PinsKept-invalidate s key unpinned k e found live = elim (Bool-cases (bytes_eq key k)) [
    | inl here ↦ absurd (unpinned e (ap (moka.get s) (bytes_eq_sound key k here) ∙ found) live)
    | inr other ↦ MayBe-Pinned (moka.get (moka.invalidate s key) k) e (
        subst (MayBe (Evicts k) (moka.get (moka.invalidate s key) k)) found
          (laws.get-invalidate_ne s key k other))
  ]

  PinsKept-sweep :
      (s : S)
      → PinsKept b64 moka Evicts now s
          (moka.invalidate_entries_if s (λ e. leb (retain_until e) now))
  PinsKept-sweep s k e found live = MayBe-Pinned _ e (
      laws.get-invalidate_if_miss s (λ x. leb (retain_until x) now) k e found
        (unfold retain_until in ground arith))

  -- The three ways in which a method leaves the cache.
  PinsKept-drop_or_stay :
      (c : Bool) (s : S) (key : Bytes)
      → (c ≡ true → (e : CacheEntry) → moka.get s key ≡ some e → now < e.pin_until → ⊥)
      → PinsKept b64 moka Evicts now s (if c then moka.invalidate s key else s)
  PinsKept-drop_or_stay true s key h = PinsKept-invalidate s key (h refl)
  PinsKept-drop_or_stay false s key h = PinsKept-refl s

  PinsKept-drop_or_store :
      (c : Bool) (s t : S) (key : Bytes) (v : CacheEntry)
      → PinsKept b64 moka Evicts now s t
      → ((e : CacheEntry) → moka.get s key ≡ some e → now < e.pin_until → e.pin_until ≤ v.pin_until)
      → (c ≡ true → v.pin_until ≤ now)
      → PinsKept b64 moka Evicts now s (if c then moka.invalidate s key else moka.insert t key v)
  PinsKept-drop_or_store true s t key v kept longer past =
      PinsKept-invalidate s key
        (λ e found live. let le = longer e found live in let old = past refl in omega arith)
  PinsKept-drop_or_store false s t key v kept longer past = PinsKept-insert s t key v kept longer

  past_pin : (v : CacheEntry) → leb (retain_until v) now ≡ true → v.pin_until ≤ now
  unfolding retain_until
  past_pin v h = ground arith

  same_pin :
      (s : S) (key : Bytes) (a b : CacheEntry)
      → moka.get s key ≡ some a
      → moka.get s key ≡ some b
      → a.pin_until ≡ b.pin_until
  same_pin s key a b p q = ground arith

  along :
      (s : S) {t u : S}
      → t ≡ u
      → PinsKept b64 moka Evicts now s u
      → PinsKept b64 moka Evicts now s t
  along s e = subst (PinsKept b64 moka Evicts now s) (sym e)

  write_back-PinsKept :
      (s : S) (key : Bytes) (found entry : CacheEntry) (hit : Bool)
      → moka.get s key ≡ some found
      → found.pin_until ≤ entry.pin_until
      → PinsKept b64 moka Evicts now s (write_back b64 moka s now key (entry, hit))
  unfolding write_back
  write_back-PinsKept s key found entry true here longer =
      PinsKept-drop_or_store (leb (retain_until entry) now) s s key entry (PinsKept-refl s)
        (λ e e_here live. omega (arith, same_pin s key e found e_here here)) (past_pin entry)
  write_back-PinsKept s key found entry false here longer =
      PinsKept-drop_or_stay (leb (retain_until entry) now) s key (λ past e e_here live.
        omega (arith, same_pin s key e found e_here here, past_pin entry past))

  module _ (m : Memory S) (key : Bytes) where
    lookup-miss :
        (pin : Bool) (pin_ttl : ℕ)
        → moka.get m.cache key ≡ none
        → (lookup b64 moka m now key pin pin_ttl).0.cache ≡ m.cache
    unfolding lookup
    lookup-miss pin pin_ttl gone = rw (gone, lookup) refl

    lookup-found :
        (found : CacheEntry) (pin : Bool) (pin_ttl : ℕ)
        → moka.get m.cache key ≡ some found
        → (lookup b64 moka m now key pin pin_ttl).0.cache
          ≡ write_back b64 moka m.cache now key (access found now pin pin_ttl)
    unfolding lookup
    lookup-found found pin pin_ttl here = rw (here, lookup) refl

    lookup-PinsKept :
        (pin : Bool) (pin_ttl : ℕ)
        → PinsKept b64 moka Evicts now m.cache (lookup b64 moka m now key pin pin_ttl).0.cache
    lookup-PinsKept pin pin_ttl = elim (Option-cases (moka.get m.cache key)) [
      | inl gone ↦ along m.cache (lookup-miss pin pin_ttl gone) (PinsKept-refl m.cache)
      | inr (found, here) ↦ along m.cache (lookup-found found pin pin_ttl here) (
          write_back-PinsKept m.cache key found (access found now pin pin_ttl).0 _ here
            (access_lem found now pin pin_ttl).5)
    ]

    retained-get :
        (entry : CacheEntry)
        → retained b64 moka m.cache now key ≡ some entry
        → moka.get m.cache key ≡ some entry
    unfolding retained
    retained-get entry e = ground arith

    claim_pin-PinsKept :
        (id : Bytes) (ttl : ℕ)
        → PinsKept b64 moka Evicts now m.cache (claim_pin b64 moka m now id key ttl).0.cache
    unfolding claim_pin
    claim_pin-PinsKept id ttl =
        elim (Bool-cases (
          is_some_and (Assoc.get (Assoc.retain (live_pin b64 moka m.cache now) m.pins) id)
            (λ owner. not (bytes_eq owner key)))) [
              | inl taken ↦ along m.cache (rw (taken, claim_pin) refl) (PinsKept-refl m.cache)
              | inr free ↦ elim (Option-cases (retained b64 moka m.cache now key)) [
                | inl gone ↦ along m.cache (rw (free, gone, claim_pin) refl) (PinsKept-refl m.cache)
                | inr (entry, here) ↦ along m.cache (rw (free, here, claim_pin) refl) (
                    PinsKept-insert m.cache m.cache key
                      (record entry { pin_until = max entry.pin_until (saturating_add now ttl) })
                      (PinsKept-refl m.cache)
                      (λ e e_here live.
                        omega
                          (arith, same_pin m.cache key e entry e_here (retained-get entry here))))
              ]
            ]

    vacant_pin :
        (e : CacheEntry)
        → is_some_and (moka.get m.cache key) (λ e. ltb now (retain_until e)) ≡ false
        → moka.get m.cache key ≡ some e
        → now < e.pin_until
        → ⊥
    unfolding retain_until
    vacant_pin e vacant here live = ground arith

    promote-PinsKept :
        (entry : CacheEntry)
        → PinsKept b64 moka Evicts now m.cache (promote b64 moka m now key entry).cache
    unfolding promote
    promote-PinsKept entry = elim (Bool-cases (leb (retain_until entry) now)) [
      | inl past ↦ along m.cache (rw (past, promote) refl) (PinsKept-refl m.cache)
      | inr ahead ↦
          elim (Bool-cases (is_some_and (moka.get m.cache key) (λ e. ltb now (retain_until e)))) [
            | inl occupied ↦
                along m.cache (rw (ahead, occupied, promote) refl) (PinsKept-refl m.cache)
            | inr vacant ↦ along m.cache (rw (ahead, vacant, promote) refl) (
                PinsKept-insert m.cache m.cache key
                  (record entry { media = clear_url (entry.media) }) (PinsKept-refl m.cache)
                  (λ e e_here live. absurd (vacant_pin e vacant e_here live)))
          ]
    ]

    store_or_drop-PinsKept :
        (v : CacheEntry)
        → ((e : CacheEntry)
            → moka.get m.cache key ≡ some e
            → now < e.pin_until
            → e.pin_until ≤ v.pin_until)
        → PinsKept b64 moka Evicts now m.cache (store_or_drop b64 moka m now key v).cache
    store_or_drop-PinsKept v longer = along m.cache (if-cache (leb (retain_until v) now)) (
        PinsKept-drop_or_store (leb (retain_until v) now) m.cache m.cache key v
          (PinsKept-refl m.cache) longer (past_pin v))
      where
        if-cache :
            (c : Bool)
            → (if c
                then record m { cache = moka.invalidate m.cache key }
                else record m { cache = moka.insert m.cache key v }).cache
              ≡ (if c then moka.invalidate m.cache key else moka.insert m.cache key v)
        if-cache true = refl
        if-cache false = refl

    revalidate-PinsKept :
        (entry : CacheEntry) (expected : Bytes)
        → PinsKept b64 moka Evicts now m.cache (revalidate b64 moka m now key entry expected).cache
    unfolding revalidate
    revalidate-PinsKept entry expected = elim (Option-cases (moka.get m.cache key)) [
      | inl gone ↦ along m.cache (rw (gone, revalidate) refl) (
          store_or_drop-PinsKept (record entry { media = clear_url (entry.media) })
            (λ e e_here live. ground arith))
      | inr (existing, here) ↦ elim (Bool-cases (bytes_eq existing.media.cache expected)) [
        | inl same ↦ along m.cache (rw (here, same, revalidate) refl) (
            store_or_drop-PinsKept
              (record entry {
                media = clear_url (entry.media);
                pin_until = max entry.pin_until existing.pin_until;
              })
              (λ e e_here live. omega (arith, same_pin m.cache key e existing e_here here)))
        | inr other ↦ along m.cache (rw (here, other, revalidate) refl) (PinsKept-refl m.cache)
      ]
    ]

    store_swept-PinsKept :
        (v : CacheEntry)
        → ((e : CacheEntry)
            → moka.get m.cache key ≡ some e
            → now < e.pin_until
            → e.pin_until ≤ v.pin_until)
        → PinsKept b64 moka Evicts now m.cache (store_swept b64 moka m now key v).cache
    unfolding store_swept
    store_swept-PinsKept v longer = along m.cache (if-cache (leb (retain_until v) now)) (
        PinsKept-drop_or_store (leb (retain_until v) now) m.cache swept key v
          (PinsKept-sweep m.cache) longer (past_pin v))
      where
        swept : S
        swept = moka.invalidate_entries_if m.cache (λ e. leb (retain_until e) now)

        if-cache :
            (c : Bool)
            → (if c
                then record m { cache = moka.invalidate m.cache key }
                else record m { cache = moka.insert swept key v }).cache
              ≡ (if c then moka.invalidate m.cache key else moka.insert swept key v)
        if-cache true = refl
        if-cache false = refl

    keep_pin-longer :
        (v e : CacheEntry)
        → moka.get m.cache key ≡ some e
        → e.pin_until ≤ (keep_pin b64 moka v (moka.get m.cache key)).pin_until
    keep_pin-longer v e here = rw here (omega arith)

    put-PinsKept :
        (media : ThumbMedia) (cost cache_until pin_ttl : ℕ)
        → PinsKept b64 moka Evicts now m.cache
            (put b64 moka m now key media cost cache_until pin_ttl).cache
    unfolding put
    put-PinsKept media cost cache_until pin_ttl =
        store_swept-PinsKept
          (keep_pin b64 moka (new b64 media cost cache_until pin_ttl now) (moka.get m.cache key))
          (λ e here live. keep_pin-longer (new b64 media cost cache_until pin_ttl now) e here)

-- No operation of the backend drops an entry whose pin is live when it runs, or shortens that pin:
-- afterwards the key holds an entry with that deadline or a later one, unless the third-party cache may
-- evict the key. Over a cache that evicts nothing, no operation loses a live pin.
pub step-PinsKept :
    {S : Type 0} (b64 : Base64) {moka : Moka S CacheEntry} {Evicts : Bytes → Type 0}
    → IsMoka moka Evicts
    → (m : Memory S) (now : ℕ) (op : Op)
    → PinsKept b64 moka Evicts now m.cache (step b64 moka m now op).cache
unfolding step
step-PinsKept b64 laws m now (lookups key pin pin_ttl) =
    lookup-PinsKept b64 laws now m key pin pin_ttl
step-PinsKept b64 laws m now (claims id key ttl) = claim_pin-PinsKept b64 laws now m key id ttl
step-PinsKept b64 laws m now (promotes key entry) = promote-PinsKept b64 laws now m key entry
step-PinsKept b64 laws m now (revalidates key entry expected) =
    revalidate-PinsKept b64 laws now m key entry expected
step-PinsKept b64 laws m now (puts key media cost cache_until pin_ttl) =
    put-PinsKept b64 laws now m key media cost cache_until pin_ttl
