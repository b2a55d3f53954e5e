-- ===== src/Cache/Chain/Reads.antt =====
-- What the reads of tier1/src/cache/chain.rs answer, which tiers they ask, and what they schedule.
use thumbrella.Base.{
  ℕ, ◌+◌, ◌≡◌, refl, ap, inl, inr, false, Option, none, some, List, [], ◌∷◌, ◌++◌, map, Bytes, ◌==◌,
  if◌then◌else◌, Bool-cases, Option-cases,
}
use mathlib.Core.List.{append-nil, append_assoc}
use thumbrella.Cache.Entry.{CacheEntry}
use thumbrella.Cache.Chain.{
  Tier, Chain, Walk, backfill, note_hit, note_miss, walk, get_entry, pin_walk, get_pin_entry,
}

-- `index, index + 1, ...` for as long as the list.
abbrev pub indices_from {ℓ} : {A : Type ℓ} → ℕ → List A → List ℕ
indices_from index [] = []
indices_from index (x ∷ xs) = index ∷ indices_from (index + 1) xs

module _ {T : Type 0} (answer : Tier T → Option CacheEntry) where
  -- No tier of the list has an answer.
  pub data Misses : List (Tier T) → Type 0 where
    nobody : Misses []
    misses : {t : Tier T} {ts : List (Tier T)} → answer t ≡ none → Misses ts → Misses (t ∷ ts)

  -- The tiers with the first that has an answer, if one has.
  pub data Search (tiers : List (Tier T)) : Type 0 where
    nowhere : Misses tiers → Search tiers
    first :
        (before : List (Tier T)) (t : Tier T) (after : List (Tier T)) (e : CacheEntry)
        → tiers ≡ before ++ t ∷ after
        → Misses before
        → answer t ≡ some e
        → Search tiers

  pub find_first : (tiers : List (Tier T)) → Search tiers
  find_first [] = nowhere nobody
  find_first (t ∷ ts) = elim (Option-cases (answer t)) [
    | inl silent ↦ further silent (find_first ts)
    | inr (e, here) ↦ first [] t ts e refl nobody here
  ]
    where
      further : answer t ≡ none → Search ts → Search (t ∷ ts)
      further silent (nowhere miss) = nowhere (misses silent miss)
      further silent (first before u after e split miss here) =
          first (t ∷ before) u after e (ap (◌∷◌ t) split) (misses silent miss) here

-- The walk before its first hit.
abbrev pub searching : List ℕ → Walk
searching missed = record { hit = none; missed = missed; spawned = [] }

-- The walk when the first hit has been noted.
abbrev pub answered : Bytes → CacheEntry → List ℕ → Walk
answered key e missed = record { hit = some e; missed = missed; spawned = backfill key e missed }

-- What a read leaves: `found` is a tier's answer, `asked` the tier after it, and `rest` what becomes
-- of the tiers behind the first that has an answer.
pub data Answer {T : Type 0} (key : Bytes) (found : Tier T → Option CacheEntry)
    (asked : Tier T → Tier T) (rest : List (Tier T) → List (Tier T)) (c : Chain T)
    (result : Chain T × Option CacheEntry) : Type 0 where
  nothing :
      Misses found c.tiers
      → result ≡ (record c { tiers = map asked c.tiers }, none)
      → Answer key found asked rest c result
  something :
      (before : List (Tier T)) (t : Tier T) (after : List (Tier T)) (e : CacheEntry)
      → c.tiers ≡ before ++ t ∷ after
      → Misses found before
      → found t ≡ some e
      → result ≡ (
        record {
          tiers = map asked before ++ asked t ∷ rest after;
          pending = c.pending ++ backfill key e (indices_from 0 before);
        },
        some e,
      )
      → Answer key found asked rest c result

module _ {T : Type 0} (now : ℕ) (key : Bytes) where
  module _ (pin_ttl : ℕ) where
    -- The tier's answer to a lookup, and the tier after it.
    abbrev pub found : Tier T → Option CacheEntry
    found t = (t.backend.get_entry t.state now key pin_ttl).1

    abbrev pub asked : Tier T → Tier T
    asked t = record t { state = (t.backend.get_entry t.state now key pin_ttl).0 }

    -- The tiers behind the first hit are asked only to refresh a pin.
    abbrev pub asked_later : List (Tier T) → List (Tier T)
    asked_later ts = if pin_ttl == 0 then ts else map asked ts

    walk-answered :
        (ts : List (Tier T)) (index : ℕ) (e : CacheEntry) (missed : List ℕ)
        → (pin_ttl == 0) ≡ false
        → walk now key pin_ttl index ts (answered key e missed)
          ≡ (map asked ts, answered key e missed)
    unfolding walk note_hit note_miss
    walk-answered [] index e missed pins = refl
    walk-answered (t ∷ ts) index e missed pins = elim (Option-cases (found t)) [
      | inl silent ↦ rw (silent, walk-answered ts (index + 1) e missed pins) refl
      | inr (other, here) ↦ rw (here, pins, walk-answered ts (index + 1) e missed pins) refl
    ]

    pub walk-first :
        (before : List (Tier T)) (t : Tier T) (after : List (Tier T)) (e : CacheEntry) (index : ℕ)
        (missed : List ℕ)
        → Misses found before
        → found t ≡ some e
        → walk now key pin_ttl index (before ++ t ∷ after) (searching missed) ≡ (
          map asked before ++ asked t ∷ asked_later after,
          answered key e (missed ++ indices_from index before),
        )
    unfolding walk note_hit note_miss
    walk-first before t after e index missed miss here = first_at before index missed miss
      where
        first_at :
            (before : List (Tier T)) (index : ℕ) (missed : List ℕ)
            → Misses found before
            → walk now key pin_ttl index (before ++ t ∷ after) (searching missed) ≡ (
              map asked before ++ asked t ∷ asked_later after,
              answered key e (missed ++ indices_from index before),
            )
        first_at [] index missed miss = elim (Bool-cases (pin_ttl == 0)) [
          | inl once ↦ rw (here, once, append-nil missed) refl
          | inr all ↦
              rw (here, all, walk-answered after (index + 1) e missed all, append-nil missed) refl
        ]
        first_at (b ∷ bs) index missed (misses silent miss) =
            rw (silent, first_at bs (index + 1) (missed ++ index ∷ []) miss, append_assoc missed)
              refl

    walk-Misses :
        (ts : List (Tier T)) (index : ℕ) (missed : List ℕ)
        → Misses found ts
        → walk now key pin_ttl index ts (searching missed)
          ≡ (map asked ts, searching (missed ++ indices_from index ts))
    unfolding walk note_miss
    walk-Misses [] index missed miss = rw (append-nil missed) refl
    walk-Misses (t ∷ ts) index missed (misses silent miss) =
        rw (silent, walk-Misses ts (index + 1) (missed ++ index ∷ []) miss, append_assoc missed)
          refl

    -- A lookup answers with the entry of the first tier that has one, and schedules that entry, as it
    -- is, for exactly the tiers before it. With no pin to refresh the tiers behind are not asked;
    -- with one they all are, and the answer stays the same. If no tier has the entry, nothing is
    -- scheduled.
    pub get_entry-Answer :
        (c : Chain T) → Answer key found asked asked_later c (get_entry c now key pin_ttl)
    unfolding get_entry
    get_entry-Answer c = elim (find_first found c.tiers) [
      | nowhere miss ↦
          nothing miss (rw (get_entry, walk-Misses c.tiers 0 [] miss, append-nil c.pending) refl)
      | first before t after e split miss here ↦
          something before t after e split miss here
            (rw (get_entry, split, walk-first before t after e 0 [] miss here) refl)
    ]

  abbrev pub pin_found : Tier T → Option CacheEntry
  pin_found t = (t.backend.get_pin_entry t.state now key).1

  abbrev pub pin_asked : Tier T → Tier T
  pin_asked t = record t { state = (t.backend.get_pin_entry t.state now key).0 }

  pin_walk-first :
      (before : List (Tier T)) (t : Tier T) (after : List (Tier T)) (e : CacheEntry) (index : ℕ)
      (missed : List ℕ)
      → Misses pin_found before
      → pin_found t ≡ some e
      → pin_walk now key index missed (before ++ t ∷ after) ≡ (
        map pin_asked before ++ pin_asked t ∷ after,
        backfill key e (missed ++ indices_from index before),
        some e,
      )
  unfolding pin_walk
  pin_walk-first [] t after e index missed miss here = rw (here, append-nil missed) refl
  pin_walk-first (b ∷ bs) t after e index missed (misses silent miss) here =
      rw
        (
          silent,
          pin_walk-first bs t after e (index + 1) (missed ++ index ∷ []) miss here,
          append_assoc missed,
        )
        refl

  pin_walk-Misses :
      (ts : List (Tier T)) (index : ℕ) (missed : List ℕ)
      → Misses pin_found ts
      → pin_walk now key index missed ts ≡ (map pin_asked ts, [], none)
  unfolding pin_walk
  pin_walk-Misses [] index missed miss = refl
  pin_walk-Misses (t ∷ ts) index missed (misses silent miss) =
      rw (silent, pin_walk-Misses ts (index + 1) (missed ++ index ∷ []) miss) refl

  -- A pin is answered by the first tier that has it; the tiers behind it are never asked, and the
  -- entry, as it is, is scheduled for exactly the tiers before it.
  pub get_pin_entry-Answer :
      (c : Chain T) → Answer key pin_found pin_asked (λ ts. ts) c (get_pin_entry c now key)
  unfolding get_pin_entry
  get_pin_entry-Answer c = elim (find_first pin_found c.tiers) [
    | nowhere miss ↦
        nothing miss
          (rw (get_pin_entry, pin_walk-Misses c.tiers 0 [] miss, append-nil c.pending) refl)
    | first before t after e split miss here ↦
        something before t after e split miss here
          (rw (get_pin_entry, split, pin_walk-first before t after e 0 [] miss here) refl)
  ]
