-- ===== src/Cache/Frontend/Generations.antt =====
-- Who may publish in the frontend of tier1/src/cache/mod.rs: one leader for a key at a time.
use thumbrella.Base.{
  ℕ, ◌+◌, ◌≤◌, ◌==◌, ◌≡◌, refl, sym, ap, subst, ◌∙◌, ◌⊎◌, inl, inr, Bool, true, false, ◌&&◌, Option,
  none, some, List, [], ◌∷◌, ◌++◌, Bytes, bytes_eq, bytes_eq_sound, ==_self, if◌then◌else◌, arith,
  Bool-cases, Option-cases,
}
use thumbrella.Base.Assoc
use thumbrella.Hints.{CacheHints}
use thumbrella.Hints.Wire.{Base64}
use thumbrella.Media.{ThumbResult}
use thumbrella.Cache.Moka.{Moka}
use thumbrella.Cache.Frontend.{
  InflightSlot, Frontend, Lookup, hit, leader, join, debounce_check, sticky_store, lookup, owns,
  release, complete, cancel,
}

-- The calls that change the frontend, of any request.
pub data Op : Type 0 where
  looks : Bytes → Option CacheHints → Op
  stores : Bytes → ThumbResult → Op
  completes : Bytes → ℕ → ThumbResult → Op
  cancels : Bytes → ℕ → Op

-- The generation that has the slot of a key.
abbrev pub id_of : Option InflightSlot → Option ℕ
id_of none = none
id_of (some slot) = some slot.id

abbrev pub slot_id : {S : Type 0} → Frontend S → Bytes → Option ℕ
slot_id f key = id_of (Assoc.get f.inflight key)

pub slot_id-insert :
    (m : List (Bytes × InflightSlot)) (k key : Bytes) (slot : InflightSlot)
    → id_of (Assoc.get (Assoc.insert m k slot) key)
      ≡ (if bytes_eq k key then some slot.id else id_of (Assoc.get m key))
slot_id-insert m k key slot =
    rw (Assoc.get-insert m k key slot)
      (elim (Bool-cases (bytes_eq k key)) [ inl same ↦ rw same refl | inr other ↦ rw other refl ])

pub slot_id-release :
    {S : Type 0} (f : Frontend S) (k key : Bytes) (o : Option ThumbResult)
    → slot_id (release f k o) key ≡ (if bytes_eq k key then none else slot_id f key)
unfolding release
slot_id-release f k key o = elim (Bool-cases (bytes_eq k key)) [
  | inl same ↦
      rw (same, sym (bytes_eq_sound k key same))
        (elim (Option-cases (Assoc.get f.inflight k)) [
          | inl free ↦ rw (release, free) (ap id_of free)
          | inr (slot, busy) ↦ rw (release, busy) (ap id_of (Assoc.get-remove_self f.inflight k))
        ])
  | inr other ↦ rw other (elim (Option-cases (Assoc.get f.inflight k)) [
    | inl free ↦ rw (release, free) refl
    | inr (slot, busy) ↦ rw (release, busy) (ap id_of (Assoc.get-remove_ne f.inflight k key other))
  ])
]

-- The call ends the generation `id` of `key`.
abbrev pub ends : Bytes → ℕ → Op → Bool
ends key id (looks k client) = false
ends key id (stores k r) = false
ends key id (completes k i r) = bytes_eq k key && i == id
ends key id (cancels k i) = bytes_eq k key && i == id

module _ {S : Type 0} (b64 : Base64) (moka : Moka S ThumbResult) where
  unfoldable pub step : Frontend S → Op → Frontend S
  unfolding lookup sticky_store complete cancel
  step f (looks k client) = (lookup b64 moka f k client).0
  step f (stores k r) = sticky_store moka f k r
  step f (completes k i r) = complete moka f k i r
  step f (cancels k i) = cancel f k i

  abbrev pub run : Frontend S → List Op → Frontend S
  run f [] = f
  run f (op ∷ ops) = run (step f op) ops

  -- The three ways in which a lookup goes.
  pub data Looked (f : Frontend S) (key : Bytes) (client : Option CacheHints)
      (result : Frontend S × Lookup) : Type 0 where
    answered :
        (r : ThumbResult)
        → debounce_check b64 moka f key client ≡ some r
        → result ≡ (f, hit r)
        → Looked f key client result
    joined :
        (slot : InflightSlot)
        → Assoc.get f.inflight key ≡ some slot
        → result ≡ (
          record f {
            inflight =
                Assoc.insert f.inflight key
                  (record slot { waiters = slot.waiters ++ f.next_channel ∷ [] });
            next_channel = f.next_channel + 1;
          },
          join slot.id f.next_channel,
        )
        → Looked f key client result
    led :
        Assoc.get f.inflight key ≡ none
        → result ≡ (
          record f {
            inflight = Assoc.insert f.inflight key (record { id = f.next_id; waiters = [] });
            next_id = f.next_id + 1;
          },
          leader f.next_id,
        )
        → Looked f key client result

  pub lookup-Looked :
      (f : Frontend S) (key : Bytes) (client : Option CacheHints)
      → Looked f key client (lookup b64 moka f key client)
  unfolding lookup
  lookup-Looked f key client = elim (Option-cases (debounce_check b64 moka f key client)) [
    | inr (r, found) ↦ answered r found (rw (found, lookup) refl)
    | inl missed ↦ elim (Option-cases (Assoc.get f.inflight key)) [
      | inl free ↦ led free (rw (lookup, missed, free) refl)
      | inr (slot, busy) ↦ joined slot busy (rw (lookup, missed, busy) refl)
    ]
  ]

  -- What a lookup does to the slots: it opens one with a new generation, or leaves their generations.
  slot_id-lookup :
      (f : Frontend S) (k : Bytes) (client : Option CacheHints) (key : Bytes)
      → slot_id (lookup b64 moka f k client).0 key ≡ slot_id f key
        ⊎ (slot_id f key ≡ none) × (slot_id (lookup b64 moka f k client).0 key ≡ some f.next_id)
  slot_id-lookup f k client key = by_way (lookup-Looked f k client)
    where
      kept :
          (slot : InflightSlot)
          → Assoc.get f.inflight k ≡ some slot
          → (if bytes_eq k key then some slot.id else slot_id f key) ≡ slot_id f key
      kept slot busy = elim (Bool-cases (bytes_eq k key)) [
        | inl same ↦ rw same (
            subst (λ j. some slot.id ≡ slot_id f j) (bytes_eq_sound k key same)
              (sym (ap id_of busy)))
        | inr other ↦ rw other refl
      ]

      by_way :
          Looked f k client (lookup b64 moka f k client)
          → slot_id (lookup b64 moka f k client).0 key ≡ slot_id f key
            ⊎ (slot_id f key ≡ none) × (slot_id (lookup b64 moka f k client).0 key ≡ some f.next_id)
      by_way (answered r found e) = inl (ap (λ p. slot_id p.0 key) e)
      by_way (joined slot busy e) =
          inl (ap (λ p. slot_id p.0 key) e ∙ slot_id-insert f.inflight k key _ ∙ kept slot busy)
      by_way (led free e) = elim (Bool-cases (bytes_eq k key)) [
        | inl same ↦ inr (
          subst (λ j. slot_id f j ≡ none) (bytes_eq_sound k key same) (ap id_of free),
          ap (λ p. slot_id p.0 key) e
              ∙ slot_id-insert f.inflight k key _
              ∙ ap (λ b. if b then some f.next_id else slot_id f key) same,
        )
        | inr other ↦ inl (
            ap (λ p. slot_id p.0 key) e
            ∙ slot_id-insert f.inflight k key _
            ∙ ap (λ b. if b then some f.next_id else slot_id f key) other)
      ]

  next_id-lookup :
      (f : Frontend S) (k : Bytes) (client : Option CacheHints)
      → f.next_id ≤ (lookup b64 moka f k client).0.next_id
  next_id-lookup f k client = by_way (lookup-Looked f k client)
    where
      by_way :
          Looked f k client (lookup b64 moka f k client)
          → f.next_id ≤ (lookup b64 moka f k client).0.next_id
      by_way (answered r found e) = omega (arith, ap (λ p. p.0.next_id) e)
      by_way (joined slot busy e) = omega (arith, ap (λ p. p.0.next_id) e)
      by_way (led free e) = omega (arith, ap (λ p. p.0.next_id) e)

  next_id-release :
      (f : Frontend S) (k : Bytes) (o : Option ThumbResult) → (release f k o).next_id ≡ f.next_id
  unfolding release
  next_id-release f k o = elim (Option-cases (Assoc.get f.inflight k)) [
    | inl free ↦ rw (release, free) refl
    | inr (slot, busy) ↦ rw (release, busy) refl
  ]

  pub next_id-step : (f : Frontend S) (op : Op) → f.next_id ≤ (step f op).next_id
  unfolding step complete cancel sticky_store
  next_id-step f (looks k client) = next_id-lookup f k client
  next_id-step f (stores k r) = omega arith
  next_id-step f (completes k i r) = elim (Bool-cases (owns f k i)) [
    | inl mine ↦
        rw (complete, mine, next_id-release (sticky_store moka f k r) k (some r)) (omega arith)
    | inr other ↦ rw (complete, other) (omega arith)
  ]
  next_id-step f (cancels k i) = elim (Bool-cases (owns f k i)) [
    | inl mine ↦ rw (cancel, mine, next_id-release f k none) (omega arith)
    | inr other ↦ rw (cancel, other) (omega arith)
  ]

  -- What one call does to the slot of a key.
  pub data Change (f : Frontend S) (op : Op) (key : Bytes) : Type 0 where
    same : slot_id (step f op) key ≡ slot_id f key → Change f op key
    opened : slot_id f key ≡ none → slot_id (step f op) key ≡ some f.next_id → Change f op key
    ended :
        (i : ℕ)
        → ends key i op ≡ true
        → slot_id f key ≡ some i
        → slot_id (step f op) key ≡ none
        → Change f op key

  pub owns-slot_id : (f : Frontend S) (k : Bytes) (i : ℕ) → owns f k i ≡ true → slot_id f k ≡ some i
  unfolding owns
  owns-slot_id f k i = elim (Option-cases (Assoc.get f.inflight k)) [
    | inl free ↦ rw (owns, free) (λ h. absurd (ground arith))
    | inr (slot, busy) ↦ rw (owns, busy) (λ h. ap some (same_id slot.id h))
  ]
    where
      same_id : (j : ℕ) → (j == i) ≡ true → j ≡ i
      same_id j h = ground arith

  -- A release by the owner of a slot.
  release-Change :
      (f g : Frontend S) (op : Op) (k key : Bytes) (i : ℕ) (o : Option ThumbResult)
      → step f op ≡ release g k o
      → g.inflight ≡ f.inflight
      → owns f k i ≡ true
      → (bytes_eq k key ≡ true → ends key i op ≡ true)
      → Change f op key
  release-Change f g op k key i o e slots mine over = elim (Bool-cases (bytes_eq k key)) [
    | inl here ↦
        ended i (over here)
          (subst (λ j. slot_id f j ≡ some i) (bytes_eq_sound k key here) (owns-slot_id f k i mine))
          (ap (λ x. slot_id x key) e
            ∙ slot_id-release g k key o
            ∙ ap (λ b. if b then none else slot_id g key) here)
    | inr elsewhere ↦ same (
        ap (λ x. slot_id x key) e
        ∙ slot_id-release g k key o
        ∙ ap (λ b. if b then none else slot_id g key) elsewhere
        ∙ ap (λ m. id_of (Assoc.get m key)) slots)
  ]

  pub step-Change : (f : Frontend S) (op : Op) (key : Bytes) → Change f op key
  unfolding step complete cancel sticky_store
  step-Change f (looks k client) key = elim (slot_id-lookup f k client key) [
    | inl kept ↦ same kept
    | inr (free, new) ↦ opened free new
  ]
  step-Change f (stores k r) key = same refl
  step-Change f (completes k i r) key = elim (Bool-cases (owns f k i)) [
    | inl mine ↦
        release-Change f (sticky_store moka f k r) (completes k i r) k key i (some r)
          (rw (complete, mine) refl) refl mine (λ here. rw here (==_self i))
    | inr other ↦ same (rw (complete, other) refl)
  ]
  step-Change f (cancels k i) key = elim (Bool-cases (owns f k i)) [
    | inl mine ↦
        release-Change f f (cancels k i) k key i none (rw (cancel, mine) refl) refl mine
          (λ here. rw here (==_self i))
    | inr other ↦ same (rw (cancel, other) refl)
  ]
