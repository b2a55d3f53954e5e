-- ===== src/Cache/Frontend/Waiters.antt =====
-- The requests that wait in the frontend of tier1/src/cache/mod.rs.
use thumbrella.Base.{
  ℕ, ◌+◌, ◌<◌, ◌≡◌, ◌≢◌, refl, sym, ap, subst, ◌∙◌, inl, inr, true, false, Option, none, some, [],
  ◌∷◌, ◌++◌, Bytes, bytes_eq, bytes_eq_sound, bytes_eq_self, ltb, ltb→lt, if◌then◌else◌, arith,
  Bool-cases, Option-cases,
}
use mathlib.Core.List.{Mem, mem-append_left, mem-append_right, mem-cons_self, mem-map_of_mem}
use thumbrella.Base.Assoc
use thumbrella.Hints.{CacheHints}
use thumbrella.Hints.Wire.{Base64}
use thumbrella.Media.{ThumbResult}
use thumbrella.Cache.Moka.{Moka}
use thumbrella.Cache.Frontend.{
  InflightSlot, Frontend, sticky_store, lookup, owns, release, complete, cancel,
}
use thumbrella.Cache.Frontend.Leaders.{slot_id-owns}
use thumbrella.Cache.Frontend.Generations.{
  id_of, Op, looks, stores, completes, cancels, step, Looked, answered, joined, led, lookup-Looked,
}

-- Where a channel stands: it waits in the slot of a key, or it has got its outcome.
pub data Stands {S : Type 0} (f : Frontend S) (tx : ℕ) : Type 0 where
  waits :
      (key : Bytes) (slot : InflightSlot)
      → Assoc.get f.inflight key ≡ some slot
      → Mem tx slot.waiters
      → Stands f tx
  settled : (outcome : Option ThumbResult) → Mem (tx, outcome) f.settled → Stands f tx

-- Every channel that was handed out still waits, or has got its outcome.
unfoldable pub Accounted : {S : Type 0} → Frontend S → Type 0
Accounted f = (tx : ℕ) → tx < f.next_channel → Stands f tx

same_slot : {a b : InflightSlot} → some a ≡ some b → a ≡ b
same_slot e = cc

slot≢none : {a : InflightSlot} → some a ≢ none
slot≢none e = ground arith

release-Stands :
    {S : Type 0} (f : Frontend S) (k : Bytes) (o : Option ThumbResult) (tx : ℕ)
    → Stands f tx
    → Stands (release f k o) tx
unfolding release
release-Stands f k o tx (settled outcome at) = elim (Option-cases (Assoc.get f.inflight k)) [
  | inl free ↦ rw (release, free) (settled outcome at)
  | inr (slot, busy) ↦ rw (release, busy) (settled outcome (mem-append_left _ at))
]
release-Stands f k o tx (waits key slot here at) = elim (Bool-cases (bytes_eq k key)) [
  | inl same ↦
      rw
        (
          release,
          subst (λ j. Assoc.get f.inflight j ≡ some slot) (sym (bytes_eq_sound k key same)) here,
        )
        (settled o (mem-append_right f.settled (mem-map_of_mem (λ c. (c, o)) at)))
  | inr other ↦ elim (Option-cases (Assoc.get f.inflight k)) [
    | inl free ↦ rw (release, free) (waits key slot here at)
    | inr (mine, busy) ↦
        rw (release, busy) (waits key slot (Assoc.get-remove_ne f.inflight k key other ∙ here) at)
  ]
]

next_channel-release :
    {S : Type 0} (f : Frontend S) (k : Bytes) (o : Option ThumbResult)
    → (release f k o).next_channel ≡ f.next_channel
unfolding release
next_channel-release f k o = elim (Option-cases (Assoc.get f.inflight k)) [
  | inl free ↦ rw (release, free) refl
  | inr (slot, busy) ↦ rw (release, busy) refl
]

module _ {S : Type 0} (b64 : Base64) (moka : Moka S ThumbResult) where
  stores-Stands :
      (f : Frontend S) (k : Bytes) (r : ThumbResult) (tx : ℕ)
      → Stands f tx
      → Stands (sticky_store moka f k r) tx
  unfolding sticky_store
  stores-Stands f k r tx (waits key slot here at) = waits key slot here at
  stores-Stands f k r tx (settled outcome at) = settled outcome at

  -- A slot that replaces or joins the others keeps the channels that it takes over.
  insert-Stands :
      (f g : Frontend S) (k : Bytes) (new : InflightSlot) (tx : ℕ)
      → g.inflight ≡ Assoc.insert f.inflight k new
      → g.settled ≡ f.settled
      → ((slot : InflightSlot)
          → Assoc.get f.inflight k ≡ some slot
          → Mem tx slot.waiters
          → Mem tx new.waiters)
      → Stands f tx
      → Stands g tx
  insert-Stands f g k new tx slots kept over (settled outcome at) =
      settled outcome (subst (λ l. Mem (tx, outcome) l) (sym kept) at)
  insert-Stands f g k new tx slots kept over (waits key slot here at) =
      elim (Bool-cases (bytes_eq k key)) [
        | inl same ↦ waits key new (found same) (
            over slot
              (subst (λ j. Assoc.get f.inflight j ≡ some slot) (sym (bytes_eq_sound k key same))
                here)
              at)
        | inr other ↦ waits key slot (passed other) at
      ]
    where
      read :
          Assoc.get g.inflight key ≡ (if bytes_eq k key then some new else Assoc.get f.inflight key)
      read = ap (λ m. Assoc.get m key) slots ∙ Assoc.get-insert f.inflight k key new

      found : bytes_eq k key ≡ true → Assoc.get g.inflight key ≡ some new
      found same = read ∙ ap (λ b. if b then some new else Assoc.get f.inflight key) same

      passed : bytes_eq k key ≡ false → Assoc.get g.inflight key ≡ some slot
      passed other = read ∙ ap (λ b. if b then some new else Assoc.get f.inflight key) other ∙ here

  lookup-Accounted :
      (f : Frontend S) (k : Bytes) (client : Option CacheHints)
      → Accounted f
      → Accounted (lookup b64 moka f k client).0
  unfolding Accounted
  lookup-Accounted f k client all = by_way (lookup-Looked b64 moka f k client)
    where
      by_way :
          Looked b64 moka f k client (lookup b64 moka f k client)
          → Accounted (lookup b64 moka f k client).0
      by_way (answered r found e) = subst Accounted (sym (ap (λ p. p.0) e)) all
      by_way (joined slot busy e) = subst Accounted (sym (ap (λ p. p.0) e)) more
        where
          new : InflightSlot
          new = record slot { waiters = slot.waiters ++ f.next_channel ∷ [] }

          g : Frontend S
          g = record f {
            inflight = Assoc.insert f.inflight k new;
            next_channel = f.next_channel + 1;
          }

          over :
              (tx : ℕ) (old : InflightSlot)
              → Assoc.get f.inflight k ≡ some old
              → Mem tx old.waiters
              → Mem tx (slot.waiters ++ f.next_channel ∷ [])
          over tx old here at =
              mem-append_left _ (subst (λ s. Mem tx s.waiters) (same_slot (sym here ∙ busy)) at)

          newest : Assoc.get (Assoc.insert f.inflight k new) k ≡ some new
          newest =
              Assoc.get-insert f.inflight k k new
              ∙ ap (λ b. if b then some new else Assoc.get f.inflight k) (bytes_eq_self k)

          more : Accounted g
          more tx small = elim (Bool-cases (ltb tx f.next_channel)) [
            | inl older ↦ insert-Stands f g k new tx refl refl (over tx) (all tx (ltb→lt _ _ older))
            | inr young ↦ waits k new newest (
                mem-append_right slot.waiters
                  (subst (λ c. Mem tx (c ∷ [])) (last_one tx small young) mem-cons_self))
          ]
            where
              last_one :
                  (tx : ℕ)
                  → tx < f.next_channel + 1
                  → ltb tx f.next_channel ≡ false
                  → tx ≡ f.next_channel
              last_one tx small young = ground arith
      by_way (led free e) = subst Accounted (sym (ap (λ p. p.0) e)) (λ tx small.
          insert-Stands f _ k (record { id = f.next_id; waiters = [] }) tx refl refl
            (λ old here at. absurd (slot≢none (sym here ∙ free))) (all tx small))

  -- No call loses a waiter: if every channel that was handed out waits in a slot or has its outcome,
  -- the same holds after any call, for the channels that it hands out too.
  pub step-Accounted : (f : Frontend S) (op : Op) → Accounted f → Accounted (step b64 moka f op)
  unfolding Accounted step complete cancel sticky_store
  step-Accounted f (looks k client) all tx = lookup-Accounted f k client all tx
  step-Accounted f (stores k r) all tx = λ small. stores-Stands f k r tx (all tx small)
  step-Accounted f (completes k i r) all tx = elim (Bool-cases (owns f k i)) [
    | inl mine ↦
        rw (complete, mine, next_channel-release (sticky_store moka f k r) k (some r))
          (λ small.
            release-Stands (sticky_store moka f k r) k (some r) tx
              (stores-Stands f k r tx (all tx small)))
    | inr other ↦ rw (complete, other) (all tx)
  ]
  step-Accounted f (cancels k i) all tx = elim (Bool-cases (owns f k i)) [
    | inl mine ↦
        rw (cancel, mine, next_channel-release f k none)
          (λ small. release-Stands f k none tx (all tx small))
    | inr other ↦ rw (cancel, other) (all tx)
  ]

  -- When the leader that has the slot of a key completes it, each waiter of the slot is sent that
  -- result, and the slot is free.
  pub complete-wakes :
      (f : Frontend S) (key : Bytes) (slot : InflightSlot) (r : ThumbResult) (tx : ℕ)
      → Assoc.get f.inflight key ≡ some slot
      → Mem tx slot.waiters
      → Mem (tx, some r) (complete moka f key slot.id r).settled
        × (Assoc.get (complete moka f key slot.id r).inflight key ≡ none)
  unfolding complete release sticky_store
  complete-wakes f key slot r tx busy at =
      rw (complete, slot_id-owns f key slot.id (ap id_of busy), release, busy)
        (
          mem-append_right f.settled (mem-map_of_mem (λ c. (c, some r)) at),
          Assoc.get-remove_self f.inflight key,
        )
