-- ===== src/Cache/Frontend/Leaders.antt =====
-- Leaders of the frontend of tier1/src/cache/mod.rs over any sequence of calls.
use thumbrella.Base.{
  ℕ, ◌<◌, ◌≡◌, ◌≢◌, refl, sym, ap, ◌∙◌, inl, inr, true, false, Option, none, some, List, [], ◌∷◌,
  Bytes, bytes_eq, bytes_eq_sound, bytes_eq_self, subst, ==_self, if◌then◌else◌, arith, Bool-cases,
  Option-cases,
}
use thumbrella.Base.Assoc
use thumbrella.Hints.{CacheHints}
use thumbrella.Hints.Wire.{Base64}
use thumbrella.Media.{ThumbResult}
use thumbrella.Cache.Moka.{Moka}
use thumbrella.Cache.Frontend.{
  Frontend, hit, leader, join, Lookup, lookup, owns, complete, cancel, sticky_store,
}
use thumbrella.Cache.Frontend.Generations.{
  Op, looks, stores, completes, cancels, ends, id_of, slot_id-insert, slot_id-release, slot_id,
  step, run, Change, same, opened, ended, step-Change, next_id-step, owns-slot_id, Looked, answered,
  joined, led, lookup-Looked,
}

-- A generation that has been given out and has no slot.
record Gone {S : Type 0} (f : Frontend S) (key : Bytes) (id : ℕ) : Type 0 where
  old : id < f.next_id
  lost : slot_id f key ≢ some id

-- Calls that do not end the generation.
pub data Spares (key : Bytes) (id : ℕ) : List Op → Type 0 where
  no_calls : Spares key id []
  spares :
      {op : Op} {ops : List Op}
      → ends key id op ≡ false
      → Spares key id ops
      → Spares key id (op ∷ ops)

contradiction : true ≢ false
contradiction e = ground arith

none≢some : {i : ℕ} → none ≢ some i
none≢some e = ground arith

some_inj : {i j : ℕ} → some i ≡ some j → i ≡ j
some_inj e = cc

pub slot_id-owns :
    {S : Type 0} (f : Frontend S) (key : Bytes) (id : ℕ)
    → slot_id f key ≡ some id
    → owns f key id ≡ true
unfolding owns
slot_id-owns f key id = elim (Option-cases (Assoc.get f.inflight key)) [
  | inl free ↦ rw (owns, free) (λ h. absurd (none≢some h))
  | inr (slot, busy) ↦ rw (owns, busy) (λ h. rw (some_inj h) (==_self id))
]

-- The generation that a lookup gives out.
abbrev given : Lookup → Option ℕ
given (hit r) = none
given (leader id) = some id
given (join id channel) = none

module _ {S : Type 0} (b64 : Base64) (moka : Moka S ThumbResult) (key : Bytes) (id : ℕ) where
  at_key : (o : Option ℕ) → (if bytes_eq key key then none else o) ≡ none
  at_key o = rw (bytes_eq_self key) refl

  owns-lost : (f : Frontend S) → slot_id f key ≢ some id → owns f key id ≡ false
  owns-lost f lost = elim (Bool-cases (owns f key id)) [
    | inl mine ↦ absurd (lost (owns-slot_id b64 moka f key id mine))
    | inr other ↦ other
  ]

  -- A call that ends the generation of a slot frees the slot.
  ends-step :
      (f : Frontend S) (op : Op)
      → ends key id op ≡ true
      → slot_id f key ≡ some id
      → slot_id (step b64 moka f op) key ≡ none
  unfolding step complete cancel sticky_store
  ends-step f (looks k client) over leads = absurd (ground arith)
  ends-step f (stores k r) over leads = absurd (ground arith)
  ends-step f (completes k i r) over leads =
      rw (k_is_key, i_is_id, complete, slot_id-owns f key id leads)
        (slot_id-release (sticky_store moka f key r) key key (some r) ∙ at_key _)
    where
      k_is_key : k ≡ key
      k_is_key = bytes_eq_sound k key (ground arith)

      i_is_id : i ≡ id
      i_is_id = ground arith
  ends-step f (cancels k i) over leads =
      rw (k_is_key, i_is_id, cancel, slot_id-owns f key id leads)
        (slot_id-release f key key none ∙ at_key _)
    where
      k_is_key : k ≡ key
      k_is_key = bytes_eq_sound k key (ground arith)

      i_is_id : i ≡ id
      i_is_id = ground arith

  step-Gone : (f : Frontend S) (op : Op) → Gone f key id → Gone (step b64 moka f op) key id
  step-Gone f op gone = record {
    old = omega (arith, gone.old, next_id-step b64 moka f op);
    lost = still (step-Change b64 moka f op key);
  }
    where
      still : Change b64 moka f op key → slot_id (step b64 moka f op) key ≢ some id
      still (same e) h = gone.lost (sym e ∙ h)
      still (opened free e) h = not_new (sym e ∙ h)
        where
          not_new : some f.next_id ≢ some id
          not_new e = ground (arith, gone.old)
      still (ended i over was e) h = none≢some (sym e ∙ h)

  run-Gone : (f : Frontend S) (ops : List Op) → Gone f key id → Gone (run b64 moka f ops) key id
  run-Gone f [] gone = gone
  run-Gone f (op ∷ ops) gone = run-Gone (step b64 moka f op) ops (step-Gone f op gone)

  Gone-complete : (f : Frontend S) (r : ThumbResult) → Gone f key id → complete moka f key id r ≡ f
  unfolding complete
  Gone-complete f r gone = rw (complete, owns-lost f gone.lost) refl

  -- A call that ends a generation leaves it without a slot, whether or not it had one.
  ends-Gone :
      (f : Frontend S) (op : Op)
      → id < f.next_id
      → ends key id op ≡ true
      → Gone (step b64 moka f op) key id
  ends-Gone f op old over = record {
    old = omega (arith, old, next_id-step b64 moka f op);
    lost = gone (step-Change b64 moka f op key);
  }
    where
      gone : Change b64 moka f op key → slot_id (step b64 moka f op) key ≢ some id
      gone (same e) h = none≢some (sym (ends-step f op over (sym e ∙ h)) ∙ h)
      gone (opened free e) h = not_new (some_inj (sym e ∙ h))
        where
          not_new : f.next_id ≢ id
          not_new e = omega (arith, old)
      gone (ended i also was e) h = none≢some (sym e ∙ h)

  -- Once a generation has been completed, or released by a waiter that ran out of time, its leader
  -- never publishes: whatever calls follow, completing it changes nothing.
  pub superseded :
      (f : Frontend S) (over : Op) (ops : List Op) (r : ThumbResult)
      → id < f.next_id
      → ends key id over ≡ true
      → let g = run b64 moka (step b64 moka f over) ops in complete moka g key id r ≡ g
  superseded f over ops r old ending =
      Gone-complete (run b64 moka (step b64 moka f over) ops) r
        (run-Gone (step b64 moka f over) ops (ends-Gone f over old ending))

  step-slot_id :
      (f : Frontend S) (op : Op)
      → ends key id op ≡ false
      → slot_id f key ≡ some id
      → slot_id (step b64 moka f op) key ≡ some id
  step-slot_id f op spared leads = by_change (step-Change b64 moka f op key)
    where
      by_change : Change b64 moka f op key → slot_id (step b64 moka f op) key ≡ some id
      by_change (same e) = e ∙ leads
      by_change (opened free e) = absurd (none≢some (sym free ∙ leads))
      by_change (ended i over was e) = absurd (
          contradiction
            (sym (subst (λ j. ends key j op ≡ true) (some_inj (sym was ∙ leads)) over) ∙ spared))

  run-slot_id :
      (f : Frontend S) (ops : List Op)
      → Spares key id ops
      → slot_id f key ≡ some id
      → slot_id (run b64 moka f ops) key ≡ some id
  run-slot_id f [] no_calls leads = leads
  run-slot_id f (op ∷ ops) (spares spared rest) leads =
      run-slot_id (step b64 moka f op) ops rest (step-slot_id f op spared leads)

  lookup-leader :
      (f : Frontend S) (client : Option CacheHints) (g : Frontend S)
      → lookup b64 moka f key client ≡ (g, leader id)
      → slot_id g key ≡ some id
  lookup-leader f client g e = by_way (lookup-Looked b64 moka f key client)
    where
      by_way : Looked b64 moka f key client (lookup b64 moka f key client) → slot_id g key ≡ some id
      by_way (answered r found e') = absurd (none≢some (ap (λ p. given p.1) (sym e' ∙ e)))
      by_way (joined slot busy e') = absurd (none≢some (ap (λ p. given p.1) (sym e' ∙ e)))
      by_way (led free e') =
          ap (λ p. slot_id p.0 key) (sym e ∙ e')
          ∙ slot_id-insert f.inflight key key _
          ∙ new_slot
          ∙ ap (λ p. given p.1) (sym e' ∙ e)
        where
          new_slot : (if bytes_eq key key then some f.next_id else slot_id f key) ≡ some f.next_id
          new_slot = rw (bytes_eq_self key) refl

  -- While a generation has the slot of its key, a lookup of that key gives out no other.
  busy-lookup :
      (f : Frontend S) (client : Option CacheHints)
      → slot_id f key ≡ some id
      → given (lookup b64 moka f key client).1 ≡ none
  busy-lookup f client leads = by_way (lookup-Looked b64 moka f key client)
    where
      by_way :
          Looked b64 moka f key client (lookup b64 moka f key client)
          → given (lookup b64 moka f key client).1 ≡ none
      by_way (answered r found e) = ap (λ p. given p.1) e
      by_way (joined slot busy e) = ap (λ p. given p.1) e
      by_way (led free e) = absurd (none≢some (sym (ap id_of free) ∙ leads))

  -- From the lookup that makes a request the leader for a key until that generation is completed or
  -- released, whatever calls come in between, the generation keeps the right to publish, and no
  -- lookup of the key makes a second leader.
  pub one_leader :
      (f : Frontend S) (client later : Option CacheHints) (g : Frontend S) (ops : List Op)
      → lookup b64 moka f key client ≡ (g, leader id)
      → Spares key id ops
      → (owns (run b64 moka g ops) key id ≡ true)
        × ((other : ℕ) → (lookup b64 moka (run b64 moka g ops) key later).1 ≢ leader other)
  one_leader f client later g ops e spared = (
    slot_id-owns h key id leads,
    λ other second. none≢some (sym (busy-lookup h later leads) ∙ ap given second),
  )
    where
      h : Frontend S
      h = run b64 moka g ops

      leads : slot_id (run b64 moka g ops) key ≡ some id
      leads = run-slot_id g ops spared (lookup-leader f client g e)
