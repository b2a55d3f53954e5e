-- ===== src/Cache/Chain/Backfill.antt =====
-- What the promotions that tier1/src/cache/chain.rs hands to tier1/src/after.rs do when they run.
use thumbrella.Base.{
  ℕ, ◌+◌, ◌≡◌, refl, sym, ap, some, List, [], ◌∷◌, ◌++◌, map, Bytes, length, arith, length-append,
}
use mathlib.Core.List.{append_assoc}
use thumbrella.Cache.Entry.{CacheEntry}
use thumbrella.Cache.Chain.{
  Tier, Chain, backfill, at_tier, promote_at, run_task, run_tasks, get_entry,
}
use thumbrella.Cache.Chain.Reads.{indices_from, Misses, found, asked, asked_later, walk-first}

indices_from-map {ℓ} :
    {A : Type ℓ} (f : A → A) (index : ℕ) (xs : List A)
    → indices_from index (map f xs) ≡ indices_from index xs
indices_from-map f index [] = refl
indices_from-map f index (x ∷ xs) = ap (◌∷◌ index) (indices_from-map f (index + 1) xs)

module _ {T : Type 0} (now : ℕ) (key : Bytes) (e : CacheEntry) where
  -- A tier after the promotion of the entry.
  abbrev pub promoted : Tier T → Tier T
  promoted = at_tier (λ b s. b.promote s now key e)

  promote_at-append :
      (done : List (Tier T)) (t : Tier T) (rest : List (Tier T)) (index : ℕ)
      → promote_at
          (done ++ t ∷ rest)
          now
          (record { index = index; key = key; entry = e })
          (length done)
        ≡ done ++ promoted t ∷ rest
  unfolding promote_at
  promote_at-append [] t rest index = refl
  promote_at-append (d ∷ ds) t rest index = ap (◌∷◌ d) (promote_at-append ds t rest index)

  -- The promotions for a stretch of tiers change each tier of it once, and no other tier.
  run_tasks-from :
      (done before rest : List (Tier T)) (n : ℕ)
      → n ≡ length done
      → run_tasks now
          (record {
            tiers = done ++ (before ++ rest);
            pending = backfill key e (indices_from n before);
          })
          (backfill key e (indices_from n before))
        ≡ record { tiers = done ++ (map promoted before ++ rest); pending = [] }
  unfolding run_task backfill
  run_tasks-from done [] rest n count = refl
  run_tasks-from done (b ∷ bs) rest n count =
      rw
        (
          count,
          promote_at-append done b (bs ++ rest) (length done),
          sym (append_assoc done (promoted b ∷ []) (bs ++ rest)),
          sym (append_assoc done (promoted b ∷ []) (map promoted bs ++ rest)),
        )
        (run_tasks-from (done ++ promoted b ∷ []) bs rest (length done + 1)
          (omega (arith, length-append done (promoted b ∷ []))))

-- When no other promotion waits, running those that a lookup schedules, at whatever later time,
-- promotes the entry that it answered with in each tier that it asked in vain, once, and changes no
-- other tier.
pub get_entry-run_tasks :
    {T : Type 0} (now later : ℕ) (key : Bytes) (pin_ttl : ℕ) (before : List (Tier T)) (t : Tier T)
    (after : List (Tier T)) (e : CacheEntry) (c : Chain T)
    → c.tiers ≡ before ++ t ∷ after
    → c.pending ≡ []
    → Misses (found now key pin_ttl) before
    → found now key pin_ttl t ≡ some e
    → run_tasks later (get_entry c now key pin_ttl).0 (get_entry c now key pin_ttl).0.pending
      ≡ record {
        tiers =
            map (promoted later key e) (map (asked now key pin_ttl) before)
            ++ asked now key pin_ttl t ∷ asked_later now key pin_ttl after;
        pending = [];
      }
unfolding get_entry
get_entry-run_tasks now later key pin_ttl before t after e c split idle miss here =
    rw
      (
        split,
        idle,
        walk-first now key pin_ttl before t after e 0 [] miss here,
        sym (indices_from-map (asked now key pin_ttl) 0 before),
      )
      (run_tasks-from later key e [] (map (asked now key pin_ttl) before)
        (asked now key pin_ttl t ∷ asked_later now key pin_ttl after) 0 refl)
