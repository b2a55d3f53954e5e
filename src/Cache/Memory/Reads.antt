-- ===== src/Cache/Memory/Reads.antt =====
-- What a read of tier1/src/cache/memory.rs returns, and what late writes leave alone.
use thumbrella.Base.{
  ℕ, ◌≤◌, ◌<◌, ◌≡◌, refl, sym, ap, subst, ◌∙◌, ◌⊎◌, inl, inr, Bool, false, Option, none, some,
  Bytes, bytes_eq, bytes_eq_sound, ltb, leb, if◌then◌else◌, is_some_and, arith, Bool-cases,
  Option-cases, ltb→lt, lt→ltb, leb→le, saturating_add,
}
use thumbrella.Hints.Wire.{Base64}
use thumbrella.Media.{ThumbMedia}
use thumbrella.Cache.Entry.{CacheEntry, clear_url, new, retain_until, access}
use thumbrella.Cache.Deadlines.{access_lem}
use thumbrella.Cache.Moka.{Moka, IsMoka, MayBe}
use thumbrella.Cache.Memory.{Memory, lookup, promote, put, store_swept, keep_pin}

module _ {S : Type 0} (b64 : Base64) (moka : Moka S CacheEntry) (m : Memory S) (now : ℕ)
    (key : Bytes) where
  -- The deadline that a read goes by.
  abbrev pub deadline : Bool → CacheEntry → ℕ
  deadline pin e = if pin then e.pin_until else e.cache_until

  -- How a read is answered.
  pub data Read (pin : Bool) (pin_ttl : ℕ) (answer : Option CacheEntry) : Type 0 where
    absent : moka.get m.cache key ≡ none → answer ≡ none → Read pin pin_ttl answer
    expired :
        (found : CacheEntry)
        → moka.get m.cache key ≡ some found
        → deadline pin found ≤ now
        → answer ≡ none
        → Read pin pin_ttl answer
    hit :
        (found : CacheEntry)
        → moka.get m.cache key ≡ some found
        → now < deadline pin found
        → answer ≡ some (access found now pin pin_ttl).0
        → Read pin pin_ttl answer

  -- A read answers with the stored entry, its access noted, while the deadline that it asks for lies
  -- ahead; with nothing if there is no entry or that deadline has come.
  pub lookup-Read :
      (pin : Bool) (pin_ttl : ℕ) → Read pin pin_ttl (lookup b64 moka m now key pin pin_ttl).1
  unfolding lookup
  lookup-Read pin pin_ttl = elim (Option-cases (moka.get m.cache key)) [
    | inl gone ↦ rw (gone, lookup) (absent gone refl)
    | inr (found, here) ↦ rw (here, lookup) (answered found here)
  ]
    where
      answered :
          (found : CacheEntry)
          → moka.get m.cache key ≡ some found
          → Read pin pin_ttl (
              if (access found now pin pin_ttl).1
              then some (access found now pin pin_ttl).0
              else none)
      answered found here =
          let test = (access_lem found now pin pin_ttl).0 in
          elim (Bool-cases (access found now pin pin_ttl).1) [
            | inl ahead ↦ hit found here (ltb→lt _ _ (sym test ∙ ahead)) (rw ahead refl)
            | inr past ↦ expired found here (not_ahead _ (sym test ∙ past)) (rw past refl)
          ]
        where
          not_ahead : (d : ℕ) → ltb now d ≡ false → d ≤ now
          not_ahead d h = ground arith

injective : {a b : CacheEntry} → some a ≡ some b → a ≡ b
injective e = cc

module _ {S : Type 0} (b64 : Base64) {moka : Moka S CacheEntry} {Evicts : Bytes → Type 0}
    (laws : IsMoka moka Evicts) (m : Memory S) (now : ℕ) (key : Bytes) where
  -- What a write leaves under its key: the new entry, or nothing if it is past already or evicted.
  stored-put :
      (media : ThumbMedia) (cost cache_until pin_ttl : ℕ)
      → let v =
          keep_pin b64 moka (new b64 media cost cache_until pin_ttl now) (moka.get m.cache key) in
        MayBe
          (Evicts key ⊎ (retain_until v ≤ now))
          (moka.get (put b64 moka m now key media cost cache_until pin_ttl).cache key)
          (some v)
  unfolding put store_swept
  stored-put media cost cache_until pin_ttl =
      stored (keep_pin b64 moka (new b64 media cost cache_until pin_ttl now) (moka.get m.cache key))
    where
      stored :
          (v : CacheEntry)
          → MayBe
              (Evicts key ⊎ (retain_until v ≤ now))
              (moka.get (store_swept b64 moka m now key v).cache key)
              (some v)
      stored v = elim (Bool-cases (leb (retain_until v) now)) [
        | inl past ↦ inr (
          inr (leb→le (retain_until v) now past),
          rw (past, store_swept) (laws.get-invalidate_self m.cache key),
        )
        | inr ahead ↦ rw (ahead, store_swept) (weaker (laws.get-insert_self _ key v))
      ]
        where
          weaker :
              {E F : Type 0} {found kept : Option CacheEntry}
              → MayBe E found kept
              → MayBe (E ⊎ F) found kept
          weaker (inl same) = inl same
          weaker (inr (why, gone)) = inr (inl why, gone)

  kept-fields :
      (media : ThumbMedia) (cost cache_until pin_ttl : ℕ) (old : Option CacheEntry)
      → let v = keep_pin b64 moka (new b64 media cost cache_until pin_ttl now) old in
        (v.media ≡ clear_url media) × (v.cache_until ≡ cache_until) × (v.render_cost ≡ cost)
  unfolding new
  kept-fields media cost cache_until pin_ttl none = (refl, refl, refl)
  kept-fields media cost cache_until pin_ttl (some old) = (refl, refl, refl)

  kept-pins :
      (media : ThumbMedia) (cost cache_until pin_ttl : ℕ) (old : Option CacheEntry)
      → let v = keep_pin b64 moka (new b64 media cost cache_until pin_ttl now) old in
        (0 < pin_ttl → saturating_add now pin_ttl ≤ v.pin_until)
        × ((e : CacheEntry) → old ≡ some e → e.pin_until ≤ v.pin_until)
  unfolding new
  kept-pins media cost cache_until pin_ttl none = (λ on. ground arith, λ e same. ground arith)
  kept-pins media cost cache_until pin_ttl (some old) = (λ on. ground arith, λ e same. ground arith)

  -- How a read of a key that was written is answered: the new entry, or nothing and why.
  pub data ReadBack (media : ThumbMedia) (cost cache_until pin_ttl later read_ttl : ℕ)
      (answer : Option CacheEntry) : Type 0 where
    newest :
        (e : CacheEntry)
        → answer ≡ some e
        → later < cache_until
        → e.media ≡ clear_url media
        → e.cache_until ≡ cache_until
        → e.render_cost ≡ cost
        → e.last_accessed_at ≡ later
        → (0 < pin_ttl → saturating_add now pin_ttl ≤ e.pin_until)
        → (0 < read_ttl → saturating_add later read_ttl ≤ e.pin_until)
        → ((old : CacheEntry) → moka.get m.cache key ≡ some old → old.pin_until ≤ e.pin_until)
        → ReadBack media cost cache_until pin_ttl later read_ttl answer
    over :
        (cache_until ≤ now) ⊎ (cache_until ≤ later)
        → answer ≡ none
        → ReadBack media cost cache_until pin_ttl later read_ttl answer
    lost :
        Evicts key → answer ≡ none → ReadBack media cost cache_until pin_ttl later read_ttl answer

  module _ (media : ThumbMedia) (cost cache_until pin_ttl later read_ttl : ℕ) where
    abbrev written : CacheEntry
    written = keep_pin b64 moka (new b64 media cost cache_until pin_ttl now) (moka.get m.cache key)

    abbrev after_put : Memory S
    after_put = put b64 moka m now key media cost cache_until pin_ttl

    abbrev ReadsBack : Option CacheEntry → Type 0
    ReadsBack = ReadBack media cost cache_until pin_ttl later read_ttl

    lookup-gone :
        moka.get after_put.cache key ≡ none
        → (lookup b64 moka after_put later key false read_ttl).1 ≡ none
    unfolding lookup
    lookup-gone gone = rw (gone, lookup) refl

    not_there :
        (Evicts key ⊎ (retain_until written ≤ now))
        → (answer : Option CacheEntry) → answer ≡ none
        → ReadsBack answer
    unfolding retain_until
    not_there (inl why) answer none_found = lost why none_found
    not_there (inr past) answer none_found =
        let until = (kept-fields media cost cache_until pin_ttl (moka.get m.cache key)).1 in
        over (inl (omega (arith, until, past))) none_found

    noted :
        (e : CacheEntry)
        → later < e.cache_until
        → let r = (access e later false read_ttl).0 in
          (r.last_accessed_at ≡ later)
          × (0 < read_ttl → saturating_add later read_ttl ≤ r.pin_until)
    unfolding access
    noted e ahead = (ground arith, λ on. ground arith)

    hit-ReadBack :
        (answer : Option CacheEntry)
        → later < written.cache_until
        → answer ≡ some (access written later false read_ttl).0
        → ReadsBack answer
    hit-ReadBack answer ahead told =
        let old = moka.get m.cache key in
        let (same_media, until, same_cost) = kept-fields media cost cache_until pin_ttl old in
        let (own, older) = kept-pins media cost cache_until pin_ttl old in
        let r = access_lem written later false read_ttl in
        let (at, longer) = noted written ahead in
        newest (access written later false read_ttl).0 told (omega (arith, until, ahead))
          (r.1 ∙ same_media) (r.3 ∙ until) (r.4 ∙ same_cost) at (λ on. omega (arith, own on, r.5))
          longer (λ e here. omega (arith, older e here, r.5))

    there :
        moka.get after_put.cache key ≡ some written
        → {answer : Option CacheEntry} → Read b64 moka after_put later key false read_ttl answer
        → ReadsBack answer
    there kept (absent gone none_found) = absurd (clash (sym gone ∙ kept))
      where
        clash : none ≡ some written → ⊥
        clash e = ground arith
    there kept (expired e here past none_found) =
        let until = (kept-fields media cost cache_until pin_ttl (moka.get m.cache key)).1 in
        let same = ap (λ (x : CacheEntry). x.cache_until) (injective (sym here ∙ kept)) in
        over (inr (omega (arith, until, same, past))) none_found
    there kept {answer} (hit e here ahead told) =
        let same = injective (sym here ∙ kept) in
        hit-ReadBack answer (subst (λ (x : CacheEntry). later < x.cache_until) same ahead)
          (told ∙ ap (λ x. some (access x later false read_ttl).0) same)

    pub lookup-put : ReadsBack (lookup b64 moka after_put later key false read_ttl).1
    lookup-put = elim (stored-put media cost cache_until pin_ttl) [
      | inr (why, gone) ↦ not_there why _ (lookup-gone gone)
      | inl kept ↦ there kept (lookup-Read b64 moka after_put later key false read_ttl)
    ]

  -- A promotion that arrives late replaces no entry that is still retained, under any key.
  pub promote-keeps :
      (k : Bytes) (entry e : CacheEntry)
      → moka.get m.cache k ≡ some e
      → now < retain_until e
      → MayBe (Evicts k) (moka.get (promote b64 moka m now key entry).cache k) (some e)
  unfolding promote
  promote-keeps k entry e here kept = elim (Bool-cases (leb (retain_until entry) now)) [
    | inl past ↦ rw (past, promote) (inl here)
    | inr ahead ↦
        elim (Bool-cases (is_some_and (moka.get m.cache key) (λ x. ltb now (retain_until x)))) [
          | inl occupied ↦ rw (ahead, occupied, promote) (inl here)
          | inr vacant ↦
              rw (ahead, vacant, promote)
                (elim (Bool-cases (bytes_eq key k)) [
                  | inl same ↦
                      absurd
                        (vacated (ap (moka.get m.cache) (bytes_eq_sound key k same) ∙ here) vacant)
                  | inr other ↦
                      subst (MayBe (Evicts k) _) here (laws.get-insert_ne m.cache key k _ other)
                ])
        ]
  ]
    where
      vacated :
          moka.get m.cache key ≡ some e
          → is_some_and (moka.get m.cache key) (λ x. ltb now (retain_until x)) ≡ false
          → ⊥
      vacated found vacant = ground (arith, found, vacant, lt→ltb now (retain_until e) kept)
