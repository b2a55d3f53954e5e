-- ===== src/Cache/Pins/Results.antt =====
-- When tier1/src/cache/pins.rs gives a result a pin link.
use thumbrella.Base.{
  ℕ, ◌≡◌, ◌≢◌, refl, sym, ap, subst, inl, inr, Bool, true, false, not, ◌||◌, Option, none, some,
  Bytes, ◌==◌, max, if◌then◌else◌, is_empty, saturating_add, arith, Bool-cases, Option-cases,
}
use thumbrella.Media.{ThumbMedia, ThumbResult}
use thumbrella.Cache.Entry.{CacheEntry}
use thumbrella.Cache.Backend.{Result, ok, err, Backend}
use thumbrella.Cache.Pins.{
  either_entry, link, second_issue, first_issue, pin_media, is_success, pin_result,
}

module _ {T : Type 0} (b : Backend T) (t : T) (clock : ℕ → ℕ) (key : Bytes) (ttl : ℕ) where
  -- The state in which an identifier was issued for an entry: as it was found, or after its copy was
  -- promoted because the owner of the aliases had none.
  pub data Before (t' : T) (entry : CacheEntry) : T → Type 0 where
    at_once : Before t' entry t'
    promoted :
        (u : T)
        → b.issue_pin t' clock entry.media.kind key ttl ≡ (u, ok none)
        → Before t' entry (
            b.promote u
              (clock 0)
              key
              (record entry { pin_until = max entry.pin_until (saturating_add (clock 0) ttl) }))

  -- Where the identifier of a link comes from.
  pub data Linked (media : ThumbMedia) (id : Bytes) : Type 0 where
    untracked :
        is_empty media.placeholder ≡ false
        → b.untracked_pin t media.kind key ≡ ok id
        → Linked media id
    issued :
        (t' : T) (entry : CacheEntry) (u u' : T)
        → is_empty media.placeholder ≡ true
        → either_entry b t (clock 0) key ≡ (t', some entry)
        → is_empty entry.media.thumbnail ≡ false
        → is_empty entry.media.placeholder ≡ true
        → Before t' entry u
        → b.issue_pin u clock entry.media.kind key ttl ≡ (u', ok (some id))
        → Linked media id

  -- A link, and the way to it.
  pub data Pinned (media : ThumbMedia) (text : Bytes) : Type 0 where
    linked : (id : Bytes) → text ≡ link b id → Linked media id → Pinned media text

  none≢text : {text : Bytes} → ok none ≢ ok (some text)
  none≢text e = ground arith

  err≢text : {e : Bytes} {o : Option Bytes} → err e ≢ ok o
  err≢text e = ground arith

  text_inj : {x y : Bytes} → ok (some x) ≡ ok (some y) → x ≡ y
  text_inj e = cc

  second-id :
      (u : T) (answer : Result (Option Bytes)) (text : Bytes)
      → (second_issue b (u, answer)).1 ≡ ok (some text)
      → (id : Bytes) × (answer ≡ ok (some id)) × (text ≡ link b id)
  unfolding second_issue
  second-id u (err e) text h = absurd (err≢text h)
  second-id u (ok none) text h = absurd (err≢text h)
  second-id u (ok (some id)) text h = (id, refl, sym (text_inj h))

  first-id :
      (t' : T) (entry : CacheEntry) (u : T) (answer : Result (Option Bytes)) (text : Bytes)
      → b.issue_pin t' clock entry.media.kind key ttl ≡ (u, answer)
      → (first_issue b clock entry key ttl (u, answer)).1 ≡ ok (some text)
      → (v v' : T) × (id : Bytes) × Before t' entry v
        × (b.issue_pin v clock entry.media.kind key ttl ≡ (v', ok (some id)))
        × (text ≡ link b id)
  unfolding first_issue
  first-id t' entry u (err e) text said h = absurd (err≢text h)
  first-id t' entry u (ok (some id)) text said h = (t', u, id, at_once, said, sym (text_inj h))
  first-id t' entry u (ok none) text said h =
      let v =
        b.promote u (clock 0) key
          (record entry { pin_until = max entry.pin_until (saturating_add (clock 0) ttl) }) in
      let answer = b.issue_pin v clock entry.media.kind key ttl in
      let (id, given, e) = second-id answer.0 answer.1 text h in
      (v, answer.0, id, promoted u said, ap (λ a. (answer.0, a)) given, e)

  -- The two branches of `pin_media`.
  abbrev for_candidate : Result Bytes → T × Result (Option Bytes)
  for_candidate (err e) = (t, err e)
  for_candidate (ok id) = (t, ok (some (link b id)))

  abbrev for_entry : T → Option CacheEntry → T × Result (Option Bytes)
  for_entry t' none = (t', ok none)
  for_entry t' (some entry) =
      if is_empty entry.media.thumbnail || not (is_empty entry.media.placeholder)
      then (t', ok none)
      else first_issue b clock entry key ttl (b.issue_pin t' clock entry.media.kind key ttl)

  by_entry :
      (media : ThumbMedia) (t' : T) (found : Option CacheEntry) (text : Bytes)
      → is_empty media.placeholder ≡ true
      → either_entry b t (clock 0) key ≡ (t', found)
      → (for_entry t' found).1 ≡ ok (some text)
      → Pinned media text
  by_entry media t' none text real said h = absurd (none≢text h)
  by_entry media t' (some entry) text real said h =
      elim (Bool-cases (is_empty entry.media.thumbnail || not (is_empty entry.media.placeholder))) [
        | inl unfit ↦ absurd (none≢text (subst (λ c. (chosen c).1 ≡ ok (some text)) unfit h))
        | inr fit ↦
            let answer = b.issue_pin t' clock entry.media.kind key ttl in
            let (v, v', id, way, given, e) =
              first-id t' entry answer.0 answer.1 text refl
                (subst (λ c. (chosen c).1 ≡ ok (some text)) fit h) in
            linked id e
              (issued t' entry v v' real said (or_left _ _ fit) (or_right _ _ fit) way given)
      ]
    where
      chosen : Bool → T × Result (Option Bytes)
      chosen c =
          if c
          then (t', ok none)
          else first_issue b clock entry key ttl (b.issue_pin t' clock entry.media.kind key ttl)

      or_left : (p q : Bool) → (p || not q) ≡ false → p ≡ false
      or_left p q h = ground arith

      or_right : (p q : Bool) → (p || not q) ≡ false → q ≡ true
      or_right p q h = ground arith

  pin_media-Pinned :
      (media : ThumbMedia) (text : Bytes)
      → (pin_media b t clock key media ttl).1 ≡ ok (some text)
      → Pinned media text
  unfolding pin_media
  pin_media-Pinned media text = elim (Bool-cases (is_empty media.placeholder)) [
    | inr stand_in ↦
        rw (pin_media, stand_in) (by_untracked stand_in (b.untracked_pin t media.kind key) refl)
    | inl real ↦
        rw (pin_media, real)
          (by_entry media (either_entry b t (clock 0) key).0 (either_entry b t (clock 0) key).1 text
            real refl)
  ]
    where
      by_untracked :
          is_empty media.placeholder ≡ false
          → (answer : Result Bytes) → b.untracked_pin t media.kind key ≡ answer
          → (for_candidate answer).1 ≡ ok (some text)
          → Pinned media text
      by_untracked stand_in (err e) said h = absurd (err≢text h)
      by_untracked stand_in (ok id) said h = linked id (sym (text_inj h)) (untracked stand_in said)

  -- A result gets a pin link only if it is a success with media and a lifetime is asked for. The link
  -- of a placeholder is derived without an entry. Any other link was issued for an entry of the key
  -- that has a thumbnail and is no placeholder, in the state in which the entry was found, or after
  -- its copy, with the pin extended, was promoted because the first attempt found none.
  pub pin_result-Pinned :
      (result : ThumbResult) (text : Bytes)
      → (pin_result (some b) t clock key result ttl).1 ≡ ok (some text)
      → (ttl ≢ 0)
        × (is_success result.status ≡ true)
        × (media : ThumbMedia) × (result.media ≡ some media)
        × Pinned media text
  unfolding pin_result
  pin_result-Pinned result text = elim (Bool-cases (ttl == 0 || not (is_success result.status))) [
    | inl refused ↦ rw (pin_result, refused) (λ h. absurd (none≢text h))
    | inr open_to ↦ elim (Option-cases result.media) [
      | inl bare ↦ rw (pin_result, open_to, bare) (λ h. absurd (none≢text h))
      | inr (media, has) ↦
          rw (pin_result, open_to, has)
            (λ h. (
              asked open_to,
              succeeded (ttl == 0) (is_success result.status) open_to,
              media,
              refl,
              pin_media-Pinned media text h,
            ))
    ]
  ]
    where
      asked : (ttl == 0 || not (is_success result.status)) ≡ false → ttl ≢ 0
      asked h e = ground arith

      succeeded : (p q : Bool) → (p || not q) ≡ false → q ≡ true
      succeeded p q h = ground arith
