-- ===== src/Cache/Frontend/Copies.antt =====
-- When a 304 of another request may answer a client, in tier1/src/cache/mod.rs.
use thumbrella.Base.{
  ℕ, ◌≡◌, ◌≢◌, ◌↔◌, refl, sym, ap, subst, ◌∙◌, inl, inr, Bool, true, false, not, ◌&&◌, ◌||◌, Option,
  none, some, bytes_eq_sound, bytes_eq_self, ==_iff, if◌then◌else◌, arith, Bool-cases, Option-cases,
}
use thumbrella.Hints.{CacheHints, Conditional, if_none_match, if_modified_since, to_conditional}
use thumbrella.Hints.Wire.{Base64, decode}
use thumbrella.Media.{ThumbMedia, ThumbResult, ResultSource}
use thumbrella.Cache.Frontend.{
  debounce_matches, client_holds, same_conditional, same_expiry, is_none, is_not_modified,
}

-- A 304 without a body belongs to a client whose copy has the validator of the media that the result
-- carries, and, where there is no validator, its freshness date.
pub record SameCopy (b64 : Base64) (r : ThumbResult) (client : Option CacheHints) : Type 0 where
  pub media : ThumbMedia
  pub stored : CacheHints
  pub copy : CacheHints
  pub has_media : r.media ≡ some media
  pub token : decode b64 media.cache ≡ some stored
  pub has_copy : client ≡ some copy
  pub same_validator : to_conditional stored ≡ to_conditional copy
  pub same_date : to_conditional stored ≡ none → stored.expires_at ≡ copy.expires_at

-- A result may answer a client: it is no 304, or a 304 to the copy of that client.
abbrev pub IsFor : Base64 → Option CacheHints → ThumbResult → Type 0
IsFor b64 client r = r.source ≡ some ResultSource.not_modified → SameCopy b64 r client

false≢true : false ≢ true
false≢true e = ground arith

some≢none : {A : Type 0} {a : A} → some a ≢ none
some≢none e = ground arith

same_conditional_sound : (a b : Option Conditional) → same_conditional a b ≡ true → a ≡ b
unfolding same_conditional
same_conditional_sound none none e = refl
same_conditional_sound (some (if_none_match a)) (some (if_none_match b)) e =
    ap (λ t. some (if_none_match t)) (bytes_eq_sound a b e)
same_conditional_sound (some (if_modified_since a)) (some (if_modified_since b)) e =
    ap (λ t. some (if_modified_since t)) (bytes_eq_sound a b e)
same_conditional_sound none (some b) e = absurd (false≢true e)
same_conditional_sound (some (if_none_match a)) none e = absurd (false≢true e)
same_conditional_sound (some (if_modified_since a)) none e = absurd (false≢true e)
same_conditional_sound (some (if_none_match a)) (some (if_modified_since b)) e =
    absurd (false≢true e)
same_conditional_sound (some (if_modified_since a)) (some (if_none_match b)) e =
    absurd (false≢true e)

same_conditional_self : (a : Option Conditional) → same_conditional a a ≡ true
unfolding same_conditional
same_conditional_self none = refl
same_conditional_self (some (if_none_match a)) = bytes_eq_self a
same_conditional_self (some (if_modified_since a)) = bytes_eq_self a

same_expiry_sound : (a b : Option ℕ) → same_expiry a b ≡ true → a ≡ b
unfolding same_expiry
same_expiry_sound none none e = refl
same_expiry_sound (some a) (some b) e = ap some ((==_iff a b).0 e)
same_expiry_sound none (some b) e = absurd (false≢true e)
same_expiry_sound (some a) none e = absurd (false≢true e)

same_expiry_self : (a : Option ℕ) → same_expiry a a ≡ true
unfolding same_expiry
same_expiry_self none = refl
same_expiry_self (some a) = (==_iff a a).1 refl

is_not_modified_sound :
    (s : Option ResultSource) → is_not_modified s ≡ true → s ≡ some ResultSource.not_modified
unfolding is_not_modified
is_not_modified_sound none e = absurd (false≢true e)
is_not_modified_sound (some ResultSource.not_modified) e = refl
is_not_modified_sound (some ResultSource.render) e = absurd (false≢true e)
is_not_modified_sound (some ResultSource.shortcut) e = absurd (false≢true e)
is_not_modified_sound (some ResultSource.cache) e = absurd (false≢true e)
is_not_modified_sound (some ResultSource.fallback) e = absurd (false≢true e)
is_not_modified_sound (some ResultSource.placeholder) e = absurd (false≢true e)
is_not_modified_sound (some ResultSource.client) e = absurd (false≢true e)

is_not_modified_complete :
    (s : Option ResultSource) → s ≡ some ResultSource.not_modified → is_not_modified s ≡ true
unfolding is_not_modified
is_not_modified_complete s e = rw e refl

is_none-none : (a : Option Conditional) → a ≡ none → is_none a ≡ true
unfolding is_none
is_none-none a e = rw e refl

is_none-some : (a : Conditional) → is_none (some a) ≡ false
unfolding is_none
is_none-some a = refl

-- The comparison, over the validators and the dates.
abbrev held : Option Conditional → Option Conditional → Option ℕ → Option ℕ → Bool
held a b x y =
    if not (same_conditional a b) || is_none a && not (same_expiry x y) then false else true

held_sound :
    (a b : Option Conditional) (x y : Option ℕ) → held a b x y ≡ true → (a ≡ b) × (a ≡ none → x ≡ y)
held_sound a b x y e =
    (same_conditional_sound a b (same e), λ empty. same_expiry_sound x y (dated e empty))
  where
    same : held a b x y ≡ true → same_conditional a b ≡ true
    same e = ground arith

    dated : held a b x y ≡ true → a ≡ none → same_expiry x y ≡ true
    dated e empty = ground (arith, is_none-none a empty)

held_complete :
    (a b : Option Conditional) (x y : Option ℕ) → a ≡ b → (a ≡ none → x ≡ y) → held a b x y ≡ true
held_complete none b x y e dates =
    let same = subst (λ t. same_conditional none t ≡ true) e (same_conditional_self none) in
    let dated = subst (λ t. same_expiry x t ≡ true) (dates refl) (same_expiry_self x) in
    ground (arith, same, dated)
held_complete (some a) b x y e dates =
    let same = subst (λ t. same_conditional (some a) t ≡ true) e (same_conditional_self (some a)) in
    ground (arith, same, is_none-some a)

module _ (b64 : Base64) (r : ThumbResult) where
  matches_304 :
      (client : Option CacheHints) (media : ThumbMedia) (stored : CacheHints)
      → is_not_modified r.source ≡ true
      → r.media ≡ some media
      → decode b64 media.cache ≡ some stored
      → debounce_matches b64 r client ≡ client_holds stored client
  unfolding debounce_matches
  matches_304 client media stored old here token = rw (old, here, token) refl

  matches_other :
      (client : Option CacheHints)
      → is_not_modified r.source ≡ false
      → debounce_matches b64 r client ≡ true
  unfolding debounce_matches
  matches_other client new = rw new refl

  no_media :
      (client : Option CacheHints)
      → is_not_modified r.source ≡ true
      → r.media ≡ none
      → debounce_matches b64 r client ≡ false
  unfolding debounce_matches
  no_media client old gone = rw (old, gone) refl

  no_token :
      (client : Option CacheHints) (media : ThumbMedia)
      → is_not_modified r.source ≡ true
      → r.media ≡ some media
      → decode b64 media.cache ≡ none
      → debounce_matches b64 r client ≡ false
  unfolding debounce_matches
  no_token client media old here broken = rw (old, here, broken) refl

  copy_of :
      (client : Option CacheHints) (media : ThumbMedia) (stored : CacheHints)
      → r.media ≡ some media
      → decode b64 media.cache ≡ some stored
      → client_holds stored client ≡ true
      → SameCopy b64 r client
  unfolding client_holds
  copy_of none media stored here token e = absurd (false≢true e)
  copy_of (some copy) media stored here token e =
      let (same, dates) =
        held_sound (to_conditional stored) (to_conditional copy) stored.expires_at copy.expires_at
          e in
      record {
        media = media;
        stored = stored;
        copy = copy;
        has_media = here;
        token = token;
        has_copy = refl;
        same_validator = same;
        same_date = dates;
      }

  matches_sound :
      (client : Option CacheHints)
      → debounce_matches b64 r client ≡ true
      → is_not_modified r.source ≡ true
      → SameCopy b64 r client
  matches_sound client e old = elim (Option-cases r.media) [
    | inl gone ↦ absurd (false≢true (sym (no_media client old gone) ∙ e))
    | inr (media, here) ↦ elim (Option-cases (decode b64 media.cache)) [
      | inl broken ↦ absurd (false≢true (sym (no_token client media old here broken) ∙ e))
      | inr (stored, token) ↦
          copy_of client media stored here token
            (sym (matches_304 client media stored old here token) ∙ e)
    ]
  ]

  holds_copy :
      (stored copy : CacheHints)
      → to_conditional stored ≡ to_conditional copy
      → (to_conditional stored ≡ none → stored.expires_at ≡ copy.expires_at)
      → client_holds stored (some copy) ≡ true
  unfolding client_holds
  holds_copy stored copy same dates =
      held_complete (to_conditional stored) (to_conditional copy) stored.expires_at copy.expires_at
        same dates

  pub debounce_matches-IsFor :
      (client : Option CacheHints) → (debounce_matches b64 r client ≡ true) ↔ IsFor b64 client r
  debounce_matches-IsFor client = (sound, complete)
    where
      sound : debounce_matches b64 r client ≡ true → IsFor b64 client r
      sound e source = matches_sound client e (is_not_modified_complete r.source source)

      by_copy :
          is_not_modified r.source ≡ true
          → SameCopy b64 r client
          → debounce_matches b64 r client ≡ true
      by_copy old s =
          matches_304 client s.media s.stored old s.has_media s.token
          ∙ ap (client_holds s.stored) s.has_copy
          ∙ holds_copy s.stored s.copy s.same_validator s.same_date

      complete : IsFor b64 client r → debounce_matches b64 r client ≡ true
      complete fits = elim (Bool-cases (is_not_modified r.source)) [
        | inl old ↦ by_copy old (fits (is_not_modified_sound r.source old))
        | inr new ↦ matches_other client new
      ]
