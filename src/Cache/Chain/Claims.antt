-- ===== src/Cache/Chain/Claims.antt =====
-- Who decides on a pin in tier1/src/cache/chain.rs: the last tier, whose entry the others take over.
use thumbrella.Base.{
  ℕ, ◌≡◌, ◌⊎◌, refl, ap, none, some, List, [], ◌∷◌, ◌++◌, map, Bytes, ascii, inl, inr, Option-cases,
}
use thumbrella.Cache.Entry.{CacheEntry}
use thumbrella.Cache.Backend.{Result, ok, err, PinClaim, claimed, conflict, missing}
use thumbrella.Cache.Chain.{
  Tier, Chain, split_last, at_tier, refresh_pin_layers, refreshed, claim_pin,
}
use thumbrella.Cache.Chain.Reads.{pin_found, pin_asked}

split_last-append {ℓ} :
    {A : Type ℓ} (before : List A) (last : A)
    → split_last (before ++ last ∷ []) ≡ some (before, last)
unfolding split_last
split_last-append [] last = refl
split_last-append (x ∷ xs) last = rw (split_last-append xs last) refl

module _ {T : Type 0} (c : Chain T) (now : ℕ) (key : Bytes) {A : Type 0} (value : A) where
  refreshed-err :
      {c' : Chain T} {e : Bytes}
      → refresh_pin_layers c now key ≡ (c', err e)
      → refreshed c now key value ≡ (c', err e)
  unfolding refreshed
  refreshed-err h = rw (refreshed, ap (λ r. r.1) h, ap (λ r. r.0) h) refl

  refreshed-ok :
      {c' : Chain T}
      → refresh_pin_layers c now key ≡ (c', ok tt)
      → refreshed c now key value ≡ (c', ok value)
  unfolding refreshed
  refreshed-ok h = rw (refreshed, ap (λ r. r.1) h, ap (λ r. r.0) h) refl

module _ {T : Type 0} (c : Chain T) (before : List (Tier T)) (last : Tier T) (now : ℕ)
    (id key : Bytes) (ttl : ℕ) where
  -- The owner's answer, and the owner after it.
  abbrev pub verdict : Result PinClaim
  verdict = (last.backend.claim_pin last.state now id key ttl).1

  abbrev pub owner : Tier T
  owner = record last { state = (last.backend.claim_pin last.state now id key ttl).0 }

  abbrev with_tiers : List (Tier T) → Chain T
  with_tiers tiers = record c { tiers = tiers }

  refresh_pin_layers-lost :
      pin_found now key owner ≡ none
      → refresh_pin_layers (with_tiers (before ++ owner ∷ [])) now key ≡ (
        with_tiers (before ++ pin_asked now key owner ∷ []),
        err (ascii "claimed pin entry disappeared from its backend"),
      )
  unfolding refresh_pin_layers
  refresh_pin_layers-lost gone = rw (refresh_pin_layers, split_last-append before owner, gone) refl

  refresh_pin_layers-took :
      (entry : CacheEntry)
      → pin_found now key owner ≡ some entry
      → refresh_pin_layers (with_tiers (before ++ owner ∷ [])) now key ≡ (
        with_tiers (
            map (at_tier (λ b s. b.revalidate s now key entry entry.media.cache)) before
            ++ pin_asked now key owner ∷ []),
        ok tt,
      )
  unfolding refresh_pin_layers
  refresh_pin_layers-took entry here =
      rw (refresh_pin_layers, split_last-append before owner, here) refl

  -- What a claim does, and what it returns.
  pub data Claim (result : Chain T × Result PinClaim) : Type 0 where
    failed :
        (e : Bytes)
        → verdict ≡ err e
        → result ≡ (with_tiers (before ++ owner ∷ []), err e)
        → Claim result
    turned_down :
        (answer : PinClaim)
        → verdict ≡ ok answer
        → answer ≡ conflict ⊎ answer ≡ missing
        → result ≡ (with_tiers (before ++ owner ∷ []), ok answer)
        → Claim result
    granted :
        (entry : CacheEntry)
        → verdict ≡ ok claimed
        → pin_found now key owner ≡ some entry
        → result ≡ (
          with_tiers (
              map (at_tier (λ b s. b.revalidate s now key entry entry.media.cache)) before
              ++ pin_asked now key owner ∷ []),
          ok claimed,
        )
        → Claim result
    lost :
        verdict ≡ ok claimed
        → pin_found now key owner ≡ none
        → result ≡ (
          with_tiers (before ++ pin_asked now key owner ∷ []),
          err (ascii "claimed pin entry disappeared from its backend"),
        )
        → Claim result

  -- The last tier alone decides on a pin. Unless it grants the claim, the tiers before it stay as
  -- they are and its answer is returned. If it grants it, each of them takes over its entry under
  -- that entry's own validators; a claim that is granted without an entry is an error.
  pub claim_pin-Claim : c.tiers ≡ before ++ last ∷ [] → Claim (claim_pin c now id key ttl)
  unfolding claim_pin
  claim_pin-Claim split = by_verdict verdict refl
    where
      by_verdict : (v : Result PinClaim) → verdict ≡ v → Claim (claim_pin c now id key ttl)
      by_verdict (err e) said =
          failed e said (rw (split, claim_pin, split_last-append before last, said) refl)
      by_verdict (ok conflict) said =
          turned_down conflict said (inl refl)
            (rw (split, claim_pin, split_last-append before last, said) refl)
      by_verdict (ok missing) said =
          turned_down missing said (inr refl)
            (rw (split, claim_pin, split_last-append before last, said) refl)
      by_verdict (ok claimed) said = elim (Option-cases (pin_found now key owner)) [
        | inl gone ↦ lost said gone (
            rw
              (
                split,
                claim_pin,
                split_last-append before last,
                said,
                refreshed-err (with_tiers (before ++ owner ∷ [])) now key claimed
                    (refresh_pin_layers-lost gone),
              )
              refl)
        | inr (entry, here) ↦ granted entry said here (
            rw
              (
                split,
                claim_pin,
                split_last-append before last,
                said,
                refreshed-ok (with_tiers (before ++ owner ∷ [])) now key claimed
                    (refresh_pin_layers-took entry here),
              )
              refl)
      ]
