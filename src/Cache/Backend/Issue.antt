-- ===== src/Cache/Backend/Issue.antt =====
-- How `issue_pin` of tier1/src/cache/mod.rs ends.
use thumbrella.Base.{
  ℕ, zero, suc, ◌+◌, ◌<◌, ◌≡◌, refl, subst, Option, none, some, Bytes, ascii, arith, ◌==◌, false,
}
use thumbrella.Media.{FileKind}
use thumbrella.Cache.Backend.{
  Result, ok, err, PinClaim, claimed, conflict, missing, settle, issue_from, issue_pin,
}

module _ {T : Type 0} (pin_candidate : T → FileKind → Bytes → ℕ → Result Bytes)
    (claim_pin : T → ℕ → Bytes → Bytes → ℕ → T × Result PinClaim) (clock : ℕ → ℕ) (kind : FileKind)
    (key : Bytes) (ttl : ℕ) where
  -- What attempt `n` finds in state `t`: the identifier that it offers, the answer, the new state.
  pub data Attempt (n : ℕ) (t t' : T) (id : Bytes) (answer : Result PinClaim) : Type 0 where
    offers :
        pin_candidate t kind key n ≡ ok id
        → claim_pin t (clock n) id key ttl ≡ (t', answer)
        → Attempt n t t' id answer

  -- The attempts from `n` up to `m` all met a conflict, and lead from one state to the other.
  pub data Conflicts : ℕ → T → ℕ → T → Type 0 where
    so_far : {n : ℕ} {t : T} → Conflicts n t n t
    again :
        {n m : ℕ} {t t' u : T} {id : Bytes}
        → Attempt n t t' id (ok conflict)
        → Conflicts (n + 1) t' m u
        → Conflicts n t m u

  -- How the attempts from `n` up to the limit end.
  pub data Issued (n limit : ℕ) (t : T) (result : T × Result (Option Bytes)) : Type 0 where
    granted :
        (m : ℕ) (u t' : T) (id : Bytes)
        → m < limit
        → Conflicts n t m u
        → Attempt m u t' id (ok claimed)
        → result ≡ (t', ok (some id))
        → Issued n limit t result
    no_entry :
        (m : ℕ) (u t' : T) (id : Bytes)
        → m < limit
        → Conflicts n t m u
        → Attempt m u t' id (ok missing)
        → result ≡ (t', ok none)
        → Issued n limit t result
    claim_failed :
        (m : ℕ) (u t' : T) (id e : Bytes)
        → m < limit
        → Conflicts n t m u
        → Attempt m u t' id (err e)
        → result ≡ (t', err e)
        → Issued n limit t result
    no_candidate :
        (m : ℕ) (u : T) (e : Bytes)
        → m < limit
        → Conflicts n t m u
        → pin_candidate u kind key m ≡ err e
        → result ≡ (u, err e)
        → Issued n limit t result
    exhausted :
        (u : T)
        → Conflicts n t limit u
        → result ≡ (u, err (ascii "pin identifier collision limit exceeded"))
        → Issued n limit t result

  -- A conflict in front.
  after_conflict :
      {n limit : ℕ} {t t' : T} {id : Bytes} {result : T × Result (Option Bytes)}
      → Attempt n t t' id (ok conflict)
      → Issued (n + 1) limit t' result
      → Issued n limit t result
  after_conflict met (granted m u t' id small before last e) =
      granted m u t' id small (again met before) last e
  after_conflict met (no_entry m u t' id small before last e) =
      no_entry m u t' id small (again met before) last e
  after_conflict met (claim_failed m u t' id e' small before last e) =
      claim_failed m u t' id e' small (again met before) last e
  after_conflict met (no_candidate m u e' small before last e) =
      no_candidate m u e' small (again met before) last e
  after_conflict met (exhausted u before e) = exhausted u (again met before) e

  abbrev attempts : ℕ → ℕ → T → T × Result (Option Bytes)
  attempts rounds n t = issue_from pin_candidate claim_pin clock kind key ttl rounds n t

  issue_from-Issued : (rounds n : ℕ) (t : T) → Issued n (n + rounds) t (attempts rounds n t)
  unfolding issue_from settle
  issue_from-Issued zero n t =
      exhausted t (subst (λ m. Conflicts n t m t) (omega arith) so_far) refl
  issue_from-Issued (suc rounds) n t =
      by_candidate (λ u. issue_from-Issued rounds (n + 1) u) (pin_candidate t kind key n) refl
    where
      here : n < n + suc rounds
      here = omega arith

      by_answer :
          (id : Bytes) (t' : T) (answer : Result PinClaim)
          → pin_candidate t kind key n ≡ ok id
          → claim_pin t (clock n) id key ttl ≡ (t', answer)
          → ((u : T) → Issued (n + 1) (n + 1 + rounds) u (attempts rounds (n + 1) u))
          → Issued n (n + suc rounds) t (attempts (suc rounds) n t)
      by_answer id t' (err e) offer said later =
          claim_failed n t t' id e here so_far (offers offer said)
            (rw (issue_from, offer, said) refl)
      by_answer id t' (ok claimed) offer said later =
          granted n t t' id here so_far (offers offer said) (rw (issue_from, offer, said) refl)
      by_answer id t' (ok missing) offer said later =
          no_entry n t t' id here so_far (offers offer said) (rw (issue_from, offer, said) refl)
      by_answer id t' (ok conflict) offer said later = after_conflict (offers offer said) (
          subst (λ r. Issued (n + 1) (n + suc rounds) t' r) (rw (issue_from, offer, said) refl)
            (subst (λ l. Issued (n + 1) l t' (attempts rounds (n + 1) t')) (omega arith)
              (later t')))

      by_candidate :
          ((u : T) → Issued (n + 1) (n + 1 + rounds) u (attempts rounds (n + 1) u))
          → (c : Result Bytes) → pin_candidate t kind key n ≡ c
          → Issued n (n + suc rounds) t (attempts (suc rounds) n t)
      by_candidate later (err e) none_left =
          no_candidate n t e here so_far none_left (rw (issue_from, none_left) refl)
      by_candidate later (ok id) offer =
          by_answer id (claim_pin t (clock n) id key ttl).0 (claim_pin t (clock n) id key ttl).1
            offer refl later

  -- With a lifetime, `issue_pin` ends after at most 256 attempts: each conflict leads to the next
  -- candidate in the state that it left, the identifier that is returned is the first that was
  -- claimed, a missing entry ends it with no identifier, an error ends it at once, and only 256
  -- conflicts give the collision error.
  pub issue_pin-Issued :
      (t : T)
      → (ttl == 0) ≡ false
      → Issued 0 256 t (issue_pin pin_candidate claim_pin t clock kind key ttl)
  unfolding issue_pin
  issue_pin-Issued t lasting = rw (issue_pin, lasting) (issue_from-Issued 256 0 t)
