-- ===== src/Cache/Frontend/Answers.antt =====
-- The results with which the frontend of tier1/src/cache/mod.rs answers a request.
use thumbrella.Base.{
  ℕ, ◌≡◌, ◌≢◌, ◌↔◌, ◌⊎◌, refl, sym, ap, subst, ◌∙◌, inl, inr, true, Option, none, some, Bytes,
  if◌then◌else◌, arith, Bool-cases, Option-cases,
}
use thumbrella.Hints.{CacheHints}
use thumbrella.Hints.Wire.{Base64}
use thumbrella.Media.{ThumbResult}
use thumbrella.Cache.Moka.{Moka}
use thumbrella.Cache.Frontend.{
  Frontend, Lookup, hit, leader, join, sticky_check, debounce_check, debounce_matches, lookup, Wait,
  received, closed, timed_out, after_wait,
}
use thumbrella.Cache.Frontend.Copies.{IsFor, debounce_matches-IsFor}
use thumbrella.Cache.Frontend.Generations.{Looked, answered, joined, led, lookup-Looked}

none≢result : {r : ThumbResult} → none ≢ some r
none≢result e = ground arith

same_result : {a b : ThumbResult} → some a ≡ some b → a ≡ b
same_result e = cc

-- The result that a lookup finds at once.
abbrev result_of : Lookup → Option ThumbResult
result_of (hit r) = some r
result_of (leader id) = none
result_of (join id channel) = none

module _ (b64 : Base64) (client : Option CacheHints) (r : ThumbResult) where
  -- A kept result is handed on exactly if it is for the client.
  handed_on :
      (kept : ThumbResult)
      → ((if debounce_matches b64 kept client then some kept else none) ≡ some r)
        ↔ ((kept ≡ r) × IsFor b64 client r)
  handed_on kept = (sound, complete)
    where
      sound :
          (if debounce_matches b64 kept client then some kept else none) ≡ some r
          → (kept ≡ r) × IsFor b64 client r
      sound = elim (Bool-cases (debounce_matches b64 kept client)) [
        | inl fits ↦ rw fits (λ e. (
          same_result e,
          subst (IsFor b64 client) (same_result e)
              ((debounce_matches-IsFor b64 kept client).0 fits),
        ))
        | inr unfit ↦ rw unfit (λ e. absurd (none≢result e))
      ]

      complete :
          (kept ≡ r) × IsFor b64 client r
          → (if debounce_matches b64 kept client then some kept else none) ≡ some r
      complete (same, fits) =
          rw
            (subst (λ x. debounce_matches b64 x client ≡ true) (sym same)
              ((debounce_matches-IsFor b64 r client).1 fits))
            (ap some same)

module _ {S : Type 0} (b64 : Base64) (moka : Moka S ThumbResult) (f : Frontend S) (key : Bytes)
    (client : Option CacheHints) (r : ThumbResult) where
  debounce_check-IsFor :
      (debounce_check b64 moka f key client ≡ some r)
      ↔ ((sticky_check moka f key ≡ some r) × IsFor b64 client r)
  unfolding debounce_check
  debounce_check-IsFor = elim (Option-cases (sticky_check moka f key)) [
    | inl empty ↦
        rw (debounce_check, empty) (λ e. absurd (none≢result e), λ p. absurd (none≢result p.0))
    | inr (kept, here) ↦
        rw (debounce_check, here)
          (
            λ e. let (same, fits) = (handed_on b64 client r kept).0 e in (ap some same, fits),
            λ p. (handed_on b64 client r kept).1 (same_result p.0, p.1),
          )
  ]

  lookup-hit :
      ((lookup b64 moka f key client).1 ≡ hit r) ↔ (debounce_check b64 moka f key client ≡ some r)
  unfolding lookup
  lookup-hit = (sound (lookup-Looked b64 moka f key client), λ e. rw (lookup, e) refl)
    where
      sound :
          Looked b64 moka f key client (lookup b64 moka f key client)
          → (lookup b64 moka f key client).1 ≡ hit r
          → debounce_check b64 moka f key client ≡ some r
      sound (answered kept found e') e = found ∙ ap (λ p. result_of p.1) (sym e') ∙ ap result_of e
      sound (joined slot busy e') e =
          absurd (none≢result (ap (λ p. result_of p.1) (sym e') ∙ ap result_of e))
      sound (led free e') e =
          absurd (none≢result (ap (λ p. result_of p.1) (sym e') ∙ ap result_of e))

  sent_on :
      (id : ℕ) (sent : ThumbResult)
      → (after_wait b64 f key client id (received sent)).1
        ≡ (if debounce_matches b64 sent client then some sent else none)
  unfolding after_wait
  sent_on id sent = elim (Bool-cases (debounce_matches b64 sent client)) [
    | inl fits ↦ rw (after_wait, fits) refl
    | inr unfit ↦ rw (after_wait, unfit) refl
  ]

  sent_of : {a b : ThumbResult} → received a ≡ received b → a ≡ b
  sent_of e = cc

  no_result : {A : Type 0} (wait : Wait) → wait ≡ closed ⊎ wait ≡ timed_out → wait ≡ received r → A
  no_result closed _ e = absurd (ground arith)
  no_result timed_out _ e = absurd (ground arith)
  no_result (received sent) (inl h) e = absurd (ground arith)
  no_result (received sent) (inr h) e = absurd (ground arith)

  waited :
      (id : ℕ) (wait : Wait)
      → ((after_wait b64 f key client id wait).1 ≡ some r)
        ↔ ((wait ≡ received r) × IsFor b64 client r)
  unfolding after_wait
  waited id (received sent) = (
    λ e.
        let (same, fits) = (handed_on b64 client r sent).0 (sym (sent_on id sent) ∙ e) in
        (ap received same, fits),
    λ p. sent_on id sent ∙ (handed_on b64 client r sent).1 (sent_of p.0, p.1),
  )
  waited id closed = (λ e. absurd (none≢result e), λ p. no_result closed (inl refl) p.0)
  waited id timed_out = (λ e. absurd (none≢result e), λ p. no_result timed_out (inr refl) p.0)

  -- A lookup is answered at once with a result exactly if the sticky window holds that result for the
  -- key, and a request that has waited is answered with a result exactly if its leader has sent it; in
  -- both cases only if the result is no 304, or a 304 to the copy of the client: with the same validator
  -- as the media of the result, or, where there is none, the same freshness date.
  pub answers-IsFor :
      (id : ℕ) (wait : Wait)
      → (((lookup b64 moka f key client).1 ≡ hit r)
          ↔ ((sticky_check moka f key ≡ some r) × IsFor b64 client r))
        × (((after_wait b64 f key client id wait).1 ≡ some r)
            ↔ ((wait ≡ received r) × IsFor b64 client r))
  answers-IsFor id wait = (
    (λ e. debounce_check-IsFor.0 (lookup-hit.0 e), λ p. lookup-hit.1 (debounce_check-IsFor.1 p)),
    waited id wait,
  )
