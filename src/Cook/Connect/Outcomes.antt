-- ===== src/Cook/Connect/Outcomes.antt =====
-- How a connection of tier1/src/pipeline/connect.rs ends.
use thumbrella.Base.{
  ℕ, ◌≤◌, ◌<◌, ◌≡◌, refl, sym, ap, ◌∙◌, inl, inr, Bool, true, false, not, ◌&&◌, ◌||◌, none, some,
  ascii, ◌==◌, leb, ltb, is_some, strip_prefix, Bool-cases, Option-cases, leb→le, ltb→lt, and_both,
  ==_iff, arith,
}
use thumbrella.Cache.Moka.{Moka}
use thumbrella.Cook.{CookStatus, ThumbCook, is_processing, fail, http_install}
use thumbrella.Cook.Connect.{
  Reply, Answered, reply, refused, Transport, conditional_of, fail_msg, installed, noted, classify,
  answered, connect,
}
use thumbrella.FetchGuard.{Failure, Hold, check_origin, check_url}
use thumbrella.Source.{origin_of}

-- The pipeline goes on exactly when a connection is installed, for a status of the 200 range; a source
-- counts as unchanged only with status 304 to a validator; a local file that is not allowed fails.
pub record Outcome (c c' : ThumbCook) : Type 0 where
  pub goes_on : is_processing c'.status ≡ is_some c'.http_buf
  pub success :
      is_some c'.http_buf ≡ true → (s : ℕ) × (c'.http_status ≡ some s) × (200 ≤ s) × (s < 300)
  pub unchanged :
      c'.status ≡ CookStatus.fresh
      → (is_some (conditional_of c) ≡ true) × (c'.http_status ≡ some 304)
  pub same_url : c'.url ≡ c.url
  pub same_key : c'.ctx_cache_key ≡ c.ctx_cache_key
  pub same_hints : c'.input_cache ≡ c.input_cache
  pub local :
      is_some (strip_prefix (ascii "file://") c.url) ≡ true
      → c.allow_local ≡ false
      → c'.status ≡ CookStatus.failed

-- A request that has just begun.
pub record Begun (c : ThumbCook) : Type 0 where
  pub going : c.status ≡ CookStatus.processing
  pub closed : c.http_buf ≡ none

abbrev Local : ThumbCook → CookStatus → Type 0
Local c status =
    is_some (strip_prefix (ascii "file://") c.url) ≡ true
    → c.allow_local ≡ false
    → status ≡ CookStatus.failed

-- Past the first test, the file is allowed.
allowed :
    (c : ThumbCook) (status : CookStatus)
    → (is_some (strip_prefix (ascii "file://") c.url) && not c.allow_local) ≡ false
    → Local c status
allowed c status h file barred =
    absurd (clash (is_some (strip_prefix (ascii "file://") c.url)) c.allow_local h file barred)
  where
    clash : (a b : Bool) → (a && not b) ≡ false → a ≡ true → b ≡ false → ⊥
    clash true true h p q = ground arith
    clash true false h p q = ground arith
    clash false b h p q = ground arith

closed_success : (c' : ThumbCook) {A : Type 0} → c'.http_buf ≡ none → is_some c'.http_buf ≡ true → A
closed_success c' closed h = absurd (none_open (ap is_some (sym closed) ∙ h))
  where
    none_open : false ≡ true → ⊥
    none_open h = ground arith

abbrev Same : ThumbCook → ThumbCook → Type 0
Same c c' =
    (c'.url ≡ c.url) × (c'.ctx_cache_key ≡ c.ctx_cache_key) × (c'.input_cache ≡ c.input_cache)

-- A request that ends without a connection: failed, overloaded, or fresh.
failed_end :
    (c c' : ThumbCook)
    → c'.http_buf ≡ none
    → c'.status ≡ CookStatus.failed
    → Same c c'
    → Outcome c c'
unfolding is_processing
failed_end c c' closed e same = record {
  same_url = same.0;
  same_key = same.1;
  same_hints = same.2;
  goes_on = rw (e, closed) refl;
  success = λ h. closed_success c' closed h;
  unchanged = λ f. absurd (clash (sym e ∙ f));
  local = λ p q. e;
}
  where
    clash : CookStatus.failed ≡ CookStatus.fresh → ⊥
    clash h = ground arith

overloaded_end :
    (c c' : ThumbCook)
    → c'.http_buf ≡ none
    → c'.status ≡ CookStatus.overloaded
    → Local c c'.status
    → Same c c'
    → Outcome c c'
unfolding is_processing
overloaded_end c c' closed e local same = record {
  same_url = same.0;
  same_key = same.1;
  same_hints = same.2;
  goes_on = rw (e, closed) refl;
  success = λ h. closed_success c' closed h;
  unchanged = λ f. absurd (clash (sym e ∙ f));
  local = local;
}
  where
    clash : CookStatus.overloaded ≡ CookStatus.fresh → ⊥
    clash h = ground arith

fresh_end :
    (c c' : ThumbCook)
    → c'.http_buf ≡ none
    → c'.status ≡ CookStatus.fresh
    → (is_some (conditional_of c) ≡ true) × (c'.http_status ≡ some 304)
    → Local c c'.status
    → Same c c'
    → Outcome c c'
unfolding is_processing
fresh_end c c' closed e asked local same = record {
  same_url = same.0;
  same_key = same.1;
  same_hints = same.2;
  goes_on = rw (e, closed) refl;
  success = λ h. closed_success c' closed h;
  unchanged = λ f. asked;
  local = local;
}

-- A status without a message of failure is in the 200 range, if it is none of those before.
fail_msg-none : (s : ℕ) → fail_msg s ≡ none → (200 ≤ s) × (s < 300)
unfolding fail_msg
fail_msg-none s h = elim (Bool-cases (leb 200 s && ltb s 300)) [
  | inl inside ↦
      let (low, high) = and_both (leb 200 s) (ltb s 300) inside in
      (leb→le 200 s low, ltb→lt s 300 high)
  | inr outside ↦ absurd (told outside h)
]
  where
    told : (leb 200 s && ltb s 300) ≡ false → fail_msg s ≡ none → ⊥
    told outside h = ground arith

-- A connection with a status of the 200 range.
opened_end :
    (c c' : ThumbCook) (s : ℕ)
    → c'.status ≡ CookStatus.processing
    → is_some c'.http_buf ≡ true
    → c'.http_status ≡ some s
    → (200 ≤ s) × (s < 300)
    → Local c c'.status
    → Same c c'
    → Outcome c c'
unfolding is_processing
opened_end c c' s e buf told range local same = record {
  same_url = same.0;
  same_key = same.1;
  same_hints = same.2;
  goes_on = rw (e, buf) refl;
  success = λ h. (s, told, range.0, range.1);
  unchanged = λ f. absurd (clash (sym e ∙ f));
  local = local;
}
  where
    clash : CookStatus.processing ≡ CookStatus.fresh → ⊥
    clash h = ground arith

module _ {SO SU : Type 0} (origins : Moka SO Hold) (urls : Moka SU Failure) (transport : Transport)
    (backoff_default : ℕ) where
  classify-Outcome :
      (c : ThumbCook) (so : SO) (su : SU) (r : Reply) (now : ℕ)
      → Begun c
      → ((status : CookStatus) → Local c status)
      → Outcome c (classify origins urls transport backoff_default (noted c r now) so su r now).0
  unfolding classify fail installed http_install
  classify-Outcome c so su r now begun local =
      elim (Bool-cases (r.status == 429 || r.status == 503)) [
        | inl e ↦
            rw e (
              overloaded_end c _ begun.closed refl (local CookStatus.overloaded) (refl, refl, refl))
        | inr e ↦ elim (Bool-cases (r.status == 304)) [
          | inl same ↦ elim (Bool-cases (is_some (conditional_of c))) [
            | inl asked ↦
                rw (e, same, asked)
                  (fresh_end c _ begun.closed refl (asked, ap some ((==_iff r.status 304).0 same))
                    (local CookStatus.fresh) (refl, refl, refl))
            | inr unasked ↦
                rw (e, same, unasked) (failed_end c _ begun.closed refl (refl, refl, refl))
          ]
          | inr other ↦ elim (Option-cases (fail_msg r.status)) [
            | inr (message, bad) ↦
                rw (e, other, bad) (failed_end c _ begun.closed refl (refl, refl, refl))
            | inl good ↦
                rw (e, other, good)
                  (opened_end c _ r.status begun.going refl refl (fail_msg-none r.status good)
                    (local c.status) (refl, refl, refl))
          ]
        ]
      ]

  answered-Outcome :
      (c : ThumbCook) (so : SO) (su : SU) (now : ℕ)
      → Begun c
      → (is_some (strip_prefix (ascii "file://") c.url) && not c.allow_local) ≡ false
      → (a : Answered) → Outcome c (answered origins urls transport backoff_default c so su now a).0
  unfolding answered fail
  answered-Outcome c so su now begun fine (reply r) =
      classify-Outcome c so su r now begun (λ status. allowed c status fine)
  answered-Outcome c so su now begun fine (refused message) =
      failed_end c _ begun.closed refl (refl, refl, refl)

  -- How a connection ends, for every request that has just begun, whatever the guard and the transport
  -- answer: the pipeline goes on exactly when a connection is installed; a connection is installed only
  -- for a status of the 200 range; the source counts as unchanged only with status 304 to a
  -- request that carried a validator; a local file that is not allowed fails; the URL, the given cache
  -- key and the hints of the request are kept.
  pub connect-Outcome :
      (c : ThumbCook) (so : SO) (su : SU) (now : ℕ)
      → Begun c
      → Outcome c (connect origins urls transport backoff_default c so su now).0
  unfolding connect fail
  connect-Outcome c so su now begun =
      elim (Bool-cases (is_some (strip_prefix (ascii "file://") c.url) && not c.allow_local)) [
        | inl barred ↦ rw barred (failed_end c _ begun.closed refl (refl, refl, refl))
        | inr fine ↦ elim (Option-cases (check_origin origins so (origin_of c.url) now)) [
          | inr (held, e) ↦
              rw (fine, e)
                (overloaded_end c _ begun.closed refl (allowed c _ fine) (refl, refl, refl))
          | inl e ↦ elim (Option-cases (check_url urls su c.url)) [
            | inr ((status, message), e') ↦
                rw (fine, e, e') (failed_end c _ begun.closed refl (refl, refl, refl))
            | inl e' ↦
                rw (fine, e, e')
                  (answered-Outcome c so su now begun fine (transport c.url (conditional_of c)))
          ]
        ]
      ]
