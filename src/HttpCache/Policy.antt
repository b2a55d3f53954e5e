-- ===== src/HttpCache/Policy.antt =====
-- The cache policy of a pinned thumbnail in tier1/src/http_cache.rs.
use thumbrella.Base.{
  ℕ, ◌+◌, ◌-◌, ◌≤◌, ◌<◌, ◌≡◌, ◌≢◌, refl, ap, subst, ◌⊎◌, inl, inr, Bool, true, false, not, ◌&&◌,
  Option, some, [], ◌∷◌, ◌++◌, Bytes, ascii, ltb, min, unwrap_or, if◌then◌else◌, u64_max,
  saturating_add, arith, Bool-cases, Option-cases, ltb→lt,
}
use mathlib.Core.Option
use thumbrella.Base.Decimal.{to_decimal}
use thumbrella.Hints.{CacheHints}
use thumbrella.Hints.Wire.{Base64}
use thumbrella.Cache.Backend.{Result, ok, err, PinnedThumbnail}
use thumbrella.HttpCache.{
  PinHeaders, max_age, stale_for, cache_control, read_hints, is_valid_etag, is_not_modified,
  transpose, headers,
}

-- The directives for a response that may be reused for `age` seconds, and stale for `stale` more.
abbrev pub directives : CacheHints → ℕ → ℕ → Bytes
directives hints age stale =
    (if hints.private then ascii "private" else ascii "public")
    ++ (ascii ", max-age="
        ++ (to_decimal age
            ++ ((if ltb 0 age && hints.immutable then ascii ", immutable" else [])
                ++ (if ltb 0 stale
                    then ascii ", stale-while-revalidate=" ++ to_decimal stale
                    else []))))

-- What a `Cache-Control` header may say of a pin that ends at `until`.
pub data Policy (hints : CacheHints) (until now : ℕ) (text : Bytes) : Type 0 where
  not_stored : hints.no_store ≡ true → text ≡ ascii "no-store" → Policy hints until now text
  not_reused : hints.no_cache ≡ true → text ≡ ascii "no-cache" → Policy hints until now text
  reused :
      (age stale : ℕ)
      → age ≡ 0 ⊎ now + age ≤ until
      → age ≡ 0 ⊎ now + age ≤ unwrap_or hints.expires_at 0
      → stale ≡ 0 ⊎ now + age + stale ≤ until
      → text ≡ directives hints age stale
      → Policy hints until now text

left-le : (m b now : ℕ) → m ≤ b → m - now ≡ 0 ⊎ now + (m - now) ≤ b
left-le m b now h = elim (Bool-cases (ltb now m)) [
  | inl ahead ↦ inr (ground (arith, ahead))
  | inr past ↦ inl (ground (arith, past))
]

max_age-le :
    (hints : CacheHints) (until now : ℕ)
    → (max_age hints until now ≡ 0 ⊎ now + max_age hints until now ≤ until)
      × (max_age hints until now ≡ 0 ⊎ now + max_age hints until now ≤ unwrap_or hints.expires_at 0)
unfolding max_age
max_age-le hints until now = (
  left-le (min (unwrap_or hints.expires_at 0) until) until now (omega arith),
  left-le (min (unwrap_or hints.expires_at 0) until) (unwrap_or hints.expires_at 0) now
      (omega arith),
)

stale_for-le :
    (stale until now age : ℕ)
    → until ≤ u64_max
    → stale_for stale until now age ≡ 0 ⊎ now + age + stale_for stale until now age ≤ until
unfolding stale_for
stale_for-le stale until now age small = elim (Bool-cases (ltb (saturating_add now age) until)) [
  | inl ahead ↦ inr (within (ltb→lt _ _ ahead))
  | inr past ↦ inl (none_left past)
]
  where
    within :
        saturating_add now age < until
        → now + age + min stale (until - saturating_add now age) ≤ until
    within h = omega (arith, h, small)

    none_left :
        ltb (saturating_add now age) until ≡ false → min stale (until - saturating_add now age) ≡ 0
    none_left h = ground arith

cache_control-Policy :
    (hints : CacheHints) (until now : ℕ)
    → until ≤ u64_max
    → Policy hints until now (cache_control hints until now)
unfolding cache_control
cache_control-Policy hints until now small = elim (Bool-cases hints.no_store) [
  | inl closed ↦ not_stored closed (rw closed refl)
  | inr kept ↦ elim (Bool-cases hints.no_cache) [
    | inl unsure ↦ not_reused unsure (rw (kept, unsure) refl)
    | inr sure ↦ elim (Option-cases hints.stale_while_revalidate) [
      | inl fresh_only ↦
          reused (max_age hints until now) 0 (max_age-le hints until now).0
            (max_age-le hints until now).1 (inl refl) (rw (kept, sure, fresh_only) refl)
      | inr (seconds, given) ↦
          reused (max_age hints until now) (stale_for seconds until now (max_age hints until now))
            (max_age-le hints until now).0 (max_age-le hints until now).1
            (stale_for-le seconds until now (max_age hints until now) small)
            (rw (kept, sure, given) refl)
    ]
  ]
]

err≢ok : {A : Type 0} {e : Bytes} {a : A} → err e ≢ ok a
err≢ok e = ground arith

ok_inj : {A : Type 0} {a b : A} → ok a ≡ ok b → a ≡ b
ok_inj e = cc

-- A result that passed a guard and a fallible step.
chosen :
    {A B : Type 0} (refusal : Bytes) (guard : Bool) (t : Result A) (f : A → B) (h : B)
    → (if guard then err refusal else elim t [ err e ↦ err e | ok a ↦ ok (f a) ]) ≡ ok h
    → (a : A) × (f a ≡ h)
chosen refusal true t f h e = absurd (err≢ok e)
chosen refusal false (err x) f h e = absurd (err≢ok e)
chosen refusal false (ok a) f h e = (a, ok_inj e)

-- The headers of a pin are made of the hints that it was stored with. The policy in them never lets a
-- browser reuse the thumbnail beyond its freshness or the end of the pin, nor a stale copy beyond the
-- end of the pin; the deadline of the pin has to be a u64.
pub headers-Policy :
    (b64 : Base64) (sha256_hex : Bytes → Bytes) (parse_date : Bytes → Option ℕ)
    (pin : PinnedThumbnail) (now : ℕ) (if_none_match if_modified_since : Option Bytes)
    (h : PinHeaders)
    → pin.until ≤ u64_max
    → headers b64 sha256_hex parse_date pin now if_none_match if_modified_since ≡ ok h
    → (hints : CacheHints) × (read_hints b64 pin ≡ some hints)
      × Policy hints pin.until now h.cache_control
unfolding headers
headers-Policy b64 sha256_hex parse_date pin now if_none_match if_modified_since h small =
    elim (Option-cases (read_hints b64 pin)) [
      | inl garbled ↦ rw (headers, garbled) (λ e. absurd (err≢ok e))
      | inr (hints, read) ↦
          rw (headers, read)
            (λ e. (
              hints,
              refl,
              subst (λ text. Policy hints pin.until now text)
                  (ap PinHeaders.cache_control
                    (chosen _
                      (not (
                        is_valid_etag
                          (unwrap_or hints.etag (34 ∷ sha256_hex pin.bytes ++ 34 ∷ []))))
                      (transpose (ascii "invalid cached thumbnail Last-Modified")
                        (Option.map parse_date hints.last_modified))
                      (λ modified. record {
                        etag = unwrap_or hints.etag (34 ∷ sha256_hex pin.bytes ++ 34 ∷ []);
                        last_modified = hints.last_modified;
                        cache_control = cache_control hints pin.until now;
                        not_modified =
                            is_not_modified parse_date
                              (unwrap_or hints.etag (34 ∷ sha256_hex pin.bytes ++ 34 ∷ [])) modified
                              if_none_match if_modified_since;
                      })
                      h e).1)
                  (cache_control-Policy hints pin.until now small),
            ))
    ]
