-- ===== src/HttpCache.antt =====
-- tier1/src/http_cache.rs: the validators and the policy that a pinned thumbnail is served with. The
-- hash and the parser of HTTP dates are third-party code.
pub mod Policy
pub mod Tags
use thumbrella.Base.{
  ℕ, zero, suc, ◌+◌, ◌-◌, Bool, true, false, not, ◌&&◌, ◌||◌, Option, none, some, List, [], ◌∷◌,
  ◌++◌, Bytes, ascii, bytes_eq, ◌==◌, ltb, leb, min, if◌then◌else◌, is_empty, is_some_and,
  unwrap_or, and_then, saturating_add, any, ends_with, strip_prefix, split_once, trim, trim_start,
  length,
}
use mathlib.Core.Option
use thumbrella.Base.Decimal.{to_decimal}
use thumbrella.Hints.{CacheHints, default}
use thumbrella.Hints.Wire.{Base64, decode}
use thumbrella.Cache.Backend.{Result, ok, err, PinnedThumbnail}

pub record PinHeaders : Type 0 where
  pub etag : Bytes
  pub last_modified : Option Bytes
  pub cache_control : Bytes
  pub not_modified : Bool

-- `strip_prefix("W/").unwrap_or(tag)`.
unfoldable pub strong : Bytes → Bytes
unfolding strip_prefix
strong tag = unwrap_or (strip_prefix (ascii "W/") tag) tag

-- What stands behind a tag: the end, a comma and the next tag, or something else.
unfoldable pub next_tag : Bytes → Option Bytes
unfolding trim_start
next_tag [] = some []
next_tag (c ∷ cs) = if c == 44 then some (trim_start cs) else none

-- The `while` loop of `etag_matches`. Each turn takes the two quotes of a tag off `remaining`, so its
-- length is fuel enough.
unfoldable pub tags_match : ℕ → Bytes → Bytes → Bool
tags_match zero etag remaining = false
tags_match (suc fuel) etag [] = false
tags_match (suc fuel) etag (c ∷ cs) = elim (strip_prefix (34 ∷ []) (strong (c ∷ cs))) [
  | none ↦ false
  | some quoted ↦ elim (split_once 34 quoted) [
    | none ↦ false
    | some (opaque, behind) ↦ elim (next_tag (trim_start behind)) [
      | none ↦ false
      | some remaining ↦
          let rest = tags_match fuel etag remaining in
          if bytes_eq (34 ∷ opaque ++ 34 ∷ []) etag then true else rest
    ]
  ]
]

-- One turn of the closure of `etag_matches`.
unfoldable pub value_matches : Bytes → Bytes → Bool
unfolding tags_match
value_matches etag value =
    let remaining = trim value in
    if bytes_eq remaining (ascii "*") then true else tags_match (length remaining) etag remaining

unfoldable pub etag_matches : Bytes → List Bytes → Bool
unfolding value_matches
etag_matches etag values = any (value_matches (strong etag)) values

unfoldable pub all {ℓ} : {A : Type ℓ} → (A → Bool) → List A → Bool
all p [] = true
all p (x ∷ xs) = p x && all p xs

unfoldable pub starts_with : ℕ → Bytes → Bool
starts_with c [] = false
starts_with c (x ∷ xs) = x == c

unfoldable pub is_valid_etag : Bytes → Bool
unfolding strong all starts_with
is_valid_etag etag =
    all (λ b. leb 32 b && not (b == 127)) etag
    && (starts_with 34 (strong etag) && ends_with etag (34 ∷ []))

-- How long the response may be reused: until the freshness or the pin ends, whichever is sooner.
unfoldable pub max_age : CacheHints → ℕ → ℕ → ℕ
max_age hints until now = min (unwrap_or hints.expires_at 0) until - now

-- How long a stale response may be reused.
unfoldable pub stale_for : ℕ → ℕ → ℕ → ℕ → ℕ
stale_for stale until now age = min stale (until - saturating_add now age)

unfoldable pub cache_control : CacheHints → ℕ → ℕ → Bytes
unfolding max_age stale_for
cache_control hints until now =
    if hints.no_store
    then ascii "no-store"
    else if hints.no_cache
    then ascii "no-cache"
    else let age = max_age hints until now in
      (if hints.private then ascii "private" else ascii "public")
      ++ (ascii ", max-age="
          ++ (to_decimal age
              ++ ((if ltb 0 age && hints.immutable then ascii ", immutable" else [])
                  ++ elim hints.stale_while_revalidate [
                    | none ↦ []
                    | some seconds ↦
                        let stale = stale_for seconds until now age in
                        if ltb 0 stale
                        then ascii ", stale-while-revalidate=" ++ to_decimal stale
                        else []
                  ])))

-- `Option<Result<..>>::transpose`.
unfoldable pub transpose {ℓ} : {A : Type ℓ} → Bytes → Option (Option A) → Result (Option A)
transpose e none = ok none
transpose e (some none) = err e
transpose e (some (some a)) = ok (some a)

unfoldable pub is_not_modified :
    (Bytes → Option ℕ) → Bytes → Option ℕ → Option Bytes → Option Bytes → Bool
unfolding etag_matches
is_not_modified parse_date etag modified (some value) if_modified_since =
    etag_matches etag (value ∷ [])
is_not_modified parse_date etag modified none if_modified_since =
    is_some_and modified
      (λ date. is_some_and (and_then if_modified_since parse_date) (λ since. leb date since))

-- A pin whose token is empty must not be stored.
unfoldable pub read_hints : Base64 → PinnedThumbnail → Option CacheHints
unfolding decode
read_hints b64 pin =
    if is_empty pin.cache then some (record default { no_store = true }) else decode b64 pin.cache

module _ (b64 : Base64) (sha256_hex : Bytes → Bytes) (parse_date : Bytes → Option ℕ) where
  unfoldable pub headers : PinnedThumbnail → ℕ → Option Bytes → Option Bytes → Result PinHeaders
  unfolding is_valid_etag cache_control transpose is_not_modified read_hints
  headers pin now if_none_match if_modified_since = elim (read_hints b64 pin) [
    | none ↦ err (ascii "invalid cached thumbnail cache hints")
    | some hints ↦
        let etag = unwrap_or hints.etag (34 ∷ sha256_hex pin.bytes ++ 34 ∷ []) in
        if not (is_valid_etag etag)
        then err (ascii "invalid cached thumbnail ETag")
        else elim (transpose (ascii "invalid cached thumbnail Last-Modified")
            (Option.map parse_date hints.last_modified)) [
              | err e ↦ err e
              | ok modified ↦ ok (record {
                etag = etag;
                last_modified = hints.last_modified;
                cache_control = cache_control hints pin.until now;
                not_modified =
                    is_not_modified parse_date etag modified if_none_match if_modified_since;
              })
            ]
  ]
