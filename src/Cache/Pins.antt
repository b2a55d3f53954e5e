-- ===== src/Cache/Pins.antt =====
-- Pin identifiers, and how a result is pinned: tier1/src/cache/pins.rs. HMAC-SHA256 and the URL-safe
-- base64 engine are third-party code.
pub mod Identifiers
pub mod Results
use thumbrella.Base.{
  ℕ, ◌+◌, ◌*◌, ◌/◌, ◌%◌, ◌^◌, Bool, true, false, not, ◌&&◌, ◌||◌, Option, none, some, List, [], ◌∷◌,
  ◌++◌, Bytes, ascii, ◌==◌, leb, max, if◌then◌else◌, is_empty, saturating_add, length, take,
}
use thumbrella.Media.{FileKind, ThumbMedia, ThumbResult, ResultStatus}
use thumbrella.Cache.Entry.{CacheEntry}
use thumbrella.Cache.Backend.{Result, ok, err, Backend}

unfoldable pub kind_letter : FileKind → ℕ
kind_letter FileKind.image = b'i'
kind_letter FileKind.video = b'v'
kind_letter FileKind.audio = b'a'
kind_letter FileKind.vector = b's'
kind_letter FileKind.document = b'd'
kind_letter FileKind.geometry = b'g'
kind_letter FileKind.archive = b'r'
kind_letter FileKind.text = b't'
kind_letter FileKind.binary = b'b'
kind_letter FileKind.unknown = b'u'

unfoldable pub pin_kind : Bytes → FileKind
pin_kind [] = FileKind.unknown
pin_kind (c ∷ cs) =
    if c == b'i'
    then FileKind.image
    else if c == b'v'
    then FileKind.video
    else if c == b'a'
    then FileKind.audio
    else if c == b's'
    then FileKind.vector
    else if c == b'd'
    then FileKind.document
    else if c == b'g'
    then FileKind.geometry
    else if c == b'r'
    then FileKind.archive
    else if c == b't'
    then FileKind.text
    else if c == b'b'
    then FileKind.binary
    else FileKind.unknown

unfoldable pub is_kind_letter : ℕ → Bool
is_kind_letter c =
    c == b'i'
    || (c == b'v'
        || (c == b'a'
            || (c == b's'
                || (c == b'd'
                    || (c == b'g' || (c == b'r' || (c == b't' || (c == b'b' || c == b'u'))))))))

-- `b.is_ascii_alphanumeric() || matches!(b, b'-' | b'_')`.
unfoldable pub is_url_safe : ℕ → Bool
is_url_safe b =
    (leb b'0' b && leb b b'9' || (leb b'A' b && leb b b'Z' || leb b'a' b && leb b b'z'))
    || (b == b'-' || b == b'_')

unfoldable pub all_url_safe : Bytes → Bool
unfolding is_url_safe
all_url_safe [] = true
all_url_safe (b ∷ bs) = is_url_safe b && all_url_safe bs

unfoldable pub valid_pin : Bytes → Bool
unfolding is_kind_letter all_url_safe
valid_pin [] = false
valid_pin (c ∷ cs) = length (c ∷ cs) == 13 && (is_kind_letter c && all_url_safe cs)

abbrev pub u32_be : ℕ → Bytes
u32_be n = n / 16777216 % 256 ∷ n / 65536 % 256 ∷ n / 256 % 256 ∷ n % 256 ∷ []

abbrev pub u64_be : ℕ → Bytes
u64_be n = u32_be (n / 2 ^ 32) ++ u32_be n

-- `TBR_CACHE_VERSION` of tier1/src/lib.rs.
abbrev pub cache_version : ℕ
cache_version = 6

-- `PinSecret::candidate`.
unfoldable pub candidate :
    (Bytes → Bytes → Bytes) → (Bytes → Bytes) → Bytes → FileKind → Bytes → ℕ → Bytes
unfolding kind_letter take
candidate hmac encode secret kind key attempt =
    kind_letter kind
    ∷ take 12 (
        encode (
          hmac secret (
            ascii "thumbrella-pin-v1"
            ++ 0 ∷ u32_be cache_version
            ++ kind_letter kind ∷ u64_be (length key)
            ++ key
            ++ u32_be attempt)))

module _ {T : Type 0} (backend : Backend T) where
  -- `get_entry`, then `get_pin_entry` if that has nothing.
  unfoldable pub either_entry : T → ℕ → Bytes → T × Option CacheEntry
  either_entry t now key =
      let answer = backend.get_entry t now key 0 in
      elim answer.1 [
        | some entry ↦ (answer.0, some entry)
        | none ↦ backend.get_pin_entry answer.0 now key
      ]

  -- `format!("pin/{id}.jpeg")`.
  abbrev pub link : Bytes → Bytes
  link id = ascii "pin/" ++ id ++ ascii ".jpeg"

  -- What follows the second attempt to issue.
  unfoldable pub second_issue : T × Result (Option Bytes) → T × Result (Option Bytes)
  second_issue (t, err e) = (t, err e)
  second_issue (t, ok none) = (t, err (ascii "pin entry disappeared while publishing its alias"))
  second_issue (t, ok (some id)) = (t, ok (some (link id)))

  -- What follows the first: a missing entry is promoted with its pin extended, and issued again.
  unfoldable pub first_issue :
      (ℕ → ℕ) → CacheEntry → Bytes → ℕ → T × Result (Option Bytes) → T × Result (Option Bytes)
  unfolding second_issue
  first_issue clock entry key ttl (t, err e) = (t, err e)
  first_issue clock entry key ttl (t, ok (some id)) = (t, ok (some (link id)))
  first_issue clock entry key ttl (t, ok none) =
      let copy = record entry { pin_until = max entry.pin_until (saturating_add (clock 0) ttl) } in
      let t' = backend.promote t (clock 0) key copy in
      second_issue (backend.issue_pin t' clock entry.media.kind key ttl)

  unfoldable pub pin_media : T → (ℕ → ℕ) → Bytes → ThumbMedia → ℕ → T × Result (Option Bytes)
  unfolding either_entry first_issue
  pin_media t clock key media ttl =
      if not (is_empty media.placeholder)
      then elim (backend.untracked_pin t media.kind key) [
        | err e ↦ (t, err e)
        | ok id ↦ (t, ok (some (link id)))
      ]
      else let found = either_entry t (clock 0) key in
        elim found.1 [
          | none ↦ (found.0, ok none)
          | some entry ↦
              if is_empty entry.media.thumbnail || not (is_empty entry.media.placeholder)
              then (found.0, ok none)
              else first_issue clock entry key ttl
                  (backend.issue_pin found.0 clock entry.media.kind key ttl)
        ]

unfoldable pub is_success : ResultStatus → Bool
is_success ResultStatus.success = true
is_success ResultStatus.failed = false
is_success ResultStatus.overloaded = false
is_success ResultStatus.intermediate = false
is_success ResultStatus.batch_limit = false

-- `CacheStore::pin_result` of a store with a backend, if it has one.
unfoldable pub pin_result :
    {T : Type 0}
    → Option (Backend T)
    → T
    → (ℕ → ℕ)
    → Bytes
    → ThumbResult
    → ℕ
    → T × Result (Option Bytes)
unfolding pin_media is_success
pin_result backend t clock key result ttl =
    if ttl == 0 || not (is_success result.status) then (t, ok none) else elim result.media [
      | none ↦ (t, ok none)
      | some media ↦ elim backend [
        | none ↦ (t, ok none)
        | some b ↦ pin_media b t clock key media ttl
      ]
    ]
