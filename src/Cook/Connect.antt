-- ===== src/Cook/Connect.antt =====
-- tier1/src/pipeline/connect.rs: the connection, over the fetch guard, and a transport that is a
-- parameter. `HttpBuffer::open` is the part of tier1/src/http_buf.rs that reads the response headers.
pub mod Outcomes
use thumbrella.Base.{
  ℕ, ◌+◌, Bool, true, false, not, ◌&&◌, ◌||◌, Option, none, some, List, [], ◌∷◌, ◌++◌, Bytes, ascii,
  bytes_eq, ◌==◌, leb, ltb, if◌then◌else◌, is_some, unwrap_or, and_then, strip_prefix, trim,
  to_ascii_lowercase,
}
use thumbrella.Base.Decimal.{to_decimal}
use thumbrella.Cache.Moka.{Moka}
use thumbrella.Cook.{CookStatus, ThumbCook, fail, http_install}
use thumbrella.FetchGuard.{Failure, Hold, check_url, record_url, check_origin, record_origin}
use thumbrella.Hints.{CacheHints, Conditional, to_conditional}
use thumbrella.Hints.Headers.{Headers, from_response_headers, parse_u64}
use thumbrella.HttpBuf.Buffer.{Event, HttpBuffer, open_buffer}
use thumbrella.Source.{origin_of, canonical_url}

-- What the transport has after a connection: status, headers, final URL and body.
pub record Reply : Type 0 where
  pub status : ℕ
  pub headers : Headers
  pub final_url : Option Bytes
  pub body : List Event

-- `HttpStream::connect` for a URL and the validator of a conditional request; an error is its text.
pub data Answered : Type 0 where
  reply : Reply → Answered
  refused : Bytes → Answered

abbrev pub Transport : Type 0
Transport = Bytes → Option Conditional → Answered

-- The buffer of `HttpBuffer::open`.
unfoldable pub opened : Reply → HttpBuffer
opened r =
    open_buffer (and_then (r.headers (ascii "content-length")) parse_u64)
      (elim (r.headers (ascii "accept-ranges")) [
        | none ↦ false
        | some v ↦ bytes_eq (to_ascii_lowercase v) (ascii "bytes")
      ])
      r.body

-- The message of a status that is a failure of the source.
unfoldable pub fail_msg : ℕ → Option Bytes
fail_msg s =
    if s == 401 || s == 403
    then some (ascii "permission denied")
    else if s == 404
    then some (ascii "source not found")
    else if s == 410
    then some (ascii "source gone")
    else if leb 500 s
    then some (ascii "server error (HTTP " ++ (to_decimal s ++ ascii ")"))
    else if not (leb 200 s && ltb s 300)
    then some (ascii "unexpected HTTP status " ++ to_decimal s)
    else none

-- The conditional header that the hints of the client, or of a stored entry, give.
abbrev pub conditional_of : ThumbCook → Option Conditional
conditional_of c = and_then c.input_cache to_conditional

-- What the response tells, whatever its status.
abbrev pub noted : ThumbCook → Reply → ℕ → ThumbCook
noted c r now = record c {
  http_status = some r.status;
  http_headers = r.headers;
  http_accepts_ranges = (opened r).accepts_ranges;
  media = record (c.media) { file_size = (opened r).content_length };
  src = record (c.src) { cache_hints = from_response_headers r.headers now };
}

-- A response in the 200 range.
unfoldable pub installed : ThumbCook → Reply → ThumbCook
unfolding opened
installed c r =
    let final = unwrap_or r.final_url c.url in
    http_install
      (record c {
        src = record (c.src) { final_url = some final; canonical_url = canonical_url final };
      })
      (opened r)

module _ {SO SU : Type 0} (origins : Moka SO Hold) (urls : Moka SU Failure) (transport : Transport)
    (backoff_default : ℕ) where
  abbrev pub Guarded : Type 0
  Guarded = ThumbCook × SO × SU

  -- `retry-after` in seconds, or the default.
  abbrev pub back_off : Reply → ℕ
  back_off r =
      unwrap_or (and_then (r.headers (ascii "retry-after")) (λ v. parse_u64 (trim v)))
        backoff_default

  -- Behind the response headers.
  unfoldable pub classify : ThumbCook → SO → SU → Reply → ℕ → Guarded
  unfolding fail_msg record_origin record_url installed
  classify c so su r now =
      let s = r.status in
      if s == 429 || s == 503
      then (
        record c { status = CookStatus.overloaded },
        record_origin origins so (origin_of c.url) s (back_off r) now,
        su,
      )
      else if s == 304
      then (if is_some (conditional_of c)
          then (record c { status = CookStatus.fresh }, so, su)
          else (fail c (ascii "source returned 304 without a conditional request"), so, su))
      else elim (fail_msg s) [
        | some message ↦ (fail c message, so, record_url urls su c.url s message)
        | none ↦ (installed c r, so, su)
      ]

  unfoldable pub answered : ThumbCook → SO → SU → ℕ → Answered → Guarded
  unfolding classify
  answered c so su now (refused message) = (fail c message, so, su)
  answered c so su now (reply r) = classify (noted c r now) so su r now

  unfoldable pub connect : ThumbCook → SO → SU → ℕ → Guarded
  unfolding answered check_origin check_url
  connect c so su now =
      if is_some (strip_prefix (ascii "file://") c.url) && not c.allow_local
      then (fail c (ascii "file:// URLs are not permitted"), so, su)
      else elim (check_origin origins so (origin_of c.url) now) [
        | some held ↦ (record c { http_status = some held; status = CookStatus.overloaded }, so, su)
        | none ↦ elim (check_url urls su c.url) [
          | some (status, message) ↦ (fail (record c { http_status = some status }) message, so, su)
          | none ↦ answered c so su now (transport c.url (conditional_of c))
        ]
      ]
