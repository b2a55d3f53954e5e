-- ===== src/Tests/Tokens.antt =====
-- Tokens and response headers.
use thumbrella.Base.{
  ◌≡◌, refl, true, none, some, List, [], ◌∷◌, Bytes, ascii, bytes_eq, if◌then◌else◌, take, drop,
  arith, split_once, lower, trim,
}
use thumbrella.Base.Hex.{to_hex, parse_hex}
use thumbrella.Base.Utf8.{from_utf8_lossy}
use thumbrella.Base.Decimal.{parse_decimal, split}
use thumbrella.Hints.{CacheHints, default}
use thumbrella.Hints.Wire.{epoch, encode, decode, fields, trim_zeros, decode_fields}
use thumbrella.Hints.RoundTrip.{decode-encode, decode-encode_cut, IsSent}
use thumbrella.Hints.Fields.{carried}
use thumbrella.Hints.Headers.{
  Headers, scan, scan_headers, answer, scan_directive, directive_parts, from_response_headers,
  revalidated, age_consumed,
}
use thumbrella.Hints.Freshness.{IsWellFormed, from_response_headers-IsWellFormed}
use thumbrella.Tests.Fixtures.{plain, plain-IsBase64, full}

tokens : Unit {0}
unfolding take drop split_once to_hex parse_hex from_utf8_lossy epoch encode decode fields
    trim_zeros decode_fields
tokens = tt

-- `round_trip_full` of the source's tests.
round_trip_full : decode plain (encode plain full 1000 0) ≡ some full
unfolding tokens
round_trip_full = refl

-- A `max_age` of 256 seconds is lost.
max_age_256 :
    decode plain (encode plain (record full { max_age = some 256 }) 1000 0)
    ≡ some (record full { max_age = none })
unfolding tokens
max_age_256 = refl

pub full-IsSent : IsSent full (epoch full 1000 0)
unfolding epoch
full-IsSent = record {
  stored = refl;
  shared = refl;
  dated = omega arith;
  dated_u64 = omega arith;
  swr = omega arith;
  etag_text = ground arith;
  date_text = ground arith;
}

decode-encode_example :
    decode plain (encode plain full 1000 0)
    ≡ some (record full {
      expires_at = some (epoch full 1000 0);
      etag = carried full.etag;
      last_modified = carried full.last_modified;
    })
decode-encode_example = decode-encode plain-IsBase64 full 1000 0 full-IsSent (omega arith)

abbrev cut : CacheHints
cut = record full { max_age = some 512 }

cut-IsSent : IsSent cut (epoch cut 1000 0)
unfolding epoch
cut-IsSent = record {
  stored = refl;
  shared = refl;
  dated = omega arith;
  dated_u64 = omega arith;
  swr = omega arith;
  etag_text = ground arith;
  date_text = ground arith;
}

decode-encode_cut_example :
    (r : CacheHints) × (decode plain (encode plain cut 1000 0) ≡ some r) × (r.max_age ≡ none)
decode-encode_cut_example = decode-encode_cut plain-IsBase64 cut 1000 0 512 cut-IsSent refl refl

headers_run : Unit {0}
unfolding scan_directive directive_parts scan scan_headers answer from_response_headers revalidated
    split trim lower split_once bytes_eq parse_decimal age_consumed
headers_run = tt

abbrev directives : List Bytes
directives = ascii "s-maxage=60" ∷ ascii "max-age=30" ∷ []

-- A response with a lifetime, an age and a validator.
abbrev response : Headers
response name =
    if bytes_eq name (ascii "cache-control")
    then some (ascii "public, max-age=600, immutable")
    else if bytes_eq name (ascii "age")
    then some (ascii "100")
    else if bytes_eq name (ascii "etag")
    then some (ascii "\"v1\"")
    else none

abbrev answered : CacheHints
answered = record default {
  expires_at = some 1500;
  max_age = some 600;
  immutable = true;
  etag = some (ascii "\"v1\"");
}

response_run : from_response_headers response 1000 ≡ some answered
unfolding headers_run
response_run = refl

from_response_headers-IsWellFormed_example : IsWellFormed answered
from_response_headers-IsWellFormed_example =
    from_response_headers-IsWellFormed response 1000 response_run
