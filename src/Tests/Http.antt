-- ===== src/Tests/Http.antt =====
-- The headers of a pinned thumbnail, and lists of entity tags.
use thumbrella.Base.{
  ℕ, ◌≡◌, refl, true, false, Option, none, some, [], ◌∷◌, Bytes, ascii, arith, any, ends_with,
  bytes_eq, split_once, drop, trim,
}
use thumbrella.Base.Hex.{parse_hex}
use thumbrella.Base.Decimal.{to_decimal}
use thumbrella.Hints.{CacheHints}
use thumbrella.Hints.Wire.{decode_fields}
use thumbrella.Cache.Backend.{ok, PinnedThumbnail}
use thumbrella.HttpCache.{PinHeaders, read_hints, next_tag, headers}
use thumbrella.HttpCache.Policy.{Policy, headers-Policy}
use thumbrella.HttpCache.Tags.{Tag}
use thumbrella.Tests.Fixtures.{plain}

-- Fresh until 1000, pinned until 700.
abbrev pin : PinnedThumbnail
pin = record { bytes = 1 ∷ []; cache = ascii "3e8:A"; until = 700 }

abbrev hash : Bytes → Bytes
hash bytes = ascii "00"

abbrev no_date : Bytes → Option ℕ
no_date s = none

abbrev served : PinHeaders
served = record {
  etag = ascii "\"00\"";
  last_modified = none;
  cache_control = ascii "public, max-age=500";
  not_modified = true;
}

pin_served : headers plain hash no_date pin 200 (some (ascii "\"x\", W/\"00\"")) none ≡ ok served
unfolding headers split_once parse_hex decode_fields ends_with bytes_eq drop to_decimal any trim
    next_tag
pin_served = refl

headers-Policy_example :
    (hints : CacheHints) × (read_hints plain pin ≡ some hints)
    × Policy hints 700 200 (ascii "public, max-age=500")
headers-Policy_example =
    headers-Policy plain hash no_date pin 200 (some (ascii "\"x\", W/\"00\"")) none served
      (omega arith) pin_served

abbrev x : Tag
x = record { weak = false; opaque = ascii "x" }

abbrev y : Tag
y = record { weak = true; opaque = ascii "y" }
