-- ===== src/Tests/Fixtures.antt =====
-- Concrete parameters: a cache that evicts nothing, a base64 engine that leaves bytes alone, and
-- entries.
use thumbrella.Base.{
  refl, inl, true, Option, none, some, [], ◌∷◌, Bytes, bytes_eq, bytes_eq_self, if◌then◌else◌,
  and_then, ascii, arith,
}
use thumbrella.Hints.{CacheHints, default}
use thumbrella.Hints.Wire.{Base64}
use thumbrella.Hints.RoundTrip.{IsBase64}
use thumbrella.Media.{FileKind, ThumbMedia}
use thumbrella.Cache.Entry.{CacheEntry}
use thumbrella.Cache.Moka.{Moka, IsMoka}

abbrev pub plain : Base64
plain = record { encode = λ s. s; decode = λ s. some s }

pub plain-IsBase64 : IsBase64 plain
plain-IsBase64 = record { reads_back = λ s. refl; encode_nonempty = λ s e. e }

abbrev pub Table : Type 0 → Type 0
Table V = Bytes → Option V

abbrev pub table : (V : Type 0) → Moka (Table V) V
table V = record {
  get = λ s k. s k;
  insert = λ s k v j. if bytes_eq k j then some v else s j;
  invalidate = λ s k j. if bytes_eq k j then none else s j;
  invalidate_entries_if = λ s p j. and_then (s j) (λ v. if p v then none else some v);
}

pub table-IsMoka : (V : Type 0) → IsMoka (table V) (λ k. ⊥)
table-IsMoka V = record {
  get-insert_self = λ s k v. inl (ground (arith, bytes_eq_self k));
  get-insert_ne = λ s k j v h. inl (ground arith);
  get-invalidate_self = λ s k. ground (arith, bytes_eq_self k);
  get-invalidate_ne = λ s k j h. inl (ground arith);
  get-invalidate_if_hit = λ s p k v e h. ground arith;
  get-invalidate_if_miss = λ s p k v e h. inl (ground arith);
  get-invalidate_if_none = λ s p k e. ground arith;
}

abbrev pub empty_table : Table CacheEntry
empty_table k = none

abbrev pub photo : ThumbMedia
photo = record {
  file_size = 2048;
  kind = FileKind.image;
  extension = ascii "jpeg";
  mime = ascii "image/jpeg";
  cache = ascii "3e8:A";
  placeholder = [];
  properties = ascii "{}";
  thumbnail = 1 ∷ 2 ∷ 3 ∷ [];
  url = ascii "https://example.com/source.jpg";
}

-- Stored at 100, cached until 400, pinned until 700.
abbrev pub entry : CacheEntry
entry = record {
  media = record photo { url = [] };
  fresh_until = 160;
  cache_until = 400;
  pin_until = 700;
  last_accessed_at = 100;
  render_cost = 73;
}

abbrev pub full : CacheHints
full = record default {
  expires_at = some 1780007113;
  stale_while_revalidate = some 3600;
  max_age = some 86400;
  immutable = true;
  etag = some (ascii "\"abc123\"");
  last_modified = some (ascii "Thu, 01 Jan 2026 00:00:00 GMT");
}
