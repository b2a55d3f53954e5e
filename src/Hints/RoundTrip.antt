-- ===== src/Hints/RoundTrip.antt =====
-- What `CacheHints::decode` makes of an encoded token, and what it loses.
use thumbrella.Base.{
  ℕ, ◌%◌, ◌^◌, ◌≤◌, ◌<◌, ◌≡◌, refl, ap, ◌∙◌, ◌⊎◌, inl, inr, ◌≢◌, Bool, true, false, Option, none,
  some, [], ◌∷◌, ◌++◌, Bytes, arith, length, min, is_empty, split_once-append, take-short, u64_max,
}
use thumbrella.Base.Hex.{to_hex, parse_hex-to_hex, to_hex-Avoids}
use thumbrella.Base.Utf8.{IsUtf8}
use thumbrella.Hints.{CacheHints, default}
use thumbrella.Hints.Wire.{
  Base64, u32_field, bool_field, fields, trim_zeros, epoch, encode, take_u32_field, take_bool_field,
  of_epoch, read_no_store, decode_fields, decode,
}
use thumbrella.Hints.Trim.{strip_zeros, trim_zeros-ne, trim_zeros-strip_zeros}
use thumbrella.Hints.Followed.{tail_fields, followed, Live, Live-tail_fields}
use thumbrella.Hints.Fields.{
  carried, NoNul, take_bool_field-strip, take_u32_field-strip_none, take_u32_field-strip_some,
  take_u32_field-strip_cut, take_str_field-strip,
}

-- What is relied on of the base64 engine: it decodes what it encodes.
pub record IsBase64 (b64 : Base64) : Type 0 where
  pub reads_back : (s : Bytes) → b64.decode (b64.encode s) ≡ some s
  pub encode_nonempty : (s : Bytes) → b64.encode s ≡ [] → s ≡ []

-- A u32 that the trimming leaves whole: its low byte is not zero, or something follows it.
abbrev pub Whole : Option ℕ → Bool → Type 0
Whole none followed = Unit {0}
Whole (some n) followed = (n < 2 ^ 32) × ((n % 256 ≢ 0) ⊎ (followed ≡ true))

-- The state of the reader behind the fields before `max_age`.
read_prefix :
    (h : CacheHints) (e : ℕ) (buf : Bytes)
    → take_u32_field buf ≡ (h.stale_while_revalidate, strip_zeros (tail_fields h))
    → NoNul h.etag
    → NoNul h.last_modified
    → decode_fields e buf ≡ record {
      expires_at = (of_epoch e).expires_at;
      stale_while_revalidate = h.stale_while_revalidate;
      max_age = (take_u32_field (strip_zeros (u32_field h.max_age))).0;
      immutable = h.immutable;
      etag = carried h.etag;
      last_modified = carried h.last_modified;
      no_store = read_no_store (of_epoch e).no_store (
          strip_zeros (
            bool_field h.no_store
            ∷ bool_field h.private
            ∷ bool_field h.no_cache
            ∷ u32_field h.max_age));
      private = h.private;
      no_cache = h.no_cache;
    }
unfolding decode_fields tail_fields
read_prefix h e buf swr tag date = rw (
  swr,
  take_bool_field-strip h.immutable _,
  take_str_field-strip h.etag _ tag,
  take_str_field-strip h.last_modified _ date,
  take_bool_field-strip h.no_store _,
  take_bool_field-strip h.private _,
  take_bool_field-strip h.no_cache _,
)

decode_fields-trim :
    (e : ℕ) (xs : Bytes) → decode_fields e (trim_zeros xs) ≡ decode_fields e (strip_zeros xs)
decode_fields-trim e xs = elim (trim_zeros-strip_zeros xs) [
  | inl same ↦ ap (decode_fields e) same
  | inr (nothing, one) ↦ rw (nothing, one) (unfold decode_fields in refl)
]

read_no_store-take_bool_field : (xs : Bytes) → read_no_store false xs ≡ (take_bool_field xs).0
unfolding read_no_store take_bool_field
read_no_store-take_bool_field [] = refl
read_no_store-take_bool_field (x ∷ xs) = refl

read_no_store-strip :
    (b : Bool) (r : Bytes) → read_no_store false (strip_zeros (bool_field b ∷ r)) ≡ b
read_no_store-strip b r =
    read_no_store-take_bool_field _ ∙ ap (λ (t : Bool × Bytes). t.0) (take_bool_field-strip b r)

word-kept :
    (o : Option ℕ) (r : Bytes) (f : Bool)
    → (f ≡ true → Live r)
    → Whole o f
    → take_u32_field (strip_zeros (u32_field o ++ r)) ≡ (o, strip_zeros r)
word-kept none r f live w = take_u32_field-strip_none r
word-kept (some n) r f live (b, inl low) = take_u32_field-strip_some n r b (inl low)
word-kept (some n) r f live (b, inr more) = take_u32_field-strip_some n r b (inr (live more))

last_word-kept : (o : Option ℕ) → Whole o false → (take_u32_field (strip_zeros (u32_field o))).0 ≡ o
unfolding u32_field
last_word-kept none w = ap (λ (t : Option ℕ × Bytes). t.0) (take_u32_field-strip_none [])
last_word-kept (some n) (b, inl low) =
    ap (λ (t : Option ℕ × Bytes). t.0) (take_u32_field-strip_some n [] b (inl low))
last_word-kept (some n) (b, inr more) = cc

-- A token that is sent at all, that is neither `no_store` nor private; whose freshness date is a u64
-- other than 0, the old uncacheable marker; whose `stale_while_revalidate` the trimming leaves whole,
-- which it does not where its low byte is zero and all behind it are missing or zero; and whose
-- validators hold no NUL, as no header does.
pub record IsSent (h : CacheHints) (e : ℕ) : Type 0 where
  pub stored : h.no_store ≡ false
  pub shared : h.private ≡ false
  pub dated : 0 < e
  pub dated_u64 : e ≤ u64_max
  pub swr : Whole h.stale_while_revalidate (followed h)
  pub etag_text : NoNul h.etag
  pub date_text : NoNul h.last_modified

-- What the decoder makes of the fields of `h` and the epoch `e`.
abbrev pub received : CacheHints → ℕ → CacheHints
received h e = record h {
  expires_at = some e;
  etag = carried h.etag;
  last_modified = carried h.last_modified;
  max_age = (take_u32_field (strip_zeros (u32_field h.max_age))).0;
}

of_epoch-pos : (e : ℕ) → 0 < e → of_epoch e ≡ record default { expires_at = some e }
unfolding of_epoch
of_epoch-pos e h = ground arith

first_word-kept :
    (h : CacheHints)
    → Whole h.stale_while_revalidate (followed h)
    → take_u32_field (strip_zeros (fields h))
      ≡ (h.stale_while_revalidate, strip_zeros (tail_fields h))
unfolding fields tail_fields
first_word-kept h w =
    word-kept h.stale_while_revalidate (tail_fields h) (followed h) (Live-tail_fields h) w

decode_fields-fields :
    (h : CacheHints) (e : ℕ) → IsSent h e → decode_fields e (trim_zeros (fields h)) ≡ received h e
decode_fields-fields h e s =
    decode_fields-trim e (fields h)
    ∙ read_prefix h e (strip_zeros (fields h)) (first_word-kept h s.swr) s.etag_text s.date_text
    ∙ rw (of_epoch-pos e s.dated, read_no_store-strip) refl

append_cons-ne : (xs : Bytes) (y : ℕ) (ys : Bytes) → xs ++ y ∷ ys ≢ []
append_cons-ne [] y ys = λ e. cc
append_cons-ne (x ∷ xs) y ys = λ e. cc

fields-ne : (h : CacheHints) → fields h ≢ []
unfolding fields
fields-ne h = append_cons-ne (u32_field h.stale_while_revalidate) _ _

is_empty-ne : (s : Bytes) → s ≢ [] → is_empty s ≡ false
is_empty-ne [] h = absurd (h refl)
is_empty-ne (x ∷ xs) h = refl

encode-token :
    (b64 : Base64) (h : CacheHints) (now ttl : ℕ)
    → h.no_store ≡ false
    → h.private ≡ false
    → encode b64 h now ttl ≡ to_hex (epoch h now ttl) ++ b':' ∷ b64.encode (trim_zeros (fields h))
unfolding encode
encode-token b64 h now ttl stored shared = ground arith

decode-token :
    (b64 : Base64) (e : ℕ) (blob buf : Bytes)
    → e ≤ u64_max
    → blob ≢ []
    → b64.decode blob ≡ some buf
    → decode b64 (to_hex e ++ b':' ∷ blob) ≡ some (decode_fields e buf)
unfolding decode
decode-token b64 e blob buf bound ne read = rw (
  split_once-append b':' (to_hex e) blob (to_hex-Avoids e),
  is_empty-ne blob ne,
  parse_hex-to_hex e bound,
  read,
)

-- The whole decoder on an encoded token.
pub decode-encode_received :
    {b64 : Base64} (engine : IsBase64 b64) (h : CacheHints) (now ttl : ℕ)
    → IsSent h (epoch h now ttl)
    → decode b64 (encode b64 h now ttl) ≡ some (received h (epoch h now ttl))
decode-encode_received {b64} engine h now ttl s =
    let buf : Bytes = trim_zeros (fields h) in
    let e : ℕ = epoch h now ttl in
    ap (decode b64) (encode-token b64 h now ttl s.stored s.shared)
    ∙ decode-token b64 e (b64.encode buf) buf s.dated_u64
        (λ none_left. trim_zeros-ne (fields h) (fields-ne h) (engine.encode_nonempty buf none_left))
        (engine.reads_back buf)
    ∙ ap some (decode_fields-fields h e s)

-- A token decodes to the hints that it was made of, with the freshness date filled in and each validator
-- as the wire carries it, if it is neither `no_store` nor private (those are not sent), its freshness
-- date is a u64 other than 0, its validators hold no NUL, its `max_age` is missing or a u32 whose low
-- byte is not zero, and its `stale_while_revalidate` is missing, or a u32 whose low byte is not zero or
-- behind which some field is set.
pub decode-encode :
    {b64 : Base64} (engine : IsBase64 b64) (h : CacheHints) (now ttl : ℕ)
    → IsSent h (epoch h now ttl)
    → Whole h.max_age false
    → decode b64 (encode b64 h now ttl)
      ≡ some (record h {
        expires_at = some (epoch h now ttl);
        etag = carried h.etag;
        last_modified = carried h.last_modified;
      })
decode-encode engine h now ttl s whole =
    decode-encode_received engine h now ttl s
    ∙ ap
        (λ (m : Option ℕ). some (record h {
          expires_at = some (epoch h now ttl);
          etag = carried h.etag;
          last_modified = carried h.last_modified;
          max_age = m;
        }))
        (last_word-kept h.max_age whole)

-- A `max_age` whose low byte is zero, such as 256 seconds, is lost from every token that is sent with
-- a freshness date which is a u64 other than 0, validators without NUL, and a u32 or nothing for
-- `stale_while_revalidate`: the encoder trims that byte as if it were a missing field, and the decoder
-- drops the value that has become too short.
pub decode-encode_cut :
    {b64 : Base64} (engine : IsBase64 b64) (h : CacheHints) (now ttl n : ℕ)
    → IsSent h (epoch h now ttl)
    → h.max_age ≡ some n
    → n % 256 ≡ 0
    → (r : CacheHints) × (decode b64 (encode b64 h now ttl) ≡ some r) × (r.max_age ≡ none)
decode-encode_cut engine h now ttl n s here low = (
  received h (epoch h now ttl),
  decode-encode_received engine h now ttl s,
  rw here (take_u32_field-strip_cut n low),
)

-- A validator in valid UTF-8, with at least one byte and at most 255, travels unchanged.
pub carried_exact : (s : Bytes) → s ≢ [] → length s ≤ 255 → IsUtf8 s → carried (some s) ≡ some s
unfolding carried
carried_exact [] ne short text = absurd (ne refl)
carried_exact (c ∷ cs) ne short text =
    rw (take-short (c ∷ cs) (min (length (c ∷ cs)) 255) (omega arith)) (ap some text)
