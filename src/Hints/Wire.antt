-- ===== src/Hints/Wire.antt =====
-- `CacheHints::encode` and `CacheHints::decode` of tier1/src/source.rs. The base64 engine is a
-- parameter. The decoder's position in its buffer is the list of the bytes from there on.
use mathlib.Core.List.{reverse}
use thumbrella.Base.{
  ℕ, ◌+◌, ◌*◌, ◌/◌, ◌%◌, ◌^◌, Bool, true, false, not, ◌||◌, Option, none, some, [], ◌∷◌, ◌++◌,
  Bytes, leb, ◌==◌, if◌then◌else◌, length, take, drop, split_once, is_empty, min, ◌>>=◌,
}
use thumbrella.Base.Hex.{to_hex, parse_hex}
use thumbrella.Base.Utf8.{from_utf8_lossy}
use thumbrella.Hints.{CacheHints, default}

-- `base64::Engine` at `URL_SAFE_NO_PAD`.
pub record Base64 : Type 0 where
  pub encode : Bytes → Bytes
  pub decode : Bytes → Option Bytes

-- `u32::to_be_bytes` and `u32::from_be_bytes`.
abbrev pub to_be_bytes : ℕ → Bytes
to_be_bytes n = (n / 2 ^ 24 % 256) ∷ (n / 2 ^ 16 % 256) ∷ (n / 2 ^ 8 % 256) ∷ (n % 256) ∷ []

abbrev pub from_be_bytes : ℕ → ℕ → ℕ → ℕ → ℕ
from_be_bytes a b c d = a * 2 ^ 24 + b * 2 ^ 16 + c * 2 ^ 8 + d

-- The header byte of a u32 field is its width.
unfoldable pub u32_field : Option ℕ → Bytes
u32_field none = 0 ∷ []
u32_field (some n) = 4 ∷ to_be_bytes n

unfoldable pub bool_field : Bool → ℕ
bool_field b = if b then 1 else 0

unfoldable pub push_str_field : Option Bytes → Bytes
push_str_field none = 0 ∷ []
push_str_field (some []) = 0 ∷ []
push_str_field (some (c ∷ cs)) = let len = min (length (c ∷ cs)) 255 in len ∷ take len (c ∷ cs)

-- The positional fields, in the order in which they are pushed.
unfoldable pub fields : CacheHints → Bytes
unfolding u32_field bool_field push_str_field
fields h =
    u32_field h.stale_while_revalidate
    ++ (bool_field h.immutable
        ∷ (push_str_field h.etag
            ++ (push_str_field h.last_modified
                ++ (bool_field h.no_store
                    ∷ bool_field h.private
                    ∷ bool_field h.no_cache
                    ∷ u32_field h.max_age))))

-- `while buf.len() > 1 && buf.last() == Some(&0) { buf.pop(); }`, on the reversed buffer.
unfoldable pub pop_zeros : Bytes → Bytes
pop_zeros [] = []
pop_zeros (x ∷ []) = x ∷ []
pop_zeros (x ∷ y ∷ r) = if x == 0 then pop_zeros (y ∷ r) else x ∷ y ∷ r

unfoldable pub trim_zeros : Bytes → Bytes
unfolding pop_zeros
trim_zeros buf = reverse (pop_zeros (reverse buf))

unfoldable pub epoch : CacheHints → ℕ → ℕ → ℕ
epoch h now default_ttl_secs =
    if h.no_cache
    then 1
    else elim h.expires_at [ some e ↦ e | none ↦ (now + default_ttl_secs) % 2 ^ 64 ]

unfoldable pub encode : Base64 → CacheHints → ℕ → ℕ → Bytes
encode b64 h now default_ttl_secs =
    if h.no_store || h.private
    then []
    else to_hex (epoch h now default_ttl_secs) ++ b':' ∷ b64.encode (trim_zeros (fields h))

unfoldable pub take_u32_field : Bytes → Option ℕ × Bytes
take_u32_field [] = (none, [])
take_u32_field (hdr ∷ a ∷ b ∷ c ∷ d ∷ rest) =
    if hdr == 4 then (some (from_be_bytes a b c d), rest) else (none, a ∷ b ∷ c ∷ d ∷ rest)
take_u32_field (hdr ∷ rest) = (none, rest)

unfoldable pub take_bool_field : Bytes → Bool × Bytes
take_bool_field [] = (false, [])
take_bool_field (b ∷ rest) = (not (b == 0), rest)

unfoldable pub take_str_field : Bytes → Option Bytes × Bytes
take_str_field [] = (none, [])
take_str_field (len ∷ rest) =
    if len == 0
    then (none, rest)
    else if leb len (length rest)
    then (some (from_utf8_lossy (take len rest)), drop len rest)
    else (none, rest)

-- The hints that an epoch alone stands for. Older strings used 0 as their uncacheable marker.
unfoldable pub of_epoch : ℕ → CacheHints
of_epoch e =
    if e == 0 then record default { no_store = true } else record default { expires_at = some e }

-- Field 4 overwrites what the epoch said, if it is there.
unfoldable pub read_no_store : Bool → Bytes → Bool
read_no_store marked [] = marked
read_no_store marked (b ∷ rest) = not (b == 0)

-- The decoder's fields 0 to 7, read one behind the other. A missing field leaves the default.
unfoldable pub decode_fields : ℕ → Bytes → CacheHints
unfolding take_u32_field take_bool_field take_str_field of_epoch read_no_store
decode_fields e buf =
    let (swr, b1) = take_u32_field buf in
    let (immutable, b2) = take_bool_field b1 in
    let (etag, b3) = take_str_field b2 in
    let (last_modified, b4) = take_str_field b3 in
    let (private, b6) = take_bool_field (take_bool_field b4).1 in
    let (no_cache, b7) = take_bool_field b6 in
    record {
      expires_at = (of_epoch e).expires_at;
      stale_while_revalidate = swr;
      max_age = (take_u32_field b7).0;
      immutable = immutable;
      etag = etag;
      last_modified = last_modified;
      no_store = read_no_store (of_epoch e).no_store b4;
      private = private;
      no_cache = no_cache;
    }

unfoldable pub decode : Base64 → Bytes → Option CacheHints
decode b64 wire = do
  (epoch_hex, blob) ← split_once b':' wire
  _ ← (if is_empty blob then none else some blob)
  e ← parse_hex epoch_hex
  buf ← b64.decode blob
  some (decode_fields e buf)
