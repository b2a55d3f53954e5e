-- ===== src/Shortcut/Readers.antt =====
-- The byte readers of tier1/src/pipeline/shortcut.rs.
use thumbrella.Base.{
  ℕ, suc, ◌+◌, ◌-◌, ◌*◌, ◌/◌, ◌%◌, ◌<◌, ◌≡◌, refl, ap, Bool, true, Option, none, some, [], ◌∷◌,
  ◌++◌, Bytes, if◌then◌else◌, unwrap_or, is_some, strip_prefix, subst, take-append_length, take,
  drop, length, arith,
}

-- `buf[from..to]`; where the source slices, it has tested that the range lies in the buffer.
abbrev pub slice : Bytes → ℕ → ℕ → Bytes
slice buf from to = take (to - from) (drop from buf)

-- `starts_with`.
abbrev pub starts_with : Bytes → Bytes → Bool
starts_with buf prefix = is_some (strip_prefix prefix buf)

-- The two or four bytes at the front, in the byte order of the file.
abbrev pub u16_of : Bool → Bytes → Option ℕ
u16_of little (b0 ∷ b1 ∷ rest) = some (if little then b0 + b1 * 256 else b0 * 256 + b1)
u16_of little _ = none

abbrev pub u32_of : Bool → Bytes → Option ℕ
u32_of little (b0 ∷ b1 ∷ b2 ∷ b3 ∷ rest) = some (
    if little
    then b0 + (b1 + (b2 + b3 * 256) * 256) * 256
    else ((b0 * 256 + b1) * 256 + b2) * 256 + b3)
u32_of little _ = none

unfoldable pub read_u16 : Bytes → ℕ → Bool → Option ℕ
read_u16 buf off little = u16_of little (drop off buf)

unfoldable pub read_u32 : Bytes → ℕ → Bool → Option ℕ
read_u32 buf off little = u32_of little (drop off buf)

-- `zip_u16` and `zip_u32`: little-endian, and 0 out of range.
unfoldable pub zip_u16 : Bytes → ℕ → ℕ
unfolding read_u16
zip_u16 buf off = unwrap_or (read_u16 buf off true) 0

unfoldable pub zip_u32 : Bytes → ℕ → ℕ
unfolding read_u32
zip_u32 buf off = unwrap_or (read_u32 buf off true) 0

-- `u16::to_le_bytes` and `u32::to_le_bytes`, for what is written.
abbrev pub le16 : ℕ → Bytes
le16 n = n % 256 ∷ n / 256 ∷ []

abbrev pub le32 : ℕ → Bytes
le32 n = n % 256 ∷ n / 256 % 256 ∷ n / 65536 % 256 ∷ n / 16777216 ∷ []

pub drop-append :
    (front rest : Bytes) (i : ℕ) → drop (length front + i) (front ++ rest) ≡ drop i rest
unfolding drop
drop-append [] rest i = ap (λ n. drop n rest) (omega arith)
drop-append (x ∷ xs) rest i =
    subst (λ n. drop n (x ∷ xs ++ rest) ≡ drop i rest) count (drop-append xs rest i)
  where
    count : suc (length xs + i) ≡ length (x ∷ xs) + i
    count = omega arith

pub slice-append :
    (front mid rest : Bytes) (from to : ℕ)
    → from ≡ length front
    → to ≡ length front + length mid
    → slice (front ++ (mid ++ rest)) from to ≡ mid
unfolding drop
slice-append front mid rest from to e1 e2 =
    let cut = drop-append front (mid ++ rest) 0 in
    let here : from ≡ length front + 0 = omega arith in
    let size : to - from ≡ length mid = omega arith in
    rw (size, here, cut) (take-append_length mid rest)

pub append_assoc : (xs ys zs : Bytes) → (xs ++ ys) ++ zs ≡ xs ++ (ys ++ zs)
append_assoc [] ys zs = refl
append_assoc (x ∷ xs) ys zs = ap (◌∷◌ x) (append_assoc xs ys zs)

pub le32-read : (n : ℕ) (rest : Bytes) → n < 4294967296 → u32_of true (le32 n ++ rest) ≡ some n
le32-read n rest small = ap some (omega arith)

pub le16-read : (n : ℕ) (rest : Bytes) → n < 65536 → u16_of true (le16 n ++ rest) ≡ some n
le16-read n rest small = ap some (omega arith)
