-- ===== src/Hints/Fields.antt =====
-- Each field of the wire buffer is read back from the stripped buffer, and the reader is left with
-- the stripped rest.
use thumbrella.Base.{
  ℕ, zero, suc, ◌/◌, ◌%◌, ◌^◌, ◌≤◌, ◌<◌, ◌≡◌, refl, ap, ◌∙◌, subst, ◌⊎◌, inl, inr, ◌≢◌, Bool, true,
  false, Option, none, some, [], ◌∷◌, ◌++◌, Bytes, arith, min, length, take, Avoids,
  take-append_length, drop-append_length, length-take, length-append,
}
use thumbrella.Base.Utf8.{from_utf8_lossy}
use thumbrella.Hints.Wire.{
  to_be_bytes, from_be_bytes, u32_field, bool_field, push_str_field, take_u32_field,
  take_bool_field, take_str_field,
}
use thumbrella.Hints.Trim.{
  strip_zeros, strip_zeros-cons_ne, strip_zeros-nonzero, length-strip_zeros_cut,
}

pub from_be_bytes-to_be_bytes :
    (n : ℕ)
    → n < 2 ^ 32
    → from_be_bytes (n / 2 ^ 24 % 256) (n / 2 ^ 16 % 256) (n / 2 ^ 8 % 256) (n % 256) ≡ n
from_be_bytes-to_be_bytes n h = omega arith

nil-or-ne : (xs : Bytes) → (xs ≡ []) ⊎ (xs ≢ [])
nil-or-ne [] = inl refl
nil-or-ne (x ∷ xs) = inr (λ e. cc)

strip_zeros-zero : (r : Bytes) → strip_zeros r ≡ [] → strip_zeros (0 ∷ r) ≡ []
unfolding strip_zeros
strip_zeros-zero r e = rw e refl

pub take_bool_field-strip :
    (b : Bool) (r : Bytes) → take_bool_field (strip_zeros (bool_field b ∷ r)) ≡ (b, strip_zeros r)
unfolding take_bool_field bool_field
take_bool_field-strip true r = rw (strip_zeros-nonzero 1 r (omega arith)) refl
take_bool_field-strip false r = elim (nil-or-ne (strip_zeros r)) [
  | inl e ↦ rw (strip_zeros-zero r e, e)
  | inr ne ↦ rw (strip_zeros-cons_ne 0 r ne)
]

take_u32_field-zero : (r : Bytes) → take_u32_field (0 ∷ r) ≡ (none, r)
unfolding take_u32_field
take_u32_field-zero (a ∷ b ∷ c ∷ d ∷ r) = refl
take_u32_field-zero _ = refl

pub take_u32_field-strip_none :
    (r : Bytes) → take_u32_field (strip_zeros (u32_field none ++ r)) ≡ (none, strip_zeros r)
unfolding u32_field
take_u32_field-strip_none r = elim (nil-or-ne (strip_zeros r)) [
  | inl e ↦ rw (strip_zeros-zero r e, e) (unfold take_u32_field in refl)
  | inr ne ↦ rw (strip_zeros-cons_ne 0 r ne) (take_u32_field-zero (strip_zeros r))
]

strip_zeros-kept :
    (x : ℕ) (r : Bytes) → (x ≢ 0) ⊎ (strip_zeros r ≢ []) → strip_zeros (x ∷ r) ≡ x ∷ strip_zeros r
strip_zeros-kept x r (inl h) = strip_zeros-nonzero x r h
strip_zeros-kept x r (inr h) = strip_zeros-cons_ne x r h

strip_zeros-word :
    (a b c d : ℕ) (r : Bytes)
    → (d ≢ 0) ⊎ (strip_zeros r ≢ [])
    → strip_zeros (4 ∷ a ∷ b ∷ c ∷ d ∷ r) ≡ 4 ∷ a ∷ b ∷ c ∷ d ∷ strip_zeros r
strip_zeros-word a b c d r kept =
    let e4 = strip_zeros-kept d r kept in
    let e3 = strip_zeros-kept c (d ∷ r) (inr (rw e4 (λ e. cc))) in
    let e2 = strip_zeros-kept b (c ∷ d ∷ r) (inr (rw e3 (λ e. cc))) in
    let e1 = strip_zeros-kept a (b ∷ c ∷ d ∷ r) (inr (rw e2 (λ e. cc))) in
    let e0 = strip_zeros-kept 4 (a ∷ b ∷ c ∷ d ∷ r) (inr (rw e1 (λ e. cc))) in
    cc (e0, e1, e2, e3, e4)

-- The last byte of the value is kept if it is not zero, or if a later field is not.
pub take_u32_field-strip_some :
    (n : ℕ) (r : Bytes)
    → n < 2 ^ 32
    → (n % 256 ≢ 0) ⊎ (strip_zeros r ≢ [])
    → take_u32_field (strip_zeros (u32_field (some n) ++ r)) ≡ (some n, strip_zeros r)
unfolding u32_field take_u32_field
take_u32_field-strip_some n r b kept =
    rw (strip_zeros-word (n / 2 ^ 24 % 256) (n / 2 ^ 16 % 256) (n / 2 ^ 8 % 256) (n % 256) r kept)
      (ap (λ (m : ℕ). (some m, strip_zeros r)) (from_be_bytes-to_be_bytes n b))

short_word : (c : Bytes) → length c ≤ 3 → (take_u32_field (4 ∷ c)).0 ≡ none
unfolding take_u32_field
short_word [] h = refl
short_word (a ∷ []) h = refl
short_word (a ∷ b ∷ []) h = refl
short_word (a ∷ b ∷ c ∷ []) h = refl
short_word (a ∷ b ∷ c ∷ d ∷ r) h = absurd (omega arith)

-- A value whose last byte is zero is lost where nothing follows it.
pub take_u32_field-strip_cut :
    (n : ℕ) → n % 256 ≡ 0 → (take_u32_field (strip_zeros (u32_field (some n)))).0 ≡ none
unfolding u32_field
take_u32_field-strip_cut n h =
    rw (strip_zeros-nonzero 4 (to_be_bytes n) (omega arith))
      (short_word (strip_zeros (to_be_bytes n)) (rw h (length-strip_zeros_cut _ _ _)))

-- The text that a field carries: at most 255 bytes of it, and nothing for an empty one.
unfoldable pub carried : Option Bytes → Option Bytes
carried none = none
carried (some []) = none
carried (some (c ∷ cs)) = some (from_utf8_lossy (take (min (length (c ∷ cs)) 255) (c ∷ cs)))

abbrev pub NoNul : Option Bytes → Type 0
NoNul none = Unit {0}
NoNul (some s) = Avoids 0 s

take-Avoids : (c n : ℕ) (xs : Bytes) → Avoids c xs → Avoids c (take n xs)
unfolding take
take-Avoids c zero xs h = tt
take-Avoids c (suc n) [] h = tt
take-Avoids c (suc n) (x ∷ xs) h = (h.0, take-Avoids c n xs h.1)

strip_zeros-append : (xs r : Bytes) → Avoids 0 xs → strip_zeros (xs ++ r) ≡ xs ++ strip_zeros r
strip_zeros-append [] r h = refl
strip_zeros-append (x ∷ xs) r h =
    strip_zeros-nonzero x (xs ++ r) (ground arith) ∙ ap (◌∷◌ x) (strip_zeros-append xs r h.1)

take_str_field-text :
    (v r : Bytes)
    → 0 < length v
    → take_str_field (length v ∷ (v ++ r)) ≡ (some (from_utf8_lossy v), r)
unfolding take_str_field
take_str_field-text v r h =
    ground (arith, length-append v r, take-append_length v r, drop-append_length v r)

take_str_field-strip_zero :
    (r : Bytes) → take_str_field (strip_zeros (0 ∷ r)) ≡ (none, strip_zeros r)
unfolding take_str_field
take_str_field-strip_zero r = elim (nil-or-ne (strip_zeros r)) [
  | inl e ↦ rw (strip_zeros-zero r e, e)
  | inr ne ↦ rw (strip_zeros-cons_ne 0 r ne)
]

pub take_str_field-strip :
    (s : Option Bytes) (r : Bytes)
    → NoNul s
    → take_str_field (strip_zeros (push_str_field s ++ r)) ≡ (carried s, strip_zeros r)
unfolding push_str_field carried
take_str_field-strip none r h = take_str_field-strip_zero r
take_str_field-strip (some []) r h = take_str_field-strip_zero r
take_str_field-strip (some (c ∷ cs)) r h =
    let len : ℕ = min (length (c ∷ cs)) 255 in
    let v : Bytes = take len (c ∷ cs) in
    let e : length v ≡ len = omega (arith, length-take len (c ∷ cs)) in
    rw
      (
        strip_zeros-nonzero len (v ++ r) (omega arith),
        strip_zeros-append v r (take-Avoids 0 len (c ∷ cs) h),
      )
      (subst
        (λ n. take_str_field (n ∷ (v ++ strip_zeros r)) ≡ (some (from_utf8_lossy v), strip_zeros r))
        e (take_str_field-text v (strip_zeros r) (omega arith)))
