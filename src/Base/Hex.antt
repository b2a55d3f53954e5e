-- ===== src/Base/Hex.antt =====
-- `format!("{:x}")` on a u64 and `u64::from_str_radix(_, 16)`.
use Prim.Native.Nat.{ℕ, zero, suc, ◌+◌, ◌*◌, ◌-◌, ◌/◌, ◌%◌, ◌^◌, ◌≤◌, ◌<◌}
use mathlib.Core.Path.{◌≡◌, refl, ap, ◌∙◌}
use mathlib.Core.Bool.{false, ◌&&◌}
use mathlib.Core.Logic.{inl, inr}
use mathlib.Core.List.{[], ◌∷◌}
use mathlib.Core.Option.{Option, none, some}
use native.Mathlib.Nat.{pow-suc}
use native.Mathlib.Omega.{arith}
use thumbrella.Base.Tests.{◌==◌, leb, ltb, if◌then◌else◌, u64_max, Bool-cases, ltb→lt, lt→ltb}
use thumbrella.Base.Text.{Bytes, Avoids}

unfoldable pub digit : ℕ → ℕ
digit d = if ltb d 10 then 48 + d else 87 + d

unfoldable pub digit_value : ℕ → Option ℕ
digit_value c =
    if leb 48 c && leb c 57
    then some (c - 48)
    else if leb 97 c && leb c 102
    then some (c - 87)
    else if leb 65 c && leb c 70
    then some (c - 55)
    else none

-- The digits are produced from the lowest up; a u64 has at most 16.
unfoldable pub hex_from : ℕ → ℕ → Bytes → Bytes
unfolding digit
hex_from zero n acc = acc
hex_from (suc f) n acc =
    let more = hex_from f (n / 16) (digit (n % 16) ∷ acc) in
    if ltb n 16 then digit n ∷ acc else more

unfoldable pub to_hex : ℕ → Bytes
unfolding hex_from
to_hex n = hex_from 16 n []

-- The loop of `from_str_radix`: `none` on a byte that is no digit, and on overflow.
unfoldable pub parse_digits : ℕ → Bytes → Option ℕ
unfolding digit_value
parse_digits acc [] = some acc
parse_digits acc (c ∷ cs) = elim (digit_value c) [
  | none ↦ none
  | some d ↦ if leb (acc * 16 + d) u64_max then parse_digits (acc * 16 + d) cs else none
]

-- A leading `+` is allowed before the digits, which must be there.
unfoldable pub parse_hex : Bytes → Option ℕ
unfolding parse_digits
parse_hex [] = none
parse_hex (c ∷ []) = parse_digits 0 (c ∷ [])
parse_hex (c ∷ d ∷ cs) = if c == b'+' then parse_digits 0 (d ∷ cs) else parse_digits 0 (c ∷ d ∷ cs)

digit_value-digit : (d : ℕ) → d < 16 → digit_value (digit d) ≡ some d
unfolding digit digit_value
digit_value-digit d h = ground arith

parse_digits-digit :
    (acc d : ℕ) (cs : Bytes)
    → d < 16
    → acc * 16 + d ≤ u64_max
    → parse_digits acc (digit d ∷ cs) ≡ parse_digits (acc * 16 + d) cs
unfolding parse_digits
parse_digits-digit acc d cs h b = ground (arith, digit_value-digit d)

hex_from_low : (f n : ℕ) (acc : Bytes) → n < 16 → hex_from (suc f) n acc ≡ digit n ∷ acc
unfolding hex_from
hex_from_low f n acc h = rw (lt→ltb _ _ h)

hex_from_high :
    (f n : ℕ) (acc : Bytes)
    → ltb n 16 ≡ false
    → hex_from (suc f) n acc ≡ hex_from f (n / 16) (digit (n % 16) ∷ acc)
unfolding hex_from
hex_from_high f n acc h = rw h

parse_digits-low :
    (f n : ℕ) (acc : Bytes) → n < 16 → parse_digits 0 (hex_from (suc f) n acc) ≡ parse_digits n acc
parse_digits-low f n acc h =
    rw (hex_from_low f n acc h) (
      parse_digits-digit 0 n acc h (omega arith) ∙ ap (λ (m : ℕ). parse_digits m acc) (omega arith))

-- Reading back the printed digits gives the number.
parse_digits-hex_from :
    (f n : ℕ) (acc : Bytes)
    → n < 16 ^ suc f
    → n ≤ u64_max
    → parse_digits 0 (hex_from (suc f) n acc) ≡ parse_digits n acc
parse_digits-hex_from zero n acc h b = parse_digits-low zero n acc h
parse_digits-hex_from (suc f) n acc h b = elim (Bool-cases (ltb n 16)) [
  | inl low ↦ parse_digits-low (suc f) n acc (ltb→lt _ _ low)
  | inr high ↦ rw (hex_from_high (suc f) n acc high) (
      parse_digits-hex_from f (n / 16) (digit (n % 16) ∷ acc) (omega (arith, h, pow-suc 16 (suc f)))
        (omega arith)
      ∙ parse_digits-digit (n / 16) (n % 16) acc (omega arith) (omega arith)
      ∙ ap (λ (m : ℕ). parse_digits m acc) (omega arith))
]

hex_from-Avoids :
    (c : ℕ) (differs : (d : ℕ) → d < 16 → (digit d == c) ≡ false) (f n : ℕ) (acc : Bytes)
    → Avoids c acc
    → Avoids c (hex_from f n acc)
unfolding hex_from
hex_from-Avoids c differs zero n acc h = h
hex_from-Avoids c differs (suc f) n acc h = elim (Bool-cases (ltb n 16)) [
  | inl low ↦ rw low (differs n (ltb→lt _ _ low), h)
  | inr high ↦ rw high (
      hex_from-Avoids c differs f (n / 16) (digit (n % 16) ∷ acc)
        (differs (n % 16) (omega arith), h))
]

hex_from-cons : (f n c : ℕ) (cs : Bytes) → (d : ℕ) × (ds : Bytes) × (hex_from f n (c ∷ cs) ≡ d ∷ ds)
unfolding hex_from
hex_from-cons zero n c cs = (c, cs, refl)
hex_from-cons (suc f) n c cs = elim (Bool-cases (ltb n 16)) [
  | inl low ↦ (digit n, c ∷ cs, rw low)
  | inr high ↦ rw high (hex_from-cons f (n / 16) (digit (n % 16)) (c ∷ cs))
]

to_hex-cons : (n : ℕ) → (d : ℕ) × (ds : Bytes) × (to_hex n ≡ d ∷ ds)
unfolding to_hex hex_from
to_hex-cons n = elim (Bool-cases (ltb n 16)) [
  | inl low ↦ (digit n, [], rw low)
  | inr high ↦ rw high (hex_from-cons 15 (n / 16) (digit (n % 16)) [])
]

digit-ne-colon : (d : ℕ) → d < 16 → (digit d == b':') ≡ false
unfolding digit
digit-ne-colon d h = ground arith

digit-ne-plus : (d : ℕ) → d < 16 → (digit d == b'+') ≡ false
unfolding digit
digit-ne-plus d h = ground arith

-- The printed number holds no colon.
pub to_hex-Avoids : (n : ℕ) → Avoids b':' (to_hex n)
unfolding to_hex
to_hex-Avoids n = hex_from-Avoids b':' digit-ne-colon 16 n [] tt

parse_hex-parse_digits :
    (c : ℕ) (cs : Bytes) → Avoids b'+' (c ∷ cs) → parse_hex (c ∷ cs) ≡ parse_digits 0 (c ∷ cs)
unfolding parse_hex
parse_hex-parse_digits c [] h = refl
parse_hex-parse_digits c (d ∷ ds) h = rw h.0

parse_hex_cons :
    (s : Bytes) {d : ℕ} {ds : Bytes} → s ≡ d ∷ ds → Avoids b'+' s → parse_hex s ≡ parse_digits 0 s
parse_hex_cons [] e h = cc
parse_hex_cons (c ∷ cs) e h = parse_hex-parse_digits c cs h

-- Parsing what was printed gives the number back.
pub parse_hex-to_hex : (n : ℕ) → n ≤ u64_max → parse_hex (to_hex n) ≡ some n
unfolding to_hex
parse_hex-to_hex n b =
    parse_hex_cons (to_hex n) (to_hex-cons n).2 (hex_from-Avoids b'+' digit-ne-plus 16 n [] tt)
    ∙ parse_digits-hex_from 15 n [] (omega arith) b
    ∙ unfold parse_digits in refl
