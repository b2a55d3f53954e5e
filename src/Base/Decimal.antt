-- ===== src/Base/Decimal.antt =====
-- `str::parse` at an unsigned integer type, and `str::split`.
use Prim.Native.Nat.{ℕ, zero, suc, ◌+◌, ◌*◌, ◌-◌, ◌/◌, ◌%◌, ◌≤◌}
use mathlib.Core.Bool.{true, false, ◌&&◌}
use mathlib.Core.List.{List, [], ◌∷◌, ◌++◌}
use mathlib.Core.Option.{Option, none, some}
use mathlib.Core.Path.{◌≡◌}
use native.Mathlib.Omega.{arith}
use thumbrella.Base.Tests.{◌==◌, leb, ltb, if◌then◌else◌}
use thumbrella.Base.Text.{Bytes}

-- The loop over the digits: `none` on a byte that is no digit, and past `limit`.
unfoldable pub decimal_from : ℕ → ℕ → Bytes → Option ℕ
decimal_from limit acc [] = some acc
decimal_from limit acc (c ∷ cs) =
    let more = decimal_from limit (acc * 10 + (c - 48)) cs in
    if leb 48 c && leb c 57 then (if leb (acc * 10 + (c - 48)) limit then more else none) else none

-- A leading `+` is allowed before the digits, which must be there.
unfoldable pub parse_decimal : ℕ → Bytes → Option ℕ
unfolding decimal_from
parse_decimal limit [] = none
parse_decimal limit (c ∷ []) = decimal_from limit 0 (c ∷ [])
parse_decimal limit (c ∷ d ∷ cs) =
    if c == b'+' then decimal_from limit 0 (d ∷ cs) else decimal_from limit 0 (c ∷ d ∷ cs)

decimal_from-le :
    (limit acc : ℕ) (s : Bytes) {n : ℕ}
    → acc ≤ limit
    → decimal_from limit acc s ≡ some n
    → n ≤ limit
unfolding decimal_from
decimal_from-le limit acc [] h e = ground arith
decimal_from-le limit acc (c ∷ cs) {n} h e =
    ground (arith, decimal_from-le limit (acc * 10 + (c - 48)) cs {n = n})

-- What parses fits the type.
pub parse_decimal-le : (limit : ℕ) (s : Bytes) {n : ℕ} → parse_decimal limit s ≡ some n → n ≤ limit
unfolding parse_decimal
parse_decimal-le limit [] e = cc
parse_decimal-le limit (c ∷ []) e = decimal_from-le limit 0 (c ∷ []) (omega arith) e
parse_decimal-le limit (c ∷ d ∷ cs) {n} e =
    ground (
      arith,
      decimal_from-le limit 0 (d ∷ cs) {n = n},
      decimal_from-le limit 0 (c ∷ d ∷ cs) {n = n},
    )

-- `str::split` at a one-byte separator: one piece more than there are separators.
unfoldable pub split_from : ℕ → Bytes → Bytes → List Bytes
split_from c piece [] = piece ∷ []
split_from c piece (x ∷ xs) = elim (x == c) [
  | true ↦ piece ∷ split_from c [] xs
  | false ↦ split_from c (piece ++ x ∷ []) xs
]

unfoldable pub split : ℕ → Bytes → List Bytes
unfolding split_from
split c s = split_from c [] s

-- `{}` of an unsigned integer; a u64 has at most twenty digits.
unfoldable pub decimal_digits : ℕ → ℕ → Bytes → Bytes
decimal_digits zero n acc = acc
decimal_digits (suc f) n acc =
    let more = decimal_digits f (n / 10) ((48 + n % 10) ∷ acc) in
    if ltb n 10 then (48 + n) ∷ acc else more

unfoldable pub to_decimal : ℕ → Bytes
unfolding decimal_digits
to_decimal n = decimal_digits 20 n []
