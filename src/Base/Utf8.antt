-- ===== src/Base/Utf8.antt =====
-- `String::from_utf8_lossy`: every maximal ill-formed part becomes one U+FFFD.
use Prim.Native.Nat.{ℕ, ◌-◌}
use mathlib.Core.Bool.{Bool, ◌&&◌}
use mathlib.Core.List.{[], ◌∷◌, ◌++◌}
use mathlib.Core.Path.{◌≡◌}
use thumbrella.Base.Tests.{◌==◌, leb, ltb, if◌then◌else◌}
use thumbrella.Base.Text.{Bytes}

-- A sequence that has begun: its bytes so far, how many are missing, and the range of the next.
pub record Partial : Type 0 where
  pub pending : Bytes
  pub missing : ℕ
  pub low : ℕ
  pub high : ℕ

abbrev between : ℕ → ℕ → ℕ → Bool
between lo hi b = leb lo b && leb b hi

abbrev idle : Partial
idle = record { pending = []; missing = 0; low = 0; high = 0 }

abbrev begin : ℕ → ℕ → ℕ → ℕ → Bytes × Partial
begin b n lo hi = ([], record { pending = b ∷ []; missing = n; low = lo; high = hi })

abbrev replacement : Bytes
replacement = 0xef ∷ 0xbf ∷ 0xbd ∷ []

-- A byte at the start of a sequence: what it emits, and the state behind it.
unfoldable pub lead : ℕ → Bytes × Partial
lead b =
    if ltb b 0x80
    then (b ∷ [], idle)
    else if between 0xc2 0xdf b
    then begin b 1 0x80 0xbf
    else if b == 0xe0
    then begin b 2 0xa0 0xbf
    else if b == 0xed
    then begin b 2 0x80 0x9f
    else if between 0xe1 0xef b
    then begin b 2 0x80 0xbf
    else if b == 0xf0
    then begin b 3 0x90 0xbf
    else if between 0xf1 0xf3 b
    then begin b 3 0x80 0xbf
    else if b == 0xf4
    then begin b 3 0x80 0x8f
    else (replacement, idle)

unfoldable pub next : Partial → ℕ → Bytes × Partial
unfolding lead
next p b =
    if p.missing == 0
    then lead b
    else if between p.low p.high b
    then (if p.missing == 1 then (p.pending ++ b ∷ [], idle) else (
      [],
      record { pending = p.pending ++ b ∷ []; missing = p.missing - 1; low = 0x80; high = 0xbf },
    ))
    else (replacement ++ (lead b).0, (lead b).1)

unfoldable pub lossy_from : Partial → Bytes → Bytes
unfolding next
lossy_from p [] = if p.missing == 0 then [] else replacement
lossy_from p (b ∷ bs) = (next p b).0 ++ lossy_from (next p b).1 bs

unfoldable pub from_utf8_lossy : Bytes → Bytes
unfolding lossy_from
from_utf8_lossy = lossy_from idle

-- What every Rust string satisfies: the conversion finds nothing to replace.
abbrev pub IsUtf8 : Bytes → Type 0
IsUtf8 s = from_utf8_lossy s ≡ s
