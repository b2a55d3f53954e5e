-- ===== src/Inspect/Sof.antt =====
-- `jpeg_sof_dimensions` of tier1/src/pipeline/inspect.rs: the frame header among the markers of a JPEG.
use thumbrella.Base.{
  ℕ, zero, suc, ◌+◌, ◌-◌, ◌*◌, ◌≤◌, ◌<◌, ◌≡◌, ap, ◌∙◌, inl, inr, not, ◌&&◌, none, some, List, [],
  ◌∷◌, Bytes, ◌==◌, ltb, leb, if◌then◌else◌, length, get_elem?, Option-cases, arith,
}
use thumbrella.Base.Loop.{Step, go, stop, loop, Ends, loop-Ends, Ends-inv}
use thumbrella.Shortcut.Id3.{byte_at}

-- The width, the height and the bits of a pixel, nothing, or the panic of an index out of range.
pub data Scan : Type 0 where
  dimensions : ℕ → ℕ → ℕ → Scan
  no_frame panics : Scan

abbrev pub be_u16 : Bytes → ℕ → ℕ
be_u16 bytes pos = byte_at bytes pos * 256 + byte_at bytes (pos + 1)

-- At a frame header; every access but the one to the count of components is in range.
unfoldable pub frame : Bytes → ℕ → Scan
frame bytes pos = elim (get_elem? bytes (pos + 9)) [
  | none ↦ panics
  | some components ↦
      dimensions (be_u16 bytes (pos + 7)) (be_u16 bytes (pos + 5))
        (components * byte_at bytes (pos + 4))
]

-- One turn of the loop.
unfoldable pub sof_turn : Bytes → ℕ → Step ℕ Scan
unfolding frame
sof_turn bytes pos =
    let marker = byte_at bytes (pos + 1) in
    let seg_len = be_u16 bytes (pos + 2) in
    if not (ltb (pos + 8) (length bytes))
    then stop no_frame
    else if not (byte_at bytes pos == 255)
    then stop no_frame
    else if marker == 0
    then go (pos + 2)
    else if leb 192 marker && leb marker 194
    then stop (frame bytes pos)
    else if marker == 218
    then stop no_frame
    else if ltb (length bytes) (pos + 4)
    then stop no_frame
    else if ltb seg_len 2
    then stop no_frame
    else go (pos + (2 + seg_len))

-- Each turn goes on in the buffer, so its length is enough.
unfoldable pub jpeg_sof_dimensions : Bytes → Scan
unfolding sof_turn loop
jpeg_sof_dimensions bytes = loop (suc (length bytes)) (sof_turn bytes) no_frame 2

turn_on :
    (bytes : Bytes) (pos t : ℕ) → sof_turn bytes pos ≡ go t → (pos < t) × (pos + 8 < length bytes)
unfolding sof_turn
turn_on bytes pos t e = ground arith

jpeg_sof_dimensions-Ends : (bytes : Bytes) → Ends (sof_turn bytes) 2 (jpeg_sof_dimensions bytes)
unfolding jpeg_sof_dimensions
jpeg_sof_dimensions-Ends bytes =
    loop-Ends (sof_turn bytes) (λ pos. Unit) (λ pos. length bytes - pos)
      (λ s t p e. let (on, inside) = turn_on bytes s t e in (tt, omega (arith, on, inside)))
      (suc (length bytes)) no_frame 2 tt (omega arith)

-- A panic: the frame header begins nine bytes before the end of the buffer.
pub record Cut (bytes : Bytes) : Type 0 where
  pub pos : ℕ
  pub size : length bytes ≡ pos + 9
  pub mark : byte_at bytes pos ≡ 255
  pub least : 192 ≤ byte_at bytes (pos + 1)
  pub most : byte_at bytes (pos + 1) ≤ 194

missing : {A : Type 0} (xs : List A) (i : ℕ) → get_elem? xs i ≡ none → length xs ≤ i
missing [] i e = omega arith
missing (x ∷ xs) zero e = absurd (some-none e)
  where
    some-none : {A : Type 0} {a : A} → some a ≡ none → ⊥
    some-none h = ground arith
missing (x ∷ xs) (suc i) e = omega (arith, missing xs i e)

frame_panics :
    (bytes : Bytes) (pos : ℕ) → frame bytes pos ≡ panics → get_elem? bytes (pos + 9) ≡ none
unfolding frame
frame_panics bytes pos e = elim (Option-cases (get_elem? bytes (pos + 9))) [
  | inl short ↦ short
  | inr (components, there) ↦ absurd (told components there e)
]
  where
    told :
        (components : ℕ)
        → get_elem? bytes (pos + 9) ≡ some components
        → frame bytes pos ≡ panics
        → ⊥
    told components there e = ground arith

turn_panics :
    (bytes : Bytes) (pos : ℕ)
    → sof_turn bytes pos ≡ stop panics
    → (pos + 8 < length bytes)
      × (byte_at bytes pos ≡ 255)
      × (192 ≤ byte_at bytes (pos + 1))
      × (byte_at bytes (pos + 1) ≤ 194)
      × (frame bytes pos ≡ panics)
unfolding sof_turn
turn_panics bytes pos e = ground arith

-- The scan of every buffer ends, with what its turns give; and it reads past the end only where a
-- frame header begins exactly nine bytes before the end: the count of components is then missing.
pub jpeg_sof_dimensions-Cut :
    (bytes : Bytes)
    → Ends (sof_turn bytes) 2 (jpeg_sof_dimensions bytes)
      × (jpeg_sof_dimensions bytes ≡ panics → Cut bytes)
jpeg_sof_dimensions-Cut bytes = (jpeg_sof_dimensions-Ends bytes, cut)
  where
    cut : jpeg_sof_dimensions bytes ≡ panics → Cut bytes
    cut e =
        let (pos, kept, last) =
          Ends-inv {0, 0} (sof_turn bytes) (λ pos. Unit {0}) (λ s t p e. tt)
            (jpeg_sof_dimensions-Ends bytes) tt in
        let (inside, mark, least, most, short) = turn_panics bytes pos (last ∙ ap stop e) in
        let end = missing bytes (pos + 9) (frame_panics bytes pos short) in
        record {
          pos = pos;
          size = omega (arith, inside, end);
          mark = mark;
          least = least;
          most = most;
        }
