-- ===== src/Shortcut/Ifd0.antt =====
-- What tier1/src/pipeline/shortcut.rs reads of the first directory (IFD0) of a TIFF file: orientation,
-- dimensions, and where the second directory is.
use thumbrella.Base.{
  ℕ, zero, suc, ◌+◌, ◌*◌, Bool, ◌&&◌, Option, none, some, Bytes, ◌==◌, ltb, if◌then◌else◌,
  unwrap_or, length, ◌>>=◌,
}
use thumbrella.Shortcut.Readers.{read_u16, read_u32}
use thumbrella.Shortcut.Tiff.{tiff_header}

unfoldable find_orientation : Bytes → Bool → ℕ → ℕ → ℕ
unfolding read_u16
find_orientation buf little zero entry = 1
find_orientation buf little (suc rounds) entry =
    let rest = find_orientation buf little rounds (entry + 12) in
    if ltb (length buf) (entry + 12) then 1 else elim (read_u16 buf entry little) [
      | none ↦ 1
      | some tag ↦ if tag == 274 then unwrap_or (read_u16 buf (entry + 8) little) 1 else rest
    ]

unfoldable pub tiff_ifd0_orientation : Bytes → Bool → ℕ
unfolding read_u16 read_u32 find_orientation
tiff_ifd0_orientation buf little = elim (read_u32 buf 4 little) [
  | none ↦ 1
  | some ifd0_off ↦ elim (read_u16 buf ifd0_off little) [
    | none ↦ 1
    | some count ↦ find_orientation buf little count (ifd0_off + 2)
  ]
]

abbrev pub both_positive : Option ℕ → Option ℕ → Option (ℕ × ℕ)
both_positive (some w) (some h) = if ltb 0 w && ltb 0 h then some (w, h) else none
both_positive _ _ = none

-- The loop of `tiff_ifd0_dimensions`; it ends where an entry cannot be read.
unfoldable find_dimensions : Bytes → Bool → ℕ → ℕ → Option ℕ × Option ℕ → Option ℕ × Option ℕ
unfolding read_u16 read_u32
find_dimensions buf little zero entry dims = dims
find_dimensions buf little (suc rounds) entry (width, height) =
    if ltb (length buf) (entry + 12) then (width, height) else elim (read_u16 buf entry little) [
      | none ↦ (width, height)
      | some tag ↦
          let val = read_u32 buf (entry + 8) little in
          find_dimensions buf little rounds (entry + 12)
            (if tag == 256 then val else width, if tag == 257 then val else height)
    ]

unfoldable pub tiff_ifd0_dimensions : Bytes → Bool → Option (ℕ × ℕ)
unfolding read_u16 read_u32 find_dimensions
tiff_ifd0_dimensions buf little = do
  ifd0_off ← read_u32 buf 4 little
  count ← read_u16 buf ifd0_off little
  let dims = find_dimensions buf little count (ifd0_off + 2) (none, none)
  both_positive dims.0 dims.1

unfoldable pub tiff_endian_and_ifd1_offset : Bytes → Option (Bool × ℕ)
unfolding tiff_header read_u16 read_u32
tiff_endian_and_ifd1_offset buf = do
  (little, ifd0_off) ← tiff_header buf
  count ← read_u16 buf ifd0_off little
  next_ptr_off ←
      (if ltb (length buf) (ifd0_off + 2 + count * 12 + 4)
        then none
        else some (ifd0_off + 2 + count * 12))
  ifd1_off ← read_u32 buf next_ptr_off little
  if ifd1_off == 0 then none else some (little, ifd1_off)
