-- ===== src/Shortcut/Exif.antt =====
-- The EXIF thumbnail of a JPEG, a PNG or a TIFF in tier1/src/pipeline/shortcut.rs, and the size that a
-- WebP header gives. Offsets come from u16 and u32 fields, so no sum leaves usize.
use thumbrella.Base.{
  ℕ, suc, ◌+◌, ◌*◌, ◌/◌, ◌%◌, Bool, false, not, ◌&&◌, ◌||◌, Option, none, some, [], ◌∷◌, Bytes,
  ascii, bytes_eq, ◌==◌, ltb, leb, min, if◌then◌else◌, length, drop, unwrap_or, ◌>>=◌,
}
use thumbrella.Base.Loop.{Step, go, stop, loop}
use thumbrella.Shortcut.Readers.{slice, starts_with, read_u16, read_u32, u16_of}
use thumbrella.Shortcut.Id3.{byte_at, be_u32}
use thumbrella.Shortcut.Ifd0.{both_positive}
use thumbrella.Shortcut.Tiff.{tiff_header, for_entries}

pub record JpegExifShortcutInfo : Type 0 where
  pub thumb_file_offset : ℕ
  pub thumb_len : ℕ
  pub source_dims : Option (ℕ × ℕ)

unfoldable pub tiff_scalar : Bytes → ℕ → ℕ → Bool → Option ℕ
unfolding read_u16 read_u32
tiff_scalar buf field_type off little =
    if field_type == 3
    then read_u16 buf off little
    else if field_type == 4
    then read_u32 buf off little
    else none

-- The width, the height and the offset of the Exif directory that IFD0 names.
pub record Ifd0Fields : Type 0 where
  pub ifd0_width : Option ℕ
  pub ifd0_height : Option ℕ
  pub exif_ifd_off : Option ℕ

unfoldable pub ifd0_entry : Bytes → Bool → ℕ → Ifd0Fields → Option Ifd0Fields
unfolding read_u16 read_u32 tiff_scalar
ifd0_entry tiff little entry fields = do
  tag ← read_u16 tiff entry little
  ft ← read_u16 tiff (entry + 2) little
  let value = tiff_scalar tiff ft (entry + 8) little
  some (record {
    ifd0_width = if tag == 256 then value else fields.ifd0_width;
    ifd0_height = if tag == 257 then value else fields.ifd0_height;
    exif_ifd_off = if tag == 34665 then read_u32 tiff (entry + 8) little else fields.exif_ifd_off;
  })

-- `PixelXDimension` and `PixelYDimension`.
unfoldable pub exif_entry : Bytes → Bool → ℕ → Option ℕ × Option ℕ → Option (Option ℕ × Option ℕ)
unfolding read_u16 tiff_scalar
exif_entry tiff little entry (px_width, px_height) =
    let tag = unwrap_or (read_u16 tiff entry little) 0 in
    let ft = unwrap_or (read_u16 tiff (entry + 2) little) 0 in
    let value = tiff_scalar tiff ft (entry + 8) little in
    some (if tag == 40962 then value else px_width, if tag == 40963 then value else px_height)

abbrev pub or : Option ℕ → Option ℕ → Option ℕ
or none b = b
or (some a) b = some a

unfoldable pub exif_dims : Bytes → Bool → Option ℕ → Option ℕ × Option ℕ
unfolding for_entries exif_entry read_u16
exif_dims tiff little none = (none, none)
exif_dims tiff little (some exif_off) =
    if ltb (length tiff) (exif_off + 2)
    then (none, none)
    else elim (read_u16 tiff exif_off little) [
      | none ↦ (none, none)
      | some n ↦
          unwrap_or (for_entries tiff (exif_entry tiff little) n (exif_off + 2) (none, none))
            (none, none)
    ]

-- `JPEGInterchangeFormat` and its length, of IFD1.
unfoldable pub ifd1_entry : Bytes → Bool → ℕ → Option ℕ × Option ℕ → Option (Option ℕ × Option ℕ)
unfolding read_u16 read_u32
ifd1_entry tiff little entry (jpeg_off, jpeg_len) = do
  tag ← read_u16 tiff entry little
  let value = read_u32 tiff (entry + 8) little
  some (if tag == 513 then value else jpeg_off, if tag == 514 then value else jpeg_len)

-- Fewer than four bytes are no thumbnail.
abbrev pub if_long : ℕ → JpegExifShortcutInfo → Option JpegExifShortcutInfo
if_long len info = if ltb len 4 then none else some info

unfoldable pub parse_tiff_exif_thumbnail : Bytes → ℕ → Option JpegExifShortcutInfo
unfolding tiff_header read_u16 read_u32 for_entries ifd0_entry exif_dims ifd1_entry
parse_tiff_exif_thumbnail tiff tiff_file_offset = do
  (little, ifd0_off) ← tiff_header tiff
  ifd0_count ← read_u16 tiff ifd0_off little
  fields ←
      for_entries tiff (ifd0_entry tiff little) ifd0_count (ifd0_off + 2)
        (record { ifd0_width = none; ifd0_height = none; exif_ifd_off = none })
  let px = exif_dims tiff little fields.exif_ifd_off
  ifd1_off ← read_u32 tiff (ifd0_off + 2 + ifd0_count * 12) little
  ifd1_count ←
      (if ifd1_off == 0 || ltb (length tiff) (ifd1_off + 2)
        then none
        else read_u16 tiff ifd1_off little)
  jpeg ← for_entries tiff (ifd1_entry tiff little) ifd1_count (ifd1_off + 2) (none, none)
  off ← jpeg.0
  len ← jpeg.1
  if_long len (record {
    thumb_file_offset = tiff_file_offset + off;
    thumb_len = len;
    source_dims = both_positive (or px.0 fields.ifd0_width) (or px.1 fields.ifd0_height);
  })

unfoldable pub parse_exif_shortcut_info : Bytes → ℕ → Option JpegExifShortcutInfo
unfolding parse_tiff_exif_thumbnail
parse_exif_shortcut_info app1_data app1_file_offset =
    if starts_with app1_data (69 ∷ 120 ∷ 105 ∷ 102 ∷ 0 ∷ 0 ∷ [])
    then parse_tiff_exif_thumbnail (drop 6 app1_data) (app1_file_offset + 6)
    else none

-- `while pos < bytes.len() && bytes[pos] == 0xFF`
unfoldable pub skip_fill : Bytes → ℕ → ℕ
skip_fill [] pos = pos
skip_fill (c ∷ cs) pos = let rest = skip_fill cs (pos + 1) in if c == 255 then rest else pos

-- What follows the marker and its length field at `pos`.
unfoldable pub segment_turn : Bytes → ℕ → ℕ → Step ℕ (Option JpegExifShortcutInfo)
unfolding parse_exif_shortcut_info
segment_turn buf marker pos = elim (u16_of false (drop pos buf)) [
  | none ↦ stop none
  | some seg_len ↦
      if ltb seg_len 2
      then stop none
      else let next = if marker == 218 then stop none else go (pos + seg_len) in
        if marker == 225
        then elim (parse_exif_shortcut_info (slice buf (pos + 2) (min (pos + seg_len) (length buf)))
            (pos + 2)) [ none ↦ next | some info ↦ stop (some info) ]
        else next
]

-- One turn of the loop of `find_jpeg_exif_shortcut`.
unfoldable pub marker_turn : Bytes → ℕ → Step ℕ (Option JpegExifShortcutInfo)
unfolding skip_fill segment_turn
marker_turn buf pos =
    if ltb (length buf) (pos + 4)
    then stop none
    else if not (byte_at (drop pos buf) 0 == 255)
    then go (pos + 1)
    else let after = skip_fill (drop pos buf) pos in
      let marker = byte_at (drop after buf) 0 in
      if leb (length buf) after
      then stop none
      else if marker == 217
      then stop none
      else if marker == 1 || leb 208 marker && leb marker 217
      then go (after + 1)
      else segment_turn buf marker (after + 1)

unfoldable pub find_jpeg_exif_shortcut : Bytes → Option JpegExifShortcutInfo
unfolding loop marker_turn
find_jpeg_exif_shortcut buf =
    if ltb (length buf) 4 || not (starts_with buf (255 ∷ 216 ∷ []))
    then none
    else loop (suc (length buf)) (marker_turn buf) none 2

abbrev pub png_sig : Bytes
png_sig = 137 ∷ 80 ∷ 78 ∷ 71 ∷ 13 ∷ 10 ∷ 26 ∷ 10 ∷ []

-- One turn of the loop of `find_png_exif_shortcut`.
unfoldable pub chunk_turn : Bytes → ℕ → Step ℕ (Option JpegExifShortcutInfo)
unfolding be_u32 parse_tiff_exif_thumbnail
chunk_turn buf pos =
    if ltb (length buf) (pos + 12)
    then stop none
    else let chunk_len = be_u32 (slice buf pos (pos + 4)) in
      let chunk_type = slice buf (pos + 4) (pos + 8) in
      let data_start = pos + 8 in
      if bytes_eq chunk_type (ascii "eXIf")
      then stop (
          parse_tiff_exif_thumbnail
            (slice buf data_start (min (data_start + chunk_len) (length buf))) data_start)
      else if bytes_eq chunk_type (ascii "IDAT") || bytes_eq chunk_type (ascii "IEND")
      then stop none
      else go (pos + (8 + chunk_len + 4))

unfoldable pub find_png_exif_shortcut : Bytes → Option JpegExifShortcutInfo
unfolding loop chunk_turn
find_png_exif_shortcut buf =
    if starts_with buf png_sig then loop (suc (length buf)) (chunk_turn buf) none 8 else none

-- Two sizes that are at least `least`.
abbrev at_least : ℕ → ℕ → ℕ → Option (ℕ × ℕ)
at_least least w h = if leb least w && leb least h then some (w, h) else none

unfoldable pub webp_dimensions : Bytes → Option (ℕ × ℕ)
webp_dimensions buf =
    let at = byte_at buf in
    let chunk = slice buf 12 16 in
    let bits = at 21 + at 22 * 256 + at 23 * 65536 + at 24 * 16777216 in
    if ltb (length buf) 30
      || not (starts_with buf (ascii "RIFF"))
      || not (bytes_eq (slice buf 8 12) (ascii "WEBP"))
    then none
    else if bytes_eq chunk (ascii "VP8 ")
    then at_least 1 ((at 26 + at 27 * 256) % 16384) ((at 28 + at 29 * 256) % 16384)
    else if bytes_eq chunk (ascii "VP8L")
    then at_least 2 (bits % 16384 + 1) (bits / 16384 % 16384 + 1)
    else if bytes_eq chunk (ascii "VP8X")
    then at_least 2 (at 24 + at 25 * 256 + at 26 * 65536 + 1)
        (at 27 + at 28 * 256 + at 29 * 65536 + 1)
    else none
