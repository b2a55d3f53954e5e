-- ===== src/Shortcut/Tiff.antt =====
-- The TIFF parsers of tier1/src/pipeline/shortcut.rs: the embedded JPEG preview of a camera raw file.
-- Offsets come from u32 fields, so no
-- sum or product leaves usize.
pub mod Search
pub mod Preview
pub mod Turns
pub mod Longest
use thumbrella.Base.{
  ℕ, zero, suc, ◌+◌, ◌*◌, ◌%◌, ◌≤◌, Bool, true, false, not, ◌&&◌, ◌||◌, Option, none, some, List,
  [], ◌∷◌, ◌++◌, Bytes, bytes_eq, ◌==◌, ltb, leb, min, if◌then◌else◌, is_some, unwrap_or, any,
  length, take, ◌>>=◌,
}
use thumbrella.Base.Loop.{Step, go, stop, loop}
use thumbrella.Shortcut.Readers.{read_u16, read_u32}

-- The byte order by the first two bytes, `II` or `MM`.
unfoldable pub byte_order : Bytes → Option Bool
byte_order buf =
    if bytes_eq (take 2 buf) (73 ∷ 73 ∷ [])
    then some true
    else if bytes_eq (take 2 buf) (77 ∷ 77 ∷ [])
    then some false
    else none

-- The tests at the head of a TIFF file: eight bytes, the byte order, the number 42, and the offset of
-- the first directory.
unfoldable pub tiff_header : Bytes → Option (Bool × ℕ)
unfolding byte_order read_u16 read_u32
tiff_header buf = if ltb (length buf) 8 then none else do
  little ← byte_order buf
  magic ← read_u16 buf 2 little
  ifd0_off ← if magic == 42 then read_u32 buf 4 little else none
  if ltb (length buf) (ifd0_off + 2) then none else some (little, ifd0_off)

-- `for i in 0..count` over the 12-byte entries of a directory: the loop breaks where an entry does not
-- lie in the buffer, and `none` of the body is a return from the function.
unfoldable pub for_entries {ℓ} : {S : Type ℓ} → Bytes → (ℕ → S → Option S) → ℕ → ℕ → S → Option S
for_entries buf body zero entry s = some s
for_entries buf body (suc rounds) entry s =
    if ltb (length buf) (entry + 12)
    then some s
    else elim (body entry s) [ none ↦ none | some t ↦ for_entries buf body rounds (entry + 12) t ]

-- `(0..count).filter_map(|i| read(v + i * width))`
unfoldable pub read_values : (ℕ → Option ℕ) → ℕ → ℕ → ℕ → List ℕ
read_values read width zero off = []
read_values read width (suc count) off =
    let rest = read_values read width count (off + width) in
    elim (read off) [ none ↦ rest | some v ↦ v ∷ rest ]

unfoldable pub tiff_subifd_offsets : Bytes → ℕ → ℕ → ℕ → Bool → List ℕ
unfolding read_values read_u32
tiff_subifd_offsets buf ft fc v little =
    if fc == 0 || not (ft == 4)
    then []
    else if fc == 1
    then v ∷ []
    else read_values (λ off. read_u32 buf off little) 4 (min fc 32) v

unfoldable pub tiff_u32_values : Bytes → ℕ → ℕ → ℕ → Bool → ℕ → List ℕ
unfolding read_values read_u16 read_u32
tiff_u32_values buf ft fc v little most =
    if min fc most == 0
    then []
    else if ft == 3
    then if fc == 1 then v ∷ [] else read_values (λ off. read_u16 buf off little) 2 (min fc most) v
    else if ft == 4
    then if fc == 1 then v ∷ [] else read_values (λ off. read_u32 buf off little) 4 (min fc most) v
    else []

-- `first().copied()`
abbrev pub first_of : List ℕ → Option ℕ
first_of [] = none
first_of (x ∷ xs) = some x

-- The local variables of `parse_tiff_ifd` that its loop assigns.
pub record IfdFields : Type 0 where
  pub jpeg_off : Option ℕ
  pub jpeg_len : Option ℕ
  pub sub_ifds : List ℕ
  pub compression : Option ℕ
  pub strip_off : Option ℕ
  pub strip_cnt : Option ℕ
  pub tile_off : Option ℕ
  pub tile_cnt : Option ℕ

abbrev pub no_fields : IfdFields
no_fields = record {
  jpeg_off = none;
  jpeg_len = none;
  sub_ifds = [];
  compression = none;
  strip_off = none;
  strip_cnt = none;
  tile_off = none;
  tile_cnt = none;
}

-- The arms of the match on the tag.
unfoldable pub note_tag : Bytes → Bool → ℕ → ℕ → ℕ → ℕ → IfdFields → IfdFields
unfolding tiff_u32_values tiff_subifd_offsets
note_tag buf little tag ft fc v fields =
    let value = first_of (tiff_u32_values buf ft fc v little 1) in
    record {
      jpeg_off = if tag == 513 then some v else fields.jpeg_off;
      jpeg_len = if tag == 514 then some v else fields.jpeg_len;
      sub_ifds =
          if tag == 330
          then fields.sub_ifds ++ tiff_subifd_offsets buf ft fc v little
          else fields.sub_ifds;
      compression = if tag == 259 then some (v % 65536) else fields.compression;
      strip_off = if tag == 273 then value else fields.strip_off;
      strip_cnt = if tag == 279 then value else fields.strip_cnt;
      tile_off = if tag == 324 then value else fields.tile_off;
      tile_cnt = if tag == 325 then value else fields.tile_cnt;
    }

unfoldable pub ifd_entry : Bytes → Bool → ℕ → IfdFields → Option IfdFields
unfolding read_u16 read_u32 note_tag
ifd_entry buf little entry fields = do
  tag ← read_u16 buf entry little
  ft ← read_u16 buf (entry + 2) little
  fc ← read_u32 buf (entry + 4) little
  v ← read_u32 buf (entry + 8) little
  some (note_tag buf little tag ft fc v fields)

-- Both halves, or neither.
abbrev both : Option ℕ → Option ℕ → Option (ℕ × ℕ)
both (some o) (some l) = some (o, l)
both _ _ = none

abbrev first_pair : Option (ℕ × ℕ) → Option (ℕ × ℕ) → Option ℕ × Option ℕ → Option ℕ × Option ℕ
first_pair (some (o, l)) tile jpeg = (some o, some l)
first_pair none (some (o, l)) jpeg = (some o, some l)
first_pair none none jpeg = jpeg

abbrev is_jpeg : Option ℕ → Bool
is_jpeg none = false
is_jpeg (some c) = c == 6 || c == 7

-- An IFD with JPEG compression may use strips or tiles.
unfoldable pub jpeg_span : IfdFields → Option ℕ × Option ℕ
jpeg_span fields =
    if not (is_some fields.jpeg_off && is_some fields.jpeg_len) && is_jpeg fields.compression
    then first_pair (both fields.strip_off fields.strip_cnt) (both fields.tile_off fields.tile_cnt)
        (fields.jpeg_off, fields.jpeg_len)
    else (fields.jpeg_off, fields.jpeg_len)

-- The next directory, the sub-directories, and the offset and length of the JPEG.
unfoldable pub parse_tiff_ifd : Bytes → ℕ → Bool → Option (ℕ × List ℕ × Option ℕ × Option ℕ)
unfolding read_u16 read_u32 for_entries ifd_entry jpeg_span
parse_tiff_ifd buf ifd_off little = if ltb (length buf) (ifd_off + 2) then none else do
  count ← read_u16 buf ifd_off little
  next_ptr_off ←
      (if ltb (length buf) (ifd_off + 2 + count * 12 + 4)
        then none
        else some (ifd_off + 2 + count * 12))
  fields ← for_entries buf (ifd_entry buf little) count (ifd_off + 2) no_fields
  next ← read_u32 buf next_ptr_off little
  let span = jpeg_span fields
  some (next, fields.sub_ifds, span.0, span.1)

-- The offsets that are worth a visit, in order.
unfoldable pub inside : Bytes → List ℕ → List ℕ
inside buf [] = []
inside buf (t ∷ ts) =
    let rest = inside buf ts in if not (t == 0) && leb (t + 2) (length buf) then t ∷ rest else rest

-- A longer preview replaces the best one.
unfoldable pub better : Option (ℕ × ℕ) → Option ℕ → Option ℕ → Option (ℕ × ℕ)
better best (some o) (some l) =
    if leb 4 l && elim best [ none ↦ true | some (o', l') ↦ ltb l' l ] then some (o, l) else best
better best _ _ = best

-- `HashSet::contains`
abbrev pub has : List ℕ → ℕ → Bool
has xs x = any (◌==◌ x) xs

-- One turn of the loop over the queue; the state holds the queue, the offsets visited and the best.
unfoldable pub span_turn :
    Bytes
    → Bool
    → List ℕ × List ℕ × Option (ℕ × ℕ)
    → Step (List ℕ × List ℕ × Option (ℕ × ℕ)) (Option (ℕ × ℕ))
unfolding parse_tiff_ifd inside better
span_turn buf little ([], visited, best) = stop best
span_turn buf little (off ∷ queue, visited, best) =
    if has visited off then go (queue, visited, best) else elim (parse_tiff_ifd buf off little) [
      | none ↦ go (queue, off ∷ visited, best)
      | some (next, subs, joff, jlen) ↦
          go (queue ++ inside buf (next ∷ subs), off ∷ visited, better best joff jlen)
    ]

-- A directory is read once, and puts fewer than 4 · length + 2 offsets in the queue.
unfoldable pub span_fuel : Bytes → ℕ
span_fuel buf = length buf * (4 * length buf + 2) + 2

unfoldable pub find_tiff_embedded_jpeg_span : Bytes → Option (ℕ × ℕ)
unfolding tiff_header loop span_fuel
find_tiff_embedded_jpeg_span buf = do
  (little, ifd0_off) ← tiff_header buf
  loop (span_fuel buf) (span_turn buf little) none (ifd0_off ∷ [], [], none)
