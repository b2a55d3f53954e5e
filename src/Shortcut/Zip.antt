-- ===== src/Shortcut/Zip.antt =====
-- The ZIP container shortcut of tier1/src/pipeline/shortcut.rs: the end record, the central directory
-- and the local header. Lengths and offsets come from u16 and u32 fields, so no sum leaves usize. The
-- DEFLATE decoder is third-party code.
pub mod Extract
pub mod Directory
pub mod First
use thumbrella.Base.{
  ℕ, zero, suc, ◌+◌, ◌-◌, ◌≤◌, ◌<◌, Bool, true, false, not, ◌&&◌, ◌||◌, Option, none, some, List,
  [], ◌∷◌, ◌++◌, Bytes, ascii, bytes_eq, ◌==◌, ltb, leb, min, if◌then◌else◌, is_some, ◌>>=◌, any,
  length, take, drop, is_empty,
}
use thumbrella.Base.Loop.{Step, go, stop, loop}
use thumbrella.Base.Decimal.{parse_decimal}
use thumbrella.Shortcut.Readers.{slice, starts_with, zip_u16, zip_u32}

pub record ZipEntry : Type 0 where
  pub local_offset : ℕ
  pub comp_size : ℕ
  pub uncomp_size : ℕ
  pub method : ℕ

pub record ZipDir : Type 0 where
  pub thumb : Option ZipEntry
  pub content_xml_uncomp : Option ℕ
  pub meta_xml : Option ZipEntry

-- The signatures `PK\x05\x06`, `PK\x01\x02` and `PK\x03\x04`.
abbrev pub end_mark : Bytes
end_mark = 80 ∷ 75 ∷ 5 ∷ 6 ∷ []

abbrev pub entry_mark : Bytes
entry_mark = 80 ∷ 75 ∷ 1 ∷ 2 ∷ []

abbrev pub local_mark : Bytes
local_mark = 80 ∷ 75 ∷ 3 ∷ 4 ∷ []

abbrev pub thumb_names : List Bytes
thumb_names =
    ascii "Thumbnails/thumbnail.png"
    ∷ ascii "docProps/thumbnail.jpeg"
    ∷ ascii "docProps/thumbnail.jpg"
    ∷ ascii "docProps/thumbnail.png"
    ∷ []

-- The loop of `zip_find_eocd`, from the index `i` downwards.
unfoldable pub find_back : Bytes → ℕ → ℕ → Option ℕ
find_back buf zero i = none
find_back buf (suc rounds) i =
    let rest = find_back buf rounds (i - 1) in
    if starts_with (drop i buf) end_mark then some i else rest

unfoldable pub zip_find_eocd : Bytes → Option ℕ
unfolding find_back
zip_find_eocd buf =
    let scan_start = length buf - (22 + 65535) in
    let scan_end = length buf - 22 in find_back buf (scan_end - scan_start + 1) scan_end

abbrev pub empty_dir : ZipDir
empty_dir = record { thumb = none; content_xml_uncomp = none; meta_xml = none }

abbrev pub or_else {ℓ} : {A : Type ℓ} → Option A → Bool → A → Option A
or_else (some a) test b = some a
or_else none test b = if test then some b else none

-- What one entry adds to the findings; the first of each kind counts. A name that is not UTF-8 counts
-- as empty, which is none of the names that are looked for.
unfoldable pub note_entry : ZipDir → Bytes → ZipEntry → ZipDir
note_entry dir fname entry = record {
  thumb = or_else dir.thumb (any (bytes_eq fname) thumb_names) entry;
  content_xml_uncomp =
      or_else dir.content_xml_uncomp (bytes_eq fname (ascii "content.xml")) entry.uncomp_size;
  meta_xml = or_else dir.meta_xml (bytes_eq fname (ascii "meta.xml")) entry;
}

-- The fields of the entry whose fixed part begins at `cd[pos]`.
unfoldable pub entry_at : Bytes → ℕ → ZipEntry
unfolding zip_u16 zip_u32
entry_at cd pos = record {
  local_offset = zip_u32 cd (pos + 42);
  comp_size = zip_u32 cd (pos + 20);
  uncomp_size = zip_u32 cd (pos + 24);
  method = zip_u16 cd (pos + 10);
}

-- One turn of the loop of `zip_scan_dir`.
unfoldable pub dir_turn : Bytes → ℕ × ZipDir → Step (ℕ × ZipDir) ZipDir
dir_turn cd (pos, dir) =
    if ltb (length cd) (pos + 46)
    then stop dir
    else if not (bytes_eq (slice cd pos (pos + 4)) entry_mark)
    then stop dir
    else let fname_len = zip_u16 cd (pos + 28) in
      let name_end = pos + 46 + fname_len in
      go (
        pos + (46 + fname_len + zip_u16 cd (pos + 30) + zip_u16 cd (pos + 32)),
        if leb name_end (length cd)
            then note_entry dir (slice cd (pos + 46) name_end) (entry_at cd pos)
            else dir,
      )

-- Each turn goes at least 46 bytes on.
unfoldable pub zip_scan_dir : Bytes → ZipDir
unfolding loop dir_turn note_entry entry_at
zip_scan_dir cd = loop (suc (length cd)) (dir_turn cd) empty_dir (0, empty_dir)

unfoldable pub zip_scan_dir_entry : Bytes → ℕ → Option ZipDir
unfolding zip_find_eocd zip_scan_dir
zip_scan_dir_entry tail tail_start = elim (zip_find_eocd tail) [
  | none ↦ none
  | some eocd ↦
      if ltb (length tail) (eocd + 22)
      then none
      else let cd_size = zip_u32 tail (eocd + 12) in
        let cd_offset = zip_u32 tail (eocd + 16) in
        if ltb cd_offset tail_start
        then none
        else let cd_in_tail = cd_offset - tail_start in
          if ltb (length tail) (cd_in_tail + cd_size)
          then none
          else some (zip_scan_dir (slice tail cd_in_tail (cd_in_tail + cd_size)))
]

unfoldable pub zip_extract_from_buffer :
    (Bytes → Option Bytes) → Bytes → ZipEntry → ℕ → Option Bytes
unfolding zip_u16
zip_extract_from_buffer inflate buf entry buf_start =
    if ltb entry.local_offset buf_start
    then none
    else let lh_off = entry.local_offset - buf_start in
      if ltb (length buf) (lh_off + 30)
      then none
      else let lh = drop lh_off buf in
        if not (bytes_eq (take 4 lh) local_mark)
        then none
        else let data_off = lh_off + (30 + zip_u16 lh 26 + zip_u16 lh 28) in
          let data_end = data_off + entry.comp_size in
          if ltb (length buf) data_end
          then none
          else let compressed = slice buf data_off data_end in
            if entry.method == 0
            then some compressed
            else if entry.method == 8
            then inflate compressed
            else none

-- `str::find`, then what stands behind what was found.
unfoldable pub find_behind : Bytes → Bytes → Option Bytes
find_behind needle [] = if is_empty needle then some [] else none
find_behind needle (c ∷ cs) =
    let rest = find_behind needle cs in
    if starts_with (c ∷ cs) needle then some (drop (length needle) (c ∷ cs)) else rest

-- The text up to the first quote.
unfoldable pub up_to_quote : Bytes → Option Bytes
up_to_quote [] = none
up_to_quote (c ∷ cs) =
    let rest = up_to_quote cs in
    if c == 34 then some [] else elim rest [ none ↦ none | some t ↦ some (c ∷ t) ]

-- A text that is not UTF-8 has no count; `is_utf8` is the standard library's test.
unfoldable pub odt_meta_page_count : (Bytes → Bool) → Bytes → Option ℕ
unfolding find_behind up_to_quote parse_decimal
odt_meta_page_count is_utf8 xml = if not (is_utf8 xml) then none else do
  rest ← find_behind (ascii "page-count=\"") xml
  digits ← up_to_quote rest
  parse_decimal 4294967295 digits
