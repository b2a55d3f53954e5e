-- ===== src/Shortcut/Id3.antt =====
-- The cover art of an audio file in tier1/src/pipeline/shortcut.rs: the ID3v2 header, its frames, and
-- the APIC frame. Sizes are 28 or 32 bits wide, so no sum leaves usize.
pub mod Apic
pub mod Frames
pub mod Cover
use thumbrella.Base.{
  ℕ, zero, suc, ◌+◌, ◌-◌, ◌*◌, ◌/◌, ◌%◌, Bool, true, false, not, ◌&&◌, ◌||◌, Option, none, some, [],
  ◌∷◌, Bytes, bytes_eq, ◌==◌, ltb, leb, min, if◌then◌else◌, length, take, drop, get_elem?,
  unwrap_or, ◌>>=◌,
}
use thumbrella.Base.Loop.{Step, go, stop, loop}
use thumbrella.Shortcut.Readers.{slice}

-- `bytes.get(i).copied().unwrap_or(0)`
abbrev pub byte_at : Bytes → ℕ → ℕ
byte_at buf i = unwrap_or (get_elem? buf i) 0

-- The shifted fields do not overlap, so that their bitwise or is the sum; `& 0x7F` keeps seven bits.
unfoldable pub synchsafe_u32 : Bytes → ℕ
synchsafe_u32 buf =
    byte_at buf 0 % 128 * 2097152
    + byte_at buf 1 % 128 * 16384
    + byte_at buf 2 % 128 * 128
    + byte_at buf 3 % 128

unfoldable pub be_u32 : Bytes → ℕ
be_u32 buf = byte_at buf 0 * 16777216 + byte_at buf 1 * 65536 + byte_at buf 2 * 256 + byte_at buf 3

pub record Id3Header : Type 0 where
  pub version_major : ℕ
  pub tag_size : ℕ
  pub has_extended_header : Bool
  pub has_footer : Bool

unfoldable pub parse_id3_header : Bytes → Option Id3Header
unfolding synchsafe_u32
parse_id3_header buf =
    if ltb (length buf) 10
    then none
    else if not (bytes_eq (take 3 buf) (73 ∷ 68 ∷ 51 ∷ []))
    then none
    else if ltb (byte_at buf 3) 3
    then none
    else some (record {
      version_major = byte_at buf 3;
      tag_size = synchsafe_u32 (slice buf 6 10);
      has_extended_header = byte_at buf 5 / 64 % 2 == 1;
      has_footer = leb 4 (byte_at buf 3) && byte_at buf 5 / 16 % 2 == 1;
    })

abbrev pub is_ascii_uppercase : ℕ → Bool
is_ascii_uppercase c = leb 65 c && leb c 90

abbrev pub is_ascii_alphanumeric : ℕ → Bool
is_ascii_alphanumeric c = leb 48 c && leb c 57 || leb 65 c && leb c 90 || leb 97 c && leb c 122

unfoldable pub is_valid_frame_id : Bytes → Bool
is_valid_frame_id id =
    length id == 4
    && is_ascii_uppercase (byte_at id 0)
    && is_ascii_alphanumeric (byte_at id 1)
    && is_ascii_uppercase (byte_at id 1)
    && is_ascii_alphanumeric (byte_at id 2)
    && is_ascii_uppercase (byte_at id 2)
    && is_ascii_alphanumeric (byte_at id 3)

-- The rest of the data behind the terminating null: one byte (`position`), or two of them at a distance
-- from the start that is even.
unfoldable pub behind_null : Bytes → Option Bytes
behind_null [] = none
behind_null (c ∷ cs) = let rest = behind_null cs in if c == 0 then some cs else rest

unfoldable pub behind_wide_null : Bytes → Option Bytes
behind_wide_null (c ∷ d ∷ cs) =
    let rest = behind_wide_null cs in if c == 0 && d == 0 then some cs else rest
behind_wide_null _ = none

-- The terminator depends on the text encoding: UTF-16 for 1 and 2.
unfoldable pub behind_text : ℕ → Bytes → Option Bytes
unfolding behind_null behind_wide_null
behind_text encoding buf =
    if encoding == 1 || encoding == 2 then behind_wide_null buf else behind_null buf

-- The MIME type, the picture type, the description, and the image, which must not be empty.
unfoldable pub extract_apic_image : Bytes → Option Bytes
unfolding behind_text
extract_apic_image apic_data = if ltb (length apic_data) 4 then none else do
  let encoding = byte_at apic_data 0
  behind_mime ← behind_text encoding (drop 1 apic_data)
  desc ← if ltb (length behind_mime) 2 then none else some (drop 1 behind_mime)
  image ← behind_text encoding desc
  if length image == 0 then none else some image

abbrev pub apic_id : Bytes
apic_id = 65 ∷ 80 ∷ 73 ∷ 67 ∷ []

-- One turn of the loop of `find_id3_apic` at the position of a frame.
unfoldable pub frame_turn : Bytes → ℕ → ℕ → Step ℕ (Option Bytes)
unfolding is_valid_frame_id synchsafe_u32 be_u32 extract_apic_image
frame_turn buf version_major pos =
    if ltb (length buf) (pos + 10)
    then stop none
    else if not (is_valid_frame_id (slice buf pos (pos + 4)))
    then stop none
    else let size_field = slice buf (pos + 4) (pos + 8) in
      let frame_size =
        if leb 4 version_major then synchsafe_u32 size_field else be_u32 size_field in
      let data_start = pos + 10 in
      if bytes_eq (slice buf pos (pos + 4)) apic_id
      then stop
          (extract_apic_image (slice buf data_start (min (data_start + frame_size) (length buf))))
      else go (data_start + frame_size)

-- Each turn goes at least ten bytes on.
unfoldable pub find_id3_apic : Bytes → ℕ → Option Bytes
unfolding parse_id3_header synchsafe_u32 loop frame_turn
find_id3_apic buf version_major = do
  id3 ← parse_id3_header buf
  pos ←
      (if id3.has_extended_header
        then if ltb (length buf) 14 then none else some (10 + synchsafe_u32 (slice buf 10 14))
        else some 10)
  loop (suc (length buf)) (frame_turn buf version_major) none pos
