-- ===== src/Shortcut/Mp3.antt =====
-- The MP3 frame header of tier1/src/pipeline/shortcut.rs.
pub mod Bounds
use thumbrella.Base.{
  ℕ, zero, suc, ◌+◌, ◌-◌, ◌*◌, ◌/◌, ◌%◌, Bool, true, false, not, ◌&&◌, Option, none, some, List, [],
  ◌∷◌, Bytes, ◌==◌, ltb, leb, min, if◌then◌else◌, length, take, drop, get_elem?, ◌>>=◌,
}
use thumbrella.Shortcut.Id3.{byte_at}
use thumbrella.Shortcut.Readers.{u32_of}

pub record Mp3FrameInfo : Type 0 where
  pub bitrate : ℕ
  pub sample_rate : ℕ
  pub channel_mode : ℕ

unfoldable pub channel_count : Mp3FrameInfo → ℕ
channel_count info = if info.channel_mode == 3 then 1 else 2

abbrev pub mpeg1_layer3_bitrate : List ℕ
mpeg1_layer3_bitrate =
    0 ∷ 32 ∷ 40 ∷ 48 ∷ 56 ∷ 64 ∷ 80 ∷ 96 ∷ 112 ∷ 128 ∷ 160 ∷ 192 ∷ 224 ∷ 256 ∷ 320 ∷ 0 ∷ []

abbrev pub mpeg2_layer3_bitrate : List ℕ
mpeg2_layer3_bitrate =
    0 ∷ 8 ∷ 16 ∷ 24 ∷ 32 ∷ 40 ∷ 48 ∷ 56 ∷ 64 ∷ 80 ∷ 96 ∷ 112 ∷ 128 ∷ 144 ∷ 160 ∷ 0 ∷ []

-- `MPEG25_LAYER3_BITRATE` has the same entries.
abbrev pub mpeg25_layer3_bitrate : List ℕ
mpeg25_layer3_bitrate =
    0 ∷ 8 ∷ 16 ∷ 24 ∷ 32 ∷ 40 ∷ 48 ∷ 56 ∷ 64 ∷ 80 ∷ 96 ∷ 112 ∷ 128 ∷ 144 ∷ 160 ∷ 0 ∷ []

abbrev pub mpeg1_sample_rate : List ℕ
mpeg1_sample_rate = 44100 ∷ 48000 ∷ 32000 ∷ 0 ∷ []

abbrev pub mpeg2_sample_rate : List ℕ
mpeg2_sample_rate = 22050 ∷ 24000 ∷ 16000 ∷ 0 ∷ []

abbrev pub mpeg25_sample_rate : List ℕ
mpeg25_sample_rate = 11025 ∷ 12000 ∷ 8000 ∷ 0 ∷ []

-- The choice by the version: 3 is MPEG1, 2 is MPEG2, and the others count as MPEG2.5.
abbrev pub by_version {ℓ} : {A : Type ℓ} → ℕ → A → A → A → A
by_version version mpeg1 mpeg2 mpeg25 =
    if version == 3 then mpeg1 else if version == 2 then mpeg2 else mpeg25

-- A bitrate of 0 is "free", which cannot be estimated from.
abbrev pub if_positive : ℕ → Mp3FrameInfo → Option Mp3FrameInfo
if_positive bitrate info = if bitrate == 0 then none else some info

-- The fields of the 32 bits, by shifts and masks.
unfoldable pub frame_info : ℕ → Option Mp3FrameInfo
frame_info hdr =
    if not (hdr / 2097152 == 2047) then none else if not (hdr / 131072 % 4 == 1) then none else do
      let version = hdr / 524288 % 4
      bitrate ←
          get_elem?
            (by_version version mpeg1_layer3_bitrate mpeg2_layer3_bitrate mpeg25_layer3_bitrate)
            (hdr / 4096 % 16)
      sample_rate ←
          get_elem? (by_version version mpeg1_sample_rate mpeg2_sample_rate mpeg25_sample_rate)
            (hdr / 1024 % 4)
      if_positive bitrate (record {
        bitrate = bitrate * 1000;
        sample_rate = sample_rate;
        channel_mode = hdr / 64 % 4;
      })

-- A buffer of fewer than four bytes has no header.
unfoldable pub parse_mp3_frame_header : Bytes → Option Mp3FrameInfo
unfolding frame_info
parse_mp3_frame_header buf = do hdr ← u32_of false buf; frame_info hdr

-- The loop of `parse_first_mp3_frame` over the rest of the buffer. `& 0xE0` of a byte is 0xE0 when the
-- byte is at least 224.
unfoldable pub find_frame : ℕ → Bytes → Option Mp3FrameInfo
unfolding parse_mp3_frame_header
find_frame zero buf = none
find_frame (suc rounds) buf =
    let rest = find_frame rounds (drop 1 buf) in
    if byte_at buf 0 == 255 && leb 224 (byte_at buf 1)
    then elim (parse_mp3_frame_header buf) [ none ↦ rest | some info ↦ some info ]
    else rest

unfoldable pub parse_first_mp3_frame : Bytes → Option Mp3FrameInfo
unfolding find_frame
parse_first_mp3_frame buf = find_frame (min (length buf) 2048 - 1) buf
