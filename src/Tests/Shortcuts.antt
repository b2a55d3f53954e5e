-- ===== src/Tests/Shortcuts.antt =====
-- The parsers of tier1/src/pipeline/shortcut.rs on small files.
use thumbrella.Base.{
  ℕ, ◌<◌, ◌≡◌, refl, true, none, some, List, [], ◌∷◌, ◌++◌, Bytes, ascii, bytes_eq, length, take,
  drop, any, arith,
}
use thumbrella.Shortcut.Id3.{extract_apic_image, behind_text, behind_wide_null}
use thumbrella.Shortcut.Id3.Apic.{apic_payload, extract_apic_image_written}
use thumbrella.Shortcut.Id3.Frames.{Frame}
use thumbrella.Shortcut.Mp3.{Mp3FrameInfo, parse_first_mp3_frame}
use thumbrella.Shortcut.Tiff.{tiff_header, find_tiff_embedded_jpeg_span, span_turn}
use thumbrella.Shortcut.Tiff.Preview.{find_tiff_embedded_jpeg_span-IsLongest}
use thumbrella.Shortcut.Tiff.Search.{IsLongest}
use thumbrella.Shortcut.Zip.{zip_scan_dir, zip_extract_from_buffer}
use thumbrella.Shortcut.Zip.Directory.{Written, Fits, directory, entry_of}
use thumbrella.Shortcut.Zip.First.{first_value, is_thumbnail, is_named, zip_scan_dir_written}
use thumbrella.Shortcut.Zip.Extract.{LocalFields, local_file, extract_written}

-- A TIFF file whose one directory names a JPEG of 50 bytes at 100, and itself as the next directory.
abbrev circle : Bytes
circle =
    73 ∷ 73 ∷ 42 ∷ 0 ∷ 8 ∷ 0 ∷ 0 ∷ 0 ∷ 2 ∷ 0 ∷ 1 ∷ 2 ∷ 4 ∷ 0 ∷ 1 ∷ 0 ∷ 0 ∷ 0 ∷ 100 ∷ 0 ∷ 0 ∷ 0 ∷ 2
    ∷ 2 ∷ 4 ∷ 0 ∷ 1 ∷ 0 ∷ 0 ∷ 0 ∷ 50 ∷ 0 ∷ 0 ∷ 0 ∷ 8 ∷ 0 ∷ 0 ∷ 0 ∷ []

circle_header : tiff_header circle ≡ some (true, 8)
unfolding tiff_header bytes_eq take drop
circle_header = refl

circle_span : find_tiff_embedded_jpeg_span circle ≡ some (100, 50)
unfolding find_tiff_embedded_jpeg_span span_turn bytes_eq take drop any
circle_span = refl

find_tiff_embedded_jpeg_span-IsLongest_example :
    IsLongest circle true 8 (find_tiff_embedded_jpeg_span circle)
find_tiff_embedded_jpeg_span-IsLongest_example =
    find_tiff_embedded_jpeg_span-IsLongest circle true 8 circle_header

abbrev no_fields : LocalFields
no_fields = record {
  min_version = 20;
  flags = 0;
  method_field = 0;
  time = 0;
  date = 0;
  crc = 0;
  comp = 3;
  uncomp = 3;
}

extract_written_example :
    zip_extract_from_buffer
      (λ b. none)
      (1 ∷ 2 ∷ [] ++ local_file no_fields (ascii "a.png") [] (7 ∷ 8 ∷ 9 ∷ [] ++ 0 ∷ []))
      (record { local_offset = 102; comp_size = 3; uncomp_size = 3; method = 0 })
      100
    ≡ some (7 ∷ 8 ∷ 9 ∷ [])
extract_written_example =
    extract_written (λ b. none) (1 ∷ 2 ∷ []) (ascii "a.png") [] (7 ∷ 8 ∷ 9 ∷ []) (0 ∷ []) no_fields
      100 3 0 (omega arith) (omega arith)

abbrev named : Bytes → ℕ → Written
named name offset = record {
  made_by = 20;
  min_version = 20;
  flags = 0;
  entry_method = 8;
  time = 0;
  date = 0;
  crc = 0;
  comp = 300;
  uncomp = 70000;
  disk = 0;
  int_attr = 0;
  ext_attr = 0;
  offset = offset;
  name = name;
  extra = 1 ∷ [];
  comment = [];
}

named-Fits :
    (name : Bytes) (offset : ℕ)
    → length name < 65536
    → offset < 4294967296
    → Fits (named name offset)
named-Fits name offset short near = record {
  method_fits = omega arith;
  comp_fits = omega arith;
  uncomp_fits = omega arith;
  offset_fits = near;
  name_fits = short;
  extra_fits = omega arith;
  comment_fits = omega arith;
}

abbrev two_entries : List Written
two_entries = named (ascii "content.xml") 5 ∷ named (ascii "Thumbnails/thumbnail.png") 400 ∷ []

zip_scan_dir_written_example : zip_scan_dir (directory two_entries (80 ∷ 75 ∷ [])) ≡ record {
  thumb = first_value is_thumbnail entry_of two_entries;
  content_xml_uncomp = first_value (is_named (ascii "content.xml")) (λ w. w.uncomp) two_entries;
  meta_xml = first_value (is_named (ascii "meta.xml")) entry_of two_entries;
}
zip_scan_dir_written_example =
    zip_scan_dir_written two_entries (80 ∷ 75 ∷ [])
      (
        named-Fits (ascii "content.xml") 5 (omega arith) (omega arith),
        (named-Fits (ascii "Thumbnails/thumbnail.png") 400 (omega arith) (omega arith), tt),
      )
      (omega arith)

abbrev picture : Bytes
picture = apic_payload 0 (ascii "image/png") 3 (ascii "front") (255 ∷ 216 ∷ [])

extract_apic_image_written_example : extract_apic_image picture ≡ some (255 ∷ 216 ∷ [])
extract_apic_image_written_example =
    extract_apic_image_written 0 3 (ascii "image/png") (ascii "front") (255 ∷ 216 ∷ []) refl
      (refl, (refl, (refl, (refl, (refl, (refl, (refl, (refl, (refl, tt)))))))))
      (refl, (refl, (refl, (refl, (refl, tt))))) (omega arith)

abbrev title : Frame
title = record { i0 = 84; i1 = 80; i2 = 69; i3 = 50; flags0 = 0; flags1 = 0; body = 0 ∷ 65 ∷ [] }

abbrev cover : Frame
cover = record { i0 = 65; i1 = 80; i2 = 73; i3 = 67; flags0 = 0; flags1 = 0; body = picture }

-- The MIME type of an APIC frame ends with one null also where the texts are UTF-16; the source looks
-- for two, and takes the image to begin in the middle of itself.
wide_text_image :
    extract_apic_image
      (1 ∷ ascii "image/jpeg" ++ (0 ∷ 3 ∷ 255 ∷ 254 ∷ 0 ∷ 0 ∷ 255 ∷ 216 ∷ 255 ∷ 0 ∷ 0 ∷ 7 ∷ 9 ∷ []))
    ≡ some (7 ∷ 9 ∷ [])
unfolding extract_apic_image behind_text behind_wide_null drop
wide_text_image = refl

-- MPEG1, Layer III, 128 kbit/s, 44.1 kHz, joint stereo, behind one byte.
abbrev mp3_start : Bytes
mp3_start = 0 ∷ 255 ∷ 251 ∷ 144 ∷ 100 ∷ 0 ∷ []

abbrev mp3_info : Mp3FrameInfo
mp3_info = record { bitrate = 128000; sample_rate = 44100; channel_mode = 1 }

mp3_start_info : parse_first_mp3_frame mp3_start ≡ some mp3_info
unfolding parse_first_mp3_frame drop
mp3_start_info = refl
