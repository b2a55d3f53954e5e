-- ===== src/Tests/Inspect.antt =====
-- The tables of file types, and a JPEG that is cut in its frame header.
use thumbrella.Base.{none, some, lower, ◌≡◌, refl, ◌∷◌, [], false, Bytes, ascii, bytes_eq, ◌||◌}
use thumbrella.Base.Loop.{Ends}
use thumbrella.Inspect.{
  canonical_extension, mime_to_extension, mime_to_kind, ext_to_mime, ext_to_kind,
}
use thumbrella.Inspect.Tables.{is_older, mime_to_kind-ext_to_mime, canonical_extension-canonical}
use thumbrella.Inspect.Sniff.{Infer, MatcherType, is_generic, sniff, url_extension}
use thumbrella.Inspect.Sniff.Specific.{sniff_specific}
use thumbrella.Inspect.Sof.{
  dimensions, panics, Cut, sof_turn, jpeg_sof_dimensions, jpeg_sof_dimensions-Cut,
}

-- A frame of 3 by 2 pixels in three components of eight bits.
abbrev frame_header : Bytes
frame_header = 255 ∷ 216 ∷ 255 ∷ 192 ∷ 0 ∷ 17 ∷ 8 ∷ 0 ∷ 2 ∷ 0 ∷ 3 ∷ 3 ∷ []

abbrev cut_header : Bytes
cut_header = 255 ∷ 216 ∷ 255 ∷ 192 ∷ 0 ∷ 17 ∷ 8 ∷ 0 ∷ 2 ∷ 0 ∷ 3 ∷ []

whole_run : jpeg_sof_dimensions frame_header ≡ dimensions 3 2 24
unfolding jpeg_sof_dimensions
whole_run = refl

cut_run : jpeg_sof_dimensions cut_header ≡ panics
unfolding jpeg_sof_dimensions
cut_run = refl

jpeg_sof_dimensions-Cut_example :
    Ends (sof_turn cut_header) 2 (jpeg_sof_dimensions cut_header)
    × (jpeg_sof_dimensions cut_header ≡ panics → Cut cut_header)
jpeg_sof_dimensions-Cut_example = jpeg_sof_dimensions-Cut cut_header

jp2_plain : (bytes_eq (ascii "jp2") (ascii "emf") || bytes_eq (ascii "jp2") (ascii "wmf")) ≡ false
unfolding bytes_eq
jp2_plain = refl

mime_to_kind-ext_to_mime_example :
    mime_to_kind (ext_to_mime (ascii "jp2")) (ascii "jp2") ≡ ext_to_kind (ascii "jp2")
mime_to_kind-ext_to_mime_example = mime_to_kind-ext_to_mime (ascii "jp2") jp2_plain

tiff_newer : is_older (mime_to_extension (ascii "image/tiff")) ≡ false
unfolding mime_to_extension bytes_eq
tiff_newer = refl

canonical_extension-canonical_example :
    (canonical_extension (mime_to_extension (ascii "image/tiff"))
      ≡ mime_to_extension (ascii "image/tiff"))
    × (canonical_extension (canonical_extension (ascii "tif")) ≡ canonical_extension (ascii "tif"))
canonical_extension-canonical_example =
    canonical_extension-canonical (ascii "image/tiff") (ascii "tif") tiff_newer

-- A USDZ file, which is a ZIP.
abbrev zip_magic : Infer
zip_magic bytes = some (record {
  mime_type = ascii "application/zip";
  extension = ascii "zip";
  matcher_type = MatcherType.archive;
})

named_usdz : url_extension (ascii "https://a.com/m.usdz?v=1") ≡ some (ascii "usdz")
unfolding url_extension bytes_eq lower
named_usdz = refl

usdz_specific : is_generic (ext_to_kind (ascii "usdz")) ≡ false
unfolding ext_to_kind is_generic bytes_eq
usdz_specific = refl

sniff_specific_example :
    is_generic (sniff zip_magic (80 ∷ 75 ∷ []) (ascii "https://a.com/m.usdz?v=1") none).0 ≡ false
sniff_specific_example =
    sniff_specific zip_magic (80 ∷ 75 ∷ []) (ascii "https://a.com/m.usdz?v=1") (ascii "usdz") none
      named_usdz usdz_specific
