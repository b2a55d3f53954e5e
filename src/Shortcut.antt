-- ===== src/Shortcut.antt =====
-- tier1/src/pipeline/shortcut.rs: the parsers that find an embedded thumbnail in the bytes of a file.
pub mod Readers
pub mod Tiff
pub mod Ifd0
pub mod Exif
pub mod Id3
pub mod Mp3
pub mod Zip
