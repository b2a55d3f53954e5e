-- ===== src/Shortcut/Zip/First.antt =====
-- Which entries of a central directory the scan in tier1/src/pipeline/shortcut.rs finds.
use thumbrella.Base.{
  ◌<◌, ◌≡◌, refl, ◌∙◌, Bool, true, false, Option, none, some, List, [], ◌∷◌, Bytes, ascii, bytes_eq,
  if◌then◌else◌, any, length,
}
use thumbrella.Shortcut.Zip.{ZipDir, empty_dir, note_entry, or_else, zip_scan_dir}
use thumbrella.Shortcut.Zip.Directory.{
  Written, AllFit, directory, entry_of, noted, zip_scan_dir-noted,
}

-- What the first entry that passes a test gives.
abbrev pub first_value {ℓ} :
    {B : Type ℓ} → (Written → Bool) → (Written → B) → List Written → Option B
first_value test value [] = none
first_value test value (w ∷ ws) =
    let rest = first_value test value ws in if test w then some (value w) else rest

-- The thumbnails of the OpenDocument and the Office Open XML formats.
abbrev pub is_thumbnail : Written → Bool
is_thumbnail w = any (bytes_eq w.name) (
    ascii "Thumbnails/thumbnail.png"
    ∷ ascii "docProps/thumbnail.jpeg"
    ∷ ascii "docProps/thumbnail.jpg"
    ∷ ascii "docProps/thumbnail.png"
    ∷ [])

abbrev pub is_named : Bytes → Written → Bool
is_named name w = bytes_eq w.name name

abbrev or_first {ℓ} : {B : Type ℓ} → Option B → Option B → Option B
or_first (some a) b = some a
or_first none b = b

or_first-none {ℓ} : {B : Type ℓ} (found : Option B) → or_first found none ≡ found
or_first-none none = refl
or_first-none (some a) = refl

or_first_else {ℓ} :
    {B : Type ℓ} (found : Option B) (test : Bool) (b : B) (rest : Option B)
    → or_first (or_else found test b) rest ≡ or_first found (if test then some b else rest)
or_first_else (some a) test b rest = refl
or_first_else none true b rest = refl
or_first_else none false b rest = refl

-- The fold of the entries keeps what it has and takes the first of each kind.
noted_first :
    (dir : ZipDir) (ws : List Written)
    → noted dir ws ≡ record {
      thumb = or_first dir.thumb (first_value is_thumbnail entry_of ws);
      content_xml_uncomp =
          or_first dir.content_xml_uncomp
            (first_value (is_named (ascii "content.xml")) (λ w. w.uncomp) ws);
      meta_xml = or_first dir.meta_xml (first_value (is_named (ascii "meta.xml")) entry_of ws);
    }
unfolding note_entry
noted_first dir [] =
    rw (or_first-none dir.thumb, or_first-none dir.content_xml_uncomp, or_first-none dir.meta_xml)
      refl
noted_first dir (w ∷ ws) =
    noted_first (note_entry dir w.name (entry_of w)) ws
    ∙ rw
        (
          or_first_else dir.thumb (is_thumbnail w) (entry_of w)
              (first_value is_thumbnail entry_of ws),
          or_first_else dir.content_xml_uncomp (is_named (ascii "content.xml") w) w.uncomp
              (first_value (is_named (ascii "content.xml")) (λ w. w.uncomp) ws),
          or_first_else dir.meta_xml (is_named (ascii "meta.xml") w) (entry_of w)
              (first_value (is_named (ascii "meta.xml")) entry_of ws),
        )
        refl

-- The scan of a directory of entries whose fields have their widths, with fewer than 46 bytes behind
-- them, finds the first entry with the name of a thumbnail, the uncompressed size of the first
-- content.xml and the first meta.xml, each with the fields that were written.
pub zip_scan_dir_written :
    (ws : List Written) (rest : Bytes)
    → AllFit ws
    → length rest < 46
    → zip_scan_dir (directory ws rest) ≡ record {
      thumb = first_value is_thumbnail entry_of ws;
      content_xml_uncomp = first_value (is_named (ascii "content.xml")) (λ w. w.uncomp) ws;
      meta_xml = first_value (is_named (ascii "meta.xml")) entry_of ws;
    }
zip_scan_dir_written ws rest fits short =
    zip_scan_dir-noted ws rest fits short ∙ noted_first empty_dir ws
