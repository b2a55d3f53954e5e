-- ===== src/Inspect/Sniff/Specific.antt =====
-- How `sniff` of tier1/src/pipeline/inspect.rs takes the extension of the URL into account.
use thumbrella.Base.{
  ◌≡◌, refl, sym, subst, inl, inr, false, ◌&&◌, ◌||◌, Option, none, some, Bytes, ascii, bytes_eq,
  Bool-cases,
}
use thumbrella.Media.{FileKind}
use thumbrella.Inspect.{canonical_extension, ext_to_kind}
use thumbrella.Inspect.Sniff.{
  Infer, Guess, guessed_kind, is_generic, is_text, is_unknown, is_raw_tiff_extension, by_magic,
  without_magic, by_guess, sniff, sniff_svg, url_extension,
}

specific_known : (kind : FileKind) → is_generic kind ≡ false → is_unknown kind ≡ false
unfolding is_generic is_unknown
specific_known FileKind.unknown h = h
specific_known FileKind.image h = refl
specific_known FileKind.video h = refl
specific_known FileKind.audio h = refl
specific_known FileKind.vector h = refl
specific_known FileKind.document h = refl
specific_known FileKind.geometry h = refl
specific_known FileKind.archive h = refl
specific_known FileKind.text h = refl
specific_known FileKind.binary h = refl

svg : is_generic FileKind.vector ≡ false
unfolding is_generic
svg = refl

picture : is_generic FileKind.image ≡ false
unfolding is_generic
picture = refl

by_magic_specific :
    (bytes : Bytes) (t : Guess) (ext : Bytes)
    → is_generic (ext_to_kind ext) ≡ false
    → is_generic (by_magic bytes t (some ext)).0 ≡ false
unfolding by_magic
by_magic_specific bytes t ext specific =
    elim (Bool-cases
      (is_text (guessed_kind t) && (sniff_svg bytes || bytes_eq ext (ascii "svg")))) [
        | inl e ↦ rw e svg
        | inr e ↦ elim (Bool-cases (is_generic (guessed_kind t))) [
          | inl generic ↦ rw (e, generic, specific) specific
          | inr told ↦
              elim (Bool-cases (
                bytes_eq (canonical_extension t.extension) (ascii "tiff")
                && is_raw_tiff_extension ext)) [
                  | inl raw ↦ rw (e, told, raw) picture
                  | inr other ↦ rw (e, told, other) told
                ]
        ]
      ]

without_magic_specific :
    (ext : Bytes) (content_type : Option Bytes)
    → is_generic (ext_to_kind ext) ≡ false
    → is_generic (without_magic (some ext) content_type).0 ≡ false
unfolding without_magic
without_magic_specific ext content_type specific =
    rw (specific_known (ext_to_kind ext) specific) specific

by_guess_specific :
    (bytes : Bytes) (guess : Option Guess) (ext : Bytes) (content_type : Option Bytes)
    → is_generic (ext_to_kind ext) ≡ false
    → is_generic (by_guess bytes guess (some ext) content_type).0 ≡ false
unfolding by_guess
by_guess_specific bytes none ext content_type specific =
    without_magic_specific ext content_type specific
by_guess_specific bytes (some t) ext content_type specific = by_magic_specific bytes t ext specific

-- Where the extension of the URL names a specific kind (not an archive, a binary or an unknown one), a
-- specific kind is reported, whatever the signature and the header say.
pub sniff_specific :
    (get : Infer) (bytes url ext : Bytes) (content_type : Option Bytes)
    → url_extension url ≡ some ext
    → is_generic (ext_to_kind ext) ≡ false
    → is_generic (sniff get bytes url content_type).0 ≡ false
unfolding sniff
sniff_specific get bytes url ext content_type named specific =
    subst (λ x. is_generic (by_guess bytes (get bytes) x content_type).0 ≡ false) (sym named)
      (by_guess_specific bytes (get bytes) ext content_type specific)
