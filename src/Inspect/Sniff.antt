-- ===== src/Inspect/Sniff.antt =====
-- `sniff` of tier1/src/pipeline/inspect.rs: the kind, the MIME type and the extension of a file. The
-- crate infer, which knows signatures, is a parameter.
pub mod Specific
use thumbrella.Base.{
  ℕ, ◌-◌, ◌≡◌, refl, sym, ap, ◌∙◌, Bool, true, false, not, ◌&&◌, ◌||◌, Option, none, some, List, [],
  ◌∷◌, Bytes, ascii, bytes_eq, ◌==◌, if◌then◌else◌, to_ascii_lowercase, trim, is_empty, is_some_and,
  unwrap_or, any,
}
use mathlib.Core.List.{reverse}
use thumbrella.Source.{up_to}
use thumbrella.Media.{FileKind}
use thumbrella.Inspect.{
  canonical_extension, ext_to_kind, ext_to_mime, mime_to_kind, mime_to_extension,
}

pub data MatcherType : Type 0 where
  app archive audio book doc font image text video custom : MatcherType

-- What infer says of the first bytes of a file.
pub record Guess : Type 0 where
  pub mime_type : Bytes
  pub extension : Bytes
  pub matcher_type : MatcherType

abbrev pub Infer : Type 0
Infer = Bytes → Option Guess

unfoldable pub infer_matcher_to_kind : MatcherType → FileKind
infer_matcher_to_kind MatcherType.image = FileKind.image
infer_matcher_to_kind MatcherType.video = FileKind.video
infer_matcher_to_kind MatcherType.audio = FileKind.audio
infer_matcher_to_kind MatcherType.archive = FileKind.archive
infer_matcher_to_kind MatcherType.doc = FileKind.document
infer_matcher_to_kind MatcherType.text = FileKind.text
infer_matcher_to_kind MatcherType.book = FileKind.document
infer_matcher_to_kind MatcherType.app = FileKind.binary
infer_matcher_to_kind MatcherType.font = FileKind.binary
infer_matcher_to_kind MatcherType.custom = FileKind.binary

-- A letter, of either case.
abbrev letter : ℕ → ℕ → Bool
letter lower c = (c == lower) || (c == lower - 32)

abbrev ends_name : ℕ → Bool
ends_name c = (c == 32) || ((c == 9) || ((c == 10) || ((c == 13) || ((c == 62) || (c == 47)))))

-- Any window of five bytes that opens an svg element.
unfoldable pub sniff_svg : Bytes → Bool
sniff_svg (a ∷ b ∷ c ∷ d ∷ e ∷ rest) =
    ((a == 60) && (letter 115 b && (letter 118 c && (letter 103 d && ends_name e))))
    || sniff_svg (b ∷ c ∷ d ∷ e ∷ rest)
sniff_svg _ = false

abbrev pub raw_extensions : List Bytes
raw_extensions =
    ascii "dng"
    ∷ ascii "cr2"
    ∷ ascii "nef"
    ∷ ascii "arw"
    ∷ ascii "orf"
    ∷ ascii "rw2"
    ∷ ascii "pef"
    ∷ ascii "srw"
    ∷ ascii "raf"
    ∷ ascii "3fr"
    ∷ ascii "fff"
    ∷ ascii "iiq"
    ∷ ascii "mef"
    ∷ ascii "rwl"
    ∷ ascii "raw"
    ∷ []

unfoldable pub is_raw_tiff_extension : Bytes → Bool
is_raw_tiff_extension ext = any (bytes_eq ext) raw_extensions

-- `rsplit(mark).next()`.
abbrev pub after_last : ℕ → Bytes → Bytes
after_last mark s = reverse (up_to mark (reverse s))

unfoldable pub url_extension : Bytes → Option Bytes
unfolding canonical_extension up_to
url_extension url =
    let last = after_last b'/' (up_to b'#' (up_to b'?' url)) in
    let raw = after_last b'.' last in
    if is_empty raw || bytes_eq raw last
    then none
    else some (canonical_extension (to_ascii_lowercase raw))

-- A kind that says little: a container, a program, or nothing.
unfoldable pub is_generic : FileKind → Bool
is_generic FileKind.archive = true
is_generic FileKind.binary = true
is_generic FileKind.unknown = true
is_generic FileKind.image = false
is_generic FileKind.video = false
is_generic FileKind.audio = false
is_generic FileKind.vector = false
is_generic FileKind.document = false
is_generic FileKind.geometry = false
is_generic FileKind.text = false

unfoldable pub is_text : FileKind → Bool
is_text FileKind.text = true
is_text _ = false

unfoldable pub is_unknown : FileKind → Bool
is_unknown FileKind.unknown = true
is_unknown _ = false

abbrev pub Sniffed : Type 0
Sniffed = FileKind × Bytes × Bytes

abbrev pub of_extension : FileKind → Bytes → Sniffed
of_extension kind ext = (kind, ext_to_mime ext, ext)

-- The kind of a guess; HTML is a document.
unfoldable pub guessed_kind : Guess → FileKind
unfolding infer_matcher_to_kind
guessed_kind t =
    if bytes_eq t.mime_type (ascii "text/html")
      || bytes_eq t.mime_type (ascii "application/xhtml+xml")
    then FileKind.document
    else infer_matcher_to_kind t.matcher_type

-- A signature is known; the URL may refine it.
unfoldable pub by_magic : Bytes → Guess → Option Bytes → Sniffed
unfolding guessed_kind sniff_svg is_generic is_text is_raw_tiff_extension ext_to_kind ext_to_mime
    canonical_extension
by_magic bytes t url_ext =
    let kind = guessed_kind t in
    let infer_ext = canonical_extension t.extension in
    if is_text kind && (sniff_svg bytes || is_some_and url_ext (λ ext. bytes_eq ext (ascii "svg")))
    then (FileKind.vector, ascii "image/svg+xml", ascii "svg")
    else elim url_ext [
      | none ↦ (kind, t.mime_type, infer_ext)
      | some ext ↦
          if is_generic kind && not (is_generic (ext_to_kind ext))
          then of_extension (ext_to_kind ext) ext
          else if bytes_eq infer_ext (ascii "tiff") && is_raw_tiff_extension ext
          then of_extension FileKind.image ext
          else (kind, t.mime_type, infer_ext)
    ]

-- Nothing is known but, perhaps, an extension.
unfoldable pub last_resort : Option Bytes → Sniffed
unfolding ext_to_mime
last_resort none = (FileKind.unknown, ascii "application/octet-stream", ascii "bin")
last_resort (some ext) = of_extension FileKind.unknown ext

-- The header Content-Type, if it gives a known kind.
unfoldable pub by_content_type : Bytes → Option Bytes → Sniffed
unfolding last_resort mime_to_kind mime_to_extension is_unknown up_to
by_content_type ct url_ext =
    let mime = to_ascii_lowercase (trim (up_to b';' ct)) in
    let mime_ext = mime_to_extension mime in
    let ct_ext = if bytes_eq mime_ext (ascii "bin") then unwrap_or url_ext mime_ext else mime_ext in
    let kind = mime_to_kind mime ct_ext in
    if is_unknown kind then last_resort url_ext else (kind, mime, ct_ext)

unfoldable pub without_url : Option Bytes → Option Bytes → Sniffed
unfolding by_content_type
without_url none url_ext = last_resort url_ext
without_url (some ct) url_ext = by_content_type ct url_ext

-- No signature is known: the extension of the URL, then the header.
unfoldable pub without_magic : Option Bytes → Option Bytes → Sniffed
unfolding without_url ext_to_kind
without_magic none content_type = without_url content_type none
without_magic (some ext) content_type =
    if is_unknown (ext_to_kind ext)
    then without_url content_type (some ext)
    else of_extension (ext_to_kind ext) ext

unfoldable pub by_guess : Bytes → Option Guess → Option Bytes → Option Bytes → Sniffed
unfolding by_magic without_magic
by_guess bytes none url_ext content_type = without_magic url_ext content_type
by_guess bytes (some t) url_ext content_type = by_magic bytes t url_ext

unfoldable pub sniff : Infer → Bytes → Bytes → Option Bytes → Sniffed
unfolding by_guess url_extension
sniff get bytes url content_type = by_guess bytes (get bytes) (url_extension url) content_type
