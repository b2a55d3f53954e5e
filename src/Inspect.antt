-- ===== src/Inspect.antt =====
-- The tables of tier1/src/pipeline/inspect.rs from extensions and MIME types to kinds.
pub mod Tables
pub mod Sof
pub mod Sniff
use thumbrella.Base.{
  Bool, ◌||◌, List, [], ◌∷◌, Bytes, ascii, bytes_eq, if◌then◌else◌, is_some, strip_prefix,
}
use thumbrella.Media.{FileKind}

-- The arms of a match on a string, with the default behind them.
unfoldable pub arm {ℓ} : {A : Type ℓ} → List (Bytes × A) → A → Bytes → A
arm [] other s = other
arm ((key, a) ∷ arms) other s = let rest = arm arms other s in if bytes_eq s key then a else rest

abbrev pub aliases : List (Bytes × Bytes)
aliases =
    (ascii "jpg", ascii "jpeg")
    ∷ (ascii "jpe", ascii "jpeg")
    ∷ (ascii "tif", ascii "tiff")
    ∷ (ascii "j2k", ascii "jp2")
    ∷ (ascii "sxr", ascii "exr")
    ∷ (ascii "mxr", ascii "exr")
    ∷ (ascii "rgbe", ascii "hdr")
    ∷ (ascii "rgb", ascii "sgi")
    ∷ (ascii "rgba", ascii "sgi")
    ∷ (ascii "int", ascii "sgi")
    ∷ (ascii "inta", ascii "sgi")
    ∷ (ascii "pgm", ascii "pbm")
    ∷ (ascii "ppm", ascii "pbm")
    ∷ (ascii "pfm", ascii "pbm")
    ∷ (ascii "heics", ascii "heic")
    ∷ (ascii "heif", ascii "heic")
    ∷ (ascii "mpg", ascii "mpeg")
    ∷ (ascii "mpe", ascii "mpeg")
    ∷ (ascii "m4v", ascii "mp4")
    ∷ (ascii "m4b", ascii "m4a")
    ∷ (ascii "mid", ascii "midi")
    ∷ (ascii "aifc", ascii "aiff")
    ∷ (ascii "doc", ascii "docx")
    ∷ (ascii "xls", ascii "xlsx")
    ∷ (ascii "xlsm", ascii "xlsx")
    ∷ (ascii "ppt", ascii "pptx")
    ∷ (ascii "svg", ascii "svg")
    ∷ (ascii "svgz", ascii "svg")
    ∷ (ascii "wrl", ascii "vrml")
    ∷ (ascii "stp", ascii "step")
    ∷ (ascii "stpnc", ascii "step")
    ∷ (ascii "p21", ascii "step")
    ∷ (ascii "210", ascii "step")
    ∷ (ascii "igs", ascii "iges")
    ∷ (ascii "ex2", ascii "exo")
    ∷ (ascii "e", ascii "exo")
    ∷ (ascii "usda", ascii "usd")
    ∷ (ascii "usdc", ascii "usd")
    ∷ (ascii "crw", ascii "cr2")
    ∷ (ascii "htm", ascii "html")
    ∷ []

unfoldable pub canonical_extension : Bytes → Bytes
unfolding arm
canonical_extension raw = arm aliases raw raw

abbrev pub kinds_by_extension : List (Bytes × FileKind)
kinds_by_extension =
    (ascii "jpeg", FileKind.image)
    ∷ (ascii "png", FileKind.image)
    ∷ (ascii "gif", FileKind.image)
    ∷ (ascii "webp", FileKind.image)
    ∷ (ascii "bmp", FileKind.image)
    ∷ (ascii "tiff", FileKind.image)
    ∷ (ascii "avif", FileKind.image)
    ∷ (ascii "heic", FileKind.image)
    ∷ (ascii "exr", FileKind.image)
    ∷ (ascii "hdr", FileKind.image)
    ∷ (ascii "apng", FileKind.image)
    ∷ (ascii "ico", FileKind.image)
    ∷ (ascii "xcf", FileKind.image)
    ∷ (ascii "jxl", FileKind.image)
    ∷ (ascii "psd", FileKind.image)
    ∷ (ascii "pbm", FileKind.image)
    ∷ (ascii "tga", FileKind.image)
    ∷ (ascii "jp2", FileKind.image)
    ∷ (ascii "sgi", FileKind.image)
    ∷ (ascii "dpx", FileKind.image)
    ∷ (ascii "cin", FileKind.image)
    ∷ (ascii "dds", FileKind.image)
    ∷ (ascii "fits", FileKind.image)
    ∷ (ascii "iff", FileKind.image)
    ∷ (ascii "pic", FileKind.image)
    ∷ (ascii "rla", FileKind.image)
    ∷ (ascii "zfile", FileKind.image)
    ∷ (ascii "dng", FileKind.image)
    ∷ (ascii "cr2", FileKind.image)
    ∷ (ascii "nef", FileKind.image)
    ∷ (ascii "arw", FileKind.image)
    ∷ (ascii "orf", FileKind.image)
    ∷ (ascii "rw2", FileKind.image)
    ∷ (ascii "pef", FileKind.image)
    ∷ (ascii "srw", FileKind.image)
    ∷ (ascii "3fr", FileKind.image)
    ∷ (ascii "mef", FileKind.image)
    ∷ (ascii "rwl", FileKind.image)
    ∷ (ascii "raf", FileKind.image)
    ∷ (ascii "fff", FileKind.image)
    ∷ (ascii "iiq", FileKind.image)
    ∷ (ascii "raw", FileKind.image)
    ∷ (ascii "svg", FileKind.vector)
    ∷ (ascii "emf", FileKind.vector)
    ∷ (ascii "wmf", FileKind.vector)
    ∷ (ascii "mp4", FileKind.video)
    ∷ (ascii "mov", FileKind.video)
    ∷ (ascii "mkv", FileKind.video)
    ∷ (ascii "avi", FileKind.video)
    ∷ (ascii "webm", FileKind.video)
    ∷ (ascii "mpeg", FileKind.video)
    ∷ (ascii "ogv", FileKind.video)
    ∷ (ascii "flv", FileKind.video)
    ∷ (ascii "ts", FileKind.video)
    ∷ (ascii "3gp", FileKind.video)
    ∷ (ascii "wmv", FileKind.video)
    ∷ (ascii "m2ts", FileKind.video)
    ∷ (ascii "mxf", FileKind.video)
    ∷ (ascii "av1", FileKind.video)
    ∷ (ascii "mp3", FileKind.audio)
    ∷ (ascii "ogg", FileKind.audio)
    ∷ (ascii "flac", FileKind.audio)
    ∷ (ascii "wav", FileKind.audio)
    ∷ (ascii "m4a", FileKind.audio)
    ∷ (ascii "aac", FileKind.audio)
    ∷ (ascii "midi", FileKind.audio)
    ∷ (ascii "opus", FileKind.audio)
    ∷ (ascii "oga", FileKind.audio)
    ∷ (ascii "weba", FileKind.audio)
    ∷ (ascii "wma", FileKind.audio)
    ∷ (ascii "aiff", FileKind.audio)
    ∷ (ascii "pdf", FileKind.document)
    ∷ (ascii "docx", FileKind.document)
    ∷ (ascii "xlsx", FileKind.document)
    ∷ (ascii "pptx", FileKind.document)
    ∷ (ascii "odt", FileKind.document)
    ∷ (ascii "doc", FileKind.document)
    ∷ (ascii "xls", FileKind.document)
    ∷ (ascii "ppt", FileKind.document)
    ∷ (ascii "odp", FileKind.document)
    ∷ (ascii "ods", FileKind.document)
    ∷ (ascii "epub", FileKind.document)
    ∷ (ascii "rtf", FileKind.document)
    ∷ (ascii "html", FileKind.document)
    ∷ (ascii "xhtml", FileKind.document)
    ∷ (ascii "usdz", FileKind.geometry)
    ∷ (ascii "usd", FileKind.geometry)
    ∷ (ascii "glb", FileKind.geometry)
    ∷ (ascii "gltf", FileKind.geometry)
    ∷ (ascii "obj", FileKind.geometry)
    ∷ (ascii "stl", FileKind.geometry)
    ∷ (ascii "fbx", FileKind.geometry)
    ∷ (ascii "dae", FileKind.geometry)
    ∷ (ascii "dxf", FileKind.geometry)
    ∷ (ascii "off", FileKind.geometry)
    ∷ (ascii "3ds", FileKind.geometry)
    ∷ (ascii "gml", FileKind.geometry)
    ∷ (ascii "ply", FileKind.geometry)
    ∷ (ascii "pts", FileKind.geometry)
    ∷ (ascii "vrml", FileKind.geometry)
    ∷ (ascii "vtk", FileKind.geometry)
    ∷ (ascii "vtu", FileKind.geometry)
    ∷ (ascii "vtp", FileKind.geometry)
    ∷ (ascii "vti", FileKind.geometry)
    ∷ (ascii "vtr", FileKind.geometry)
    ∷ (ascii "vts", FileKind.geometry)
    ∷ (ascii "vtm", FileKind.geometry)
    ∷ (ascii "step", FileKind.geometry)
    ∷ (ascii "iges", FileKind.geometry)
    ∷ (ascii "brep", FileKind.geometry)
    ∷ (ascii "exo", FileKind.geometry)
    ∷ (ascii "zip", FileKind.archive)
    ∷ (ascii "tar", FileKind.archive)
    ∷ (ascii "gz", FileKind.archive)
    ∷ (ascii "bz2", FileKind.archive)
    ∷ (ascii "xz", FileKind.archive)
    ∷ (ascii "rar", FileKind.archive)
    ∷ (ascii "7z", FileKind.archive)
    ∷ (ascii "xml", FileKind.text)
    ∷ (ascii "json", FileKind.text)
    ∷ (ascii "txt", FileKind.text)
    ∷ (ascii "csv", FileKind.text)
    ∷ (ascii "md", FileKind.text)
    ∷ []

unfoldable pub ext_to_kind : Bytes → FileKind
unfolding arm
ext_to_kind ext = arm kinds_by_extension FileKind.unknown ext

abbrev pub kinds_by_mime : List (Bytes × FileKind)
kinds_by_mime =
    (ascii "application/pdf", FileKind.document)
    ∷ (ascii "application/msword", FileKind.document)
    ∷ (
      ascii "application/vnd.openxmlformats-officedocument.wordprocessingml.document",
      FileKind.document,
    )
    ∷ (ascii "application/vnd.openxmlformats-officedocument.spreadsheetml.sheet", FileKind.document)
    ∷ (
      ascii "application/vnd.openxmlformats-officedocument.presentationml.presentation",
      FileKind.document,
    )
    ∷ (ascii "application/vnd.oasis.opendocument.text", FileKind.document)
    ∷ (ascii "application/vnd.oasis.opendocument.presentation", FileKind.document)
    ∷ (ascii "application/vnd.oasis.opendocument.spreadsheet", FileKind.document)
    ∷ (ascii "application/vnd.ms-excel", FileKind.document)
    ∷ (ascii "application/vnd.ms-powerpoint", FileKind.document)
    ∷ (ascii "application/epub+zip", FileKind.document)
    ∷ (ascii "application/rtf", FileKind.document)
    ∷ (ascii "application/zip", FileKind.archive)
    ∷ (ascii "application/x-tar", FileKind.archive)
    ∷ (ascii "application/gzip", FileKind.archive)
    ∷ (ascii "application/x-bzip2", FileKind.archive)
    ∷ (ascii "application/x-xz", FileKind.archive)
    ∷ (ascii "application/vnd.rar", FileKind.archive)
    ∷ (ascii "application/x-7z-compressed", FileKind.archive)
    ∷ (ascii "model/vnd.usdz+zip", FileKind.geometry)
    ∷ (ascii "model/gltf-binary", FileKind.geometry)
    ∷ (ascii "model/gltf+json", FileKind.geometry)
    ∷ (ascii "application/vnd.fbx", FileKind.geometry)
    ∷ (ascii "model/vnd.collada+xml", FileKind.geometry)
    ∷ (ascii "model/obj", FileKind.geometry)
    ∷ (ascii "model/stl", FileKind.geometry)
    ∷ []

abbrev pub begins : Bytes → Bytes → Bool
begins prefix s = is_some (strip_prefix prefix s)

unfoldable pub mime_to_kind : Bytes → Bytes → FileKind
unfolding arm ext_to_kind
mime_to_kind mime ext =
    if begins (ascii "image/") mime
    then if bytes_eq ext (ascii "svg") then FileKind.vector else FileKind.image
    else if begins (ascii "video/") mime
    then FileKind.video
    else if begins (ascii "audio/") mime
    then FileKind.audio
    else if bytes_eq mime (ascii "text/html") || bytes_eq mime (ascii "application/xhtml+xml")
    then FileKind.document
    else if begins (ascii "text/") mime
    then FileKind.text
    else arm kinds_by_mime (ext_to_kind ext) mime

abbrev pub extensions_by_mime : List (Bytes × Bytes)
extensions_by_mime =
    (ascii "image/jpeg", ascii "jpeg")
    ∷ (ascii "image/png", ascii "png")
    ∷ (ascii "image/gif", ascii "gif")
    ∷ (ascii "image/webp", ascii "webp")
    ∷ (ascii "image/bmp", ascii "bmp")
    ∷ (ascii "image/tiff", ascii "tiff")
    ∷ (ascii "image/avif", ascii "avif")
    ∷ (ascii "image/heic", ascii "heic")
    ∷ (ascii "image/heif", ascii "heic")
    ∷ (ascii "image/svg+xml", ascii "svg")
    ∷ (ascii "image/emf", ascii "emf")
    ∷ (ascii "image/x-xcf", ascii "xcf")
    ∷ (ascii "image/apng", ascii "apng")
    ∷ (ascii "image/vnd.microsoft.icon", ascii "ico")
    ∷ (ascii "image/jxl", ascii "jxl")
    ∷ (ascii "image/vnd.adobe.photoshop", ascii "psd")
    ∷ (ascii "image/jp2", ascii "jp2")
    ∷ (ascii "video/mp4", ascii "mp4")
    ∷ (ascii "video/quicktime", ascii "mov")
    ∷ (ascii "video/webm", ascii "webm")
    ∷ (ascii "video/mpeg", ascii "mpeg")
    ∷ (ascii "video/ogg", ascii "ogv")
    ∷ (ascii "video/x-flv", ascii "flv")
    ∷ (ascii "video/mp2t", ascii "ts")
    ∷ (ascii "video/3gpp", ascii "3gp")
    ∷ (ascii "video/x-ms-wmv", ascii "wmv")
    ∷ (ascii "video/mxf", ascii "mxf")
    ∷ (ascii "video/av1", ascii "av1")
    ∷ (ascii "audio/mpeg", ascii "mp3")
    ∷ (ascii "audio/ogg", ascii "ogg")
    ∷ (ascii "audio/flac", ascii "flac")
    ∷ (ascii "audio/wav", ascii "wav")
    ∷ (ascii "audio/mp4", ascii "m4a")
    ∷ (ascii "audio/aac", ascii "aac")
    ∷ (ascii "audio/midi", ascii "midi")
    ∷ (ascii "audio/x-midi", ascii "midi")
    ∷ (ascii "audio/webm", ascii "weba")
    ∷ (ascii "audio/x-ms-wma", ascii "wma")
    ∷ (ascii "audio/aiff", ascii "aiff")
    ∷ (ascii "application/pdf", ascii "pdf")
    ∷ (ascii "application/zip", ascii "zip")
    ∷ (ascii "application/gzip", ascii "gz")
    ∷ (
      ascii "application/vnd.openxmlformats-officedocument.wordprocessingml.document",
      ascii "docx",
    )
    ∷ (ascii "application/vnd.openxmlformats-officedocument.spreadsheetml.sheet", ascii "xlsx")
    ∷ (
      ascii "application/vnd.openxmlformats-officedocument.presentationml.presentation",
      ascii "pptx",
    )
    ∷ (ascii "application/vnd.oasis.opendocument.text", ascii "odt")
    ∷ (ascii "application/vnd.oasis.opendocument.presentation", ascii "odp")
    ∷ (ascii "application/vnd.oasis.opendocument.spreadsheet", ascii "ods")
    ∷ (ascii "application/msword", ascii "doc")
    ∷ (ascii "application/vnd.ms-excel", ascii "xls")
    ∷ (ascii "application/vnd.ms-powerpoint", ascii "ppt")
    ∷ (ascii "application/epub+zip", ascii "epub")
    ∷ (ascii "application/rtf", ascii "rtf")
    ∷ (ascii "model/vnd.usdz+zip", ascii "usdz")
    ∷ (ascii "model/gltf-binary", ascii "glb")
    ∷ (ascii "model/gltf+json", ascii "gltf")
    ∷ (ascii "model/obj", ascii "obj")
    ∷ (ascii "application/vnd.fbx", ascii "fbx")
    ∷ (ascii "model/vnd.collada+xml", ascii "dae")
    ∷ (ascii "model/stl", ascii "stl")
    ∷ (ascii "text/html", ascii "html")
    ∷ (ascii "application/xhtml+xml", ascii "xhtml")
    ∷ (ascii "text/xml", ascii "xml")
    ∷ (ascii "text/plain", ascii "txt")
    ∷ (ascii "text/csv", ascii "csv")
    ∷ (ascii "text/markdown", ascii "md")
    ∷ (ascii "application/json", ascii "json")
    ∷ []

unfoldable pub mime_to_extension : Bytes → Bytes
unfolding arm
mime_to_extension mime = arm extensions_by_mime (ascii "bin") mime

abbrev pub mimes_by_extension : List (Bytes × Bytes)
mimes_by_extension =
    (ascii "jpeg", ascii "image/jpeg")
    ∷ (ascii "png", ascii "image/png")
    ∷ (ascii "gif", ascii "image/gif")
    ∷ (ascii "webp", ascii "image/webp")
    ∷ (ascii "bmp", ascii "image/bmp")
    ∷ (ascii "tiff", ascii "image/tiff")
    ∷ (ascii "avif", ascii "image/avif")
    ∷ (ascii "heic", ascii "image/heic")
    ∷ (ascii "exr", ascii "image/x-exr")
    ∷ (ascii "hdr", ascii "image/vnd.radiance")
    ∷ (ascii "jxl", ascii "image/jxl")
    ∷ (ascii "psd", ascii "image/vnd.adobe.photoshop")
    ∷ (ascii "jp2", ascii "image/jp2")
    ∷ (ascii "pbm", ascii "image/x-portable-bitmap")
    ∷ (ascii "tga", ascii "image/x-tga")
    ∷ (ascii "xcf", ascii "image/x-xcf")
    ∷ (ascii "sgi", ascii "image/x-sgi")
    ∷ (ascii "dpx", ascii "image/x-dpx")
    ∷ (ascii "cin", ascii "image/x-cineon")
    ∷ (ascii "dds", ascii "image/vnd-ms.dds")
    ∷ (ascii "fits", ascii "image/fits")
    ∷ (ascii "iff", ascii "image/x-iff")
    ∷ (ascii "dng", ascii "image/x-adobe-dng")
    ∷ (ascii "cr2", ascii "image/x-canon-cr2")
    ∷ (ascii "nef", ascii "image/x-nikon-nef")
    ∷ (ascii "arw", ascii "image/x-sony-arw")
    ∷ (ascii "orf", ascii "image/x-olympus-orf")
    ∷ (ascii "rw2", ascii "image/x-panasonic-rw2")
    ∷ (ascii "pef", ascii "image/x-pentax-pef")
    ∷ (ascii "srw", ascii "image/x-samsung-srw")
    ∷ (ascii "3fr", ascii "image/x-hasselblad-3fr")
    ∷ (ascii "mef", ascii "image/x-mamiya-mef")
    ∷ (ascii "rwl", ascii "image/x-leica-rwl")
    ∷ (ascii "raf", ascii "image/x-fuji-raf")
    ∷ (ascii "fff", ascii "image/x-hasselblad-fff")
    ∷ (ascii "iiq", ascii "image/x-phaseone-iiq")
    ∷ (ascii "raw", ascii "image/x-raw")
    ∷ (ascii "svg", ascii "image/svg+xml")
    ∷ (ascii "emf", ascii "image/emf")
    ∷ (ascii "wmf", ascii "image/wmf")
    ∷ (ascii "apng", ascii "image/apng")
    ∷ (ascii "ico", ascii "image/vnd.microsoft.icon")
    ∷ (ascii "mp4", ascii "video/mp4")
    ∷ (ascii "mov", ascii "video/quicktime")
    ∷ (ascii "mkv", ascii "video/x-matroska")
    ∷ (ascii "avi", ascii "video/x-msvideo")
    ∷ (ascii "webm", ascii "video/webm")
    ∷ (ascii "mpeg", ascii "video/mpeg")
    ∷ (ascii "ogv", ascii "video/ogg")
    ∷ (ascii "flv", ascii "video/x-flv")
    ∷ (ascii "ts", ascii "video/mp2t")
    ∷ (ascii "3gp", ascii "video/3gpp")
    ∷ (ascii "wmv", ascii "video/x-ms-wmv")
    ∷ (ascii "m2ts", ascii "video/mp2t")
    ∷ (ascii "mxf", ascii "video/mxf")
    ∷ (ascii "av1", ascii "video/av1")
    ∷ (ascii "mp3", ascii "audio/mpeg")
    ∷ (ascii "ogg", ascii "audio/ogg")
    ∷ (ascii "flac", ascii "audio/flac")
    ∷ (ascii "wav", ascii "audio/wav")
    ∷ (ascii "m4a", ascii "audio/mp4")
    ∷ (ascii "aac", ascii "audio/aac")
    ∷ (ascii "midi", ascii "audio/midi")
    ∷ (ascii "opus", ascii "audio/ogg")
    ∷ (ascii "oga", ascii "audio/ogg")
    ∷ (ascii "weba", ascii "audio/webm")
    ∷ (ascii "wma", ascii "audio/x-ms-wma")
    ∷ (ascii "aiff", ascii "audio/aiff")
    ∷ (ascii "pdf", ascii "application/pdf")
    ∷ (
      ascii "docx",
      ascii "application/vnd.openxmlformats-officedocument.wordprocessingml.document",
    )
    ∷ (ascii "xlsx", ascii "application/vnd.openxmlformats-officedocument.spreadsheetml.sheet")
    ∷ (
      ascii "pptx",
      ascii "application/vnd.openxmlformats-officedocument.presentationml.presentation",
    )
    ∷ (ascii "odt", ascii "application/vnd.oasis.opendocument.text")
    ∷ (ascii "odp", ascii "application/vnd.oasis.opendocument.presentation")
    ∷ (ascii "ods", ascii "application/vnd.oasis.opendocument.spreadsheet")
    ∷ (ascii "doc", ascii "application/msword")
    ∷ (ascii "xls", ascii "application/vnd.ms-excel")
    ∷ (ascii "ppt", ascii "application/vnd.ms-powerpoint")
    ∷ (ascii "epub", ascii "application/epub+zip")
    ∷ (ascii "rtf", ascii "application/rtf")
    ∷ (ascii "html", ascii "text/html")
    ∷ (ascii "xhtml", ascii "application/xhtml+xml")
    ∷ (ascii "zip", ascii "application/zip")
    ∷ (ascii "tar", ascii "application/x-tar")
    ∷ (ascii "gz", ascii "application/gzip")
    ∷ (ascii "rar", ascii "application/vnd.rar")
    ∷ (ascii "7z", ascii "application/x-7z-compressed")
    ∷ (ascii "xml", ascii "text/xml")
    ∷ (ascii "json", ascii "application/json")
    ∷ (ascii "txt", ascii "text/plain")
    ∷ (ascii "csv", ascii "text/csv")
    ∷ (ascii "md", ascii "text/markdown")
    ∷ (ascii "usdz", ascii "model/vnd.usdz+zip")
    ∷ (ascii "usd", ascii "model/vnd.usdz+zip")
    ∷ (ascii "glb", ascii "model/gltf-binary")
    ∷ (ascii "gltf", ascii "model/gltf+json")
    ∷ (ascii "obj", ascii "model/obj")
    ∷ (ascii "fbx", ascii "application/vnd.fbx")
    ∷ (ascii "dae", ascii "model/vnd.collada+xml")
    ∷ (ascii "stl", ascii "model/stl")
    ∷ (ascii "vrml", ascii "model/vrml")
    ∷ (ascii "step", ascii "model/step")
    ∷ (ascii "iges", ascii "model/iges")
    ∷ []

unfoldable pub ext_to_mime : Bytes → Bytes
unfolding arm
ext_to_mime ext = arm mimes_by_extension (ascii "application/octet-stream") ext
