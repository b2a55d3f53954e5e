-- ===== src/Shortcut/Tiff/Preview.antt =====
-- `find_tiff_embedded_jpeg_span` of tier1/src/pipeline/shortcut.rs against the directories of the file.
use thumbrella.Base.{ℕ, ◌≡◌, Bool, some, Bytes}
use thumbrella.Shortcut.Tiff.{tiff_header, find_tiff_embedded_jpeg_span}
use thumbrella.Shortcut.Tiff.Longest.{Ends-IsLongest}
use thumbrella.Shortcut.Tiff.Search.{IsLongest}
use thumbrella.Shortcut.Tiff.Turns.{span_turn-Ends}

-- The search of a TIFF file with a valid header ends, also where directories link each other in a
-- circle; its result is a preview of at least four bytes that some directory offers which the first one
-- reaches, and no directory reached so offers a longer one.
pub find_tiff_embedded_jpeg_span-IsLongest :
    (buf : Bytes) (little : Bool) (start : ℕ)
    → tiff_header buf ≡ some (little, start)
    → IsLongest buf little start (find_tiff_embedded_jpeg_span buf)
unfolding find_tiff_embedded_jpeg_span
find_tiff_embedded_jpeg_span-IsLongest buf little start head =
    rw (head, find_tiff_embedded_jpeg_span)
      (Ends-IsLongest buf little start _ (span_turn-Ends buf little start))
