-- ===== src/Shortcut/Id3/Cover.antt =====
-- The cover image of an ID3v2 tag in tier1/src/pipeline/shortcut.rs, from the bytes of the file.
use thumbrella.Base.{ℕ, [], ◌∷◌, ◌++◌, Bytes, length}
use thumbrella.Shortcut.Id3.Apic.{size_bytes}
use thumbrella.Shortcut.Id3.Frames.{Frame, id_of, frame_bytes}

-- What the frame behind `front` shows at its position.
module _ (major : ℕ) (front : Bytes) (f : Frame) (rest : Bytes) where
  abbrev buf : Bytes
  buf = front ++ frame_bytes major f rest

  abbrev sized : Bytes
  sized = size_bytes major (length f.body)

  abbrev behind_size : Bytes
  behind_size = f.flags0 ∷ f.flags1 ∷ (f.body ++ rest)

  abbrev before_body : Bytes
  before_body = front ++ (id_of f ++ (sized ++ f.flags0 ∷ f.flags1 ∷ []))

-- The ten bytes at the front of the tag.
abbrev pub tag_header : ℕ → ℕ → ℕ → Bytes → Bytes
tag_header major minor flags size = 73 ∷ 68 ∷ 51 ∷ major ∷ minor ∷ flags ∷ size
