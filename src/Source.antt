-- ===== src/Source.antt =====
-- The URLs of tier1/src/source.rs and tier1/src/pipeline/connect.rs as text.
use thumbrella.Base.{
  ℕ, ◌||◌, Option, none, some, [], ◌∷◌, ◌++◌, Bytes, ascii, bytes_eq, ◌==◌, if◌then◌else◌,
  to_ascii_lowercase, strip_prefix, ◌>>=◌,
}

-- `split_once("://")`.
unfoldable pub split_scheme : Bytes → Option (Bytes × Bytes)
split_scheme [] = none
split_scheme (c ∷ cs) =
    let rest = split_scheme cs in
    elim (strip_prefix (ascii "://") (c ∷ cs)) [
      | some behind ↦ some ([], behind)
      | none ↦ elim rest [ none ↦ none | some (a, b) ↦ some (c ∷ a, b) ]
    ]

-- `split(mark).next()`, and what it leaves.
unfoldable pub up_to : ℕ → Bytes → Bytes
up_to mark [] = []
up_to mark (c ∷ cs) = let rest = up_to mark cs in if c == mark then [] else c ∷ rest

unfoldable pub from : ℕ → Bytes → Bytes
from mark [] = []
from mark (c ∷ cs) = let rest = from mark cs in if c == mark then c ∷ cs else rest

unfoldable pub canonical_url : Bytes → Option Bytes
unfolding split_scheme up_to from
canonical_url raw = do
  (scheme, rest) ← split_scheme raw
  let lowered = to_ascii_lowercase scheme
  let path_rest = up_to b'?' (up_to b'#' rest)
  let canonical =
      lowered ++ (ascii "://" ++ (to_ascii_lowercase (up_to b'/' path_rest) ++ from b'/' path_rest))
  some (
      if bytes_eq lowered (ascii "http") || bytes_eq lowered (ascii "https")
      then canonical
      else raw)

-- `origin_of`: up to the first slash behind the scheme.
unfoldable pub origin_of : Bytes → Bytes
unfolding split_scheme up_to
origin_of url = elim (split_scheme url) [
  | none ↦ up_to b'/' url
  | some (scheme, rest) ↦ scheme ++ (ascii "://" ++ up_to b'/' rest)
]
