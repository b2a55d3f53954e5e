-- ===== src/HttpBuf/Pages.antt =====
-- The pages of tier1/src/http_buf.rs, and how a chunk is stored in them.
pub mod Holds
pub mod Stored
use thumbrella.Base.{
  ℕ, zero, suc, ◌+◌, ◌-◌, ◌/◌, ◌%◌, min, Option, some, [], ◌∷◌, ◌++◌, Bytes, ◌==◌, ltb,
  if◌then◌else◌, unwrap_or, length, take, drop,
}

abbrev pub page_size : ℕ
page_size = 4096

-- `BTreeMap<u64, Vec<u8>>`
abbrev pub Pages : Type 0
Pages = ℕ → Option Bytes

abbrev pub put : Pages → ℕ → Bytes → Pages
put pages i page j = if j == i then some page else pages j

abbrev pub page_of : Pages → ℕ → Bytes
page_of pages i = unwrap_or (pages i) []

abbrev pub zeros : ℕ → Bytes
zeros zero = []
zeros (suc n) = 0 ∷ zeros n

-- `page.resize(in_page, 0)` where the page is shorter.
abbrev pub padded : Bytes → ℕ → Bytes
padded page in_page = page ++ zeros (in_page - length page)

-- The loop of `store_chunk_at`: a byte that the page has is skipped, and the others are appended.
unfoldable pub store_loop : ℕ → Pages → ℕ → Bytes → Pages
store_loop zero pages offset buf = pages
store_loop (suc fuel) pages offset [] = pages
store_loop (suc fuel) pages offset (c ∷ cs) =
    let i = offset / page_size in
    let in_page = offset % page_size in
    let page = page_of pages i in
    let left = length (c ∷ cs) in
    let skip = min (length page - in_page) left in
    let have = padded page in_page in
    let fits = min (page_size - length have) left in
    let skipped = store_loop fuel pages (offset + skip) (drop skip (c ∷ cs)) in
    let appended =
      store_loop fuel (put pages i (have ++ take fits (c ∷ cs))) (offset + fits)
        (drop fits (c ∷ cs)) in
    if ltb in_page (length page) then skipped else appended

-- Each turn takes one byte at least.
unfoldable pub store_chunk_at : Pages → ℕ → Bytes → Pages
unfolding store_loop
store_chunk_at pages offset buf = store_loop (length buf) pages offset buf
