-- ===== src/HttpBuf/Ranges.antt =====
-- `fetch_range` of tier1/src/http_buf.rs: sound where the page of the start has no gap, and what it puts
-- into a gap.
use thumbrella.Base.{
  ℕ, zero, suc, ◌+◌, ◌-◌, ◌/◌, ◌%◌, ◌<◌, ◌≡◌, refl, subst, inl, inr, false, none, some, [], ◌∷◌,
  ◌++◌, Bytes, ◌==◌, ltb, min, length, get_elem?, take, drop, Bool-cases, Option-cases, ==_iff,
  ==_self, ge_ltb, arith,
}
use thumbrella.HttpBuf.Buffer.{Connect, HttpBuffer}
use thumbrella.HttpBuf.Fetch.{received, fetch_range}
use thumbrella.HttpBuf.Pages.{
  page_size, Pages, put, page_of, zeros, padded, store_loop, store_chunk_at,
}
use thumbrella.HttpBuf.Pages.Stored.{NoGap}
use thumbrella.HttpBuf.Sound.{Serves, IsSound, stored-IsSound}

get_elem?-append_left :
    (xs ys : Bytes) (j x : ℕ) → get_elem? xs j ≡ some x → get_elem? (xs ++ ys) j ≡ some x
get_elem?-append_left [] ys j x h = ground arith
get_elem?-append_left (y ∷ xs) ys zero x h = h
get_elem?-append_left (y ∷ xs) ys (suc j) x h = get_elem?-append_left xs ys j x h

get_elem?-zeros : (n j : ℕ) → j < n → get_elem? (zeros n) j ≡ some 0
get_elem?-zeros zero j h = absurd (omega arith)
get_elem?-zeros (suc n) zero h = refl
get_elem?-zeros (suc n) (suc j) h = get_elem?-zeros n j (omega arith)

-- A byte that is in a page stays there.
store_keeps :
    (fuel : ℕ) (pages : Pages) (offset : ℕ) (buf : Bytes) (i j x : ℕ)
    → get_elem? (page_of pages i) j ≡ some x
    → get_elem? (page_of (store_loop fuel pages offset buf) i) j ≡ some x
unfolding store_loop
store_keeps zero pages offset buf i j x h = h
store_keeps (suc fuel) pages offset [] i j x h = h
store_keeps (suc fuel) pages offset (c ∷ cs) i j x h =
    let k = offset / page_size in
    let in_page = offset % page_size in
    let page = page_of pages k in
    let buf = c ∷ cs in
    let have = padded page in_page in
    let n = min (page_size - length have) (length buf) in
    let more = have ++ take n buf in
    elim (Bool-cases (ltb in_page (length page))) [
      | inl e ↦
          let skip = min (length page - in_page) (length buf) in
          rw e (store_keeps fuel pages (offset + skip) (drop skip buf) i j x h)
      | inr e ↦ rw e (
          store_keeps fuel (put pages k more) (offset + n) (drop n buf) i j x
            (elim (Bool-cases (i == k)) [
              | inl same ↦
                  let here =
                    subst (λ m. get_elem? (page_of pages m) j ≡ some x) ((==_iff i k).0 same) h in
                  rw same (
                    get_elem?-append_left have (take n buf) j x
                      (get_elem?-append_left page (zeros (in_page - length page)) j x here))
              | inr other ↦ rw other h
            ]))
    ]

store_fills_zeros :
    (pages : Pages) (offset : ℕ) (buf : Bytes) (j : ℕ)
    → pages (offset / page_size) ≡ none
    → 0 < length buf
    → j < offset % page_size
    → get_elem? (page_of (store_chunk_at pages offset buf) (offset / page_size)) j ≡ some 0
unfolding store_chunk_at store_loop
store_fills_zeros pages offset [] j missing some_bytes before = absurd (omega arith)
store_fills_zeros pages offset (c ∷ cs) j missing some_bytes before =
    let k = offset / page_size in
    let in_page = offset % page_size in
    let buf = c ∷ cs in
    let have = padded [] in_page in
    let n = min (page_size - length have) (length buf) in
    let more = have ++ take n buf in
    rw (missing, ge_ltb in_page 0 (omega arith))
      (store_keeps (length cs) (put pages k more) (offset + n) (drop n buf) k j 0 (
        rw (==_self k) (
          get_elem?-append_left have (take n buf) j 0
            (get_elem?-zeros (in_page - 0) j (omega arith)))))

-- On a server that answers with bytes of the file, `fetch_range` keeps the buffer sound where the page
-- of the start has no gap before it.
pub fetch_range-IsSound :
    (file : Bytes) (connect : Connect) (b : HttpBuffer) (start len : ℕ)
    → Serves file connect
    → NoGap b.pages start
    → IsSound file b
    → IsSound file (fetch_range connect b start len).0
unfolding fetch_range
fetch_range-IsSound file connect b start len serves no_gap sound = elim (Bool-cases (len == 0)) [
  | inl e ↦ rw (fetch_range, e) sound
  | inr e ↦ elim (Option-cases (received (connect start (start + len - 1)))) [
    | inl failed ↦ rw (fetch_range, e, failed) sound
    | inr (buf, got) ↦
        let done =
          stored-IsSound file b start buf sound (serves start (start + len - 1) buf got) no_gap in
        rw (fetch_range, e, got)
          (record {
            parts = done.parts;
            feed = done.feed;
            no_gap = done.no_gap;
            chunk_holds = done.chunk_holds;
          })
  ]
]

-- A range that is fetched from inside a page that is not cached leaves the page with a 0 for every byte
-- before the start, whatever the file has there.
pub fetch_range_fills_zeros :
    (connect : Connect) (b : HttpBuffer) (start len : ℕ) (buf : Bytes) (j : ℕ)
    → received (connect start (start + len - 1)) ≡ some buf
    → 0 < len
    → 0 < length buf
    → b.pages (start / page_size) ≡ none
    → j < start % page_size
    → get_elem? (page_of (fetch_range connect b start len).0.pages (start / page_size)) j ≡ some 0
unfolding fetch_range
fetch_range_fills_zeros connect b start len buf j got some_len some_bytes missing before =
    let asked : (len == 0) ≡ false = ground arith in
    rw (fetch_range, asked, got) (store_fills_zeros b.pages start buf j missing some_bytes before)
