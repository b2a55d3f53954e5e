-- ===== src/HttpBuf/Pages/Stored.antt =====
-- What `store_chunk_at` of tier1/src/http_buf.rs keeps: the pages stay parts of the file.
use thumbrella.Base.{
  ℕ, zero, suc, ◌+◌, ◌-◌, ◌*◌, ◌/◌, ◌%◌, ◌≤◌, ◌<◌, ◌≡◌, refl, ap, subst, inl, inr, false, [], ◌∷◌,
  ◌++◌, Bytes, ◌==◌, ltb, min, length, take, drop, length-append, length-take, length-drop,
  Bool-cases, ==_iff, ltb→lt, ltb_ge, arith,
}
use thumbrella.HttpBuf.Pages.{Pages, put, page_of, padded, store_loop}
use thumbrella.HttpBuf.Pages.Holds.{Holds, Holds-append, Holds-take, Holds-drop}

-- A page has at most its size, and its bytes are those of the file.
abbrev pub IsPart : Bytes → Pages → Type 0
IsPart file pages =
    (i : ℕ) → (length (page_of pages i) ≤ 4096) × Holds file (i * 4096) (page_of pages i)

-- The page of the position has all the bytes before it.
abbrev pub NoGap : Pages → ℕ → Type 0
NoGap pages pos = pos % 4096 ≤ length (page_of pages (pos / 4096))

page_of-put_self : (pages : Pages) (i : ℕ) (page : Bytes) → page_of (put pages i page) i ≡ page
page_of-put_self pages i page = ground arith

page_of-put_other :
    (pages : Pages) (i j : ℕ) (page : Bytes)
    → (j == i) ≡ false
    → page_of (put pages i page) j ≡ page_of pages j
page_of-put_other pages i j page h = rw h refl

NoGap-within :
    (pages : Pages) (i pos : ℕ)
    → length (page_of pages i) ≤ 4096
    → i * 4096 ≤ pos
    → pos ≤ i * 4096 + length (page_of pages i)
    → NoGap pages pos
NoGap-within pages i pos small low high = elim (Bool-cases (ltb pos (i * 4096 + 4096))) [
  | inl e ↦
      let here : pos / 4096 ≡ i = omega (arith, ltb→lt pos (i * 4096 + 4096) e) in
      rw here (omega (arith, ltb→lt pos (i * 4096 + 4096) e))
  | inr e ↦
      let next : pos % 4096 ≡ 0 = omega (arith, ltb_ge pos (i * 4096 + 4096) e) in
      rw next (omega arith)
]

-- What one more stretch of bytes does to the pages.
pub record Grown (file : Bytes) (pages pages' : Pages) (offset size : ℕ) : Type 0 where
  pub part : IsPart file pages'
  pub grows : (i : ℕ) → length (page_of pages i) ≤ length (page_of pages' i)
  pub covers :
      (pos : ℕ)
      → offset ≤ pos
      → pos < offset + size
      → pos % 4096 < length (page_of pages' (pos / 4096))
  pub no_gap : NoGap pages' (offset + size)

module _ (file : Bytes) where
  IsPart-put :
      (pages : Pages) (i : ℕ) (page : Bytes)
      → IsPart file pages
      → length page ≤ 4096
      → Holds file (i * 4096) page
      → IsPart file (put pages i page)
  IsPart-put pages i page parts small holds j = elim (Bool-cases (j == i)) [
    | inl e ↦ let same = (==_iff j i).0 e in rw (e, same) (small, holds)
    | inr e ↦ rw e (parts j)
  ]

  put_grows :
      (pages : Pages) (i : ℕ) (page : Bytes)
      → length (page_of pages i) ≤ length page
      → (j : ℕ) → length (page_of pages j) ≤ length (page_of (put pages i page) j)
  put_grows pages i page more j = elim (Bool-cases (j == i)) [
    | inl e ↦ rw (e, (==_iff j i).0 e) more
    | inr e ↦ rw e (omega arith)
  ]

  Grown-none :
      (pages : Pages) (offset : ℕ)
      → IsPart file pages
      → NoGap pages offset
      → Grown file pages pages offset 0
  Grown-none pages offset parts no_gap = record {
    part = parts;
    grows = λ i. omega arith;
    covers = λ pos from to. absurd (omega arith);
    no_gap = subst (NoGap pages) (omega arith) no_gap;
  }

  -- One step for the first `n` bytes, and the rest.
  Grown-then :
      (pages pages1 pages2 : Pages) (offset n size : ℕ)
      → n ≤ size
      → ((i : ℕ) → length (page_of pages i) ≤ length (page_of pages1 i))
      → ((pos : ℕ)
          → offset ≤ pos
          → pos < offset + n
          → pos % 4096 < length (page_of pages1 (pos / 4096)))
      → Grown file pages1 pages2 (offset + n) (size - n)
      → Grown file pages pages2 offset size
  Grown-then pages pages1 pages2 offset n size le grows1 covers1 rest = record {
    part = rest.part;
    grows = λ i. omega (arith, grows1 i, rest.grows i);
    covers = λ pos from to. elim (Bool-cases (ltb pos (offset + n))) [
      | inl e ↦ omega (arith, covers1 pos from (ltb→lt pos (offset + n) e), rest.grows (pos / 4096))
      | inr e ↦ rest.covers pos (ltb_ge pos (offset + n) e) (omega arith)
    ];
    no_gap = subst (NoGap pages2) (omega arith) rest.no_gap;
  }

  in_page_of :
      (pages : Pages) (offset n pos : ℕ)
      → length (page_of pages (offset / 4096)) ≤ 4096
      → offset % 4096 + n ≤ length (page_of pages (offset / 4096))
      → offset ≤ pos
      → pos < offset + n
      → pos % 4096 < length (page_of pages (pos / 4096))
  in_page_of pages offset n pos small fits from to =
      let same : pos / 4096 ≡ offset / 4096 = omega arith in rw same (omega arith)

  append_nil : (xs : Bytes) → xs ++ [] ≡ xs
  append_nil [] = refl
  append_nil (x ∷ xs) = ap (◌∷◌ x) (append_nil xs)

  padded_whole : (page : Bytes) (in_page : ℕ) → in_page ≡ length page → padded page in_page ≡ page
  padded_whole page in_page e =
      let none_left : in_page - length page ≡ 0 = omega arith in rw none_left (append_nil page)

  -- The page of the position, with the bytes that fit behind it.
  filled : Pages → ℕ → Bytes → Bytes
  filled pages offset buf =
      page_of pages (offset / 4096)
      ++ take (min (4096 - length (page_of pages (offset / 4096))) (length buf)) buf

  length-filled :
      (pages : Pages) (offset : ℕ) (buf : Bytes)
      → length (filled pages offset buf)
        ≡ length (page_of pages (offset / 4096))
          + min (4096 - length (page_of pages (offset / 4096))) (length buf)
  unfolding filled
  length-filled pages offset buf =
      let page = page_of pages (offset / 4096) in
      let n = min (4096 - length page) (length buf) in
      omega (arith, length-append page (take n buf), length-take n buf)

  filled-Holds :
      (pages : Pages) (offset : ℕ) (buf : Bytes)
      → IsPart file pages
      → Holds file offset buf
      → offset % 4096 ≡ length (page_of pages (offset / 4096))
      → Holds file (offset / 4096 * 4096) (filled pages offset buf)
  unfolding filled
  filled-Holds pages offset buf parts holds at_end =
      let page = page_of pages (offset / 4096) in
      let n = min (4096 - length page) (length buf) in
      let here : offset ≡ offset / 4096 * 4096 + length page = omega arith in
      Holds-append file (offset / 4096 * 4096) page (take n buf) (parts (offset / 4096)).1
        (subst (λ k. Holds file k (take n buf)) here (Holds-take file offset n buf holds))

  pub store_loop-Grown :
      (fuel : ℕ) (pages : Pages) (offset : ℕ) (buf : Bytes)
      → length buf ≤ fuel
      → IsPart file pages
      → Holds file offset buf
      → NoGap pages offset
      → Grown file pages (store_loop fuel pages offset buf) offset (length buf)
  unfolding store_loop filled
  store_loop-Grown zero pages offset [] enough parts holds no_gap =
      Grown-none pages offset parts no_gap
  store_loop-Grown zero pages offset (c ∷ cs) enough parts holds no_gap = absurd (omega arith)
  store_loop-Grown (suc fuel) pages offset [] enough parts holds no_gap =
      Grown-none pages offset parts no_gap
  store_loop-Grown (suc fuel) pages offset (c ∷ cs) enough parts holds no_gap =
      let i = offset / 4096 in
      let page = page_of pages i in
      let buf = c ∷ cs in
      let small = (parts i).0 in
      elim (Bool-cases (ltb (offset % 4096) (length page))) [
        | inl inner ↦
            let skip = min (length page - offset % 4096) (length buf) in
            let some_page = ltb→lt (offset % 4096) (length page) inner in
            rw inner (
              Grown-then pages pages _ offset skip (length buf) (omega arith) (λ j. omega arith)
                (λ pos from to. in_page_of pages offset skip pos small (omega arith) from to)
                (subst (Grown file pages _ (offset + skip)) (length-drop skip buf) (
                  store_loop-Grown fuel pages (offset + skip) (drop skip buf)
                    (omega (arith, length-drop skip buf)) parts
                    (Holds-drop file offset skip buf holds)
                    (NoGap-within pages i (offset + skip) small (omega arith) (omega arith)))))
        | inr outer ↦
            let at_end : offset % 4096 ≡ length page =
              omega (arith, ltb_ge (offset % 4096) (length page) outer) in
            let n = min (4096 - length page) (length buf) in
            let pages1 = put pages i (filled pages offset buf) in
            let size = length-filled pages offset buf in
            let here = ap length (page_of-put_self pages i (filled pages offset buf)) in
            let parts1 =
              IsPart-put pages i (filled pages offset buf) parts (omega arith)
                (filled-Holds pages offset buf parts holds at_end) in
            rw (outer, padded_whole page (offset % 4096) at_end)
              (Grown-then pages pages1 _ offset n (length buf) (omega arith)
                (put_grows pages i (filled pages offset buf) (omega arith))
                (λ pos from to. in_page_of pages1 offset n pos (omega arith) (omega arith) from to)
                (subst (Grown file pages1 _ (offset + n)) (length-drop n buf) (
                  store_loop-Grown fuel pages1 (offset + n) (drop n buf)
                    (omega (arith, length-drop n buf)) parts1 (Holds-drop file offset n buf holds)
                    (NoGap-within pages1 i (offset + n) (omega arith) (omega arith)
                      (omega arith)))))
      ]
