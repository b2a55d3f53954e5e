-- ===== src/HttpBuf/Whole.antt =====
-- With a stream and a server that do not fail, the pages of tier1/src/http_buf.rs come to hold what a
-- read asks for.
use thumbrella.Base.{
  ℕ, ◌+◌, ◌-◌, ◌*◌, ◌/◌, ◌%◌, ◌≤◌, ◌<◌, ◌≡◌, refl, sym, ap, subst, ◌∙◌, ◌⊎◌, inl, inr, Bool, true,
  false, ◌&&◌, ◌||◌, none, some, List, [], ◌∷◌, Bytes, ltb, leb, unwrap_or, length, Bool-cases,
  ltb→lt, ltb_ge, leb→le, lt_leb, and_both, arith,
}
use thumbrella.HttpBuf.Buffer.{
  Event, chunk, broken, Got, ok, network, seek_behind_stream, Connect, HttpBuffer, open_buffer,
}
use thumbrella.HttpBuf.Fetch.{
  received, fetch_tail_into_pages, enough, forward, ensure_page_cached, expected_len, past_end,
  stream_skip_threshold, tail_fetch_size,
}
use thumbrella.HttpBuf.Pages.{page_size, Pages, page_of, store_chunk_at}
use thumbrella.HttpBuf.Pages.Holds.{Holds}
use thumbrella.HttpBuf.Pages.Stored.{NoGap}
use thumbrella.HttpBuf.Sound.{
  IsSound, Delivers, open_buffer-IsSound, ensure_one_of, store_chunk_at-Grown,
}

-- The stream does not break, and ends with the file.
abbrev pub Completes : ℕ → ℕ → List Event → Type 0
Completes size pos [] = pos ≡ size
Completes size pos (chunk c ∷ es) = Completes size (pos + length c) es
Completes size pos (broken ∷ es) = ⊥

-- A server that answers a request for the bytes from a start to the end of the file with all of them.
abbrev pub ServesTail : Bytes → Connect → Type 0
ServesTail file connect =
    (start : ℕ)
    → start < length file
    → (buf : Bytes) × (received (connect start (length file - 1)) ≡ some buf)
      × Holds file start buf
      × (start + length buf ≡ length file)

-- A sound buffer that reads through the pages, knows the length of the file and whose stream completes;
-- its pages have all that the stream has passed.
pub record IsWhole (file : Bytes) (b : HttpBuffer) : Type 0 where
  pub sound : IsSound file b
  pub cached : b.streaming_mode ≡ false
  pub full_length : b.content_length ≡ some (length file)
  pub no_override : b.eof_override ≡ none
  pub completes : Completes (length file) b.stream_pos b.stream
  pub passed : (pos : ℕ) → pos < b.stream_pos → pos % 4096 < length (page_of b.pages (pos / 4096))

-- The pages have the bytes of the page up to the end of the file.
abbrev pub HasPage : Bytes → HttpBuffer → ℕ → Type 0
HasPage file b i =
    (pos : ℕ)
    → i * 4096 ≤ pos
    → pos < i * 4096 + 4096
    → pos < length file
    → pos % 4096 < length (page_of b.pages i)

-- A step that succeeds, keeps the buffer whole and the cursor, and brings the page.
abbrev pub Brings : Bytes → HttpBuffer → ℕ → HttpBuffer × Got (Unit {0}) → Type 0
Brings file b i (b', ok done) = IsWhole file b' × (b'.cursor ≡ b.cursor) × HasPage file b' i
Brings file b i (b', network) = ⊥
Brings file b i (b', seek_behind_stream) = ⊥

or_cases : (a b : Bool) → (a || b) ≡ true → (a ≡ true) ⊎ (b ≡ true)
or_cases true b h = inl refl
or_cases false b h = inr h

on_page :
    (pages : Pages) (i pos : ℕ)
    → i * 4096 ≤ pos
    → pos < i * 4096 + 4096
    → pos % 4096 < length (page_of pages (pos / 4096))
    → pos % 4096 < length (page_of pages i)
on_page pages i pos from to h =
    let same : pos / 4096 ≡ i = omega arith in
    subst (λ k. pos % 4096 < length (page_of pages k)) same h

module _ (file : Bytes) where
  pub open_buffer-IsWhole :
      (ranges : Bool) (stream : List Event)
      → Delivers file 0 stream
      → Completes (length file) 0 stream
      → IsWhole file (open_buffer (some (length file)) ranges stream)
  unfolding open_buffer
  open_buffer-IsWhole ranges stream feed completes = record {
    sound = open_buffer-IsSound file (some (length file)) ranges stream feed;
    cached = refl;
    full_length = refl;
    no_override = refl;
    completes = completes;
    passed = λ pos h. absurd (omega arith);
  }

  -- A page with as many bytes as the source expects is there.
  page_by_length :
      (b : HttpBuffer) (i : ℕ)
      → expected_len (some (length file)) i ≤ length (page_of b.pages i)
      → HasPage file b i
  page_by_length b i enough pos from to inside = omega arith

  -- So is one that the stream has passed.
  page_passed :
      (b : HttpBuffer) (i : ℕ)
      → ((pos : ℕ) → pos < b.stream_pos → pos % 4096 < length (page_of b.pages (pos / 4096)))
      → (i * 4096 + 4096 ≤ b.stream_pos) ⊎ (b.stream_pos ≡ length file)
      → HasPage file b i
  page_passed b i passed (inl beyond) pos from to inside =
      let same : pos / 4096 ≡ i = omega arith in
      subst (λ k. pos % 4096 < length (page_of b.pages k)) same (passed pos (omega arith))
  page_passed b i passed (inr ended) pos from to inside =
      let same : pos / 4096 ≡ i = omega arith in
      subst (λ k. pos % 4096 < length (page_of b.pages k)) same (passed pos (omega arith))

  enough-HasPage :
      (b : HttpBuffer) (i : ℕ)
      → ((pos : ℕ) → pos < b.stream_pos → pos % 4096 < length (page_of b.pages (pos / 4096)))
      → enough b i (expected_len (some (length file)) i) ≡ true
      → HasPage file b i
  enough-HasPage b i passed e =
      elim (or_cases (leb (expected_len (some (length file)) i) (length (page_of b.pages i)))
        (leb (i * page_size + page_size) b.stream_pos) e) [
          | inl long ↦
              page_by_length b i
                (leb→le (expected_len (some (length file)) i) (length (page_of b.pages i)) long)
          | inr beyond ↦
              page_passed b i passed (inl (leb→le (i * page_size + page_size) b.stream_pos beyond))
        ]

  forward-Brings :
      (es : List Event) (b : HttpBuffer) (i : ℕ)
      → IsWhole file (record b { stream = es })
      → Brings file b i (forward es b i (expected_len (some (length file)) i))
  unfolding forward
  forward-Brings [] b i whole =
      elim (Bool-cases (enough b i (expected_len (some (length file)) i))) [
        | inl e ↦ rw e (whole, refl, enough-HasPage b i whole.passed e)
        | inr e ↦
            rw (e, whole.full_length)
              (
                record {
                  sound = record {
                    parts = whole.sound.parts;
                    feed = tt;
                    no_gap = whole.sound.no_gap;
                    chunk_holds = whole.sound.chunk_holds;
                  };
                  cached = whole.cached;
                  full_length = refl;
                  no_override = whole.no_override;
                  completes = whole.completes;
                  passed = whole.passed;
                },
                refl,
                page_passed b i whole.passed (inr whole.completes),
              )
      ]
  forward-Brings (broken ∷ es) b i whole = absurd whole.completes
  forward-Brings (chunk c ∷ es) b i whole =
      elim (Bool-cases (enough b i (expected_len (some (length file)) i))) [
        | inl e ↦ rw e (whole, refl, enough-HasPage b i whole.passed e)
        | inr e ↦
            let sound = whole.sound in
            let grown =
              store_chunk_at-Grown file b.pages b.stream_pos c sound.parts sound.feed.0
                (sound.no_gap whole.cached) in
            rw e (
              forward-Brings es
                (record b {
                  pages = store_chunk_at b.pages b.stream_pos c;
                  stream_pos = b.stream_pos + length c;
                  bytes_fetched_count = b.bytes_fetched_count + length c;
                })
                i
                (record {
                  sound = record {
                    parts = grown.part;
                    feed = sound.feed.1;
                    no_gap = λ h. grown.no_gap;
                    chunk_holds = sound.chunk_holds;
                  };
                  cached = whole.cached;
                  full_length = whole.full_length;
                  no_override = whole.no_override;
                  completes = whole.completes;
                  passed = λ pos h. elim (Bool-cases (ltb pos b.stream_pos)) [
                    | inl old ↦ omega (
                      arith,
                      whole.passed pos (ltb→lt pos b.stream_pos old),
                      grown.grows (pos / 4096),
                    )
                    | inr new ↦ grown.covers pos (ltb_ge pos b.stream_pos new) h
                  ];
                }))
      ]

  module _ (connect : Connect) (serves : ServesTail file connect) where
    fetch_tail-Brings :
        (b : HttpBuffer) (i : ℕ)
        → i * 4096 < length file
        → length file - tail_fetch_size ≤ i * 4096
        → IsWhole file b
        → Brings file b i (fetch_tail_into_pages connect b (length file))
    unfolding fetch_tail_into_pages
    fetch_tail-Brings b i inside in_tail whole =
        let start = (length file - tail_fetch_size) / page_size * page_size in
        let (buf, e, holds, full) = serves start (omega arith) in
        let sound = whole.sound in
        let aligned : NoGap b.pages start = omega arith in
        let grown = store_chunk_at-Grown file b.pages start buf sound.parts holds aligned in
        rw (fetch_tail_into_pages, e)
          (
            record {
              sound = record {
                parts = grown.part;
                feed = sound.feed;
                no_gap = λ h. omega (arith, sound.no_gap h, grown.grows (b.stream_pos / 4096));
                chunk_holds = sound.chunk_holds;
              };
              cached = whole.cached;
              full_length = whole.full_length;
              no_override = whole.no_override;
              completes = whole.completes;
              passed = λ pos h. omega (arith, whole.passed pos h, grown.grows (pos / 4096));
            },
            refl,
            λ pos from to within.
                on_page (store_chunk_at b.pages start buf) i pos from to
                  (grown.covers pos (omega arith) (omega arith)),
          )

    pub ensure-Brings :
        (b : HttpBuffer) (i : ℕ)
        → i * 4096 < length file
        → IsWhole file b
        → Brings file b i (ensure_page_cached connect b i)
    ensure-Brings b i inside whole =
        ensure_one_of file (Brings file b i) connect b i known
          (subst (λ o. Brings file b i (forward b.stream b i (expected_len o i)))
            (sym whole.full_length) (forward-Brings b.stream b i whole))
          (λ total e w.
            let same : length file ≡ total = ap (λ o. unwrap_or o 0) (sym whole.full_length ∙ e) in
            let far = ltb stream_skip_threshold (i * page_size - b.stream_pos) in
            let (both, ranges) =
              and_both (leb (total - tail_fetch_size) (i * page_size) && far) b.accepts_ranges w in
            let (in_tail, gap) =
              and_both (leb (total - tail_fetch_size) (i * page_size)) far both in
            subst (λ n. Brings file b i (fetch_tail_into_pages connect b n)) same
              (fetch_tail-Brings b i inside
                (omega (arith, leb→le (total - tail_fetch_size) (i * page_size) in_tail)) whole))
      where
        known :
            (past_end b.content_length (i * page_size)
                || leb (expected_len b.content_length i) (length (page_of b.pages i))
                || leb (i * page_size + page_size) b.stream_pos)
              ≡ true
            → Brings file b i (b, ok tt)
        known e =
            let e' =
              subst
                (λ o.
                  (past_end o (i * page_size)
                    || leb (expected_len o i) (length (page_of b.pages i))
                    || leb (i * page_size + page_size) b.stream_pos)
                  ≡ true)
                whole.full_length e in
            (
              whole,
              refl,
              enough-HasPage b i whole.passed
                  (rw (lt_leb (length file) (i * page_size) inside) at e'),
            )
