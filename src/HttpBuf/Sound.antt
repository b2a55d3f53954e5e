-- ===== src/HttpBuf/Sound.antt =====
-- The invariant of the buffer of tier1/src/http_buf.rs: what it keeps and what its stream will give are
-- bytes of one file.
use thumbrella.Base.{
  ℕ, ◌+◌, ◌-◌, ◌*◌, ◌/◌, ◌≤◌, ◌≡◌, refl, inl, inr, Bool, true, false, ◌||◌, Option, some, List, [],
  ◌∷◌, Bytes, leb, length, Bool-cases, Option-cases, arith,
}
use thumbrella.HttpBuf.Buffer.{Event, chunk, broken, Got, ok, Connect, HttpBuffer, open_buffer}
use thumbrella.HttpBuf.Fetch.{
  received, fetch_tail_into_pages, enough, forward, ensure_page_cached, expected_len, wants_tail,
  past_end, stream_skip_threshold, tail_fetch_size,
}
use thumbrella.HttpBuf.Pages.{page_size, Pages, page_of, store_chunk_at}
use thumbrella.HttpBuf.Pages.Holds.{Holds, Holds-nil}
use thumbrella.HttpBuf.Pages.Stored.{IsPart, NoGap, Grown, store_loop-Grown}

-- The chunks of the stream are the file's bytes from the position on.
abbrev pub Delivers : Bytes → ℕ → List Event → Type 0
Delivers file pos [] = Unit {0}
Delivers file pos (chunk c ∷ es) = Holds file pos c × Delivers file (pos + length c) es
Delivers file pos (broken ∷ es) = Delivers file pos es

-- A server that answers a request for a range with bytes of the file from its start on.
abbrev pub Serves : Bytes → Connect → Type 0
Serves file connect =
    (start end : ℕ) (buf : Bytes) → received (connect start end) ≡ some buf → Holds file start buf

pub record IsSound (file : Bytes) (b : HttpBuffer) : Type 0 where
  pub parts : IsPart file b.pages
  pub feed : Delivers file b.stream_pos b.stream
  pub no_gap : b.streaming_mode ≡ false → NoGap b.pages b.stream_pos
  pub chunk_holds : Holds file b.streaming_chunk_start b.streaming_chunk

-- A sound buffer whose cursor and mode are those of the first one.
abbrev pub Keeps : Bytes → HttpBuffer → HttpBuffer → Type 0
Keeps file b b' = IsSound file b' × (b'.cursor ≡ b.cursor) × (b'.streaming_mode ≡ b.streaming_mode)

module _ (file : Bytes) where
  pub store_chunk_at-Grown :
      (pages : Pages) (offset : ℕ) (buf : Bytes)
      → IsPart file pages
      → Holds file offset buf
      → NoGap pages offset
      → Grown file pages (store_chunk_at pages offset buf) offset (length buf)
  unfolding store_chunk_at
  store_chunk_at-Grown pages offset buf parts holds no_gap =
      store_loop-Grown file (length buf) pages offset buf (omega arith) parts holds no_gap

  -- A buffer that was just opened on a stream of the file.
  pub open_buffer-IsSound :
      (content_length : Option ℕ) (ranges : Bool) (stream : List Event)
      → Delivers file 0 stream
      → IsSound file (open_buffer content_length ranges stream)
  unfolding open_buffer
  open_buffer-IsSound content_length ranges stream feed = record {
    parts = λ i. (omega arith, Holds-nil file (i * 4096));
    feed = feed;
    no_gap = λ e. omega arith;
    chunk_holds = Holds-nil file 0;
  }

  NoGap-grows :
      (pages pages' : Pages) (pos : ℕ)
      → ((i : ℕ) → length (page_of pages i) ≤ length (page_of pages' i))
      → NoGap pages pos
      → NoGap pages' pos
  NoGap-grows pages pages' pos grows h = omega (arith, grows (pos / 4096))

  -- Bytes stored where there is no gap.
  pub stored-IsSound :
      (b : HttpBuffer) (offset : ℕ) (buf : Bytes)
      → IsSound file b
      → Holds file offset buf
      → NoGap b.pages offset
      → IsSound file (record b { pages = store_chunk_at b.pages offset buf })
  stored-IsSound b offset buf sound holds no_gap =
      let grown = store_chunk_at-Grown b.pages offset buf sound.parts holds no_gap in
      record {
        parts = grown.part;
        feed = sound.feed;
        no_gap = λ cached.
            NoGap-grows b.pages (store_chunk_at b.pages offset buf) b.stream_pos grown.grows
              (sound.no_gap cached);
        chunk_holds = sound.chunk_holds;
      }

  -- The tail begins with a page, so no gap is left.
  pub fetch_tail-Keeps :
      (connect : Connect) (b : HttpBuffer) (total : ℕ)
      → Serves file connect
      → IsSound file b
      → Keeps file b (fetch_tail_into_pages connect b total).0
  unfolding fetch_tail_into_pages
  fetch_tail-Keeps connect b total serves sound =
      let start = (total - tail_fetch_size) / page_size * page_size in
      elim (Option-cases (received (connect start (total - 1)))) [
        | inl e ↦ rw (fetch_tail_into_pages, e) (sound, refl, refl)
        | inr (buf, e) ↦
            let aligned : NoGap b.pages start = omega arith in
            let done = stored-IsSound b start buf sound (serves start (total - 1) buf e) aligned in
            rw (fetch_tail_into_pages, e)
              (
                record {
                  parts = done.parts;
                  feed = done.feed;
                  no_gap = done.no_gap;
                  chunk_holds = done.chunk_holds;
                },
                refl,
                refl,
              )
      ]

  pub forward-Keeps :
      (es : List Event) (b : HttpBuffer) (target expected : ℕ)
      → b.streaming_mode ≡ false
      → IsSound file (record b { stream = es })
      → Keeps file b (forward es b target expected).0
  unfolding forward
  forward-Keeps [] b target expected cached sound = elim (Bool-cases (enough b target expected)) [
    | inl e ↦ rw e (sound, refl, refl)
    | inr e ↦ rw e (
      record {
        parts = sound.parts;
        feed = tt;
        no_gap = sound.no_gap;
        chunk_holds = sound.chunk_holds;
      },
      refl,
      refl,
    )
  ]
  forward-Keeps (broken ∷ es) b target expected cached sound =
      elim (Bool-cases (enough b target expected)) [
        | inl e ↦ rw e (sound, refl, refl)
        | inr e ↦ rw e (
          record {
            parts = sound.parts;
            feed = sound.feed;
            no_gap = sound.no_gap;
            chunk_holds = sound.chunk_holds;
          },
          refl,
          refl,
        )
      ]
  forward-Keeps (chunk c ∷ es) b target expected cached sound =
      elim (Bool-cases (enough b target expected)) [
        | inl e ↦ rw e (sound, refl, refl)
        | inr e ↦
            let grown =
              store_chunk_at-Grown b.pages b.stream_pos c sound.parts sound.feed.0
                (sound.no_gap cached) in
            rw e (
              forward-Keeps es
                (record b {
                  pages = store_chunk_at b.pages b.stream_pos c;
                  stream_pos = b.stream_pos + length c;
                  bytes_fetched_count = b.bytes_fetched_count + length c;
                })
                target expected cached
                (record {
                  parts = grown.part;
                  feed = sound.feed.1;
                  no_gap = λ h. grown.no_gap;
                  chunk_holds = sound.chunk_holds;
                }))
      ]

  -- The page is there or past the end, or the tail is fetched, or the stream goes on.
  pub ensure_one_of {ℓ} :
      (P : HttpBuffer × Got (Unit {0}) → Type ℓ) (connect : Connect) (b : HttpBuffer) (i : ℕ)
      → ((past_end b.content_length (i * page_size)
              || leb (expected_len b.content_length i) (length (page_of b.pages i))
              || leb (i * page_size + page_size) b.stream_pos)
            ≡ true
          → P (b, ok tt))
      → P (forward b.stream b i (expected_len b.content_length i))
      → ((total : ℕ)
          → b.content_length ≡ some total
          → wants_tail b total (i * page_size) stream_skip_threshold ≡ true
          → P (fetch_tail_into_pages connect b total))
      → P (ensure_page_cached connect b i)
  unfolding ensure_page_cached
  ensure_one_of P connect b i known forwarded tail =
      elim (Bool-cases (
        past_end b.content_length (i * page_size)
        || leb (expected_len b.content_length i) (length (page_of b.pages i))
        || leb (i * page_size + page_size) b.stream_pos)) [
          | inl e ↦ rw e (known e)
          | inr e ↦ elim (Option-cases b.content_length) [
            | inl none_known ↦ rw (e, none_known) forwarded
            | inr (total, len) ↦
                elim (Bool-cases (wants_tail b total (i * page_size) stream_skip_threshold)) [
                  | inl w ↦ rw (e, len, w) (tail total len w)
                  | inr w ↦ rw (e, len, w) forwarded
                ]
          ]
        ]

  pub ensure-Keeps :
      (connect : Connect) (b : HttpBuffer) (i : ℕ)
      → Serves file connect
      → b.streaming_mode ≡ false
      → IsSound file b
      → Keeps file b (ensure_page_cached connect b i).0
  ensure-Keeps connect b i serves cached sound =
      ensure_one_of (λ r. Keeps file b r.0) connect b i (λ e. (sound, refl, refl))
        (forward-Keeps b.stream b i (expected_len b.content_length i) cached sound)
        (λ total e w. fetch_tail-Keeps connect b total serves sound)
