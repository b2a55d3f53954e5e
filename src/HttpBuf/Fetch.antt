-- ===== src/HttpBuf/Fetch.antt =====
-- How the buffer of tier1/src/http_buf.rs gets bytes: from the stream, or by a request for a range, which
-- is a parameter.
use thumbrella.Base.{
  ℕ, ◌+◌, ◌-◌, ◌*◌, ◌/◌, min, Bool, true, false, ◌&&◌, ◌||◌, Option, none, some, List, [], ◌∷◌,
  ◌++◌, Bytes, ◌==◌, ltb, leb, if◌then◌else◌, length,
}
use thumbrella.HttpBuf.Buffer.{Event, chunk, broken, Got, ok, network, Connect, HttpBuffer, or}
use thumbrella.HttpBuf.Pages.{page_size, page_of, store_chunk_at}

abbrev pub stream_skip_threshold : ℕ
stream_skip_threshold = 512000

abbrev pub tail_fetch_size : ℕ
tail_fetch_size = 61440

-- `while let Some(chunk) = stream.next_chunk().await? { … }`
unfoldable pub collect : List Event → Option Bytes
collect [] = some []
collect (chunk c ∷ es) = elim (collect es) [ none ↦ none | some cs ↦ some (c ++ cs) ]
collect (broken ∷ es) = none

abbrev pub received : Option (List Event) → Option Bytes
received none = none
received (some es) = collect es

unfoldable pub fetch_tail_into_pages : Connect → HttpBuffer → ℕ → HttpBuffer × Got (Unit {0})
unfolding store_chunk_at collect
fetch_tail_into_pages connect b content_length =
    let tail_start = (content_length - tail_fetch_size) / page_size * page_size in
    elim (received (connect tail_start (content_length - 1))) [
      | none ↦ (b, network)
      | some buf ↦ (
        record b {
          did_tail_fetch = true;
          bytes_fetched_count = b.bytes_fetched_count + length buf;
          pages = store_chunk_at b.pages tail_start buf;
        },
        ok tt,
      )
    ]

unfoldable pub fetch_range : Connect → HttpBuffer → ℕ → ℕ → HttpBuffer × Got Bytes
unfolding store_chunk_at collect
fetch_range connect b start len =
    if len == 0 then (b, ok []) else elim (received (connect start (start + len - 1))) [
      | none ↦ (b, network)
      | some buf ↦ (
        record b {
          bytes_fetched_count = b.bytes_fetched_count + length buf;
          pages = store_chunk_at b.pages start buf;
        },
        ok buf,
      )
    ]

-- How many bytes a page has when it is whole.
abbrev pub expected_len : Option ℕ → ℕ → ℕ
expected_len none page_index = page_size
expected_len (some total) page_index =
    min total (page_index * page_size + page_size) - page_index * page_size

abbrev pub enough : HttpBuffer → ℕ → ℕ → Bool
enough b target expected =
    leb expected (length (page_of b.pages target))
    || leb (target * page_size + page_size) b.stream_pos

-- The loop of `stream_forward_to_page` on what the stream still gives; it stops when the page has
-- `expected` bytes or the stream is past it.
unfoldable pub forward : List Event → HttpBuffer → ℕ → ℕ → HttpBuffer × Got (Unit {0})
unfolding store_chunk_at
forward [] b target expected =
    if enough b target expected
    then (record b { stream = [] }, ok tt)
    else (record b { content_length = or b.content_length (some b.stream_pos); stream = [] }, ok tt)
forward (broken ∷ es) b target expected =
    if enough b target expected
    then (record b { stream = broken ∷ es }, ok tt)
    else (record b { stream = es }, network)
forward (chunk c ∷ es) b target expected =
    let later =
      forward es
        (record b {
          pages = store_chunk_at b.pages b.stream_pos c;
          stream_pos = b.stream_pos + length c;
          bytes_fetched_count = b.bytes_fetched_count + length c;
        })
        target expected in
    if enough b target expected then (record b { stream = chunk c ∷ es }, ok tt) else later

-- The position lies in the tail, and far enough in front of the stream.
abbrev pub wants_tail : HttpBuffer → ℕ → ℕ → ℕ → Bool
wants_tail b total start threshold =
    leb (total - tail_fetch_size) start && ltb threshold (start - b.stream_pos) && b.accepts_ranges

abbrev pub past_end : Option ℕ → ℕ → Bool
past_end none start = false
past_end (some total) start = leb total start

unfoldable pub ensure_page_cached : Connect → HttpBuffer → ℕ → HttpBuffer × Got (Unit {0})
unfolding forward fetch_tail_into_pages
ensure_page_cached connect b page_index =
    let page_start = page_index * page_size in
    let expected = expected_len b.content_length page_index in
    let forwarded = forward b.stream b page_index expected in
    if past_end b.content_length page_start
      || leb expected (length (page_of b.pages page_index))
      || leb (page_start + page_size) b.stream_pos
    then (b, ok tt)
    else elim b.content_length [
      | none ↦ forwarded
      | some total ↦
          if wants_tail b total page_start stream_skip_threshold
          then fetch_tail_into_pages connect b total
          else forwarded
    ]
