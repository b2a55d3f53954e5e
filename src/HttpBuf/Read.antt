-- ===== src/HttpBuf/Read.antt =====
-- How the buffer of tier1/src/http_buf.rs is read, through the pages or in streaming mode.
use thumbrella.Base.{
  ℕ, zero, suc, ◌+◌, ◌-◌, ◌*◌, ◌/◌, ◌%◌, min, Bool, false, ◌&&◌, Option, none, some, List, [], ◌∷◌,
  ◌++◌, Bytes, ◌==◌, ltb, leb, if◌then◌else◌, unwrap_or, length, take, drop,
}
use thumbrella.HttpBuf.Buffer.{
  Event, chunk, broken, Got, ok, network, seek_behind_stream, chain, Connect, HttpBuffer, or,
}
use thumbrella.HttpBuf.Fetch.{ensure_page_cached, fetch_tail_into_pages, past_end, wants_tail}
use thumbrella.HttpBuf.Pages.{page_size, page_of}

-- How many bytes may still be read before the end that is known.
abbrev pub up_to_end : Option ℕ → ℕ → ℕ → ℕ
up_to_end none cursor available = available
up_to_end (some end) cursor available = min (end - cursor) available

-- A read of `want` bytes gives the bytes that it put into the buffer of the caller.
unfoldable pub copy_page : HttpBuffer → ℕ → HttpBuffer × Got Bytes
copy_page b want =
    let page = page_of b.pages (b.cursor / page_size) in
    let in_page = b.cursor % page_size in
    let limit = up_to_end (or b.eof_override b.content_length) b.cursor (length page - in_page) in
    let n = min want limit in (record b { cursor = b.cursor + n }, ok (take n (drop in_page page)))

unfoldable pub read_cached : Connect → HttpBuffer → ℕ → HttpBuffer × Got Bytes
unfolding ensure_page_cached copy_page
read_cached connect b want =
    chain (ensure_page_cached connect b (b.cursor / page_size)) (λ b' done. copy_page b' want)

abbrev pub in_chunk : HttpBuffer → Bool
in_chunk b =
    leb b.streaming_chunk_start b.cursor
    && ltb b.cursor (b.streaming_chunk_start + length b.streaming_chunk)

abbrev pub copy_chunk : HttpBuffer → ℕ → HttpBuffer × Got Bytes
copy_chunk b want =
    let part = drop (b.cursor - b.streaming_chunk_start) b.streaming_chunk in
    (record b { cursor = b.cursor + min want (length part) }, ok (take want part))

-- The last loop of `read_streaming`: chunks that end before the cursor are passed over.
unfoldable pub pull : List Event → HttpBuffer → ℕ → HttpBuffer × Got Bytes
pull [] b want =
    (record b { content_length = or b.content_length (some b.stream_pos); stream = [] }, ok [])
pull (broken ∷ es) b want = (record b { stream = es }, network)
pull (chunk c ∷ es) b want =
    let b' = record b {
      stream = es;
      streaming_chunk_start = b.stream_pos;
      stream_pos = b.stream_pos + length c;
      bytes_fetched_count = b.bytes_fetched_count + length c;
      streaming_chunk = c;
    } in
    let later = pull es b' want in if in_chunk b' then copy_chunk b' want else later

-- A page, the chunk at hand, or the chunks that follow.
unfoldable pub read_known : HttpBuffer → ℕ → HttpBuffer × Got Bytes
unfolding pull
read_known b want =
    let page = page_of b.pages (b.cursor / page_size) in
    let in_page = b.cursor % page_size in
    if ltb in_page (length page)
    then (
      record b { cursor = b.cursor + min want (length page - in_page) },
      ok (take want (drop in_page page)),
    )
    else if in_chunk b
    then copy_chunk b want
    else if ltb b.cursor b.stream_pos
    then (b, seek_behind_stream)
    else pull b.stream b want

abbrev pub tail_wanted : HttpBuffer → Option ℕ → Bool
tail_wanted b none = false
tail_wanted b (some total) = wants_tail b total b.cursor (page_size * 16)

unfoldable pub read_streaming : Connect → HttpBuffer → ℕ → HttpBuffer × Got Bytes
unfolding read_known fetch_tail_into_pages
read_streaming connect b want =
    if tail_wanted b b.content_length
    then chain (fetch_tail_into_pages connect b (unwrap_or b.content_length 0))
        (λ b' done. read_known b' want)
    else read_known b want

unfoldable pub read : Connect → HttpBuffer → ℕ → HttpBuffer × Got Bytes
unfolding read_streaming read_cached
read connect b want =
    if want == 0
    then (b, ok [])
    else if past_end (or b.eof_override b.content_length) b.cursor
    then (b, ok [])
    else if b.streaming_mode
    then read_streaming connect b want
    else read_cached connect b want

-- The loop of `read_at`, for `left` bytes that are still wanted.
unfoldable pub read_loop : ℕ → Connect → HttpBuffer → ℕ → Bytes → HttpBuffer × Got Bytes
unfolding read
read_loop zero connect b left out = (b, ok out)
read_loop (suc fuel) connect b left out =
    if left == 0
    then (b, ok out)
    else chain (read connect b (min left page_size)) (λ b' part.
      if length part == 0
      then (b', ok out)
      else read_loop fuel connect b' (left - length part) (out ++ part))

-- The cursor is put back where no error ends the read. Each turn but the last gives one byte at least.
unfoldable pub read_at : Connect → HttpBuffer → ℕ → ℕ → HttpBuffer × Got Bytes
unfolding read_loop
read_at connect b offset len =
    chain (read_loop (suc len) connect (record b { cursor = offset }) len [])
      (λ b' out. (record b' { cursor = b.cursor }, ok out))
