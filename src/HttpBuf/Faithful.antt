-- ===== src/HttpBuf/Faithful.antt =====
-- A read of the buffer of tier1/src/http_buf.rs gives the bytes of the file.
use thumbrella.Base.{
  ℕ, zero, suc, ◌+◌, ◌-◌, ◌*◌, ◌/◌, ◌%◌, ◌≤◌, ◌≡◌, sym, subst, ◌∙◌, ◌⊎◌, inl, inr, true, false,
  Option, none, some, List, [], ◌∷◌, ◌++◌, Bytes, ◌==◌, ltb, leb, min, if◌then◌else◌, unwrap_or,
  length, take, drop, length-append, length-take, length-drop, Bool-cases, ==_iff, leb→le, and_both,
  arith,
}
use thumbrella.HttpBuf.Buffer.{
  Event, chunk, broken, Got, ok, network, seek_behind_stream, chain, Connect, HttpBuffer, or,
}
use thumbrella.HttpBuf.Fetch.{fetch_tail_into_pages, ensure_page_cached, past_end}
use thumbrella.HttpBuf.Pages.{page_size, page_of}
use thumbrella.HttpBuf.Pages.Holds.{Holds, Holds-nil, Holds-append, Holds-take, Holds-drop}
use thumbrella.HttpBuf.Read.{
  up_to_end, copy_page, read_cached, in_chunk, copy_chunk, pull, read_known, tail_wanted,
  read_streaming, read, read_loop, read_at,
}
use thumbrella.HttpBuf.Sound.{Serves, IsSound, Keeps, fetch_tail-Keeps, ensure-Keeps}

-- The buffer stays sound, and the bytes that a read gives are those behind the cursor, `want` at most;
-- the cursor then stands behind them.
abbrev pub Gives : Bytes → ℕ → ℕ → HttpBuffer × Got Bytes → Type 0
Gives file pos want (b, ok out) =
    IsSound file b × Holds file pos out × (length out ≤ want) × (b.cursor ≡ pos + length out)
Gives file pos want (b, network) = IsSound file b
Gives file pos want (b, seek_behind_stream) = IsSound file b

-- A sound buffer, and bytes of the file from the offset on.
abbrev pub Reads : Bytes → ℕ → ℕ → HttpBuffer × Got Bytes → Type 0
Reads file offset len (b, ok out) = IsSound file b × Holds file offset out × (length out ≤ len)
Reads file offset len (b, network) = IsSound file b
Reads file offset len (b, seek_behind_stream) = IsSound file b

length-take-drop : (n k : ℕ) (xs : Bytes) → n ≤ length xs - k → length (take n (drop k xs)) ≡ n
length-take-drop n k xs h = omega (arith, length-take n (drop k xs), length-drop k xs)

up_to_end_le : (end : Option ℕ) (cursor available : ℕ) → up_to_end end cursor available ≤ available
up_to_end_le none cursor available = omega arith
up_to_end_le (some end) cursor available = omega arith

module _ (file : Bytes) where
  -- Sound in all that a cursor does not touch.
  moved : (b : HttpBuffer) (n : ℕ) → IsSound file b → IsSound file (record b { cursor = n })
  moved b n sound = record {
    parts = sound.parts;
    feed = sound.feed;
    no_gap = sound.no_gap;
    chunk_holds = sound.chunk_holds;
  }

  page_Holds :
      (b : HttpBuffer) (n : ℕ)
      → IsSound file b
      → Holds file b.cursor
          (take n (drop (b.cursor % page_size) (page_of b.pages (b.cursor / page_size))))
  page_Holds b n sound =
      let i = b.cursor / page_size in
      let page = page_of b.pages i in
      let here : i * 4096 + b.cursor % page_size ≡ b.cursor = omega arith in
      Holds-take file b.cursor n (drop (b.cursor % page_size) page) (
        subst (λ k. Holds file k (drop (b.cursor % page_size) page)) here
          (Holds-drop file (i * 4096) (b.cursor % page_size) page (sound.parts i).1))

  copy_page-Gives :
      (b : HttpBuffer) (want : ℕ) → IsSound file b → Gives file b.cursor want (copy_page b want)
  unfolding copy_page
  copy_page-Gives b want sound =
      let page = page_of b.pages (b.cursor / page_size) in
      let in_page = b.cursor % page_size in
      let limit = up_to_end (or b.eof_override b.content_length) b.cursor (length page - in_page) in
      let n = min want limit in
      let few =
        up_to_end_le (or b.eof_override b.content_length) b.cursor (length page - in_page) in
      let size = length-take-drop n in_page page (omega arith) in
      (moved b (b.cursor + n) sound, page_Holds b n sound, omega arith, omega arith)

  copy_chunk-Gives :
      (b : HttpBuffer) (want : ℕ)
      → in_chunk b ≡ true
      → IsSound file b
      → Gives file b.cursor want (copy_chunk b want)
  copy_chunk-Gives b want inside sound =
      let (low, high) =
        and_both (leb b.streaming_chunk_start b.cursor)
          (ltb b.cursor (b.streaming_chunk_start + length b.streaming_chunk)) inside in
      let from = b.cursor - b.streaming_chunk_start in
      let part = drop from b.streaming_chunk in
      let here : b.streaming_chunk_start + from ≡ b.cursor =
        omega (arith, leb→le b.streaming_chunk_start b.cursor low) in
      let size = length-take want part in
      (
        moved b (b.cursor + min want (length part)) sound,
        Holds-take file b.cursor want part (
            subst (λ k. Holds file k part) here
              (Holds-drop file b.streaming_chunk_start from b.streaming_chunk sound.chunk_holds)),
        omega arith,
        omega arith,
      )

  pull-Gives :
      (es : List Event) (b : HttpBuffer) (want : ℕ)
      → b.streaming_mode ≡ true
      → IsSound file (record b { stream = es })
      → Gives file b.cursor want (pull es b want)
  unfolding pull
  pull-Gives [] b want mode sound = (
    record {
      parts = sound.parts;
      feed = tt;
      no_gap = sound.no_gap;
      chunk_holds = sound.chunk_holds;
    },
    Holds-nil file b.cursor,
    omega arith,
    omega arith,
  )
  pull-Gives (broken ∷ es) b want mode sound = record {
    parts = sound.parts;
    feed = sound.feed;
    no_gap = sound.no_gap;
    chunk_holds = sound.chunk_holds;
  }
  pull-Gives (chunk c ∷ es) b want mode sound =
      let b' = record b {
        stream = es;
        streaming_chunk_start = b.stream_pos;
        stream_pos = b.stream_pos + length c;
        bytes_fetched_count = b.bytes_fetched_count + length c;
        streaming_chunk = c;
      } in
      let sound' : IsSound file b' = record {
        parts = sound.parts;
        feed = sound.feed.1;
        no_gap = λ cached. ground (arith, mode, cached);
        chunk_holds = sound.feed.0;
      } in
      elim (Bool-cases (in_chunk b')) [
        | inl e ↦ rw e (copy_chunk-Gives b' want e sound')
        | inr e ↦ rw e (pull-Gives es b' want mode sound')
      ]

  read_known-Gives :
      (b : HttpBuffer) (want : ℕ)
      → b.streaming_mode ≡ true
      → IsSound file b
      → Gives file b.cursor want (read_known b want)
  unfolding read_known
  read_known-Gives b want mode sound =
      let page = page_of b.pages (b.cursor / page_size) in
      let in_page = b.cursor % page_size in
      elim (Bool-cases (ltb in_page (length page))) [
        | inl e ↦
            let size = length-take want (drop in_page page) in
            let left = length-drop in_page page in
            rw e (
              moved b (b.cursor + min want (length page - in_page)) sound,
              page_Holds b want sound,
              omega arith,
              omega arith,
            )
        | inr e ↦ elim (Bool-cases (in_chunk b)) [
          | inl inside ↦ rw (e, inside) (copy_chunk-Gives b want inside sound)
          | inr outside ↦ elim (Bool-cases (ltb b.cursor b.stream_pos)) [
            | inl behind ↦ rw (e, outside, behind) sound
            | inr ahead ↦ rw (e, outside, ahead) (pull-Gives b.stream b want mode sound)
          ]
        ]
      ]

  -- What follows a step that keeps the buffer sound, and the cursor where it is.
  chain-Gives :
      (b : HttpBuffer) (want : ℕ) (step : HttpBuffer × Got (Unit {0}))
      (f : HttpBuffer → HttpBuffer × Got Bytes)
      → Keeps file b step.0
      → ((b' : HttpBuffer) → Keeps file b b' → Gives file b'.cursor want (f b'))
      → Gives file b.cursor want (chain step (λ b' done. f b'))
  chain-Gives b want (b', ok done) f kept next =
      subst (λ k. Gives file k want (f b')) kept.1 (next b' kept)
  chain-Gives b want (b', network) f kept next = kept.0
  chain-Gives b want (b', seek_behind_stream) f kept next = kept.0

  module _ (connect : Connect) (serves : Serves file connect) where
    read_cached-Gives :
        (b : HttpBuffer) (want : ℕ)
        → b.streaming_mode ≡ false
        → IsSound file b
        → Gives file b.cursor want (read_cached connect b want)
    unfolding read_cached
    read_cached-Gives b want cached sound =
        let i = b.cursor / page_size in
        chain-Gives b want (ensure_page_cached connect b i) (λ b'. copy_page b' want)
          (ensure-Keeps file connect b i serves cached sound)
          (λ b' kept. copy_page-Gives b' want kept.0)

    read_streaming-Gives :
        (b : HttpBuffer) (want : ℕ)
        → b.streaming_mode ≡ true
        → IsSound file b
        → Gives file b.cursor want (read_streaming connect b want)
    unfolding read_streaming
    read_streaming-Gives b want mode sound = elim (Bool-cases (tail_wanted b b.content_length)) [
      | inl tail ↦
          let total = unwrap_or b.content_length 0 in
          rw tail (
            chain-Gives b want (fetch_tail_into_pages connect b total) (λ b'. read_known b' want)
              (fetch_tail-Keeps file connect b total serves sound)
              (λ b' kept. read_known-Gives b' want (kept.2 ∙ mode) kept.0))
      | inr near ↦ rw near (read_known-Gives b want mode sound)
    ]

    read-Gives :
        (b : HttpBuffer) (want : ℕ)
        → IsSound file b
        → Gives file b.cursor want (read connect b want)
    unfolding read
    read-Gives b want sound =
        let nothing : Gives file b.cursor want (b, ok []) =
          (sound, Holds-nil file b.cursor, omega arith, omega arith) in
        elim (Bool-cases (want == 0)) [
          | inl e ↦ rw e nothing
          | inr some_want ↦
              elim (Bool-cases (past_end (or b.eof_override b.content_length) b.cursor)) [
                | inl e ↦ rw (some_want, e) nothing
                | inr before_end ↦
                    rw (some_want, before_end) (by_mode (Bool-cases b.streaming_mode))
              ]
        ]
      where
        by_mode :
            (b.streaming_mode ≡ true) ⊎ (b.streaming_mode ≡ false)
            → Gives file b.cursor want (
                if b.streaming_mode
                then read_streaming connect b want
                else read_cached connect b want)
        by_mode (inl mode) =
            subst
              (λ m.
                Gives file b.cursor want
                  (if m then read_streaming connect b want else read_cached connect b want))
              (sym mode) (read_streaming-Gives b want mode sound)
        by_mode (inr cached) =
            subst
              (λ m.
                Gives file b.cursor want
                  (if m then read_streaming connect b want else read_cached connect b want))
              (sym cached) (read_cached-Gives b want cached sound)

    -- The bytes that were read are those from `offset` to the cursor.
    read_loop-Gives :
        (fuel : ℕ) (b : HttpBuffer) (offset left : ℕ) (out : Bytes)
        → IsSound file b
        → Holds file offset out
        → b.cursor ≡ offset + length out
        → Gives file offset (length out + left) (read_loop fuel connect b left out)
    unfolding read_loop
    read_loop-Gives zero b offset left out sound holds at = (sound, holds, omega arith, at)
    read_loop-Gives (suc fuel) b offset left out sound holds at = elim (Bool-cases (left == 0)) [
      | inl e ↦ rw e (sound, holds, omega arith, at)
      | inr more ↦ rw more (
          after (read connect b (min left page_size)) (read-Gives b (min left page_size) sound)
            (read_loop-Gives fuel))
    ]
      where
        after :
            (r : HttpBuffer × Got Bytes)
            → Gives file b.cursor (min left page_size) r
            → ((b : HttpBuffer) (offset left : ℕ) (out : Bytes)
                → IsSound file b
                → Holds file offset out
                → b.cursor ≡ offset + length out
                → Gives file offset (length out + left) (read_loop fuel connect b left out))
            → Gives file offset (length out + left) (
                chain r (λ b' part.
                  if length part == 0
                  then (b', ok out)
                  else read_loop fuel connect b' (left - length part) (out ++ part)))
        after (b', ok part) (sound', holds', few, at') next = elim (Bool-cases (length part == 0)) [
          | inl e ↦ rw e (sound', holds, omega arith, omega (arith, (==_iff (length part) 0).0 e))
          | inr e ↦
              let size = length-append out part in
              rw e (
                subst
                  (λ n.
                    Gives file offset n
                      (read_loop fuel connect b' (left - length part) (out ++ part)))
                  (omega arith)
                  (next b' offset (left - length part) (out ++ part) sound'
                    (Holds-append file offset out part holds
                      (subst (λ k. Holds file k part) at holds'))
                    (omega arith)))
        ]
        after (b', network) sound' next = sound'
        after (b', seek_behind_stream) sound' next = sound'

    -- Of a sound buffer, through pages or in streaming mode, `read_at` gives bytes of the file from the
    -- offset on, `len` at most, and leaves the buffer sound, whether it succeeds or not.
    pub read_at-Gives :
        (b : HttpBuffer) (offset len : ℕ)
        → IsSound file b
        → Reads file offset len (read_at connect b offset len)
    unfolding read_at
    read_at-Gives b offset len sound =
        ending (read_loop (suc len) connect (record b { cursor = offset }) len []) (
          read_loop-Gives (suc len) (record b { cursor = offset }) offset len []
            (moved b offset sound) (Holds-nil file offset) (omega arith))
      where
        ending :
            (r : HttpBuffer × Got Bytes)
            → Gives file offset (0 + len) r
            → Reads file offset len (chain r (λ b' out. (record b' { cursor = b.cursor }, ok out)))
        ending (b', ok out) (sound', holds, few, at) =
            (moved b' b.cursor sound', holds, omega arith)
        ending (b', network) sound' = sound'
        ending (b', seek_behind_stream) sound' = sound'
