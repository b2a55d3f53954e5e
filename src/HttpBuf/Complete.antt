-- ===== src/HttpBuf/Complete.antt =====
-- A read of tier1/src/http_buf.rs through the pages gives all that was asked for.
use thumbrella.Base.{
  ℕ, zero, suc, ◌+◌, ◌-◌, ◌/◌, ◌%◌, ◌≤◌, ◌<◌, ◌≡◌, refl, sym, ap, subst, ◌∙◌, inl, inr, true, false,
  some, [], ◌∷◌, ◌++◌, Bytes, ◌==◌, leb, min, if◌then◌else◌, length, get_elem?, take, drop,
  length-append, length-take, length-drop, Bool-cases, ==_iff, leb→le, leb_lt, lt_leb, le_leb,
  arith,
}
use thumbrella.HttpBuf.Buffer.{Got, ok, network, seek_behind_stream, chain, Connect, HttpBuffer, or}
use thumbrella.HttpBuf.Fetch.{ensure_page_cached, past_end}
use thumbrella.HttpBuf.Pages.{page_size, page_of}
use thumbrella.HttpBuf.Pages.Holds.{Holds, get_elem?-drop}
use thumbrella.HttpBuf.Faithful.{Reads, read_at-Gives}
use thumbrella.HttpBuf.Read.{
  up_to_end, copy_page, read_cached, read_streaming, read, read_loop, read_at,
}
use thumbrella.HttpBuf.Sound.{Serves}
use thumbrella.HttpBuf.Whole.{IsWhole, HasPage, Brings, ServesTail, ensure-Brings}

-- Lists of one length that agree at every index.
list_ext :
    (xs ys : Bytes)
    → length xs ≡ length ys
    → ((j x : ℕ) → get_elem? xs j ≡ some x → get_elem? ys j ≡ some x)
    → xs ≡ ys
list_ext [] [] e h = refl
list_ext [] (y ∷ ys) e h = absurd (omega arith)
list_ext (x ∷ xs) [] e h = absurd (omega arith)
list_ext (x ∷ xs) (y ∷ ys) e h =
    let same : y ≡ x = head_of (h 0 x refl) in
    rw (same, list_ext xs ys (omega arith) (λ j z at. h (suc j) z at)) refl
  where
    head_of : some y ≡ some x → y ≡ x
    head_of at = ground arith

get_elem?-take_lt : (n : ℕ) (xs : Bytes) (j : ℕ) → j < n → get_elem? (take n xs) j ≡ get_elem? xs j
unfolding take
get_elem?-take_lt zero xs j h = absurd (omega arith)
get_elem?-take_lt (suc n) [] j h = refl
get_elem?-take_lt (suc n) (x ∷ xs) zero h = refl
get_elem?-take_lt (suc n) (x ∷ xs) (suc j) h = get_elem?-take_lt n xs j (omega arith)

get_elem?_lt : (xs : Bytes) (j x : ℕ) → get_elem? xs j ≡ some x → j < length xs
get_elem?_lt [] j x h = ground arith
get_elem?_lt (y ∷ xs) zero x h = omega arith
get_elem?_lt (y ∷ xs) (suc j) x h = omega (arith, get_elem?_lt xs j x h)

-- Bytes of the file with the length that is asked for, or all up to the end, are that part of the file.
whole_part :
    (file out : Bytes) (offset len : ℕ)
    → Holds file offset out
    → length out ≡ min len (length file - offset)
    → out ≡ take len (drop offset file)
whole_part file out offset len holds size =
    list_ext out (take len (drop offset file))
      (omega (arith, length-take len (drop offset file), length-drop offset file))
      (λ j x at.
        get_elem?-take_lt len (drop offset file) j (omega (arith, get_elem?_lt out j x at))
        ∙ get_elem?-drop offset file j
        ∙ holds j x at)

-- A step that succeeds and gives at least one byte.
abbrev Progress : Bytes → ℕ → ℕ → HttpBuffer × Got Bytes → Type 0
Progress file pos want (b, ok out) =
    IsWhole file b
    × (b.cursor ≡ pos + length out)
    × (0 < length out)
    × (length out ≤ want)
    × (length out ≤ length file - pos)
Progress file pos want (b, network) = ⊥
Progress file pos want (b, seek_behind_stream) = ⊥

-- A result of so many bytes, with the buffer still whole.
abbrev Totals : Bytes → ℕ → HttpBuffer × Got Bytes → Type 0
Totals file total (b, ok out) = IsWhole file b × (length out ≡ total)
Totals file total (b, network) = ⊥
Totals file total (b, seek_behind_stream) = ⊥

module _ (file : Bytes) where
  -- A whole buffer with the cursor moved.
  moved : (b : HttpBuffer) (n : ℕ) → IsWhole file b → IsWhole file (record b { cursor = n })
  moved b n whole = record {
    sound = record {
      parts = whole.sound.parts;
      feed = whole.sound.feed;
      no_gap = whole.sound.no_gap;
      chunk_holds = whole.sound.chunk_holds;
    };
    cached = whole.cached;
    full_length = whole.full_length;
    no_override = whole.no_override;
    completes = whole.completes;
    passed = whole.passed;
  }

  copy_page-Progress :
      (b : HttpBuffer) (want : ℕ)
      → 0 < want
      → b.cursor < length file
      → IsWhole file b
      → HasPage file b (b.cursor / page_size)
      → Progress file b.cursor want (copy_page b want)
  unfolding copy_page
  copy_page-Progress b want some_want inside whole has =
      let page = page_of b.pages (b.cursor / page_size) in
      let in_page = b.cursor % page_size in
      let end : or b.eof_override b.content_length ≡ some (length file) =
        ap (λ o. or o b.content_length) whole.no_override ∙ whole.full_length in
      let limit = up_to_end (or b.eof_override b.content_length) b.cursor (length page - in_page) in
      let bound : limit ≡ min (length file - b.cursor) (length page - in_page) =
        ap (λ o. up_to_end o b.cursor (length page - in_page)) end in
      let n = min want limit in
      let size = length-take n (drop in_page page) in
      let left = length-drop in_page page in
      let there = has b.cursor (omega arith) (omega arith) inside in
      (moved b (b.cursor + n) whole, omega arith, omega arith, omega arith, omega arith)

  module _ (connect : Connect) (serves : ServesTail file connect) where
    read_cached-Progress :
        (b : HttpBuffer) (want : ℕ)
        → 0 < want
        → b.cursor < length file
        → IsWhole file b
        → Progress file b.cursor want (read_cached connect b want)
    unfolding read_cached
    read_cached-Progress b want some_want inside whole =
        onward (ensure_page_cached connect b (b.cursor / page_size))
          (ensure-Brings file connect serves b (b.cursor / page_size) (omega arith) whole)
      where
        onward :
            (step : HttpBuffer × Got (Unit {0}))
            → Brings file b (b.cursor / page_size) step
            → Progress file b.cursor want (chain step (λ b' done. copy_page b' want))
        onward (b', ok done) (whole', same, has) =
            subst (λ k. Progress file k want (copy_page b' want)) same
              (copy_page-Progress b' want some_want (omega arith) whole'
                (subst (λ k. HasPage file b' (k / page_size)) (sym same) has))
        onward (b', network) nothing = absurd nothing
        onward (b', seek_behind_stream) nothing = absurd nothing

    end_known :
        (b : HttpBuffer) → IsWhole file b → or b.eof_override b.content_length ≡ some (length file)
    end_known b whole = ap (λ o. or o b.content_length) whole.no_override ∙ whole.full_length

    read-Progress :
        (b : HttpBuffer) (want : ℕ)
        → 0 < want
        → b.cursor < length file
        → IsWhole file b
        → Progress file b.cursor want (read connect b want)
    unfolding read
    read-Progress b want some_want inside whole =
        let wanted : (want == 0) ≡ false = ground arith in
        let before : past_end (or b.eof_override b.content_length) b.cursor ≡ false =
          ap (λ o. past_end o b.cursor) (end_known b whole)
          ∙ lt_leb (length file) b.cursor inside in
        rw (wanted, before)
          (subst
            (λ m.
              Progress file b.cursor want
                (if m then read_streaming connect b want else read_cached connect b want))
            (sym whole.cached) (read_cached-Progress b want some_want inside whole))

    read_at_end :
        (b : HttpBuffer) (want : ℕ)
        → 0 < want
        → length file ≤ b.cursor
        → IsWhole file b
        → read connect b want ≡ (b, ok [])
    unfolding read
    read_at_end b want some_want at_end whole =
        let wanted : (want == 0) ≡ false = ground arith in
        let past : past_end (or b.eof_override b.content_length) b.cursor ≡ true =
          ap (λ o. past_end o b.cursor) (end_known b whole)
          ∙ le_leb (length file) b.cursor at_end in
        rw (wanted, past) refl

    -- The loop ends with as many bytes as are wanted, or as the file has.
    read_loop-Totals :
        (fuel : ℕ) (b : HttpBuffer) (left : ℕ) (out : Bytes)
        → IsWhole file b
        → left < fuel
        → Totals file
            (length out + min left (length file - b.cursor))
            (read_loop fuel connect b left out)
    unfolding read_loop
    read_loop-Totals zero b left out whole enough = absurd (omega arith)
    read_loop-Totals (suc fuel) b left out whole enough = elim (Bool-cases (left == 0)) [
      | inl e ↦ rw e (whole, omega (arith, (==_iff left 0).0 e))
      | inr more ↦ elim (Bool-cases (leb (length file) b.cursor)) [
        | inl at_end ↦
            rw
              (
                more,
                read_at_end b (min left page_size) (positive more)
                    (leb→le (length file) b.cursor at_end) whole,
              )
              (whole, omega (arith, leb→le (length file) b.cursor at_end))
        | inr inside ↦ rw more (
            after (read connect b (min left page_size))
              (read-Progress b (min left page_size) (positive more)
                (leb_lt (length file) b.cursor inside) whole)
              (read_loop-Totals fuel))
      ]
    ]
      where
        positive : (left == 0) ≡ false → 0 < min left page_size
        positive more = ground arith

        after :
            (r : HttpBuffer × Got Bytes)
            → Progress file b.cursor (min left page_size) r
            → ((b : HttpBuffer) (left : ℕ) (out : Bytes)
                → IsWhole file b
                → left < fuel
                → Totals file
                    (length out + min left (length file - b.cursor))
                    (read_loop fuel connect b left out))
            → Totals file (length out + min left (length file - b.cursor)) (
                chain r (λ b' part.
                  if length part == 0
                  then (b', ok out)
                  else read_loop fuel connect b' (left - length part) (out ++ part)))
        after (b', ok part) (whole', at, some_part, few, within) next =
            let some' : (length part == 0) ≡ false = ground arith in
            let size = length-append out part in
            rw some' (
              subst
                (λ n. Totals file n (read_loop fuel connect b' (left - length part) (out ++ part)))
                (omega arith) (next b' (left - length part) (out ++ part) whole' (omega arith)))
        after (b', network) nothing next = absurd nothing
        after (b', seek_behind_stream) nothing next = absurd nothing

    -- A buffer that reads through its pages, on a stream and a server that give the whole file without an
    -- error, answers `read_at` with the bytes of the file from the offset on, `len` of them or as many as
    -- the file has, and is such a buffer again.
    pub read_at_reads_all :
        (b : HttpBuffer) (offset len : ℕ)
        → Serves file connect
        → IsWhole file b
        → (b' : HttpBuffer) × (read_at connect b offset len
            ≡ (b', ok (take len (drop offset file))))
          × IsWhole file b'
    unfolding read_at
    read_at_reads_all b offset len honest whole =
        let start = record b { cursor = offset } in
        ending (read_loop (suc len) connect start len [])
          (read_loop-Totals (suc len) start len [] (moved b offset whole) (omega arith))
          (read_at-Gives file connect honest b offset len whole.sound)
      where
        ending :
            (r : HttpBuffer × Got Bytes)
            → Totals file (0 + min len (length file - offset)) r
            → Reads file offset len (chain r (λ b' out. (record b' { cursor = b.cursor }, ok out)))
            → (b' : HttpBuffer) × (chain r (λ b' out. (record b' { cursor = b.cursor }, ok out))
                ≡ (b', ok (take len (drop offset file))))
              × IsWhole file b'
        ending (b', ok out) (whole', size) (sound, holds, few) = (
          record b' { cursor = b.cursor },
          rw (whole_part file out offset len holds (omega arith)) refl,
          moved b' b.cursor whole',
        )
        ending (b', network) nothing reads = absurd nothing
        ending (b', seek_behind_stream) nothing reads = absurd nothing
