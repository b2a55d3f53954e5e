-- ===== src/Tests/Buffer.antt =====
-- The buffer of tier1/src/http_buf.rs on a file of five bytes.
use thumbrella.Base.{
  ℕ, ◌+◌, ◌-◌, ◌≡◌, refl, sym, ap, subst, ◌∙◌, true, false, none, some, List, [], ◌∷◌, ◌++◌, Bytes,
  length, get_elem?, take, drop, unwrap_or, length-take, length-drop, arith,
}
use thumbrella.HttpBuf.Buffer.{Event, chunk, broken, ok, Connect, HttpBuffer, open_buffer}
use thumbrella.HttpBuf.Complete.{read_at_reads_all}
use thumbrella.HttpBuf.Faithful.{Reads, read_at-Gives}
use thumbrella.HttpBuf.Fetch.{received, collect, fetch_range}
use thumbrella.HttpBuf.Pages.{page_of}
use thumbrella.HttpBuf.Pages.Holds.{Holds, Holds-take, Holds-drop}
use thumbrella.HttpBuf.Ranges.{fetch_range-IsSound, fetch_range_fills_zeros}
use thumbrella.HttpBuf.Read.{read_at}
use thumbrella.HttpBuf.Sound.{Serves, IsSound, Delivers, open_buffer-IsSound}
use thumbrella.HttpBuf.Whole.{IsWhole, ServesTail, open_buffer-IsWhole}

abbrev letters : Bytes
letters = 10 ∷ 20 ∷ 30 ∷ 40 ∷ 50 ∷ []

-- A server that answers a request for a range with that part of the file.
abbrev serve : Bytes → Connect
serve file start end = some (chunk (take (end + 1 - start) (drop start file)) ∷ [])

Holds-self : (file : Bytes) → Holds file 0 file
Holds-self file j x h = subst (λ k. get_elem? file k ≡ some x) (omega arith) h

Holds-slice : (file : Bytes) (start n : ℕ) → Holds file start (take n (drop start file))
Holds-slice file start n = Holds-take file start n (drop start file) (
    subst (λ k. Holds file k (drop start file)) (omega arith)
      (Holds-drop file 0 start file (Holds-self file)))

append_nil : (xs : Bytes) → xs ++ [] ≡ xs
append_nil [] = refl
append_nil (x ∷ xs) = ap (◌∷◌ x) (append_nil xs)

received-serve :
    (file : Bytes) (start end : ℕ)
    → received (serve file start end) ≡ some (take (end + 1 - start) (drop start file))
unfolding collect
received-serve file start end = ap some (append_nil (take (end + 1 - start) (drop start file)))

serve-Serves : (file : Bytes) → Serves file (serve file)
serve-Serves file start end buf h =
    subst (Holds file start) (ap (λ o. unwrap_or o buf) (sym (received-serve file start end) ∙ h))
      (Holds-slice file start (end + 1 - start))

serve-ServesTail : (file : Bytes) → ServesTail file (serve file)
serve-ServesTail file start inside =
    let n = length file - 1 + 1 - start in
    (
      take n (drop start file),
      received-serve file start (length file - 1),
      Holds-slice file start n,
      omega (arith, length-take n (drop start file), length-drop start file),
    )

abbrev two_chunks : List Event
two_chunks = chunk (10 ∷ 20 ∷ []) ∷ chunk (30 ∷ 40 ∷ 50 ∷ []) ∷ []

two_chunks-Delivers : Delivers letters 0 two_chunks
unfolding take drop
two_chunks-Delivers = (Holds-slice letters 0 2, (Holds-slice letters 2 3, tt))

abbrev opened : HttpBuffer
opened = open_buffer (some 5) true two_chunks

read_at_reads_all_example :
    (b' : HttpBuffer) × (read_at (serve letters) opened 1 3 ≡ (b', ok (20 ∷ 30 ∷ 40 ∷ [])))
    × IsWhole letters b'
unfolding take drop
read_at_reads_all_example =
    read_at_reads_all letters (serve letters) (serve-ServesTail letters) opened 1 3
      (serve-Serves letters) (open_buffer-IsWhole letters true two_chunks two_chunks-Delivers refl)

-- A stream that breaks behind its first chunk.
abbrev breaking : HttpBuffer
breaking = open_buffer none false (chunk (10 ∷ 20 ∷ []) ∷ broken ∷ [])

breaking-Delivers : Delivers letters 0 (chunk (10 ∷ 20 ∷ []) ∷ broken ∷ [])
unfolding take drop
breaking-Delivers = (Holds-slice letters 0 2, tt)

read_at-Gives_example : Reads letters 1 3 (read_at (serve letters) breaking 1 3)
read_at-Gives_example =
    read_at-Gives letters (serve letters) (serve-Serves letters) breaking 1 3 (
      open_buffer-IsSound letters none false (chunk (10 ∷ 20 ∷ []) ∷ broken ∷ []) breaking-Delivers)

fetch_range-IsSound_example : IsSound letters (fetch_range (serve letters) breaking 0 4).0
unfolding open_buffer
fetch_range-IsSound_example =
    fetch_range-IsSound letters (serve letters) breaking 0 4 (serve-Serves letters) (omega arith) (
      open_buffer-IsSound letters none false (chunk (10 ∷ 20 ∷ []) ∷ broken ∷ []) breaking-Delivers)

-- Two bytes of a range that starts inside the second page.
abbrev inner_range : Connect
inner_range start end = some (chunk (7 ∷ 8 ∷ []) ∷ [])

fetch_range_fills_zeros_example :
    get_elem? (page_of (fetch_range inner_range breaking 4098 2).0.pages 1) 0 ≡ some 0
unfolding open_buffer collect
fetch_range_fills_zeros_example =
    fetch_range_fills_zeros inner_range breaking 4098 2 (7 ∷ 8 ∷ []) 0 refl (omega arith)
      (omega arith) refl (omega arith)
