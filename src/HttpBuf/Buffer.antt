-- ===== src/HttpBuf/Buffer.antt =====
-- The state of the buffer of tier1/src/http_buf.rs, and the operations without input or output. A stream
-- is the list of what its `next_chunk` will give. Time and URL are left out; positions stay below 2^64.
use thumbrella.Base.{
  ℕ, ◌-◌, Bool, true, false, Option, none, some, List, [], Bytes, ◌==◌, if◌then◌else◌,
  saturating_add,
}
use thumbrella.HttpBuf.Pages.{Pages}

-- What `next_chunk` gives: a chunk or an error; behind the last one is the end of the body.
pub data Event : Type 0 where
  chunk : Bytes → Event
  broken : Event

-- A result, or `HttpError`.
pub data Got {ℓ} (A : Type ℓ) : Type ℓ where
  ok : A → Got A
  network : Got A
  seek_behind_stream : Got A

-- The operator `?` on what a method of the buffer returns.
abbrev pub chain {ℓ} : {S A B : Type ℓ} → S × Got A → (S → A → S × Got B) → S × Got B
chain (b, ok a) f = f b a
chain (b, network) f = (b, network)
chain (b, seek_behind_stream) f = (b, seek_behind_stream)

-- A connection for the bytes from the first number to the second, both included.
abbrev pub Connect : Type 0
Connect = ℕ → ℕ → Option (List Event)

pub record HttpBuffer : Type 0 where
  pub content_length : Option ℕ
  pub accepts_ranges : Bool
  pub stream : List Event
  pub cursor : ℕ
  pub stream_pos : ℕ
  pub bytes_fetched_count : ℕ
  pub pages : Pages
  pub eof_override : Option ℕ
  pub streaming_mode : Bool
  pub streaming_chunk : Bytes
  pub streaming_chunk_start : ℕ
  pub did_tail_fetch : Bool

-- What `open` returns for a connection that was made.
unfoldable pub open_buffer : Option ℕ → Bool → List Event → HttpBuffer
open_buffer content_length accepts_ranges stream = record {
  content_length = content_length;
  accepts_ranges = accepts_ranges;
  stream = stream;
  cursor = 0;
  stream_pos = 0;
  bytes_fetched_count = 0;
  pages = λ i. none;
  eof_override = none;
  streaming_mode = false;
  streaming_chunk = [];
  streaming_chunk_start = 0;
  did_tail_fetch = false;
}

unfoldable pub seek : HttpBuffer → ℕ → HttpBuffer
seek b offset = record b { cursor = offset }

unfoldable pub rewind : HttpBuffer → HttpBuffer
rewind b = record b { cursor = 0 }

-- `seek_relative` by `delta` forwards, or by `- delta` backwards.
unfoldable pub seek_relative : HttpBuffer → Bool → ℕ → HttpBuffer
seek_relative b forwards delta = record b {
  cursor = if forwards then saturating_add b.cursor delta else b.cursor - delta;
}

abbrev pub or : Option ℕ → Option ℕ → Option ℕ
or none b = b
or (some a) b = some a

unfoldable pub stream_len : HttpBuffer → Option ℕ
stream_len b = or b.eof_override b.content_length

unfoldable pub set_eof : HttpBuffer → ℕ → HttpBuffer
set_eof b len = record b { eof_override = some len }

unfoldable pub clear_eof : HttpBuffer → HttpBuffer
clear_eof b = record b { eof_override = none }

unfoldable pub enter_streaming_mode : HttpBuffer → HttpBuffer
enter_streaming_mode b = record b { streaming_mode = true }

-- The stream is dropped, and the first page is taken out.
unfoldable pub close : HttpBuffer → HttpBuffer × Option Bytes
close b = (record b { pages = λ j. if j == 0 then none else b.pages j }, b.pages 0)

unfoldable pub peek_page0 : HttpBuffer → Option Bytes
peek_page0 b = b.pages 0
