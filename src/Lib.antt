-- ===== src/Lib.antt =====
-- Verification library of Thumbrella, a server that makes thumbnails (Rust, crates tier1 to tier3).
--
-- The parts of the program that are modelled, and the files that model them:
--   * Hints: the freshness token of tier1/src/source.rs. `CacheHints` is made of response headers
--     (Hints/Headers), sent to the client as an opaque string and read back (Hints/Wire), and merged
--     with a 304. Proofs: Hints/Trim, Hints/Fields, Hints/Followed, Hints/RoundTrip, Hints/Freshness.
--   * Media: the payload types of tier1/src/media.rs and tier1/src/result.rs.
--   * Cache: tier1/src/cache. Cache/Entry is `CacheEntry` of mod.rs with its three deadlines, and
--     Cache/Deadlines its proofs. Cache/Backend is the trait `CacheBackend` as a record of operations
--     over a state, with the trait's default methods, and Cache/Backend/Issue the bounded search for an
--     identifier. Two implementations: Cache/Memory is memory.rs, with proofs in Cache/Memory/Pins,
--     Aliases and Reads; Cache/Chain is chain.rs over any backends, with proofs in Reads, Backfill and
--     Claims. Cache/Frontend is the sticky window and the coalescing of requests in mod.rs, over any
--     sequence of calls: Generations (what a call does to a slot), Leaders, Waiters, Copies
--     and Answers. Cache/Pins is
--     pins.rs, with proofs in Identifiers and Results. Cache/Store is `CacheStore` of mod.rs over its
--     backend, with the proof in Writes.
--   * HttpCache: the headers of a pinned thumbnail, tier1/src/http_cache.rs (Policy, Tags).
--   * UrlSafety: tier1/src/url_safety.rs (Blocks, Hosts, Allowlist).
--   * FetchGuard: tier1/src/fetch_guard.rs (Backoff).
--   * HttpBuf: the page cache of tier1/src/http_buf.rs. Pages are its 4 KiB pages and
--     `store_chunk_at`, Buffer the state, Fetch the stream and the requests for ranges, Read the reads
--     in both modes. Proofs: Pages/Holds and Pages/Stored (what the pages keep), Sound (the invariant),
--     Faithful, Whole, Complete and Ranges.
--   * Shortcut: the parsers of tier1/src/pipeline/shortcut.rs that find an embedded thumbnail. Readers
--     are its byte readers, Zip the container (Directory, First, Extract), Tiff the preview of a camera raw file
--     (Search, Longest, Turns, Preview), Ifd0 and Exif the directories of a TIFF and the EXIF data of
--     JPEG, PNG and WebP, Id3 the cover of an audio file (Apic, Frames, Cover), Mp3 the frame header
--     (Bounds).
--   * Source: the URLs of tier1/src/source.rs and tier1/src/pipeline/connect.rs as text.
--   * Inspect: tier1/src/pipeline/inspect.rs. Its tables between extensions, MIME types and kinds, with
--     proofs in Tables; Sniff, the choice among signature, URL and header, with the proof in Specific;
--     Sof, the scan of a JPEG for its frame header.
--   * Cook: the state of a request, `ThumbCook` of tier1/src/cook.rs. Cook/Connect is the step of
--     tier1/src/pipeline/connect.rs over the fetch guard and a transport, with the proof in Outcomes;
--     Cook/Resolve is `resolve_cache` over Cache/Store, Hints and Cook/Connect, with proofs in Ends,
--     Confirmed and Renewals.
--   * Tests: runs of the code on inputs of the source's own tests, and each theorem at a concrete
--     input.
--   * Base: names of the libraries, loops (Base/Loop: a body that goes on or stops, run on fuel, and the
--     run as a relation that knows no fuel), lists over the native numbers, strings as lists of bytes, maps,
--     decimal and hexadecimal numbers, and UTF-8 with replacement.
--
-- How the code is read. A string or a byte vector is the list of its bytes. A `HashMap` is an
-- association list, or a function where it is only read. The clock is an argument, in seconds; a
-- method that takes a lock is one step. `&mut self` is a state that goes in and comes out. Machine
-- integers are natural numbers, with `saturating_add` and the wrap-around of a release build written
-- out. A `while` loop that pops is a recursion on the reversed buffer; the hexadecimal printer runs
-- on fuel 16, the digits of a u64, and the decimal one on fuel 20. The loop of `etag_matches` runs
-- on the length of the header, since each turn takes two quotes off it; `issue_pin` has the 256
-- attempts of the source. The loops of HttpBuf and Shortcut run on the length of what they read,
-- since each turn goes at least one byte on, and the search over TIFF directories on a number that
-- counts each directory once with all that it can put in the queue. A spawned future waits in a list
-- until it runs; an identity that an `Arc` gives, or a oneshot channel, is a number that was not
-- used before. `str::trim` trims the ASCII white space only.
--
-- Code outside the repository is a parameter: the base64 engine (`Base64`, with `IsBase64`: it
-- decodes what it encodes), the concurrent cache of the moka crate (`Moka`, with `IsMoka`: a key
-- reads as what was last written for it, or as nothing where the cache may evict it; `Evicts` names
-- those keys, none for a cache that keeps everything), the parser of the url crate, the signatures
-- of the infer crate, the DEFLATE decoder, what a stream and a request for a range deliver, the
-- transport of a connection (`Transport`: what it answers for a URL and a validator), HMAC and the
-- URL-safe alphabet (`IsDigest`), SHA-256, and the parser of HTTP dates.
--
-- A request meets the result of `debounce_lookup` as an argument of `resolve_cache`; its durations, its
-- counters and its token as a leader are left out.
--
-- Not modelled: image decoding and rendering, the HTTP client and server, SQLite and the cloud cache,
-- subprocesses, command line and logging, which are input and output or calls of libraries; the
-- variants for wasm; the parts of the shortcuts that fetch bytes and scale images; the run of
-- a request behind `resolve_cache`.
pub mod Base
pub mod Hints
pub mod HttpBuf
pub mod Source
pub mod Inspect
pub mod Cook
pub mod Media
pub mod Cache
pub mod UrlSafety
pub mod HttpCache
pub mod FetchGuard
pub mod Shortcut
mod Tests
