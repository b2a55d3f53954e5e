-- ===== src/HttpBuf.antt =====
-- tier1/src/http_buf.rs: the page cache over one HTTP resource.
pub mod Pages
pub mod Buffer
pub mod Fetch
pub mod Read
pub mod Sound
pub mod Whole
pub mod Ranges
pub mod Complete
pub mod Faithful
