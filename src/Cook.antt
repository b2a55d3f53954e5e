-- ===== src/Cook.antt =====
-- The state of a request, `ThumbCook` of tier1/src/cook.rs, as far as the cache and the connection look
-- at it. Durations and counters of the trace are left out.
pub mod Connect
pub mod Resolve
use thumbrella.Base.{ℕ, Bool, true, false, Option, none, some, Bytes}
use thumbrella.Hints.{CacheHints}
use thumbrella.Hints.Headers.{Headers}
use thumbrella.HttpBuf.Buffer.{HttpBuffer}
use thumbrella.Media.{FileKind, ThumbResult, ResultStatus, ResultSource}

pub data CookStatus : Type 0 where
  processing complete fresh failed overloaded intermediate : CookStatus

unfoldable pub is_processing : CookStatus → Bool
is_processing CookStatus.processing = true
is_processing CookStatus.complete = false
is_processing CookStatus.fresh = false
is_processing CookStatus.failed = false
is_processing CookStatus.overloaded = false
is_processing CookStatus.intermediate = false

pub record MediaInfo : Type 0 where
  pub file_size : Option ℕ
  pub kind : Option FileKind
  pub extension : Option Bytes
  pub mime : Option Bytes
  pub properties : Option Bytes

-- Without `cache_key_source`, which nothing reads.
pub record SourceIdentity : Type 0 where
  pub cache_key : Option Bytes
  pub cache_hints : Option CacheHints
  pub final_url : Option Bytes
  pub canonical_url : Option Bytes

pub record ThumbCook : Type 0 where
  pub url : Bytes
  pub input_cache : Option CacheHints
  pub allow_local : Bool
  pub status : CookStatus
  pub out_message : Bytes
  pub http_status : Option ℕ
  pub http_headers : Headers
  pub http_accepts_ranges : Bool
  pub http_buf : Option HttpBuffer
  pub media : MediaInfo
  pub src : SourceIdentity
  pub out_thumbnail : Bytes
  pub out_placeholder : Option Bytes
  pub placeholder_source : Option ResultSource
  pub cache_hit : Option Bytes
  pub debounce_result : Option ThumbResult
  pub cache_resolved : Bool
  pub ctx_handoff : Bool
  pub ctx_cache_key : Option Bytes
  pub ctx_debounce_key : Option Bytes
  pub default_cache_ttl : ℕ
  pub default_pin_ttl : ℕ
  pub cache_max_ttl_secs : ℕ

-- `fail`: the message, and the end of the pipeline.
unfoldable pub fail : ThumbCook → Bytes → ThumbCook
fail c message = record c { status = CookStatus.failed; out_message = message }

unfoldable pub http_install : ThumbCook → HttpBuffer → ThumbCook
http_install c buf = record c { http_buf = some buf }

unfoldable pub cook_status_from_job : ResultStatus → CookStatus
cook_status_from_job ResultStatus.success = CookStatus.complete
cook_status_from_job ResultStatus.failed = CookStatus.failed
cook_status_from_job ResultStatus.overloaded = CookStatus.overloaded
cook_status_from_job ResultStatus.intermediate = CookStatus.intermediate
cook_status_from_job ResultStatus.batch_limit = CookStatus.failed
