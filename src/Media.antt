-- ===== src/Media.antt =====
-- The payload types of tier1/src/media.rs and tier1/src/result.rs.
use thumbrella.Base.{ℕ, Option, Bytes}

pub data FileKind : Type 0 where
  image video audio vector document geometry archive text binary unknown : FileKind

-- `properties` is the serialised JSON value: nothing here looks into it.
pub record ThumbMedia : Type 0 where
  pub file_size : ℕ
  pub kind : FileKind
  pub extension : Bytes
  pub mime : Bytes
  pub cache : Bytes
  pub placeholder : Bytes
  pub properties : Bytes
  pub thumbnail : Bytes
  pub url : Bytes

pub data ResultStatus : Type 0 where
  success failed overloaded intermediate batch_limit : ResultStatus

pub data ResultSource : Type 0 where
  render shortcut cache not_modified fallback placeholder client : ResultSource

-- `duration` is the bit pattern of the f64: nothing here computes with it.
pub record ThumbResult : Type 0 where
  pub url : Bytes
  pub status : ResultStatus
  pub message : Option Bytes
  pub source : Option ResultSource
  pub pin : Option Bytes
  pub duration : ℕ
  pub download_size : ℕ
  pub http_status : Option ℕ
  pub media : Option ThumbMedia
