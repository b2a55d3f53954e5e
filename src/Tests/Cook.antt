-- ===== src/Tests/Cook.antt =====
-- A request over a transport that answers 200 to a plain request, and 304 to a conditional one.
use thumbrella.Base.{refl, false, none, some, [], ◌∷◌, ascii, if◌then◌else◌, is_some}
use thumbrella.Cook.{CookStatus, ThumbCook}
use thumbrella.Cook.Connect.{reply, Transport, connect}
use thumbrella.Cook.Connect.Outcomes.{Begun, Outcome, connect-Outcome}
use thumbrella.Cook.Resolve.{Runtime, World, cache_key_of, resolve_cache}
use thumbrella.Cook.Resolve.Ends.{Ending, resolve_cache-Ending}
use thumbrella.Cook.Resolve.Renewals.{Owed, looked_up, resolve_cache-Owed}
use thumbrella.FetchGuard.{Failure, Hold}
use thumbrella.HttpBuf.Buffer.{chunk}
use thumbrella.Tests.Fixtures.{Table, table, plain}
use thumbrella.Tests.Memory.{stocked}
use thumbrella.Tests.Chain.{M, backend}

abbrev source : Transport
source url validator = reply (record {
  status = if is_some validator then 304 else 200;
  headers = λ name. none;
  final_url = none;
  body = chunk (1 ∷ 2 ∷ []) ∷ [];
})

abbrev request : ThumbCook
request = record {
  url = ascii "https://a.com/x.jpg";
  input_cache = none;
  allow_local = false;
  status = CookStatus.processing;
  out_message = [];
  http_status = none;
  http_headers = λ name. none;
  http_accepts_ranges = false;
  http_buf = none;
  media = record {
    file_size = none;
    kind = none;
    extension = none;
    mime = none;
    properties = none;
  };
  src = record { cache_key = none; cache_hints = none; final_url = none; canonical_url = none };
  out_thumbnail = [];
  out_placeholder = none;
  placeholder_source = none;
  cache_hit = none;
  debounce_result = none;
  cache_resolved = false;
  ctx_handoff = false;
  ctx_cache_key = some (ascii "k");
  ctx_debounce_key = none;
  default_cache_ttl = 60;
  default_pin_ttl = 60;
  cache_max_ttl_secs = 3600;
}

request-Begun : Begun request
request-Begun = record { going = refl; closed = refl }

abbrev no_holds : Table Hold
no_holds origin = none

abbrev no_failures : Table Failure
no_failures url = none

abbrev runtime : Runtime M (Table Hold) (Table Failure)
runtime = record {
  b64 = plain;
  backend = some backend;
  origins = table Hold;
  urls = table Failure;
  transport = source;
  backoff_default = 60;
  cache_default_ttl_secs = 60;
}

abbrev world : World M (Table Hold) (Table Failure)
world = record { cache = stocked; origins = no_holds; urls = no_failures; after = [] }

connect-Outcome_example :
    Outcome request
      (connect (table Hold) (table Failure) source 60 request no_holds no_failures 500).0
connect-Outcome_example =
    connect-Outcome (table Hold) (table Failure) source 60 request no_holds no_failures 500
      request-Begun

resolve_cache-Ending_example : Ending (resolve_cache runtime request world none 500)
resolve_cache-Ending_example = resolve_cache-Ending runtime request world none 500 request-Begun

resolve_cache-Owed_example :
    Owed runtime
      (cache_key_of request)
      (looked_up runtime request world 500)
      500
      []
      (resolve_cache runtime request world none 500)
resolve_cache-Owed_example = resolve_cache-Owed runtime request world none 500 request-Begun
