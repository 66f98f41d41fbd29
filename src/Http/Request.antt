-- ===== src/Http/Request.antt =====
-- lw/http/http_request.h and http_request.cpp: the header of a request, from its bytes to the
-- fields of `HttpRequest`. A byte is its unsigned value. The bytes that the connection delivers
-- up to the blank line are an argument of `read_header`.
pub mod Scan
pub mod Query
pub mod Field
pub mod Line
mod Tests
use liblw.Prelude.{
  ℕ, ◌+◌, ◌-◌, Bool, List, [], ◌∷◌, Option, none, some, ltb, length, if◌then◌else◌, take, drop,
}
use liblw.Prelude.Int.{ℤ, pos, negsuc, is_negative}
use liblw.Base.Chars.{Bytes}
use liblw.Http.Headers.{Headers}

pub record HttpRequest : Type 0 where
  pub raw_header : Bytes
  pub http_version : Bytes
  pub method : Bytes
  pub path : Bytes
  pub raw_path : Bytes
  pub headers : Headers
  pub query_params : Headers
  pub route_params : Headers
  pub content_length : ℤ

-- A request of which nothing has been read.
abbrev pub initial : HttpRequest
initial = record {
  raw_header = [];
  http_version = [];
  method = [];
  path = [];
  raw_path = [];
  headers = [];
  query_params = [];
  route_params = [];
  content_length = negsuc 0;
}
