-- ===== src/Http/Response.antt =====
-- lw/http/http_response.h and http_response.cpp: what a response holds, and its text.
pub mod Headers
pub mod ReadBack
mod Tests
use liblw.Prelude.{
  ℕ, Bool, true, false, List, [], ◌∷◌, ◌++◌, Option, none, some, length, ◌==◌, if◌then◌else◌,
}
use liblw.Prelude.Int.{ℤ, pos, negsuc}
use liblw.Base.Chars.{Bytes, codes}
use liblw.Err.{Result, ok, throws, invalid_argument, not_found, ◌>>=◌}
use liblw.Http.Headers as Map

-- `_headers` is in the order of the map.
pub record HttpResponse : Type 0 where
  pub status_code : ℤ
  pub status_text : Bytes
  pub headers : Map.Headers
  pub body : Bytes

abbrev pub fresh : HttpResponse
fresh = record { status_code = pos 0; status_text = []; headers = []; body = [] }

-- `_messages`
abbrev pub messages : List (ℕ × Bytes)
messages =
    (100, codes "Continue")
    ∷ (101, codes "Switching Protocols")
    ∷ (102, codes "Processing")
    ∷ (103, codes "Early Hints")
    ∷ (200, codes "OK")
    ∷ (201, codes "Created")
    ∷ (202, codes "Accepted")
    ∷ (203, codes "Non-Authoritative Information")
    ∷ (204, codes "No Content")
    ∷ (205, codes "Reset Content")
    ∷ (206, codes "Partial Content")
    ∷ (207, codes "Multi-Status")
    ∷ (208, codes "Already Reported")
    ∷ (226, codes "IM Used")
    ∷ (300, codes "Multiple Choices")
    ∷ (301, codes "Moved Permanently")
    ∷ (302, codes "Found")
    ∷ (303, codes "See Other")
    ∷ (304, codes "Not Modified")
    ∷ (305, codes "Use Proxy")
    ∷ (306, codes "Switch Proxy")
    ∷ (307, codes "Temporary Redirect")
    ∷ (308, codes "Permanent Redirect")
    ∷ (400, codes "Bad Request")
    ∷ (401, codes "Unauthorized")
    ∷ (402, codes "Payment Required")
    ∷ (403, codes "Forbidden")
    ∷ (404, codes "Not Found")
    ∷ (405, codes "Method Not Allowed")
    ∷ (406, codes "Not Acceptable")
    ∷ (407, codes "Proxy Authentication Required")
    ∷ (408, codes "Request Timeout")
    ∷ (409, codes "Conflict")
    ∷ (410, codes "Gone")
    ∷ (411, codes "Length Required")
    ∷ (412, codes "Precondition Failed")
    ∷ (413, codes "Payload Too Large")
    ∷ (414, codes "URI Too Long")
    ∷ (415, codes "Unsupported Media Type")
    ∷ (416, codes "Range Not Satisfiable")
    ∷ (417, codes "Expectation Failed")
    ∷ (418, codes "I'm a teapot")
    ∷ (421, codes "Misdirected Request")
    ∷ (422, codes "Unprocessable Entity")
    ∷ (423, codes "Locked")
    ∷ (424, codes "Failed Dependency")
    ∷ (425, codes "Too Early")
    ∷ (426, codes "Upgrade Required")
    ∷ (428, codes "Precondition Required")
    ∷ (429, codes "Too Many Requests")
    ∷ (431, codes "Request Header Fields Too Large")
    ∷ (451, codes "Unavailable For Legal Reasons")
    ∷ (500, codes "Internal Server Error")
    ∷ (501, codes "Not Implemented")
    ∷ (502, codes "Bad Gateway")
    ∷ (503, codes "Service Unavailable")
    ∷ (504, codes "Gateway Timeout")
    ∷ (505, codes "HTTP Version Not Supported")
    ∷ (506, codes "Variant Also Negotiates")
    ∷ (507, codes "Insufficient Storage")
    ∷ (508, codes "Loop Detected")
    ∷ (510, codes "Not Extended")
    ∷ (511, codes "Network Authentication Required")
    ∷ []

unfoldable pub lookup : ℕ → List (ℕ × Bytes) → Option Bytes
lookup code [] = none
lookup code ((n, message) ∷ rest) =
    let more = lookup code rest in if code == n then some message else more

unfoldable pub default_status_message : ℤ → Result Bytes
unfolding lookup
default_status_message (pos code) = elim (lookup code messages) [
  | none ↦ throws invalid_argument
  | some message ↦ ok message
]
default_status_message (negsuc _) = throws invalid_argument

-- return _status_code ? _status_code : OK;
abbrev or_ok : ℤ → ℤ
or_ok (pos code) = if code == 0 then pos 200 else pos code
or_ok (negsuc n) = negsuc n

unfoldable pub status : HttpResponse → ℤ
status res = or_ok res.status_code

-- `status(code)`, and `status(code, message)`
unfoldable pub set_status : ℤ → HttpResponse → HttpResponse
set_status code res = record res { status_code = code; status_text = [] }

unfoldable pub set_status_message : ℤ → Bytes → HttpResponse → HttpResponse
set_status_message code message res = record res { status_code = code; status_text = message }

unfoldable pub status_message : HttpResponse → Result Bytes
unfolding default_status_message status
status_message res = elim res.status_text [
  | [] ↦ default_status_message (status res)
  | c ∷ cs ↦ ok (c ∷ cs)
]

unfoldable pub has_header : Bytes → HttpResponse → Bool
has_header name res = Map.contains name res.headers

unfoldable pub header : Bytes → HttpResponse → Result Bytes
header name res = elim (Map.find name res.headers) [
  | none ↦ throws not_found
  | some value ↦ ok value
]

-- The value of a header that is there is assigned to, its key stays.
unfoldable pub set_header : Bytes → Bytes → HttpResponse → HttpResponse
set_header name value res = elim (Map.find name res.headers) [
  | none ↦ record res { headers = Map.insert name value res.headers }
  | some _ ↦ record res { headers = Map.assign name value res.headers }
]

unfoldable pub set_body : Bytes → HttpResponse → HttpResponse
set_body b res = record res { body = b }

abbrev pub end : Bytes
end = 13 ∷ 10 ∷ []

unfoldable pub header_lines : Map.Headers → Bytes
header_lines [] = []
header_lines ((key, value) ∷ rest) = key ++ (codes ": " ++ (value ++ (end ++ header_lines rest)))

-- `serialize`, and `operator<<`. What the stream gives for a number is a parameter.
module _ (print : ℤ → Bytes) where
  abbrev pub length_line : HttpResponse → Bytes
  length_line res =
      if has_header (codes "Content-Length") res
      then []
      else codes "Content-Length: " ++ (print (pos (length res.body)) ++ end)

  unfoldable pub serialize : HttpResponse → Result Bytes
  unfolding status status_message header_lines has_header
  serialize res = status_message res >>= λ message. ok (
      codes "HTTP/1.1 "
      ++ (print (status res)
          ++ (codes " "
              ++ (message
                  ++ (end
                      ++ (header_lines res.headers ++ (length_line res ++ (end ++ res.body))))))))
