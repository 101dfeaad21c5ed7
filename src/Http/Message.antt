-- ===== src/Http/Message.antt =====
-- include/http.h: the message type http_t with its headers, and the canned responses. A NULL
-- pointer is `none`; `version` has the one value HTTP_VERSION_1_1, which is 0.
use foxtails.Base.{ℕ, Option, none, some, List, [], ◌∷◌, length}
use foxtails.Base.Bytes.{Bytes, codes}
use foxtails.Base.Decimal.{ℤ, pos}
use foxtails.Http.Method.{Method}

-- http_header_t
pub record Header : Type 0 where
  pub name : Bytes
  pub value : Bytes

-- http_t. `method` is `none` where the source has 0; the used items of `headers` are the list.
pub record Http : Type 0 where
  pub method : Option Method
  pub path : Option Bytes
  pub code : ℤ
  pub reason : Option Bytes
  pub version : ℕ
  pub headers : List Header
  pub body : Option Bytes
  pub body_len : ℕ

-- HTTP_MAX_HEADERS
abbrev pub max_headers : ℕ
max_headers = 32

-- (http_t){0}
abbrev pub empty_message : Http
empty_message = record {
  method = none;
  path = none;
  code = pos 0;
  reason = none;
  version = 0;
  headers = [];
  body = none;
  body_len = 0;
}

abbrev pub plain_text : Header
plain_text = record { name = codes "Content-Type"; value = codes "text/plain" }

-- The shape that the macros share: the reason is the body too.
abbrev pub canned : ℕ → Bytes → List Header → Http
canned code reason headers = record empty_message {
  code = pos code;
  reason = some reason;
  body = some reason;
  body_len = length reason;
  headers = headers;
}

abbrev allow_header : Header
allow_header = record { name = codes "Allow"; value = codes "GET, HEAD, POST, PUT, DELETE, PATCH" }

abbrev pub not_implemented : Http
not_implemented = canned 501 (codes "Not Implemented") (plain_text ∷ [])

abbrev pub not_found : Http
not_found = canned 404 (codes "Not Found") (plain_text ∷ [])

abbrev pub bad_request : Http
bad_request = canned 400 (codes "Bad Request") (plain_text ∷ [])

abbrev pub not_allowed : Http
not_allowed = canned 405 (codes "Method Not Allowed") (plain_text ∷ allow_header ∷ [])

abbrev pub no_content : Http
no_content = record empty_message {
  code = pos 204;
  reason = some (codes "No Content");
  headers = allow_header ∷ [];
}

-- HTTP_MOVED(loc)
abbrev pub http_moved : Bytes → Http
http_moved loc =
    canned 301 (codes "Moved Permanently")
      (plain_text ∷ record { name = codes "Location"; value = loc } ∷ [])

abbrev pub version_not_supported : Http
version_not_supported = canned 505 (codes "HTTP Version Not Supported") (plain_text ∷ [])

abbrev pub request_timeout : Http
request_timeout = canned 408 (codes "Request Timeout") (plain_text ∷ [])

abbrev pub bad_gateway : Http
bad_gateway = canned 502 (codes "Bad Gateway") (plain_text ∷ [])
