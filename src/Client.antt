-- ===== src/Client.antt =====
-- client/src/utils.rs: `encode_request`, the bytes that the client writes to the connection. The
-- request is seen through the parts that the function reads.
pub mod Encoded
pub mod Accepted
pub mod Response
use zk_prompt.Base.{
  ℕ, ◌+◌, Bool, true, false, ◌&&◌, Option, none, some, List, [], ◌∷◌, ◌++◌, Bytes, length, leb,
  ◌==◌, if◌then◌else◌,
}
use zk_prompt.Base.Words.{eq_ignore_ascii_case}
use zk_prompt.Base.Text.{Str, codes, into_bytes, decimal}

pub record Request : Type 0 where
  pub method : Str
  pub path_and_query : Option Str
  pub authority : Option Str
  -- The header map in the order of its iterator; a value is bytes.
  pub headers : List (Str × Bytes)
  pub body : Bytes

-- `unwrap_or("/")`
abbrev pub path_of : Option Str → Str
path_of none = codes "/"
path_of (some path) = path

unfoldable pub host_line : Option Str → Bytes
host_line none = []
host_line (some authority) = into_bytes (codes "Host: " ++ authority ++ codes "\r\n")

-- The loop over the headers, with `wire`, `has_content_length` and `has_connection`.
unfoldable pub headers_loop : List (Str × Bytes) → Bytes → Bool → Bool → Bytes × Bool × Bool
headers_loop [] wire has_content_length has_connection = (wire, has_content_length, has_connection)
headers_loop ((name, value) ∷ headers) wire has_content_length has_connection =
    let next = headers_loop headers in
    if eq_ignore_ascii_case name (codes "host")
    then next wire has_content_length has_connection
    else next (wire ++ (into_bytes name ++ codes ": " ++ value ++ codes "\r\n"))
        (if eq_ignore_ascii_case name (codes "content-length") then true else has_content_length)
        (if eq_ignore_ascii_case name (codes "connection") then true else has_connection)

-- The two headers that are added when they are missing.
unfoldable pub finish_headers : Bytes → Bytes × Bool × Bool → Bytes
finish_headers body (wire, has_content_length, has_connection) =
    let sized =
      if has_content_length
      then wire
      else wire ++ into_bytes (codes "Content-Length: " ++ decimal (length body) ++ codes "\r\n") in
    if has_connection then sized else sized ++ codes "Connection: close\r\n"

unfoldable pub encode_request : Request → Bytes
encode_request r =
    let request_line =
      into_bytes (r.method ++ codes " " ++ path_of r.path_and_query ++ codes " HTTP/1.1\r\n") in
    finish_headers r.body
      (headers_loop r.headers (request_line ++ host_line r.authority) false false)
    ++ codes "\r\n"
    ++ r.body
