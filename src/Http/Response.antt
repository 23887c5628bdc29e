-- ===== src/Http/Response.antt =====
-- The responses that the handlers of CHttpConn send: snprintf into a buffer of fixed size.
pub mod Cut
use filehub_cloud.Base.{ℕ, ◌-◌, ◌%◌, ◌^◌, List, ◌++◌, Text, bytes, decimal, length, take}

-- What snprintf leaves in a buffer of `size` bytes, behind which it writes a NUL.
abbrev pub printed : ℕ → Text → Text
printed size s = take (size - 1) s

-- HTTP_RESPONSE_JSON up to the body, with the Content-Length.
pub json_header : ℕ → Text
json_header ulen =
    bytes "HTTP/1.1 200 OK\r\nConnection:close\r\nContent-Length:"
    ++ (decimal ulen ++ bytes "\r\nContent-Type:application/json;charset=utf-8\r\n\r\n")

-- HTTP_RESPONSE_JSON_MAX is 4096. The length is that of the body, below 2 ^ 31.
pub json_response : Text → Text
unfolding json_header
json_response resp_json = printed 4096 (json_header (length resp_json) ++ resp_json)

-- HTTP_RESPONSE_HTML up to the body.
html_header : ℕ → Text
html_header ulen =
    bytes "HTTP/1.1 200 OK\r\nConnection:close\r\nContent-Length:"
    ++ (decimal ulen ++ bytes "\r\nContent-Type:text/html;charset=utf-8\r\n\r\n")

-- HTTP_RESPONSE_HTM_MAX is 4096 too.
pub html_response : Text → Text
unfolding html_header
html_response page = printed 4096 (html_header (length page) ++ page)

-- The answer to a URL without a handler, in a buffer of 256 bytes.
pub not_found_response : Text
not_found_response = printed 256 (
    bytes "HTTP/1.1 404 OK\r\nConnection:close\r\nContent-Length:"
    ++ (decimal 11 ++ bytes "\r\nContent-Type:application/json;charset=utf-8\r\n\r\n{\"code\": 1}"))
