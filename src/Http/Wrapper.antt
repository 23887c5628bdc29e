-- ===== src/Http/Wrapper.antt =====
-- CHttpParserWrapper: what the callbacks of the parser keep of a request.
pub mod Parts
use filehub_cloud.Base.{
  ℕ, ◌+◌, ◌%◌, ◌^◌, ltb, leb, ◌==◌, Bool, true, false, ◌&&◌, not, List, [], ◌∷◌, ◌++◌, Text, bytes,
  if◌then◌else◌, length, take,
}
use filehub_cloud.Schema.Results.{string}
use filehub_cloud.Conn.Mysql.{atoi}

pub record HttpParserWrapper : Type 0 where
  pub read_all : Bool
  pub read_referer : Bool
  pub read_forward_ip : Bool
  pub read_user_agent : Bool
  pub read_content_type : Bool
  pub read_content_len : Bool
  pub read_host : Bool
  pub total_length : ℕ
  pub content_len : ℕ
  pub url : Text
  pub body_content : Text
  pub referer : Text
  pub forward_ip : Text
  pub user_agent : Text
  pub content_type : Text
  pub host : Text

-- The calls of http_parser_execute, in its order. A header field comes with all of the buffer from its
-- first byte on, since the callbacks compare what stands there.
pub data Event : Type 0 where
  on_url : Text → Event
  on_header_field on_header_value : Text → Event
  -- `parser->nread + (uint32_t)parser->content_length`
  on_headers_complete : ℕ → ℕ → Event
  on_body : Text → Event
  on_message_complete : Event

abbrev lower : ℕ → ℕ
lower c = if leb 65 c && leb c 90 then c + 32 else c

-- `strncasecmp(at, name, strlen(name)) == 0`
starts_with_case : Text → Text → Bool
starts_with_case at [] = true
starts_with_case [] (n ∷ name) = false
starts_with_case (a ∷ at) (n ∷ name) = lower a == lower n && starts_with_case at name

-- A flag that is raised by a header's name, unless its value is there.
abbrev raised : Text → Text → Bool → Bool → Bool
raised at name has_read flag =
    if has_read then flag else if starts_with_case at name then true else flag

abbrev has_read : Text → Bool
has_read s = ltb 0 (length s)

abbrev has_content_len : ℕ → Bool
has_content_len n = not (n == 0)

header_field : Text → HttpParserWrapper → HttpParserWrapper
unfolding starts_with_case
header_field at w = record w {
  read_referer = raised at (bytes "Referer") (has_read w.referer) w.read_referer;
  read_forward_ip = raised at (bytes "X-Forwarded-For") (has_read w.forward_ip) w.read_forward_ip;
  read_user_agent = raised at (bytes "User-Agent") (has_read w.user_agent) w.read_user_agent;
  read_content_type =
      raised at (bytes "Content-Type") (has_read w.content_type) w.read_content_type;
  read_content_len =
      raised at (bytes "Content-Length") (has_content_len w.content_len) w.read_content_len;
  read_host = raised at (bytes "Host") (has_read w.host) w.read_host;
}

abbrev appended : Bool → Text → Text → Text
appended flag s more = if flag then s ++ more else s

-- Every raised flag takes the value and is lowered. MAX_REFERER_LEN is 32.
header_value : Text → HttpParserWrapper → HttpParserWrapper
header_value at w = record w {
  referer = appended w.read_referer w.referer (take 32 at);
  read_referer = false;
  forward_ip = appended w.read_forward_ip w.forward_ip at;
  read_forward_ip = false;
  user_agent = appended w.read_user_agent w.user_agent at;
  read_user_agent = false;
  content_type = appended w.read_content_type w.content_type at;
  read_content_type = false;
  content_len = if w.read_content_len then atoi (string at) % 2 ^ 32 else w.content_len;
  read_content_len = false;
  host = appended w.read_host w.host at;
  read_host = false;
}

called : Event → HttpParserWrapper → HttpParserWrapper
unfolding header_field header_value
called (on_url at) w = record w { url = w.url ++ at }
called (on_header_field at) w = header_field at w
called (on_header_value at) w = header_value at w
called (on_headers_complete nread content_length) w = record w {
  total_length = (nread + content_length % 2 ^ 32) % 2 ^ 32;
}
called (on_body at) w = record w { body_content = w.body_content ++ at }
called on_message_complete w = record w { read_all = true }

execute : List Event → HttpParserWrapper → HttpParserWrapper
unfolding called
execute [] w = w
execute (e ∷ es) w = execute es (called e w)

-- What ParseHttpContent resets.
abbrev reset_wrapper : HttpParserWrapper
reset_wrapper = record {
  read_all = false;
  read_referer = false;
  read_forward_ip = false;
  read_user_agent = false;
  read_content_type = false;
  read_content_len = false;
  read_host = false;
  total_length = 0;
  content_len = 0;
  url = [];
  body_content = [];
  referer = [];
  forward_ip = [];
  user_agent = [];
  content_type = [];
  host = [];
}

pub parse_http_content : List Event → HttpParserWrapper
unfolding execute
parse_http_content events = execute events reset_wrapper
