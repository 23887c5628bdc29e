-- ===== src/Http/Wrapper/Parts.antt =====
-- What is kept of a request, by its events.
use filehub_cloud.Base.{
  Bool, true, false, ◌||◌, List, [], ◌∷◌, ◌++◌, Text, ◌≡◌, sym, ◌∙◌, arith, append_assoc,
  append-nil,
}
use filehub_cloud.Http.Wrapper.{
  Event, on_url, on_header_field, on_header_value, on_headers_complete, on_body,
  on_message_complete, HttpParserWrapper, called, execute, header_field, header_value,
  parse_http_content, reset_wrapper,
}

-- The parts of a request, as its events bring them.
abbrev pub urls : List Event → Text
urls [] = []
urls (on_url at ∷ es) = at ++ urls es
urls (_ ∷ es) = urls es

abbrev pub bodies : List Event → Text
bodies [] = []
bodies (on_body at ∷ es) = at ++ bodies es
bodies (_ ∷ es) = bodies es

abbrev pub completes : List Event → Bool
completes [] = false
completes (on_message_complete ∷ es) = true
completes (_ ∷ es) = completes es

execute_lem :
    (es : List Event) (w : HttpParserWrapper)
    → ((execute es w).url ≡ w.url ++ urls es)
      × ((execute es w).body_content ≡ w.body_content ++ bodies es)
      × ((execute es w).read_all ≡ (w.read_all || completes es))
unfolding execute called header_field header_value
execute_lem [] w = (sym (append-nil w.url), sym (append-nil w.body_content), ground arith)
execute_lem (on_url at ∷ es) w =
    let (u, b, c) = execute_lem es (called (on_url at) w) in
    (u ∙ append_assoc w.url at (urls es), b, c)
execute_lem (on_header_field at ∷ es) w = execute_lem es (called (on_header_field at) w)
execute_lem (on_header_value at ∷ es) w = execute_lem es (called (on_header_value at) w)
execute_lem (on_headers_complete n m ∷ es) w = execute_lem es (called (on_headers_complete n m) w)
execute_lem (on_body at ∷ es) w =
    let (u, b, c) = execute_lem es (called (on_body at) w) in
    (u, b ∙ append_assoc w.body_content at (bodies es), c)
execute_lem (on_message_complete ∷ es) w =
    let (u, b, c) = execute_lem es (called on_message_complete w) in (u, b, c ∙ ground arith)

pub parse_http_content_lem :
    (es : List Event)
    → ((parse_http_content es).url ≡ urls es)
      × ((parse_http_content es).body_content ≡ bodies es)
      × ((parse_http_content es).read_all ≡ completes es)
unfolding parse_http_content
parse_http_content_lem es = execute_lem es reset_wrapper
