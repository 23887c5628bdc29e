-- ===== src/Tests/Wires.antt =====
-- HTTP requests, configurations and texts at concrete inputs.
use filehub_cloud.Base.{
  ◌<◌, ◌≤◌, ◌^◌, true, false, some, List, [], ◌∷◌, Text, bytes, less, length, ◌≡◌, arith,
}
use filehub_cloud.Http.Wrapper.{
  Event, on_url, on_header_field, on_header_value, on_headers_complete, on_body,
  on_message_complete,
}
use filehub_cloud.Http.Routing.{on_read}
use filehub_cloud.Http.Routing.Dispatch.{IsDispatched, on_read-IsDispatched}
use filehub_cloud.Http.Serving.{Surroundings}
use filehub_cloud.Tests.Requests.{echo}
use filehub_cloud.Http.Response.{json_response}
use filehub_cloud.Http.Response.Cut.{IsSent, json_response-IsSent}
use filehub_cloud.Util.Config.{ConfigFileReader, load_file, get_config_name, set_config_value}
use filehub_cloud.Util.Config.RoundTrip.{IsWritable, set_config_value-load_file}
use filehub_cloud.Util.Config.RoundTrip.Lines.{IsPair}
use filehub_cloud.Util.Explode.{explode}
use filehub_cloud.Util.Explode.Joining.{IsJoined, explode-IsJoined}
use filehub_cloud.Util.Search.{mem_find}
use filehub_cloud.Util.Search.Found.{IsLast, mem_find-IsLast}

-- A URL and a body that come in two pieces each.
abbrev request : List Event
request =
    on_url (bytes "/api/my")
    ∷ on_url (bytes "files&cmd=count")
    ∷ on_header_field (bytes "Host: x")
    ∷ on_header_value (bytes "x")
    ∷ on_headers_complete 40 2
    ∷ on_body (bytes "{")
    ∷ on_body (bytes "}")
    ∷ on_message_complete
    ∷ []

on_read-IsDispatched_example : IsDispatched request (on_read request)
on_read-IsDispatched_example = on_read-IsDispatched request

abbrev reply : Text
reply = bytes "{code: 0}"

reply-short : length reply < 2 ^ 31
reply-short = omega arith

json_response-IsSent_example : IsSent reply (json_response reply)
json_response-IsSent_example = json_response-IsSent reply reply-short

abbrev reader : ConfigFileReader
reader = record {
  load_ok = true;
  config_map = (bytes "ip", bytes "0.0.0.0") ∷ (bytes "port", bytes "8081") ∷ [];
}

reader-IsWritable : IsWritable reader
unfolding less
reader-IsWritable = ground arith

log_line-IsPair : IsPair (bytes "log", bytes "a b")
log_line-IsPair = ground arith

set_config_value-load_file_example :
    (text : Text) × ((set_config_value true 5 (bytes "log") (bytes "a b") reader).1
      ≡ some (text, true))
    × (load_file false (some text) ≡ (set_config_value true 5 (bytes "log") (bytes "a b") reader).0)
    × (get_config_name (bytes "log") (load_file false (some text)) ≡ some (bytes "a b"))
set_config_value-load_file_example =
    set_config_value-load_file reader (bytes "log") (bytes "a b") 5 false reader-IsWritable
      log_line-IsPair (omega arith)

abbrev names : Text
names = bytes "a,bc,"

explode-IsJoined_example :
    (length (explode names 44).item_list ≤ (explode names 44).item_cnt)
    × IsJoined 44 names (explode names 44).item_list
explode-IsJoined_example = explode-IsJoined names 44

mem_find-IsLast_example : IsLast names (bytes ",") (mem_find names (bytes ",") false)
mem_find-IsLast_example = mem_find-IsLast names (bytes ",") (omega arith)

abbrev surroundings : Surroundings
surroundings = record {
  reader = echo;
  write = λ r. reply;
  now = bytes "1";
  create_time = bytes "2026";
  token = bytes "t";
  rand = λ i. i;
  ip = bytes "10.0.0.7";
  junk = [];
  index_html = [];
}
