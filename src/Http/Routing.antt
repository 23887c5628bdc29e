-- ===== src/Http/Routing.antt =====
-- CHttpConn::OnRead: which handler a request goes to.
pub mod Dispatch
use filehub_cloud.Base.{
  ℕ, ◌==◌, Bool, true, false, ◌&&◌, Option, none, some, List, [], ◌∷◌, Text, bytes, if◌then◌else◌,
}
use filehub_cloud.Http.Wrapper.{Event, HttpParserWrapper, parse_http_content}

pub data Route : Type 0 where
  register login md5 upload myfiles sharepicture dealfile sharefiles dealsharefile html memhtml :
      Route

-- `strncmp(url, prefix, strlen(prefix)) == 0`
pub starts_with : Text → Text → Bool
starts_with url [] = true
starts_with [] (p ∷ prefix) = false
starts_with (u ∷ url) (p ∷ prefix) = u == p && starts_with url prefix

pub route : Text → Option Route
unfolding starts_with
route url =
    if starts_with url (bytes "/api/reg")
    then some register
    else if starts_with url (bytes "/api/login")
    then some login
    else if starts_with url (bytes "/api/md5")
    then some md5
    else if starts_with url (bytes "/api/upload")
    then some upload
    else if starts_with url (bytes "/api/myfiles")
    then some myfiles
    else if starts_with url (bytes "/api/sharepic")
    then some sharepicture
    else if starts_with url (bytes "/api/dealfile")
    then some dealfile
    else if starts_with url (bytes "/api/sharefiles")
    then some sharefiles
    else if starts_with url (bytes "/api/dealsharefile")
    then some dealsharefile
    else if starts_with url (bytes "/api/html")
    then some html
    else if starts_with url (bytes "/api/memhtml")
    then some memhtml
    else none

-- More data is waited for; the 404 response; or a handler is called with the URL and the body.
pub data Reading : Type 0 where
  waits : Reading
  not_found : Reading
  handled : Route → Text → Text → Reading

routed : Option Route → Text → Text → Reading
routed none url content = not_found
routed (some r) url content = handled r url content

abbrev read_wrapper : HttpParserWrapper → Reading
read_wrapper w = if w.read_all then routed (route w.url) w.url w.body_content else waits

pub on_read : List Event → Reading
unfolding routed
on_read events = read_wrapper (parse_http_content events)
