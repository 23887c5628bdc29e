-- ===== src/Http/Serving.antt =====
-- CHttpConn: the handlers of the requests, from OnRead to what is sent.
use filehub_cloud.Base.{ℕ, Option, none, some, List, ◌++◌, Text, bytes}
use filehub_cloud.Program.Defs.{Prog, done, ◌>>=◌}
use filehub_cloud.Api.Json.{JsonReader, Response}
use filehub_cloud.Api.Accounts.{api_register_user, api_user_login}
use filehub_cloud.Api.Files.{api_dealfile, api_dealsharefile, api_md5}
use filehub_cloud.Api.Lists.{api_myfiles}
use filehub_cloud.Api.Shares.{api_sharefiles}
use filehub_cloud.Api.Pictures.{api_sharepicture}
use filehub_cloud.Api.Upload.{api_upload}
use filehub_cloud.Http.Wrapper.{Event}
use filehub_cloud.Http.Routing.{
  Route, register, login, md5, upload, myfiles, sharepicture, dealfile, sharefiles, dealsharefile,
  html, memhtml, Reading, waits, not_found, handled, on_read,
}
use filehub_cloud.Http.Response.{json_response, html_response, not_found_response}

-- What a handler takes from outside: jsoncpp's reader and writer, the clock as a text of a lock and of a
-- column, a fresh token, the results of rand(), the server's address, what a buffer held, and the file
-- index.html, which is empty if it cannot be opened.
pub record Surroundings : Type 1 where
  pub reader : JsonReader
  pub write : Response → Text
  pub now : Text
  pub create_time : Text
  pub token : Text
  pub rand : ℕ → ℕ
  pub ip : Text
  pub junk : Text
  pub index_html : Text

-- htmlStr.
mem_html : Text
mem_html =
    bytes
      "<!DOCTYPE html>\n<html>\n<head>\n<title>Welcome to nginx!</title>\n<style>\n    body {\n        width: 35em;\n"
    ++ (bytes
          "        margin: 0 auto;\n        font-family: Tahoma, Verdana, Arial, sans-serif;\n    }\n</style>\n</head>\n<body>\n"
        ++ (bytes
              "<h1>Welcome to nginx!</h1>\n<p>If you see this page, GuLu's nginx web server is successfully installed and\n"
            ++ (bytes
                  "working. Further configuration is required.</p>\n<p>For online documentation and support please refer to\n"
                ++ (bytes
                      "<a href=\"http://nginx.org/\">nginx.org</a>.<br/>\nCommercial support is available at\n"
                    ++ bytes
                        "<a href=\"http://nginx.com/\">nginx.com</a>.</p>\n<p><em>Thank you for using nginx.</em></p>\n</body>\n</html>"))))

module _ (E : Surroundings) where
  sent : Prog Response → Prog (Option Text)
  sent handler = handler >>= λ r. done (some (json_response (E.write r)))

  handle : Route → Text → Text → Prog (Option Text)
  unfolding sent mem_html
  handle register url content = sent (api_register_user E.reader E.create_time content)
  handle login url content = sent (api_user_login E.reader E.token content)
  handle md5 url content = sent (api_md5 E.reader content)
  handle upload url content = sent (api_upload E.ip E.create_time content)
  handle myfiles url content = sent (api_myfiles E.reader E.junk url content)
  handle sharepicture url content =
      sent (api_sharepicture E.reader E.rand E.junk E.create_time url content)
  handle dealfile url content = sent (api_dealfile E.reader E.junk E.now E.create_time url content)
  handle sharefiles url content = sent (api_sharefiles E.reader E.junk url content)
  handle dealsharefile url content =
      sent (api_dealsharefile E.reader E.junk E.create_time url content)
  handle html url content = done (some (html_response E.index_html))
  handle memhtml url content = done (some (html_response mem_html))

  -- What is sent; none while more data is waited for.
  serve_reading : Reading → Prog (Option Text)
  unfolding handle
  serve_reading waits = done none
  serve_reading not_found = done (some not_found_response)
  serve_reading (handled r url content) = handle r url content

  pub serve : List Event → Prog (Option Text)
  unfolding serve_reading
  serve events = serve_reading (on_read events)
