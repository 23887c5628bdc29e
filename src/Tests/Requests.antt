-- ===== src/Tests/Requests.antt =====
-- The requests with a reader that finds each member's own name in it, and the obliging services.
use filehub_cloud.Base.{some, [], ◌∷◌, Text, bytes, length, pos, false, ◌≡◌, ◌≢◌, refl}
use filehub_cloud.Redis.{find}
use filehub_cloud.Program.Defs.{View}
use filehub_cloud.Program.Servers.{Ends}
use filehub_cloud.Api.Json.{JsonReader, decoded, parse_root, required, text_of, optional_text_of}
use filehub_cloud.Api.Requests.{
  LoginRequest, RegisterRequest, FileRequest, ShareRequest, decode_login, decode_register,
  decode_dealfile, decode_dealsharefile, command,
}
use filehub_cloud.Api.Files.{api_dealfile, api_md5}
use filehub_cloud.Api.Files.Gate.{Refused, request-Refused}
use filehub_cloud.Api.Accounts.{api_user_login, api_register_user}
use filehub_cloud.Api.Accounts.Machine.{logs_in, signs_up}
use filehub_cloud.Api.Accounts.Refinement.{Steps, login-Steps_run, register-Steps_run}
use filehub_cloud.Api.Lists.{api_myfiles}
use filehub_cloud.Api.Lists.Gate.{Guarded, myfiles-Guarded_run}
use filehub_cloud.Handlers.Lists.{get_user_file_list, handle_get_share_filelist}
use filehub_cloud.Handlers.Lists.Users.{UserListed, user_list-Listed_run}
use filehub_cloud.Handlers.Lists.Shares.{ShareListed, share_list-Listed_run}
use filehub_cloud.Handlers.Pictures.{handle_browse_picture, handle_get_share_pictures_list}
use filehub_cloud.Handlers.Pictures.Browsing.{Browsed, browse-Browsed_run}
use filehub_cloud.Handlers.Pictures.Listing.{Paged, list-Paged_run}
use filehub_cloud.Handlers.Ranking.{handle_get_ranking_filelist}
use filehub_cloud.Handlers.Ranking.Reloaded.{Reloaded, ranking-Reloaded_run}
use filehub_cloud.Api.Shares.{api_sharefiles}
use filehub_cloud.Api.Shares.Served.{Served, sharefiles-Served_run}
use filehub_cloud.Tests.Services.{obliging, obliging-IsDocumented, obliging-IsGranting}
use filehub_cloud.Program.Granted.{Gives}
use filehub_cloud.Tests.Files.{ann, digest, picture, now, published}

abbrev pub echo : JsonReader
echo = record {
  Value = Text;
  parse = λ s. some s;
  member = λ v key. some key;
  is_null = λ v. false;
  as_string = λ v. some v;
  as_int = λ v. some (pos (length v));
}

abbrev body : Text
body = bytes "{}"

abbrev token : Text
token = bytes "t1"

abbrev deal_url : Text
deal_url = bytes "/api/dealfile&cmd=del"

abbrev list_url : Text
list_url = bytes "/api/myfiles&cmd=normal"

abbrev file_request : FileRequest
file_request = record {
  user = bytes "user";
  token = bytes "token";
  md5 = bytes "md5";
  filename = bytes "filename";
}

abbrev share_request : ShareRequest
share_request = record { user = bytes "user"; md5 = bytes "md5"; filename = bytes "filename" }

abbrev login_request : LoginRequest
login_request = record { user = bytes "user"; pwd = bytes "pwd" }

abbrev register_request : RegisterRequest
register_request = record {
  user_name = bytes "userName";
  nick_name = bytes "nickName";
  first_pwd = bytes "firstPwd";
  phone = bytes "phone";
  email = bytes "email";
}

-- `ann` shows a picture.
abbrev shown : View
shown = record published {
  tables = record published.tables {
    share_picture_list =
        record {
          user = ann;
          filemd5 = digest;
          file_name = picture;
          urlmd5 = bytes "u1";
          key = [];
          pv = 4;
          create_time = now;
        }
        ∷ [];
  };
}

file_decoded : decode_dealfile echo body ≡ decoded file_request
unfolding decode_dealfile parse_root required text_of
file_decoded = refl

share_decoded : decode_dealsharefile echo body ≡ decoded share_request
unfolding decode_dealsharefile parse_root required text_of
share_decoded = refl

login_decoded : decode_login echo body ≡ decoded login_request
unfolding decode_login parse_root required text_of
login_decoded = refl

register_decoded : decode_register echo body ≡ decoded register_request
unfolding decode_register parse_root required text_of optional_text_of
register_decoded = refl

not_found : find (bytes "token") published.store.strings ≢ some (bytes "user")
unfolding find
not_found = cc

named : file_request.user ≢ []
named = cc

request-Refused_example :
    Ends obliging obliging-IsDocumented
      (api_dealfile echo [] now now deal_url body)
      (Refused published)
      published
    × Ends obliging obliging-IsDocumented (api_md5 echo body) (Refused published) published
request-Refused_example =
    request-Refused obliging obliging-IsDocumented echo file_request [] now now deal_url body
      published file_decoded not_found named

login-Steps_example :
    Ends obliging obliging-IsDocumented
      (api_user_login echo token body)
      (Steps published (logs_in login_request.user login_request.pwd token))
      published
login-Steps_example =
    login-Steps_run obliging obliging-IsDocumented echo token body login_request published
      login_decoded

register-Steps_example :
    Ends obliging obliging-IsDocumented
      (api_register_user echo now body)
      (Steps published (signs_up register_request.user_name register_request.first_pwd))
      published
register-Steps_example =
    register-Steps_run obliging obliging-IsDocumented echo now body register_request published
      register_decoded

browse-Browsed_example :
    Ends obliging obliging-IsDocumented
      (handle_browse_picture (bytes "u1"))
      (Browsed (bytes "u1") shown)
      shown
browse-Browsed_example = browse-Browsed_run obliging obliging-IsDocumented (bytes "u1") shown

list-Paged_example :
    Ends obliging obliging-IsDocumented
      (handle_get_share_pictures_list ann (pos 0) (pos 10))
      (Paged ann (pos 0) (pos 10) shown)
      shown
list-Paged_example = list-Paged_run obliging obliging-IsDocumented ann (pos 0) (pos 10) shown

user_list-Listed_example :
    Ends obliging obliging-IsDocumented
      (get_user_file_list ann (pos 0) (pos 10))
      (UserListed ann (pos 0) (pos 10) published)
      published
user_list-Listed_example =
    user_list-Listed_run obliging obliging-IsDocumented ann (pos 0) (pos 10) published

share_list-Listed_example :
    Ends obliging obliging-IsDocumented
      (handle_get_share_filelist (pos 0) (pos 10))
      (ShareListed (pos 0) (pos 10) published)
      published
share_list-Listed_example =
    share_list-Listed_run obliging obliging-IsDocumented (pos 0) (pos 10) published

myfiles-Guarded_example :
    Ends obliging obliging-IsDocumented
      (api_myfiles echo [] list_url body)
      (Guarded echo (command [] list_url) body published)
      published
myfiles-Guarded_example =
    myfiles-Guarded_run obliging obliging-IsDocumented echo [] list_url body published

ranking-Reloaded_example :
    Gives obliging obliging-IsGranting
      (handle_get_ranking_filelist (pos 0) (pos 10))
      (Reloaded 0 10 published)
      published
ranking-Reloaded_example = ranking-Reloaded_run obliging obliging-IsGranting 0 10 published

sharefiles-Served_example :
    Ends obliging obliging-IsDocumented
      (api_sharefiles echo [] list_url body)
      (Served echo (command [] list_url) body published)
      published
sharefiles-Served_example =
    sharefiles-Served_run obliging obliging-IsDocumented echo [] list_url body published
