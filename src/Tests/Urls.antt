-- ===== src/Tests/Urls.antt =====
-- URLs at concrete texts.
use filehub_cloud.Base.{◌<◌, ◌≤◌, ◌*◌, some, [], ◌∷◌, Text, bytes, All, length, ◌≡◌, arith}
use filehub_cloud.Common.Query.{query_parse_key_value}
use filehub_cloud.Common.Query.Parsing.{IsParsed, query_parse_key_value-IsParsed}
use filehub_cloud.Common.Suffix.{get_file_suffix}
use filehub_cloud.Common.Suffix.Splitting.{IsSuffix, get_file_suffix-IsSuffix}
use filehub_cloud.Util.Url.{url_encode, url_decode}
use filehub_cloud.Util.Url.RoundTrip.{IsSafe, url_decode-url_encode, url_encode-IsSafe}

-- A blank, a percent sign, a plus sign, a slash and a byte of a Chinese character.
abbrev query : Text
query = 97 ∷ 32 ∷ 37 ∷ 43 ∷ 47 ∷ 228 ∷ []

query_bytes : All (λ x. x < 256) query
query_bytes =
    (omega arith, (omega arith, (omega arith, (omega arith, (omega arith, (omega arith, tt))))))

url_decode-url_encode_example : url_decode (url_encode query) ≡ some query
url_decode-url_encode_example = url_decode-url_encode query query_bytes

url_encode-IsSafe_example :
    All IsSafe (url_encode query) × (length (url_encode query) ≤ 3 * length query)
url_encode-IsSafe_example = url_encode-IsSafe query query_bytes

abbrev url : Text
url = bytes "/api/sharepicture?cmd=share#top"

query_parse_key_value-IsParsed_example :
    IsParsed url (bytes "cmd") (query_parse_key_value url (bytes "cmd"))
query_parse_key_value-IsParsed_example = query_parse_key_value-IsParsed url (bytes "cmd")

abbrev archive : Text
archive = bytes "notes.tar.gz"

get_file_suffix-IsSuffix_example : IsSuffix archive (get_file_suffix archive)
get_file_suffix-IsSuffix_example = get_file_suffix-IsSuffix archive
