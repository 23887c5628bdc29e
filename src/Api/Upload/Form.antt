-- ===== src/Api/Upload/Form.antt =====
-- What ApiUpload reads of the body of a request: a multipart form whose fields stand in a fixed order. The
-- body has no NUL byte. `bad` is a missing field; `throws` is what C++ leaves undefined, an address computed
-- from a NULL of strstr or a text that does not fit its buffer.
use filehub_cloud.Base.{
  ℕ, leb, ltb, ◌==◌, Bool, ◌||◌, ◌&&◌, Option, none, some, [], ◌∷◌, Text, bytes, decimal,
  if◌then◌else◌, length, drop,
}
use filehub_cloud.Schema.Results.{string}
use filehub_cloud.Conn.Mysql.{atoi}
use filehub_cloud.Util.Search.{stands_at}
use filehub_cloud.Api.Json.{Decoded, bad, decoded, throws, ◌>>=◌}

pub record UploadForm : Type 0 where
  pub file_name : Text
  pub file_content_type : Text
  pub file_path : Text
  pub file_md5 : Text
  pub file_size : Text
  pub user : Text

-- `strstr(s, key)`
strstr : Text → Text → Option Text
strstr [] key = if stands_at [] key then some [] else none
strstr (c ∷ s) key = let rest = strstr s key in if stands_at (c ∷ s) key then some (c ∷ s) else rest

abbrev crlf : Text
crlf = 13 ∷ 10 ∷ []

-- What stands before the end of the line, and the text from there on.
behind_byte : ℕ → Option (Text × Text) → Option (Text × Text)
behind_byte c none = none
behind_byte c (some (line, rest)) = some (c ∷ line, rest)

line_end : Text → Option (Text × Text)
unfolding behind_byte
line_end [] = none
line_end (c ∷ s) =
    let rest = line_end s in if stands_at (c ∷ s) crlf then some ([], c ∷ s) else behind_byte c rest

-- `p2 = strstr(p, "\r\n"); p2 += 4;`, up to the NUL at the end of the text.
behind_blank_line : Text → Decoded Text
unfolding line_end
behind_blank_line p = elim (line_end p) [
  | none ↦ throws
  | some (line, p2) ↦ if ltb (length p2) 4 then throws else decoded (drop 4 p2)
]

-- `strncpy(buf, begin, strstr(begin, "\r\n") - begin)` into a buffer of `size` bytes, and the text behind
-- the end of the line.
copied_line : ℕ → Text → Decoded (Text × Text)
unfolding line_end
copied_line size begin = elim (line_end begin) [
  | none ↦ throws
  | some (line, p2) ↦ if ltb (length line) size then decoded (line, drop 2 p2) else throws
]

required_at : Option Text → Decoded Text
required_at none = bad
required_at (some p) = decoded p

-- A field: its name, the blank line behind it, and its value.
field_of : Text → ℕ → Text → Decoded (Text × Text)
unfolding required_at strstr behind_blank_line copied_line
field_of key size begin = do
  p2 ← required_at (strstr begin key)
  value ← behind_blank_line p2
  copied_line size value

-- The first field is asked for, but its value is looked for from the first line on.
first_field : ℕ → Text → Decoded (Text × Text)
unfolding required_at strstr behind_blank_line copied_line
first_field size begin = do
  p2 ← required_at (strstr begin (bytes "name=\"file_name\""))
  value ← behind_blank_line begin
  copied_line size value

-- The boundary, into a buffer of 512 bytes; it is not used.
boundary_of : Text → Decoded Text
unfolding line_end
boundary_of begin = elim (line_end begin) [
  | none ↦ bad
  | some (line, p1) ↦ if ltb (length line) 512 then decoded (drop 2 p1) else throws
]

unfoldable pub parse_upload : Text → Decoded UploadForm
unfolding boundary_of first_field field_of
parse_upload post_data = do
  begin ← boundary_of post_data
  (file_name, begin) ← first_field 128 begin
  (file_content_type, begin) ← field_of (bytes "name=\"file_content_type\"") 128 begin
  (file_path, begin) ← field_of (bytes "name=\"file_path\"") 128 begin
  (file_md5, begin) ← field_of (bytes "name=\"file_md5\"") 128 begin
  (file_size, begin) ← field_of (bytes "name=\"file_size\"") 32 begin
  (user, begin) ← field_of (bytes "name=\"user\"") 32 begin
  decoded (record {
    file_name = file_name;
    file_content_type = file_content_type;
    file_path = file_path;
    file_md5 = file_md5;
    file_size = file_size;
    user = user;
  })

-- isspace, in the default locale.
abbrev pub is_space : ℕ → Bool
is_space c = c == 32 || (leb 9 c && leb c 13)

pub strip_start : Text → Text
strip_start [] = []
strip_start (c ∷ s) = let rest = strip_start s in if is_space c then rest else c ∷ s

signed : Text → Text
signed [] = bytes "0"
signed (c ∷ s) =
    if c == 45
    then (if atoi (string s) == 0 then bytes "0" else 45 ∷ decimal (atoi (string s)))
    else if c == 43
    then decimal (atoi (string s))
    else decimal (atoi (string (c ∷ s)))

-- `strtol(file_size, NULL, 10)`, printed with `%ld`; the number is taken to fit a long.
pub printed_size : Text → Text
unfolding signed strip_start
printed_size file_size = signed (strip_start file_size)
