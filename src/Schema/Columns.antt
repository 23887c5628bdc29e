-- ===== src/Schema/Columns.antt =====
-- Selecting, joining and limiting rows, and the columns that the statements name.
use Prim.Native.String.{String}
use filehub_cloud.Base.{
  ltb, ℕ, Bool, Option, none, some, List, [], ◌∷◌, ◌++◌, map, Text, if◌then◌else◌, keep, ℤ, pos,
  negsuc, take, drop,
}
use filehub_cloud.Schema.Tables.{UserInfo, FileInfo, UserFile, ShareFile, SharePicture, is_file}
use filehub_cloud.Schema.Results.{Cell, number, string, Reply, refused, answered}

-- The new rows of an `update`.
unfoldable pub amend {ℓ} : {A : Type ℓ} → (A → Bool) → (A → A) → List A → List A
amend p f [] = []
amend p f (x ∷ xs) = (if p x then f x else x) ∷ amend p f xs

-- The rows of a `select`, with the columns that `cells` picks.
unfoldable pub selected {ℓ} :
    {A : Type ℓ} → (A → Bool) → (A → List Cell) → List A → List (List Cell)
selected p cells [] = []
selected p cells (x ∷ xs) = let rest = selected p cells xs in if p x then cells x ∷ rest else rest

abbrev pub user_columns : UserFile → List Cell
user_columns r =
    string r.user
    ∷ string r.md5
    ∷ string r.create_time
    ∷ string r.file_name
    ∷ number r.shared_status
    ∷ number r.pv
    ∷ []

abbrev pub status_columns : UserFile → List Cell
status_columns r = number r.shared_status ∷ []

abbrev pub info_columns : FileInfo → List Cell
info_columns r = number r.count ∷ string r.file_id ∷ []

abbrev pub pv_columns : ShareFile → List Cell
pv_columns r = number r.pv ∷ []

abbrev pub share_columns : ShareFile → List Cell
share_columns r =
    string r.user ∷ string r.md5 ∷ string r.file_name ∷ number r.pv ∷ string r.create_time ∷ []

abbrev pub stored : List String → List (List Cell) → Reply
stored fs rs = answered (some (record { fields = fs; rows = rs })) 0

abbrev pub changed : ℕ → Reply
changed n = answered none n

abbrev pub password_columns : UserInfo → List Cell
password_columns r = string r.password ∷ []

abbrev pub picture_columns : SharePicture → List Cell
picture_columns r =
    string r.user ∷ string r.filemd5 ∷ string r.file_name ∷ number r.pv ∷ string r.create_time ∷ []

abbrev pub url_columns : FileInfo → List Cell
url_columns r = string r.url ∷ []

-- The rows of a join on the file's digest, in the order of the first table. Without an `order by`
-- MySQL promises no order; this is the one that is assumed.
unfoldable pub joined {ℓ} : {A : Type ℓ} → (A → Text) → List A → List FileInfo → List (A × FileInfo)
joined digest [] files = []
joined digest (x ∷ xs) files =
    map (λ i. (x, i)) (keep (is_file (digest x)) files) ++ joined digest xs files

-- `limit %d, %d`; a negative number is an error of syntax.
unfoldable pub limited {ℓ} : {A : Type ℓ} → ℤ → ℤ → List A → Option (List A)
limited (pos start) (pos size) rows = some (take size (drop start rows))
limited (pos start) (negsuc n) rows = none
limited (negsuc n) size rows = none

abbrev pub page_columns : UserFile × FileInfo → List Cell
page_columns (r, i) =
    string r.user
    ∷ string r.md5
    ∷ string r.create_time
    ∷ string r.file_name
    ∷ number r.shared_status
    ∷ number r.pv
    ∷ string i.url
    ∷ string i.size
    ∷ string i.type
    ∷ []

abbrev pub share_page_columns : ShareFile × FileInfo → List Cell
share_page_columns (r, i) =
    string r.user
    ∷ string r.md5
    ∷ string r.file_name
    ∷ number r.pv
    ∷ string r.create_time
    ∷ string i.url
    ∷ string i.size
    ∷ string i.type
    ∷ []

abbrev pub picture_page_columns : SharePicture × FileInfo → List Cell
picture_page_columns (r, i) =
    string r.user
    ∷ string r.filemd5
    ∷ string r.file_name
    ∷ string r.urlmd5
    ∷ number r.pv
    ∷ string r.create_time
    ∷ string i.size
    ∷ []

abbrev pub stored_page {ℓ} : {A : Type ℓ} → List String → (A → List Cell) → Option (List A) → Reply
stored_page fs cells none = refused
stored_page fs cells (some rows) = stored fs (map cells rows)

abbrev pub ranking_columns : ShareFile → List Cell
ranking_columns r = string r.md5 ∷ string r.file_name ∷ number r.pv ∷ []

-- `order by pv desc`; rows with one counter are taken to keep their order.
by_pv : ShareFile → List ShareFile → List ShareFile
by_pv r [] = r ∷ []
by_pv r (x ∷ xs) = let rest = by_pv r xs in if ltb r.pv x.pv then x ∷ rest else r ∷ x ∷ xs

unfoldable pub by_downloads : List ShareFile → List ShareFile
unfolding by_pv
by_downloads [] = []
by_downloads (r ∷ xs) = by_pv r (by_downloads xs)
