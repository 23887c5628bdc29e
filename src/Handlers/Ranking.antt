-- ===== src/Handlers/Ranking.antt =====
-- handleGetRankingFilelist of api/api_sharefiles.cc.
pub mod Listed
pub mod Filling
pub mod Reloaded
use filehub_cloud.Base.{
  ℕ, suc, ◌+◌, ◌-◌, ◌==◌, leb, Bool, true, false, Option, none, some, List, [], ◌∷◌, ◌++◌, ℤ, pos,
  negsuc, Text, if◌then◌else◌, length,
}
use filehub_cloud.Schema.Results.{Cell}
use filehub_cloud.Schema.Statements.{select_ranking}
use filehub_cloud.Redis.{public_zset, name_hash}
use filehub_cloud.Program.Defs.{Prog, done, ◌>>=◌, ◌>>◌}
use filehub_cloud.Conn.Mysql.{CResultSet, get_int, get_string, execute_query}
use filehub_cloud.Conn.Cache.{
  Code, code, minus_one, zset_zcard, cache_del, zset_add, cache_hset, cache_hget, zset_get_score,
  zset_zrevrange,
}
use filehub_cloud.Handlers.Lists.{share_files_count}
use filehub_cloud.Api.Json.{Response, Body, File, leaf, int, text, files, code_body}

-- A row of share_file_list goes into the ranking and the names. Both results are ignored.
load_row : CResultSet → Prog Bool
load_row row =
    let field = get_string row "md5" ++ get_string row "file_name" in
    zset_add (get_int row "pv") field
    >> (cache_hset field (get_string row "file_name") >> done true)

load_rows : CResultSet → List (List Cell) → Prog Bool
unfolding load_row
load_rows r [] = done true
load_rows r (c ∷ rest) =
    let fetched : CResultSet = record r { row = some c; rows = rest } in
    load_row fetched >> load_rows fetched rest

load_result : Option CResultSet → Prog Bool
unfolding load_rows
load_result none = done false
load_result (some r) = load_rows r r.rows

-- The ranking is emptied, and filled from the table; false for a failed query.
refill : Prog Bool
unfolding load_result
refill =
    cache_del public_zset >> (cache_del name_hash >> (execute_query select_ranking >>= load_result))

-- `if (redis_num != sql_num)`
pub refresh : ℕ → ℕ → Prog Bool
unfolding refill
refresh sql_num redis_num = if redis_num == sql_num then done true else refill

-- The name and the score of a member; none for a failure.
show_score : Text → Code → Option File
show_score name minus_one = none
show_score name (code score) = some (("filename", text name) ∷ ("pv", int score) ∷ [])

show_name : Text → Option Text → Prog (Option File)
unfolding show_score
show_name member none = done none
show_name member (some name) = zset_get_score member >>= λ score. done (show_score name score)

show_member : Text → Prog (Option File)
unfolding show_name
show_member member = cache_hget member >>= show_name member

-- The loop over the members, up to the first failure.
then_shown : File → Option (List File) → Option (List File)
then_shown f none = none
then_shown f (some rows) = some (f ∷ rows)

show_rest : Prog (Option (List File)) → Option File → Prog (Option (List File))
unfolding then_shown
show_rest later none = done none
show_rest later (some f) = later >>= λ rows. done (then_shown f rows)

show_members : List Text → Prog (Option (List File))
unfolding show_member show_rest
show_members [] = done (some [])
show_members (m ∷ members) = show_member m >>= show_rest (show_members members)

abbrev pub ranking_body : ℕ → List File → Body
ranking_body total rows =
    ("code", leaf (int 0))
    ∷ ("total", leaf (int total))
    ∷ ("count", leaf (int (length rows)))
    ∷ ("files", files rows)
    ∷ []

ranking_response : ℕ → Option (List File) → Response
ranking_response total none = some (code_body 1)
ranking_response total (some rows) = some (ranking_body total rows)

show_range : ℕ → Option (List Text) → Prog Response
unfolding ranking_response show_members
show_range total none = done (some (code_body 1))
show_range total (some members) =
    show_members members >>= λ rows. done (ranking_response total rows)

-- `start + count - 1`
abbrev pub end_of : ℤ → ℕ → ℤ
end_of (pos s) count = if s + count == 0 then negsuc 0 else pos (s + count - 1)
end_of (negsuc s) count =
    if leb (s + 2) count then pos (count - (s + 2)) else negsuc (s + 1 - count)

-- calloc fails for a negative count, and is taken to succeed for others.
read_ranking : ℕ → ℤ → ℤ → Bool → Prog Response
unfolding show_range
read_ranking total start count false = done (some (code_body 1))
read_ranking total start (negsuc n) true = done (some (code_body 1))
read_ranking total start (pos n) true = zset_zrevrange start (end_of start n) n >>= show_range total

with_card : ℕ → ℤ → ℤ → Code → Prog Response
unfolding refresh read_ranking
with_card total start count minus_one = done (some (code_body 1))
with_card total start count (code redis_num) =
    refresh total redis_num >>= read_ranking total start count

with_total : ℤ → ℤ → Option ℕ → Prog Response
unfolding with_card
with_total start count none = done (some (code_body 1))
with_total start count (some total) = zset_zcard >>= with_card total start count

pub handle_get_ranking_filelist : ℤ → ℤ → Prog Response
unfolding with_total
handle_get_ranking_filelist start count = share_files_count >>= with_total start count
