-- ===== src/Handlers/Ranking/Filling.antt =====
-- How handleGetRankingFilelist fills the ranking, and which part of it is asked for.
use Prim.Native.String.{String}
use filehub_cloud.Base.{
  ℕ, zero, suc, ◌+◌, ◌-◌, ◌==◌, Bool, true, false, Option, none, some, List, [], ◌∷◌, ◌++◌, map,
  pos, Text, take, drop, length, ◌≡◌, refl, sym, ap, subst, arith, if◌then◌else◌,
}
use filehub_cloud.Schema.Tables.{ShareFile, Tables}
use filehub_cloud.Schema.Results.{Cell}
use filehub_cloud.Schema.Statements.{respond, apply, ranking_columns, by_downloads}
use filehub_cloud.Redis.{Store, put, range, ranked, answer, effect}
use filehub_cloud.Program.Defs.{View, ◌>>=◌, done}
use filehub_cloud.Program.Granted.{Granted}
use filehub_cloud.Common.Records.Collecting.{page_set}
use filehub_cloud.Conn.Mysql.{execute_query, get_int, get_string, new_result_set}
use filehub_cloud.Conn.Cache.{cache_del, cache_hset, zset_add}
use filehub_cloud.Handlers.Ranking.{load_row, load_rows, load_result, refill, refresh, end_of}

-- The ranking and the names, with the rows entered one by one.
abbrev pub entered : List ShareFile → Store → Store
entered [] s = s
entered (r ∷ rows) s = entered rows (record s {
  zset = put (r.md5 ++ r.file_name) r.pv s.zset;
  hash = put (r.md5 ++ r.file_name) r.file_name s.hash;
})

-- A ranking of as many files as there are shares stays; another is made anew from the shares.
abbrev pub reloaded : Tables → Store → Store
reloaded t s =
    if length s.zset == length t.share_file_list
    then s
    else entered (by_downloads t.share_file_list) (record s { zset = []; hash = [] })

-- The `n` members behind the first `s` ones, from the highest score on.
abbrev pub page : ℕ → ℕ → List (Text × ℕ) → List Text
page s n zset = take n (map (λ p. p.0) (drop s (ranked zset)))

take-take :
    (n : ℕ) (xs : List (Text × ℕ))
    → take n (map (λ p. p.0) (take n xs)) ≡ take n (map (λ p. p.0) xs)
take-take zero xs = refl
take-take (suc n) [] = refl
take-take (suc n) (x ∷ xs) = ap (◌∷◌ x.0) (take-take n xs)

some_left : (s k : ℕ) → s + suc k == 0 ≡ false
some_left s k = ground arith

size : (s k : ℕ) → suc (s + suc k - 1) - s ≡ suc k
size s k = omega arith

-- ZREVRANGE with `start + count - 1` and at most `count` members.
pub range-page :
    (s n : ℕ) (zset : List (Text × ℕ))
    → take n (range (pos s) (end_of (pos s) n) zset) ≡ page s n zset
unfolding range
range-page s zero zset = refl
range-page s (suc k) zset = rw (some_left s k) (
    subst (λ c. take (suc k) (map (λ p. p.0) (take c (drop s (ranked zset)))) ≡ page s (suc k) zset)
      (sym (size s k)) (take-take (suc k) (drop s (ranked zset))))

abbrev ranking_names : List (String × ℕ)
ranking_names = (page_set ("md5" ∷ "file_name" ∷ "pv" ∷ []) ranking_columns []).key_map

-- The loop over the rows.
load_rows-entered :
    (Q : Option Bool → View → Type 0) (later : List (List Cell)) (current : Option (List Cell))
    (rows : List ShareFile) (v : View)
    → Q (some true) (record v { store = entered rows v.store })
    → Granted
        (load_rows
          (record { key_map = ranking_names; rows = later; row = current })
          (map ranking_columns rows))
        Q
        v
unfolding load_rows load_row get_int get_string new_result_set zset_add cache_hset answer effect
    ◌>>=◌
load_rows-entered Q later current [] v h = h
load_rows-entered Q later current (x ∷ rows) v h =
    load_rows-entered Q (map ranking_columns rows) (some (ranking_columns x)) rows _ h

refill-reloaded :
    (Q : Option Bool → View → Type 0) (v : View)
    → Q (some true) (record v {
      store =
          entered (by_downloads v.tables.share_file_list) (record v.store { zset = []; hash = [] });
    })
    → Granted refill Q v
unfolding refill load_result execute_query new_result_set cache_del respond apply answer effect
    ◌>>=◌
refill-reloaded Q v h = load_rows-entered Q _ none (by_downloads v.tables.share_file_list) _ h

pub refresh-reloaded :
    (Q : Option Bool → View → Type 0) (v : View)
    → Q (some true) (record v { store = reloaded v.tables v.store })
    → Granted (refresh (length v.tables.share_file_list) (length v.store.zset)) Q v
unfolding refresh
refresh-reloaded Q v h = by_size (length v.store.zset == length v.tables.share_file_list) h
  where
    by_size :
        (b : Bool)
        → Q (some true) (record v {
          store =
              if b
              then v.store
              else entered
                  (by_downloads v.tables.share_file_list)
                  (record v.store { zset = []; hash = [] });
        })
        → Granted (if b then done true else refill) Q v
    by_size true g = g
    by_size false g = refill-reloaded Q v g
