-- ===== src/Handlers/Ranking/Listed.antt =====
-- What handleGetRankingFilelist comes to, whatever the services refuse.
use filehub_cloud.Base.{
  ℕ, ◌==◌, Bool, true, false, Option, none, some, List, [], ◌∷◌, ℤ, pos, negsuc, Text, take, length,
  ◌≡◌, ◌⊎◌, refl, inl, inr, sym, ap, ◌∙◌, subst, Bool-cases,
}
use filehub_cloud.Schema.Results.{Cell}
use filehub_cloud.Schema.Statements.{respond, apply}
use filehub_cloud.Schema.Tables.{Tables}
use filehub_cloud.Redis.{Store, find, range, public_zset, name_hash}
use filehub_cloud.Program.Defs.{View, Prog, Wp, ◌>>=◌, ◌>>◌, done}
use filehub_cloud.Program.Rules.{Wp->>=, Wp-mono, Then}
use filehub_cloud.Common.Records.{with_row}
use filehub_cloud.Conn.Mysql.{CResultSet, execute_query, next, get_int, new_result_set}
use filehub_cloud.Conn.Cache.{cache_del, cache_hget, zset_get_score, zset_zrevrange, zset_zcard}
use filehub_cloud.Conn.Rules.{Wp-Quiet, zset_add-Quiet, cache_hset-Quiet, cache_del-Quiet}
use filehub_cloud.Conn.Rules.Ranks.{Wp-hget, Wp-score, Wp-range, Wp-card}
use filehub_cloud.Handlers.Lists.{share_files_count}
use filehub_cloud.Handlers.Ranking.{
  load_row, load_rows, load_result, refill, refresh, show_score, show_name, show_member, then_shown,
  show_rest, show_members, ranking_body, ranking_response, show_range, end_of, read_ranking,
  with_card, with_total, handle_get_ranking_filelist,
}
use filehub_cloud.Api.Json.{Response, File, int, text, code_body}

-- The members of the ranking, each with its name and its score.
abbrev pub Shown : Store → List Text → List File → Type 0
Shown s [] [] = Unit
Shown s (m ∷ members) (f ∷ rows) =
    ((name : Text) × (score : ℕ) × (find m s.hash ≡ some name)
      × (find m s.zset ≡ some score)
      × (f ≡ ("filename", text name) ∷ ("pv", int score) ∷ []))
    × Shown s members rows
Shown s _ _ = ⊥

-- The page of the ranking that Redis has in the end, and the number of the shares; or the code 1.
abbrev pub Ranked : ℤ → ℤ → Tables → Option Response → View → Type 0
Ranked start count t none w = w.tables ≡ t
Ranked start count t (some r) w =
    (w.tables ≡ t)
    × ((r ≡ some (code_body 1))
        ⊎ ((n : ℕ) × (rows : List File) × (count ≡ pos n)
            × Shown w.store (take n (range start (end_of start n) w.store.zset)) rows
            × (r ≡ some (ranking_body (length t.share_file_list) rows))))

-- The tables stay as they are.
abbrev Kept : {A : Type 0} → Tables → Option A → View → Type 0
Kept t a w = w.tables ≡ t

row-Kept :
    {A : Type 0} (t : Tables) (row : CResultSet) (later : Prog A)
    → ((v : View) → v.tables ≡ t → Wp later (Kept t) v)
    → (v : View) → v.tables ≡ t
    → Wp (load_row row >> later) (Kept t) v
unfolding load_row
row-Kept t row later rest v e =
    Wp->>= (load_row row) (λ _. later) (Kept t) v
      (Wp-Quiet _ _ _ v (zset_add-Quiet _ _) (λ w s. s.tables_eq ∙ e)
        (λ _ w s.
          Wp-Quiet _ _ _ w (cache_hset-Quiet _ _) (λ x r. r.tables_eq ∙ (s.tables_eq ∙ e))
            (λ _ x r. rest x (r.tables_eq ∙ (s.tables_eq ∙ e)))))

rows-Kept :
    (t : Tables) (r : CResultSet) (rows : List (List Cell)) (v : View)
    → v.tables ≡ t
    → Wp (load_rows r rows) (Kept t) v
unfolding load_rows
rows-Kept t r [] v e = e
rows-Kept t r (c ∷ rest) v e = row-Kept t _ _ (rows-Kept t _ rest) v e

refill-Kept : (t : Tables) (v : View) → v.tables ≡ t → Wp refill (Kept t) v
unfolding refill load_result execute_query respond apply ◌>>=◌
refill-Kept t v e =
    Wp-Quiet (cache_del public_zset) _ (Kept t) v (cache_del-Quiet public_zset)
      (λ w s. s.tables_eq ∙ e)
      (λ _ w s.
        Wp-Quiet (cache_del name_hash) _ (Kept t) w (cache_del-Quiet name_hash)
          (λ x r. r.tables_eq ∙ (s.tables_eq ∙ e))
          (λ _ x r.
            (r.tables_eq ∙ (s.tables_eq ∙ e), rows-Kept t _ _ x (r.tables_eq ∙ (s.tables_eq ∙ e)))))

refresh-Kept : (t : Tables) (m n : ℕ) (v : View) → v.tables ≡ t → Wp (refresh m n) (Kept t) v
unfolding refresh
refresh-Kept t m n v e = elim (Bool-cases (n == m)) [
  | inl same ↦ rw same e
  | inr other ↦ rw other (refill-Kept t v e)
]

-- The members are read from Redis, which does not change.
abbrev Read : View → List Text → Option (Option (List File)) → View → Type 0
Read v members none w = w ≡ v
Read v members (some none) w = w ≡ v
Read v members (some (some rows)) w = (w ≡ v) × Shown v.store members rows

module _ (v : View) where
  member-Read :
      (m : Text) (members : List Text)
      → Wp (show_members members) (Read v members) v
      → Wp (show_members (m ∷ members)) (Read v (m ∷ members)) v
  unfolding show_members show_member show_name show_score show_rest then_shown
  member-Read m members later =
      Wp->>= (show_member m) (show_rest (show_members members)) (Read v (m ∷ members)) v (
        Wp->>= (cache_hget m) (show_name m) _ v (
          Wp-hget m _ v refl (λ name named. Wp->>= (zset_get_score m) _ _ v (
            Wp-score m _ v refl refl (λ score scored. Wp->>= (show_members members) _ _ v (
              Wp-mono (show_members members) (Read v members) _ (with_first name score named scored)
                v later))))))
    where
      with_first :
          (name : Text) (score : ℕ)
          → find m v.store.hash ≡ some name
          → find m v.store.zset ≡ some score
          → (a : Option (Option (List File))) (w : View) → Read v members a w
          → Then
              (λ rows. done (then_shown (("filename", text name) ∷ ("pv", int score) ∷ []) rows))
              (Read v (m ∷ members))
              a
              w
      with_first name score named scored none w h = h
      with_first name score named scored (some none) w h = h
      with_first name score named scored (some (some rows)) w (e, h) =
          (e, ((name, score, named, scored, refl), h))

  members-Read : (members : List Text) → Wp (show_members members) (Read v members) v
  unfolding show_members
  members-Read [] = (refl, tt)
  members-Read (m ∷ members) = member-Read m members (members-Read members)

module _ (t : Tables) (start count : ℤ) where
  failed : (v : View) → v.tables ≡ t → Ranked start count t (some (some (code_body 1))) v
  failed v e = (e, inl refl)

  range-Ranked :
      (n : ℕ) (v : View)
      → count ≡ pos n
      → v.tables ≡ t
      → Wp
          (show_range
            (length t.share_file_list)
            (some (take n (range start (end_of start n) v.store.zset))))
          (Ranked start count t)
          v
  unfolding show_range ranking_response
  range-Ranked n v c e = Wp->>= (show_members members) respond_rows (Ranked start count t) v (
      Wp-mono (show_members members) (Read v members) (Then respond_rows (Ranked start count t))
        with_rows v (members-Read v members))
    where
      members : List Text
      members = take n (range start (end_of start n) v.store.zset)

      respond_rows : Option (List File) → Prog Response
      respond_rows rows = done (ranking_response (length t.share_file_list) rows)

      kept : (w : View) → w ≡ v → w.tables ≡ t
      kept w h = ap (λ x. x.tables) h ∙ e

      with_rows :
          (a : Option (Option (List File))) (w : View)
          → Read v members a w
          → Then respond_rows (Ranked start count t) a w
      with_rows none w h = kept w h
      with_rows (some none) w h = failed w (kept w h)
      with_rows (some (some rows)) w (h, s) = (
        kept w h,
        inr (
          n,
          rows,
          c,
          subst (λ x. Shown x.store (take n (range start (end_of start n) x.store.zset)) rows)
              (sym h) s,
          refl,
        ),
      )

  read-Ranked :
      (filled : Bool) (v : View)
      → v.tables ≡ t
      → Wp (read_ranking (length t.share_file_list) start count filled) (Ranked start count t) v
  unfolding read_ranking show_range
  read-Ranked filled v e = by_count filled count refl
    where
      by_count :
          (b : Bool) (c : ℤ)
          → count ≡ c
          → Wp (read_ranking (length t.share_file_list) start c b) (Ranked start count t) v
      by_count false c h = failed v e
      by_count true (negsuc n) h = failed v e
      by_count true (pos n) h =
          Wp->>= (zset_zrevrange start (end_of start n) n) (show_range (length t.share_file_list))
            (Ranked start count t) v
            (Wp-range start (end_of start n) n _ v e (failed v e) (range-Ranked n v h e))

  card-Ranked :
      (v : View)
      → v.tables ≡ t
      → Wp (with_total start count (some (length t.share_file_list))) (Ranked start count t) v
  unfolding with_total with_card
  card-Ranked v e =
      Wp->>= zset_zcard (with_card (length t.share_file_list) start count) (Ranked start count t) v
        (Wp-card _ v e (failed v e) (λ n.
          Wp->>= (refresh (length t.share_file_list) n)
            (read_ranking (length t.share_file_list) start count) (Ranked start count t) v
            (Wp-mono (refresh (length t.share_file_list) n) (Kept t) _ refreshed v
              (refresh-Kept t (length t.share_file_list) n v e))))
    where
      refreshed :
          (a : Option Bool) (w : View)
          → Kept t a w
          → Then (read_ranking (length t.share_file_list) start count) (Ranked start count t) a w
      refreshed none w h = h
      refreshed (some filled) w h = read-Ranked filled w h

pub ranking-Ranked :
    (start count : ℤ) (v : View)
    → Wp (handle_get_ranking_filelist start count) (Ranked start count v.tables) v
unfolding handle_get_ranking_filelist share_files_count with_total with_row execute_query next
    new_result_set get_int respond apply ◌>>=◌
ranking-Ranked start count v = ((refl, inl refl), card-Ranked v.tables start count v refl)
