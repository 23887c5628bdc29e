-- ===== src/Handlers/Ranking/Reloaded.antt =====
-- What handleGetRankingFilelist comes to where the services grant every call.
use filehub_cloud.Base.{
  ℕ, true, Option, none, some, List, [], ◌∷◌, pos, Text, length, ◌≡◌, ◌⊎◌, refl, inl, inr, sym,
  subst, Option-cases,
}
use filehub_cloud.Schema.Statements.{respond, apply}
use filehub_cloud.Redis.{Store, find, shown, scored, answer, effect}
use filehub_cloud.Program.Defs.{View, Prog, ◌>>=◌, done}
use filehub_cloud.Program.Servers.{Server}
use filehub_cloud.Program.Granted.{
  Granted, Granted->>=, Granted-mono, Next, IsGranting, Gives, Granted-run,
}
use filehub_cloud.Common.Records.{with_row}
use filehub_cloud.Conn.Mysql.Numerals.{atoi-decimal}
use filehub_cloud.Conn.Mysql.{execute_query, next, get_int, new_result_set}
use filehub_cloud.Conn.Cache.{
  Code, code, minus_one, string_or_none, score_or_error, cache_hget, zset_get_score, zset_zrevrange,
  zset_zcard,
}
use filehub_cloud.Handlers.Lists.{share_files_count}
use filehub_cloud.Handlers.Ranking.{
  refresh, show_score, show_name, show_member, then_shown, show_rest, show_members, ranking_body,
  ranking_response, show_range, read_ranking, with_card, with_total, handle_get_ranking_filelist,
}
use filehub_cloud.Handlers.Ranking.Listed.{Shown}
use filehub_cloud.Api.Json.{Response, File, int, text, code_body}
use filehub_cloud.Handlers.Ranking.Filling.{reloaded, page, range-page, refresh-reloaded}

-- One of the members has no name, or no score.
abbrev pub Unnamed : Store → List Text → Type 0
Unnamed s [] = ⊥
Unnamed s (m ∷ members) = (find m s.hash ≡ none) ⊎ ((find m s.zset ≡ none) ⊎ Unnamed s members)

abbrev pub Reloaded : ℕ → ℕ → View → Option Response → View → Type 0
Reloaded s n v none w = ⊥
Reloaded s n v (some r) w =
    (w ≡ record v { store = reloaded v.tables v.store })
    × (((r ≡ some (code_body 1)) × Unnamed w.store (page s n w.store.zset))
        ⊎ ((rows : List File) × Shown w.store (page s n w.store.zset) rows
            × (r ≡ some (ranking_body (length v.tables.share_file_list) rows))))

-- A member's name and score are read, or one of them is missing.
hget-Granted :
    (f : Text) (Q : Option (Option Text) → View → Type 0) (v : View)
    → (find f v.store.hash ≡ none → Q (some none) v)
    → ((s : Text) → find f v.store.hash ≡ some s → Q (some (some s)) v)
    → Granted (cache_hget f) Q v
unfolding cache_hget answer effect
hget-Granted f Q v missing hit = elim (Option-cases (find f v.store.hash)) [
  | inl e ↦ at (missing e) (sym e)
  | inr (s, e) ↦ at (hit s e) (sym e)
]
  where
    at :
        {o p : Option Text}
        → Q (some (string_or_none (shown o))) v
        → o ≡ p
        → Q (some (string_or_none (shown p))) v
    at h e = subst (λ o. Q (some (string_or_none (shown o))) v) e h

score-Granted :
    (m : Text) (Q : Option Code → View → Type 0) (v : View)
    → (find m v.store.zset ≡ none → Q (some minus_one) v)
    → ((n : ℕ) → find m v.store.zset ≡ some n → Q (some (code n)) v)
    → Granted (zset_get_score m) Q v
unfolding zset_get_score answer effect
score-Granted m Q v missing hit = elim (Option-cases (find m v.store.zset)) [
  | inl e ↦ at (missing e) (sym e)
  | inr (n, e) ↦ at (subst (λ k. Q (some (code k)) v) (sym (atoi-decimal n)) (hit n e)) (sym e)
]
  where
    at :
        {o p : Option ℕ}
        → Q (some (score_or_error (scored o))) v
        → o ≡ p
        → Q (some (score_or_error (scored p))) v
    at h e = subst (λ o. Q (some (score_or_error (scored o))) v) e h

-- All members with their names and scores, or not.
abbrev Read : View → List Text → Option (Option (List File)) → View → Type 0
Read v members none w = ⊥
Read v members (some none) w = (w ≡ v) × Unnamed v.store members
Read v members (some (some rows)) w = (w ≡ v) × Shown v.store members rows

module _ (v : View) where
  member-Read :
      (m : Text) (members : List Text)
      → Granted (show_members members) (Read v members) v
      → Granted (show_members (m ∷ members)) (Read v (m ∷ members)) v
  unfolding show_members show_member show_name show_score show_rest then_shown
  member-Read m members later =
      Granted->>= (show_member m) (show_rest (show_members members)) (Read v (m ∷ members)) v (
        Granted->>= (cache_hget m) (show_name m) _ v (
          hget-Granted m _ v (λ e. (refl, inl e))
            (λ name named. Granted->>= (zset_get_score m) _ _ v (
              score-Granted m _ v (λ e. (refl, inr (inl e)))
                (λ score scored_as. Granted->>= (show_members members) _ _ v (
                  Granted-mono (show_members members) (Read v members) _
                    (with_first name score named scored_as) v later))))))
    where
      with_first :
          (name : Text) (score : ℕ)
          → find m v.store.hash ≡ some name
          → find m v.store.zset ≡ some score
          → (a : Option (Option (List File))) (w : View) → Read v members a w
          → Next
              (λ rows. done (then_shown (("filename", text name) ∷ ("pv", int score) ∷ []) rows))
              (Read v (m ∷ members))
              a
              w
      with_first name score named scored_as none w h = absurd h
      with_first name score named scored_as (some none) w (e, h) = (e, inr (inr h))
      with_first name score named scored_as (some (some rows)) w (e, h) =
          (e, ((name, score, named, scored_as, refl), h))

  members-Read : (members : List Text) → Granted (show_members members) (Read v members) v
  unfolding show_members
  members-Read [] = (refl, tt)
  members-Read (m ∷ members) = member-Read m members (members-Read members)

module _ (s n : ℕ) (v : View) where
  abbrev Goal : Option Response → View → Type 0
  Goal = Reloaded s n v

  abbrev total : ℕ
  total = length v.tables.share_file_list

  abbrev w : View
  w = record v { store = reloaded v.tables v.store }

  range-Reloaded : Granted (show_range total (some (page s n w.store.zset))) Goal w
  unfolding show_range ranking_response
  range-Reloaded = Granted->>= (show_members (page s n w.store.zset)) respond_rows Goal w (
      Granted-mono (show_members (page s n w.store.zset)) (Read w (page s n w.store.zset))
        (Next respond_rows Goal) with_rows w (members-Read w (page s n w.store.zset)))
    where
      respond_rows : Option (List File) → Prog Response
      respond_rows rows = done (ranking_response total rows)

      with_rows :
          (a : Option (Option (List File))) (x : View)
          → Read w (page s n w.store.zset) a x
          → Next respond_rows Goal a x
      with_rows none x h = absurd h
      with_rows (some none) x (e, h) =
          (e, inl (refl, subst (λ y. Unnamed y.store (page s n y.store.zset)) (sym e) h))
      with_rows (some (some rows)) x (e, h) =
          (e, inr (rows, subst (λ y. Shown y.store (page s n y.store.zset) rows) (sym e) h, refl))

  read-Reloaded : Granted (read_ranking total (pos s) (pos n) true) Goal w
  unfolding read_ranking zset_zrevrange answer effect ◌>>=◌
  read-Reloaded =
      subst (λ members. Granted (show_range total (some members)) Goal w)
        (sym (range-page s n w.store.zset)) range-Reloaded

  card-Reloaded : Granted (with_card total (pos s) (pos n) (code (length v.store.zset))) Goal v
  unfolding with_card
  card-Reloaded =
      Granted->>= (refresh total (length v.store.zset)) (read_ranking total (pos s) (pos n)) Goal v
        (refresh-reloaded (Next (read_ranking total (pos s) (pos n)) Goal) v read-Reloaded)

  ranking-Reloaded : Granted (handle_get_ranking_filelist (pos s) (pos n)) Goal v
  unfolding handle_get_ranking_filelist share_files_count with_total with_row execute_query next
      new_result_set get_int zset_zcard respond apply answer effect ◌>>=◌
  ranking-Reloaded = card-Reloaded

module _ (S : Server) (granting : IsGranting S) where
  -- Every run of handleGetRankingFilelist with a start and a count of zero or more, against services that
  -- grant every call, ends. Only the Redis data may change: where the ranking has as many files as
  -- there are shares, it stays; else the ranking and the names are made anew from the shares, each with
  -- its counter. The answer has the number of the shares and the members of this ranking from the highest
  -- score on, behind the first `start` ones, at most `count`, each with its name and its score; or it is
  -- the code 1, and one of these members has no name or no score.
  pub ranking-Reloaded_run :
      (start count : ℕ) (w : S.World)
      → Gives S granting
          (handle_get_ranking_filelist (pos start) (pos count))
          (Reloaded start count (S.view w))
          w
  ranking-Reloaded_run start count w =
      Granted-run S granting (handle_get_ranking_filelist (pos start) (pos count))
        (Reloaded start count (S.view w)) w (ranking-Reloaded start count (S.view w))
