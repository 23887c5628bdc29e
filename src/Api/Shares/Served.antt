-- ===== src/Api/Shares/Served.antt =====
-- What ApiSharefiles comes to.
use filehub_cloud.Base.{
  false, Option, none, some, Text, bytes, same, ◌≡◌, ◌⊎◌, inl, inr, refl, ap, length,
}
use filehub_cloud.Schema.Statements.{respond, apply}
use filehub_cloud.Program.Defs.{View, Wp, ◌>>=◌, done}
use filehub_cloud.Program.Rules.{Wp-mono}
use filehub_cloud.Program.Servers.{Server, IsDocumented, Ends, Wp-run}
use filehub_cloud.Common.Records.{with_row}
use filehub_cloud.Conn.Mysql.{execute_query, next, new_result_set, get_int}
use filehub_cloud.Handlers.Lists.{share_files_count, total_body, handle_get_share_filelist}
use filehub_cloud.Handlers.Lists.Shares.{ShareListed, get-Listed}
use filehub_cloud.Handlers.Ranking.{handle_get_ranking_filelist}
use filehub_cloud.Handlers.Ranking.Listed.{Ranked, ranking-Ranked}
use filehub_cloud.Api.Json.{decoded, JsonReader, Response, code_body}
use filehub_cloud.Api.Requests.{PageRequest, decode_share_fileslist, command}
use filehub_cloud.Api.Requests.Rules.{Wp-command_eq, Wp-decoded, Wp-same}
use filehub_cloud.Api.Shares.{sharefiles_handler, api_sharefiles}

-- What a command of the URL asks for: the number of the shares, the page of the shares, or that of the
-- ranking, from the start of the body on and of its count.
abbrev pub Asked : JsonReader → Text → Text → View → Option Response → View → Type 0
Asked J cmd post_data v r w =
    ((cmd ≡ bytes "count")
      × (r ≡ some (some (total_body (some (length v.tables.share_file_list))))))
    ⊎ (((q : PageRequest) × (cmd ≡ bytes "normal")
          × (decode_share_fileslist J post_data ≡ decoded q)
          × ShareListed q.start q.count v r w)
        ⊎ ((q : PageRequest) × (cmd ≡ bytes "pvdesc")
            × (decode_share_fileslist J post_data ≡ decoded q)
            × Ranked q.start q.count v.tables r w))

-- No answer, for a command that is none of the three.
abbrev pub IsForeign : Text → Type 0
IsForeign cmd =
    (same cmd (bytes "count") ≡ false)
    × (same cmd (bytes "normal") ≡ false)
    × (same cmd (bytes "pvdesc") ≡ false)

-- An empty response to another command, the code 1 to one of the three, or what the command asks for.
abbrev pub Served : JsonReader → Option Text → Text → View → Option Response → View → Type 0
Served J cmd post_data v none w = w.tables ≡ v.tables
Served J cmd post_data v (some r) w =
    (w.tables ≡ v.tables)
    × ((c : Text) × (cmd ≡ some c)
        × (((r ≡ none) × IsForeign c)
            ⊎ ((r ≡ some (code_body 1)) ⊎ Asked J c post_data v (some r) w)))

module _ (J : JsonReader) (cmd : Option Text) (post_data : Text) (v : View) where
  abbrev Goal : Option Response → View → Type 0
  Goal = Served J cmd post_data v

  module _ (c : Text) (given : cmd ≡ some c) where
    refused : Goal (some (some (code_body 1))) v
    refused = (refl, (c, given, inr (inl refl)))

    count-Served :
        c ≡ bytes "count"
        → Wp (share_files_count >>= λ total. done (some (total_body total))) Goal v
    unfolding share_files_count with_row execute_query next new_result_set get_int respond apply
        ◌>>=◌
    count-Served word = (refused, (refl, (c, given, inr (inr (inl (word, refl))))))

    page-Served :
        (q : PageRequest)
        → c ≡ bytes "normal"
        → decode_share_fileslist J post_data ≡ decoded q
        → Wp (handle_get_share_filelist q.start q.count) Goal v
    page-Served q word d =
        Wp-mono (handle_get_share_filelist q.start q.count) (ShareListed q.start q.count v) Goal
          served v (get-Listed q.start q.count v)
      where
        served : (r : Option Response) (w : View) → ShareListed q.start q.count v r w → Goal r w
        served none w h = absurd h
        served (some r) w (e, h) =
            (ap (λ x. x.tables) e, (c, given, inr (inr (inr (inl (q, word, d, (e, h)))))))

    ranking-Served :
        (q : PageRequest)
        → c ≡ bytes "pvdesc"
        → decode_share_fileslist J post_data ≡ decoded q
        → Wp (handle_get_ranking_filelist q.start q.count) Goal v
    ranking-Served q word d =
        Wp-mono (handle_get_ranking_filelist q.start q.count) (Ranked q.start q.count v.tables) Goal
          served v (ranking-Ranked q.start q.count v)
      where
        served : (r : Option Response) (w : View) → Ranked q.start q.count v.tables r w → Goal r w
        served none w h = h
        served (some r) w (e, h) = (e, (c, given, inr (inr (inr (inr (q, word, d, (e, h)))))))

    handler-Served : Wp (sharefiles_handler J post_data c) Goal v
    unfolding sharefiles_handler
    handler-Served = Wp-same Goal v c (bytes "count") _ _ count-Served (λ a.
        Wp-same Goal v c (bytes "normal") _ _
          (λ word.
            Wp-decoded Goal v (decode_share_fileslist J post_data) (done (some (code_body 1))) _
              refl refused (λ q. page-Served q word))
          (λ b.
            Wp-same Goal v c (bytes "pvdesc") _ _
              (λ word.
                Wp-decoded Goal v (decode_share_fileslist J post_data) (done (some (code_body 1))) _
                  refl refused (λ q. ranking-Served q word))
              (λ d. (refl, (c, given, inl (refl, (a, b, d)))))))

module _ (S : Server) (documented : IsDocumented S) where
  -- No run of ApiSharefiles changes a table, however it ends. One that is not killed has a command in its
  -- URL, and answers with nothing, for a command other than `count`, `normal` and `pvdesc`; with the code 1;
  -- or with what the command asks for: the number of the shares, the page of the shares, or the page of
  -- the ranking, with the start and the count that the body decodes to.
  pub sharefiles-Served_run :
      (J : JsonReader) (junk url post_data : Text) (w : S.World)
      → Ends S documented
          (api_sharefiles J junk url post_data)
          (Served J (command junk url) post_data (S.view w))
          w
  unfolding api_sharefiles
  sharefiles-Served_run J junk url post_data w =
      Wp-run S documented (api_sharefiles J junk url post_data)
        (Served J (command junk url) post_data (S.view w)) w
        (Wp-command_eq (Served J (command junk url) post_data (S.view w)) (S.view w) junk url
          (sharefiles_handler J post_data) refl
          (handler-Served J (command junk url) post_data (S.view w)))
