-- ===== src/Api/Lists/Gate.antt =====
-- What ApiMyfiles shows, and to whom.
use filehub_cloud.Base.{
  ap, ◌∙◌, Bool, true, false, Option, none, some, List, [], map, ℤ, Text, bytes, ◌≡◌, ◌⊎◌, inl, inr,
  refl, sym, subst, if◌then◌else◌, count,
}
use filehub_cloud.Redis.{find}
use filehub_cloud.Schema.Tables.{UserFile, FileInfo, of_user}
use filehub_cloud.Schema.Statements.{limited, user_page, respond, apply}
use filehub_cloud.Program.Defs.{View, Prog, Wp, ◌>>=◌, done}
use filehub_cloud.Program.Rules.{Wp->>=, Wp-mono, Then}
use filehub_cloud.Program.Servers.{Server, IsDocumented, Ends, Wp-run}
use filehub_cloud.Common.Records.{verify_token, with_row}
use filehub_cloud.Conn.Mysql.{execute_query, next, new_result_set, get_int}
use filehub_cloud.Handlers.Lists.{
  user_files_count, total_body, user_files_body, no_files_body, get_user_file_list,
}
use filehub_cloud.Handlers.Lists.Users.{UserListed, get-Listed, shown_file}
use filehub_cloud.Api.Json.{decoded, JsonReader, Response, Body, code_body}
use filehub_cloud.Api.Requests.{CountRequest, ListRequest, decode_count, decode_fileslist, command}
use filehub_cloud.Api.Requests.Rules.{Wp-command_eq, Wp-decoded, Wp-same}
use filehub_cloud.Api.Files.Gate.{Checked, verify_token-Checked}
use filehub_cloud.Api.Lists.{with_token, myfiles_handler, api_myfiles}

-- The cache has the token for the user, or the user's name is empty.
abbrev pub IsKnown : Text → Text → View → Type 0
IsKnown user token v = (find token v.store.strings ≡ some user) ⊎ (user ≡ [])

-- A page of the user's files, from `start` on.
abbrev pub Page : Text → ℤ → ℤ → View → Body → Type 0
Page user start size v b =
    ((count (of_user user) v.tables.user_file_list ≡ 0) × (b ≡ no_files_body))
    ⊎ ((rows : List (UserFile × FileInfo)) × (limited start size (user_page user v.tables)
          ≡ some rows)
        × (b
            ≡ user_files_body (count (of_user user) v.tables.user_file_list) (map shown_file rows)))

-- What the request asks for, for its own user and with its own token.
abbrev pub Shows : JsonReader → Text → Text → View → Body → Type 0
Shows J cmd post_data v b =
    ((r : CountRequest) × (cmd ≡ bytes "count")
      × (decode_count J post_data ≡ decoded r)
      × IsKnown r.user r.token v
      × (b ≡ total_body (some (count (of_user r.user) v.tables.user_file_list))))
    ⊎ ((r : ListRequest) × (cmd ≡ bytes "normal")
        × (decode_fileslist J post_data ≡ decoded r)
        × IsKnown r.user r.token v
        × Page r.user r.start r.count v b)

-- The code 1; or what the command of the URL and the request ask for.
abbrev pub Guarded : JsonReader → Option Text → Text → View → Option Response → View → Type 0
Guarded J cmd post_data v none w = w ≡ v
Guarded J cmd post_data v (some none) w = ⊥
Guarded J cmd post_data v (some (some b)) w =
    (w ≡ v) × ((b ≡ code_body 1) ⊎ ((c : Text) × (cmd ≡ some c) × Shows J c post_data v b))

module _ (J : JsonReader) (cmd : Option Text) (post_data : Text) (v : View) where
  abbrev Goal : Option Response → View → Type 0
  Goal = Guarded J cmd post_data v

  with_token-Guarded :
      (user token : Text) (go : Prog Response)
      → (IsKnown user token v → Wp go Goal v)
      → Wp (with_token user token go) Goal v
  unfolding with_token
  with_token-Guarded user token go shown = Wp->>= (verify_token user token) next_step Goal v (
      Wp-mono (verify_token user token) (Checked user token v) (Then next_step Goal) checked v
        (verify_token-Checked user token v))
    where
      next_step : Bool → Prog Response
      next_step valid = if valid then go else done (some (code_body 1))

      checked : (b : Option Bool) (w : View) → Checked user token v b w → Then next_step Goal b w
      checked none w c = absurd c
      checked (some true) w (e, inl c) = cc
      checked (some true) w (e, inr c) = subst (λ x. Wp go Goal x) (sym e) (shown c)
      checked (some false) w (e, c) = (e, inl refl)

  count-Guarded :
      (r : CountRequest)
      → cmd ≡ some (bytes "count")
      → decode_count J post_data ≡ decoded r
      → IsKnown r.user r.token v
      → Wp (user_files_count r.user >>= λ total. done (some (total_body total))) Goal v
  unfolding user_files_count with_row execute_query next new_result_set get_int respond apply ◌>>=◌
  count-Guarded r c d known = ((refl, inl refl), (refl, inr (_, c, inl (r, refl, d, known, refl))))

  list-Guarded :
      (r : ListRequest)
      → cmd ≡ some (bytes "normal")
      → decode_fileslist J post_data ≡ decoded r
      → IsKnown r.user r.token v
      → Wp (get_user_file_list r.user r.start r.count) Goal v
  list-Guarded r c d known =
      Wp-mono (get_user_file_list r.user r.start r.count) (UserListed r.user r.start r.count v) Goal
        listed v (get-Listed r.user r.start r.count v)
    where
      paged :
          (b : Body) → Page r.user r.start r.count v b → (w : View) → w ≡ v → Goal (some (some b)) w
      paged b p w e = (e, inr (_, c, inr (r, refl, d, known, p)))

      listed : (o : Option Response) (w : View) → UserListed r.user r.start r.count v o w → Goal o w
      listed none w h = absurd h
      listed (some o) w (e, inl h) = subst (λ x. Goal (some x) w) (sym h) (e, inl refl)
      listed (some o) w (e, inr (inl (z, h))) =
          subst (λ x. Goal (some x) w) (sym h) (paged no_files_body (inl (z, refl)) w e)
      listed (some o) w (e, inr (inr (rows, l, h))) =
          subst (λ x. Goal (some x) w) (sym h) (paged _ (inr (rows, l, refl)) w e)

  handler-Guarded : (c : Text) → cmd ≡ some c → Wp (myfiles_handler J post_data c) Goal v
  unfolding myfiles_handler
  handler-Guarded c e =
      Wp-same Goal v c (bytes "count") _ _
        (λ word.
          Wp-decoded Goal v (decode_count J post_data) (done (some (code_body 1))) _ refl
            (refl, inl refl)
            (λ r d. with_token-Guarded r.user r.token _ (count-Guarded r (e ∙ ap some word) d)))
        (λ _.
          Wp-same Goal v c (bytes "normal") _ _
            (λ word.
              Wp-decoded Goal v (decode_fileslist J post_data) (done (some (code_body 1))) _ refl
                (refl, inl refl)
                (λ r d. with_token-Guarded r.user r.token _ (list-Guarded r (e ∙ ap some word) d)))
            (λ _. (refl, inl refl)))

module _ (S : Server) (documented : IsDocumented S) where
  -- No run of ApiMyfiles changes a service, whether it ends or is killed by an exception or by a command
  -- that does not fit its buffer. A run that ends answers with the code 1; or with what the command of its
  -- URL and its body ask for, where the cache has the body's token for the body's user, or this user's name
  -- is empty: for `count` the number of this user's files; for `normal` the page of these files from the
  -- body's start on, of the body's count, or the answer for a user without files.
  pub myfiles-Guarded_run :
      (J : JsonReader) (junk url post_data : Text) (w : S.World)
      → Ends S documented
          (api_myfiles J junk url post_data)
          (Guarded J (command junk url) post_data (S.view w))
          w
  unfolding api_myfiles
  myfiles-Guarded_run J junk url post_data w =
      Wp-run S documented (api_myfiles J junk url post_data)
        (Guarded J (command junk url) post_data (S.view w)) w
        (Wp-command_eq (Guarded J (command junk url) post_data (S.view w)) (S.view w) junk url
          (myfiles_handler J post_data) refl
          (handler-Guarded J (command junk url) post_data (S.view w)))
