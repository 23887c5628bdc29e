-- ===== src/Api/Accounts/Refinement.antt =====
-- Login and registration over the services are steps of the accounts that a client sees.
use filehub_cloud.Base.{
  ℕ, ◌==◌, Bool, true, false, Option, none, some, List, [], ◌∷◌, ◌++◌, Text, same, same→≡, ◌≡◌, inl,
  inr, refl, ap, ◌∙◌, arith, if◌then◌else◌, first, count,
}
use mathlib.Core.Path.{fun_ext}
use mathlib.Core.Option
use filehub_cloud.Schema.Tables.{UserInfo, Tables, is_user}
use filehub_cloud.Schema.Statements.{apply, insert_user, taken_user}
use filehub_cloud.Redis.{find, find-put}
use filehub_cloud.Program.Defs.{View, Wp, ◌>>=◌, done}
use filehub_cloud.Program.Rules.{Wp->>=, Wp-mono, Then}
use filehub_cloud.Program.Servers.{Server, IsDocumented, Ends, Wp-run}
use filehub_cloud.Handlers.Accounts.{verify_user_password, set_token, register_user}
use filehub_cloud.Handlers.Accounts.Laws.{
  user_row, Verified, verify-Verified, Registered, register-Registered, TokenSet,
  set_token-TokenSet,
}
use filehub_cloud.Api.Json.{JsonReader, Response, decoded, code_body}
use filehub_cloud.Api.Requests.{
  LoginRequest, RegisterRequest, decode_login, decode_register, after_decoding,
}
use filehub_cloud.Api.Accounts.{token_body, login, register, api_user_login, api_register_user}
use filehub_cloud.Api.Accounts.Machine.{
  Accounts, update, Request, logs_in, signs_up, Step, refuses, opens, registers, loses,
}

-- The accounts that the services hold.
abbrev pub accounts : View → Accounts
accounts v = record {
  password_of = λ u. Option.map (λ r. r.password) (first (is_user u) v.tables.user_info);
  user_of = λ t. find t v.store.strings;
  unprepared = v.unprepared;
}

first-concat :
    (p : UserInfo → Bool) (rows : List UserInfo) (r : UserInfo)
    → first p (rows ++ r ∷ [])
      ≡ (if count p rows == 0 then (if p r then some r else none) else first p rows)
unfolding first count
first-concat p [] r = refl
first-concat p (x ∷ rows) r = ground (arith, first-concat p rows r)

count-zero : (p : UserInfo → Bool) (rows : List UserInfo) → count p rows ≡ 0 → first p rows ≡ none
unfolding first count
count-zero p [] e = refl
count-zero p (x ∷ rows) e = ground (arith, count-zero p rows)

untaken :
    (row : UserInfo) (t : Tables)
    → taken_user row t ≡ false
    → count (is_user row.user_name) t.user_info ≡ 0
unfolding taken_user
untaken row t e = ground arith

is_user_lem : (u : Text) (row : UserInfo) → is_user u row ≡ same row.user_name u
unfolding is_user
is_user_lem u row = refl

-- A new row makes an account, and leaves the others.
password_of-insert :
    (row : UserInfo) (v : View)
    → taken_user row v.tables ≡ false
    → accounts (record v { tables = apply (insert_user row) v.tables }) ≡ record (accounts v) {
      password_of = update (accounts v).password_of row.user_name row.password;
    }
unfolding apply
password_of-insert row v free =
    ap (λ f. record (accounts v) { password_of = f })
      (fun_ext λ u. rw free (by_count u (first-concat (is_user u) v.tables.user_info row)))
  where
    by_count :
        (u : Text)
        → first (is_user u) (v.tables.user_info ++ row ∷ []) ≡ (
            if count (is_user u) v.tables.user_info == 0
            then (if is_user u row then some row else none)
            else first (is_user u) v.tables.user_info)
        → Option.map (λ r. r.password) (first (is_user u) (v.tables.user_info ++ row ∷ []))
          ≡ update (accounts v).password_of row.user_name row.password u
    by_count u e = ground (
      arith,
      e,
      is_user_lem u row,
      untaken row v.tables free,
      same→≡ row.user_name u,
      count-zero (is_user u) v.tables.user_info,
      ap (λ n. count (is_user n) v.tables.user_info) {x = row.user_name} {y = u},
    )

-- A signed-up name has no account before.
unknown :
    (row : UserInfo) (v : View)
    → taken_user row v.tables ≡ false
    → (accounts v).password_of row.user_name ≡ none
unknown row v free =
    ap (Option.map (λ r. r.password))
      (count-zero (is_user row.user_name) v.tables.user_info (untaken row v.tables free))

abbrev pub Steps : View → Request → Option Response → View → Type 0
Steps v q x w = Step (accounts v) q x (accounts w)

module _ (time : Text) (r : RegisterRequest) (v : View) where
  abbrev row : UserInfo
  row = user_row time r.user_name r.nick_name r.first_pwd r.phone r.email

  Registered-Steps :
      (a : Option ℕ) (w : View)
      → Registered row v a w
      → Then (λ ret. done (some (code_body ret))) (Steps v (signs_up r.user_name r.first_pwd)) a w
  Registered-Steps none w h = absurd h
  Registered-Steps (some n) w (inl (two, e, l)) = rw (two, e) (refuses 2 (omega arith))
  Registered-Steps (some n) w (inr (inl (zero_code, inl e))) =
      rw (zero_code, e) (loses r.user_name r.first_pwd refl)
  Registered-Steps (some n) w (inr (inl (zero_code, inr (free, e)))) =
      rw (zero_code, e)
        (registers r.user_name r.first_pwd (unknown row v free) (password_of-insert row v free))
  Registered-Steps (some n) w (inr (inr (one, e))) = rw (one, e) (refuses 1 (omega arith))

  register-Steps : Wp (register time r) (Steps v (signs_up r.user_name r.first_pwd)) v
  unfolding register
  register-Steps =
      Wp->>= (register_user time r.user_name r.nick_name r.first_pwd r.phone r.email) _
        (Steps v (signs_up r.user_name r.first_pwd)) v
        (Wp-mono (register_user time r.user_name r.nick_name r.first_pwd r.phone r.email)
          (Registered row v) _ Registered-Steps v
          (register-Registered time r.user_name r.nick_name r.first_pwd r.phone r.email v))

module _ (token : Text) (r : LoginRequest) (v : View) where
  abbrev Q : Option Response → View → Type 0
  Q = Steps v (logs_in r.user r.pwd token)

  token-Steps :
      (a : Option Bool) (w : View)
      → (accounts v).password_of r.user ≡ some r.pwd
      → TokenSet token r.user v a w
      → Then (λ set. done (some (if set then token_body token else code_body 1))) Q a w
  token-Steps none w p h = absurd h
  token-Steps (some b) w p (e, inl same_view) =
      rw (e, same_view) (opens r.user r.pwd token p (inr refl))
  token-Steps (some b) w p (e, inr put_token) =
      rw (e, put_token)
        (opens r.user r.pwd token p (
          inl (
            ap (λ f. record (accounts v) { user_of = f })
              (fun_ext λ t. find-put token t r.user v.store.strings))))

  Verified-Steps :
      (a : Option Bool) (w : View)
      → Verified r.user r.pwd v a w
      → Then
          (λ verified.
            if verified
            then (set_token token r.user >>= λ set.
                done (some (if set then token_body token else code_body 1)))
            else done (some (code_body 1)))
          Q
          a
          w
  Verified-Steps none w h = absurd h
  Verified-Steps (some false) w (e, h) = rw e (refuses 1 (omega arith))
  Verified-Steps (some true) w (e, inl h) = cc
  Verified-Steps (some true) w (e, inr (row, first_row, matches)) = rw e (
      Wp->>= (set_token token r.user) _ Q v (
        Wp-mono (set_token token r.user) (TokenSet token r.user v) _
          (λ a x h.
            token-Steps a x
              (ap (Option.map (λ u. u.password)) first_row
                ∙ ap some (same→≡ row.password r.pwd matches))
              h)
          v (set_token-TokenSet token r.user v)))

  login-Steps : Wp (login token r) Q v
  unfolding login
  login-Steps = Wp->>= (verify_user_password r.user r.pwd) _ Q v (
      Wp-mono (verify_user_password r.user r.pwd) (Verified r.user r.pwd v) _ Verified-Steps v
        (verify-Verified r.user r.pwd v))

module _ (S : Server) (documented : IsDocumented S) where
  -- Every run of ApiUserLogin on a request that decodes to a user and a password, with the token that was
  -- drawn for it, is a login step of the accounts that the tables and the cache hold: it is answered
  -- with the token only if the password is the account's, and then the token is the user's or the cache
  -- is as it was; any other answer has a code above 0 and changes no account and no token.
  pub login-Steps_run :
      (J : JsonReader) (token post_data : Text) (r : LoginRequest) (w : S.World)
      → decode_login J post_data ≡ decoded r
      → Ends S documented
          (api_user_login J token post_data)
          (Steps (S.view w) (logs_in r.user r.pwd token))
          w
  unfolding api_user_login after_decoding
  login-Steps_run J token post_data r w request =
      Wp-run S documented (api_user_login J token post_data)
        (Steps (S.view w) (logs_in r.user r.pwd token)) w (by_text post_data request)
    where
      by_text :
          (s : Text)
          → decode_login J s ≡ decoded r
          → Wp (api_user_login J token s) (Steps (S.view w) (logs_in r.user r.pwd token)) (S.view w)
      by_text [] e = refuses 1 (omega arith)
      by_text (c ∷ s) e = rw e (login-Steps token r (S.view w))

  -- Every run of ApiRegisterUser on a request that can be decoded is a registration step of the accounts
  -- that the tables and the cache hold: it is answered with 0 only if the user had no account, and then
  -- has one with the password given, or if MySQL failed to prepare one statement of this run, and then no
  -- account and no token changed; any other answer has a code above 0, where no preparation failed and no
  -- account and no token changed.
  pub register-Steps_run :
      (J : JsonReader) (time post_data : Text) (r : RegisterRequest) (w : S.World)
      → decode_register J post_data ≡ decoded r
      → Ends S documented
          (api_register_user J time post_data)
          (Steps (S.view w) (signs_up r.user_name r.first_pwd))
          w
  unfolding api_register_user after_decoding
  register-Steps_run J time post_data r w request =
      Wp-run S documented (api_register_user J time post_data)
        (Steps (S.view w) (signs_up r.user_name r.first_pwd)) w (by_text post_data request)
    where
      by_text :
          (s : Text)
          → decode_register J s ≡ decoded r
          → Wp
              (api_register_user J time s)
              (Steps (S.view w) (signs_up r.user_name r.first_pwd))
              (S.view w)
      by_text [] e = refuses 1 (omega arith)
      by_text (c ∷ s) e = rw e (register-Steps time r (S.view w))
