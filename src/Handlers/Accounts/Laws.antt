-- ===== src/Handlers/Accounts/Laws.antt =====
-- What the three functions come to.
use filehub_cloud.Base.{
  ℕ, ◌<◌, Bool, true, false, Option, none, some, [], ◌∷◌, Text, same, ◌≡◌, ◌⊎◌, refl, inl, inr,
  first, count, arith,
}
use filehub_cloud.Schema.Tables.{UserInfo, is_user}
use filehub_cloud.Schema.Statements.{respond, apply, insert_user, taken_user, password_columns}
use filehub_cloud.Redis.{put, effect}
use filehub_cloud.Program.Defs.{not_prepared, View, Wp, ◌>>=◌, done}
use filehub_cloud.Common.Rules.{selected-none, selected-some, count-cases}
use filehub_cloud.Common.Records.{with_row}
use filehub_cloud.Conn.Mysql.{execute_query, execute_update, next, get_string}
use filehub_cloud.Conn.Prepared.{init_statement}
use filehub_cloud.Conn.Cache.{cache_set_ex}
use filehub_cloud.Handlers.Accounts.{
  verify_user_password, set_token, register_user, insert_with, insertion_sql,
}

abbrev pub user_row : Text → Text → Text → Text → Text → Text → UserInfo
user_row create_time user_name nick_name pwd phone email = record {
  user_name = user_name;
  nick_name = nick_name;
  password = pwd;
  phone = phone;
  email = email;
  create_time = create_time;
}

-- true: the user's password is the one given. Nothing changes.
abbrev pub Verified : Text → Text → View → Option Bool → View → Type 0
Verified u p v none w = ⊥
Verified u p v (some r) w =
    (w ≡ v)
    × ((r ≡ false)
        ⊎ ((row : UserInfo) × (first (is_user u) v.tables.user_info ≡ some row)
            × (same row.password p ≡ true)))

pub verify-Verified : (u p : Text) (v : View) → Wp (verify_user_password u p) (Verified u p v) v
unfolding verify_user_password with_row execute_query next get_string respond apply ◌>>=◌
verify-Verified u p v = elim (count-cases (is_user u) (λ _. []) v.tables.user_info) [
  | inl e ↦ (
    (refl, inl refl),
    rw (selected-none (is_user u) password_columns v.tables.user_info e) (refl, inl refl),
  )
  | inr l ↦
      let (a, rest, e, s) = selected-some (is_user u) password_columns v.tables.user_info l in
      ((refl, inl refl), rw s (refl, matches a e (same a.password p) refl))
]
  where
    matches :
        (a : UserInfo)
        → first (is_user u) v.tables.user_info ≡ some a
        → (b : Bool) → same a.password p ≡ b
        → (b ≡ false)
          ⊎ ((row : UserInfo) × (first (is_user u) v.tables.user_info ≡ some row)
              × (same row.password p ≡ true))
    matches a e true h = inr (a, e, h)
    matches a e false h = inl refl

-- 2: the name is taken, and nothing changes. 0: the row is new, or one more statement could not be
-- prepared. 1: nothing changed.
abbrev pub Registered : UserInfo → View → Option ℕ → View → Type 0
Registered row v none w = ⊥
Registered row v (some r) w =
    ((r ≡ 2) × (w ≡ v) × (0 < count (is_user row.user_name) v.tables.user_info))
    ⊎ ((r ≡ 0)
        × ((w ≡ not_prepared v)
            ⊎ ((taken_user row v.tables ≡ false)
                × (w ≡ record v { tables = apply (insert_user row) v.tables }))))
    ⊎ ((r ≡ 1) × (w ≡ v))

-- The insertion with all six parameters set.
insert-Registered :
    (row : UserInfo) (v : View)
    → Wp
        (init_statement insertion_sql
          (insert_with (
            row.user_name ∷ row.nick_name ∷ row.password ∷ row.phone ∷ row.email ∷ row.create_time
            ∷ []))
          (done 0))
        (Registered row v)
        v
unfolding init_statement insert_with execute_update respond apply ◌>>=◌
insert-Registered row v = ground arith

pub register-Registered :
    (time u n p ph em : Text) (v : View)
    → Wp (register_user time u n p ph em) (Registered (user_row time u n p ph em) v) v
unfolding register_user with_row execute_query next respond apply ◌>>=◌
register-Registered time u n p ph em v =
    elim (count-cases (is_user u) (λ _. []) v.tables.user_info) [
      | inl e ↦ (
        insert-Registered (user_row time u n p ph em) v,
        rw (selected-none (is_user u) (λ r. []) v.tables.user_info e)
            (insert-Registered (user_row time u n p ph em) v),
      )
      | inr l ↦
          let (a, rest, e, s) = selected-some (is_user u) (λ r. []) v.tables.user_info l in
          (insert-Registered (user_row time u n p ph em) v, rw s (inl (refl, refl, l)))
    ]

-- The token is the user's, or Redis is as before.
abbrev pub TokenSet : Text → Text → View → Option Bool → View → Type 0
TokenSet t u v none w = ⊥
TokenSet t u v (some r) w =
    (r ≡ true)
    × ((w ≡ v) ⊎ (w ≡ record v { store = record v.store { strings = put t u v.store.strings } }))

pub set_token-TokenSet : (t u : Text) (v : View) → Wp (set_token t u) (TokenSet t u v) v
unfolding set_token cache_set_ex effect ◌>>=◌
set_token-TokenSet t u v = ground arith
