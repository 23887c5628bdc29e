-- ===== src/Api/Accounts/Machine.antt =====
-- Accounts and sessions, as a client sees them: who has which password, and whose a token is; and how
-- often a registration failed because its statement could not be prepared.
use filehub_cloud.Base.{ℕ, suc, ◌<◌, Option, none, some, Text, same, ◌≡◌, ◌⊎◌, if◌then◌else◌}
use filehub_cloud.Api.Json.{Response, code_body}
use filehub_cloud.Api.Accounts.{token_body}

pub record Accounts : Type 0 where
  pub password_of : Text → Option Text
  pub user_of : Text → Option Text
  pub unprepared : ℕ

-- A function, changed at one text.
abbrev pub update : (Text → Option Text) → Text → Text → Text → Option Text
update f k v j = if same k j then some v else f j

-- The two requests: a login of a user with a password, with the token drawn for it, and a registration
-- of a user with a password.
pub data Request : Type 0 where
  logs_in : Text → Text → Text → Request
  signs_up : Text → Text → Request

-- What a request may do to the accounts, and its response. A login with the account's password answers
-- with the token, which is then the user's, unless the cache lost it. A registration of a new user answers
-- 0 and makes the account; or its statement could not be prepared, which is counted. All others change
-- nothing, and have another code than 0.
pub data Step (a : Accounts) : Request → Option Response → Accounts → Type 0 where
  refuses : {q : Request} (n : ℕ) → 0 < n → Step a q (some (some (code_body n))) a
  opens :
      (u p t : Text) {b : Accounts}
      → a.password_of u ≡ some p
      → (b ≡ record a { user_of = update a.user_of t u }) ⊎ (b ≡ a)
      → Step a (logs_in u p t) (some (some (token_body t))) b
  registers :
      (u p : Text) {b : Accounts}
      → a.password_of u ≡ none
      → b ≡ record a { password_of = update a.password_of u p }
      → Step a (signs_up u p) (some (some (code_body 0))) b
  loses :
      (u p : Text) {b : Accounts}
      → b ≡ record a { unprepared = suc a.unprepared }
      → Step a (signs_up u p) (some (some (code_body 0))) b
