-- ===== src/Api/Accounts.antt =====
-- ApiUserLogin (api/api_login.cc) and ApiRegisterUser (api/api_register.cc).
pub mod Machine
pub mod Refinement
use filehub_cloud.Base.{ℕ, Bool, true, false, none, some, [], ◌∷◌, Text, if◌then◌else◌}
use filehub_cloud.Program.Defs.{Prog, done, ◌>>=◌}
use filehub_cloud.Handlers.Accounts.{verify_user_password, set_token, register_user}
use filehub_cloud.Api.Json.{JsonReader, Response, Body, leaf, int, text, code_body}
use filehub_cloud.Api.Requests.{
  LoginRequest, RegisterRequest, decode_login, decode_register, after_decoding,
}

-- encodeLoginJson with the code 0.
abbrev pub token_body : Text → Body
token_body token = ("code", leaf (int 0)) ∷ ("token", leaf (text token)) ∷ []

-- `token` is what generateUUID gives.
pub login : Text → LoginRequest → Prog Response
login token r = verify_user_password r.user r.pwd >>= λ verified.
    if verified
    then (set_token token r.user >>= λ set.
        done (some (if set then token_body token else code_body 1)))
    else done (some (code_body 1))

pub register : Text → RegisterRequest → Prog Response
register create_time r =
    register_user create_time r.user_name r.nick_name r.first_pwd r.phone r.email >>= λ ret.
    done (some (code_body ret))

module _ (J : JsonReader) where
  pub api_user_login : Text → Text → Prog Response
  unfolding login
  api_user_login token [] = done (some (code_body 1))
  api_user_login token (c ∷ post_data) =
      after_decoding (decode_login J (c ∷ post_data)) (done (some (code_body 1))) (login token)

  pub api_register_user : Text → Text → Prog Response
  unfolding register
  api_register_user create_time [] = done (some (code_body 1))
  api_register_user create_time (c ∷ post_data) =
      after_decoding (decode_register J (c ∷ post_data)) (done (some (code_body 1)))
        (register create_time)
