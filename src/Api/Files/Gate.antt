-- ===== src/Api/Files/Gate.antt =====
-- Requests without a valid token.
use filehub_cloud.Base.{
  subst, ℕ, Bool, true, false, Option, none, some, Text, same, same→≡, ◌≡◌, ◌⊎◌, inl, inr, refl,
  sym, ◌∙◌, Bool-cases, if◌then◌else◌, ◌≢◌, ap, [],
}
use filehub_cloud.Redis.{find}
use filehub_cloud.Program.Defs.{View, Prog, Wp, done}
use filehub_cloud.Program.Rules.{Wp->>=, Wp-mono, Then}
use filehub_cloud.Program.Servers.{Server, IsDocumented, Ends, Wp-run}
use filehub_cloud.Common.Records.{verify_token}
use filehub_cloud.Conn.Cache.{cache_get}
use filehub_cloud.Conn.Rules.{Wp-get}
use filehub_cloud.Handlers.Saved.{handle_deal_md5}
use filehub_cloud.Api.Json.{JsonReader, Response, code_body, decoded}
use filehub_cloud.Api.Requests.{FileRequest, decode_dealfile, after_decoding}
use filehub_cloud.Api.Requests.Rules.{Wp-command}
use filehub_cloud.Api.Files.{
  api_dealfile, api_md5, authorised, is_dealfile, dealfile_handler, reply_code,
}

-- What VerifyToken says: true if the cache has the token for the user, or if it has no such token and
-- the user's name is empty. Nothing changes.
abbrev pub Checked : Text → Text → View → Option Bool → View → Type 0
Checked u t v none w = ⊥
Checked u t v (some b) w = (w ≡ v) × ((b ≡ false) ⊎ ((find t v.store.strings ≡ some u) ⊎ (u ≡ [])))

pub verify_token-Checked : (u t : Text) (v : View) → Wp (verify_token u t) (Checked u t v) v
unfolding verify_token
verify_token-Checked u t v =
    Wp->>= (cache_get t) (λ name. done (same name u)) (Checked u t v) v
      (Wp-get t (Then (λ name. done (same name u)) (Checked u t v)) v (refl, empty)
        (λ s e. (refl, hit s e)))
  where
    empty : (same [] u ≡ false) ⊎ ((find t v.store.strings ≡ some u) ⊎ (u ≡ []))
    empty = elim (Bool-cases (same [] u)) [
      | inl e ↦ inr (inr (sym (same→≡ [] u e)))
      | inr e ↦ inl e
    ]

    hit :
        (s : Text)
        → find t v.store.strings ≡ some s
        → (same s u ≡ false) ⊎ ((find t v.store.strings ≡ some u) ⊎ (u ≡ []))
    hit s e = elim (Bool-cases (same s u)) [
      | inl h ↦ inr (inl (e ∙ ap some (same→≡ s u h)))
      | inr h ↦ inl h
    ]

-- A request whose token the cache does not have for its user leaves the services as they are, and is
-- answered with the refusal; so does a request that cannot be decoded, with code 1.
abbrev pub Refused : View → Option Response → View → Type 0
Refused v none w = w ≡ v
Refused v (some r) w =
    (w ≡ v) × ((r ≡ some (code_body 1)) ⊎ ((r ≡ some (code_body 4)) ⊎ (r ≡ none)))

-- The request, its token and the cache.
module _ (r : FileRequest) (v : View) (foreign : find r.token v.store.strings ≢ some r.user)
    (named : r.user ≢ []) where
  -- The refusal is what every such run ends with.
  authorised-refusal :
      (code : ℕ) (handler : FileRequest → Prog ℕ) (Q : Option Response → View → Type 0)
      → Q (some (some (code_body code))) v
      → Wp (authorised code handler r) Q v
  unfolding authorised
  authorised-refusal code handler Q h = Wp->>= (verify_token r.user r.token) go Q v (
      Wp-mono (verify_token r.user r.token) (Checked r.user r.token v) (Then go Q) refused v
        (verify_token-Checked r.user r.token v))
    where
      go : Bool → Prog Response
      go valid = if valid then reply_code (handler r) else done (some (code_body code))

      refused : (b : Option Bool) (w : View) → Checked r.user r.token v b w → Then go Q b w
      refused none w c = absurd c
      refused (some true) w (e, inl c) = cc
      refused (some true) w (e, inr (inl c)) = absurd (foreign c)
      refused (some true) w (e, inr (inr c)) = absurd (named c)
      refused (some false) w (e, c) = subst (λ x. Q (some (some (code_body code))) x) (sym e) h

  module _ (J : JsonReader) (post_data : Text)
      (request : decode_dealfile J post_data ≡ decoded r) where
    -- With the command that the URL has, if it has one that fits.
    pub dealfile-Refused :
        (junk now create_time url : Text)
        → Wp (api_dealfile J junk now create_time url post_data) (Refused v) v
    unfolding api_dealfile after_decoding
    dealfile-Refused junk now create_time url = Wp-command (Refused v) v junk url _ refl λ cmd.
        elim (Bool-cases (is_dealfile cmd)) [
          | inl known ↦
              rw (known, request)
                (authorised-refusal 4 (dealfile_handler now create_time cmd) (Refused v)
                  (refl, inr (inl refl)))
          | inr unknown ↦ rw unknown (refl, inr (inr refl))
        ]

    pub md5-Refused : Wp (api_md5 J post_data) (Refused v) v
    unfolding api_md5 after_decoding
    md5-Refused = rw request (
        authorised-refusal 1 (λ q. handle_deal_md5 q.user q.md5 q.filename) (Refused v)
          (refl, inl refl))

module _ (S : Server) (documented : IsDocumented S) where
  -- Let a request decode to a user with a name and to a token that the cache does not have for this user.
  -- Every run of ApiDealfile, with any URL, and of ApiMd5 on it leaves tables, Redis data, lock and files
  -- as they are. The response has the code 1 or 4, or is empty; or the run is killed by a command in the
  -- URL that does not fit its buffer.
  pub request-Refused :
      (J : JsonReader) (r : FileRequest) (junk now create_time url post_data : Text) (w : S.World)
      → decode_dealfile J post_data ≡ decoded r
      → find r.token (S.view w).store.strings ≢ some r.user
      → r.user ≢ []
      → Ends S documented (api_dealfile J junk now create_time url post_data) (Refused (S.view w)) w
        × Ends S documented (api_md5 J post_data) (Refused (S.view w)) w
  request-Refused J r junk now create_time url post_data w request foreign named = (
    Wp-run S documented (api_dealfile J junk now create_time url post_data) (Refused (S.view w)) w
        (dealfile-Refused r (S.view w) foreign named J post_data request junk now create_time url),
    Wp-run S documented (api_md5 J post_data) (Refused (S.view w)) w
        (md5-Refused r (S.view w) foreign named J post_data request),
  )
