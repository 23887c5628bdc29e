-- ===== src/Uploader/Ordered.antt =====
-- What the console client asks for, in which order, and how it ends.
use filehub_cloud.Base.{
  decimal, ℕ, ◌==◌, Bool, true, false, Option, none, some, List, [], ◌∷◌, Text, bytes, length,
  replicate, ◌≡◌, ◌≢◌, refl, sym, ap, ◌∙◌, arith, is_zero, ◌⊎◌, inl, inr, Bool-cases, ℤ, pos,
  negsuc,
}
use filehub_cloud.Api.Json.{JsonReader, Decoded, bad, decoded, throws, Body, leaf, int, text}
use filehub_cloud.Uploader.{
  User, new_user, set_token, new_file_upload, Opened, buffer, read_all_content, cal_md5, digested,
  LoginRespone, decode_login_respone, name_of_path, behind_last,
}
use filehub_cloud.Uploader.Peer.{Peer, Ending, exit, asked, run, Uploads, uploads-run}
use filehub_cloud.Uploader.Session.{
  Item, Request, json, form, encode_myfiles_request, user_name, full_path, items_of, concurrent_of,
  with_digest, with_content, after_myfiles, ask_myfiles, verified, after_decoding, after_login,
  login_request, client_main,
}

zero_of : Decoded LoginRespone → Bool
zero_of (decoded r) = is_zero r.code
zero_of bad = false
zero_of throws = false

accepted_zero :
    (r : LoginRespone) (token : Text)
    → decoded r ≡ decoded record { code = pos 0; token = token }
    → is_zero r.code ≡ true
unfolding zero_of
accepted_zero r token e = ap zero_of e

is_zero→≡ : (i : ℤ) → is_zero i ≡ true → i ≡ pos 0
is_zero→≡ (pos k) e = ap pos (ground (arith, e))
is_zero→≡ (negsuc k) e = cc

module _ (J : JsonReader) (write : Body → Text) (md5 : Text → Text) (P : Peer) (n : ℕ) where
  -- The answer to the login is not empty, and has the code 0 and the token.
  abbrev pub Accepts : Option Text → Text → Type 0
  Accepts none token = ⊥
  Accepts (some []) token = ⊥
  Accepts (some (b ∷ s)) token =
      decode_login_respone J (b ∷ s) ≡ decoded record { code = pos 0; token = token }

  -- The requests, written out.
  abbrev pub the_user : User
  the_user = record { name = user_name; password = md5 (bytes "123456"); token = [] }

  abbrev pub list_request : Text → Request
  list_request token = json (bytes "/api/myfiles&cmd=normal") (
      write (
        ("user", leaf (text user_name))
        ∷ ("token", leaf (text token))
        ∷ ("start", leaf (int 0))
        ∷ ("count", leaf (int 10))
        ∷ []))

  abbrev field : Text → Text → Item
  field name content = record { name = name; content = content; filename = []; content_type = [] }

  abbrev pub upload_request : Text → Request
  upload_request content = form (bytes "/api/upload") (
      record {
        name = bytes "file";
        content = content;
        filename = bytes "testfile.d";
        content_type = bytes "multipart/form-data";
      }
      ∷ field (bytes "user") user_name
      ∷ field (bytes "md5") (md5 content)
      ∷ field (bytes "size") (decimal (length content))
      ∷ [])

  -- What follows an accepted login: the list of files, and uploads of what is stored in the file, if it
  -- opens and is not empty.
  abbrev pub Follows : Text → List Request × Ending → Type 0
  Follows token r =
      ((r.0 ≡ list_request token ∷ []) × (r.1 ≢ exit 0))
      ⊎ ((o : Opened) × (k : ℕ) × (r.0
            ≡ list_request token ∷ replicate k (upload_request (buffer o)))
          × (buffer o ≢ [])
          × Uploads n k r.1)

  abbrev pub IsOrdered : Option Text → List Request × Ending → Type 0
  IsOrdered a r =
      ((r.0 ≡ login_request write the_user ∷ [])
        × (r.1 ≢ exit 0)
        × ((token : Text) → Accepts a token → ⊥))
      ⊎ ((token : Text) × (rest : List Request) × Accepts a token
          × (r.0 ≡ login_request write the_user ∷ rest)
          × Follows token (rest, r.1))

  digest_Follows :
      (token : Text) (o : Opened) (m : ℕ) (c : Text) (w : P.World)
      → c ≡ buffer o
      → Follows token (
          asked (list_request token) (
            run P
              (with_digest J write md5 n
                (record the_user { token = token })
                (digested md5
                  (record {
                    full_path = full_path;
                    file_name = full_path;
                    file_size = m;
                    file_content = c;
                    file_md5 = [];
                  })
                  c))
              w))
  unfolding with_digest run items_of
  digest_Follows token o m [] w e = inl (refl, λ z. cc)
  digest_Follows token o m (b ∷ s) w e =
      let (k, rs, u) = uploads-run P (upload_request (b ∷ s)) n w in
      inr (
        o,
        k,
        ap (λ t. list_request token ∷ t) (rs ∙ ap (λ t. replicate k (upload_request t)) e),
        (λ z. cc),
        u,
      )

  content_Follows :
      (token : Text) (o : Option Opened) (w : P.World)
      → Follows token (
          asked (list_request token) (
            run P
              (with_content J write md5 n
                (record the_user { token = token })
                (read_all_content o (new_file_upload full_path)))
              w))
  unfolding with_content read_all_content new_file_upload run cal_md5 name_of_path behind_last
  content_Follows token none w = inl (refl, λ z. cc)
  content_Follows token (some o) w = elim (Bool-cases (length (buffer o) == o.size)) [
    | inl e ↦ rw e (digest_Follows token o o.size (buffer o) w refl)
    | inr e ↦ rw e (inl (refl, λ z. cc))
  ]

  myfiles_Follows :
      (token : Text) (a : Option Text) (w : P.World)
      → Follows token (
          asked
            (list_request token)
            (run P (after_myfiles J write md5 n (record the_user { token = token }) a) w))
  unfolding after_myfiles run
  myfiles_Follows token none w = inl (refl, λ z. cc)
  myfiles_Follows token (some body) w =
      content_Follows token (P.on_open full_path w).0 (P.on_open full_path w).1

  verified_Ordered :
      (b : ℕ) (s : Text) (r : LoginRespone) (z : Bool) (w : P.World)
      → decode_login_respone J (b ∷ s) ≡ decoded r
      → is_zero r.code ≡ z
      → IsOrdered
          (some (b ∷ s))
          (asked (login_request write the_user) (run P (verified J write md5 n the_user r z) w))
  unfolding verified run ask_myfiles set_token encode_myfiles_request
  verified_Ordered b s r false w e z =
      inl (refl, (λ y. cc), λ token a. let zero = accepted_zero r token (sym e ∙ a) in cc)
  verified_Ordered b s r true w e z = inr (
    r.token,
    _,
    e ∙ ap (λ i. decoded record { code = i; token = r.token }) (is_zero→≡ r.code z),
    refl,
    myfiles_Follows r.token (P.on_post (list_request r.token) w).0
        (P.on_post (list_request r.token) w).1,
  )

  decoded_Ordered :
      (b : ℕ) (s : Text) (d : Decoded LoginRespone) (w : P.World)
      → decode_login_respone J (b ∷ s) ≡ d
      → IsOrdered
          (some (b ∷ s))
          (asked (login_request write the_user) (run P (after_decoding J write md5 n the_user d) w))
  unfolding after_decoding run
  decoded_Ordered b s bad w e = inl (refl, (λ z. cc), λ token a. cc)
  decoded_Ordered b s throws w e = inl (refl, (λ z. cc), λ token a. cc)
  decoded_Ordered b s (decoded r) w e = verified_Ordered b s r (is_zero r.code) w e refl

  login_Ordered :
      (a : Option Text) (w : P.World)
      → IsOrdered a
          (asked (login_request write the_user) (run P (after_login J write md5 n the_user a) w))
  unfolding after_login run
  login_Ordered none w = inl (refl, (λ y. cc), λ token h. h)
  login_Ordered (some []) w = inl (refl, (λ y. cc), λ token h. h)
  login_Ordered (some (b ∷ s)) w = decoded_Ordered b s (decode_login_respone J (b ∷ s)) w refl

-- Every run of the client, whatever is answered and stored: it asks for the login, and if the answer is
-- not accepted (empty, undecodable, another code than 0), for nothing else, and ends with another status than 0. If
-- it is, it asks for the list of files with the token, and either ends so, or uploads what is stored in the
-- file, which is not empty, with its digest and length, as often as the command line says and ends with
-- 0, or at most so often and is killed.
pub client_main-IsOrdered-run :
    (J : JsonReader) (write : Body → Text) (md5 : Text → Text) (P : Peer) (argv : List Text)
    (w : P.World)
    → IsOrdered J write md5 P
        (concurrent_of argv)
        (P.on_post (login_request write (new_user md5 user_name (bytes "123456"))) w).0
        (run P (client_main J write md5 argv) w)
unfolding client_main run new_user
client_main-IsOrdered-run J write md5 P argv w =
    login_Ordered J write md5 P (concurrent_of argv)
      (P.on_post (login_request write (the_user J write md5 P 0)) w).0
      (P.on_post (login_request write (the_user J write md5 P 0)) w).1
