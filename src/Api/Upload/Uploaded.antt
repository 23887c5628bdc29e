-- ===== src/Api/Upload/Uploaded.antt =====
-- What ApiUpload comes to.
use filehub_cloud.Base.{
  ◌<◌, leb, false, not, ◌||◌, Option, none, some, [], ◌∷◌, Text, ◌≡◌, ◌⊎◌, inl, inr, refl, bytes,
  ◌++◌, length, Bool-cases,
}
use filehub_cloud.Schema.References.{Balanced, IsKeyed, files, entries}
use filehub_cloud.Program.Defs.{View, Wp, ◌>>=◌, done, crash, external, rename}
use filehub_cloud.Program.Rules.{Wp->>=, Wp-mono, Then}
use filehub_cloud.Common.Records.{remove_file_from_fast_dfs}
use filehub_cloud.Common.Query.{find_key}
use filehub_cloud.Common.Suffix.{get_file_suffix}
use filehub_cloud.Util.Config.{split_at}
use filehub_cloud.Handlers.Saved.{Stored, store_fileinfo}
use filehub_cloud.Handlers.Saved.Laws.{StoredInfo, store-StoredInfo}
use filehub_cloud.Handlers.Saved.Counts.{Counted, StoredInfo-Counted}
use filehub_cloud.Api.Json.{Response, code_body, decoded}
use filehub_cloud.Api.Requests.{after_decoding}
use filehub_cloud.Api.Requests.Rules.{Wp-if}
use filehub_cloud.Api.Upload.Form.{UploadForm, parse_upload}
use filehub_cloud.Api.Upload.{
  upload_file_to_fast_dfs, uploaded_id, url_of, address_line, with_report, get_full_url_by_fileid,
  new_info, stored_code, after_storing, with_url, with_id, renamed, with_form, api_upload,
}

-- Killed before the database is used; the code 1, and no entry is added; or the code 0: the user of the
-- form has the file, the lock is free, and the counts are right, or there is no row of the file, before
-- and after.
abbrev pub Uploaded : UploadForm → View → Option Response → View → Type 0
Uploaded f v none w = w ≡ v
Uploaded f v (some r) w =
    ((r ≡ some (code_body 1)) × (w.tables.user_file_list ≡ v.tables.user_file_list))
    ⊎ ((r ≡ some (code_body 0))
        × (w.locked ≡ false)
        × (0 < entries f.user f.file_md5 f.file_name w.tables)
        × (Balanced w.tables ⊎ ((files f.file_md5 v.tables ≡ 0) × (files f.file_md5 w.tables ≡ 0))))

module _ (f : UploadForm) (v : View) (keyed : IsKeyed v.tables) (balanced : Balanced v.tables) where
  refused : Uploaded f v (some (some (code_body 1))) v
  refused = inl (refl, refl)

  -- The removal of a copy changes no table, and not the lock.
  removed-Uploaded :
      (fileid : Text) (r : Response) (w : View)
      → Uploaded f v (some r) w
      → Wp (remove_file_from_fast_dfs fileid >>= λ _. done r) (Uploaded f v) w
  unfolding remove_file_from_fast_dfs ◌>>=◌
  removed-Uploaded fileid r w h = (h, h)

  after-Uploaded :
      (fileid : Text) (s : Stored) (w : View)
      → Uploaded f v (some (stored_code s)) w
      → Wp (after_storing fileid s) (Uploaded f v) w
  unfolding after_storing
  after-Uploaded fileid s w h =
      Wp-if (Uploaded f v) w (not s.ok || s.file_exist) _ _
        (removed-Uploaded fileid (stored_code s) w h) h

  stored-Uploaded :
      (time url fileid : Text) (s : Stored) (w : View)
      → StoredInfo time f.user f.file_name (new_info f fileid url) v (some s) w
      → Counted f.user f.file_name (new_info f fileid url) v (some s) w
      → Uploaded f v (some (stored_code s)) w
  unfolding stored_code
  stored-Uploaded time url fileid s w (inl (ok, a, b, h)) (inl (failed, _)) = cc
  stored-Uploaded time url fileid s w (inl (ok, a, b, h)) (inr (good, free, owned, inl right)) =
      rw ok (inr (refl, free, owned, inl right))
  stored-Uploaded time url fileid s w (inl (ok, a, b, h))
        (inr (good, free, owned, inr (old, before, after))) =
      rw ok (inr (refl, free, owned, inr (before, after)))
  stored-Uploaded time url fileid s w (inr (failed, same)) c = rw failed (inl (refl, same))

  url-Uploaded :
      (time fileid : Text) (url : Option Text) → Wp (with_url time f fileid url) (Uploaded f v) v
  unfolding with_url
  url-Uploaded time fileid none = refused
  url-Uploaded time fileid (some url) =
      Wp->>= (store_fileinfo time f.user f.file_name (new_info f fileid url)) (after_storing fileid)
        (Uploaded f v) v
        (Wp-mono (store_fileinfo time f.user f.file_name (new_info f fileid url))
          (StoredInfo time f.user f.file_name (new_info f fileid url) v) _ ended v
          (store-StoredInfo time f.user f.file_name (new_info f fileid url) v))
    where
      ended :
          (s : Option Stored) (w : View)
          → StoredInfo time f.user f.file_name (new_info f fileid url) v s w
          → Then (after_storing fileid) (Uploaded f v) s w
      ended none w h = absurd h
      ended (some s) w h = after-Uploaded fileid s w (
          stored-Uploaded time url fileid s w h (
            StoredInfo-Counted time f.user f.file_name (new_info f fileid url) v w (some s) refl
              keyed balanced h))

  address-Uploaded :
      (time ip fileid : Text) (o : Option (Text × Text))
      → Wp (url_of ip fileid o >>= with_url time f fileid) (Uploaded f v) v
  unfolding url_of ◌>>=◌
  address-Uploaded time ip fileid none = url-Uploaded time fileid none
  address-Uploaded time ip fileid (some (host, rest)) = elim (Bool-cases (leb 30 (length host))) [
    | inl long ↦ rw long refl
    | inr short ↦ rw short (url-Uploaded time fileid (some _))
  ]

  line-Uploaded :
      (time ip fileid : Text) (o : Option Text)
      → Wp (address_line ip fileid o >>= with_url time f fileid) (Uploaded f v) v
  unfolding address_line ◌>>=◌
  line-Uploaded time ip fileid none = url-Uploaded time fileid none
  line-Uploaded time ip fileid (some q) = address-Uploaded time ip fileid (split_at 10 q)

  full_url-Uploaded :
      (time ip fileid : Text)
      → Wp (get_full_url_by_fileid ip fileid >>= with_url time f fileid) (Uploaded f v) v
  unfolding get_full_url_by_fileid with_report ◌>>=◌
  full_url-Uploaded time [] fileid = url-Uploaded time fileid none
  full_url-Uploaded time (c ∷ ip) fileid = (
    url-Uploaded time fileid none,
    λ report. line-Uploaded time (c ∷ ip) fileid (find_key (bytes "source ip address: ") report),
  )

  id-Uploaded :
      (time ip path : Text) (o : Option Text) → Wp (with_id ip time f path o) (Uploaded f v) v
  unfolding with_id
  id-Uploaded time ip path none = (refused, λ _. refused)
  id-Uploaded time ip path (some fileid) =
      (full_url-Uploaded time ip fileid, λ _. full_url-Uploaded time ip fileid)

  form-Uploaded : (time ip : Text) → Wp (with_form ip time f) (Uploaded f v) v
  unfolding with_form renamed upload_file_to_fast_dfs ◌>>=◌
  form-Uploaded time ip =
      let path = f.file_path ++ (bytes "." ++ get_file_suffix f.file_name) in
      Wp-if (Uploaded f v) v (leb 8 (length (get_file_suffix f.file_name)) || leb 128 (length path))
        crash (external (rename f.file_path path) (renamed ip time f path)) refl
        (
          refused,
          λ _. (
            id-Uploaded time ip path none,
            λ output. id-Uploaded time ip path (uploaded_id (some output)),
          ),
        )

  pub upload-Uploaded :
      (time ip post_data : Text)
      → parse_upload post_data ≡ decoded f
      → Wp (api_upload ip time post_data) (Uploaded f v) v
  unfolding api_upload after_decoding
  upload-Uploaded time ip post_data request = rw request (form-Uploaded time ip)
