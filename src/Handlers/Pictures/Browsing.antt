-- ===== src/Handlers/Pictures/Browsing.antt =====
-- What handleBrowsePicture comes to.
use filehub_cloud.Base.{
  ltb, if◌then◌else◌, ℕ, ◌+◌, ◌<◌, true, false, Option, none, some, List, [], ◌∷◌, Text, ◌≡◌, ◌⊎◌,
  refl, inl, inr, sym, subst, first, count, arith,
}
use filehub_cloud.Schema.Tables.{SharePicture, FileInfo, pictured, is_file}
use filehub_cloud.Schema.Results.{Cell}
use filehub_cloud.Schema.Statements.{
  respond, apply, increment_picture, picture_columns, url_columns,
}
use filehub_cloud.Program.Defs.{View, Wp, ◌>>=◌, executed, done}
use filehub_cloud.Program.Servers.{Server, IsDocumented, Ends, Wp-run}
use filehub_cloud.Common.Records.{with_row}
use filehub_cloud.Common.Rules.{selected-none, selected-some, count-cases}
use filehub_cloud.Conn.Mysql.{
  CResultSet, execute_query, execute_update, next, get_int, get_string, new_result_set,
}
use filehub_cloud.Api.Json.{Response, code_body}
use filehub_cloud.Handlers.Pictures.{handle_browse_picture, with_picture, count_visit, browse_body}

-- The picture and its file, the answer made from them and the visit counted; or the code 1, with the
-- tables as they were.
abbrev pub Browsed : Text → View → Option Response → View → Type 0
Browsed url v none w = ⊥
Browsed url v (some r) w =
    ((r ≡ some (code_body 1)) × (w.tables ≡ v.tables))
    ⊎ ((p : SharePicture) × (i : FileInfo) × (first (pictured url) v.tables.share_picture_list
          ≡ some p)
        × (first (is_file p.filemd5) v.tables.file_info ≡ some i)
        × (r ≡ some (browse_body (p.pv + 1) i.url p.user p.create_time))
        × (w.tables ≡ apply (increment_picture url) v.tables))

-- The picture as its row is fetched.
abbrev fetched : SharePicture → List (List Cell) → CResultSet
fetched p rest =
    (next (
      new_result_set (record {
        fields = "user" ∷ "filemd5" ∷ "file_name" ∷ "pv" ∷ "create_time" ∷ [];
        rows = picture_columns p ∷ rest;
      }))).0

visit-Browsed :
    (url : Text) (v : View) (p : SharePicture) (i : FileInfo) (rest : List (List Cell))
    → 0 < count (pictured url) v.tables.share_picture_list
    → first (pictured url) v.tables.share_picture_list ≡ some p
    → first (is_file p.filemd5) v.tables.file_info ≡ some i
    → Wp (count_visit url (fetched p rest) i.url) (Browsed url v) v
unfolding count_visit execute_update next new_result_set get_int get_string respond ◌>>=◌
visit-Browsed url v p i rest l e f =
    (inl (refl, refl), granted (count (pictured url) v.tables.share_picture_list) l)
  where
    granted :
        (n : ℕ)
        → 0 < n
        → Browsed url v
            (some (
              some (
                if (if ltb 0 n then true else false)
                then browse_body (p.pv + 1) i.url p.user p.create_time
                else code_body 1)))
            (executed (increment_picture url) v)
    granted n l = ground arith

-- The address of the picture's file.
address-Browsed :
    (url : Text) (v : View) (p : SharePicture) (rest : List (List Cell))
    → 0 < count (pictured url) v.tables.share_picture_list
    → first (pictured url) v.tables.share_picture_list ≡ some p
    → Wp (with_picture url (fetched p rest)) (Browsed url v) v
unfolding with_picture with_row execute_query next new_result_set get_string respond apply ◌>>=◌
address-Browsed url v p rest l e =
    elim (count-cases (is_file p.filemd5) (λ _. []) v.tables.file_info) [
      | inl z ↦ (
        inl (refl, refl),
        rw (selected-none (is_file p.filemd5) url_columns v.tables.file_info z) (inl (refl, refl)),
      )
      | inr k ↦
          let (i, others, f, s) =
            selected-some (is_file p.filemd5) url_columns v.tables.file_info k in
          (
            inl (refl, refl),
            subst
                (λ rows.
                  Wp
                    (with_row (done (some (code_body 1)))
                      (λ row. count_visit url (fetched p rest) (get_string row "url"))
                      (some (new_result_set (record { fields = "url" ∷ []; rows = rows }))))
                    (Browsed url v) v)
                (sym s) (visit-Browsed url v p i rest l e f),
          )
    ]

browse-Browsed : (url : Text) (v : View) → Wp (handle_browse_picture url) (Browsed url v) v
unfolding handle_browse_picture with_row execute_query next new_result_set respond apply ◌>>=◌
browse-Browsed url v = elim (count-cases (pictured url) (λ _. []) v.tables.share_picture_list) [
  | inl z ↦ (
    inl (refl, refl),
    rw (selected-none (pictured url) picture_columns v.tables.share_picture_list z)
        (inl (refl, refl)),
  )
  | inr l ↦
      let (p, rest, e, s) =
        selected-some (pictured url) picture_columns v.tables.share_picture_list l in
      (
        inl (refl, refl),
        subst
            (λ rows.
              Wp
                (with_row (done (some (code_body 1))) (with_picture url) (
                  some (
                    new_result_set (record {
                      fields = "user" ∷ "filemd5" ∷ "file_name" ∷ "pv" ∷ "create_time" ∷ [];
                      rows = rows;
                    }))))
                (Browsed url v) v)
            (sym s) (address-Browsed url v p rest l e),
      )
]

module _ (S : Server) (documented : IsDocumented S) where
  -- Every run of handleBrowsePicture ends. Either it answers with the code 1 and no table changed; or
  -- it answers with the code 0, the user and the time of the first picture with this urlmd5, the url of
  -- the file with its digest, and its counter plus one, and the counters of the pictures with this urlmd5
  -- are one more.
  pub browse-Browsed_run :
      (url : Text) (w : S.World)
      → Ends S documented (handle_browse_picture url) (Browsed url (S.view w)) w
  browse-Browsed_run url w =
      Wp-run S documented (handle_browse_picture url) (Browsed url (S.view w)) w
        (browse-Browsed url (S.view w))
