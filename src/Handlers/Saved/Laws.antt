-- ===== src/Handlers/Saved/Laws.antt =====
-- What handleSaveFile and storeFileinfo do to the tables, result by result.
use filehub_cloud.Base.{
  ℕ, ◌<◌, true, false, Option, none, some, Text, ◌≡◌, ◌⊎◌, refl, inl, inr, arith,
}
use filehub_cloud.Schema.Tables.{FileInfo}
use filehub_cloud.Schema.References.{files, entries}
use filehub_cloud.Schema.Statements.{
  respond, apply, increment_count, select_user_file, insert_file_info, taken_user_file,
  taken_file_info, insert_user_file,
}
use filehub_cloud.Program.Defs.{View, Wp, ◌>>=◌, executed}
use filehub_cloud.Program.Rules.{Wp->>=, Then}
use filehub_cloud.Common.Records.{check_whether_have_record}
use filehub_cloud.Common.Rules.{Wp-check_user_file}
use filehub_cloud.Conn.Mysql.{execute_create, execute_update, execute_pass_query}
use filehub_cloud.Handlers.Saved.{
  handle_save_file, save_unless_owned, save_locked, add_user_file, new_row, Stored, store_fileinfo,
  store_locked, store_user_file, handle_deal_md5, md5_unless_owned, md5_locked, md5_code,
}

abbrev pub unlocked : View → View
unlocked v = record v { locked = false }

-- Success counts one more reference and adds the entry; 5 means that the entry was there; a failure
-- leaves the tables as they were, or with one more reference and no new entry.
abbrev pub Saved : Text → Text → Text → Text → View → Option ℕ → View → Type 0
Saved time u m f v none w = ⊥
Saved time u m f v (some r) w =
    ((r ≡ 0)
      × (w
          ≡ executed (insert_user_file (new_row time u m f))
              (executed (increment_count m) (unlocked v)))
      × (taken_user_file (new_row time u m f) v.tables ≡ false)
      × (0 < files m v.tables))
    ⊎ ((r ≡ 5) × (w ≡ v) × (0 < entries u m f v.tables))
    ⊎ ((r ≡ 1) × ((w.tables ≡ v.tables) ⊎ (w.tables ≡ apply (increment_count m) v.tables)))

pub save-Saved :
    (time u m f : Text) (v : View) → Wp (handle_save_file time u m f) (Saved time u m f v) v
unfolding handle_save_file save_unless_owned save_locked add_user_file execute_create execute_update
    respond apply ◌>>=◌ taken_user_file files entries
save-Saved time u m f v =
    Wp->>= (check_whether_have_record (select_user_file u m f)) (save_unless_owned time u m f)
      (Saved time u m f v) v
      (Wp-check_user_file (Then (save_unless_owned time u m f) (Saved time u m f v)) v u m f
        (ground arith) (λ e. ground arith) (λ l. inr (inl (refl, refl, l))))

-- Success adds the entry, over a new file row, or over one that counts one more reference; the lock is
-- free again. A failure adds no entry.
abbrev pub StoredInfo : Text → Text → Text → FileInfo → View → Option Stored → View → Type 0
StoredInfo time u f i v none w = ⊥
StoredInfo time u f i v (some r) w =
    ((r.ok ≡ true)
      × (taken_user_file (new_row time u i.md5 f) v.tables ≡ false)
      × (w.locked ≡ false)
      × (((r.file_exist ≡ false)
            × (taken_file_info i v.tables ≡ false)
            × (w.tables
                ≡ apply (insert_user_file (new_row time u i.md5 f))
                    (apply (insert_file_info i) v.tables)))
          ⊎ ((r.file_exist ≡ true)
              × (w.tables
                  ≡ apply (insert_user_file (new_row time u i.md5 f))
                      (apply (increment_count i.md5) v.tables)))))
    ⊎ ((r.ok ≡ false) × (w.tables.user_file_list ≡ v.tables.user_file_list))

pub store-StoredInfo :
    (time u f : Text) (i : FileInfo) (v : View)
    → Wp (store_fileinfo time u f i) (StoredInfo time u f i v) v
unfolding store_fileinfo store_locked store_user_file execute_create execute_pass_query respond
    apply ◌>>=◌ taken_user_file
store-StoredInfo time u f i v = ground arith

-- The code is 1 or 5, and no entry is ever added; 1 over a granted statement leaves the count raised.
abbrev pub Md5Dealt : Text → Text → Text → View → Option ℕ → View → Type 0
Md5Dealt u m f v none w = ⊥
Md5Dealt u m f v (some r) w =
    (((r ≡ 5) × (w ≡ v) × (0 < entries u m f v.tables))
      ⊎ ((r ≡ 1) × ((w.tables ≡ v.tables) ⊎ (w ≡ executed (increment_count m) (unlocked v)))))
    × (w.tables.user_file_list ≡ v.tables.user_file_list)

pub md5-Md5Dealt : (u m f : Text) (v : View) → Wp (handle_deal_md5 u m f) (Md5Dealt u m f v) v
unfolding handle_deal_md5 md5_unless_owned md5_locked md5_code execute_pass_query respond apply
    ◌>>=◌ entries
md5-Md5Dealt u m f v =
    Wp->>= (check_whether_have_record (select_user_file u m f)) (md5_unless_owned m)
      (Md5Dealt u m f v) v
      (Wp-check_user_file (Then (md5_unless_owned m) (Md5Dealt u m f v)) v u m f (ground arith)
        (λ e. ground arith) (λ l. (inl (refl, refl, l), refl)))
