-- ===== src/Handlers/Saved/Counts.antt =====
-- Reference counts across the handlers that add an owner, on every run.
use filehub_cloud.Base.{
  ℕ, zero, suc, count, count-append, same_refl, ◌++◌, if◌then◌else◌, [], ◌∷◌, ◌+◌, ◌<◌, true, false,
  some, none, Option, Text, ◌≡◌, refl, sym, ap, ◌∙◌, subst, ◌⊎◌, inl, inr, arith,
}
use filehub_cloud.Schema.Tables.{FileInfo, UserFile, Tables, owned_by}
use filehub_cloud.Schema.Statements.{
  apply, increment_count, insert_user_file, insert_file_info, taken_user_file, taken_file_info,
}
use filehub_cloud.Schema.References.{
  files-increment, files-insert_user_file, Balanced, IsKeyed, entries, files, references, owners,
  at, references-increment, owners-increment, owners-insert, references-insert_user_file,
  references-insert, owners-insert_file_info,
}
use filehub_cloud.Program.Defs.{View}
use filehub_cloud.Program.Servers.{Server, IsDocumented, Ends, Wp-run}
use filehub_cloud.Handlers.Saved.{handle_save_file, new_row, Stored, handle_deal_md5}
use filehub_cloud.Handlers.Saved.Laws.{Saved, save-Saved, StoredInfo, Md5Dealt, md5-Md5Dealt}

-- One more reference and one more owner of the same file.
counted_insert :
    (time u m f : Text) (n : Text) (s t : Tables)
    → references n s ≡ references n t + at m n 1
    → owners n s ≡ owners n t
    → taken_user_file (new_row time u m f) s ≡ false
    → references n t ≡ owners n t
    → references n (apply (insert_user_file (new_row time u m f)) s)
      ≡ owners n (apply (insert_user_file (new_row time u m f)) s)
counted_insert time u m f n s t r o free b = omega (
  arith,
  references-insert_user_file (new_row time u m f) n s,
  owners-insert (new_row time u m f) n s free,
)

counted_increment :
    (m n : Text) (t : Tables)
    → IsKeyed t
    → 0 < files m t
    → references n (apply (increment_count m) t) ≡ references n t + at m n 1
counted_increment m n t k l = ground (arith, references-increment m n t, k.one_file m)

taken-increment :
    (r : UserFile) (m : Text) (t : Tables)
    → taken_user_file r (apply (increment_count m) t) ≡ taken_user_file r t
unfolding taken_user_file apply
taken-increment r m t = refl

taken-insert_file_info :
    (r : UserFile) (i : FileInfo) (t : Tables)
    → taken_user_file r (apply (insert_file_info i) t) ≡ taken_user_file r t
unfolding taken_user_file apply
taken-insert_file_info r i t = ground arith

save_tables-Balanced :
    (time u m f : Text) (t : Tables)
    → IsKeyed t
    → 0 < files m t
    → taken_user_file (new_row time u m f) t ≡ false
    → Balanced t
    → Balanced (apply (insert_user_file (new_row time u m f)) (apply (increment_count m) t))
save_tables-Balanced time u m f t k l free b n =
    counted_insert time u m f n (apply (increment_count m) t) t (counted_increment m n t k l)
      (owners-increment m n t) (taken-increment (new_row time u m f) m t ∙ free) (b n)

zero_or : (n : ℕ) → (n ≡ 0) ⊎ (0 < n)
zero_or zero = inl refl
zero_or (suc n) = inr (omega arith)

-- The entry that was inserted is there.
entries-insert :
    (time u m f : Text) (t : Tables)
    → taken_user_file (new_row time u m f) t ≡ false
    → 0 < entries u m f (apply (insert_user_file (new_row time u m f)) t)
unfolding entries apply owned_by count
entries-insert time u m f t free =
    subst
      (λ b.
        0
        < count (owned_by u m f) (
            (if b then t else record t {
              user_file_list = t.user_file_list ++ new_row time u m f ∷ [];
            }).user_file_list))
      (sym free)
      (ground (
        arith,
        count-append (owned_by u m f) t.user_file_list (new_row time u m f ∷ []),
        same_refl u,
        same_refl m,
        same_refl f,
      ))

-- What handleSaveFile comes to on tables with right counts: a failure that left them as they were, or
-- with a count that is one too high; or right counts and an owner.
abbrev pub SaveCounted : Text → Text → Text → View → Option ℕ → View → Type 0
SaveCounted u m f v r w =
    ((r ≡ some 1) × ((w.tables ≡ v.tables) ⊎ (w.tables ≡ apply (increment_count m) v.tables)))
    ⊎ (((r ≡ some 0) ⊎ (r ≡ some 5)) × Balanced w.tables × (0 < entries u m f w.tables))

Saved-Balanced :
    (time u m f : Text) (v w : View) (r : Option ℕ)
    → IsKeyed v.tables
    → Balanced v.tables
    → Saved time u m f v r w
    → SaveCounted u m f v r w
Saved-Balanced time u m f v w none k b h = absurd h
Saved-Balanced time u m f v w (some r) k b (inl (zero_code, e, free, l)) = inr (
  inl (ap some zero_code),
  subst (λ x. Balanced x.tables) (sym e) (save_tables-Balanced time u m f v.tables k l free b),
  subst (λ x. 0 < entries u m f x.tables) (sym e)
      (entries-insert time u m f (apply (increment_count m) v.tables)
        (taken-increment (new_row time u m f) m v.tables ∙ free)),
)
Saved-Balanced time u m f v w (some r) k b (inr (inl (five, e, l))) = inr (
  inr (ap some five),
  subst (λ x. Balanced x.tables) (sym e) b,
  subst (λ x. 0 < entries u m f x.tables) (sym e) l,
)
Saved-Balanced time u m f v w (some r) k b (inr (inr (one, t))) = inl (ap some one, t)

store_tables-Balanced :
    (time u f : Text) (i : FileInfo) (t : Tables)
    → i.count ≡ 1
    → taken_file_info i t ≡ false
    → taken_user_file (new_row time u i.md5 f) t ≡ false
    → Balanced t
    → Balanced (apply (insert_user_file (new_row time u i.md5 f)) (apply (insert_file_info i) t))
store_tables-Balanced time u f i t one new free b n =
    counted_insert time u i.md5 f n (apply (insert_file_info i) t) t
      (references-insert i n t new ∙ ap (λ c. references n t + at i.md5 n c) one)
      (owners-insert_file_info i n t) (taken-insert_file_info (new_row time u i.md5 f) i t ∙ free)
      (b n)

-- What storeFileinfo comes to.
abbrev pub Counted : Text → Text → FileInfo → View → Option Stored → View → Type 0
Counted u f i v none w = ⊥
Counted u f i v (some s) w =
    ((s.ok ≡ false) × (w.tables.user_file_list ≡ v.tables.user_file_list))
    ⊎ ((s.ok ≡ true)
        × (w.locked ≡ false)
        × (0 < entries u i.md5 f w.tables)
        × (Balanced w.tables
            ⊎ ((s.file_exist ≡ true) × (files i.md5 v.tables ≡ 0) × (files i.md5 w.tables ≡ 0))))

-- Neither statement adds or removes a row of file_info.
files-counted_insert :
    (r : UserFile) (m : Text) (t : Tables)
    → files m (apply (insert_user_file r) (apply (increment_count m) t)) ≡ files m t
files-counted_insert r m t =
    files-insert_user_file r m (apply (increment_count m) t) ∙ files-increment m t

-- A row that was not inserted was there, or the server refused it for another reason.
pub StoredInfo-Counted :
    (time u f : Text) (i : FileInfo) (v w : View) (r : Option Stored)
    → i.count ≡ 1
    → IsKeyed v.tables
    → Balanced v.tables
    → StoredInfo time u f i v r w
    → Counted u f i v r w
StoredInfo-Counted time u f i v w none one k b h = h
StoredInfo-Counted time u f i v w (some s) one k b (inr (failed, same_list)) =
    inl (failed, same_list)
StoredInfo-Counted time u f i v w (some s) one k b (inl (ok, free, off, inl (_, new, t))) = inr (
  ok,
  off,
  subst (λ x. 0 < entries u i.md5 f x) (sym t)
      (entries-insert time u i.md5 f _
        (taken-insert_file_info (new_row time u i.md5 f) i v.tables ∙ free)),
  inl (subst Balanced (sym t) (store_tables-Balanced time u f i v.tables one new free b)),
)
StoredInfo-Counted time u f i v w (some s) one k b (inl (ok, free, off, inr (old, t))) = inr (
  ok,
  off,
  subst (λ x. 0 < entries u i.md5 f x) (sym t)
      (entries-insert time u i.md5 f _
        (taken-increment (new_row time u i.md5 f) i.md5 v.tables ∙ free)),
  elim (zero_or (files i.md5 v.tables)) [
    | inl none_there ↦ inr (
      old,
      none_there,
      subst (λ x. files i.md5 x ≡ 0) (sym t)
          (files-counted_insert (new_row time u i.md5 f) i.md5 v.tables ∙ none_there),
    )
    | inr l ↦ inl (subst Balanced (sym t) (save_tables-Balanced time u i.md5 f v.tables k l free b))
  ],
)

module _ (S : Server) (documented : IsDocumented S) where
  -- A run of handleSaveFile that starts with right counts, on tables with one row a file and one entry a
  -- user and name, ends with 0, 1 or 5. With 0 or 5 the counts are right, and the user owns the file;
  -- with 1 the tables are what they were, or what they were with the file's count raised by one.
  pub save-Balanced :
      (time u m f : Text) (w : S.World)
      → IsKeyed (S.view w).tables
      → Balanced (S.view w).tables
      → Ends S documented (handle_save_file time u m f) (SaveCounted u m f (S.view w)) w
  save-Balanced time u m f w k b = Saved-Balanced time u m f (S.view w) _ _ k b (
      Wp-run S documented (handle_save_file time u m f) (Saved time u m f (S.view w)) w
        (save-Saved time u m f (S.view w)))

  -- Every run of handleDealMd5 ends with the code 1 or 5, never 0, and leaves user_file_list as it
  -- was. With 5 nothing changed, and the user has the file; with 1 the tables are unchanged, or the
  -- file's reference count is one higher, for no new owner.
  pub md5-Md5Dealt_run :
      (u m f : Text) (w : S.World)
      → Ends S documented (handle_deal_md5 u m f) (Md5Dealt u m f (S.view w)) w
  md5-Md5Dealt_run u m f w =
      Wp-run S documented (handle_deal_md5 u m f) (Md5Dealt u m f (S.view w)) w
        (md5-Md5Dealt u m f (S.view w))
