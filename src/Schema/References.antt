-- ===== src/Schema/References.antt =====
-- The reference counts of file_info against the rows of user_file_list that they count.
use filehub_cloud.Base.{
  ℕ, ◌+◌, ◌-◌, ◌≤◌, ◌<◌, Bool, true, false, not, List, [], ◌∷◌, ◌++◌, Text, same, same→≡, keep,
  count, first, some, count-append, if◌then◌else◌, ◌≡◌, refl, ap, ◌∙◌, arith,
}
use filehub_cloud.Schema.Tables.{FileInfo, UserFile, Tables, is_file, owned_by}
use filehub_cloud.Schema.Statements.{
  amend, apply, taken_user_file, taken_file_info, insert_user_file, insert_file_info,
  increment_count, decrement_count, delete_user_file, delete_file_info,
}

unfoldable pub has_md5 : Text → UserFile → Bool
has_md5 m r = same r.md5 m

unfoldable pub sum_counts : Text → List FileInfo → ℕ
sum_counts m [] = 0
sum_counts m (r ∷ rs) = let rest = sum_counts m rs in if is_file m r then r.count + rest else rest

-- The count that file_info holds for a file, and the number of users' entries for it.
unfoldable pub references : Text → Tables → ℕ
references m t = sum_counts m t.file_info

unfoldable pub owners : Text → Tables → ℕ
unfolding has_md5
owners m t = count (has_md5 m) t.user_file_list

unfoldable pub files : Text → Tables → ℕ
files m t = count (is_file m) t.file_info

unfoldable pub entries : Text → Text → Text → Tables → ℕ
entries u m f t = count (owned_by u m f) t.user_file_list

-- Every count is right.
abbrev pub Balanced : Tables → Type 0
Balanced t = (m : Text) → references m t ≡ owners m t

-- The unique keys of the schema.
pub record IsKeyed (t : Tables) : Type 0 where
  pub one_file : (m : Text) → files m t ≤ 1
  pub one_entry : (u m f : Text) → entries u m f t ≤ 1

-- How the statements move the two sides, for the file `m` of the statement and any file `n`.
abbrev pub at : Text → Text → ℕ → ℕ
at m n k = if same m n then k else 0

same_row : (a m n : Text) → same a m ≡ true → same a n ≡ same m n
same_row a m n e = rw (same→≡ a m e)

sum-inc :
    (m n : Text) (rs : List FileInfo)
    → sum_counts n (amend (is_file m) (λ r. record r { count = r.count + 1 }) rs)
      ≡ sum_counts n rs + at m n (count (is_file m) rs)
unfolding sum_counts amend count is_file
sum-inc m n [] = ground arith
sum-inc m n (r ∷ rs) = ground (arith, sum-inc m n rs, same_row r.md5 m n)

pub references-increment :
    (m n : Text) (t : Tables)
    → references n (apply (increment_count m) t) ≡ references n t + at m n (files m t)
unfolding references files apply
references-increment m n t = sum-inc m n t.file_info

pub owners-increment :
    (m n : Text) (t : Tables) → owners n (apply (increment_count m) t) ≡ owners n t
unfolding owners apply
owners-increment m n t = refl

amend-is_file :
    (m : Text) (rs : List FileInfo)
    → count (is_file m) (amend (is_file m) (λ r. record r { count = r.count + 1 }) rs)
      ≡ count (is_file m) rs
unfolding amend count is_file
amend-is_file m [] = refl
amend-is_file m (r ∷ rs) = ground (arith, amend-is_file m rs)

pub files-increment : (m : Text) (t : Tables) → files m (apply (increment_count m) t) ≡ files m t
unfolding files apply
files-increment m t = amend-is_file m t.file_info

pub files-insert_user_file :
    (r : UserFile) (m : Text) (t : Tables) → files m (apply (insert_user_file r) t) ≡ files m t
unfolding files apply
files-insert_user_file r m t = ground arith

-- An insertion that breaks no key.
pub owners-insert :
    (r : UserFile) (n : Text) (t : Tables)
    → taken_user_file r t ≡ false
    → owners n (apply (insert_user_file r) t) ≡ owners n t + at r.md5 n 1
unfolding owners apply
owners-insert r n t e = rw e (
    count-append (has_md5 n) t.user_file_list (r ∷ [])
    ∙ ap (◌+◌ (count (has_md5 n) t.user_file_list)) (unfold count has_md5 in refl))

pub references-insert_user_file :
    (r : UserFile) (n : Text) (t : Tables)
    → references n (apply (insert_user_file r) t) ≡ references n t
unfolding references apply
references-insert_user_file r n t = ground arith

sum-append :
    (n : Text) (rs ss : List FileInfo) → sum_counts n (rs ++ ss) ≡ sum_counts n rs + sum_counts n ss
unfolding sum_counts
sum-append n [] ss = omega arith
sum-append n (r ∷ rs) ss = ground (arith, sum-append n rs ss)

pub references-insert :
    (r : FileInfo) (n : Text) (t : Tables)
    → taken_file_info r t ≡ false
    → references n (apply (insert_file_info r) t) ≡ references n t + at r.md5 n r.count
unfolding references apply sum_counts is_file
references-insert r n t e = rw e (sum-append n t.file_info (r ∷ []) ∙ ground arith)

pub owners-insert_file_info :
    (r : FileInfo) (n : Text) (t : Tables) → owners n (apply (insert_file_info r) t) ≡ owners n t
unfolding owners apply
owners-insert_file_info r n t = ground arith

count-keep-owned :
    (u m f n : Text) (rs : List UserFile)
    → count (has_md5 n) (keep (λ r. not (owned_by u m f r)) rs) + at m n (count (owned_by u m f) rs)
      ≡ count (has_md5 n) rs
unfolding count keep owned_by has_md5
count-keep-owned u m f n [] = ground arith
count-keep-owned u m f n (r ∷ rs) = ground (arith, count-keep-owned u m f n rs, same_row r.md5 m n)

pub owners-delete :
    (u m f n : Text) (t : Tables)
    → owners n (apply (delete_user_file u m f) t) + at m n (entries u m f t) ≡ owners n t
unfolding owners apply entries
owners-delete u m f n t = count-keep-owned u m f n t.user_file_list

amend-none :
    (m : Text) (f : FileInfo → FileInfo) (rs : List FileInfo)
    → count (is_file m) rs ≡ 0
    → amend (is_file m) f rs ≡ rs
unfolding count amend
amend-none m f [] h = refl
amend-none m f (r ∷ rs) h = ground (arith, amend-none m f rs)

sum-none : (m : Text) (rs : List FileInfo) → count (is_file m) rs ≡ 0 → sum_counts m rs ≡ 0
unfolding count sum_counts
sum-none m [] h = refl
sum-none m (r ∷ rs) h = ground (arith, sum-none m rs)

-- The single row of a file carries its whole count.
sum-first :
    (m : Text) (rs : List FileInfo) (r : FileInfo)
    → count (is_file m) rs ≤ 1
    → first (is_file m) rs ≡ some r
    → sum_counts m rs ≡ r.count
unfolding count sum_counts first
sum-first m [] r h e = cc
sum-first m (x ∷ rs) r h e = ground (arith, sum-first m rs r, sum-none m rs)

pub references-first :
    (m : Text) (t : Tables) (r : FileInfo)
    → files m t ≤ 1
    → first (is_file m) t.file_info ≡ some r
    → references m t ≡ r.count
unfolding references files
references-first m t r h e = sum-first m t.file_info r h e

sum-dec :
    (m n : Text) (rs : List FileInfo)
    → count (is_file m) rs ≤ 1
    → 0 < sum_counts m rs
    → sum_counts n (amend (is_file m) (λ r. record r { count = r.count - 1 }) rs) + at m n 1
      ≡ sum_counts n rs
unfolding sum_counts amend count is_file
sum-dec m n [] h k = elim k [ ]
sum-dec m n (r ∷ rs) h k = ground (
  arith,
  sum-dec m n rs,
  amend-none m (λ r. record r { count = r.count - 1 }) rs,
  sum-none m rs,
  same_row r.md5 m n,
)

pub references-decrement :
    (m n : Text) (t : Tables)
    → files m t ≤ 1
    → 0 < references m t
    → references n (apply (decrement_count m) t) + at m n 1 ≡ references n t
unfolding references files apply
references-decrement m n t h k = sum-dec m n t.file_info h k

sum-keep :
    (m n : Text) (rs : List FileInfo)
    → sum_counts n (keep (λ r. not (is_file m r)) rs) + at m n (sum_counts m rs) ≡ sum_counts n rs
unfolding sum_counts keep is_file
sum-keep m n [] = ground arith
sum-keep m n (r ∷ rs) = ground (arith, sum-keep m n rs, same_row r.md5 m n)

pub references-delete :
    (m n : Text) (t : Tables)
    → references n (apply (delete_file_info m) t) + at m n (references m t) ≡ references n t
unfolding references apply
references-delete m n t = sum-keep m n t.file_info

count-keep-not :
    (u m f : Text) (rs : List UserFile)
    → count (owned_by u m f) (keep (λ r. not (owned_by u m f r)) rs) ≡ 0
unfolding count keep
count-keep-not u m f [] = refl
count-keep-not u m f (r ∷ rs) = ground (arith, count-keep-not u m f rs)

pub entries-delete :
    (u m f : Text) (s t : Tables)
    → s.user_file_list ≡ (apply (delete_user_file u m f) t).user_file_list
    → entries u m f s ≡ 0
unfolding entries apply
entries-delete u m f s t e = rw e (count-keep-not u m f t.user_file_list)
