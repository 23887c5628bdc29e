-- ===== src/Common/Rules.antt =====
-- What the lookups of Records.antt come to, by the rows that the tables hold.
use filehub_cloud.Base.{
  ℕ, ◌<◌, Bool, Option, none, some, List, [], ◌∷◌, Text, ◌≡◌, refl, sym, subst, ◌⊎◌, inl, inr,
  count, first, arith, Bool-cases,
}
use filehub_cloud.Schema.Tables.{owned_by, shared_as, UserFile}
use filehub_cloud.Schema.Results.{Cell}
use filehub_cloud.Schema.Statements.{
  select_user_file, select_share_file, select_shared_status, selected, user_columns, status_columns,
  share_columns, respond, apply,
}
use filehub_cloud.Program.Defs.{View, Wp, ◌>>=◌}
use filehub_cloud.Conn.Mysql.{execute_query, next, get_int, new_result_set}
use filehub_cloud.Conn.Cache.{Code, code, minus_one}
use filehub_cloud.Common.Records.{check_whether_have_record, get_result_one_status, status_of}

module _ {A : Type 0} (p : A → Bool) (cells : A → List Cell) where
  pub selected-none : (xs : List A) → count p xs ≡ 0 → selected p cells xs ≡ []
  unfolding selected count
  selected-none [] h = refl
  selected-none (x ∷ xs) h = ground (arith, selected-none xs)

  pub selected-some :
      (xs : List A)
      → 0 < count p xs
      → (a : A) × (rest : List (List Cell)) × (first p xs ≡ some a)
        × (selected p cells xs ≡ cells a ∷ rest)
  unfolding selected count first
  selected-some [] h = elim h [ ]
  selected-some (x ∷ xs) h = elim (Bool-cases (p x)) [
    | inl hit ↦ (x, selected p cells xs, ground arith, ground arith)
    | inr miss ↦
        let (a, rest, e, s) = selected-some xs (ground arith) in
        (a, rest, ground arith, ground arith)
  ]

  pub count-cases : (xs : List A) → (count p xs ≡ 0) ⊎ (0 < count p xs)
  count-cases xs = zero_or_pos (count p xs)
    where
      zero_or_pos : (n : ℕ) → (n ≡ 0) ⊎ (0 < n)
      zero_or_pos n = ground arith

module _ (Q : Option Code → View → Type 0) (v : View) where
  pub Wp-check_user_file :
      (u m f : Text)
      → Q (some minus_one) v
      → (count (owned_by u m f) v.tables.user_file_list ≡ 0 → Q (some (code 0)) v)
      → (0 < count (owned_by u m f) v.tables.user_file_list → Q (some (code 1)) v)
      → Wp (check_whether_have_record (select_user_file u m f)) Q v
  unfolding check_whether_have_record execute_query next ◌>>=◌ respond apply
  Wp-check_user_file u m f failed absent present =
      elim (count-cases (owned_by u m f) (λ _. []) v.tables.user_file_list) [
        | inl e ↦ (
          failed,
          rw (selected-none (owned_by u m f) user_columns v.tables.user_file_list e) (absent e),
        )
        | inr l ↦
            let (a, rest, _, s) =
              selected-some (owned_by u m f) user_columns v.tables.user_file_list l in
            (failed, rw s (present l))
      ]

  pub Wp-check_share_file :
      (m f : Text)
      → Q (some minus_one) v
      → (count (shared_as m f) v.tables.share_file_list ≡ 0 → Q (some (code 0)) v)
      → (0 < count (shared_as m f) v.tables.share_file_list → Q (some (code 1)) v)
      → Wp (check_whether_have_record (select_share_file m f)) Q v
  unfolding check_whether_have_record execute_query next ◌>>=◌ respond apply
  Wp-check_share_file m f failed absent present =
      elim (count-cases (shared_as m f) (λ _. []) v.tables.share_file_list) [
        | inl e ↦ (
          failed,
          rw (selected-none (shared_as m f) share_columns v.tables.share_file_list e) (absent e),
        )
        | inr l ↦
            let (a, rest, _, s) =
              selected-some (shared_as m f) share_columns v.tables.share_file_list l in
            (failed, rw s (present l))
      ]

-- The status of the user's entry; a refused statement crashes.
pub Wp-status :
    (Q : Option (Option ℕ) → View → Type 0) (v : View) (u m f : Text)
    → Q none v
    → (count (owned_by u m f) v.tables.user_file_list ≡ 0 → Q (some none) v)
    → ((r : UserFile)
        → 0 < count (owned_by u m f) v.tables.user_file_list
        → first (owned_by u m f) v.tables.user_file_list ≡ some r
        → Q (some (some r.shared_status)) v)
    → Wp (get_result_one_status (select_shared_status u m f)) Q v
unfolding get_result_one_status execute_query next get_int ◌>>=◌ respond apply
Wp-status Q v u m f failed absent present =
    elim (count-cases (owned_by u m f) (λ _. []) v.tables.user_file_list) [
      | inl e ↦ (
        failed,
        rw (selected-none (owned_by u m f) status_columns v.tables.user_file_list e) (absent e),
      )
      | inr l ↦
          let (a, rest, e, s) =
            selected-some (owned_by u m f) status_columns v.tables.user_file_list l in
          (
            failed,
            subst
                (λ rows.
                  Wp
                    (status_of (
                      next
                        (new_result_set (record { fields = "shared_status" ∷ []; rows = rows }))))
                    Q v)
                (sym s) (present a l e),
          )
    ]
