-- ===== src/Util/Explode/Joining.antt =====
-- The items and the text.
use filehub_cloud.Base.{
  ℕ, ◌≤◌, ◌==◌, ==_iff, List, [], ◌∷◌, ◌++◌, Text, length, ◌≡◌, ◌⊎◌, inl, inr, refl, sym, ap, ◌∙◌,
  subst, arith, Bool-cases, append_assoc, append-nil,
}
use filehub_cloud.Util.Explode.{count_items, cut_items, explode}

-- The items with a separator between two of them.
abbrev pub joined_by : ℕ → List Text → Text
joined_by separator [] = []
joined_by separator (i ∷ []) = i
joined_by separator (i ∷ j ∷ items) = i ++ (separator ∷ joined_by separator (j ∷ items))

abbrev pub IsJoined : ℕ → Text → List Text → Type 0
IsJoined separator str items =
    (str ≡ joined_by separator items) ⊎ (str ≡ joined_by separator items ++ (separator ∷ []))

cut_items-bound :
    (separator : ℕ) (since str : Text)
    → length (cut_items separator since str) ≤ count_items str separator
unfolding cut_items count_items
cut_items-bound separator [] [] = omega arith
cut_items-bound separator (d ∷ since) [] = omega arith
cut_items-bound separator [] (c ∷ str) = ground (arith, cut_items-bound separator (c ∷ []) str)
cut_items-bound separator (d ∷ since) (c ∷ str) =
    ground (
      arith,
      cut_items-bound separator [] str,
      cut_items-bound separator (d ∷ since ++ (c ∷ [])) str,
    )

-- An item in front of those of the rest.
cons-IsJoined :
    (separator : ℕ) (i : Text) (s : Text) (items : List Text)
    → IsJoined separator s items
    → (items ≡ [] → s ≡ [])
    → IsJoined separator (i ++ (separator ∷ s)) (i ∷ items)
cons-IsJoined separator i s [] h e = inr (ap (λ t. i ++ (separator ∷ t)) (e refl))
cons-IsJoined separator i s (j ∷ items) (inl h) e = inl (ap (λ t. i ++ (separator ∷ t)) h)
cons-IsJoined separator i s (j ∷ items) (inr h) e = inr (
    ap (λ t. i ++ (separator ∷ t)) h
    ∙ sym (append_assoc i (separator ∷ joined_by separator (j ∷ items)) (separator ∷ [])))

cut_items-none :
    (separator : ℕ) (since str : Text) → cut_items separator since str ≡ [] → since ++ str ≡ []
unfolding cut_items
cut_items-none separator [] [] e = refl
cut_items-none separator (d ∷ since) [] e = cc
cut_items-none separator [] (c ∷ str) e = cut_items-none separator (c ∷ []) str e
cut_items-none separator (d ∷ since) (c ∷ str) e = elim (Bool-cases (c == separator)) [
  | inl h ↦ cc
  | inr h ↦
      sym (ap (λ t. d ∷ t) (append_assoc since (c ∷ []) str))
      ∙ cut_items-none separator (d ∷ since ++ (c ∷ [])) str (ground arith)
]

cut_items-IsJoined :
    (separator : ℕ) (since str : Text)
    → IsJoined separator (since ++ str) (cut_items separator since str)
unfolding cut_items
cut_items-IsJoined separator [] [] = inl refl
cut_items-IsJoined separator (d ∷ since) [] = inl (append-nil (d ∷ since))
cut_items-IsJoined separator [] (c ∷ str) = cut_items-IsJoined separator (c ∷ []) str
cut_items-IsJoined separator (d ∷ since) (c ∷ str) = elim (Bool-cases (c == separator)) [
  | inl h ↦ rw h (
      subst
        (λ x.
          IsJoined separator (d ∷ since ++ (x ∷ str)) ((d ∷ since) ∷ cut_items separator [] str))
        (sym ((==_iff c separator).0 h))
        (cons-IsJoined separator (d ∷ since) str (cut_items separator [] str)
          (cut_items-IsJoined separator [] str) (cut_items-none separator [] str)))
  | inr h ↦ rw h (
      subst (λ s. IsJoined separator s (cut_items separator (d ∷ since ++ (c ∷ [])) str))
        (ap (λ t. d ∷ t) (append_assoc since (c ∷ []) str))
        (cut_items-IsJoined separator (d ∷ since ++ (c ∷ [])) str))
]

-- CStrExplode, for every text and separator: it stores no item behind the end of its array, and the items
-- with a separator between two of them are the text, or the text without a separator at its end.
pub explode-IsJoined :
    (str : Text) (separator : ℕ)
    → (length (explode str separator).item_list ≤ (explode str separator).item_cnt)
      × IsJoined separator str (explode str separator).item_list
unfolding explode
explode-IsJoined str separator =
    (cut_items-bound separator [] str, cut_items-IsJoined separator [] str)
