-- ===== src/Util/Explode.antt =====
-- CStrExplode of base/util.cc.
pub mod Joining
use filehub_cloud.Base.{
  ℕ, suc, ◌==◌, Bool, true, false, ◌&&◌, not, List, [], ◌∷◌, ◌++◌, Text, if◌then◌else◌,
}

-- The first loop: one item more than there are separators.
count_items : Text → ℕ → ℕ
count_items [] separator = 1
count_items (c ∷ str) separator =
    let rest = count_items str separator in if c == separator then suc rest else rest

-- The second loop, with the text since `start`: a separator at `start` is part of the item.
cut_items : ℕ → Text → Text → List Text
cut_items separator [] [] = []
cut_items separator (d ∷ since) [] = (d ∷ since) ∷ []
cut_items separator [] (c ∷ str) = cut_items separator (c ∷ []) str
cut_items separator (d ∷ since) (c ∷ str) =
    let behind = cut_items separator [] str in
    let rest = cut_items separator (d ∷ since ++ (c ∷ [])) str in
    if c == separator then (d ∷ since) ∷ behind else rest

-- `item_cnt_`, and the items that are stored in the array of that length, from the first place on.
pub record StrExplode : Type 0 where
  pub item_cnt : ℕ
  pub item_list : List Text

unfoldable pub explode : Text → ℕ → StrExplode
unfolding count_items cut_items
explode str separator = record {
  item_cnt = count_items str separator;
  item_list = cut_items separator [] str;
}
