-- ===== src/Managers/Managed.antt =====
-- The pools that a successful Init leaves.
use filehub_cloud.Base.{
  ℕ, suc, ◌==◌, Bool, true, false, Option, none, some, List, [], ◌∷◌, Text, All, ◌≡◌, ◌⊎◌, inl, inr,
  refl, sym, ap, ◌∙◌, subst, same, same→≡, same_refl, Bool-cases, arith,
}
use filehub_cloud.Redis.{find, put, find-put}
use filehub_cloud.Util.Config.{ConfigFileReader, get_config_name}
use filehub_cloud.Util.Explode.{explode}
use filehub_cloud.Pool.{Pool}
use filehub_cloud.Managers.{
  PoolMap, Loaded, failed, undefined, ready, Kind, all_set, insert_pool, max_of, new_pool, made,
  configured, then_load, load_pools, load_instances, manager_init,
}

module _ (K : Kind) (config : ConfigFileReader) (connects : ℕ → Bool) where
  -- The name has a pool, with the number of connections that the configuration has for it.
  abbrev pub IsManaged : PoolMap → Text → Type 0
  IsManaged pools n =
      (max : Text) × (max_of K config connects n ≡ some max)
      × (find n pools ≡ some (new_pool K config connects max))

  -- No name has another pool than its own.
  abbrev IsRight : PoolMap → Type 0
  IsRight pools = (n : Text) → (find n pools ≡ none) ⊎ IsManaged pools n

  -- The pools of one map stand in the other.
  abbrev Stays : PoolMap → PoolMap → Type 0
  Stays pools more = (n : Text) → (find n pools ≡ none) ⊎ (find n more ≡ find n pools)

  Stays-IsManaged :
      (pools more : PoolMap) (n : Text) → Stays pools more → IsManaged pools n → IsManaged more n
  Stays-IsManaged pools more n s (max, e, h) = elim (s n) [
    | inl missing ↦ cc
    | inr same_pool ↦ (max, e, same_pool ∙ h)
  ]

  -- One step of the loop.
  abbrev Extended : Text → PoolMap → PoolMap → Type 0
  Extended n pools more = IsRight more × IsManaged more n × Stays pools more

  put-Extended :
      (n max : Text) (pools : PoolMap)
      → IsRight pools
      → max_of K config connects n ≡ some max
      → find n pools ≡ none
      → Extended n pools (put n (new_pool K config connects max) pools)
  put-Extended n max pools right e missing = (right_more, (max, e, here), stays)
    where
      p : Pool
      p = new_pool K config connects max

      here : find n (put n p pools) ≡ some p
      here = ground (arith, find-put n n p pools, same_refl n)

      right_more : (k : Text) → (find k (put n p pools) ≡ none) ⊎ IsManaged (put n p pools) k
      right_more k = elim (Bool-cases (same n k)) [
        | inl h ↦ inr (subst (IsManaged (put n p pools)) (same→≡ n k h) (max, e, here))
        | inr h ↦ elim (right k) [
          | inl m ↦ inl (ground (arith, find-put n k p pools))
          | inr (x, f, g) ↦ inr (x, f, ground (arith, find-put n k p pools))
        ]
      ]

      stays : (k : Text) → (find k pools ≡ none) ⊎ (find k (put n p pools) ≡ find k pools)
      stays k = elim (Bool-cases (same n k)) [
        | inl h ↦ inl (subst (λ x. find x pools ≡ none) (same→≡ n k h) missing)
        | inr h ↦ inr (ground (arith, find-put n k p pools))
      ]

  insert-Extended :
      (n max : Text) (pools : PoolMap) (o : Option Pool)
      → IsRight pools
      → max_of K config connects n ≡ some max
      → find n pools ≡ o
      → Extended n pools (insert_pool n (new_pool K config connects max) pools o)
  unfolding insert_pool
  insert-Extended n max pools none right e h = put-Extended n max pools right e h
  insert-Extended n max pools (some old) right e h = elim (right n) [
    | inl missing ↦ cc
    | inr managed ↦ (right, managed, λ k. inr refl)
  ]

  Stays-trans :
      (pools next more : PoolMap) (k : Text)
      → (find k pools ≡ none) ⊎ (find k next ≡ find k pools)
      → (find k next ≡ none) ⊎ (find k more ≡ find k next)
      → (find k pools ≡ none) ⊎ (find k more ≡ find k pools)
  Stays-trans pools next more k (inl e) f = inl e
  Stays-trans pools next more k (inr e) (inl f) = inl (sym e ∙ f)
  Stays-trans pools next more k (inr e) (inr f) = inr (f ∙ e)

  some_map : {a b : PoolMap} → ready a ≡ ready b → a ≡ b
  some_map e = cc

  configured-Extended :
      (i : ℕ) (n : Text) (pools more : PoolMap) (o : Option Text) (b : Bool)
      → IsRight pools
      → max_of K config connects n ≡ o
      → configured K config connects i n pools o b ≡ ready more
      → Extended n pools more
  unfolding configured
  configured-Extended i n pools more none b right e h = cc
  configured-Extended i n pools more (some max) false right e h = cc
  configured-Extended i n pools more (some max) true right e h = by_connection (connects i) h
    where
      by_connection :
          (c : Bool)
          → elim (made K config connects c n max pools) [ none ↦ failed 3 | some m ↦ ready m ]
            ≡ ready more
          → Extended n pools more
      by_connection false f = cc
      by_connection true f =
          subst (Extended n pools) (some_map f)
            (insert-Extended n max pools (find n pools) right e refl)

  load_pools-IsManaged :
      (unset i : ℕ) (names : List Text) (pools more : PoolMap)
      → IsRight pools
      → load_pools K config connects unset i names pools ≡ ready more
      → All (IsManaged more) names × Stays pools more
  unfolding load_pools then_load
  load_pools-IsManaged unset i [] pools more right h = elim (Bool-cases (unset == 0)) [
    | inl e ↦ (tt, λ k. inr (ap (find k) (sym (some_map (ground arith)))))
    | inr e ↦ absurd (never (ground arith))
  ]
    where
      never : undefined ≡ ready more → ⊥
      never f = cc
  load_pools-IsManaged unset i (n ∷ names) pools more right h =
      by_step (load_pools-IsManaged unset (suc i) names)
        (configured K config connects i n pools (max_of K config connects n)
          (all_set K.suffixes n config))
        refl h
    where
      by_step :
          ((next m : PoolMap)
            → IsRight next
            → load_pools K config connects unset (suc i) names next ≡ ready m
            → All (IsManaged m) names × Stays next m)
          → (l : Loaded)
          → configured K config connects i n pools
              (max_of K config connects n)
              (all_set K.suffixes n config)
            ≡ l
          → then_load K config connects (load_pools K config connects unset (suc i) names) l
            ≡ ready more
          → All (IsManaged more) (n ∷ names) × Stays pools more
      by_step later (failed x) e f = cc
      by_step later undefined e f = cc
      by_step later (ready next) e f =
          let (right_next, here, stays_next) =
            configured-Extended i n pools next (max_of K config connects n)
              (all_set K.suffixes n config) right refl e in
          let (rest, stays_more) = later next more right_next f in
          (
            (Stays-IsManaged next more n stays_more here, rest),
            λ k. Stays-trans pools next more k (stays_next k) (stays_more k),
          )

  empty-IsRight : IsRight []
  unfolding find
  empty-IsRight n = inl refl

  -- When Init of a manager returns 0, the configuration has the list of the names, and for every name that
  -- CStrExplode gives for it the manager has a pool with the connections that it starts with and the
  -- largest number that the configuration has for it.
  pub manager_init-IsManaged :
      (pools : PoolMap)
      → manager_init K config connects ≡ ready pools
      → (instances : Text) × (get_config_name K.instances config ≡ some instances)
        × All (IsManaged pools) (explode instances 44).item_list
  unfolding manager_init load_instances
  manager_init-IsManaged pools h = by_list (get_config_name K.instances config) refl h
    where
      by_list :
          (o : Option Text)
          → get_config_name K.instances config ≡ o
          → load_instances K config connects o ≡ ready pools
          → (instances : Text) × (get_config_name K.instances config ≡ some instances)
            × All (IsManaged pools) (explode instances 44).item_list
      by_list none e f = cc
      by_list (some instances) e f =
          (instances, e, (load_pools-IsManaged _ 0 _ [] pools empty-IsRight f).0)
