-- ===== src/Tests/Managers.antt =====
-- A manager of caches with one pool.
use filehub_cloud.Base.{ℕ, Bool, true, some, [], ◌∷◌, Text, bytes, All, ◌≡◌, refl}
use filehub_cloud.Util.Config.{ConfigFileReader, get_config_name}
use filehub_cloud.Util.Explode.{explode}
use filehub_cloud.Managers.{PoolMap, ready, cache_kind, new_pool, manager_init}
use filehub_cloud.Managers.Managed.{IsManaged, manager_init-IsManaged}

abbrev config : ConfigFileReader
config = record {
  load_ok = true;
  config_map =
      (bytes "CacheInstances", bytes "t")
      ∷ (bytes "t_db", bytes "0")
      ∷ (bytes "t_host", bytes "h")
      ∷ (bytes "t_maxconncnt", bytes "8")
      ∷ (bytes "t_port", bytes "1")
      ∷ [];
}

abbrev connects : ℕ → Bool
connects i = true

abbrev pools : PoolMap
pools = (bytes "t", new_pool cache_kind config connects (bytes "8")) ∷ []

config_loads : manager_init cache_kind config connects ≡ ready pools
unfolding manager_init get_config_name explode filehub_cloud.Redis.find filehub_cloud.Redis.put
config_loads = refl

manager_init-IsManaged_example :
    (instances : Text) × (get_config_name cache_kind.instances config ≡ some instances)
    × All (IsManaged cache_kind config connects pools) (explode instances 44).item_list
manager_init-IsManaged_example =
    manager_init-IsManaged cache_kind config connects pools config_loads
