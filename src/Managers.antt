-- ===== src/Managers.antt =====
-- CDBManager (mysql/db_pool.cc) and CacheManager (redis/cache_pool.cc): the pools by their names, made from a
-- configuration.
pub mod Managed
use filehub_cloud.Base.{
  ℕ, zero, suc, ◌-◌, ◌==◌, Bool, true, false, ◌&&◌, Option, none, some, List, [], ◌∷◌, ◌++◌, Text,
  bytes, length, take, if◌then◌else◌,
}
use filehub_cloud.Schema.Results.{string}
use filehub_cloud.Redis.{find, put}
use filehub_cloud.Conn.Mysql.{atoi}
use filehub_cloud.Util.Config.{ConfigFileReader, get_config_name}
use filehub_cloud.Util.Explode.{explode}
use filehub_cloud.Pool as Pools
use filehub_cloud.Pool.{
  Pool, Outcome, null, get_conn, rel_conn, min_db_conn_cnt, min_cache_conn_cnt,
}

abbrev pub PoolMap : Type 0
PoolMap = List (Text × Pool)

-- The result of Init: another number than 0; a name that was never set; or 0.
pub data Loaded : Type 0 where
  failed : ℕ → Loaded
  undefined : Loaded
  ready : PoolMap → Loaded

-- snprintf into 64 bytes.
pub setting_name : Text → Text → Text
setting_name pool_name suffix = take 63 (pool_name ++ suffix)

is_set : Option Text → Bool
is_set none = false
is_set (some value) = true

all_set : List Text → Text → ConfigFileReader → Bool
unfolding is_set setting_name
all_set [] pool_name config = true
all_set (s ∷ suffixes) pool_name config =
    is_set (get_config_name (setting_name pool_name s) config) && all_set suffixes pool_name config

-- `insert` keeps the pool of a name.
insert_pool : Text → Pool → PoolMap → Option Pool → PoolMap
insert_pool pool_name p pools none = put pool_name p pools
insert_pool pool_name p pools (some old) = pools

-- What CDBManager and CacheManager differ in: the name of the list, the settings of a pool, and the
-- connections that it starts with.
pub record Kind : Type 0 where
  pub instances : Text
  pub suffixes : List Text
  pub min_conn_cnt : ℕ

abbrev pub db_kind : Kind
db_kind = record {
  instances = bytes "DBInstances";
  suffixes =
      bytes "_host" ∷ bytes "_port" ∷ bytes "_dbname" ∷ bytes "_username" ∷ bytes "_password" ∷ [];
  min_conn_cnt = min_db_conn_cnt;
}

abbrev pub cache_kind : Kind
cache_kind = record {
  instances = bytes "CacheInstances";
  suffixes = bytes "_host" ∷ bytes "_port" ∷ bytes "_db" ∷ [];
  min_conn_cnt = min_cache_conn_cnt;
}

module _ (K : Kind) (config : ConfigFileReader) (connects : ℕ → Bool) where
  -- The setting of the largest number of connections.
  pub max_of : Text → Option Text
  unfolding setting_name
  max_of pool_name = get_config_name (setting_name pool_name (bytes "_maxconncnt")) config

  abbrev pub new_pool : Text → Pool
  new_pool max = Pools.init K.min_conn_cnt (atoi (string max))

  -- A pool that is made, if the i-th connects.
  made : Bool → Text → Text → PoolMap → Option PoolMap
  unfolding insert_pool
  made false pool_name max pools = none
  made true pool_name max pools =
      some (insert_pool pool_name (new_pool max) pools (find pool_name pools))

  configured : ℕ → Text → PoolMap → Option Text → Bool → Loaded
  unfolding made
  configured i pool_name pools (some max) true = elim (made (connects i) pool_name max pools) [
    | none ↦ failed 3
    | some more ↦ ready more
  ]
  configured i pool_name pools _ _ = failed 2

  then_load : (PoolMap → Loaded) → Loaded → Loaded
  then_load go (failed n) = failed n
  then_load go undefined = undefined
  then_load go (ready pools) = go pools

  -- The loop over the names, of which the last `unset` are not set.
  load_pools : ℕ → ℕ → List Text → PoolMap → Loaded
  unfolding configured then_load all_set max_of
  load_pools unset i [] pools = if unset == 0 then ready pools else undefined
  load_pools unset i (pool_name ∷ names) pools =
      then_load (load_pools unset (suc i) names)
        (configured i pool_name pools (max_of pool_name) (all_set K.suffixes pool_name config))

  load_instances : Option Text → Loaded
  unfolding load_pools
  load_instances none = failed 1
  load_instances (some instances) =
      let e = explode instances 44 in load_pools (e.item_cnt - length e.item_list) 0 e.item_list []

  unfoldable pub manager_init : Loaded
  unfolding load_instances
  manager_init = load_instances (get_config_name K.instances config)

-- GetDBConn and GetCacheConn, without a limit of the wait; `connects`: whether a new connection succeeds.
from_pool : Bool → Text → PoolMap → Option Pool → Outcome × PoolMap
from_pool connects pool_name pools none = (null, pools)
from_pool connects pool_name pools (some p) =
    let (o, q) = get_conn connects p in (o, put pool_name q pools)

pub manager_get_conn : Bool → Text → PoolMap → Outcome × PoolMap
unfolding from_pool
manager_get_conn connects pool_name pools =
    from_pool connects pool_name pools (find pool_name pools)

-- RelDBConn and RelCacheConn, with the name of the connection's pool.
to_pool : Text → ℕ → PoolMap → Option Pool → PoolMap
to_pool pool_name c pools none = pools
to_pool pool_name c pools (some p) = put pool_name (rel_conn c p) pools

pub manager_rel_conn : Text → ℕ → PoolMap → PoolMap
unfolding to_pool
manager_rel_conn pool_name c pools = to_pool pool_name c pools (find pool_name pools)
