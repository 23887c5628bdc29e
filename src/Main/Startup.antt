-- ===== src/Main/Startup.antt =====
-- `main` of application/filehub/main.cc: what it does before the event loop.
use filehub_cloud.Base.{ℕ, Bool, none, some, List, [], ◌∷◌, Text, bytes, ℤ}
use filehub_cloud.Util.Config.{ConfigFileReader, get_config_name}
use filehub_cloud.Util.Numbers.{atoll}
use filehub_cloud.Managers.{
  Loaded, failed, undefined, ready, PoolMap, cache_kind, db_kind, manager_init,
}

-- ApiUploadInit (api/api_upload.cc)
pub record UploadSettings : Type 0 where
  pub dfs_path_client : Text
  pub storage_web_server_ip : Text
  pub storage_web_server_port : Text
  pub shorturl_server_address : Text
  pub shorturl_server_access_token : Text

-- How `main` goes on: the loop on a port with the managers' pools, the settings of the uploads and the
-- numbers of loops and threads; the exit -1; a NULL setting that is read; or a pool's name that was never set.
pub record Running : Type 0 where
  pub caches : PoolMap
  pub upload : UploadSettings
  pub databases : PoolMap
  pub http_bind_port : ℕ
  pub num_event_loops : ℤ
  pub num_threads : ℤ
  pub timeout_ms : ℤ

pub data Launch : Type 0 where
  running : Running → Launch
  exits crashes undefined_name : Launch

-- `getInstance` of a manager, and its NULL.
after_instance : Loaded → (PoolMap → Launch) → Launch
after_instance (failed n) go_on = exits
after_instance undefined go_on = undefined_name
after_instance (ready pools) go_on = go_on pools

-- A setting that is read whether it is there or not.
with_setting : Text → ConfigFileReader → (Text → Launch) → Launch
with_setting name config go_on = elim (get_config_name name config) [
  | none ↦ crashes
  | some value ↦ go_on value
]

abbrev pub conf_path : List Text → Text
conf_path (program ∷ path ∷ more) = path
conf_path _ = bytes "tc_http_server.conf"

-- `load` reads a configuration file, the same whenever it is read; the others say which connections of
-- the two managers' pools succeed.
module _ (load : Text → ConfigFileReader) (cache_connects db_connects : ℕ → Bool) where
  with_databases : PoolMap → UploadSettings → Text → PoolMap → Launch
  unfolding with_setting
  with_databases caches upload path databases =
      with_setting (bytes "num_event_loops") (load path) λ num_event_loops.
        with_setting (bytes "num_threads") (load path) λ num_threads.
          with_setting (bytes "timeout_ms") (load path) λ timeout_ms. running record {
            caches = caches;
            upload = upload;
            databases = databases;
            http_bind_port = 8081;
            num_event_loops = atoll num_event_loops;
            num_threads = atoll num_threads;
            timeout_ms = atoll timeout_ms;
          }

  -- ApiUploadInit makes a std::string of each.
  with_caches : Text → PoolMap → Launch
  unfolding with_setting after_instance with_databases
  with_caches path caches = with_setting (bytes "dfs_path_client") (load path) λ dfs_path_client.
      with_setting (bytes "storage_web_server_ip") (load path) λ storage_web_server_ip.
        with_setting (bytes "storage_web_server_port") (load path) λ storage_web_server_port.
          after_instance (manager_init db_kind (load path) db_connects) (
            with_databases caches
              record {
                dfs_path_client = dfs_path_client;
                storage_web_server_ip = storage_web_server_ip;
                storage_web_server_port = storage_web_server_port;
                shorturl_server_address = [];
                shorturl_server_access_token = [];
              }
              path)

  unfoldable pub start : List Text → Launch
  unfolding with_setting after_instance with_caches
  start argv = with_setting (bytes "log_level") (load (conf_path argv)) λ log_level.
      after_instance (manager_init cache_kind (load (conf_path argv)) cache_connects)
        (with_caches (conf_path argv))
