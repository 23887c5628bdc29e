-- ===== src/Tests/Services.antt =====
-- Services that grant every call, and keep to what they document.
use filehub_cloud.Base.{Text, bytes, true, false, some, ◌∷◌, refl, Option}
use filehub_cloud.Schema.Statements.{respond}
use filehub_cloud.Redis.{Command, get, zlexcount, answer, effect, Answer}
use filehub_cloud.Program.Defs.{View, executed, commanded, Replies}
use filehub_cloud.Program.Servers.{Server, IsDocumented}
use filehub_cloud.Program.Granted.{IsGranting}

-- What every tool prints: an address, which is also taken for an id.
abbrev report : Text
report = bytes "source ip address: 10.0.0.7\n"

abbrev pub obliging : Server
obliging = record {
  World = View;
  view = λ v. v;
  on_query = λ s v. (respond s v.tables, executed s v);
  on_prepare = λ v. (true, v);
  on_external = λ j v. (some report, v);
  on_init = λ v. (false, v);
  on_redis = λ c v. (some (answer c v.store), commanded c v);
  on_try_lock = λ v. (true, record v { locked = true });
  on_unlock = λ v. record v { locked = false };
  on_remove_file = λ i v. (false, record v { removed = i ∷ v.removed });
}

answered :
    (c : Command) (v : View) (K : Option Answer → View → Type 0)
    → Replies c K v
    → K (some (answer c v.store)) (commanded c v)
unfolding answer effect
answered (zlexcount m) v K h = h _ (λ _. refl)
answered (get k) v K h = h
answered _ v K h = h

pub obliging-IsDocumented : IsDocumented obliging
obliging-IsDocumented = record {
  query_ok = λ s w K h k. k;
  prepare_ok = λ w K h k. k;
  external_ok = λ j w. refl;
  init_ok = λ w. refl;
  redis_ok = λ c w K h e r. answered c w K r;
  lock_ok = λ w K h k. k;
  unlock_ok = λ w. refl;
  remove_ok = λ i w K h k. k;
}

pub obliging-IsGranting : IsGranting obliging
obliging-IsGranting = record {
  query_ok = λ s w K h. h;
  prepare_ok = λ w K h. h;
  external_ok = λ j w K h. h _;
  init_ok = λ w K h. h;
  redis_ok = λ c w K h. answered c w K h;
  lock_ok = λ w K h. h;
  unlock_ok = λ w. refl;
  remove_ok = λ i w K h. h;
}
