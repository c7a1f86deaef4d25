-- ===== src/Tests/Datas.antt =====
-- internal/datas at concrete inputs.
use limiz.Base.{
  All, ◌≢◌, Bool, arith, ℕ, suc, Text, List, [], ◌∷◌, true, false, not, none, some, Option,
  if◌then◌else◌, text_eq, text_eq→ne, codes, map, pos, ◌≡◌, Bool-cases, inl, inr, refl,
}
use limiz.Signing.{Bytes, Build}
use limiz.Plugins.{Host, success}
use limiz.Collectors.Verify.Trust.{IsTrusted}
use limiz.Disk.{is_among}
use limiz.Datas.Json.{Json, null, number, string}
use limiz.Datas.Category.{CategoryConfig}
use limiz.Datas.Registry.{
  Collection, collected, failed, Provider, Registry, Providers, CategoriesConfig, new_registry,
  collect_json,
}
use limiz.Datas.Cache.{DatasCache, document, new_datas_cache, refresh_all, get}
use limiz.Datas.Cache.Steps.{names, all_collected, is_initializing, get-is_initializing}
use limiz.Datas.Cache.Loops.{
  Move, goes_on, stops, tick, starting, waiting, crashed, run_moves, move, run_at, run_provider,
  run_phase, start, launch, stop,
}
use limiz.Datas.Cache.Loops.Progress.{run_moves-filled}
use limiz.Datas.Cache.Live.{IsTelling, get-collect_json}
use limiz.Datas.Plugin.{ExecDataPlugin, resolve_data_binary, collect_data, delivered}
use limiz.Datas.Plugin.Gate.{as_metric_build, collect_data-delivered}
use limiz.Tests.Plugins.{times, toy, build}

abbrev every_5m : CategoryConfig
every_5m = record { enabled = true; cache_interval = codes "5m" }

abbrev answers : Text → Collection
answers k = if text_eq k (codes "ports") then failed (codes "no ss") else collected (string k)

abbrev provider : Text → Provider ℕ
provider k = record { name = k; collect = λ w. (suc w, answers k); cache_interval = none }

abbrev providers : Providers ℕ
providers = record {
  services = provider (codes "services");
  packages = provider (codes "packages");
  updates = provider (codes "updates");
  disk_health = provider (codes "disk_health");
  hardware = provider (codes "hardware");
  os = provider (codes "os");
  ports = provider (codes "ports");
}

abbrev config : CategoriesConfig
config = record {
  services = some every_5m;
  packages = none;
  updates = some (record { enabled = false; cache_interval = [] });
  disk_health = none;
  hardware = none;
  os = none;
  ports = some (record { enabled = true; cache_interval = [] });
}

abbrev registry : Registry ℕ
registry = record {
  entries =
      record { provider = provider (codes "services"); cache_interval = codes "5m" }
      ∷ record { provider = provider (codes "ports"); cache_interval = [] }
      ∷ [];
}

two_entries : new_registry providers config ≡ registry
unfolding new_registry
two_entries = refl

-- the ports come first, and twice
abbrev steps : List (Provider ℕ)
steps = provider (codes "ports") ∷ provider (codes "services") ∷ provider (codes "ports") ∷ []

abbrev cache : DatasCache ℕ
cache = new_datas_cache registry (pos 5)

get-is_initializing_example :
    is_initializing (get (refresh_all steps (cache, 0)).0 (codes "now") (codes "+00:00"))
    ≡ not (all_collected (names steps) registry.entries)
get-is_initializing_example =
    get-is_initializing registry (pos 5) steps 0 (codes "now") (codes "+00:00")

abbrev moves : List Move
moves = goes_on 1 tick ∷ goes_on 0 tick ∷ stops ∷ []

begun : (b : Bool) → (if b then waiting else crashed) ≢ starting
begun true e = ground arith
begun false e = ground arith

moves-begun : All (λ g. g.phase ≢ starting) (run_moves moves (start cache 0)).goroutines
unfolding run_moves move run_at run_provider run_phase start launch stop new_datas_cache
moves-begun = (λ e. begun _ e, (λ e. begun _ e, tt))

run_moves-filled_example :
    is_initializing (get (run_moves moves (start cache 0)).cache.0 (codes "now") (codes "+00:00"))
    ≡ false
run_moves-filled_example =
    run_moves-filled registry (pos 5) 0 moves (codes "now") (codes "+00:00") moves-begun

telling : (k : Text) → IsTelling (answers k)
telling k = elim (Bool-cases (text_eq k (codes "ports"))) [
  | inl e ↦ rw e (text_eq→ne (codes "no ss") [] (unfold text_eq in refl))
  | inr e ↦ rw e tt
]

get-collect_json_example :
    get (refresh_all steps (cache, 0)).0 (codes "now") (codes "+00:00")
    ≡ document (collect_json registry (codes "now") (codes "+00:00") 7).1
get-collect_json_example =
    get-collect_json answers registry (pos 5) steps 0 7 (codes "now") (codes "+00:00")
      (λ w. refl, (λ w. refl, (λ w. refl, tt))) (λ w. refl, (λ w. refl, tt)) telling
      (unfold all_collected is_among text_eq in refl)

-- an error without a text is lost in the cache: the value is null, where the live document has an error
abbrev silent : Registry ℕ
silent = record {
  entries =
      record {
        provider = record {
          name = codes "p";
          collect = λ w. (w, failed []);
          cache_interval = none;
        };
        cache_interval = [];
      }
      ∷ [];
}

silent_error :
    get
      (refresh_all (map (λ e. e.provider) silent.entries) (new_datas_cache silent (pos 5), 0)).0
      []
      []
    ≡ document
        ((codes "timestamp", string []) ∷ (codes "timezone", string []) ∷ (codes "p", null) ∷ [])
unfolding get refresh_all new_datas_cache
silent_error = refl

-- the binary of the data plugin `disks`, and its signature
abbrev disk_path : Text
disk_path = codes "plugins/disks"

abbrev signed_disks : Text → Option Bytes
signed_disks p = if text_eq p disk_path then some (9 ∷ []) else some (times 64 16)

abbrev host : Host ℕ
host = record {
  is_windows = false;
  read_file = λ w. signed_disks;
  run = λ w path args t. (suc w, record { outcome = success; stdout = codes "7"; stderr = [] });
}

abbrev plugin : ExecDataPlugin
plugin = record {
  item = record {
    name = codes "disks";
    exec = codes "disks";
    args = [];
    timeout = [];
    cache_interval = [];
    enabled = true;
  };
  cfg = record { enabled = true; dir = codes "plugins"; default_timeout = []; items = [] };
  log_sec_done = false;
}

abbrev read_number : Text → Option Json
read_number s = some (number s)

delivers :
    (collect_data read_number toy build host plugin 0).result ≡ delivered (number (codes "7"))
unfolding collect_data
delivers = refl

collect_data-delivered_example :
    IsTrusted toy
      (as_metric_build build)
      build.allowed_data_plugins
      signed_disks
      (codes "disks")
      (resolve_data_binary false plugin)
    × (success ≡ success)
    × (read_number (codes "7") ≡ some (number (codes "7")))
collect_data-delivered_example =
    collect_data-delivered read_number toy build host plugin 0 (number (codes "7")) delivers

-- a build without data plugins
abbrev closed : Build
closed = record build { allowed_data_plugins = [] }

distrusted :
    ¬ IsTrusted toy
      (as_metric_build closed)
      closed.allowed_data_plugins
      signed_disks
      (codes "disks")
      (resolve_data_binary false plugin)
distrusted t = t.listed refl
