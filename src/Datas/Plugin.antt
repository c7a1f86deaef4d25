-- ===== src/Datas/Plugin.antt =====
-- internal/datas: plugin_verify.go, plugin_exec.go and plugin_config.go. What they have in common with
-- the metric plugins, line by line, is taken from there: the loop over the list's names, the check of the
-- signature, the name of the binary and the loop over the timeouts.
pub mod Gate
use limiz.Base.{
  Text, List, [], ◌∷◌, ◌++◌, Bool, true, false, not, none, some, Option, if◌then◌else◌, text_eq,
  codes, ℤ,
}
use limiz.Strings.Case.{contains_either}
use limiz.Strings.Split.{split}
use limiz.Filepath.{join_path}
use limiz.Signing.{Bytes, Crypto, Build, PluginError, not_allowed, no_public_key}
use limiz.Plugins.{
  Host, RunResult, Outcome, success, timed_out, failure, Event, rejected, executed, logged_timeout,
  logged_failure, logged_parse_error,
}
use limiz.Collectors.Verify.{is_listed, check_key}
use limiz.Collectors.Plugin.{exec_name, first_timeout, stderr_log}
use limiz.Datas.Json.{Json}

unfoldable pub is_allowed_data_plugin : Build → Text → Bool
unfolding is_listed split text_eq
is_allowed_data_plugin b name =
    if text_eq b.allowed_data_plugins []
    then false
    else is_listed name (split b',' b.allowed_data_plugins)

unfoldable pub verify_data_plugin :
    Crypto → Build → (Text → Option Bytes) → Text → Text → Option PluginError
unfolding is_allowed_data_plugin check_key text_eq
verify_data_plugin c b read name path =
    if not (is_allowed_data_plugin b name)
    then some (not_allowed name)
    else if text_eq b.embedded_public_key []
    then some no_public_key
    else check_key c b read name path

pub record DataPluginItem : Type 0 where
  pub name : Text
  pub exec : Text
  pub args : List Text
  pub timeout : Text
  pub cache_interval : Text
  pub enabled : Bool

pub record DataPluginsConfig : Type 0 where
  pub enabled : Bool
  pub dir : Text
  pub default_timeout : Text
  pub items : List DataPluginItem

-- `log_sec_done` is the state of `logSecOnce`.
pub record ExecDataPlugin : Type 0 where
  pub item : DataPluginItem
  pub cfg : DataPluginsConfig
  pub log_sec_done : Bool

unfoldable pub new_exec_data_plugin : DataPluginItem → DataPluginsConfig → ExecDataPlugin
new_exec_data_plugin item cfg = record { item = item; cfg = cfg; log_sec_done = false }

unfoldable pub resolve_data_binary : Bool → ExecDataPlugin → Text
unfolding exec_name contains_either join_path
resolve_data_binary is_windows p =
    let name = exec_name is_windows p.item.exec in
    if not (contains_either b'/' b'\\' name) then join_path p.cfg.dir name else name

unfoldable pub data_timeout : ExecDataPlugin → ℤ
unfolding first_timeout
data_timeout p = first_timeout (p.item.timeout ∷ p.cfg.default_timeout ∷ [])

pub data DataError : Type 0 where
  refused : PluginError → DataError
  run_failed : Outcome → DataError
  bad_json : DataError

pub data DataResult : Type 0 where
  delivered : Json → DataResult
  no_data : DataError → DataResult

-- what a call of `Collect` returns and does
pub record DataCollected (W : Type 0) : Type 0 where
  pub plugin : ExecDataPlugin
  pub world : W
  pub events : List Event
  pub result : DataResult

-- `unmarshal` is `json.Unmarshal` into a value of any type.
module _ (unmarshal : Text → Option Json) where
  parse_output : Text → Text → List Event × DataResult
  parse_output name stdout = elim (unmarshal stdout) [
    | none ↦ (logged_parse_error name ∷ [], no_data bad_json)
    | some v ↦ ([], delivered v)
  ]

  -- what follows the run, by how it ended
  after_data_run : ExecDataPlugin → Outcome → Text → Text → List Event × DataResult
  unfolding parse_output
  after_data_run p success stdout stderr = parse_output p.item.name stdout
  after_data_run p timed_out stdout stderr = (
    stderr_log p.item.name stderr ++ logged_timeout p.item.name (data_timeout p) ∷ [],
    no_data (run_failed timed_out),
  )
  after_data_run p failure stdout stderr = (
    stderr_log p.item.name stderr ++ logged_failure p.item.name ∷ [],
    no_data (run_failed failure),
  )

  module _ {W : Type 0} (c : Crypto) (b : Build) (host : Host W) where
    unfoldable pub collect_data : ExecDataPlugin → W → DataCollected W
    unfolding after_data_run resolve_data_binary data_timeout verify_data_plugin
    collect_data p w =
        let path = resolve_data_binary host.is_windows p in
        elim (verify_data_plugin c b (host.read_file w) p.item.name path) [
          | some e ↦ record {
            plugin = record p { log_sec_done = true };
            world = w;
            events = if p.log_sec_done then [] else rejected p.item.name e ∷ [];
            result = no_data (refused e);
          }
          | none ↦
              let args = codes "--collect" ∷ p.item.args in
              let (w', r) = host.run w path args (data_timeout p) in
              let (events, result) = after_data_run p r.outcome r.stdout r.stderr in
              record {
                plugin = p;
                world = w';
                events = executed path args (data_timeout p) ∷ events;
                result = result;
              }
        ]
