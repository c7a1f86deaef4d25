-- ===== src/Collectors/Plugin.antt =====
-- internal/collectors/plugin_exec.go and plugin_config.go: a plugin's binary as a collector.
pub mod Gate
pub mod Timeout
use limiz.Base.{
  ℕ, ◌*◌, Text, List, [], ◌∷◌, ◌++◌, Bool, true, false, not, ◌&&◌, none, some, Option,
  if◌then◌else◌, ◌==◌, text_eq, codes, ℤ, pos, negsuc, ltb_ℤ,
}
use limiz.Strings.Affix.{has_suffix}
use limiz.Strings.Case.{to_lower, contains_either}
use limiz.Strings.Trim.{trim_space}
use limiz.Time.Duration.{parse_duration, second}
use limiz.Filepath.{join_path}
use limiz.Floats.{Floats}
use limiz.Signing.{Crypto, Build, PluginError}
use limiz.Plugins.{
  Host, RunResult, Outcome, success, timed_out, failure, Event, rejected, executed, logged_stderr,
  logged_timeout, logged_failure, logged_empty,
}
use limiz.Collectors.Metric.{Metric}
use limiz.Collectors.Parser.{parse_prometheus_text}
use limiz.Collectors.Verify.{verify_plugin}

pub record PluginItem : Type 0 where
  pub name : Text
  pub exec : Text
  pub args : List Text
  pub timeout : Text
  pub enabled : Bool

pub record PluginsConfig : Type 0 where
  pub enabled : Bool
  pub dir : Text
  pub default_timeout : Text
  pub items : List PluginItem

-- `log_sec_done` is the state of `logSecOnce`.
pub record ExecPlugin : Type 0 where
  pub item : PluginItem
  pub cfg : PluginsConfig
  pub log_sec_done : Bool

unfoldable pub new_exec_plugin : PluginItem → PluginsConfig → ExecPlugin
new_exec_plugin item cfg = record { item = item; cfg = cfg; log_sec_done = false }

unfoldable pub exec_name : Bool → Text → Text
unfolding has_suffix to_lower
exec_name is_windows exec =
    if is_windows && not (has_suffix (codes ".exe") (to_lower exec))
    then exec ++ codes ".exe"
    else exec

unfoldable pub resolve_binary : Bool → ExecPlugin → Text
unfolding exec_name contains_either join_path
resolve_binary is_windows p =
    let name = exec_name is_windows p.item.exec in
    if not (contains_either b'/' b'\\' name) then join_path p.cfg.dir name else name

-- the loop over the candidates; an empty, malformed or non-positive one is passed over
unfoldable pub first_timeout : List Text → ℤ
unfolding parse_duration text_eq
first_timeout [] = pos (10 * second)
first_timeout (s ∷ rest) = if text_eq s [] then first_timeout rest else elim (parse_duration s) [
  | none ↦ first_timeout rest
  | some d ↦ if ltb_ℤ (pos 0) d then d else first_timeout rest
]

unfoldable pub timeout : ExecPlugin → ℤ
unfolding first_timeout
timeout p = first_timeout (p.item.timeout ∷ p.cfg.default_timeout ∷ [])

abbrev pub stderr_log : Text → Text → List Event
stderr_log name [] = []
stderr_log name (c ∷ s) = logged_stderr name (trim_space (c ∷ s)) ∷ []

-- what a call of `Collect` returns and does
pub record Collected (W F : Type 0) : Type 0 where
  pub plugin : ExecPlugin
  pub world : W
  pub events : List Event
  pub metrics : List (Metric F)

module _ (fl : Floats) where
  open fl use {F}

  -- a run without metrics gets a warning
  or_warning : Text → List (Metric F) → List Event × List (Metric F)
  or_warning name [] = (logged_empty name ∷ [], [])
  or_warning name (m ∷ ms) = ([], m ∷ ms)

  -- what follows the run, by how it ended
  after_run : ExecPlugin → Outcome → Text → Text → List Event × List (Metric F)
  unfolding or_warning parse_prometheus_text trim_space
  after_run p success stdout stderr = or_warning p.item.name (parse_prometheus_text fl stdout)
  after_run p timed_out stdout stderr =
      (stderr_log p.item.name stderr ++ logged_timeout p.item.name (timeout p) ∷ [], [])
  after_run p failure stdout stderr =
      (stderr_log p.item.name stderr ++ logged_failure p.item.name ∷ [], [])

module _ (fl : Floats) {W : Type 0} (c : Crypto) (b : Build) (host : Host W) where
  open fl use {F}

  unfoldable pub collect : ExecPlugin → W → Collected W F
  unfolding after_run resolve_binary timeout verify_plugin
  collect p w =
      let path = resolve_binary host.is_windows p in
      elim (verify_plugin c b (host.read_file w) p.item.name path) [
        | some e ↦ record {
          plugin = record p { log_sec_done = true };
          world = w;
          events = if p.log_sec_done then [] else rejected p.item.name e ∷ [];
          metrics = [];
        }
        | none ↦
            let args = codes "--collect" ∷ p.item.args in
            let (w', r) = host.run w path args (timeout p) in
            let (events, metrics) = after_run fl p r.outcome r.stdout r.stderr in
            record {
              plugin = p;
              world = w';
              events = executed path args (timeout p) ∷ events;
              metrics = metrics;
            }
      ]
