-- ===== src/Datas/Plugin/Gate.antt =====
-- internal/datas/plugin_exec.go: what stands in front of a run, and where the data come from.
use limiz.Base.{
  Text, [], ◌∷◌, none, some, Option, codes, ◌≡◌, ◌∙◌, refl, sym, ap, arith, Option-cases, inl, inr,
}
use limiz.Signing.{Bytes, Crypto, Build, PluginError}
use limiz.Plugins.{Host, RunResult, Outcome, success, timed_out, failure, runs}
use limiz.Collectors.Verify.{is_allowed_plugin, check_key, verify_plugin}
use limiz.Collectors.Verify.Trust.{IsTrusted, verify_plugin-eq-none_iff}
use limiz.Datas.Json.{Json}
use limiz.Datas.Plugin.{
  is_allowed_data_plugin, verify_data_plugin, ExecDataPlugin, resolve_data_binary, data_timeout,
  DataError, DataResult, refused, delivered, no_data, parse_output, after_data_run, collect_data,
}

-- a build whose metric plugins are its data plugins
abbrev pub as_metric_build : Build → Build
as_metric_build b = record b { allowed_plugins = b.allowed_data_plugins }

-- The verifier of data plugins is that of metric plugins, for a build that has the one list in place of
-- the other.
pub verify_data_plugin-eq :
    (c : Crypto) (b : Build) (read : Text → Option Bytes) (name path : Text)
    → verify_data_plugin c b read name path ≡ verify_plugin c (as_metric_build b) read name path
unfolding verify_data_plugin verify_plugin is_allowed_data_plugin is_allowed_plugin check_key
verify_data_plugin-eq c b read name path = refl

payload : Json → DataResult → Json
payload u (delivered v) = v
payload u (no_data e) = u

nothing-delivered : (e : DataError) (v : Json) → ¬ (no_data e ≡ delivered v)
nothing-delivered e v h = ground (arith, h)

module _ (unmarshal : Text → Option Json) where
  -- data comes from the output of a run that ended well
  after_data_run-delivered :
      (p : ExecDataPlugin) (o : Outcome) (stdout stderr : Text) (v : Json)
      → (after_data_run unmarshal p o stdout stderr).1 ≡ delivered v
      → (o ≡ success) × (unmarshal stdout ≡ some v)
  unfolding after_data_run parse_output payload
  after_data_run-delivered p success stdout stderr v h = elim (Option-cases (unmarshal stdout)) [
    | inl e ↦ absurd (ground (arith, h))
    | inr (u, e) ↦ (refl, e ∙ ap some (ap (payload u) (rw (after_data_run, parse_output, e) at h)))
  ]
  after_data_run-delivered p timed_out stdout stderr v h = absurd (ground (arith, h))
  after_data_run-delivered p failure stdout stderr v h = absurd (ground (arith, h))

  module _ {W : Type 0} (c : Crypto) (b : Build) (host : Host W) (p : ExecDataPlugin) (w : W) where
    abbrev path : Text
    path = resolve_data_binary host.is_windows p

    abbrev verdict : Option PluginError
    verdict = verify_data_plugin c b (host.read_file w) p.item.name path

    abbrev Trusted : Type 0
    Trusted =
        IsTrusted c (as_metric_build b) b.allowed_data_plugins (host.read_file w) p.item.name path

    abbrev run : RunResult
    run = (host.run w path (codes "--collect" ∷ p.item.args) (data_timeout p)).1

    trusted : verdict ≡ none → Trusted
    trusted h =
        (verify_plugin-eq-none_iff c (as_metric_build b) (host.read_file w) p.item.name path).0
          (sym (verify_data_plugin-eq c b (host.read_file w) p.item.name path) ∙ h)

    -- A data plugin that is not trusted runs nothing, leaves the world as it is and gives an error.
    pub collect_data-not-IsTrusted :
        ¬ Trusted
        → (runs (collect_data unmarshal c b host p w).events ≡ [])
          × ((collect_data unmarshal c b host p w).world ≡ w)
          × ((e : PluginError) × ((collect_data unmarshal c b host p w).result
                ≡ no_data (refused e)))
    unfolding collect_data runs
    collect_data-not-IsTrusted n = elim (Option-cases verdict) [
      | inl e ↦ absurd (n (trusted e))
      | inr (e, h) ↦ (ground arith, rw (collect_data, h) refl, (e, rw (collect_data, h) refl))
    ]

    -- Data that a plugin delivers is the JSON value that the output of a trusted binary spells, and the
    -- run of that binary has ended well.
    pub collect_data-delivered :
        (v : Json)
        → (collect_data unmarshal c b host p w).result ≡ delivered v
        → Trusted × (run.outcome ≡ success) × (unmarshal run.stdout ≡ some v)
    unfolding collect_data
    collect_data-delivered v h = elim (Option-cases verdict) [
      | inl e ↦
          let (ended, parsed) =
            after_data_run-delivered p run.outcome run.stdout run.stderr v
              (rw (collect_data, e) at h) in
          (trusted e, ended, parsed)
      | inr (e, k) ↦ absurd (nothing-delivered (refused e) v (rw (collect_data, k) at h))
    ]
