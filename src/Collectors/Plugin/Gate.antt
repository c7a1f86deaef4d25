-- ===== src/Collectors/Plugin/Gate.antt =====
-- internal/collectors/plugin_exec.go: what stands in front of a run, and the log of the rejections.
use limiz.Base.{
  ◌+◌, Text, List, [], ◌∷◌, ◌++◌, Bool, true, false, none, some, Option, codes, ◌≡◌, ◌∙◌, inl, inr,
  refl, arith, Option-cases, if◌then◌else◌,
}
use limiz.Floats.{Floats}
use limiz.Signing.{Crypto, Build, PluginError}
use limiz.Plugins.{
  Host, Outcome, success, timed_out, failure, Event, runs, rejections, rejections-append,
}
use limiz.Collectors.Metric.{Metric}
use limiz.Collectors.Plugin.{
  or_warning, ExecPlugin, collect, after_run, resolve_binary, timeout, stderr_log,
}
use limiz.Collectors.Verify.{verify_plugin}
use limiz.Collectors.Verify.Trust.{IsTrusted, verify_plugin-eq-none_iff}

-- the error's log lines are neither runs nor rejections
stderr_log-quiet :
    (name s : Text) (es : List Event)
    → (runs (stderr_log name s ++ es) ≡ runs es)
      × (rejections (stderr_log name s ++ es) ≡ rejections es)
unfolding runs rejections
stderr_log-quiet name [] es = (refl, refl)
stderr_log-quiet name (c ∷ s) es = (refl, refl)

module _ (fl : Floats) where
  open fl use {F}

  or_warning-quiet :
      (name : Text) (ms : List (Metric F))
      → (runs (or_warning fl name ms).0 ≡ []) × (rejections (or_warning fl name ms).0 ≡ 0)
  unfolding or_warning runs rejections
  or_warning-quiet name [] = (refl, refl)
  or_warning-quiet name (m ∷ ms) = (refl, refl)

  after_run-quiet :
      (p : ExecPlugin) (o : Outcome) (stdout stderr : Text)
      → (runs (after_run fl p o stdout stderr).0 ≡ [])
        × (rejections (after_run fl p o stdout stderr).0 ≡ 0)
  unfolding after_run runs rejections
  after_run-quiet p success stdout stderr = or_warning-quiet p.item.name _
  after_run-quiet p timed_out stdout stderr = stderr_log-quiet p.item.name stderr _
  after_run-quiet p failure stdout stderr = stderr_log-quiet p.item.name stderr _

module _ (fl : Floats) {W : Type 0} (c : Crypto) (b : Build) (host : Host W) where
  open fl use {F}

  -- the verifier's answer for a plugin, in the world in which it is asked
  abbrev verdict : ExecPlugin → W → Option PluginError
  verdict p w = verify_plugin c b (host.read_file w) p.item.name (resolve_binary host.is_windows p)

  runs-accepted :
      (p : ExecPlugin) (w : W)
      → verdict p w ≡ none
      → runs (collect fl c b host p w).events
        ≡ (resolve_binary host.is_windows p, codes "--collect" ∷ p.item.args, timeout p) ∷ []
  unfolding collect runs
  runs-accepted p w h = rw (h, collect) (rw (after_run-quiet fl p _ _ _).0)

  refused :
      (p : ExecPlugin) (w : W) (e : PluginError)
      → verdict p w ≡ some e
      → (runs (collect fl c b host p w).events ≡ [])
        × ((collect fl c b host p w).world ≡ w)
        × ((collect fl c b host p w).metrics ≡ [])
  unfolding collect runs
  refused p w e h = ground arith

  abbrev Trusted : ExecPlugin → W → Type 0
  Trusted p w =
      IsTrusted c b b.allowed_plugins (host.read_file w) p.item.name
        (resolve_binary host.is_windows p)

  -- A call of `Collect` on a trusted plugin runs one binary, once: the one at the resolved path, with
  -- `--collect` in front of the configured arguments and under the plugin's timeout.
  pub collect-IsTrusted :
      (p : ExecPlugin) (w : W)
      → Trusted p w
      → runs (collect fl c b host p w).events
        ≡ (resolve_binary host.is_windows p, codes "--collect" ∷ p.item.args, timeout p) ∷ []
  collect-IsTrusted p w t = runs-accepted p w (
      (verify_plugin-eq-none_iff c b (host.read_file w) p.item.name
          (resolve_binary host.is_windows p)).1
        t)

  -- A call of `Collect` on a plugin that is not trusted runs nothing, leaves the world as it is and
  -- returns no metric.
  pub collect-not-IsTrusted :
      (p : ExecPlugin) (w : W)
      → ¬ Trusted p w
      → (runs (collect fl c b host p w).events ≡ [])
        × ((collect fl c b host p w).world ≡ w)
        × ((collect fl c b host p w).metrics ≡ [])
  collect-not-IsTrusted p w n = elim (Option-cases (verdict p w)) [
    | inl e ↦ absurd (
        n (
          (verify_plugin-eq-none_iff c b (host.read_file w) p.item.name
              (resolve_binary host.is_windows p)).0
            e))
    | inr (e, h) ↦ refused p w e h
  ]

  -- calls in turn, each in a world of its own, with the plugin that the call before it left
  unfoldable pub calls : ExecPlugin → List W → List Event
  unfolding collect
  calls p [] = []
  calls p (w ∷ ws) = let r = collect fl c b host p w in r.events ++ calls r.plugin ws

  unfoldable pub any_refused : ExecPlugin → List W → Bool
  any_refused p [] = false
  any_refused p (w ∷ ws) = elim (verdict p w) [ some e ↦ true | none ↦ any_refused p ws ]

  plugin-accepted :
      (p : ExecPlugin) (w : W) → verdict p w ≡ none → (collect fl c b host p w).plugin ≡ p
  unfolding collect
  plugin-accepted p w h = rw (h, collect)

  rejections-accepted :
      (p : ExecPlugin) (w : W)
      → verdict p w ≡ none
      → rejections (collect fl c b host p w).events ≡ 0
  unfolding collect rejections
  rejections-accepted p w h = rw (h, collect) (after_run-quiet fl p _ _ _).1

  -- `logSecOnce` is done after the first rejection
  abbrev after_refusal : ExecPlugin → ExecPlugin
  after_refusal p = record p { log_sec_done = true }

  plugin-refused :
      (p : ExecPlugin) (w : W) (e : PluginError)
      → verdict p w ≡ some e
      → (collect fl c b host p w).plugin ≡ after_refusal p
  unfolding collect
  plugin-refused p w e h = rw (h, collect)

  rejections-refused :
      (p : ExecPlugin) (w : W) (e : PluginError)
      → verdict p w ≡ some e
      → rejections (collect fl c b host p w).events ≡ (if p.log_sec_done then 0 else 1)
  unfolding collect rejections
  rejections-refused p w e h = ground arith

  any_refused-cons :
      (p : ExecPlugin) (w : W) (ws : List W) (e : PluginError)
      → verdict p w ≡ some e
      → any_refused p (w ∷ ws) ≡ true
  unfolding any_refused
  any_refused-cons p w ws e h = rw (h, any_refused)

  calls-cons :
      (p : ExecPlugin) (w : W) (ws : List W)
      → rejections (calls p (w ∷ ws))
        ≡ rejections (collect fl c b host p w).events
          + rejections (calls (collect fl c b host p w).plugin ws)
  calls-cons p w ws = unfold calls in rejections-append (collect fl c b host p w).events _

  rejections-calls_done :
      (p : ExecPlugin) (ws : List W) → p.log_sec_done ≡ true → rejections (calls p ws) ≡ 0
  rejections-calls_done p [] d = unfold calls rejections in refl
  rejections-calls_done p (w ∷ ws) d = calls-cons p w ws ∙ elim (Option-cases (verdict p w)) [
    | inl e ↦
        rw (rejections-accepted p w e, plugin-accepted p w e)
          (omega (arith, rejections-calls_done p ws d))
    | inr (x, e) ↦
        rw (rejections-refused p w x e, plugin-refused p w x e, d)
          (omega (arith, rejections-calls_done (after_refusal p) ws refl))
  ]

  -- However often `Collect` is called on a new plugin, a rejection is logged once if some call is
  -- rejected, and never otherwise.
  pub rejections-calls :
      (p : ExecPlugin) (ws : List W)
      → p.log_sec_done ≡ false
      → rejections (calls p ws) ≡ (if any_refused p ws then 1 else 0)
  unfolding any_refused
  rejections-calls p [] d = unfold calls rejections any_refused in refl
  rejections-calls p (w ∷ ws) d = calls-cons p w ws ∙ elim (Option-cases (verdict p w)) [
    | inl e ↦
        rw (rejections-accepted p w e, plugin-accepted p w e, any_refused, e)
          (omega (arith, rejections-calls p ws d))
    | inr (x, e) ↦
        rw (any_refused-cons p w ws x e, rejections-refused p w x e, plugin-refused p w x e, d)
          (omega (arith, rejections-calls_done (after_refusal p) ws refl))
  ]
