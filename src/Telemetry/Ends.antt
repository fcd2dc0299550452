-- ===== src/Telemetry/Ends.antt =====
-- What the telemetry writes where, and how a run of the console ends.
use dekopon_console.Base.{
  ℕ, ◌≡◌, ◌⊎◌, ◌↔◌, inl, inr, Bool-cases, Option-cases, is_some, refl, ap, ◌∙◌, sym, Bool, true,
  false, List, [], ◌∷◌, Option, none, some, Text, codes, arith,
}
use dekopon_console.Assets.{Result, ok, err}
use dekopon_console.Telemetry.{
  TelemetryError, Console, Install, Backend, parsed, settings_of, console_of, finish_install,
  with_logs, exported, started, initialize, RunError, console, Act, executed, shut_down,
  stopped_runtime, ended, ran, run_console,
}

finish_install-Install : (b : Backend) (i j : Install) → (finish_install b i).0 ≡ ok j → i ≡ j
unfolding finish_install
finish_install-Install b i j h = elim (Bool-cases (b.installs i)) [
  | inl taken ↦ ground (arith, rw taken at h)
  | inr no_way ↦ ground (arith, rw no_way at h)
]

exported-console :
    (b : Backend) (c : Console) (timeout : ℕ) (o : Option ℕ) (i : Install)
    → (exported b c timeout o).0 ≡ ok i
    → (i.console ≡ c) × (is_some i.logs ≡ true)
unfolding exported with_logs
exported-console b c timeout none i h = ground (arith, h)
exported-console b c timeout (some provider) i h = elim (Option-cases b.logger_provider) [
  | inl absent ↦ ground (arith, rw absent at h)
  | inr (logs, found) ↦
      let same =
        finish_install-Install b
          (record { console = c; logs = some (logs, timeout); traces = provider }) i
          (rw found at h) in
      (ap (λ (j : Install). j.console) (sym same), ap (λ (j : Install). is_some j.logs) (sym same))
]

started-console :
    (b : Backend) (c : Console) (r : Result TelemetryError (Option ℕ)) (i : Install)
    → (started b c r).0 ≡ ok i
    → (o : Option ℕ) × (r ≡ ok o) × (i.console ≡ c) × (is_some i.logs ≡ is_some o)
unfolding started
started-console b c (err e) i h = ground (arith, h)
started-console b c (ok none) i h =
    let same =
      finish_install-Install b (record { console = c; logs = none; traces = b.local_provider }) i
        h in
    (
      none,
      refl,
      ap (λ (j : Install). j.console) (sym same),
      ap (λ (j : Install). is_some j.logs) (sym same),
    )
started-console b c (ok (some timeout)) i h =
    let both = exported-console b c timeout b.tracer_provider i h in
    (some timeout, refl, both.0, both.1)

settings_of-path :
    (b : Backend) (path : Option Text) (o : Option ℕ)
    → settings_of b path ≡ ok o
    → is_some o ≡ is_some path
unfolding settings_of
settings_of-path b none o h = ground (arith, h)
settings_of-path b (some path) o h = go (parsed b (b.read_to_string path)) h
  where
    go :
        (r : Result TelemetryError ℕ)
        → (elim r [ ok timeout ↦ ok (some timeout) | err e ↦ err e ]) ≡ ok o
        → is_some o ≡ true
    go (ok timeout) k = ground (arith, k)
    go (err e) k = ground (arith, k)

-- What is installed never writes diagnostics to an error stream that is a terminal, and it exports
-- logs just where a configuration file was given.
pub initialize-Quiet :
    (b : Backend) (path : Option Text) (verbosity : ℕ) (no_color : Bool) (i : Install)
    → (initialize b path verbosity no_color).0 ≡ ok i
    → (b.stderr_is_terminal ≡ true → i.console.filter ≡ codes "off")
      × (is_some i.logs ≡ is_some path)
unfolding initialize console_of
initialize-Quiet b path verbosity no_color i h =
    let (o, e, same, logs) =
      started-console b (console_of b verbosity no_color) (settings_of b path) i h in
    (
      λ terminal. ap (λ (c : Console). c.filter) same ∙ rw terminal refl,
      logs ∙ settings_of-path b path o e,
    )

module _ {E : Type 0} where
  abbrev pub IsRun : Bool → Option E → Bool → Install → Option (RunError E) × List Act → Type 0
  IsRun structured result flushed i run =
      (run.1 ≡ executed ∷ shut_down i ∷ stopped_runtime structured ∷ [])
      × ((run.0 ≡ none) ↔ ((result ≡ none) × (flushed ≡ true)))
      × ((e : E) → result ≡ some e → run.0 ≡ some (console e))

  ran-IsRun :
      (r : Result TelemetryError Install) (structured : Bool) (result : Option E) (flushed : Bool)
      → ((i : Install) × (r ≡ ok i)
          × IsRun structured result flushed i (ran r structured result flushed))
        ⊎ ((is_some (ran r structured result flushed).0 ≡ true)
            × ((ran r structured result flushed).1 ≡ []))
  unfolding ran ended
  ran-IsRun (err e) structured result flushed = inr (refl, refl)
  ran-IsRun (ok i) structured (some e) flushed = inl (
    i,
    refl,
    (
      refl,
      ((λ h. ground (arith, h)), λ h. ground (arith, h.0)),
      λ d h. ap (λ o. elim o [ none ↦ some (console e) | some x ↦ some (console x) ]) h,
    ),
  )
  ran-IsRun (ok i) structured none true =
      inl (i, refl, (refl, ((λ h. (refl, refl)), λ h. refl), λ d h. ground (arith, h)))
  ran-IsRun (ok i) structured none false = inl (
    i,
    refl,
    (refl, ((λ h. ground (arith, h)), λ h. ground (arith, h.1)), λ d h. ground (arith, h)),
  )

  -- Either the console was run and then, however it ended, the telemetry that was installed was shut
  -- down and the runtime after it, the run succeeds just when the console did and the exporters
  -- flushed, and a failure of the console is the one that is told; or nothing was run, and the run fails.
  pub run_console-IsRun :
      (b : Backend) (path : Option Text) (verbosity : ℕ) (no_color structured is_built : Bool)
      (result : Option E) (flushed : Bool)
      → let run = run_console b path verbosity no_color structured is_built result flushed in
        ((i : Install) × ((initialize b path verbosity no_color).0 ≡ ok i)
          × IsRun structured result flushed i run)
        ⊎ ((is_some run.0 ≡ true) × (run.1 ≡ []))
  unfolding run_console
  run_console-IsRun b path verbosity no_color structured true result flushed =
      ran-IsRun (initialize b path verbosity no_color).0 structured result flushed
  run_console-IsRun b path verbosity no_color structured false result flushed = inr (refl, refl)
