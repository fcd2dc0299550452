-- ===== src/Telemetry.antt =====
-- crates/dekopon-console/src/telemetry.rs, and `run_console` of main.rs, which starts the telemetry
-- before the console and ends it after. Reading a file, its parser, the exporter's settings and the
-- subscriber are the libraries' (`Backend`); a provider is a number.
pub mod Ends
use dekopon_console.Base.{
  ℕ, zero, suc, ◌≡◌, ◌⊎◌, ◌↔◌, inl, inr, Bool-cases, Option-cases, is_some, refl, ap, ◌∙◌, sym,
  Bool, true, false, not, List, [], ◌∷◌, ◌++◌, Option, none, some, Text, codes, ltb, if◌then◌else◌,
  arith,
}
use dekopon_console.Assets.{Result, ok, err}

pub data TelemetryError : Type 0 where
  read parse settings install shutdown : TelemetryError

-- `Config` of the file, with the defaults of the missing keys; the transport is its name.
pub record Config : Type 0 where
  pub endpoint : Text
  pub transport : Option Text
  pub service_name : Option Text
  pub export_timeout_ms : Option ℕ

-- The console's layer: colours, targets, and the filter of what goes to the error stream.
pub record Console : Type 0 where
  pub ansi : Bool
  pub target : Bool
  pub filter : Text

-- What `Install` is given: the layer, the logs with the time for shutting down, the traces.
pub record Install : Type 0 where
  pub console : Console
  pub logs : Option (ℕ × ℕ)
  pub traces : ℕ

pub record Backend : Type 0 where
  pub read_to_string : Text → Option Text
  pub from_str : Text → Option Config
  -- `ExporterSettings::new` on endpoint, transport, service and milliseconds.
  pub accepts : Text → Text → Text → ℕ → Bool
  pub tracer_provider : Option ℕ
  pub logger_provider : Option ℕ
  -- `SdkTracerProvider::builder().build()`.
  pub local_provider : ℕ
  pub installs : Install → Bool
  pub stderr_is_terminal : Bool

unfoldable pub default_of {ℓ} : {A : Type ℓ} → A → Option A → A
default_of d none = d
default_of d (some a) = a

-- `settings`: the time for exports.
unfoldable pub validated : Backend → Option Config → Result TelemetryError ℕ
unfolding default_of
validated b none = err parse
validated b (some c) =
    let timeout = default_of 5000 c.export_timeout_ms in
    if b.accepts c.endpoint (default_of (codes "grpc") c.transport)
      (default_of (codes "dekopon-console") c.service_name) timeout
    then ok timeout
    else err settings

unfoldable pub parsed : Backend → Option Text → Result TelemetryError ℕ
unfolding validated
parsed b none = err read
parsed b (some text) = validated b (b.from_str text)

unfoldable pub settings_of : Backend → Option Text → Result TelemetryError (Option ℕ)
unfolding parsed
settings_of b none = ok none
settings_of b (some path) = elim (parsed b (b.read_to_string path)) [
  | ok timeout ↦ ok (some timeout)
  | err e ↦ err e
]

unfoldable pub level : ℕ → Text
unfolding codes
level zero = codes "warn"
level (suc zero) = codes "info"
level (suc (suc n)) = codes "debug"

unfoldable pub console_of : Backend → ℕ → Bool → Console
unfolding level
console_of b verbosity no_color = record {
  ansi = not no_color;
  target = ltb 1 verbosity;
  filter = if b.stderr_is_terminal then codes "off" else level verbosity;
}

-- The guard is what was installed; the providers that were shut down stand beside it.
unfoldable pub finish_install : Backend → Install → Result TelemetryError Install × List ℕ
finish_install b i = if b.installs i then (ok i, []) else (err install, [])

unfoldable pub with_logs :
    Backend → Console → ℕ → ℕ → Option ℕ → Result TelemetryError Install × List ℕ
unfolding finish_install
with_logs b console timeout provider none = (err install, provider ∷ [])
with_logs b console timeout provider (some logs) =
    finish_install b (record { console = console; logs = some (logs, timeout); traces = provider })

unfoldable pub exported : Backend → Console → ℕ → Option ℕ → Result TelemetryError Install × List ℕ
unfolding with_logs
exported b console timeout none = (err install, [])
exported b console timeout (some provider) = with_logs b console timeout provider b.logger_provider

unfoldable pub started :
    Backend → Console → Result TelemetryError (Option ℕ) → Result TelemetryError Install × List ℕ
unfolding exported finish_install
started b console (err e) = (err e, [])
started b console (ok none) =
    finish_install b (record { console = console; logs = none; traces = b.local_provider })
started b console (ok (some timeout)) = exported b console timeout b.tracer_provider

-- `initialize`.
unfoldable pub initialize :
    Backend → Option Text → ℕ → Bool → Result TelemetryError Install × List ℕ
unfolding started settings_of console_of
initialize b path verbosity no_color =
    started b (console_of b verbosity no_color) (settings_of b path)

-- `ConsoleError`, as far as `run_console` tells its causes apart.
pub data RunError (E : Type 0) : Type 0 where
  runtime : RunError E
  telemetry : TelemetryError → RunError E
  console : E → RunError E

-- What `run_console` did, in order.
pub data Act : Type 0 where
  executed : Act
  shut_down : Install → Act
  stopped_runtime : Bool → Act

-- `result?` and then `shutdown?`; a result without a value is its error, if it has one.
unfoldable pub ended : {E : Type 0} → Option E → Bool → Option (RunError E)
ended (some e) flushed = some (console e)
ended none true = none
ended none false = some (telemetry shutdown)

unfoldable pub ran :
    {E : Type 0}
    → Result TelemetryError Install
    → Bool
    → Option E
    → Bool
    → Option (RunError E) × List Act
unfolding ended
ran (err e) structured result flushed = (some (telemetry e), [])
ran (ok i) structured result flushed =
    (ended result flushed, executed ∷ shut_down i ∷ stopped_runtime structured ∷ [])

-- `run_console`, on whether the runtime is built, on what `execute` gives and on whether the exporters
-- flush; the runtime waits for its tasks unless the console was a structured one.
unfoldable pub run_console :
    {E : Type 0}
    → Backend
    → Option Text
    → ℕ
    → Bool
    → Bool
    → Bool
    → Option E
    → Bool
    → Option (RunError E) × List Act
unfolding ran initialize
run_console b path verbosity no_color structured is_built result flushed =
    if is_built
    then ran (initialize b path verbosity no_color).0 structured result flushed
    else (some runtime, [])
