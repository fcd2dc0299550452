-- ===== src/Tests/Turns.antt =====
-- A turn's task at concrete inputs.
use dekopon_console.Base.{
  ℕ, suc, ◌≡◌, refl, arith, true, false, [], ◌∷◌, none, some, codes, map, ◌<◌,
}
use dekopon_console.Record.{CallResult, send}
use dekopon_console.Record.Recorder.{Channel, recording, sequence_end}
use dekopon_console.Record.Seam.{Lib, Invoker, Request, ask_all}
use dekopon_console.Record.Transparent.{ask_all-recording}
use dekopon_console.Redact.Value.{string}
use dekopon_console.Session.Turn.{runs, uses, Inputs, Play, outcome, played, result_of}
use dekopon_console.Session.Turn.Asked.{absorb_all, count_calls}
use dekopon_console.Session.Turn.Rebuilt.{shown, performed, ordinals, played-absorb}
use dekopon_console.Transcript.Exchange.{opened, final_status}

abbrev plain_lib : Lib
plain_lib = record {
  Job = Unit;
  Streams = Unit;
  Description = Unit;
  Run = Unit;
  Detail = Unit;
  Intent = Unit;
}

-- It counts the calls, and refuses them all.
abbrev counting : Invoker plain_lib ℕ
counting = record {
  cancelled = λ s. false;
  script_started = λ timeout s. s;
  job_control = λ s. none;
  granted = λ s. codes "mail.read" ∷ [];
  is_granted = λ c s. true;
  command_words = λ s. [];
  command_word_help = λ s. [];
  has_command_word = λ w s. false;
  note = λ text eta s. s;
  describe = λ c s. none;
  run_command = λ word argv stdin s. (none, s);
  script_finished = λ s. s;
  invoke = λ p streams s. (CallResult.not_found, suc s);
}

abbrev read_mail : Request plain_lib
read_mail =
    Request.invoke
      (record { capability = codes "mail.read"; input = string (codes "1"); intent = tt }) tt

-- One script, with one call.
abbrev one_script : Play plain_lib ℕ ℕ
one_script = record {
  requests = λ script s. Request.granted ∷ read_mail ∷ [];
  script_outcome = λ script s. record {
    output = codes "no";
    exit_code = 1;
    truncated = false;
    capability_calls = 1;
    steps = 1;
  };
  used = λ s. s;
  acts = λ inputs history s. runs (codes "mail 1") ∷ uses none ∷ [];
  ending = λ inputs history s. outcome (record { answer = codes "done"; disposition = send });
  history_after = λ inputs history s. suc history;
  session_invoker = λ direct leg. leg;
  defaults = counting;
  uses_secret = λ i. false;
  unsupported = CallResult.not_found;
  effective = λ s. [];
  elapsed = λ s t. 5;
  parse_agent = some;
  skills_of = λ agent. [];
}

ask_all-recording_example :
    ((ask_all plain_lib
        (recording plain_lib (λ s t. 5) counting)
        (read_mail ∷ [])
        (0, record { channel = record { sent = []; is_open = true }; sequence = 0 })).0
      ≡ (ask_all plain_lib counting (read_mail ∷ []) 0).0)
    × ((ask_all plain_lib
          (recording plain_lib (λ s t. 5) counting)
          (read_mail ∷ [])
          (0, record { channel = record { sent = []; is_open = true }; sequence = 0 })).1.0
        ≡ (ask_all plain_lib counting (read_mail ∷ []) 0).1)
ask_all-recording_example =
    ask_all-recording plain_lib (λ s t. 5) counting (read_mail ∷ []) 0
      (record { channel = record { sent = []; is_open = true }; sequence = 0 })

abbrev given : Inputs
given = record {
  prompt = codes "read it";
  max_steps = 8;
  max_capability_calls = 16;
  system = none;
  skills = [];
  config = record {
    name = codes "mail";
    description = [];
    system = none;
    max_steps = 8;
    max_capability_calls = 16;
    effective = [];
    skills = [];
  };
}

abbrev listening : Channel
listening = record { sent = []; is_open = true }

few_ordinals : ordinals plain_lib one_script counting (one_script.acts given 0 0) 0 < sequence_end
unfolding ordinals count_calls
few_ordinals = omega arith

played-absorb_example :
    (map shown
        (absorb_all
          (played plain_lib one_script counting given 0 0 listening).1.1.sent
          (opened 1 (codes "read it"))).scripts
      ≡ performed plain_lib one_script counting (one_script.acts given 0 0) 0)
    × ((absorb_all
          (played plain_lib one_script counting given 0 0 listening).1.1.sent
          (opened 1 (codes "read it"))).status
        ≡ final_status (result_of (one_script.ending given 0 0)))
played-absorb_example =
    played-absorb plain_lib one_script counting given 0 0 listening 1 (codes "read it") refl refl
      few_ordinals
