-- ===== src/Mm/Runner.antt =====
-- internal/mm/runner: `Run` of runner.go, over `runWithPTY`, `runInjected` and `runAttached`. What the
-- process of a backend does is an argument. The callbacks, which only show what happens, and the times
-- of the events are left out. The transcript is valid UTF-8.

pub mod Launches
use Prim.Native.Char.{Char, code}
use Prim.Native.String
use modelo_man.Base.{
  ℕ, ◌+◌, ℤ, pos, negsuc, String, Bool, true, false, ◌||◌, Option, none, some, List, [], ◌∷◌, ◌++◌,
  ◌==◌, ◌<>◌, ltb_ℤ, is_found, strip_prefix, trim_space, length, Bytes, utf8, if◌then◌else◌,
}
use modelo_man.Service.Common.{lower_text}
use modelo_man.Mm.Transcript.{CappedBuffer, new_capped_buffer, write_all}

-- How a backend is started.
pub data Mode : Type 0 where
  pty stdin attached : Mode

abbrev mode_name : Mode → String
mode_name pty = "pty"
mode_name stdin = "stdin"
mode_name attached = "attached"

-- The data of an event.
pub data Detail : Type 0 where
  no_data : Detail
  of_error : String → Detail
  of_start : (backend mode : String) → Detail
  of_prompt : (bytes : ℕ) → Detail
  of_exit : (exit_code : ℤ) → Detail

-- `Event`.
pub record RunnerEvent : Type 0 where
  pub event_type : String
  pub message : String
  pub detail : Detail

abbrev event : String → String → Detail → RunnerEvent
event event_type message detail = record {
  event_type = event_type;
  message = message;
  detail = detail;
}

-- `Result`; `duration_ms` is the duration in milliseconds.
pub record RunnerResult : Type 0 where
  pub exit_code : ℤ
  pub failure : Option String
  pub events : List RunnerEvent
  pub transcript : String
  pub transcript_truncated : Bool
  pub duration_ms : ℤ

-- `Options`, without the streams and the callbacks.
pub record Options : Type 0 where
  pub backend : String
  pub repo_dir : String
  pub prompt : String
  pub use_pty : Bool
  pub capture_transcript : Bool
  pub max_transcript_bytes : ℤ
  pub forward_input : Bool

-- What comes of starting the command: no pipe for its input, no process, or one that ends. Of a process
-- we see whether it takes the prompt, what is read of its output until the result is made, the error of
-- `Wait` and its exit code.
pub data Process : Type 0 where
  no_pipe : String → Process
  not_started : String → Process
  exited :
      (takes_prompt : Bool) → List Bytes → (failure : Option String) → (exit_code : ℤ) → Process

-- What a run meets: whether this build has pseudo-terminals, the processes, by the mode, the command,
-- the directory and the prompt that is written to them, and `unicode.ToLower`.
pub record Machine : Type 0 where
  pub has_pty : Bool
  pub process : Mode → String → String → Option String → Process
  pub lower : Char → Char
  pub text_of : Bytes → String
  pub elapsed_ms : ℤ

-- A command that is started, with the prompt that is written to its input.
pub record Launch : Type 0 where
  pub mode : Mode
  pub prompt : Option String

-- An error: that of the build without pseudo-terminals, or another.
pub data Failure : Type 0 where
  pty_unsupported : Failure
  failed : String → Failure

unfoldable pub failure_text : Failure → String
failure_text pty_unsupported = "pty execution is not supported on this platform"
failure_text (failed e) = e

abbrev failed_with : Option String → Option Failure
failed_with none = none
failed_with (some e) = some (failed e)

-- What one way of starting the backend ends with: the code, the events and the error that it returns,
-- the transcript after it, and what it started.
pub record Ended : Type 0 where
  pub code : ℤ
  pub events : List RunnerEvent
  pub failure : Option Failure
  pub transcript : CappedBuffer
  pub launches : List Launch

abbrev minus_one : ℤ
minus_one = negsuc 0

-- The prompt of the options, where it is not blank; what is written is this with a line feed.
unfoldable pub prompt_of : Options → Option String
prompt_of o = if trim_space o.prompt == "" then none else some (trim_space o.prompt)

abbrev exit_event : ℤ → RunnerEvent
exit_event exit_code = event "backend_ended" "backend process exited" (of_exit exit_code)

abbrev start_event : Options → Mode → String → RunnerEvent
start_event o mode message = event "backend_started" message (of_start o.backend (mode_name mode))

abbrev error_event : String → String → RunnerEvent
error_event message e = event "backend_error" message (of_error e)

-- The event of a prompt that was written.
unfoldable pub prompt_events : String → Option String → Bool → List RunnerEvent
unfolding utf8
prompt_events message (some prompt) true =
    event "prompt_injected" message (of_prompt (length (utf8 prompt))) ∷ []
prompt_events message _ _ = []

-- Whether `needle` stands in a text: `strings.Contains`.
unfoldable pub has_text : String → String → Bool
unfolding strip_prefix
has_text needle String.[] = is_found (strip_prefix needle "")
has_text needle (String.◌∷◌ c s) =
    is_found (strip_prefix needle (String.◌∷◌ c s)) || has_text needle s

-- `exitCode` of a command that was not started; of another it is the code of its process.
unfoldable pub unstarted_code : String → ℤ
unfolding has_text
unstarted_code e = if has_text "executable file not found" e then pos 127 else minus_one

module _ (m : Machine) (o : Options) where
  abbrev process_in : Mode → Option String → Process
  process_in mode prompt = m.process mode o.backend o.repo_dir prompt

  -- `runWithPTY`, from the process on.
  unfoldable pub pty_ended : CappedBuffer → Process → Ended
  unfolding prompt_events
  pty_ended t (exited takes_prompt chunks failure exit_code) = record {
    code = exit_code;
    events =
        start_event o pty "backend started via pty mode"
          ∷ prompt_events "prompt sent to backend pty" (prompt_of o) takes_prompt
        ++ exit_event exit_code ∷ [];
    failure = failed_with failure;
    transcript = if o.capture_transcript then write_all chunks t else t;
    launches = record { mode = pty; prompt = prompt_of o } ∷ [];
  }
  pty_ended t (not_started e) = record {
    code = minus_one;
    events = error_event "failed to start backend with pty" e ∷ [];
    failure = some (failed e);
    transcript = t;
    launches = [];
  }
  pty_ended t (no_pipe e) = record {
    code = minus_one;
    events = error_event "failed to start backend with pty" e ∷ [];
    failure = some (failed e);
    transcript = t;
    launches = [];
  }

  -- `runWithPTY` of runner_pty_stub.go and of runner_pty_unix.go.
  unfoldable pub run_with_pty : CappedBuffer → Ended
  unfolding pty_ended
  run_with_pty t = if m.has_pty then pty_ended t (process_in pty (prompt_of o)) else record {
    code = minus_one;
    events = event "backend_warn" "pty is not available on this platform build" no_data ∷ [];
    failure = some pty_unsupported;
    transcript = t;
    launches = [];
  }

  -- `runInjected`, from the process on. It writes the transcript whatever the options say.
  unfoldable pub injected_ended : CappedBuffer → Process → Ended
  unfolding prompt_events
  injected_ended t (no_pipe e) = record {
    code = minus_one;
    events =
        start_event o stdin "backend started via stdin-injection mode"
        ∷ error_event "failed to open stdin pipe" e
        ∷ [];
    failure = some (failed e);
    transcript = t;
    launches = [];
  }
  injected_ended t (not_started e) = record {
    code = minus_one;
    events =
        start_event o stdin "backend started via stdin-injection mode"
        ∷ error_event "backend failed to start" e
        ∷ [];
    failure = some (failed e);
    transcript = t;
    launches = [];
  }
  injected_ended t (exited takes_prompt chunks failure exit_code) = record {
    code = exit_code;
    events =
        start_event o stdin "backend started via stdin-injection mode"
          ∷ prompt_events "prompt sent to backend stdin" (prompt_of o) takes_prompt
        ++ exit_event exit_code ∷ [];
    failure = failed_with failure;
    transcript = write_all chunks t;
    launches = record { mode = stdin; prompt = prompt_of o } ∷ [];
  }

  unfoldable pub run_injected : CappedBuffer → Ended
  unfolding injected_ended
  run_injected t = injected_ended t (process_in stdin (prompt_of o))

  -- `runAttached`, from the process on: the terminal is the input, and nothing is written to it.
  unfoldable pub attached_with : CappedBuffer → ℤ → Option String → List Launch → Ended
  attached_with t exit_code failure launches = record {
    code = exit_code;
    events = start_event o attached "backend started in attached mode" ∷ exit_event exit_code ∷ [];
    failure = failed_with failure;
    transcript = t;
    launches = launches;
  }

  unfoldable pub attached_ended : CappedBuffer → Process → Ended
  unfolding attached_with unstarted_code
  attached_ended t (exited takes_prompt chunks failure exit_code) =
      attached_with t exit_code failure (record { mode = attached; prompt = none } ∷ [])
  attached_ended t (not_started e) = attached_with t (unstarted_code e) (some e) []
  attached_ended t (no_pipe e) = attached_with t (unstarted_code e) (some e) []

  unfoldable pub run_attached : CappedBuffer → Ended
  unfolding attached_ended
  run_attached t = attached_ended t (process_in attached none)

  abbrev pub options_max : ℤ
  options_max = if ltb_ℤ (pos 0) o.max_transcript_bytes then o.max_transcript_bytes else pos 200000

  -- The result, from the events before the last way of starting the backend, and from that one.
  unfoldable pub result_of : List RunnerEvent → Ended → RunnerResult
  unfolding failure_text
  result_of before e = record {
    exit_code = e.code;
    failure = elim e.failure [ none ↦ none | some f ↦ some (failure_text f) ];
    events = before ++ e.events;
    transcript = m.text_of e.transcript.buf;
    transcript_truncated = e.transcript.truncated;
    duration_ms = m.elapsed_ms;
  }

  -- `isLikelyTTYError`.
  unfoldable pub is_likely_tty_error : Option Failure → Bool
  unfolding failure_text has_text lower_text
  is_likely_tty_error none = false
  is_likely_tty_error (some f) =
      let msg = lower_text m.lower (failure_text f) in
      has_text "tty" msg || has_text "inappropriate ioctl" msg || has_text "not a terminal" msg

  -- `transcriptSuggestsTTYIssue`.
  unfoldable pub transcript_suggests_tty_issue : String → Bool
  unfolding has_text lower_text
  transcript_suggests_tty_issue output =
      let lower = lower_text m.lower output in
      has_text "stdin is not a terminal" lower
      || has_text "not a tty" lower
      || has_text "requires a terminal" lower

  -- The end of `Run` in attached mode: the events and what was started before it are kept.
  unfoldable pub finish_attached :
      List RunnerEvent → List Launch → CappedBuffer → RunnerResult × List Launch
  unfolding run_attached result_of
  finish_attached before launches t =
      let e = run_attached t in (result_of before e, launches ++ e.launches)

  -- The part of `Run` that gives the prompt on the standard input.
  unfoldable pub finish_injected : List RunnerEvent → CappedBuffer → RunnerResult × List Launch
  unfolding run_injected finish_attached is_likely_tty_error transcript_suggests_tty_issue
  finish_injected before t =
      let e = run_injected t in
      if is_likely_tty_error e.failure || transcript_suggests_tty_issue (m.text_of e.transcript.buf)
      then finish_attached (before ++ e.events) e.launches e.transcript
      else (result_of before e, e.launches)

  abbrev pub pty_warning : RunnerEvent
  pty_warning =
      event "backend_warn" "pty unavailable, falling back to stdin injection"
        (of_error (failure_text pty_unsupported))

  abbrev pub attach_warning : RunnerEvent
  attach_warning =
      event "backend_warn" "switching to attached terminal mode due to missing pty support" no_data

  -- The part of `Run` after `runWithPTY`.
  unfoldable pub after_pty : Option Failure → Ended → RunnerResult × List Launch
  unfolding finish_attached finish_injected
  after_pty (some pty_unsupported) e =
      if o.forward_input
      then finish_attached (e.events ++ pty_warning ∷ attach_warning ∷ []) e.launches e.transcript
      else finish_injected (e.events ++ pty_warning ∷ []) e.transcript
  after_pty _ e = (result_of [] e, e.launches)

  unfoldable pub no_backend : RunnerResult
  no_backend = record {
    exit_code = minus_one;
    failure = some "backend is required";
    events = event "backend_error" "backend command is empty" no_data ∷ [];
    transcript = "";
    transcript_truncated = false;
    duration_ms = m.elapsed_ms;
  }

  -- `Run`, with what it started.
  unfoldable pub run : RunnerResult × List Launch
  unfolding run_with_pty after_pty finish_injected new_capped_buffer no_backend
  run =
      let t = new_capped_buffer options_max in
      let e = run_with_pty t in
      if trim_space o.backend == ""
      then (no_backend, [])
      else if o.use_pty
      then after_pty e.failure e
      else finish_injected [] t
