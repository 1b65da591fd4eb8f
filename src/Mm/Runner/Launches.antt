-- ===== src/Mm/Runner/Launches.antt =====
-- What `Run` of internal/mm/runner/runner.go starts.
use modelo_man.Base.{
  Bool, true, false, none, some, List, [], ◌∷◌, ◌++◌, ◌≡◌, refl, ◌⊎◌, inl, inr, trim_space, ◌==◌,
  if◌then◌else◌,
}
use modelo_man.Mm.Transcript.{CappedBuffer, new_capped_buffer}
use modelo_man.Mm.Runner.{
  Mode, pty, stdin, attached, RunnerEvent, RunnerResult, Options, Process, no_pipe, not_started,
  exited, Machine, Launch, pty_unsupported, Ended, prompt_of, pty_ended, run_with_pty,
  injected_ended, run_injected, attached_with, attached_ended, run_attached, finish_attached,
  finish_injected, after_pty, run, pty_warning, attach_warning, options_max,
}

-- The backend on the terminal, where nothing is written to it.
abbrev pub on_terminal : Launch
on_terminal = record { mode = attached; prompt = none }

abbrev pub given : Mode → Options → Launch
given mode o = record { mode = mode; prompt = prompt_of o }

-- What the runner may start, in order: nothing; the backend once, on a pseudo-terminal where they are
-- asked for and there are any, on a pipe, both with the prompt, or on the terminal; or first on a pipe
-- and then on the terminal.
pub data IsPlan (m : Machine) (o : Options) (ls : List Launch) : Type 0 where
  nothing : ls ≡ [] → IsPlan m o ls
  on_pty : m.has_pty ≡ true → o.use_pty ≡ true → ls ≡ given pty o ∷ [] → IsPlan m o ls
  on_pipe : ls ≡ given stdin o ∷ [] → IsPlan m o ls
  only_terminal : ls ≡ on_terminal ∷ [] → IsPlan m o ls
  on_both : ls ≡ given stdin o ∷ on_terminal ∷ [] → IsPlan m o ls

module _ (m : Machine) (o : Options) where
  attached-launches :
      (t : CappedBuffer) (p : Process)
      → ((attached_ended m o t p).launches ≡ [])
        ⊎ ((attached_ended m o t p).launches ≡ on_terminal ∷ [])
  unfolding attached_ended attached_with
  attached-launches t (exited takes chunks failure code) = inr refl
  attached-launches t (not_started e) = inl refl
  attached-launches t (no_pipe e) = inl refl

  injected-launches :
      (t : CappedBuffer) (p : Process)
      → ((injected_ended m o t p).launches ≡ [])
        ⊎ ((injected_ended m o t p).launches ≡ given stdin o ∷ [])
  unfolding injected_ended
  injected-launches t (exited takes chunks failure code) = inr refl
  injected-launches t (not_started e) = inl refl
  injected-launches t (no_pipe e) = inl refl

  joined :
      (first second : List Launch)
      → (first ≡ []) ⊎ (first ≡ given stdin o ∷ [])
      → (second ≡ []) ⊎ (second ≡ on_terminal ∷ [])
      → IsPlan m o (first ++ second)
  joined first second (inl a) (inl b) = nothing (rw (a, b) refl)
  joined first second (inl a) (inr b) = only_terminal (rw (a, b) refl)
  joined first second (inr a) (inl b) = on_pipe (rw (a, b) refl)
  joined first second (inr a) (inr b) = on_both (rw (a, b) refl)

  alone : (first : List Launch) → (first ≡ []) ⊎ (first ≡ given stdin o ∷ []) → IsPlan m o first
  alone first (inl a) = nothing a
  alone first (inr a) = on_pipe a

  either-IsPlan :
      {A : Type 0} (plan : A → List Launch) (c : Bool) (x y : A)
      → (c ≡ true → IsPlan m o (plan x))
      → (c ≡ false → IsPlan m o (plan y))
      → IsPlan m o (plan (if c then x else y))
  either-IsPlan plan true x y a b = a refl
  either-IsPlan plan false x y a b = b refl

  abbrev started : RunnerResult × List Launch → List Launch
  started r = r.1

  finish_attached-IsPlan :
      (before : List RunnerEvent) (first : List Launch) (t : CappedBuffer)
      → (first ≡ []) ⊎ (first ≡ given stdin o ∷ [])
      → IsPlan m o (finish_attached m o before first t).1
  unfolding finish_attached run_attached
  finish_attached-IsPlan before first t a = joined first _ a (attached-launches t _)

  finish_injected-IsPlan :
      (before : List RunnerEvent) (t : CappedBuffer) → IsPlan m o (finish_injected m o before t).1
  unfolding finish_injected run_injected
  finish_injected-IsPlan before t =
      let a = injected-launches t (m.process stdin o.backend o.repo_dir (prompt_of o)) in
      let e = run_injected m o t in
      either-IsPlan started _ _ _
        (λ c. finish_attached-IsPlan (before ++ e.events) e.launches e.transcript a)
        (λ c. alone e.launches a)

  pty_ended-IsPlan :
      (t : CappedBuffer) (p : Process)
      → m.has_pty ≡ true
      → o.use_pty ≡ true
      → IsPlan m o (after_pty m o (pty_ended m o t p).failure (pty_ended m o t p)).1
  unfolding after_pty pty_ended
  pty_ended-IsPlan t (exited takes chunks none code) h a = on_pty h a refl
  pty_ended-IsPlan t (exited takes chunks (some e) code) h a = on_pty h a refl
  pty_ended-IsPlan t (not_started e) h a = nothing refl
  pty_ended-IsPlan t (no_pipe e) h a = nothing refl

  unsupported-IsPlan :
      (e : Ended) → e.launches ≡ [] → IsPlan m o (after_pty m o (some pty_unsupported) e).1
  unfolding after_pty
  unsupported-IsPlan e none_yet =
      either-IsPlan started o.forward_input _ _
        (λ c.
          finish_attached-IsPlan (e.events ++ pty_warning m o ∷ attach_warning m o ∷ []) e.launches
            e.transcript (inl none_yet))
        (λ c. finish_injected-IsPlan (e.events ++ pty_warning m o ∷ []) e.transcript)

  abbrev continued : Ended → List Launch
  continued e = (after_pty m o e.failure e).1

  after_pty-IsPlan :
      (t : CappedBuffer) → o.use_pty ≡ true → IsPlan m o (continued (run_with_pty m o t))
  unfolding run_with_pty
  after_pty-IsPlan t asked =
      either-IsPlan continued m.has_pty _ _
        (λ h. pty_ended-IsPlan t (m.process pty o.backend o.repo_dir (prompt_of o)) h asked)
        (λ h. unsupported-IsPlan _ refl)

  pub run-IsPlan : IsPlan m o (run m o).1
  unfolding run
  run-IsPlan =
      let t = new_capped_buffer (options_max m o) in
      either-IsPlan started (trim_space o.backend == "") _ _ (λ c. nothing refl)
        (λ c.
          either-IsPlan started o.use_pty _ _ (λ asked. after_pty-IsPlan t asked)
            (λ e. finish_injected-IsPlan [] t))
