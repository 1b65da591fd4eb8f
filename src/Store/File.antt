-- ===== src/Store/File.antt =====
-- `Load`, `Snapshot`, `Mutate`, `persistLocked`, `withDefaults` and `cloneState` of file_store.go.
-- `encoding/json` encodes a state exactly when every `float64` in it is finite, and decodes what it
-- encoded to the same state.
use modelo_man.Base.{Bool, true, false, not, ◌&&◌, some, [], all, ◌==◌, if◌then◌else◌}
use modelo_man.Domain.{
  Host, Benchmark, AgentRun, PromptAttempt, PolicyCap, State, default_policy, empty_state,
}
use modelo_man.Domain.Fault
use modelo_man.Store.Effects.{
  FileStore, World, Result, ok, err, Act, ◌>>=◌, ◌>>◌, pure, fail, reject_if, use_host, Contents,
  missing, corrupt, encoded,
}

module _ (h : Host) where
  open h use {F}

  -- Whether `json.Marshal` succeeds.
  unfoldable pub encodable : State F → Bool
  encodable s =
      all (λ (b : Benchmark F). h.is_finite b.cost_usd && h.is_finite b.quality_score) s.benchmarks
      && all (λ (r : AgentRun F). h.is_finite r.total_cost_usd) s.runs
      && all (λ (a : PromptAttempt F). h.is_finite a.cost_usd && h.is_finite a.quality_score)
          s.attempts
      && h.is_finite s.policy.max_cost_per_run_usd
      && all
          (λ (c : PolicyCap F).
            h.is_finite c.max_cost_per_run_usd && h.is_finite c.max_cost_per_attempt_usd)
          s.policy_caps

  -- `withDefaults`; making a nil slice empty changes nothing here.
  unfoldable pub with_defaults : State F → State F
  with_defaults s =
      if s.policy.updated_at == "" && not s.policy.kill_switch
      then record s { policy = default_policy h }
      else s

  -- `cloneState`: the errors of both codecs are dropped, so a state that cannot be encoded is
  -- replaced by the zero state.
  unfoldable pub clone_state : State F → State F
  unfolding with_defaults
  clone_state s = with_defaults (if encodable s then s else empty_state h)

  -- `NewFileStore`.
  abbrev pub new_file_store : FileStore F
  new_file_store = record { state = empty_state h; idempotency = [] }

  encode_locked : Act F (Unit {0})
  encode_locked w =
      reject_if (not (encodable w.store.state))
        (Fault.internal "failed to serialize state" (some "json")) w

  -- A failed write leaves a temporary file that encodes nothing.
  write_temp : Bool → Act F (Unit {0})
  write_temp true w = (ok tt, record w { disk = record w.disk { temp = encoded w.store.state } })
  write_temp false w = (
    err (Fault.internal "failed to write temporary state file" (some "write")),
    record w { disk = record w.disk { temp = corrupt } },
  )

  rename_temp : Bool → Act F (Unit {0})
  rename_temp true w = (ok tt, record w { disk = record { file = w.disk.temp; temp = missing } })
  rename_temp false w =
      (err (Fault.internal "failed to atomically persist state file" (some "rename")), w)

  -- `persistLocked`: the temporary file is written and renamed over the data file.
  unfoldable pub persist_locked : Act F (Unit {0})
  unfolding encode_locked write_temp rename_temp ◌>>=◌
  persist_locked = do
    encode_locked
    k ← use_host
    write_temp (h.io_ok k)
    j ← use_host
    rename_temp (h.io_ok j)

  set_state : State F → Act F (Unit {0})
  set_state s w = (ok tt, record w { store = record w.store { state = s } })

  load_contents : Contents F → Act F (Unit {0})
  unfolding persist_locked set_state with_defaults ◌>>=◌
  load_contents missing = set_state (empty_state h) >> persist_locked
  load_contents corrupt = fail (Fault.internal "failed to parse data file" (some "json"))
  load_contents (encoded s) = set_state (with_defaults s)

  -- `Load`; the table of idempotency keys is there from the start, so it is left as it is.
  unfoldable pub load : Act F (Unit {0})
  unfolding load_contents ◌>>=◌
  load = do
    k ← use_host
    reject_if (not (h.io_ok k)) (Fault.internal "failed to create data directory" (some "mkdir"))
    j ← use_host
    reject_if (not (h.io_ok j)) (Fault.internal "failed to read data file" (some "read"))
    (λ w. load_contents w.disk.file w)

  -- `Snapshot`.
  unfoldable pub snapshot : World F → State F
  unfolding clone_state
  snapshot w = clone_state w.store.state

  unfoldable pub commit : {A : Type 0} → Result (A × State F) → Act F A
  unfolding persist_locked set_state with_defaults ◌>>=◌
  commit (err e) = fail e
  commit (ok (a, next)) = do set_state (with_defaults next); persist_locked; pure a

  -- `Mutate`: the change is made to a copy, which becomes the state before it is persisted.
  unfoldable pub mutate : {A : Type 0} → (State F → Result (A × State F)) → Act F A
  unfolding clone_state commit
  mutate change w = commit (change (clone_state w.store.state)) w
