-- ===== src/Store/Persistence.antt =====
-- What `Mutate` and `Load` of file_store.go make of the memory and of the data file.
use modelo_man.Base.{suc, some, [], ◌≡◌, ap, ◌∙◌, refl, true, false, arith}
use modelo_man.Domain.Fault
use modelo_man.Domain.{Host, State, AppError, empty_state}
use modelo_man.Store.Effects.{World, Result, ok, err, encoded, missing}
use modelo_man.Store.File.{
  encodable, with_defaults, clone_state, new_file_store, load, snapshot, mutate, commit,
}

module _ (h : Host) where
  open h use {F}

  module _ {A : Type 0} (change : State F → Result (A × State F)) (w : World F) where
    -- A mutation that succeeds has put exactly the state in memory into the data file.
    pub mutate-saved :
        {a : A}
        → (mutate h change w).0 ≡ ok a
        → ((mutate h change w).1.disk.file ≡ encoded (mutate h change w).1.store.state)
          × ((mutate h change w).1.disk.temp ≡ missing)
          × (encodable h (mutate h change w).1.store.state ≡ true)
    unfolding mutate
    mutate-saved e = ground arith

    -- A mutation that fails leaves the data file as it was.
    pub file-mutate_failed :
        {e : AppError}
        → (mutate h change w).0 ≡ err e
        → (mutate h change w).1.disk.file ≡ w.disk.file
    unfolding mutate
    file-mutate_failed e = ground arith

    -- A change that is refused leaves the world as it was, and its error is passed on.
    pub mutate_refused :
        {e : AppError}
        → change (clone_state h w.store.state) ≡ err e
        → mutate h change w ≡ (err e, w)
    unfolding mutate
    mutate_refused e = ground arith

    -- Where the change is accepted and can be encoded and the file cannot be written, the error is
    -- returned, the data file stays, and the change is in memory all the same.
    pub mutate_unsaved :
        (a : A) (next : State F)
        → change (clone_state h w.store.state) ≡ ok (a, next)
        → encodable h (with_defaults h next) ≡ true
        → h.io_ok w.uses ≡ false
        → ((mutate h change w).0
            ≡ err (Fault.internal "failed to write temporary state file" (some "write")))
          × ((mutate h change w).1.store.state ≡ with_defaults h next)
          × ((mutate h change w).1.disk.file ≡ w.disk.file)
    unfolding mutate
    mutate_unsaved a next accepted fits broken = (ground arith, ground arith, ground arith)

    -- Saved or not, the state of an accepted change is in memory.
    pub state-mutate :
        (a : A) (next : State F)
        → change (clone_state h w.store.state) ≡ ok (a, next)
        → (mutate h change w).1.store.state ≡ with_defaults h next
    unfolding mutate
    state-mutate a next accepted = ground arith

    -- A mutation does not touch the idempotency keys.
    pub keys-mutate : (mutate h change w).1.store.idempotency ≡ w.store.idempotency
    unfolding mutate
    keys-mutate = ground arith

  with_defaults_idem : (s : State F) → with_defaults h (with_defaults h s) ≡ with_defaults h s
  unfolding with_defaults
  with_defaults_idem s = ground arith

  -- A restart: a new store loads the data file that the old one left.
  abbrev pub restart : World F → Result (Unit {0}) × World F
  restart w = load h (record w { store = new_file_store h })

  commit-with_defaults :
      {A : Type 0} (r : Result (A × State F)) (w : World F) {a : A}
      → (commit h r w).0 ≡ ok a
      → with_defaults h (commit h r w).1.store.state ≡ (commit h r w).1.store.state
  unfolding commit
  commit-with_defaults (err e) w p = cc
  commit-with_defaults (ok (a, next)) w p = ground (arith, with_defaults_idem next)

  mutate-with_defaults :
      {A : Type 0} (change : State F → Result (A × State F)) (w : World F) {a : A}
      → (mutate h change w).0 ≡ ok a
      → with_defaults h (mutate h change w).1.store.state ≡ (mutate h change w).1.store.state
  unfolding mutate
  mutate-with_defaults change w e = commit-with_defaults (change (clone_state h w.store.state)) w e

  -- What a mutation saved, a restart reads back: if the directory and the file can be read then, the
  -- loaded state is the one that was in memory.
  pub restart-mutate :
      {A : Type 0} (change : State F → Result (A × State F)) (w : World F) {a : A}
      → (mutate h change w).0 ≡ ok a
      → h.io_ok (mutate h change w).1.uses ≡ true
      → h.io_ok (suc (mutate h change w).1.uses) ≡ true
      → ((restart (mutate h change w).1).0 ≡ ok tt)
        × ((restart (mutate h change w).1).1.store.state ≡ (mutate h change w).1.store.state)
  unfolding load
  restart-mutate change w e dir file =
      ground (arith, mutate-saved change w e, mutate-with_defaults change w e)

  -- After a restart no idempotency key is known, whatever the data file holds and whether it can be
  -- read.
  pub keys-restart : (w : World F) → (restart w).1.store.idempotency ≡ []
  unfolding load
  keys-restart w = ground arith

  clone_state_unencodable : (s : State F) → encodable h s ≡ false → clone_state h s ≡ empty_state h
  unfolding clone_state
  clone_state_unencodable s bad = rw bad refl

  file-commit :
      {A : Type 0} (w : World F) (a : A) (next : State F)
      → (commit h (ok (a, next)) w).0 ≡ ok a
      → (commit h (ok (a, next)) w).1.disk.file ≡ encoded (with_defaults h next)
  unfolding commit
  file-commit w a next saved = ground arith

  mutate_accepted :
      {A : Type 0} (change : State F → Result (A × State F)) (w : World F) (s : State F)
      (r : Result (A × State F))
      → clone_state h w.store.state ≡ s
      → change s ≡ r
      → mutate h change w ≡ commit h r w
  unfolding mutate
  mutate_accepted change w s r copied accepted =
      ap (λ x. commit h (change x) w) copied ∙ ap (λ x. commit h x w) accepted

  -- A state that cannot be encoded reads as the empty hub, and the next mutation that succeeds saves
  -- what it makes of the empty hub: all that was in memory and in the data file is gone.
  pub unencodable_lost :
      {A : Type 0} (change : State F → Result (A × State F)) (w : World F) (a : A) (next : State F)
      → encodable h w.store.state ≡ false
      → change (empty_state h) ≡ ok (a, next)
      → (mutate h change w).0 ≡ ok a
      → (snapshot h w ≡ empty_state h)
        × ((mutate h change w).1.disk.file ≡ encoded (with_defaults h next))
  unfolding snapshot
  unencodable_lost change w a next bad accepted saved =
      let lost = clone_state_unencodable w.store.state bad in
      let made = mutate_accepted change w (empty_state h) _ lost accepted in
      (lost, rw made (file-commit w a next (rw made at saved)))
