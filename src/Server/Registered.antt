-- ===== src/Server/Registered.antt =====
-- What holds of every method in the table of server.go.
use modelo_man.Base.{
  String, true, false, ◌||◌, some, List, [], ◌∷◌, ◌≡◌, refl, subst, ◌==◌, eq_iff, ◌⊎◌, inl, inr,
  Bool-cases, contains, lookup,
}
use modelo_man.Domain.{Host}
use modelo_man.Store.{World, Act}
use modelo_man.Store.Keys.{Keeps, keys_of, stored}
use modelo_man.Rpc.Contract.{full_method, write_methods, private_read_methods, public_read_methods}
use modelo_man.Rpc.Types.{Fields, struct, list_value, empty, Context, Payload, Handler}
use modelo_man.Server.Wire.{Wire}
use modelo_man.Server.Methods.Reads
use modelo_man.Server.Methods.Writes
use modelo_man.Server.Handlers.{UnaryHandler, with_struct, with_empty}
use modelo_man.Server.Table.{service_methods}

infixr 4 ◌&◌
-- `P` holds of every entry.
data All {A : Type 0} (P : String → A → Type 0) : List (String × A) → Type 0 where
  none_left : All P []
  ◌&◌ :
      {name : String} {a : A} {entries : List (String × A)}
      → P name a
      → All P entries
      → All P ((name, a) ∷ entries)

lookup-All :
    {A : Type 0} (P : String → A → Type 0) (name : String) (entries : List (String × A)) (a : A)
    → All P entries
    → lookup name entries ≡ some a
    → P name a
unfolding lookup
lookup-All P name [] a holds e = cc
lookup-All P name ((k, b) ∷ entries) a (here & rest) e = elim (Bool-cases (k == name)) [
  | inl same ↦
      let found : some b ≡ some a = rw same at e in
      let b_is_a : b ≡ a = cc in
      subst (P name) b_is_a (subst (λ n. P n b) ((eq_iff k name).0 same) here)
  | inr other ↦ lookup-All P name entries a rest (rw other at e)
]

-- The handler leaves what `view` shows alone.
abbrev pub HandlerKeeps : {F X : Type 0} → (World F → X) → Handler (World F) → Type 0
HandlerKeeps {F} view handler =
    (ctx : Context) (req : Payload) (w : World F) → view (handler ctx req w).1 ≡ view w

module _ {F X : Type 0} (view : World F → X) where
  struct-Keeps :
      (call : Fields → Act F Payload)
      → ((fields : Fields) → Keeps view (call fields))
      → HandlerKeeps view (with_struct call)
  unfolding with_struct
  struct-Keeps call k ctx (struct fields) w = (k fields).at w
  struct-Keeps call k ctx (list_value xs) w = refl
  struct-Keeps call k ctx empty w = refl

  empty-Keeps : (call : Act F Payload) → Keeps view call → HandlerKeeps view (with_empty call)
  unfolding with_empty
  empty-Keeps call k ctx (struct fields) w = refl
  empty-Keeps call k ctx (list_value xs) w = refl
  empty-Keeps call k ctx empty w = k.at w

abbrev pub IsNamed : {F : Type 0} → String → UnaryHandler F → Type 0
IsNamed name m =
    (m.full_method ≡ full_method name)
    × ((contains write_methods m.full_method
          || contains private_read_methods m.full_method
          || contains public_read_methods m.full_method)
        ≡ true)

abbrev pub IsConfined : {F : Type 0} → String → UnaryHandler F → Type 0
IsConfined name m =
    ((contains write_methods m.full_method ≡ true) × HandlerKeeps keys_of m.handler)
    ⊎ ((contains write_methods m.full_method ≡ false) × HandlerKeeps stored m.handler)

module _ (h : Host) (wire : Wire h.F) (source : String) where
  open h use {F}

  named : All IsNamed (service_methods h wire source)
  named =
      (refl, refl)
      & (refl, refl)
      & (refl, refl)
      & (refl, refl)
      & (refl, refl)
      & (refl, refl)
      & (refl, refl)
      & (refl, refl)
      & (refl, refl)
      & (refl, refl)
      & (refl, refl)
      & (refl, refl)
      & (refl, refl)
      & (refl, refl)
      & (refl, refl)
      & (refl, refl)
      & (refl, refl)
      & (refl, refl)
      & (refl, refl)
      & (refl, refl)
      & (refl, refl)
      & (refl, refl)
      & (refl, refl)
      & (refl, refl)
      & (refl, refl)
      & (refl, refl)
      & (refl, refl)
      & none_left

  confined : All IsConfined (service_methods h wire source)
  confined =
      inr (refl, empty-Keeps stored _ (Reads.get_health-KeepsStore h wire source))
      & inr (refl, empty-Keeps stored _ (Reads.get_summary-KeepsStore h wire))
      & inr (refl, empty-Keeps stored _ (Reads.export_state-KeepsStore h wire))
      & inl (refl, struct-Keeps keys_of _ (Writes.create_task-KeepsKeys h wire))
      & inl (refl, struct-Keeps keys_of _ (Writes.update_task-KeepsKeys h wire))
      & inl (refl, struct-Keeps keys_of _ (Writes.delete_task-KeepsKeys h wire))
      & inr (refl, empty-Keeps stored _ (Reads.list_tasks-KeepsStore h wire))
      & inl (refl, struct-Keeps keys_of _ (Writes.create_note-KeepsKeys h wire))
      & inr (refl, empty-Keeps stored _ (Reads.list_notes-KeepsStore h wire))
      & inl (refl, struct-Keeps keys_of _ (Writes.append_changelog-KeepsKeys h wire))
      & inr (refl, empty-Keeps stored _ (Reads.list_changelog-KeepsStore h wire))
      & inl (refl, struct-Keeps keys_of _ (Writes.record_benchmark-KeepsKeys h wire))
      & inr (refl, empty-Keeps stored _ (Reads.list_benchmarks-KeepsStore h wire))
      & inl (refl, struct-Keeps keys_of _ (Writes.start_run-KeepsKeys h wire))
      & inl (refl, struct-Keeps keys_of _ (Writes.finish_run-KeepsKeys h wire))
      & inr (refl, struct-Keeps stored _ (Reads.list_runs-KeepsStore h wire))
      & inl (refl, struct-Keeps keys_of _ (Writes.record_prompt_attempt-KeepsKeys h wire))
      & inr (refl, struct-Keeps stored _ (Reads.list_prompt_attempts-KeepsStore h wire))
      & inl (refl, struct-Keeps keys_of _ (Writes.record_run_event-KeepsKeys h wire))
      & inr (refl, struct-Keeps stored _ (Reads.list_run_events-KeepsStore h wire))
      & inr (refl, empty-Keeps stored _ (Reads.get_telemetry_summary-KeepsStore h wire))
      & inr (refl, empty-Keeps stored _ (Reads.get_policy-KeepsStore h wire))
      & inl (refl, struct-Keeps keys_of _ (Writes.set_policy-KeepsKeys h wire))
      & inr (refl, struct-Keeps stored _ (Reads.get_leaderboard-KeepsStore h wire))
      & inr (refl, empty-Keeps stored _ (Reads.list_policy_caps-KeepsStore h wire))
      & inl (refl, struct-Keeps keys_of _ (Writes.upsert_policy_cap-KeepsKeys h wire))
      & inl (refl, struct-Keeps keys_of _ (Writes.delete_policy_cap-KeepsKeys h wire))
      & none_left

  -- A registered method stands in the table under the name that its handler gives to the interceptor,
  -- and the contract lists this name.
  pub registered-IsNamed :
      (name : String) (m : UnaryHandler F)
      → lookup name (service_methods h wire source) ≡ some m
      → IsNamed name m
  registered-IsNamed name m e = lookup-All IsNamed name (service_methods h wire source) m named e

  pub registered-IsConfined :
      (name : String) (m : UnaryHandler F)
      → lookup name (service_methods h wire source) ≡ some m
      → IsConfined name m
  registered-IsConfined name m e =
      lookup-All IsConfined name (service_methods h wire source) m confined e
