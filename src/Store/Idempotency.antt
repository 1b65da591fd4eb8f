-- ===== src/Store/Idempotency.antt =====
-- The idempotency keys of file_store.go. They live in memory: no persisted state holds them.
use modelo_man.Base.{
  String, Bool, true, false, ◌||◌, none, some, List, ◌==◌, ◌<>◌, trim_space, lookup, insert, remove,
  if◌then◌else◌,
}
use modelo_man.Domain.Fault
use modelo_man.Store.Effects.{IdempotencyRecord, World, ok, err, Act}

-- The zero `IdempotencyRecord`.
abbrev pub no_record : IdempotencyRecord
no_record = record { request_hash = ""; response_json = ""; completed = false }

-- `normalizeIdempotencyToken`.
abbrev pub normalize_idempotency_token : String → String
normalize_idempotency_token s = trim_space s

-- `fileIdempotencyRecordKey`.
abbrev pub file_idempotency_record_key : String → String → String
file_idempotency_record_key method key = method <> "::" <> key

-- The key of an entry, from what the caller gives.
abbrev pub entry_key : String → String → String
entry_key method key =
    file_idempotency_record_key (normalize_idempotency_token method)
      (normalize_idempotency_token key)

abbrev is_blank : String → Bool
is_blank s = normalize_idempotency_token s == ""

module _ {F : Type 0} where
  abbrev pub keys : World F → List (String × IdempotencyRecord)
  keys w = w.store.idempotency

  set_keys : List (String × IdempotencyRecord) → World F → World F
  set_keys m w = record w { store = record w.store { idempotency = m } }

  unfoldable pub reserve_idempotency_key :
      String → String → String → Act F (IdempotencyRecord × Bool)
  unfolding set_keys
  reserve_idempotency_key method key request_hash w =
      if is_blank method || is_blank key || request_hash == ""
      then (
        err (Fault.invalid_argument "method, idempotency_key, and request_hash are required"),
        w,
      )
      else elim (lookup (entry_key method key) (keys w)) [
        | some r ↦ (ok (r, false), w)
        | none ↦ (
          ok (no_record, true),
          set_keys
              (insert (entry_key method key)
                (record { request_hash = request_hash; response_json = ""; completed = false })
                (keys w))
              w,
        )
      ]

  unfoldable pub complete_idempotency_key : String → String → String → Act F (Unit {0})
  unfolding set_keys
  complete_idempotency_key method key response_json w =
      if is_blank method || is_blank key
      then (err (Fault.invalid_argument "method and idempotency_key are required"), w)
      else elim (lookup (entry_key method key) (keys w)) [
        | none ↦ (err (Fault.not_found "idempotency key not found"), w)
        | some r ↦ (
          ok tt,
          set_keys
              (insert (entry_key method key)
                (record r { response_json = response_json; completed = true }) (keys w))
              w,
        )
      ]

  unfoldable pub release_idempotency_key : String → String → Act F (Unit {0})
  unfolding set_keys
  release_idempotency_key method key w =
      if is_blank method || is_blank key
      then (ok tt, w)
      else elim (lookup (entry_key method key) (keys w)) [
        | none ↦ (ok tt, w)
        | some r ↦
            if r.completed
            then (ok tt, w)
            else (ok tt, set_keys (remove (entry_key method key) (keys w)) w)
      ]
