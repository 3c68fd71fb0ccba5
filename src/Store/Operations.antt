-- ===== src/Store/Operations.antt =====
-- internal/store/file_store.go: the journal of operations, one entry for each machine.
use computer_host.Base.{List, ok, Option, none, some, string_key}
use computer_host.Model.{MachineId, OperationRecord}
use computer_host.Host.Exec.{Exec, ◌>>=◌, pure}
use computer_host.Store.Table.{upsert, remove}
use computer_host.Store.Persisted.{PersistedOperations}
use computer_host.Store.FileStore.{FileStore, read_operations, update_operations}

unfoldable pub upsert_operation : OperationRecord → Exec FileStore (Unit {0})
unfolding update_operations
upsert_operation operation =
    update_operations
      (λ s. ok (record { operations = upsert (λ o. o.machine_id) operation s.operations }))

unfoldable pub list_operations : Exec FileStore (List OperationRecord)
unfolding ◌>>=◌ pure read_operations
list_operations = do journal ← read_operations; pure journal.operations

abbrev pub without_operation :
    PersistedOperations → Option (List OperationRecord) → PersistedOperations
without_operation s none = s
without_operation s (some rest) = record { operations = rest }

-- A machine that has no entry is no error.
unfoldable pub delete_operation : MachineId → Exec FileStore (Unit {0})
unfolding update_operations
delete_operation machine_id =
    update_operations
      (λ s. ok (without_operation s (remove (λ o. o.machine_id) machine_id s.operations)))
