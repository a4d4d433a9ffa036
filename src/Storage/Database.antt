-- ===== src/Storage/Database.antt =====
-- The calls of the database that internal/storage/sqlite/ledger.go makes. What happens in front of and
-- during each of them is given as a schedule: what other processes have committed before it,
-- whether the driver fails, and, where a commit fails, whether it was written all the same. From its
-- first insert on a transaction holds the lock, and no other process writes. An error of the driver
-- has none of the program's sentinel errors on its chain.
pub mod Calls
use agent_action_control.Application.Ports.{Run}
use agent_action_control.Storage.Tables.{insert_each, Tables, Insertion, Checks}
use agent_action_control.Prelude.{◌∷◌, some, none, if◌then◌else◌, false, [], Option, List, Bool}
use agent_action_control.Errors.{ok, err, Result, no_rows}

pub record Event : Type 0 where
  pub others : List Insertion
  pub fails : Bool
  pub written : Bool

-- Nothing but the call itself.
abbrev pub quiet : Event
quiet = record { others = []; fails = false; written = false }

pub record World : Type 0 where
  pub tables : Tables
  pub schedule : List Event

-- A schedule that has come to its end goes on quietly.
abbrev pub next : List Event → Event × List Event
next [] = (quiet, [])
next (e ∷ es) = (e, es)

-- `Scan` of the row that a query has found.
abbrev pub scan_rows : {A : Type 0} → Option A → Result A
scan_rows none = err (no_rows ∷ [])
scan_rows (some rows) = ok rows

module _ ⦃k : Checks⦄ where
  -- A call outside of a transaction or in front of its first insert.
  unfoldable pub open_call : {A : Type 0} → (Tables → Result A) → Run World A
  open_call call w =
      let (e, rest) = next w.schedule in
      let tables = insert_each e.others w.tables in
      (if e.fails then err [] else call tables, record { tables = tables; schedule = rest })

  -- A call inside of a transaction that has written.
  unfoldable pub locked_call : {A : Type 0} → Result A → Run World A
  locked_call call w =
      let (e, rest) = next w.schedule in
      (if e.fails then err [] else call, record w { schedule = rest })

  -- `transaction.Commit()` of a transaction that has made these tables.
  unfoldable pub commit_transaction : Tables → Run World (Unit {0})
  commit_transaction tables w =
      let (e, rest) = next w.schedule in
      if e.fails
      then (err [], record { tables = if e.written then tables else w.tables; schedule = rest })
      else (ok tt, record { tables = tables; schedule = rest })
