-- ===== src/Safe/Keys/Session.antt =====
-- stdlib/safe/epoch_keys.go: the operations of an open store. Each returns the store that it leaves, on an
-- error too.
use amp_sdk.Base.{
  ℕ, ◌⊎◌, inr, Bool, true, false, not, ◌||◌, List, [], map, Option, none, some, if◌then◌else◌,
}
use amp_sdk.Tag.Uid.{Uid, is_set}
use amp_sdk.Tag.UidMap.{find, put, holds}
use amp_sdk.Safe.Keys.{
  SymKey, Tome, StoreError, store_closed, unset_epoch, not_found, load_failed, seal_failed,
  save_failed, Store, empty_store, opened, elect_newer, merged_entry, key_of_entry, found_or_error,
  key_of_current, shred_epochs, drop_dangling,
}

-- The tome of a store.
unfoldable pub tome_of : {Sealed : Type 0} → Store Sealed → Tome
tome_of s = record { keys = map (λ kv. kv.1) s.keys; current = s.current }

-- The surroundings of one call: its randomness, and whether Save succeeds.
pub record Attempt (Rand : Type 0) : Type 0 where
  pub rand : Rand
  pub saves : Bool

-- `none` is a Load that fails.
abbrev pub open_store :
    {Sealed : Type 0}
    → (Sealed → Option Tome)
    → Option (Option Sealed)
    → Store Sealed × Option StoreError
open_store unseal none = (empty_store, some load_failed)
open_store unseal (some none) = (empty_store, none)
open_store unseal (some (some sealed)) = opened sealed (unseal sealed)

module _ {Sealed : Type 0} where
  -- What PutKey does to the maps.
  unfoldable pub install : Uid → SymKey → Store Sealed → Store Sealed
  install container key s = record s {
    keys = put key.epoch_id (merged_entry container key (find key.epoch_id s.keys)) s.keys;
    current = elect_newer container key.epoch_id s.current;
    changed = true;
  }

  -- What SetCurrentEpoch does to them.
  unfoldable pub elected : Uid → Uid → Store Sealed → Store Sealed
  elected container epoch s = record s { current = put container epoch s.current; changed = true }

  -- What ShredKeys does to them.
  unfoldable pub shredded : List Uid → Store Sealed → Store Sealed
  shredded epochs s =
      let (keys, removed) = shred_epochs epochs s.keys in
      record s {
        keys = keys;
        changed = s.changed || removed;
        current = drop_dangling keys s.current;
      }

  -- The container is not looked at.
  unfoldable pub get_key : Uid → Uid → ℕ → Store Sealed → SymKey ⊎ StoreError
  get_key container epoch r s =
      if s.closed
      then inr store_closed
      else found_or_error (key_of_entry (find epoch s.keys) epoch r)

  unfoldable pub get_current_key : Uid → ℕ → Store Sealed → SymKey ⊎ StoreError
  get_current_key container r s =
      if s.closed
      then inr store_closed
      else found_or_error (key_of_current s.keys (find container s.current) r)

  -- `zeroKeys`
  unfoldable pub zero_keys : Store Sealed → Store Sealed
  zero_keys s = record s { keys = []; current = [] }

  abbrev pub close_after : Store Sealed × Option StoreError → Store Sealed × Option StoreError
  close_after (s, none) = (record (zero_keys s) { closed = true }, none)
  close_after (s, some err) = (s, some err)

module _ {Sealed Rand : Type 0} (seal : Rand → Tome → Option Sealed) where
  abbrev pub save_sealed :
      Attempt Rand → Store Sealed → Option Sealed → Store Sealed × Option StoreError
  save_sealed io s none = (s, some seal_failed)
  save_sealed io s (some sealed) =
      if io.saves
      then (record s { changed = false; disk = some sealed }, none)
      else (s, some save_failed)

  -- `persistLocked`
  unfoldable pub persist : Attempt Rand → Store Sealed → Store Sealed × Option StoreError
  persist io s = save_sealed io s (seal io.rand (tome_of s))

  unfoldable pub put_key :
      Attempt Rand → Uid → SymKey → Store Sealed → Store Sealed × Option StoreError
  put_key io container key s =
      if s.closed
      then (s, some store_closed)
      else if not (is_set key.epoch_id)
      then (s, some unset_epoch)
      else persist io (install container key s)

  unfoldable pub set_current_epoch :
      Attempt Rand → Uid → Uid → Store Sealed → Store Sealed × Option StoreError
  set_current_epoch io container epoch s =
      if s.closed
      then (s, some store_closed)
      else if not (holds epoch s.keys)
      then (s, some not_found)
      else persist io (elected container epoch s)

  unfoldable pub shred_keys :
      Attempt Rand → List Uid → Store Sealed → Store Sealed × Option StoreError
  shred_keys io epochs s =
      if s.closed
      then (s, some store_closed)
      else if not (s.changed || (shred_epochs epochs s.keys).1)
      then (record s { keys = (shred_epochs epochs s.keys).0 }, none)
      else persist io (shredded epochs s)

  unfoldable pub close : Attempt Rand → Store Sealed → Store Sealed × Option StoreError
  close io s =
      if s.closed then (s, none) else close_after (if s.changed then persist io s else (s, none))
