-- ===== src/Safe/Keys.antt =====
-- stdlib/safe/epoch_keys.go: the store of epoch keys, in memory and on disk. What this file calls to
-- marshal, encrypt and wrap a tome is a parameter, `seal`, with the randomness of the call, and so is
-- `unseal`; whether TomeStore.Save succeeds is an argument, and a Save that fails leaves the disk alone.
-- The bytes that Zero wipes are gone with the entries that hold them.
pub mod Session
pub mod Roles
pub mod Lookup
pub mod Current
pub mod Newest
pub mod Reopen
pub mod Runs
pub mod Durable
mod Tests
use amp_sdk.Base.{
  ℕ, Bool, true, false, not, ◌&&◌, ◌||◌, List, [], ◌∷◌, ◌++◌, map, Option, none, some, ltb, ◌==◌,
  if◌then◌else◌, ◌⊎◌, inl, inr,
}
use amp_sdk.Tag.Uid.{Uid, is_set}
use amp_sdk.Tag.UidMap.{find, put, remove, holds}

-- `RoleKey`, with the number of its KeyRole.
pub record RoleKey : Type 0 where
  pub role : ℕ
  pub key : List ℕ

-- `EpochKeyEntry`
pub record Entry : Type 0 where
  pub container_id : Uid
  pub epoch_id : Uid
  pub crypto_kit_id : Uid
  pub role_keys : List RoleKey

pub record SymKey : Type 0 where
  pub crypto_kit_id : Uid
  pub epoch_id : Uid
  pub role : ℕ
  pub bytes : List ℕ

-- `EpochKeyTome`: the entries, and the elected epochs by their containers.
pub record Tome : Type 0 where
  pub keys : List Entry
  pub current : List (Uid × Uid)

-- ErrStoreClosed, an unset EpochID, Code_KeyringNotFound, and what loading, sealing and saving return.
pub data StoreError : Type 0 where
  store_closed : StoreError
  unset_epoch : StoreError
  not_found : StoreError
  load_failed : StoreError
  seal_failed : StoreError
  save_failed : StoreError

-- `epochKeyStore`, with what its TomeStore holds.
pub record Store (Sealed : Type 0) : Type 0 where
  pub closed : Bool
  pub changed : Bool
  pub keys : List (Uid × Entry)
  pub current : List (Uid × Uid)
  pub disk : Option Sealed

-- `epochID[0] > cur[0] || (epochID[0] == cur[0] && epochID[1] > cur[1])`
unfoldable pub is_newer : Uid → Uid → Bool
is_newer epoch cur = ltb cur.w0 epoch.w0 || (epoch.w0 == cur.w0 && ltb cur.w1 epoch.w1)

abbrev pub is_due : Uid → Option Uid → Bool
is_due epoch none = true
is_due epoch (some cur) = is_newer epoch cur

-- An epoch becomes current where none is, or an older one.
unfoldable pub elect_newer : Uid → Uid → List (Uid × Uid) → List (Uid × Uid)
elect_newer container epoch current =
    if is_due epoch (find container current) then put container epoch current else current

-- The loop over a tome's keys.
unfoldable pub index_keys : List Entry → List (Uid × Entry) → List (Uid × Entry)
index_keys [] keys = keys
index_keys (entry ∷ entries) keys = index_keys entries (put entry.epoch_id entry keys)

unfoldable pub index_current : List Entry → List (Uid × Uid) → List (Uid × Uid)
index_current [] current = current
index_current (entry ∷ entries) current =
    index_current entries (elect_newer entry.container_id entry.epoch_id current)

-- The loop over a tome's elections: one at an epoch that is not held is skipped.
unfoldable pub apply_elections :
    List (Uid × Entry) → List (Uid × Uid) → List (Uid × Uid) → List (Uid × Uid)
apply_elections keys [] current = current
apply_elections keys ((container, epoch) ∷ elections) current =
    apply_elections keys elections
      (if holds epoch keys then put container epoch current else current)

abbrev pub empty_store : {Sealed : Type 0} → Store Sealed
empty_store = record { closed = false; changed = false; keys = []; current = []; disk = none }

unfoldable pub store_of_tome : {Sealed : Type 0} → Sealed → Tome → Store Sealed
store_of_tome sealed tome = record {
  closed = false;
  changed = false;
  keys = index_keys tome.keys [];
  current = apply_elections (index_keys tome.keys []) tome.current (index_current tome.keys []);
  disk = some sealed;
}

abbrev pub opened : {Sealed : Type 0} → Sealed → Option Tome → Store Sealed × Option StoreError
opened sealed none = (empty_store, some load_failed)
opened sealed (some tome) = (store_of_tome sealed tome, none)

-- `upsert` of PutKey: the first entry of the role is replaced, a new role is appended.
unfoldable pub upsert_role : ℕ → List ℕ → List RoleKey → List RoleKey
upsert_role r bytes [] = record { role = r; key = bytes } ∷ []
upsert_role r bytes (rk ∷ rks) =
    let rest = upsert_role r bytes rks in
    if rk.role == r then record rk { key = bytes } ∷ rks else rk ∷ rest

abbrev pub entry_or_new : Uid → SymKey → Option Entry → Entry
entry_or_new container key none = record {
  container_id = container;
  epoch_id = key.epoch_id;
  crypto_kit_id = key.crypto_kit_id;
  role_keys = [];
}
entry_or_new container key (some entry) = entry

-- The entry that PutKey leaves at the epoch.
unfoldable pub merged_entry : Uid → SymKey → Option Entry → Entry
merged_entry container key o = record (entry_or_new container key o) {
  role_keys = upsert_role key.role key.bytes (entry_or_new container key o).role_keys;
}

-- The first entry of a role.
unfoldable pub find_role : ℕ → List RoleKey → Option (List ℕ)
find_role r [] = none
find_role r (rk ∷ rks) = if rk.role == r then some rk.key else find_role r rks

-- The key of a role, with its entry's kit.
abbrev pub key_of_role : Uid → Uid → ℕ → Option (List ℕ) → Option SymKey
key_of_role kit epoch r none = none
key_of_role kit epoch r (some bytes) =
    some (record { crypto_kit_id = kit; epoch_id = epoch; role = r; bytes = bytes })

-- `none` is Code_KeyringNotFound.
abbrev pub key_of_entry : Option Entry → Uid → ℕ → Option SymKey
key_of_entry none epoch r = none
key_of_entry (some entry) epoch r =
    key_of_role entry.crypto_kit_id epoch r (find_role r entry.role_keys)

abbrev pub found_or_error : Option SymKey → SymKey ⊎ StoreError
found_or_error none = inr not_found
found_or_error (some key) = inl key

abbrev pub key_of_current : List (Uid × Entry) → Option Uid → ℕ → Option SymKey
key_of_current keys none r = none
key_of_current keys (some epoch) r = key_of_entry (find epoch keys) epoch r

-- The loop of ShredKeys, with whether an entry was removed.
unfoldable pub shred_epochs : List Uid → List (Uid × Entry) → List (Uid × Entry) × Bool
shred_epochs [] keys = (keys, false)
shred_epochs (epoch ∷ epochs) keys =
    let held = holds epoch keys in
    let (left, shredded) = shred_epochs epochs (if held then remove epoch keys else keys) in
    (left, held || shredded)

-- The loop that drops the current epochs that are not held.
unfoldable pub drop_dangling : List (Uid × Entry) → List (Uid × Uid) → List (Uid × Uid)
drop_dangling keys [] = []
drop_dangling keys ((container, epoch) ∷ current) =
    let rest = drop_dangling keys current in
    if holds epoch keys then (container, epoch) ∷ rest else rest
