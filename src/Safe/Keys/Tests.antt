-- ===== src/Safe/Keys/Tests.antt =====
-- The theorems on the store of epoch keys at a store with an entry, and at saves that fail.
use amp_sdk.Base.{ℕ, ◌≡◌, refl, true, false, [], ◌∷◌, Option, none, some, if◌then◌else◌, All}
use amp_sdk.Tag.Uid.{Uid, is_set, same_uid}
use amp_sdk.Tag.UidMap.{find, put, remove, holds, or_else}
use amp_sdk.Safe.Keys.{Entry, SymKey, Tome, Store, store_of_tome, merged_entry}
use amp_sdk.Safe.Keys.Session.{
  Attempt, open_store, persist, tome_of, install, elected, put_key, get_key, set_current_epoch,
  close,
}
use amp_sdk.Safe.Keys.Lookup.{get_key-put_key, key_after_put}
use amp_sdk.Safe.Keys.Current.{IsMaps}
use amp_sdk.Safe.Keys.Newest.{newest, is_within}
use amp_sdk.Safe.Keys.Reopen.{rebuilt_current-newest}
use amp_sdk.Safe.Keys.Runs.{put_op, elect_op, shred_op, perform, run, IsSaved, IsStore, run-IsStore}
use amp_sdk.Safe.Keys.Durable.{run-durable}

abbrev uid : ℕ → Uid
uid n = record { w0 = 0; w1 = n }

abbrev entry : Entry
entry = record {
  container_id = uid 1;
  epoch_id = uid 7;
  crypto_kit_id = uid 3;
  role_keys = record { role = 1; key = 4 ∷ [] } ∷ [];
}

abbrev key : SymKey
key = record { crypto_kit_id = uid 3; epoch_id = uid 7; role = 2; bytes = 5 ∷ [] }

abbrev store : Store Tome
store = record {
  closed = false;
  changed = true;
  keys = (uid 7, entry) ∷ [];
  current = (uid 1, uid 7) ∷ [];
  disk = none;
}

abbrev seal : ℕ → Tome → Option Tome
seal rand t = some t

abbrev unseal : Tome → Option Tome
unseal t = some t

unseal-seal : (rand : ℕ) (t x : Tome) → seal rand t ≡ some x → unseal x ≡ some t
unseal-seal rand t x e = cc

abbrev saves : Attempt ℕ
saves = record { rand = 0; saves = true }

abbrev fails : Attempt ℕ
fails = record { rand = 0; saves = false }

key_set : is_set (uid 7) ≡ true
unfolding is_set
key_set = refl

held-IsMaps : IsMaps ((uid 7, entry) ∷ []) ((uid 1, uid 7) ∷ [])
unfolding holds find same_uid
held-IsMaps = record {
  distinct_keys = (refl, tt);
  keyed = (refl, tt);
  distinct_current = (refl, tt);
  held = (refl, tt);
}

get_key-put_key_example : get_key (uid 9) (uid 7) 2 (put_key seal fails (uid 1) key store).0 ≡ (
    if same_uid (uid 7) (uid 7)
    then key_after_put key (find (uid 7) store.keys) 2 (get_key (uid 9) (uid 7) 2 store)
    else get_key (uid 9) (uid 7) 2 store)
get_key-put_key_example =
    get_key-put_key seal fails (uid 1) key store (uid 9) (uid 7) 2 refl key_set

rebuilt_current-newest_example :
    (find (uid 1) (store_of_tome (tome_of store) (tome_of store)).current
      ≡ or_else (find (uid 1) store.current) (newest (uid 1) (entry ∷ []) none))
    × All (λ x. is_within (uid 1) (newest (uid 1) (entry ∷ []) none) x ≡ true) (entry ∷ [])
rebuilt_current-newest_example = rebuilt_current-newest (tome_of store) store held-IsMaps (uid 1)

store-IsStore : IsStore seal unseal store
store-IsStore = record { maps = held-IsMaps; synced = tt }

run-IsStore_example :
    IsStore seal unseal
      (run seal unseal ((saves, put_op (uid 1) key) ∷ (fails, shred_op (uid 7 ∷ [])) ∷ []) store)
run-IsStore_example =
    run-IsStore seal unseal unseal-seal
      ((saves, put_op (uid 1) key) ∷ (fails, shred_op (uid 7 ∷ [])) ∷ []) store store-IsStore

abbrev failed_put : Store Tome
failed_put = run seal unseal ((fails, put_op (uid 1) key) ∷ []) (open_store unseal (some none)).0

elected_fine : (perform seal unseal saves (elect_op (uid 2) (uid 7)) failed_put).1 ≡ none
unfolding perform put_key set_current_epoch persist install elected is_set holds find put remove
    same_uid merged_entry
elected_fine = refl

elected_open : (perform seal unseal saves (elect_op (uid 2) (uid 7)) failed_put).0.closed ≡ false
unfolding perform put_key set_current_epoch persist install elected is_set holds find put remove
    same_uid merged_entry
elected_open = refl

run-durable_example :
    IsSaved seal unseal (perform seal unseal saves (elect_op (uid 2) (uid 7)) failed_put).0
run-durable_example =
    run-durable seal unseal unseal-seal (some none) ((fails, put_op (uid 1) key) ∷ []) saves
      (elect_op (uid 2) (uid 7)) elected_fine elected_open

closed_fine : (close seal saves store).1 ≡ none
unfolding close persist
closed_fine = refl
