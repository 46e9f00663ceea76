-- ===== src/Safe/Keys/Runs.antt =====
-- Sequences of operations on a store of epoch keys, with saves that may fail: what the disk has of it.
use amp_sdk.Base.{
  ◌≡◌, refl, sym, ap, subst, arith, Bool, true, false, not, ◌||◌, List, [], ◌∷◌, Option, none, some,
  inl, inr, Bool-cases, if_either,
}
use amp_sdk.Tag.Uid.{Uid, is_set}
use amp_sdk.Tag.UidMap.{holds}
use amp_sdk.Safe.Keys.{Entry, SymKey, Tome, StoreError, Store, merged_entry, shred_epochs}
use amp_sdk.Safe.Keys.Session.{
  Attempt, open_store, save_sealed, persist, tome_of, install, elected, shredded, put_key,
  set_current_epoch, shred_keys, close, close_after, zero_keys,
}
use amp_sdk.Safe.Keys.Roles.{shred_epochs-none}
use amp_sdk.Safe.Keys.Current.{
  IsMaps, install-IsMaps, elect-IsMaps, shredded-IsMaps, find-OwnAt, OwnAt,
}
use amp_sdk.Safe.Keys.Reopen.{SameView, tome_of-SameView}

pub false-true : false ≡ true → ⊥
false-true e = cc

merged_entry-own :
    (container : Uid) (key : SymKey) (o : Option Entry)
    → OwnAt key.epoch_id o
    → (merged_entry container key o).epoch_id ≡ key.epoch_id
unfolding merged_entry
merged_entry-own container key none h = refl
merged_entry-own container key (some entry) h = h

-- The operations that change a store.
pub data Op : Type 0 where
  put_op : Uid → SymKey → Op
  elect_op : Uid → Uid → Op
  shred_op : List Uid → Op
  close_op : Op

module _ {Sealed Rand : Type 0} (seal : Rand → Tome → Option Sealed)
    (unseal : Sealed → Option Tome) where
  unfoldable pub perform : Attempt Rand → Op → Store Sealed → Store Sealed × Option StoreError
  perform io (put_op container key) s = put_key seal io container key s
  perform io (elect_op container epoch) s = set_current_epoch seal io container epoch s
  perform io (shred_op epochs) s = shred_keys seal io epochs s
  perform io close_op s = close seal io s

  abbrev pub run : List (Attempt Rand × Op) → Store Sealed → Store Sealed
  run [] s = s
  run ((io, op) ∷ ops) s = run ops (perform io op s).0

  -- Opening the disk of a store gives a store of the same view, with no error.
  abbrev pub IsSaved : Store Sealed → Type 0
  IsSaved s =
      ((open_store unseal (some s.disk)).1 ≡ none) × SameView (open_store unseal (some s.disk)).0 s

  -- A store that is open and not changed is saved.
  abbrev pub IsSynced : Bool → Bool → Store Sealed → Type 0
  IsSynced true changed s = Unit
  IsSynced false true s = Unit
  IsSynced false false s = IsSaved s

  pub record IsStore (s : Store Sealed) : Type 0 where
    pub maps : IsMaps s.keys s.current
    pub synced : IsSynced s.closed s.changed s

  changed-IsStore : (s : Store Sealed) → IsMaps s.keys s.current → s.changed ≡ true → IsStore s
  changed-IsStore s m dirty = record { maps = m; synced = vacuous s.closed s.changed dirty }
    where
      vacuous : (closed changed : Bool) → changed ≡ true → IsSynced closed changed s
      vacuous true changed h = tt
      vacuous false true h = tt
      vacuous false false h = absurd (false-true h)

  pub saved-IsStore : (s : Store Sealed) → IsMaps s.keys s.current → IsSaved s → IsStore s
  saved-IsStore s m saved = record { maps = m; synced = known s.closed s.changed }
    where
      known : (closed changed : Bool) → IsSynced closed changed s
      known true changed = tt
      known false true = tt
      known false false = saved

  module _
      (unseal-seal : (rand : Rand) (t : Tome) (x : Sealed)
        → seal rand t ≡ some x
        → unseal x ≡ some t) where
    sealed-IsSaved :
        (rand : Rand) (s : Store Sealed) (x : Sealed)
        → IsMaps s.keys s.current
        → seal rand (tome_of s) ≡ some x
        → IsSaved (record s { changed = false; disk = some x })
    unfolding tome_of
    sealed-IsSaved rand s x m sealed =
        rw (unseal-seal rand (tome_of s) x sealed)
          (refl, tome_of-SameView x (record s { changed = false; disk = some x }) m)

    save_sealed-IsStore :
        (io : Attempt Rand) (s : Store Sealed) (o : Option Sealed)
        → IsMaps s.keys s.current
        → s.changed ≡ true
        → seal io.rand (tome_of s) ≡ o
        → IsStore (save_sealed seal io s o).0
    unfolding tome_of
    save_sealed-IsStore io s none m dirty e = changed-IsStore s m dirty
    save_sealed-IsStore io s (some x) m dirty e = elim (Bool-cases io.saves) [
      | inl saves ↦
          let t = record s { changed = false; disk = some x } in
          rw saves (saved-IsStore t m (sealed-IsSaved io.rand s x m e))
      | inr fails ↦ rw fails (changed-IsStore s m dirty)
    ]

    -- Persisting a changed store.
    pub persist-IsStore :
        (io : Attempt Rand) (s : Store Sealed)
        → IsMaps s.keys s.current
        → s.changed ≡ true
        → IsStore (persist seal io s).0
    unfolding persist
    persist-IsStore io s m dirty = save_sealed-IsStore io s _ m dirty refl

    -- The store that an operation leaves.
    abbrev LeavesStore : Store Sealed × Option StoreError → Type 0
    LeavesStore p = IsStore p.0

    put_key-IsStore :
        (io : Attempt Rand) (container : Uid) (key : SymKey) (s : Store Sealed)
        → IsStore s
        → IsStore (put_key seal io container key s).0
    unfolding put_key install
    put_key-IsStore io container key s h =
        let own = merged_entry-own container key _ (find-OwnAt key.epoch_id s.keys h.maps.keyed) in
        if_either LeavesStore s.closed (λ shut. h)
          λ live.
            if_either LeavesStore (not (is_set key.epoch_id)) (λ unset. h)
              λ given.
                persist-IsStore io (install container key s)
                  (install-IsMaps container key.epoch_id _ own h.maps) refl

    set_current_epoch-IsStore :
        (io : Attempt Rand) (container epoch : Uid) (s : Store Sealed)
        → IsStore s
        → IsStore (set_current_epoch seal io container epoch s).0
    unfolding set_current_epoch elected
    set_current_epoch-IsStore io container epoch s h =
        if_either LeavesStore s.closed (λ shut. h)
          λ live.
            if_either LeavesStore (not (holds epoch s.keys)) (λ missing. h)
              λ held.
                persist-IsStore io (elected container epoch s)
                  (elect-IsMaps container epoch (ground (arith, held)) h.maps) refl

    shred_keys-IsStore :
        (io : Attempt Rand) (epochs : List Uid) (s : Store Sealed)
        → IsStore s
        → IsStore (shred_keys seal io epochs s).0
    unfolding shred_keys shredded
    shred_keys-IsStore io epochs s h =
        let dirty = s.changed || (shred_epochs epochs s.keys).1 in
        if_either LeavesStore s.closed (λ shut. h)
          λ live.
            if_either LeavesStore (not dirty)
              (λ clean.
                let same = shred_epochs-none epochs s.keys (ground (arith, clean)) in
                subst IsStore (ap (λ keys. record s { keys = keys }) (sym same)) h)
              λ changed.
                persist-IsStore io (shredded epochs s) (shredded-IsMaps epochs h.maps)
                  (ground (arith, changed))

    close_after-IsStore :
        (p : Store Sealed × Option StoreError) → IsStore p.0 → IsStore (close_after p).0
    unfolding zero_keys
    close_after-IsStore (s, none) h = record {
      maps = record { distinct_keys = tt; keyed = tt; distinct_current = tt; held = tt };
      synced = tt;
    }
    close_after-IsStore (s, some err) h = h

    close-IsStore : (io : Attempt Rand) (s : Store Sealed) → IsStore s → IsStore (close seal io s).0
    unfolding close
    close-IsStore io s h =
        if_either LeavesStore s.closed (λ shut. h)
          λ live. close_after-IsStore _ (
            if_either LeavesStore s.changed (λ dirty. persist-IsStore io s h.maps dirty) λ clean. h)

    pub perform-IsStore :
        (io : Attempt Rand) (op : Op) (s : Store Sealed) → IsStore s → IsStore (perform io op s).0
    unfolding perform
    perform-IsStore io (put_op container key) s h = put_key-IsStore io container key s h
    perform-IsStore io (elect_op container epoch) s h =
        set_current_epoch-IsStore io container epoch s h
    perform-IsStore io (shred_op epochs) s h = shred_keys-IsStore io epochs s h
    perform-IsStore io close_op s h = close-IsStore io s h

    -- Every sequence of operations, failing ones included, keeps the store's shape: distinct epochs, each
    -- entry at its own epoch, one election at most for a container, every elected epoch held, and, while
    -- the store is open and not changed, a disk that opens to its view.
    pub run-IsStore :
        (ops : List (Attempt Rand × Op)) (s : Store Sealed) → IsStore s → IsStore (run ops s)
    run-IsStore [] s h = h
    run-IsStore ((io, op) ∷ ops) s h = run-IsStore ops _ (perform-IsStore io op s h)
