-- ===== src/Safe/Keys/Durable.antt =====
-- What an operation that returns no error promises of the disk.
use amp_sdk.Base.{
  ◌≡◌, ◌⊎◌, inl, inr, refl, sym, ap, ◌∙◌, arith, Bool, true, false, not, ◌||◌, List, Option, none,
  some, if_either,
}
use amp_sdk.Tag.Uid.{is_set}
use amp_sdk.Tag.UidMap.{find, holds, or_else}
use amp_sdk.Safe.Keys.{Tome, StoreError, Store, empty_store, opened, store_of_tome, shred_epochs}
use amp_sdk.Safe.Keys.Session.{
  Attempt, open_store, save_sealed, persist, elected, shredded, install, put_key, set_current_epoch,
  shred_keys, close, close_after, zero_keys,
}
use amp_sdk.Safe.Keys.Lookup.{persist-keeps}
use amp_sdk.Safe.Keys.Reopen.{SameView, store_of_tome-IsMaps}
use amp_sdk.Safe.Keys.Runs.{
  Op, put_op, elect_op, shred_op, close_op, perform, run, IsSaved, IsSynced, IsStore, run-IsStore,
  perform-IsStore, saved-IsStore, persist-IsStore, false-true,
}

some-none : {A : Type 0} {a : A} → some a ≡ none → ⊥
some-none e = cc

or_else-same : {V : Type 0} (o : Option V) → or_else o o ≡ o
or_else-same none = refl
or_else-same (some v) = refl

refl-SameView : {Sealed : Type 0} (s : Store Sealed) → SameView s s
refl-SameView s = record {
  same_keys = λ e. refl;
  same_current = λ c. or_else-same (find c s.current);
}

module _ {Sealed Rand : Type 0} (seal : Rand → Tome → Option Sealed)
    (unseal : Sealed → Option Tome) where
  empty-IsStore : IsStore seal unseal empty_store
  empty-IsStore =
      saved-IsStore seal unseal empty_store
        record { distinct_keys = tt; keyed = tt; distinct_current = tt; held = tt }
        (refl, refl-SameView empty_store)

  opened-IsStore :
      (x : Sealed) (o : Option Tome) → unseal x ≡ o → IsStore seal unseal (opened x o).0
  unfolding store_of_tome
  opened-IsStore x none e = empty-IsStore
  opened-IsStore x (some t) e =
      saved-IsStore seal unseal (store_of_tome x t) (store_of_tome-IsMaps x t)
        (rw e (refl, refl-SameView (store_of_tome x t)))

  -- A store has its shape as soon as it is opened, on whatever Load returns.
  pub open_store-IsStore :
      (loaded : Option (Option Sealed)) → IsStore seal unseal (open_store unseal loaded).0
  open_store-IsStore none = empty-IsStore
  open_store-IsStore (some none) = empty-IsStore
  open_store-IsStore (some (some x)) = opened-IsStore x (unseal x) refl

  -- Where there is no error, the store is closed or has nothing left to save.
  abbrev CleanAfter : Store Sealed × Option StoreError → Type 0
  CleanAfter (s, none) = (s.closed ≡ true) ⊎ (s.changed ≡ false)
  CleanAfter (s, some err) = Unit

  save_sealed-clean :
      (io : Attempt Rand) (s : Store Sealed) (o : Option Sealed)
      → CleanAfter (save_sealed seal io s o)
  save_sealed-clean io s none = tt
  save_sealed-clean io s (some x) = if_either CleanAfter io.saves (λ saves. inr refl) λ fails. tt

  persist-clean : (io : Attempt Rand) (s : Store Sealed) → CleanAfter (persist seal io s)
  unfolding persist
  persist-clean io s = save_sealed-clean io s _

  close_after-clean : (p : Store Sealed × Option StoreError) → CleanAfter (close_after p)
  close_after-clean (s, none) = inl refl
  close_after-clean (s, some err) = tt

  perform-clean :
      (io : Attempt Rand) (op : Op) (s : Store Sealed) → CleanAfter (perform seal unseal io op s)
  unfolding perform put_key set_current_epoch shred_keys close
  perform-clean io (put_op container key) s =
      if_either CleanAfter s.closed (λ shut. tt)
        λ live.
          if_either CleanAfter (not (is_set key.epoch_id)) (λ unset. tt)
            λ given. persist-clean io (install container key s)
  perform-clean io (elect_op container epoch) s =
      if_either CleanAfter s.closed (λ shut. tt)
        λ live.
          if_either CleanAfter (not (holds epoch s.keys)) (λ missing. tt)
            λ held. persist-clean io (elected container epoch s)
  perform-clean io (shred_op epochs) s =
      if_either CleanAfter s.closed (λ shut. tt)
        λ live.
          if_either CleanAfter (not (s.changed || (shred_epochs epochs s.keys).1))
            (λ clean. inr (ground (arith, clean))) λ dirty. persist-clean io (shredded epochs s)
  perform-clean io close_op s =
      if_either CleanAfter s.closed (λ shut. inl shut) λ live. close_after-clean _

  synced-IsSaved :
      (s : Store Sealed) (closed changed : Bool)
      → closed ≡ false
      → changed ≡ false
      → IsSynced seal unseal closed changed s
      → IsSaved seal unseal s
  synced-IsSaved s true changed live clean h = absurd (false-true (sym live))
  synced-IsSaved s false true live clean h = absurd (false-true (sym clean))
  synced-IsSaved s false false live clean h = h

  clean-IsSaved :
      (p : Store Sealed × Option StoreError)
      → CleanAfter p
      → IsStore seal unseal p.0
      → p.1 ≡ none
      → p.0.closed ≡ false
      → IsSaved seal unseal p.0
  clean-IsSaved (s, some err) c h e live = absurd (some-none e)
  clean-IsSaved (s, none) (inl shut) h e live = absurd (false-true (sym live ∙ shut))
  clean-IsSaved (s, none) (inr clean) h e live =
      synced-IsSaved s s.closed s.changed live clean h.synced

  module _
      (unseal-seal : (rand : Rand) (t : Tome) (x : Sealed)
        → seal rand t ≡ some x
        → unseal x ≡ some t) where
    -- After any operations on an opened store, with saves that fail or not, an operation that returns no
    -- error and leaves the store open has the disk hold the store: opening it gives every epoch the
    -- entry that it has in memory, and every container the epoch that is elected for it.
    pub run-durable :
        (loaded : Option (Option Sealed)) (ops : List (Attempt Rand × Op)) (io : Attempt Rand)
        (op : Op)
        → (perform seal unseal io op (run seal unseal ops (open_store unseal loaded).0)).1 ≡ none
        → (perform seal unseal io op (run seal unseal ops (open_store unseal loaded).0)).0.closed
          ≡ false
        → IsSaved seal unseal
            (perform seal unseal io op (run seal unseal ops (open_store unseal loaded).0)).0
    run-durable loaded ops io op fine live =
        let before = run-IsStore seal unseal unseal-seal ops _ (open_store-IsStore loaded) in
        clean-IsSaved _ (perform-clean io op _)
          (perform-IsStore seal unseal unseal-seal io op _ before) fine live

    -- What Close leaves on the disk of a store that it closes.
    abbrev pub IsClosedOn : Store Sealed → Store Sealed × Option StoreError → Type 0
    IsClosedOn s p =
        (p.0.closed ≡ true)
        × ((open_store unseal (some p.0.disk)).1 ≡ none)
        × SameView (open_store unseal (some p.0.disk)).0 s

    saved-IsClosedOn :
        (s : Store Sealed) (p : Store Sealed × Option StoreError)
        → p.0.keys ≡ s.keys
        → p.0.current ≡ s.current
        → p.0.closed ≡ false
        → CleanAfter p
        → IsStore seal unseal p.0
        → (close_after p).1 ≡ none
        → IsClosedOn s (close_after p)
    unfolding zero_keys
    saved-IsClosedOn s (t, some err) keys current live clean h e = absurd (some-none e)
    saved-IsClosedOn s (t, none) keys current live clean h e =
        let reopened = (open_store unseal (some t.disk)).0 in
        let (fine, view) = clean-IsSaved (t, none) clean h refl live in
        (
          refl,
          fine,
          record {
            same_keys = λ x. view.same_keys x ∙ ap (find x) keys;
            same_current = λ c.
                ap (λ m. or_else (find c m) (find c reopened.current)) (sym current)
                ∙ view.same_current c;
          },
        )

    -- A Close of an open store that returns no error leaves it closed, and on the disk what the store
    -- had before, so also what an earlier operation could not save.
    pub close-durable :
        (io : Attempt Rand) (s : Store Sealed)
        → IsStore seal unseal s
        → s.closed ≡ false
        → (close seal io s).1 ≡ none
        → IsClosedOn s (close seal io s)
    unfolding close
    close-durable io s h live fine =
        if_either (λ p. p.1 ≡ none → IsClosedOn s p) s.closed
          (λ shut. absurd (false-true (sym live ∙ shut)))
          (λ still.
            if_either (λ q. (close_after q).1 ≡ none → IsClosedOn s (close_after q)) s.changed
              (λ dirty.
                let (keys, current, closed) = persist-keeps seal io s in
                saved-IsClosedOn s _ keys current (closed ∙ live) (persist-clean io s)
                  (persist-IsStore seal unseal unseal-seal io s h.maps dirty))
              (λ clean. saved-IsClosedOn s (s, none) refl refl live (inr clean) h))
          fine
