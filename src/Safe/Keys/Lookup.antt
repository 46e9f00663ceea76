-- ===== src/Safe/Keys/Lookup.antt =====
-- What GetKey returns behind PutKey and ShredKeys.
use amp_sdk.Base.{
  ℕ, ◌≡◌, refl, sym, ap, ◌∙◌, arith, true, false, ◌||◌, List, [], Option, none, some, inl, inr, ◌⊎◌,
  ◌==◌, if◌then◌else◌, Bool-cases,
}
use amp_sdk.Tag.Uid.{Uid, is_set, same_uid}
use amp_sdk.Tag.UidMap.{find, find-put, same_uid_iff}
use amp_sdk.Safe.Keys.{
  Entry, SymKey, Tome, StoreError, Store, merged_entry, find_role, key_of_entry, key_of_role,
  found_or_error, shred_epochs, not_found,
}
use amp_sdk.Safe.Keys.Session.{
  Attempt, persist, save_sealed, install, put_key, get_key, shred_keys, shredded,
}
use amp_sdk.Safe.Keys.Roles.{find_role-upsert_role, find-shred_epochs, among}

abbrev kit_of : SymKey → Option Entry → Uid
kit_of key none = key.crypto_kit_id
kit_of key (some entry) = entry.crypto_kit_id

-- What a lookup of one epoch and role returns behind a PutKey of `key` into the entry `o`.
abbrev pub key_after_put : SymKey → Option Entry → ℕ → SymKey ⊎ StoreError → SymKey ⊎ StoreError
key_after_put key o r before =
    if key.role == r then inl (record key { crypto_kit_id = kit_of key o }) else before

role-put :
    (key : SymKey) (kit : Uid) (r : ℕ) (old : Option (List ℕ))
    → found_or_error
        (key_of_role kit key.epoch_id r (if key.role == r then some key.bytes else old))
      ≡ (if key.role == r
          then inl (record key { crypto_kit_id = kit })
          else found_or_error (key_of_role kit key.epoch_id r old))
role-put key kit r old = elim (Bool-cases (key.role == r)) [
  | inl same ↦ let e : key.role ≡ r = ground arith in rw (same, sym e) refl
  | inr other ↦ rw other refl
]

entry-put :
    (container : Uid) (key : SymKey) (o : Option Entry) (r : ℕ)
    → found_or_error (key_of_entry (some (merged_entry container key o)) key.epoch_id r)
      ≡ key_after_put key o r (found_or_error (key_of_entry o key.epoch_id r))
unfolding merged_entry find_role
entry-put container key none r =
    rw (find_role-upsert_role r key.role key.bytes []) (role-put key key.crypto_kit_id r none)
entry-put container key (some entry) r =
    rw (find_role-upsert_role r key.role key.bytes entry.role_keys)
      (role-put key entry.crypto_kit_id r _)

module _ {Sealed Rand : Type 0} (seal : Rand → Tome → Option Sealed) where
  save_sealed-keeps :
      (io : Attempt Rand) (s : Store Sealed) (o : Option Sealed)
      → ((save_sealed seal io s o).0.keys ≡ s.keys)
        × ((save_sealed seal io s o).0.current ≡ s.current)
        × ((save_sealed seal io s o).0.closed ≡ s.closed)
  save_sealed-keeps io s none = (refl, refl, refl)
  save_sealed-keeps io s (some sealed) = (ground arith, ground arith, ground arith)

  -- Persisting changes neither map, whether or not it succeeds.
  pub persist-keeps :
      (io : Attempt Rand) (s : Store Sealed)
      → ((persist seal io s).0.keys ≡ s.keys)
        × ((persist seal io s).0.current ≡ s.current)
        × ((persist seal io s).0.closed ≡ s.closed)
  unfolding persist
  persist-keeps io s = save_sealed-keeps io s _

  put_key-persist :
      (io : Attempt Rand) (container : Uid) (key : SymKey) (s : Store Sealed)
      → s.closed ≡ false
      → is_set key.epoch_id ≡ true
      → put_key seal io container key s ≡ persist seal io (install container key s)
  unfolding put_key
  put_key-persist io container key s live given = rw (live, given) refl

  get_key-live :
      (c e : Uid) (r : ℕ) (s : Store Sealed)
      → s.closed ≡ false
      → get_key c e r s ≡ found_or_error (key_of_entry (find e s.keys) e r)
  unfolding get_key
  get_key-live c e r s live = rw live refl

  -- Behind PutKey of a set epoch into an open store, GetKey returns the new key for its epoch and role,
  -- with the kit of the entry that the epoch had before, and for every other epoch and role what it
  -- returned before; whether or not the store is saved.
  pub get_key-put_key :
      (io : Attempt Rand) (container : Uid) (key : SymKey) (s : Store Sealed) (c e : Uid) (r : ℕ)
      → s.closed ≡ false
      → is_set key.epoch_id ≡ true
      → get_key c e r (put_key seal io container key s).0 ≡ (
          if same_uid key.epoch_id e
          then key_after_put key (find e s.keys) r (get_key c e r s)
          else get_key c e r s)
  unfolding install
  get_key-put_key io container key s c e r live given =
      let t = (put_key seal io container key s).0 in
      let put_step = put_key-persist io container key s live given in
      let (keys, current, closed) = persist-keeps io (install container key s) in
      let t_live : t.closed ≡ false = ap (λ p. p.0.closed) put_step ∙ closed ∙ live in
      let found = ap (λ p. find e p.0.keys) put_step ∙ ap (find e) keys ∙ find-put e _ _ _ in
      get_key-live c e r t t_live
      ∙ ap (λ o. found_or_error (key_of_entry o e r)) found
      ∙ rw (get_key-live c e r s live) (elim (Bool-cases (same_uid key.epoch_id e)) [
        | inl same ↦
            let at : key.epoch_id ≡ e = (same_uid_iff key.epoch_id e).0 same in
            rw (same, sym at) (entry-put container key (find key.epoch_id s.keys) r)
        | inr other ↦ rw other refl
      ])

  shred_keys-keeps :
      (io : Attempt Rand) (epochs : List Uid) (s : Store Sealed)
      → s.closed ≡ false
      → ((shred_keys seal io epochs s).0.keys ≡ (shred_epochs epochs s.keys).0)
        × ((shred_keys seal io epochs s).0.closed ≡ false)
  unfolding shred_keys shredded
  shred_keys-keeps io epochs s live =
      elim (Bool-cases (s.changed || (shred_epochs epochs s.keys).1)) [
        | inl dirty ↦
            let (keys, current, closed) = persist-keeps io (shredded epochs s) in
            let step : shred_keys seal io epochs s ≡ persist seal io (shredded epochs s) =
              rw (live, dirty) refl in
            (ap (λ p. p.0.keys) step ∙ keys, ap (λ p. p.0.closed) step ∙ closed ∙ live)
        | inr clean ↦ rw (live, clean) (refl, refl)
      ]

  -- Behind ShredKeys on an open store, GetKey finds no key of the shredded epochs, and of every other epoch
  -- what it found before; whether or not the store is saved.
  pub get_key-shred_keys :
      (io : Attempt Rand) (epochs : List Uid) (s : Store Sealed) (c e : Uid) (r : ℕ)
      → s.closed ≡ false
      → get_key c e r (shred_keys seal io epochs s).0
        ≡ (if among e epochs then inr not_found else get_key c e r s)
  get_key-shred_keys io epochs s c e r live =
      let (keys, closed) = shred_keys-keeps io epochs s live in
      get_key-live c e r _ closed
      ∙ ap (λ o. found_or_error (key_of_entry o e r))
          (ap (find e) keys ∙ find-shred_epochs e epochs s.keys)
      ∙ rw (get_key-live c e r s live) (ground arith)
