-- ===== src/Safe/Keys/Reopen.antt =====
-- What OpenEpochKeyStore rebuilds from the tome of a store.
use amp_sdk.Base.{
  ◌≡◌, refl, sym, ap, ◌∙◌, subst, true, List, [], ◌∷◌, map, Option, none, some, inl, inr,
  Bool-cases, All, All-map,
}
use amp_sdk.Tag.Uid.{Uid, same_uid}
use amp_sdk.Tag.UidMap.{find, put, holds, is_some, find-put, same_uid_iff, DistinctKeys, or_else}
use amp_sdk.Safe.Keys.{
  Entry, Tome, Store, index_keys, index_current, apply_elections, store_of_tome,
}
use amp_sdk.Safe.Keys.Session.{tome_of}
use amp_sdk.Safe.Keys.Newest.{newest, find-index_current, newest-bounds, is_within}
use amp_sdk.Safe.Keys.Current.{IsKeyed, IsHeld, IsMaps, install-IsMaps, elect-IsMaps}

-- Whatever the tome says, the maps that are rebuilt have their shape.
index-IsMaps :
    (entries : List Entry) {keys : List (Uid × Entry)} {current : List (Uid × Uid)}
    → IsMaps keys current
    → IsMaps (index_keys entries keys) (index_current entries current)
unfolding index_keys index_current
index-IsMaps [] m = m
index-IsMaps (x ∷ xs) m = index-IsMaps xs (install-IsMaps x.container_id x.epoch_id x refl m)

apply-IsMaps :
    (elections : List (Uid × Uid)) {keys : List (Uid × Entry)} {current : List (Uid × Uid)}
    → IsMaps keys current
    → IsMaps keys (apply_elections keys elections current)
unfolding apply_elections
apply-IsMaps [] m = m
apply-IsMaps ((c, e) ∷ elections) {keys} {current} m = elim (Bool-cases (holds e keys)) [
  | inl held ↦ rw held (apply-IsMaps elections (elect-IsMaps c e held m))
  | inr missing ↦ rw missing (apply-IsMaps elections m)
]

pub store_of_tome-IsMaps :
    {Sealed : Type 0} (sealed : Sealed) (t : Tome)
    → IsMaps (store_of_tome sealed t).keys (store_of_tome sealed t).current
unfolding store_of_tome
store_of_tome-IsMaps sealed t = apply-IsMaps t.current (
    index-IsMaps t.keys record { distinct_keys = tt; keyed = tt; distinct_current = tt; held = tt })

find-index_keys :
    (e : Uid) (m acc : List (Uid × Entry))
    → DistinctKeys m
    → IsKeyed m
    → find e (index_keys (map (λ kv. kv.1) m) acc) ≡ or_else (find e m) (find e acc)
unfolding index_keys find
find-index_keys e [] acc d h = refl
find-index_keys e ((k, x) ∷ m) acc (fresh, d) (own, h) =
    find-index_keys e m (put x.epoch_id x acc) d h
    ∙ rw (find-put e x.epoch_id x acc, own)
        (elim (Bool-cases (same_uid k e)) [
          | inl same ↦ let at : k ≡ e = (same_uid_iff k e).0 same in rw (same, sym at, fresh) refl
          | inr other ↦ rw other refl
        ])

find-apply_elections :
    (c : Uid) (keys : List (Uid × Entry)) (m acc : List (Uid × Uid))
    → DistinctKeys m
    → IsHeld keys m
    → find c (apply_elections keys m acc) ≡ or_else (find c m) (find c acc)
unfolding apply_elections find
find-apply_elections c keys [] acc d h = refl
find-apply_elections c keys ((k, e) ∷ m) acc (fresh, d) (held, h) =
    rw (held, find-apply_elections c keys m (put k e acc) d h, find-put c k e acc)
      (elim (Bool-cases (same_uid k c)) [
        | inl same ↦ let at : k ≡ c = (same_uid_iff k c).0 same in rw (same, sym at, fresh) refl
        | inr other ↦ rw other refl
      ])

-- What a store that is opened on the disk of `s` has of it: the entries of all epochs, and each election.
pub record SameView {Sealed : Type 0} (t s : Store Sealed) : Type 0 where
  pub same_keys : (e : Uid) → find e t.keys ≡ find e s.keys
  pub same_current : (c : Uid) → or_else (find c s.current) (find c t.current) ≡ find c t.current

or_else-none : {V : Type 0} (o : Option V) → or_else o none ≡ o
or_else-none none = refl
or_else-none (some v) = refl

or_else-twice : {V : Type 0} (o p q : Option V) → q ≡ or_else o p → or_else o q ≡ q
or_else-twice none p q h = refl
or_else-twice (some v) p q h = sym h

module _ {Sealed : Type 0} (sealed : Sealed) (s : Store Sealed) where
  rebuilt_keys :
      IsMaps s.keys s.current
      → (e : Uid) → find e (index_keys (map (λ kv. kv.1) s.keys) []) ≡ find e s.keys
  unfolding find
  rebuilt_keys m e = find-index_keys e s.keys [] m.distinct_keys m.keyed ∙ or_else-none _

  rebuilt_current :
      IsMaps s.keys s.current
      → (c : Uid)
      → find c (store_of_tome sealed (tome_of s)).current
        ≡ or_else (find c s.current) (newest c (map (λ kv. kv.1) s.keys) none)
  unfolding store_of_tome tome_of find holds
  rebuilt_current m c =
      let held =
        All-map s.current (λ ce h. subst (λ o. is_some o ≡ true) (sym (rebuilt_keys m ce.1)) h)
          m.held in
      find-apply_elections c _ s.current _ m.distinct_current held
      ∙ ap (or_else (find c s.current)) (find-index_current c (map (λ kv. kv.1) s.keys) [])

  pub tome_of-SameView : IsMaps s.keys s.current → SameView (store_of_tome sealed (tome_of s)) s
  unfolding store_of_tome tome_of
  tome_of-SameView m = record {
    same_keys = rebuilt_keys m;
    same_current = λ c. or_else-twice (find c s.current) _ _ (rebuilt_current m c);
  }

  -- The current epoch of a container in a store that is opened on the tome of `s`: the one elected in
  -- `s`, or else the newest of the container's epochs that `s` holds, which no entry of the container
  -- exceeds and which is missing only where the container has no entry.
  pub rebuilt_current-newest :
      IsMaps s.keys s.current
      → (c : Uid)
      → (find c (store_of_tome sealed (tome_of s)).current
          ≡ or_else (find c s.current) (newest c (map (λ kv. kv.1) s.keys) none))
        × All
            (λ x. is_within c (newest c (map (λ kv. kv.1) s.keys) none) x ≡ true)
            (map (λ kv. kv.1) s.keys)
  rebuilt_current-newest m c = (rebuilt_current m c, newest-bounds c (map (λ kv. kv.1) s.keys) none)
