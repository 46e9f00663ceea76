-- ===== src/Safe/Keys/Current.antt =====
-- The shape of the two maps of a store, which every write to them keeps: their keys are distinct, an entry
-- stands at its own epoch, and every current epoch is held.
use amp_sdk.Base.{
  ◌≡◌, refl, ◌∙◌, arith, true, List, [], ◌∷◌, Option, none, some, inl, inr, Bool-cases, All,
  All-map,
}
use amp_sdk.Tag.Uid.{Uid, same_uid}
use amp_sdk.Tag.UidMap.{
  find, put, remove, holds, find-put, same_uid_iff, same_uid_refl, find-cons-none, DistinctKeys,
  put-DistinctKeys, remove-DistinctKeys, remove-All,
}
use amp_sdk.Safe.Keys.{Entry, elect_newer, is_due, shred_epochs, drop_dangling}

abbrev pub IsKeyed : List (Uid × Entry) → Type 0
IsKeyed keys = All (λ kv. kv.1.epoch_id ≡ kv.0) keys

abbrev pub IsHeld : List (Uid × Entry) → List (Uid × Uid) → Type 0
IsHeld keys current = All (λ ce. holds ce.1 keys ≡ true) current

pub record IsMaps (keys : List (Uid × Entry)) (current : List (Uid × Uid)) : Type 0 where
  pub distinct_keys : DistinctKeys keys
  pub keyed : IsKeyed keys
  pub distinct_current : DistinctKeys current
  pub held : IsHeld keys current

pub holds-put :
    (e k : Uid) (entry : Entry) (keys : List (Uid × Entry))
    → holds e keys ≡ true
    → holds e (put k entry keys) ≡ true
unfolding holds
holds-put e k entry keys h = rw (find-put e k entry keys) (ground (arith, h))

holds-put-same :
    (k : Uid) (entry : Entry) (keys : List (Uid × Entry)) → holds k (put k entry keys) ≡ true
unfolding holds
holds-put-same k entry keys = rw (find-put k k entry keys, same_uid_refl k) refl

put-IsHeld :
    (keys : List (Uid × Entry)) (c e : Uid) (current : List (Uid × Uid))
    → holds e keys ≡ true
    → IsHeld keys current
    → IsHeld keys (put c e current)
unfolding put
put-IsHeld keys c e current h hs = (h, remove-All _ c current hs)

pub put-IsMaps :
    (k : Uid) (entry : Entry) {keys : List (Uid × Entry)} {current : List (Uid × Uid)}
    → entry.epoch_id ≡ k
    → IsMaps keys current
    → IsMaps (put k entry keys) current
unfolding put
put-IsMaps k entry {keys} {current} own m = record {
  distinct_keys = put-DistinctKeys k entry keys m.distinct_keys;
  keyed = (own, remove-All _ k keys m.keyed);
  distinct_current = m.distinct_current;
  held = All-map current (λ ce h. holds-put ce.1 k entry keys h) m.held;
}

pub elect-IsMaps :
    (c e : Uid) {keys : List (Uid × Entry)} {current : List (Uid × Uid)}
    → holds e keys ≡ true
    → IsMaps keys current
    → IsMaps keys (put c e current)
elect-IsMaps c e {keys} {current} h m = record {
  distinct_keys = m.distinct_keys;
  keyed = m.keyed;
  distinct_current = put-DistinctKeys c e current m.distinct_current;
  held = put-IsHeld keys c e current h m.held;
}

pub elect_newer-IsMaps :
    (c e : Uid) {keys : List (Uid × Entry)} {current : List (Uid × Uid)}
    → holds e keys ≡ true
    → IsMaps keys current
    → IsMaps keys (elect_newer c e current)
unfolding elect_newer
elect_newer-IsMaps c e {keys} {current} h m = elim (Bool-cases (is_due e (find c current))) [
  | inl due ↦ rw due (elect-IsMaps c e h m)
  | inr late ↦ rw late m
]

-- The new entry stands at its epoch, and its epoch can be current.
pub install-IsMaps :
    (c : Uid) (k : Uid) (entry : Entry) {keys : List (Uid × Entry)} {current : List (Uid × Uid)}
    → entry.epoch_id ≡ k
    → IsMaps keys current
    → IsMaps (put k entry keys) (elect_newer c k current)
install-IsMaps c k entry {keys} own m =
    elect_newer-IsMaps c k (holds-put-same k entry keys) (put-IsMaps k entry own m)

-- The entry, if there is one, stands at the epoch.
abbrev pub OwnAt : Uid → Option Entry → Type 0
OwnAt k none = Unit
OwnAt k (some entry) = entry.epoch_id ≡ k

pub find-OwnAt : (k : Uid) (keys : List (Uid × Entry)) → IsKeyed keys → OwnAt k (find k keys)
unfolding find
find-OwnAt k [] h = tt
find-OwnAt k ((j, x) ∷ keys) (own, h) = elim (Bool-cases (same_uid j k)) [
  | inl same ↦ rw same (own ∙ (same_uid_iff j k).0 same)
  | inr other ↦ rw other (find-OwnAt k keys h)
]

shred-IsMaps :
    (epochs : List Uid) (keys : List (Uid × Entry))
    → DistinctKeys keys
    → IsKeyed keys
    → DistinctKeys (shred_epochs epochs keys).0 × IsKeyed (shred_epochs epochs keys).0
unfolding shred_epochs
shred-IsMaps [] keys d h = (d, h)
shred-IsMaps (x ∷ xs) keys d h = elim (Bool-cases (holds x keys)) [
  | inl held ↦
      rw held
        (shred-IsMaps xs (remove x keys) (remove-DistinctKeys x keys d) (remove-All _ x keys h))
  | inr missing ↦ rw missing (shred-IsMaps xs keys d h)
]

find-drop_dangling :
    (keys : List (Uid × Entry)) (c : Uid) (current : List (Uid × Uid))
    → find c current ≡ none
    → find c (drop_dangling keys current) ≡ none
unfolding find drop_dangling
find-drop_dangling keys c [] h = refl
find-drop_dangling keys c ((d, e) ∷ current) h =
    let (other, rest) = find-cons-none c d e current h in
    let gone = find-drop_dangling keys c current rest in
    elim (Bool-cases (holds e keys)) [
      | inl held ↦ rw (held, other) gone
      | inr missing ↦ rw missing gone
    ]

drop_dangling-IsHeld :
    (keys : List (Uid × Entry)) (current : List (Uid × Uid))
    → DistinctKeys current
    → DistinctKeys (drop_dangling keys current) × IsHeld keys (drop_dangling keys current)
unfolding drop_dangling
drop_dangling-IsHeld keys [] d = (tt, tt)
drop_dangling-IsHeld keys ((c, e) ∷ current) (fresh, d) =
    let (rest_d, rest_h) = drop_dangling-IsHeld keys current d in
    elim (Bool-cases (holds e keys)) [
      | inl held ↦ rw held ((find-drop_dangling keys c current fresh, rest_d), (held, rest_h))
      | inr missing ↦ rw missing (rest_d, rest_h)
    ]

pub shredded-IsMaps :
    (epochs : List Uid) {keys : List (Uid × Entry)} {current : List (Uid × Uid)}
    → IsMaps keys current
    → IsMaps (shred_epochs epochs keys).0 (drop_dangling (shred_epochs epochs keys).0 current)
shredded-IsMaps epochs {keys} {current} m =
    let (d, k) = shred-IsMaps epochs keys m.distinct_keys m.keyed in
    let (dc, h) = drop_dangling-IsHeld (shred_epochs epochs keys).0 current m.distinct_current in
    record { distinct_keys = d; keyed = k; distinct_current = dc; held = h }
