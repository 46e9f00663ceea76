-- ===== src/Safe/Keys/Newest.antt =====
-- The fallback of OpenEpochKeyStore for a container without an election: the newest of its epochs.
use amp_sdk.Base.{
  ◌≡◌, refl, ap, ◌∙◌, arith, Bool, true, false, not, ◌&&◌, ◌||◌, List, [], ◌∷◌, Option, none, some,
  inl, inr, if◌then◌else◌, Bool-cases, All,
}
use amp_sdk.Tag.Uid.{Uid, same_uid}
use amp_sdk.Tag.UidMap.{find, same_uid_iff}
use amp_sdk.Safe.Keys.{Entry, is_newer, is_due, index_current}
use amp_sdk.Safe.Keys.Roles.{find-elect_newer}

-- An epoch of the container takes the place of an older one.
abbrev pub newer_of : Uid → Entry → Option Uid → Option Uid
newer_of c x best =
    if same_uid x.container_id c && is_due x.epoch_id best then some x.epoch_id else best

abbrev pub newest : Uid → List Entry → Option Uid → Option Uid
newest c [] best = best
newest c (x ∷ xs) best = newest c xs (newer_of c x best)

pub find-index_current :
    (c : Uid) (entries : List Entry) (current : List (Uid × Uid))
    → find c (index_current entries current) ≡ newest c entries (find c current)
unfolding index_current
find-index_current c [] current = refl
find-index_current c (x ∷ xs) current =
    find-index_current c xs _
    ∙ ap (newest c xs) (
        find-elect_newer c x.container_id x.epoch_id current
        ∙ elim (Bool-cases (same_uid x.container_id c)) [
          | inl same ↦
              let at : x.container_id ≡ c = (same_uid_iff x.container_id c).0 same in
              rw (same, at) refl
          | inr other ↦ rw other refl
        ])

-- The entry is another container's, or its epoch is not newer than the one given.
abbrev pub is_within : Uid → Option Uid → Entry → Bool
is_within c none x = not (same_uid x.container_id c)
is_within c (some best) x = not (same_uid x.container_id c) || not (is_newer x.epoch_id best)

is_newer_cut : (a b d : Uid) → is_newer a b ≡ false → is_newer d b ≡ true → is_newer a d ≡ false
unfolding is_newer
is_newer_cut a b d h g = ground arith

newer_of-within :
    (c : Uid) (x y : Entry) (best : Option Uid)
    → is_within c best y ≡ true
    → is_within c (newer_of c x best) y ≡ true
newer_of-within c x y none h = elim (Bool-cases (same_uid x.container_id c)) [
  | inl same ↦ rw same (ground (arith, h))
  | inr other ↦ rw other h
]
newer_of-within c x y (some b) h =
    elim (Bool-cases (same_uid x.container_id c && is_newer x.epoch_id b)) [
      | inl due ↦ elim (Bool-cases (same_uid y.container_id c)) [
        | inl same ↦
            let below : is_newer y.epoch_id b ≡ false = ground (arith, h, same) in
            let above : is_newer x.epoch_id b ≡ true = ground (arith, due) in
            rw (due, same, is_newer_cut y.epoch_id b x.epoch_id below above) refl
        | inr other ↦ rw (due, other) refl
      ]
      | inr late ↦ rw late h
    ]

is_newer_irrefl : (a : Uid) → is_newer a a ≡ false
unfolding is_newer
is_newer_irrefl a = ground arith

newer_of_self : (c : Uid) (x : Entry) (best : Option Uid) → is_within c (newer_of c x best) x ≡ true
newer_of_self c x none = elim (Bool-cases (same_uid x.container_id c)) [
  | inl same ↦ rw (same, is_newer_irrefl x.epoch_id) (ground arith)
  | inr other ↦ rw other (ground (arith, other))
]
newer_of_self c x (some b) =
    elim (Bool-cases (same_uid x.container_id c && is_newer x.epoch_id b)) [
      | inl due ↦ rw (due, is_newer_irrefl x.epoch_id) (ground arith)
      | inr late ↦ rw late (ground (arith, late))
    ]

newest-within :
    (c : Uid) (xs : List Entry) (y : Entry) (best : Option Uid)
    → is_within c best y ≡ true
    → is_within c (newest c xs best) y ≡ true
newest-within c [] y best h = h
newest-within c (x ∷ xs) y best h =
    newest-within c xs y (newer_of c x best) (newer_of-within c x y best h)

-- No entry of the container is newer than the newest, and where there is no newest the container has no entry.
pub newest-bounds :
    (c : Uid) (xs : List Entry) (best : Option Uid)
    → All (λ x. is_within c (newest c xs best) x ≡ true) xs
newest-bounds c [] best = tt
newest-bounds c (x ∷ xs) best = (
  newest-within c xs x (newer_of c x best) (newer_of_self c x best),
  newest-bounds c xs (newer_of c x best),
)
