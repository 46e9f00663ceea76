-- ===== src/Safe/Keys/Roles.antt =====
-- What a lookup finds behind each of the writes to the maps of the store.
use amp_sdk.Base.{
  ℕ, ◌≡◌, refl, sym, ◌∙◌, arith, Bool, true, false, ◌&&◌, ◌||◌, List, [], ◌∷◌, none, some, inl, inr,
  ◌==◌, if◌then◌else◌, Bool-cases,
}
use amp_sdk.Tag.Uid.{Uid, same_uid}
use amp_sdk.Tag.UidMap.{find, remove, holds, find-put, find-remove, same_uid_iff}
use amp_sdk.Safe.Keys.{RoleKey, Entry, find_role, upsert_role, elect_newer, is_due, shred_epochs}

pub find_role-upsert_role :
    (r q : ℕ) (bytes : List ℕ) (rks : List RoleKey)
    → find_role r (upsert_role q bytes rks) ≡ (if q == r then some bytes else find_role r rks)
unfolding find_role upsert_role
find_role-upsert_role r q bytes [] = ground arith
find_role-upsert_role r q bytes (rk ∷ rks) = ground (arith, find_role-upsert_role r q bytes rks)

-- What an election of a newer epoch leaves current.
pub find-elect_newer :
    (c container epoch : Uid) (current : List (Uid × Uid))
    → find c (elect_newer container epoch current) ≡ (
        if same_uid container c && is_due epoch (find container current)
        then some epoch
        else find c current)
unfolding elect_newer
find-elect_newer c container epoch current =
    elim (Bool-cases (is_due epoch (find container current))) [
      | inl due ↦ rw (due, find-put c container epoch current) (ground arith)
      | inr late ↦ rw late (ground arith)
    ]

abbrev pub among : Uid → List Uid → Bool
among e [] = false
among e (x ∷ xs) = same_uid x e || among e xs

pub find-shred_epochs :
    (e : Uid) (epochs : List Uid) (keys : List (Uid × Entry))
    → find e (shred_epochs epochs keys).0 ≡ (if among e epochs then none else find e keys)
unfolding shred_epochs holds
find-shred_epochs e [] keys = refl
find-shred_epochs e (x ∷ xs) keys = elim (Bool-cases (holds x keys)) [
  | inl held ↦
      rw (held, find-shred_epochs e xs (remove x keys), find-remove e x keys) (ground arith)
  | inr missing ↦ elim (Bool-cases (same_uid x e)) [
    | inl same ↦
        let at : x ≡ e = (same_uid_iff x e).0 same in
        rw (missing, find-shred_epochs e xs keys, same, sym at) (ground (arith, missing))
    | inr other ↦ rw (missing, find-shred_epochs e xs keys, other) refl
  ]
]

-- A loop that removes nothing.
pub shred_epochs-none :
    (epochs : List Uid) (keys : List (Uid × Entry))
    → (shred_epochs epochs keys).1 ≡ false
    → (shred_epochs epochs keys).0 ≡ keys
unfolding shred_epochs
shred_epochs-none [] keys h = refl
shred_epochs-none (x ∷ xs) keys h = elim (Bool-cases (holds x keys)) [
  | inl held ↦ absurd (removed (sym h ∙ rw held refl))
  | inr missing ↦
      let rest : (shred_epochs xs keys).1 ≡ false = (rw missing refl) ∙ h in
      rw missing (shred_epochs-none xs keys rest)
]
  where
    removed : false ≡ true → ⊥
    removed e = cc
