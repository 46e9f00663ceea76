-- ===== src/Amp/Member/Custody.antt =====
-- Who may change a custody field of a member record, and what a replay does.
use amp_sdk.Base.{◌≤◌, ◌≡◌, ◌⊎◌, inl, inr, arith, Bool, true, false}
use amp_sdk.Base.{ltb, Bool-cases}
use amp_sdk.Tag.Uid.{Uid, IsUid, value}
use amp_sdk.Tag.Uid.Arith.{compare_to-value}
use amp_sdk.Amp.Member.{
  State, Arrival, declared_key, is_self, is_older, merge_base, merge_sign, merge_encrypt,
  merge_status, merge_custody, merge_state,
}

-- A record that is not its member's own leaves a declared signing key as it is, and a declared
-- encryption key too.
pub merge_state-keeps :
    (a : Arrival) (has_prev : Bool) (s : State)
    → is_self a ≡ false
    → ((declared_key s.sign_key ≡ false) ⊎ ((merge_state a has_prev s).0.sign_key ≡ s.sign_key))
      × ((declared_key s.encrypt_key ≡ false)
          ⊎ ((merge_state a has_prev s).0.encrypt_key ≡ s.encrypt_key))
unfolding merge_state merge_custody merge_base merge_sign merge_encrypt merge_status
merge_state-keeps a has_prev s other = (
  elim (Bool-cases (declared_key s.sign_key)) [
    | inl d ↦ inr (ground (arith, other, d))
    | inr d ↦ inl d
  ],
  elim (Bool-cases (declared_key s.encrypt_key)) [
    | inl d ↦ inr (ground (arith, other, d))
    | inr d ↦ inl d
  ],
)

-- A member's own record leaves the status as it is, once there is a record of the member.
pub merge_state-status :
    (a : Arrival) (s : State) → is_self a ≡ true → (merge_state a true s).0.status ≡ s.status
unfolding merge_state merge_custody merge_base merge_sign merge_encrypt merge_status
merge_state-status a s own = ground (arith, own)

is_older-value :
    (edit : Uid) (a : Arrival)
    → IsUid edit
    → IsUid a.edit_id
    → is_older edit a ≡ ltb (value edit) (value a.edit_id)
unfolding is_older
is_older-value edit a he ha = rw (compare_to-value edit a.edit_id he ha) (ground arith)

-- The clocks of the custody fields never go back.
pub merge_state-clocks :
    (a : Arrival) (has_prev : Bool) (s : State)
    → IsUid a.edit_id
    → IsUid s.sign_edit
    → IsUid s.encrypt_edit
    → IsUid s.status_edit
    → (value s.sign_edit ≤ value (merge_state a has_prev s).0.sign_edit)
      × (value s.encrypt_edit ≤ value (merge_state a has_prev s).0.encrypt_edit)
      × (value s.status_edit ≤ value (merge_state a has_prev s).0.status_edit)
unfolding merge_state merge_custody merge_base merge_sign merge_encrypt merge_status
merge_state-clocks a has_prev s ha hs he ht =
    let sign = is_older-value s.sign_edit a hs ha in
    let encrypt = is_older-value s.encrypt_edit a he ha in
    let status = is_older-value s.status_edit a ht ha in
    (ground (arith, sign), ground (arith, encrypt), ground (arith, status))

pub same_edit : (a : Arrival) → IsUid a.edit_id → is_older a.edit_id a ≡ false
same_edit a ha = ground (arith, is_older-value a.edit_id a ha ha)
