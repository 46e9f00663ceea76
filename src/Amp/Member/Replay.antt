-- ===== src/Amp/Member/Replay.antt =====
-- A record that arrives again changes nothing, and no record changes another member's state.
use amp_sdk.Base.{
  ◌≡◌, refl, ◌∙◌, arith, Bool, true, false, not, ◌&&◌, ◌||◌, List, Option, some, if◌then◌else◌,
  if_either, Bool-cases, inl, inr,
}
use amp_sdk.Tag.Uid.{Uid, IsUid, same_uid}
use amp_sdk.Tag.UidMap.{find, put, find-put, same_uid_refl}
use amp_sdk.Amp.Member.{
  MemberEpoch, State, Arrival, declared_key, is_self, is_older, is_missing, custody_lane,
  merge_base, merge_sign, merge_encrypt, merge_status, merge_custody, merge_state, then_merge,
  state_or_empty, merge_item,
}
use amp_sdk.Amp.Member.Custody.{same_edit}

module _ (a : Arrival) where
  -- The tests of the four parts, for a member that is known.
  abbrev base_due : State → Bool
  base_due s = is_missing s.base || is_older s.base_edit a

  abbrev sign_due : State → Bool
  sign_due s =
      declared_key a.value.signing_key
      && (is_self a || not (declared_key s.sign_key))
      && is_older s.sign_edit a

  abbrev encrypt_due : State → Bool
  encrypt_due s =
      declared_key a.value.signing_key
      && declared_key a.value.encrypt_key
      && (is_self a || not (declared_key s.encrypt_key))
      && is_older s.encrypt_edit a

  abbrev status_due : Bool → State → Bool
  status_due has_prev s = (not (is_self a) || not has_prev) && is_older s.status_edit a

  -- Nothing of the record is left to merge.
  abbrev IsMerged : State → Type 0
  IsMerged s =
      (base_due s ≡ false)
      × (sign_due s ≡ false)
      × (encrypt_due s ≡ false)
      × (status_due true s ≡ false)

  module _ (same : is_older a.edit_id a ≡ false) where
    after_base : (s : State) → base_due (merge_base a s).0 ≡ false
    unfolding merge_base
    after_base s =
        if_either (λ (p : State × Bool). base_due p.0 ≡ false) (base_due s) (λ due. same)
          λ late. late

    after_sign :
        (s : State)
        → base_due s ≡ false
        → (base_due (merge_sign a s).0 ≡ false) × (sign_due (merge_sign a s).0 ≡ false)
    unfolding merge_sign
    after_sign s base =
        if_either (λ (p : State × Bool). (base_due p.0 ≡ false) × (sign_due p.0 ≡ false))
          (sign_due s) (λ due. (base, ground (arith, same))) λ late. (base, late)

    after_encrypt :
        (s : State)
        → base_due s ≡ false
        → sign_due s ≡ false
        → (base_due (merge_encrypt a s).0 ≡ false)
          × (sign_due (merge_encrypt a s).0 ≡ false)
          × (encrypt_due (merge_encrypt a s).0 ≡ false)
    unfolding merge_encrypt
    after_encrypt s base sign =
        if_either
          (λ (p : State × Bool).
            (base_due p.0 ≡ false) × (sign_due p.0 ≡ false) × (encrypt_due p.0 ≡ false))
          (encrypt_due s) (λ due. (base, sign, ground (arith, same))) λ late. (base, sign, late)

    after_status :
        (has_prev : Bool) (s : State)
        → base_due s ≡ false
        → sign_due s ≡ false
        → encrypt_due s ≡ false
        → IsMerged (merge_status a has_prev s).0
    unfolding merge_status
    after_status has_prev s base sign encrypt =
        if_either (λ (p : State × Bool). IsMerged p.0) (status_due has_prev s)
          (λ due. (base, sign, encrypt, ground (arith, same)))
          λ late. (base, sign, encrypt, ground (arith, late))

    merge_custody-IsMerged :
        (has_prev : Bool) (s : State) → base_due s ≡ false → IsMerged (merge_custody a has_prev s).0
    unfolding merge_custody
    merge_custody-IsMerged has_prev s base =
        let (b1, s1) = after_sign s base in
        let (b2, s2, e2) = after_encrypt (merge_sign a s).0 b1 s1 in
        after_status has_prev (merge_encrypt a (merge_sign a s).0).0 b2 s2 e2

  merge_base-merged : (s : State) → base_due s ≡ false → merge_base a s ≡ (s, false)
  unfolding merge_base
  merge_base-merged s base = rw base refl

  merge_custody-merged : (s : State) → IsMerged s → merge_custody a true s ≡ (s, false)
  unfolding merge_custody merge_sign merge_encrypt merge_status
  merge_custody-merged s (base, sign, encrypt, status) = rw (sign, encrypt, status) refl

-- A record that has been merged for a member, with the member known or not, is merged again without effect
-- once the member is known.
pub merge_state-replay :
    (a : Arrival) (has_prev : Bool) (s : State)
    → IsUid a.edit_id
    → merge_state a true (merge_state a has_prev s).0 ≡ ((merge_state a has_prev s).0, false)
unfolding merge_state
merge_state-replay a has_prev s ha = elim (Bool-cases (custody_lane a)) [
  | inl live ↦
      let same = same_edit a ha in
      let m = (then_merge (merge_base a s) (merge_custody a has_prev)).0 in
      let merged : IsMerged a m =
        merge_custody-IsMerged a same has_prev (merge_base a s).0 (after_base a same s) in
      rw (live, merge_base-merged a m merged.0, merge_custody-merged a m merged) refl
  | inr late ↦ rw late (merge_base-merged a (merge_base a s).0 (after_base a (same_edit a ha) s))
]

-- MergeItem changes the state of the record's member only, to what the record makes of it.
pub find-merge_item :
    (a : Arrival) (prev : Option MemberEpoch) (has_prev : Bool) (states : List (Uid × State))
    (id : Uid)
    → find id (merge_item a prev has_prev states).0 ≡ (
        if same_uid a.item_id id
        then some (merge_state a has_prev (state_or_empty (find a.item_id states))).0
        else find id states)
unfolding merge_item
find-merge_item a prev has_prev states id = find-put id a.item_id _ states

-- A record that MergeItem has folded is folded again without effect once the member is known: what was served
-- before is served, nothing has changed, and every member has the state that it had.
pub merge_item-replay :
    (a : Arrival) (prev again : Option MemberEpoch) (has_prev : Bool) (states : List (Uid × State))
    → IsUid a.edit_id
    → ((merge_item a again true (merge_item a prev has_prev states).0).1 ≡ again)
      × ((merge_item a again true (merge_item a prev has_prev states).0).2 ≡ false)
      × ((id : Uid)
          → find id (merge_item a again true (merge_item a prev has_prev states).0).0
            ≡ find id (merge_item a prev has_prev states).0)
unfolding merge_item
merge_item-replay a prev again has_prev states ha =
    let s0 = state_or_empty (find a.item_id states) in
    let s = (merge_state a has_prev s0).0 in
    let known : find a.item_id (put a.item_id s states) ≡ some s =
      find-put a.item_id a.item_id s states ∙ rw (same_uid_refl a.item_id) refl in
    let still : merge_state a true s ≡ (s, false) = merge_state-replay a has_prev s0 ha in
    rw (known, still)
      (refl, refl, λ id. find-put id a.item_id s (put a.item_id s states) ∙ stays id s)
  where
    stays :
        (id : Uid) (s : State)
        → (if same_uid a.item_id id then some s else find id (put a.item_id s states))
          ≡ find id (put a.item_id s states)
    stays id s = rw (find-put id a.item_id s states) (ground arith)
