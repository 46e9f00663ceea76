-- ===== src/Amp/Member.antt =====
-- amp/amp.support.memberepoch.go: the merger of member records. A Tag is known by its UID, and the fields
-- of a record that no custody rule names are one list of bytes.
pub mod Custody
pub mod Replay
mod Tests
use amp_sdk.Base.{
  ℕ, Bool, true, false, not, ◌&&◌, ◌||◌, List, [], ◌∷◌, Option, none, some, if◌then◌else◌,
}
use amp_sdk.Tag.Uid.{Uid, nil, is_set, compare_to}
use amp_sdk.Tag.UidMap.{find, put, remove}
use amp_sdk.Tag.Rank.{is_before}
use amp_sdk.Tag.Uid.{same_uid}

pub record KeyRef : Type 0 where
  pub kit : Uid
  pub pub_key : List ℕ

pub record MemberEpoch : Type 0 where
  pub signing_key : Option KeyRef
  pub encrypt_key : Option KeyRef
  pub status : ℕ
  pub epoch : Option Uid
  pub others : List ℕ

-- `memberEpochState`
pub record State : Type 0 where
  pub base_edit : Uid
  pub base : Option MemberEpoch
  pub sign_edit : Uid
  pub sign_key : Option KeyRef
  pub encrypt_edit : Uid
  pub encrypt_key : Option KeyRef
  pub status_edit : Uid
  pub status : ℕ
  pub epoch : Option Uid

abbrev pub empty_state : State
empty_state = record {
  base_edit = nil;
  base = none;
  sign_edit = nil;
  sign_key = none;
  encrypt_edit = nil;
  encrypt_key = none;
  status_edit = nil;
  status = 0;
  epoch = none;
}

-- A carrying transaction: its TxID and its author.
pub record Carrier : Type 0 where
  pub tx_id : Uid
  pub from_id : Uid

pub record Arrival : Type 0 where
  pub value : MemberEpoch
  pub item_id : Uid
  pub edit_id : Uid
  pub carrier : Option Carrier

abbrev pub has_bytes : List ℕ → Bool
has_bytes [] = false
has_bytes (b ∷ bytes) = true

abbrev pub declared_key : Option KeyRef → Bool
declared_key none = false
declared_key (some key) = has_bytes key.pub_key

abbrev pub carried_by : Option Carrier → (Carrier → Bool) → Bool
carried_by none test = false
carried_by (some tx) test = test tx

unfoldable pub custody_lane : Arrival → Bool
custody_lane a = carried_by a.carrier λ tx. same_uid tx.tx_id a.edit_id

unfoldable pub is_self : Arrival → Bool
is_self a = custody_lane a && carried_by a.carrier (λ tx. same_uid tx.from_id a.item_id)

abbrev pub is_missing : {A : Type 0} → Option A → Bool
is_missing none = true
is_missing (some a) = false

-- `edit.CompareTo(editID) < 0`
unfoldable pub is_older : Uid → Arrival → Bool
is_older edit a = is_before (compare_to edit a.edit_id)

-- The four parts of `MergeItem` that change the state, each with whether it did.
unfoldable pub merge_base : Arrival → State → State × Bool
merge_base a s =
    if is_missing s.base || is_older s.base_edit a
    then (record s { base = some a.value; base_edit = a.edit_id }, true)
    else (s, false)

unfoldable pub merge_sign : Arrival → State → State × Bool
merge_sign a s =
    if declared_key a.value.signing_key
      && (is_self a || not (declared_key s.sign_key))
      && is_older s.sign_edit a
    then (record s { sign_key = a.value.signing_key; sign_edit = a.edit_id }, true)
    else (s, false)

unfoldable pub merge_encrypt : Arrival → State → State × Bool
merge_encrypt a s =
    if declared_key a.value.signing_key
      && declared_key a.value.encrypt_key
      && (is_self a || not (declared_key s.encrypt_key))
      && is_older s.encrypt_edit a
    then (record s { encrypt_key = a.value.encrypt_key; encrypt_edit = a.edit_id }, true)
    else (s, false)

abbrev pub epoch_or : Option Uid → Option Uid → Option Uid
epoch_or none old = old
epoch_or (some id) old = some id

unfoldable pub merge_status : Arrival → Bool → State → State × Bool
merge_status a has_prev s =
    if (not (is_self a) || not has_prev) && is_older s.status_edit a
    then (
      record s {
        status = a.value.status;
        status_edit = a.edit_id;
        epoch = epoch_or a.value.epoch s.epoch;
      },
      true,
    )
    else (s, false)

-- One part after another.
abbrev pub then_merge : State × Bool → (State → State × Bool) → State × Bool
then_merge (s, changed) part = ((part s).0, changed || (part s).1)

unfoldable pub merge_custody : Arrival → Bool → State → State × Bool
merge_custody a has_prev s =
    then_merge (then_merge (merge_sign a s) (merge_encrypt a)) (merge_status a has_prev)

unfoldable pub merge_state : Arrival → Bool → State → State × Bool
merge_state a has_prev s =
    if custody_lane a
    then then_merge (merge_base a s) (merge_custody a has_prev)
    else merge_base a s

-- `materialize`: the base with the custody fields over it.
unfoldable pub materialize : State → MemberEpoch → MemberEpoch
materialize s base = record {
  signing_key = if is_set s.sign_edit then s.sign_key else base.signing_key;
  encrypt_key = if is_set s.encrypt_edit then s.encrypt_key else base.encrypt_key;
  status = if is_set s.status_edit then s.status else base.status;
  epoch = if is_set s.status_edit then epoch_or s.epoch base.epoch else base.epoch;
  others = base.others;
}

abbrev pub state_or_empty : Option State → State
state_or_empty none = empty_state
state_or_empty (some s) = s

-- The record that MergeItem serves: `prev` where nothing changed.
abbrev pub served : Option MemberEpoch → Bool → State → Option MemberEpoch
served prev false s = prev
served prev true s = served_base s s.base
  where
    served_base : State → Option MemberEpoch → Option MemberEpoch
    served_base s none = none
    served_base s (some base) = some (materialize s base)

-- `MemberEpochMerger`: the states by the members.
unfoldable pub merge_item :
    Arrival
    → Option MemberEpoch
    → Bool
    → List (Uid × State)
    → List (Uid × State) × Option MemberEpoch × Bool
merge_item a prev has_prev states =
    let (s, changed) = merge_state a has_prev (state_or_empty (find a.item_id states)) in
    (put a.item_id s states, served prev changed s, changed)

unfoldable pub drop_item : Uid → List (Uid × State) → List (Uid × State)
drop_item id states = remove id states
