-- ===== src/Amp/Member/Tests.antt =====
-- The theorems on the merger at an issuer's record about another member, and at a member's own.
use amp_sdk.Base.{ℕ, ◌≡◌, ◌⊎◌, refl, arith, true, false, List, [], ◌∷◌, Option, none, some}
use amp_sdk.Tag.Uid.{Uid}
use amp_sdk.Tag.Uid.{same_uid}
use amp_sdk.Amp.Member.{
  KeyRef, State, Arrival, empty_state, declared_key, is_self, custody_lane, merge_state,
}
use amp_sdk.Tag.UidMap.{find}
use amp_sdk.Amp.Member.{merge_item}
use amp_sdk.Amp.Member.Replay.{merge_item-replay}
use amp_sdk.Amp.Member.Custody.{merge_state-keeps}

abbrev uid : ℕ → Uid
uid n = record { w0 = 0; w1 = n }

abbrev key : ℕ → Option KeyRef
key n = some (record { kit = uid 1; pub_key = n ∷ [] })

abbrev arrival : ℕ → Arrival
arrival author = record {
  value = record {
    signing_key = key 8;
    encrypt_key = key 9;
    status = 3;
    epoch = none;
    others = [];
  };
  item_id = uid 5;
  edit_id = uid 20;
  carrier = some (record { tx_id = uid 20; from_id = uid author });
}

abbrev state : State
state = record empty_state {
  sign_key = key 2;
  sign_edit = uid 10;
  encrypt_key = key 3;
  encrypt_edit = uid 10;
}

other : is_self (arrival 6) ≡ false
unfolding is_self custody_lane same_uid
other = refl

own : is_self (arrival 5) ≡ true
unfolding is_self custody_lane same_uid
own = refl

merge_state-keeps_example :
    ((declared_key (key 2) ≡ false) ⊎ ((merge_state (arrival 6) true state).0.sign_key ≡ key 2))
    × ((declared_key (key 3) ≡ false)
        ⊎ ((merge_state (arrival 6) true state).0.encrypt_key ≡ key 3))
merge_state-keeps_example = merge_state-keeps (arrival 6) true state other

abbrev once : List (Uid × State)
once = (merge_item (arrival 6) none false []).0

merge_item-replay_example :
    ((merge_item (arrival 6) none true once).1 ≡ none)
    × ((merge_item (arrival 6) none true once).2 ≡ false)
    × ((id : Uid) → find id (merge_item (arrival 6) none true once).0 ≡ find id once)
merge_item-replay_example =
    merge_item-replay (arrival 6) none none false [] (omega arith, omega arith)
