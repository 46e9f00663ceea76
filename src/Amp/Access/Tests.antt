-- ===== src/Amp/Access/Tests.antt =====
-- The theorems on access at a concrete hierarchy: a channel, its parent, and a channel that is its own
-- parent.
use amp_sdk.Base.{
  ℕ, ◌≤◌, ◌≡◌, refl, true, false, List, [], ◌∷◌, Option, none, some, ◌==◌, if◌then◌else◌,
}
use amp_sdk.Tag.Uid.{same_uid, Uid, is_nil}
use amp_sdk.Amp.Access.{
  Grant, ChannelEpoch, not_allowed, member_access, resolve_access, has_access, walk, min_access,
  find_grant, find_member_grant, names,
}
use amp_sdk.Amp.Access.Chain.{IsParent, IsAbove, resolve_access-cycle}
use amp_sdk.Amp.Access.Bounds.{has_access-above}

abbrev uid : ℕ → Uid
uid n = record { w0 = 0; w1 = n }

abbrev grants : Uid → ℕ → Option (List Grant)
grants member level = some (record { member_tag = some member; access = level } ∷ [])

abbrev root : ChannelEpoch
root = record { parent = none; member_grants = grants (uid 7) 6; default_grants = grants (uid 0) 4 }

abbrev channel : ChannelEpoch
channel = record { parent = some (uid 1); member_grants = grants (uid 7) 10; default_grants = none }

abbrev cyclic : ChannelEpoch
cyclic = record { parent = some (uid 3); member_grants = grants (uid 7) 10; default_grants = none }

abbrev orphan : ChannelEpoch
orphan = record { parent = some (uid 9); member_grants = grants (uid 7) 10; default_grants = none }

abbrev lookup : Uid → Option ChannelEpoch
lookup id = if id.w1 == 1 then some root else if id.w1 == 3 then some cyclic else none

IsParent-found : IsParent lookup (uid 7) channel root
unfolding is_nil
IsParent-found = (uid 1, refl, refl, refl)

passes : has_access lookup (uid 7) 6 (some channel) ≡ true
unfolding has_access resolve_access walk member_access min_access find_member_grant find_grant names
    same_uid is_nil
passes = refl

has_access-above_example : 6 ≤ member_access (uid 7) root
has_access-above_example =
    has_access-above lookup (uid 7) 6 1 channel root passes (root, IsParent-found, refl)

turn : IsAbove lookup (uid 7) 1 cyclic cyclic
unfolding is_nil
turn = (cyclic, (uid 3, refl, refl, refl), refl)

resolve_access-cycle_example : resolve_access lookup (uid 7) (some cyclic) ≡ not_allowed
resolve_access-cycle_example = resolve_access-cycle lookup (uid 7) 0 0 cyclic cyclic refl turn

missing : is_nil (uid 9) ≡ false
unfolding is_nil
missing = refl
