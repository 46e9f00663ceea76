-- ===== src/Amp/Access.antt =====
-- amp/amp.support.acc.go: the access of a member to a channel, along the chain of its parents.
pub mod Chain
pub mod Bounds
mod Tests
use amp_sdk.Base.{
  ℕ, zero, suc, ◌+◌, Bool, true, false, ◌&&◌, ◌||◌, List, [], ◌∷◌, Option, none, some, ltb, leb,
  ◌==◌, if◌then◌else◌,
}
use amp_sdk.Tag.Uid.{Uid, is_nil, append_to, same_uid}

-- The number of an `Access`, where more is a larger number.
abbrev pub not_allowed : ℕ
not_allowed = 0

-- MaxACCParentDepth
abbrev pub max_parent_depth : ℕ
max_parent_depth = 64

-- A grant names a member or nobody.
pub record Grant : Type 0 where
  pub member_tag : Option Uid
  pub access : ℕ

-- The parts of a ChannelEpoch that decide access.
pub record ChannelEpoch : Type 0 where
  pub parent : Option Uid
  pub member_grants : Option (List Grant)
  pub default_grants : Option (List Grant)

unfoldable pub names : Option Uid → Uid → Bool
names none member = false
names (some id) member = same_uid id member

-- The first grant that names the member.
unfoldable pub find_grant : Uid → List Grant → Option ℕ
find_grant member [] = none
find_grant member (grant ∷ grants) =
    let rest = find_grant member grants in
    if names grant.member_tag member then some grant.access else rest

unfoldable pub find_member_grant : Uid → Option (List Grant) → Option ℕ
find_member_grant member none = none
find_member_grant member (some grants) = find_grant member grants

-- The first default grant, or nothing.
unfoldable pub default_access : Option (List Grant) → ℕ
default_access none = not_allowed
default_access (some []) = not_allowed
default_access (some (grant ∷ grants)) = grant.access

abbrev pub or_default : Option ℕ → ℕ → ℕ
or_default none d = d
or_default (some access) d = access

-- `resolveMemberGrants`
unfoldable pub member_access : Uid → ChannelEpoch → ℕ
member_access member epoch =
    or_default (find_member_grant member epoch.member_grants) (default_access epoch.default_grants)

unfoldable pub min_access : ℕ → ℕ → ℕ
min_access level1 level2 = if ltb level1 level2 then level1 else level2

-- An epoch that is not found ends the walk with no access.
abbrev pub after_lookup : Option ChannelEpoch → (ChannelEpoch → ℕ) → ℕ
after_lookup none k = not_allowed
after_lookup (some epoch) k = k epoch

-- The loop of `ResolveAccess` with `left` rounds before the bound on the depth; the epochs are looked up
-- by channel.
unfoldable pub walk : (Uid → Option ChannelEpoch) → Uid → ℕ → ℕ → Option Uid → ℕ
walk lookup member left level none = level
walk lookup member zero level (some parent) = not_allowed
walk lookup member (suc left) level (some parent) =
    let further = after_lookup (lookup parent) λ epoch.
      walk lookup member left (min_access level (member_access member epoch)) epoch.parent in
    if is_nil parent then level else further

unfoldable pub resolve_access : (Uid → Option ChannelEpoch) → Uid → Option ChannelEpoch → ℕ
resolve_access lookup member none = not_allowed
resolve_access lookup member (some epoch) =
    walk lookup member max_parent_depth (member_access member epoch) epoch.parent

unfoldable pub has_access : (Uid → Option ChannelEpoch) → Uid → ℕ → Option ChannelEpoch → Bool
has_access lookup member required epoch = leb required (resolve_access lookup member epoch)

-- `AuthorSlot64` on the hash of a literal, which is a parameter.
unfoldable pub author_slot : (List ℕ → Uid) → Uid → ℕ
author_slot hash author = (hash (append_to author [])).w0

unfoldable pub item_bound_to_author : (List ℕ → Uid) → Uid → Uid → Bool
item_bound_to_author hash author item = item.w1 == author_slot hash author || same_uid item author
