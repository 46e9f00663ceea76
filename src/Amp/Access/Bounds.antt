-- ===== src/Amp/Access/Bounds.antt =====
-- No member has more access than any level of the chain grants, a missing ancestor refuses, and a chain
-- that ends in time resolves to the least that its levels grant.
use amp_sdk.Base.{
  ℕ, zero, suc, ◌≤◌, ◌<◌, ◌≡◌, refl, sym, ap, ◌∙◌, arith, Bool, true, false, Option, none, some,
}
use amp_sdk.Base.{List, [], ◌∷◌, length, if◌then◌else◌, ◌⊎◌, inl, inr}
use amp_sdk.Tag.Uid.{Uid, is_nil}
use amp_sdk.Amp.Access.{
  ChannelEpoch, not_allowed, member_access, min_access, after_lookup, walk, resolve_access,
  has_access,
}
use amp_sdk.Amp.Access.Chain.{IsParent, IsAbove, walk-parent, walk-deep}
use Prim.Native.Nat.{min}

min_access-left : (a b : ℕ) → min_access a b ≤ a
unfolding min_access
min_access-left a b = ground arith

min_access-right : (a b : ℕ) → min_access a b ≤ b
unfolding min_access
min_access-right a b = ground arith

min_access-min : (a b : ℕ) → min_access a b ≡ min a b
unfolding min_access
min_access-min a b = ground arith

after_lookup-le :
    (level : ℕ) (found : Option ChannelEpoch) (k : ChannelEpoch → ℕ)
    → ((epoch : ChannelEpoch) → k epoch ≤ level)
    → after_lookup found k ≤ level
after_lookup-le level none k h = omega arith
after_lookup-le level (some epoch) k h = h epoch

if-le : (level : ℕ) (c : Bool) (y : ℕ) → y ≤ level → (if c then level else y) ≤ level
if-le level c y h = ground arith

module _ (lookup : Uid → Option ChannelEpoch) (member : Uid) where
  -- The walk never raises the level that it begins with.
  walk-le : (left level : ℕ) (parent : Option Uid) → walk lookup member left level parent ≤ level
  unfolding walk
  walk-le left level none = omega arith
  walk-le zero level (some id) = omega arith
  walk-le (suc left) level (some id) = if-le level (is_nil id) _ (
      after_lookup-le level (lookup id) _ λ epoch. omega (
        arith,
        walk-le left (min_access level (member_access member epoch)) epoch.parent,
        min_access-left level (member_access member epoch),
      ))

  walk-above :
      (left n level : ℕ) (e a : ChannelEpoch)
      → IsAbove lookup member (suc n) e a
      → walk lookup member left level e.parent ≤ member_access member a
  walk-above zero n level e a above =
      let refused = walk-deep lookup member level n e a above in omega (arith, refused)
  walk-above (suc left) zero level e a (p, parent, same) = omega (
    arith,
    walk-parent lookup member left level e p parent,
    walk-le left (min_access level (member_access member p)) p.parent,
    min_access-right level (member_access member p),
    ap (member_access member) same,
  )
  walk-above (suc left) (suc n) level e a (p, parent, above) = omega (
    arith,
    walk-parent lookup member left level e p parent,
    walk-above left n (min_access level (member_access member p)) p a above,
  )

  resolve_access-le :
      (n : ℕ) (e a : ChannelEpoch)
      → IsAbove lookup member n e a
      → resolve_access lookup member (some e) ≤ member_access member a
  unfolding resolve_access
  resolve_access-le zero e a same =
      omega (arith, walk-le 64 (member_access member e) e.parent, ap (member_access member) same)
  resolve_access-le (suc n) e a above = walk-above 64 n (member_access member e) e a above

  -- Who passes HasAccess on a channel has at least the required access on the channel itself and on
  -- every ancestor, at whatever distance.
  pub has_access-above :
      (required n : ℕ) (e a : ChannelEpoch)
      → has_access lookup member required (some e) ≡ true
      → IsAbove lookup member n e a
      → required ≤ member_access member a
  unfolding has_access
  has_access-above required n e a h above = ground (arith, resolve_access-le n e a above)

  -- The named parent of the ancestor `a` is not found.
  abbrev pub IsBroken : ChannelEpoch → Type 0
  IsBroken a = (id : Uid) × (a.parent ≡ some id) × (is_nil id ≡ false) × (lookup id ≡ none)

  walk-broken :
      (left n level : ℕ) (e a : ChannelEpoch)
      → IsAbove lookup member n e a
      → IsBroken a
      → walk lookup member left level e.parent ≡ not_allowed
  walk-broken zero zero level e a same (id, named, there, missing) =
      unfold walk in rw (ap (λ x. x.parent) same ∙ named) refl
  walk-broken (suc left) zero level e a same (id, named, there, missing) =
      unfold walk in rw (ap (λ x. x.parent) same ∙ named, there, missing) refl
  walk-broken zero (suc n) level e a above broken = walk-deep lookup member level n e a above
  walk-broken (suc left) (suc n) level e a (p, parent, above) broken =
      walk-parent lookup member left level e p parent ∙ walk-broken left n _ p a above broken

  -- Where an ancestor names a parent that is not found, nobody has access.
  pub resolve_access-broken :
      (n : ℕ) (e a : ChannelEpoch)
      → IsAbove lookup member n e a
      → IsBroken a
      → resolve_access lookup member (some e) ≡ not_allowed
  unfolding resolve_access
  resolve_access-broken n e a above broken =
      walk-broken 64 n (member_access member e) e a above broken

  -- The chain of an epoch: its ancestors in order, the last of them without a parent.
  abbrev pub IsChain : ChannelEpoch → List ChannelEpoch → Type 0
  IsChain e [] = (e.parent ≡ none) ⊎ (id : Uid) × (e.parent ≡ some id) × (is_nil id ≡ true)
  IsChain e (p ∷ ps) = IsParent lookup member e p × IsChain p ps

  -- The least access that an epoch and its ancestors grant.
  abbrev pub least_access : ChannelEpoch → List ChannelEpoch → ℕ
  least_access e [] = member_access member e
  least_access e (p ∷ ps) = min (member_access member e) (least_access p ps)

  least_below :
      (e : ChannelEpoch) (ps : List ChannelEpoch)
      → min (member_access member e) (least_access e ps) ≡ least_access e ps
  least_below e [] = omega arith
  least_below e (p ∷ ps) = omega arith

  walk-chain :
      (left level : ℕ) (e : ChannelEpoch) (ps : List ChannelEpoch)
      → IsChain e ps
      → length ps < left
      → min level (member_access member e) ≡ level
      → walk lookup member left level e.parent ≡ min level (least_access e ps)
  walk-chain zero level e ps chain h g = absurd (omega arith)
  walk-chain (suc left) level e [] (inl none_named) h g =
      ap (walk lookup member (suc left) level) none_named ∙ (unfold walk in sym g)
  walk-chain (suc left) level e [] (inr (id, named, nothing)) h g =
      ap (walk lookup member (suc left) level) named ∙ (unfold walk in rw nothing (sym g))
  walk-chain (suc left) level e (p ∷ ps) (parent, chain) h g =
      walk-parent lookup member left level e p parent
      ∙ walk-chain left (min_access level (member_access member p)) p ps chain (omega arith)
          (omega (arith, min_access-min level (member_access member p)))
      ∙ least
    where
      least :
          min (min_access level (member_access member p)) (least_access p ps)
          ≡ min level (min (member_access member e) (least_access p ps))
      least = omega (arith, g, min_access-min level (member_access member p), least_below p ps)

  -- A chain of fewer than 64 ancestors resolves to the least access that its levels grant.
  pub resolve_access-chain :
      (e : ChannelEpoch) (ps : List ChannelEpoch)
      → IsChain e ps
      → length ps < 64
      → resolve_access lookup member (some e) ≡ least_access e ps
  unfolding resolve_access
  resolve_access-chain e ps chain h =
      walk-chain 64 (member_access member e) e ps chain h (omega arith) ∙ least_below e ps
