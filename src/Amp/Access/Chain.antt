-- ===== src/Amp/Access/Chain.antt =====
-- The chain of a channel's ancestors, and where ResolveAccess refuses: a missing ancestor, a chain that
-- is too deep, a cycle.
use amp_sdk.Base.{ℕ, zero, suc, ◌+◌, ◌<◌, ◌≡◌, refl, sym, subst, ◌∙◌, arith, false, Option, some}
use amp_sdk.Tag.Uid.{Uid, is_nil}
use amp_sdk.Amp.Access.{ChannelEpoch, not_allowed, member_access, min_access, walk, resolve_access}

module _ (lookup : Uid → Option ChannelEpoch) (member : Uid) where
  -- The parent of an epoch is named, and its epoch is found.
  abbrev pub IsParent : ChannelEpoch → ChannelEpoch → Type 0
  IsParent e p = (id : Uid) × (e.parent ≡ some id) × (is_nil id ≡ false) × (lookup id ≡ some p)

  -- `a` stands `n` parents above `e`.
  abbrev pub IsAbove : ℕ → ChannelEpoch → ChannelEpoch → Type 0
  IsAbove zero e a = e ≡ a
  IsAbove (suc n) e a = (p : ChannelEpoch) × IsParent e p × IsAbove n p a

  -- One round of the walk.
  pub walk-parent :
      (left level : ℕ) (e p : ChannelEpoch)
      → IsParent e p
      → walk lookup member (suc left) level e.parent
        ≡ walk lookup member left (min_access level (member_access member p)) p.parent
  unfolding walk
  walk-parent left level e p (id, named, there, found) = rw (named, there, found) refl

  -- With no rounds left the walk refuses where there is a parent.
  pub walk-deep :
      (level n : ℕ) (e a : ChannelEpoch)
      → IsAbove (suc n) e a
      → walk lookup member zero level e.parent ≡ not_allowed
  unfolding walk
  walk-deep level n e a (p, (id, named, there, found), h) = rw named refl

  walk-far :
      (left n level : ℕ) (e a : ChannelEpoch)
      → left < n
      → IsAbove n e a
      → walk lookup member left level e.parent ≡ not_allowed
  walk-far zero zero level e a h above = absurd (omega arith)
  walk-far (suc left) zero level e a h above = absurd (omega arith)
  walk-far zero (suc n) level e a h above = walk-deep level n e a above
  walk-far (suc left) (suc n) level e a h (p, parent, above) =
      walk-parent left level e p parent ∙ walk-far left n _ p a (omega arith) above

  -- A chain of more than 64 parents resolves to no access.
  pub resolve_access-deep :
      (n : ℕ) (e a : ChannelEpoch)
      → 64 < n
      → IsAbove n e a
      → resolve_access lookup member (some e) ≡ not_allowed
  unfolding resolve_access
  resolve_access-deep n e a h above = walk-far 64 n (member_access member e) e a h above

  -- Along a cycle there is an epoch at every distance, and the cycle goes on from it.
  abbrev OnCycle : ChannelEpoch → ChannelEpoch → Type 0
  OnCycle a b = (j : ℕ) × IsAbove j b a

  cycle_step :
      (a b : ChannelEpoch) (n : ℕ)
      → IsAbove (suc n) a a
      → OnCycle a b
      → (p : ChannelEpoch) × IsParent b p × OnCycle a p
  cycle_step a b n loop (zero, e) =
      let turn = subst (λ x. IsAbove (suc n) x a) (sym e) loop in (turn.0, turn.1, (n, turn.2))
  cycle_step a b n loop (suc j, (p, parent, h)) = (p, parent, (j, h))

  cycle_far :
      (k n : ℕ) (a b : ChannelEpoch)
      → IsAbove (suc n) a a
      → OnCycle a b
      → (c : ChannelEpoch) × IsAbove k b c
  cycle_far zero n a b loop on = (b, refl)
  cycle_far (suc k) n a b loop on =
      let (p, parent, next) = cycle_step a b n loop on in
      let (c, above) = cycle_far k n a p loop next in (c, (p, parent, above))

  IsAbove-add :
      (m k : ℕ) (e a c : ChannelEpoch) → IsAbove m e a → IsAbove k a c → IsAbove (m + k) e c
  IsAbove-add zero k e a c h g =
      let none_added : 0 + k ≡ k = omega arith in
      subst (λ n. IsAbove n e c) (sym none_added) (subst (λ x. IsAbove k x c) (sym h) g)
  IsAbove-add (suc m) k e a c (p, parent, h) g =
      let one_added : suc m + k ≡ suc (m + k) = omega arith in
      subst (λ n. IsAbove n e c) (sym one_added) (p, parent, IsAbove-add m k p a c h g)

  -- A channel whose chain comes to an epoch that is its own ancestor resolves to no access.
  pub resolve_access-cycle :
      (m n : ℕ) (e a : ChannelEpoch)
      → IsAbove m e a
      → IsAbove (suc n) a a
      → resolve_access lookup member (some e) ≡ not_allowed
  resolve_access-cycle m n e a h loop =
      let (c, far) = cycle_far 65 n a a loop (0, refl) in
      resolve_access-deep (m + 65) e c (omega arith) (IsAbove-add m 65 e a c h far)
