-- ===== src/Task/Context/Attach.antt =====
-- StartChild: a context joins the children of its parent, or is a root.
use amp_sdk.Base.{
  ℕ, suc, ◌≡◌, refl, ap, subst, arith, true, false, not, ◌&&◌, ◌||◌, List, [], ◌∷◌, ◌++◌, Option,
  none, some, inl, inr, length, length-append, ltb, ◌==◌, if_either, Bool-cases,
}
use amp_sdk.Task.Context.{
  World, Ctx, running, unstarted, change, new_ctx, attach, remove_child, start_root, start_child,
}
use amp_sdk.Task.Context.Invariant.{
  member, IsLocal, IsWorld, names_parent, is_attached, is_below, is_absent,
}

new-IsLocal : (p : Option ℕ) → IsLocal (new_ctx p)
new-IsLocal p = record { counted = refl; idle = refl; begun = refl; finished = refl }

attach-IsLocal : (n : ℕ) (x : Ctx) → x.phase ≡ running → IsLocal x → IsLocal (attach n x)
unfolding attach
attach-IsLocal n x live h = record {
  counted = omega (arith, h.counted, length-append x.subs (n ∷ []));
  idle = ground (arith, h.begun, live);
  begun = h.begun;
  finished = h.finished;
}

member-snoc : (c n : ℕ) (xs : List ℕ) → member c (xs ++ n ∷ []) ≡ (member c xs || n == c)
member-snoc c n [] = ground arith
member-snoc c n (x ∷ xs) = ground (arith, member-snoc c n xs)

pub member-remove_child :
    (c d : ℕ) (xs : List ℕ) → (d == c) ≡ false → member c (remove_child d xs) ≡ member c xs
unfolding remove_child
member-remove_child c d [] h = refl
member-remove_child c d (x ∷ xs) h = elim (Bool-cases (x == d)) [
  | inl same ↦ rw same (ground (arith, same, h))
  | inr other ↦ rw other (ground (arith, member-remove_child c d xs h))
]

pub length-remove_child :
    (d : ℕ) (xs : List ℕ) → member d xs ≡ true → length xs ≡ suc (length (remove_child d xs))
unfolding remove_child
length-remove_child d [] h = cc
length-remove_child d (x ∷ xs) h = elim (Bool-cases (x == d)) [
  | inl same ↦ rw same refl
  | inr other ↦
      let rest : member d xs ≡ true = ground (arith, h, other) in
      rw other (ap suc (length-remove_child d xs rest))
]

-- A context that runs is started.
live_below : (w : World) (p : ℕ) → IsWorld w → (w.ctxs p).phase ≡ running → ltb p w.count ≡ true
live_below w p h live = ground (arith, h.fresh p, live)

is_below-suc : (n : ℕ) (p : Option ℕ) → is_below n p ≡ true → is_below (suc n) p ≡ true
is_below-suc n none h = refl
is_below-suc n (some p) h = ground (arith, h)

below_other : (n : ℕ) (p : Option ℕ) → is_below n p ≡ true → names_parent n p ≡ false
below_other n none h = refl
below_other n (some p) h = ground (arith, h)

pub start_child-IsWorld :
    (p : ℕ) (w : World) → (w.ctxs p).phase ≡ running → IsWorld w → IsWorld (start_child p w)
unfolding start_child change attach
start_child-IsWorld p w live h =
    let below = live_below w p h live in
    let n = w.count in
    record {
      local = λ j.
          if_either IsLocal (j == n) (λ new. new-IsLocal (some p))
            λ old.
              if_either IsLocal (j == p)
                (λ at.
                  let e : p ≡ j = ground (arith, at) in
                  attach-IsLocal n (w.ctxs j) (subst (λ i. (w.ctxs i).phase ≡ running) e live)
                    (h.local j))
                λ away. h.local j;
      linked = λ c q.
          let Child = λ (x : Ctx).
            (not (is_attached q x) || member c ((start_child p w).ctxs q).subs) ≡ true in
          if_either Child (c == n)
            (λ new.
              if_either
                (λ (y : Ctx). (not (is_attached q (new_ctx (some p))) || member c y.subs) ≡ true)
                (q == n) (λ fresh. ground (arith, below, fresh))
                (λ old.
                  if_either
                    (λ (y : Ctx).
                      (not (is_attached q (new_ctx (some p))) || member c y.subs) ≡ true)
                    (q == p) (λ at. ground (arith, member-snoc c n (w.ctxs q).subs, new))
                    (λ away. ground (arith, away))))
            (λ old.
              let kept = kept_link c q in if_either Child (c == p) (λ at. kept) (λ away. kept));
      fresh = λ c.
          let Fresh =
            λ (x : Ctx). (ltb c (suc n) || (x.phase == unstarted && is_absent x.parent)) ≡ true in
          if_either Fresh (c == n) (λ new. ground (arith, new))
            λ old.
              if_either Fresh (c == p) (λ at. ground (arith, h.fresh c))
                λ away. ground (arith, h.fresh c);
      ranged = λ c.
          let Ranged = λ (x : Ctx). is_below (suc n) x.parent ≡ true in
          let was = is_below-suc n (w.ctxs c).parent (h.ranged c) in
          if_either Ranged (c == n) (λ new. ground (arith, below))
            λ old. if_either Ranged (c == p) (λ at. was) λ away. was;
    }
  where
    kept_link :
        (c q : ℕ)
        → (not (is_attached q (w.ctxs c)) || member c ((start_child p w).ctxs q).subs) ≡ true
    kept_link c q =
        let Parent = λ (y : Ctx). (not (is_attached q (w.ctxs c)) || member c y.subs) ≡ true in
        if_either Parent (q == w.count)
          (λ new.
            let e : w.count ≡ q = ground (arith, new) in
            let none_of : names_parent q (w.ctxs c).parent ≡ false =
              subst (λ i. names_parent i (w.ctxs c).parent ≡ false) e
                (below_other w.count (w.ctxs c).parent (h.ranged c)) in
            ground (arith, none_of))
          (λ old.
            if_either Parent (q == p)
              (λ at. ground (arith, h.linked c q, member-snoc c w.count (w.ctxs q).subs))
              (λ away. h.linked c q))

pub start_root-IsWorld : (w : World) → IsWorld w → IsWorld (start_root w)
unfolding start_root change
start_root-IsWorld w h =
    let n = w.count in
    record {
      local = λ j. if_either IsLocal (j == n) (λ new. new-IsLocal none) λ old. h.local j;
      linked = λ c q.
          let Parent = λ (x y : Ctx). (not (is_attached q x) || member c y.subs) ≡ true in
          if_either (λ (x : Ctx). Parent x ((start_root w).ctxs q)) (c == n) (λ new. refl)
            λ old.
              if_either (Parent (w.ctxs c)) (q == n)
                (λ fresh.
                  let e : n ≡ q = ground (arith, fresh) in
                  let none_of : names_parent q (w.ctxs c).parent ≡ false =
                    subst (λ i. names_parent i (w.ctxs c).parent ≡ false) e
                      (below_other n (w.ctxs c).parent (h.ranged c)) in
                  ground (arith, none_of))
                λ away. h.linked c q;
      fresh = λ c.
          if_either
            (λ (x : Ctx). (ltb c (suc n) || (x.phase == unstarted && is_absent x.parent)) ≡ true)
            (c == n) (λ new. ground (arith, new)) λ old. ground (arith, h.fresh c);
      ranged = λ c.
          if_either (λ (x : Ctx). is_below (suc n) x.parent ≡ true) (c == n) (λ new. refl)
            λ old. is_below-suc n (w.ctxs c).parent (h.ranged c);
    }
