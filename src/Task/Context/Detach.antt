-- ===== src/Task/Context/Detach.antt =====
-- The monitor detaches a context from its parent.
use amp_sdk.Base.{
  ℕ, ◌≡◌, refl, subst, arith, true, false, not, ◌&&◌, ◌||◌, Option, none, some, inl, inr, ltb, ◌==◌,
  if_either, Bool-cases,
}
use amp_sdk.Task.Context.{
  World, Ctx, drained, detached, unstarted, change, remove_child, detach, set_stage, detach_from,
}
use amp_sdk.Task.Context.Invariant.{
  member, IsLocal, IsWorld, names_parent, is_attached, is_below, is_absent, change-IsWorld,
}
use amp_sdk.Task.Context.Quiet.{stage-IsQuiet, under_way, ends}
use amp_sdk.Task.Context.Attach.{member-remove_child, length-remove_child}

detach-IsLocal : (c : ℕ) (x : Ctx) → member c x.subs ≡ true → IsLocal x → IsLocal (detach c x)
unfolding detach
detach-IsLocal c x inside h = record {
  counted = omega (arith, h.counted, length-remove_child c x.subs inside);
  idle = ground (arith, h.idle);
  begun = h.begun;
  finished = h.finished;
}

-- A context leaves the children of `p` once it does not count as attached.
leave-IsWorld :
    (p c : ℕ) (w : World)
    → member c (w.ctxs p).subs ≡ true
    → is_attached p (w.ctxs c) ≡ false
    → IsWorld w
    → IsWorld (change p (detach c) w)
unfolding change detach
leave-IsWorld p c w inside gone h = record {
  local = λ j.
      if_either IsLocal (j == p)
        (λ here.
          let e : p ≡ j = ground (arith, here) in
          detach-IsLocal c (w.ctxs j) (subst (λ i. member c (w.ctxs i).subs ≡ true) e inside)
            (h.local j))
        (λ away. h.local j);
  linked = λ d q.
      let stays = left_link d q in
      if_either
        (λ (x : Ctx).
          (not (is_attached q x) || member d ((change p (detach c) w).ctxs q).subs) ≡ true)
        (d == p) (λ here. stays) λ away. stays;
  fresh = λ d.
      if_either
        (λ (x : Ctx). (ltb d w.count || (x.phase == unstarted && is_absent x.parent)) ≡ true)
        (d == p) (λ here. h.fresh d) λ away. h.fresh d;
  ranged = λ d.
      if_either (λ (x : Ctx). is_below w.count x.parent ≡ true) (d == p) (λ here. h.ranged d)
        λ away. h.ranged d;
}
  where
    left_link :
        (d q : ℕ)
        → (not (is_attached q (w.ctxs d)) || member d ((change p (detach c) w).ctxs q).subs) ≡ true
    left_link d q =
        let Parent = λ (y : Ctx). (not (is_attached q (w.ctxs d)) || member d y.subs) ≡ true in
        if_either Parent (q == p)
          (λ here. elim (Bool-cases (c == d)) [
            | inl same ↦
                let e : c ≡ d = ground (arith, same) in
                let f : p ≡ q = ground (arith, here) in
                let apart : is_attached q (w.ctxs d) ≡ false =
                  subst (λ i. is_attached i (w.ctxs d) ≡ false) f
                    (subst (λ i. is_attached p (w.ctxs i) ≡ false) e gone) in
                ground (arith, apart)
            | inr other ↦
                let f : p ≡ q = ground (arith, here) in
                let kept : member d (remove_child c (w.ctxs q).subs) ≡ member d (w.ctxs q).subs =
                  member-remove_child d c (w.ctxs q).subs other in
                ground (arith, kept, h.linked d q)
          ])
          (λ away. h.linked d q)

stage_detached : (x : Ctx) → (set_stage detached x).stage ≡ detached
unfolding set_stage
stage_detached x = refl

past-IsWorld :
    (c : ℕ) (w : World)
    → (w.ctxs c).stage ≡ drained
    → IsWorld w
    → IsWorld (change c (set_stage detached) w)
past-IsWorld c w at h =
    let x = w.ctxs c in
    let local = h.local c in
    change-IsWorld c (set_stage detached) w
      (stage-IsQuiet detached x (ground (arith, at)) (ground (arith, local.idle, at))
        (ends x drained at refl local) (under_way x drained at refl local) local)
      h

pub detach_from-IsWorld :
    (o : Option ℕ) (c : ℕ) (w : World)
    → (w.ctxs c).parent ≡ o
    → (w.ctxs c).stage ≡ drained
    → IsWorld w
    → IsWorld (detach_from o c w)
unfolding change set_stage
detach_from-IsWorld none c w mine at h = past-IsWorld c w at h
detach_from-IsWorld (some p) c w mine at h =
    leave-IsWorld p c (change c (set_stage detached) w)
      (if_either (λ (y : Ctx). member c y.subs ≡ true) (p == c) (λ self. inside) λ other. inside)
      (if_either (λ (x : Ctx). is_attached p x ≡ false) (c == c) (λ same. ground arith)
        λ differ. ground (arith, differ))
      (past-IsWorld c w at h)
  where
    inside : member c (w.ctxs p).subs ≡ true
    inside =
        let named : names_parent p (w.ctxs c).parent ≡ true = rw mine (ground arith) in
        ground (arith, h.linked c p, at, named)
