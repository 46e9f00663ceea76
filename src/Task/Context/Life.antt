-- ===== src/Task/Context/Life.antt =====
-- How contexts go on: from Running over Closing to Closed and never back, and how the monitor of one without
-- work gets there.
use amp_sdk.Base.{ℕ, ◌≤◌, ◌≡◌, refl, ap, ◌∙◌, arith, false, Option, none, some, ◌==◌, if_either}
use amp_sdk.Task.Context.{
  World, Ctx, closing, closed, watching, draining, drained, detached, unstarted, empty_world,
  change, new_ctx, attach, detach, release_ctx, set_stage, finalize, close_when_idle, start_root,
  start_child, detach_from,
}
use amp_sdk.Task.Context.Steps.{
  Step, root_step, child_step, release_step, close_step, idle_step, floor_step, delay_step,
  begin_step, drain_step, detach_step, finish_step, Reach, start, later,
}
use amp_sdk.Task.Context.Invariant.{IsWorld}
use amp_sdk.Task.Context.Safety.{
  Reach-IsWorld, empty-IsWorld, IsLater, same-IsLater, change-IsLater, trans-IsLater, alone-IsLater,
  close-IsLater, idle_close-IsLater, floor-IsLater, detach-IsLater, attach-IsLater, stage-IsLater,
}

new-IsLater : (o : Option ℕ) (x : Ctx) → x.phase ≡ unstarted → IsLater x (new_ctx o)
new-IsLater o x blank = record {
  onward = omega (arith, blank);
  adopts = λ d. ground (arith, blank);
}

-- The next context to start is blank.
next_phase : (w : World) → IsWorld w → (w.ctxs w.count).phase ≡ unstarted
next_phase w h = ground (arith, h.fresh w.count)

attach_phase : (n p j : ℕ) (w : World) → ((change p (attach n) w).ctxs j).phase ≡ (w.ctxs j).phase
unfolding change attach
attach_phase n p j w =
    if_either (λ (x : Ctx). x.phase ≡ (w.ctxs j).phase) (j == p) (λ here. refl) λ away. refl

detach_from-IsLater :
    (o : Option ℕ) (c : ℕ) (w : World) (j : ℕ) → IsLater (w.ctxs j) ((detach_from o c w).ctxs j)
detach_from-IsLater none c w j =
    change-IsLater c (set_stage detached) w (stage-IsLater detached (w.ctxs c)) j
detach_from-IsLater (some p) c w j =
    let v = change c (set_stage detached) w in
    trans-IsLater _ (v.ctxs j) _
      (change-IsLater c (set_stage detached) w (stage-IsLater detached (w.ctxs c)) j)
      (change-IsLater p (detach c) v (detach-IsLater c (v.ctxs p)) j)

Step-IsLater : {w v : World} (j : ℕ) → Step w v → IsWorld w → IsLater (w.ctxs j) (v.ctxs j)
unfolding start_root start_child release_ctx finalize close_when_idle
Step-IsLater {w} j root_step h = change-IsLater w.count _ w (new-IsLater none _ (next_phase w h)) j
Step-IsLater {w} j (child_step p live) h =
    let v = change p (attach w.count) w in
    let blank : (v.ctxs w.count).phase ≡ unstarted =
      attach_phase w.count p w.count w ∙ next_phase w h in
    trans-IsLater _ (v.ctxs j) _
      (change-IsLater p (attach w.count) w (attach-IsLater w.count (w.ctxs p) live) j)
      (change-IsLater w.count _ v (new-IsLater (some p) _ blank) j)
Step-IsLater {w} j (release_step c held) h =
    change-IsLater c _ w (alone-IsLater (w.ctxs c) _ (omega arith) refl) j
Step-IsLater {w} j (close_step c) h = change-IsLater c _ w (close-IsLater (w.ctxs c)) j
Step-IsLater {w} j (idle_step c now) h = change-IsLater c _ w (idle_close-IsLater now (w.ctxs c)) j
Step-IsLater {w} j (floor_step c now delay) h =
    change-IsLater c _ w (floor-IsLater now delay (w.ctxs c)) j
Step-IsLater {w} j (delay_step c delay) h =
    change-IsLater c _ w (alone-IsLater (w.ctxs c) _ (omega arith) refl) j
Step-IsLater {w} j (begin_step c at closes) h =
    change-IsLater c _ w (stage-IsLater draining (w.ctxs c)) j
Step-IsLater {w} j (drain_step c at idle) h =
    change-IsLater c _ w (stage-IsLater drained (w.ctxs c)) j
Step-IsLater {w} j (detach_step c at) h = detach_from-IsLater (w.ctxs c).parent c w j
Step-IsLater {w} j (finish_step c at) h =
    let local = h.local c in
    change-IsLater c _ w (alone-IsLater (w.ctxs c) _ (ground (arith, local.finished, at)) refl) j

-- From any world that is reached to any later one, the state of a context does not go back, and from
-- Closing on no child is added to it.
pub Reach-IsLater :
    {w v : World} (j : ℕ) → Reach empty_world w → Reach w v → IsLater (w.ctxs j) (v.ctxs j)
Reach-IsLater {w} j path start = same-IsLater (w.ctxs j)
Reach-IsLater {w} {v} j path (later more step) =
    trans-IsLater (w.ctxs j) _ (v.ctxs j) (Reach-IsLater j path more)
      (Step-IsLater j step (Reach-IsWorld more (Reach-IsWorld path empty-IsWorld)))

change_at : (c : ℕ) (f : Ctx → Ctx) (w : World) → (change c f w).ctxs c ≡ f (w.ctxs c)
unfolding change
change_at c f w =
    if_either (λ (x : Ctx). x ≡ f (w.ctxs c)) (c == c) (λ same. refl)
      λ differ. absurd (itself differ)
  where
    itself : (c == c) ≡ false → ⊥
    itself e = ground (arith, e)

stage_at :
    (stage c : ℕ) (w : World)
    → (((change c (set_stage stage) w).ctxs c).stage ≡ stage)
      × (((change c (set_stage stage) w).ctxs c).active ≡ (w.ctxs c).active)
unfolding set_stage
stage_at stage c w = (
  ap (λ x. x.stage) (change_at c (set_stage stage) w),
  ap (λ x. x.active) (change_at c (set_stage stage) w),
)

detach_from_stage :
    (o : Option ℕ) (c : ℕ) (w : World) → ((detach_from o c w).ctxs c).stage ≡ detached
unfolding change detach
detach_from_stage none c w = (stage_at detached c w).0
detach_from_stage (some p) c w =
    let past = (stage_at detached c w).0 in
    if_either (λ (x : Ctx). x.stage ≡ detached) (c == p) (λ self. past) λ other. past

finalize_phase : (c : ℕ) (w : World) → ((change c finalize w).ctxs c).phase ≡ closed
unfolding finalize
finalize_phase c w = ap (λ x. x.phase) (change_at c finalize w)

-- A context that closes, whose monitor has not seen it yet and which counts no work, can become Closed by
-- steps of its monitor alone.
pub closing-closed :
    (c : ℕ) (w : World)
    → (w.ctxs c).stage ≡ watching
    → closing ≤ (w.ctxs c).phase
    → (w.ctxs c).active ≡ 0
    → (v : World) × Reach w v × ((v.ctxs c).phase ≡ closed)
closing-closed c w at closes idle =
    let v1 = change c (set_stage draining) w in
    let v2 = change c (set_stage drained) v1 in
    let v3 = detach_from (v2.ctxs c).parent c v2 in
    let (at1, active1) = stage_at draining c w in
    let begun = later start (begin_step c at (ground (arith, closes))) in
    let waited = later begun (drain_step c at1 (active1 ∙ idle)) in
    let gone = later waited (detach_step c (stage_at drained c v1).0) in
    (
      change c finalize v3,
      later gone (finish_step c (detach_from_stage (v2.ctxs c).parent c v2)),
      finalize_phase c v3,
    )
