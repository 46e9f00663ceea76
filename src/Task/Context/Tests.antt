-- ===== src/Task/Context/Tests.antt =====
-- A root and its child, from their start until the root is Closed while the child, detached, still is not.
use amp_sdk.Base.{◌≡◌, refl, true, false, not, ◌||◌, leb, [], some}
use amp_sdk.Task.Context.{
  World, closing, closed, draining, drained, detached, empty_world, change, close_ctx, release_ctx,
  set_stage, finalize, start_root, start_child, detach_from, attach, detach, remove_child,
}
use amp_sdk.Task.Context.Invariant.{names_parent}
use amp_sdk.Task.Context.Steps.{
  root_step, child_step, release_step, close_step, begin_step, drain_step, detach_step, finish_step,
  Reach, start, later,
}
use amp_sdk.Task.Context.Safety.{IsLater, closed-drained}
use amp_sdk.Task.Context.Life.{Reach-IsLater}

abbrev rooted : World
rooted = start_root empty_world

abbrev family : World
family = start_child 0 rooted

abbrev both_close : World
both_close = change 1 close_ctx (change 0 close_ctx family)

abbrev child_drained : World
child_drained =
    change 1 (set_stage drained) (change 1 release_ctx (change 1 (set_stage draining) both_close))

abbrev child_gone : World
child_gone = change 0 release_ctx (detach_from (child_drained.ctxs 1).parent 1 child_drained)

abbrev root_drained : World
root_drained = change 0 (set_stage drained) (change 0 (set_stage draining) child_gone)

abbrev root_closed : World
root_closed = change 0 finalize (detach_from (root_drained.ctxs 0).parent 0 root_drained)

to_family : Reach empty_world family
unfolding start_root change
to_family = later (later start root_step) (child_step 0 refl)

to_both : Reach family both_close
to_both = later (later start (close_step 0)) (close_step 1)

to_closed : Reach empty_world root_closed
unfolding start_root start_child change attach detach remove_child close_ctx release_ctx set_stage
    finalize
to_closed =
    let closes = later (later to_family (close_step 0)) (close_step 1) in
    let begun = later closes (begin_step 1 refl refl) in
    let released = later begun (release_step 1 refl) in
    let waited = later released (drain_step 1 refl refl) in
    let gone = later waited (detach_step 1 refl) in
    let free = later gone (release_step 0 refl) in
    let root_begun = later free (begin_step 0 refl refl) in
    let root_waited = later root_begun (drain_step 0 refl refl) in
    later (later root_waited (detach_step 0 refl)) (finish_step 0 refl)

shut : (root_closed.ctxs 0).phase ≡ closed
unfolding start_root start_child change attach detach remove_child close_ctx release_ctx set_stage
    finalize
shut = refl

mine : (root_closed.ctxs 1).parent ≡ some 0
unfolding start_root start_child change attach detach remove_child close_ctx release_ctx set_stage
    finalize
mine = refl

-- The root is Closed, its OnClosed run and its Done fired, before those of the child.
child_later : (root_closed.ctxs 1).phase ≡ closing
unfolding start_root start_child change attach detach remove_child close_ctx release_ctx set_stage
    finalize
child_later = refl

closed-drained_example :
    ((root_closed.ctxs 0).active ≡ 0)
    × ((root_closed.ctxs 0).reserved ≡ false)
    × ((root_closed.ctxs 0).subs ≡ [])
    × ((not (names_parent 0 (root_closed.ctxs 1).parent) || leb detached (root_closed.ctxs 1).stage)
        ≡ true)
closed-drained_example = closed-drained 0 1 to_closed shut

Reach-IsLater_example : IsLater (family.ctxs 0) (both_close.ctxs 0)
Reach-IsLater_example = Reach-IsLater 0 to_family to_both
