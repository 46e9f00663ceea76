-- ===== src/Task/Context/Family.antt =====
-- The invariant of all steps.
use amp_sdk.Base.{refl, arith}
use amp_sdk.Task.Context.{World, watching, draining, drained, finalize, release_ctx}
use amp_sdk.Task.Context.Steps.{
  Step, root_step, child_step, release_step, close_step, idle_step, floor_step, delay_step,
  begin_step, drain_step, detach_step, finish_step,
}
use amp_sdk.Task.Context.Invariant.{IsWorld, change-IsWorld}
use amp_sdk.Task.Context.Quiet.{
  close-IsQuiet, idle_close-IsQuiet, release-IsQuiet, floor-IsQuiet, delay-IsQuiet, stage-IsQuiet,
  finalize-IsQuiet, under_way, ends,
}
use amp_sdk.Task.Context.Attach.{start_child-IsWorld, start_root-IsWorld}
use amp_sdk.Task.Context.Detach.{detach_from-IsWorld}

-- Every step keeps the invariant.
pub Step-IsWorld : {w v : World} → Step w v → IsWorld w → IsWorld v
Step-IsWorld {w} root_step h = start_root-IsWorld w h
Step-IsWorld {w} (child_step p live) h = start_child-IsWorld p w live h
Step-IsWorld {w} (release_step c held) h =
    change-IsWorld c release_ctx w (release-IsQuiet (w.ctxs c) held (h.local c)) h
Step-IsWorld {w} (close_step c) h = change-IsWorld c _ w (close-IsQuiet (w.ctxs c) (h.local c)) h
Step-IsWorld {w} (idle_step c now) h =
    change-IsWorld c _ w (idle_close-IsQuiet now (w.ctxs c) (h.local c)) h
Step-IsWorld {w} (floor_step c now delay) h =
    change-IsWorld c _ w (floor-IsQuiet now delay (w.ctxs c) (h.local c)) h
Step-IsWorld {w} (delay_step c delay) h =
    change-IsWorld c _ w (delay-IsQuiet delay (w.ctxs c) (h.local c)) h
Step-IsWorld {w} (begin_step c at closes) h =
    change-IsWorld c _ w
      (stage-IsQuiet draining (w.ctxs c) (ground (arith, at)) refl closes
        (under_way (w.ctxs c) watching at refl (h.local c)) (h.local c))
      h
Step-IsWorld {w} (drain_step c at idle) h =
    change-IsWorld c _ w
      (stage-IsQuiet drained (w.ctxs c) (ground (arith, at)) (ground (arith, idle))
        (ends (w.ctxs c) draining at refl (h.local c))
        (under_way (w.ctxs c) draining at refl (h.local c)) (h.local c))
      h
Step-IsWorld {w} (detach_step c at) h = detach_from-IsWorld (w.ctxs c).parent c w refl at h
Step-IsWorld {w} (finish_step c at) h =
    change-IsWorld c finalize w (finalize-IsQuiet (w.ctxs c) at (h.local c)) h
