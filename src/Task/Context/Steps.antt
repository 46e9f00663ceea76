-- ===== src/Task/Context/Steps.antt =====
-- The steps of the goroutines of task.go, each a critical section behind its guard, and what they reach.
use amp_sdk.Base.{ℕ, ◌≡◌, true, leb}
use amp_sdk.Task.Context.{
  World, running, closing, watching, draining, drained, detached, change, close_ctx, release_ctx,
  set_stage, finalize, prevent_idle_close, close_when_idle, idle_close, start_root, start_child,
  detach_from,
}

pub data Step (w : World) : World → Type 0 where
  -- A root is started, or a child of a context that is running.
  root_step : Step w (start_root w)
  child_step : (p : ℕ) → (w.ctxs p).phase ≡ running → Step w (start_child p w)
  -- OnRun returns, or OnStart is all there is or fails: the reservation is released, once.
  release_step : (c : ℕ) → (w.ctxs c).reserved ≡ true → Step w (change c release_ctx w)
  -- Close by anybody, the monitor at a parent that closes included.
  close_step : (c : ℕ) → Step w (change c close_ctx w)
  -- The idle-close loop, and the two calls that set it.
  idle_step : (c now : ℕ) → Step w (change c (idle_close now) w)
  floor_step : (c now delay : ℕ) → Step w (change c (prevent_idle_close now delay) w)
  delay_step : (c delay : ℕ) → Step w (change c (close_when_idle delay) w)
  -- The monitor: Closing() has fired; the context is idle; it is detached; it is finalized.
  begin_step :
      (c : ℕ)
      → (w.ctxs c).stage ≡ watching
      → leb closing (w.ctxs c).phase ≡ true
      → Step w (change c (set_stage draining) w)
  drain_step :
      (c : ℕ)
      → (w.ctxs c).stage ≡ draining
      → (w.ctxs c).active ≡ 0
      → Step w (change c (set_stage drained) w)
  detach_step : (c : ℕ) → (w.ctxs c).stage ≡ drained → Step w (detach_from (w.ctxs c).parent c w)
  finish_step : (c : ℕ) → (w.ctxs c).stage ≡ detached → Step w (change c finalize w)

pub data Reach (w : World) : World → Type 0 where
  start : Reach w w
  later : {v u : World} → Reach w v → Step v u → Reach w u
