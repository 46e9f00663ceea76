-- ===== src/Task/Context.antt =====
-- stdlib/task/task.go: the contexts of a program as a state that the critical sections change, each an
-- atomic step. A context is known by the order of its start. What a goroutine holds between two sections is
-- in the state: `reserved` while StartChild or OnRun has not released, `stage` for the monitor. Time is a
-- number of nanoseconds. Hooks change no context but by the steps.
pub mod Steps
pub mod Invariant
pub mod Quiet
pub mod Attach
pub mod Detach
pub mod Family
pub mod Safety
pub mod Life
mod Tests
use amp_sdk.Base.{
  ℕ, zero, suc, ◌+◌, ◌-◌, ◌≡◌, Bool, true, false, not, ◌&&◌, ◌||◌, List, [], ◌∷◌, ◌++◌, Option,
  none, some, ltb, leb, ◌==◌, if◌then◌else◌,
}

-- The states of a context: Unstarted, Running, Closing, Closed.
abbrev pub unstarted : ℕ
unstarted = 0

abbrev pub running : ℕ
running = 1

abbrev pub closing : ℕ
closing = 2

abbrev pub closed : ℕ
closed = 3

-- Where the monitor of a context is: before Closing() has fired, running the hooks and waiting for the
-- context to be idle, past waitIdle, past the detachment from the parent, and done.
abbrev pub watching : ℕ
watching = 0

abbrev pub draining : ℕ
draining = 1

abbrev pub drained : ℕ
drained = 2

abbrev pub detached : ℕ
detached = 3

abbrev pub done : ℕ
done = 4

-- `ctx`, with the positions of its goroutines.
pub record Ctx : Type 0 where
  pub parent : Option ℕ
  pub phase : ℕ
  pub subs : List ℕ
  pub active : ℕ
  pub idle_delay : ℕ
  pub idle_floor : ℕ
  pub reserved : Bool
  pub stage : ℕ

pub record World : Type 0 where
  pub count : ℕ
  pub ctxs : ℕ → Ctx

abbrev pub blank : Ctx
blank = record {
  parent = none;
  phase = unstarted;
  subs = [];
  active = 0;
  idle_delay = 0;
  idle_floor = 0;
  reserved = false;
  stage = watching;
}

-- No context is started yet.
abbrev pub empty_world : World
empty_world = record { count = 0; ctxs = λ c. blank }

-- A critical section of one context.
unfoldable pub change : ℕ → (Ctx → Ctx) → World → World
change c f w = record w { ctxs = λ j. if j == c then f (w.ctxs j) else w.ctxs j }

-- `close`
unfoldable pub close_ctx : Ctx → Ctx
close_ctx x = if x.phase == running then record x { phase = closing } else x

-- `release`
unfoldable pub release_ctx : Ctx → Ctx
release_ctx x = record x { active = x.active - 1; reserved = false }

-- The context that StartChild makes, with its reservation.
abbrev pub new_ctx : Option ℕ → Ctx
new_ctx p = record blank { parent = p; phase = running; active = 1; reserved = true }

-- The attachment of a child to its parent.
unfoldable pub attach : ℕ → Ctx → Ctx
attach child x = record x { subs = x.subs ++ child ∷ []; active = x.active + 1 }

-- `removeChildLocked`
unfoldable pub remove_child : ℕ → List ℕ → List ℕ
remove_child child [] = []
remove_child child (sub ∷ subs) =
    let rest = remove_child child subs in if sub == child then subs else sub ∷ rest

-- The detachment of a child from its parent.
unfoldable pub detach : ℕ → Ctx → Ctx
detach child x = record x { subs = remove_child child x.subs; active = x.active - 1 }

unfoldable pub set_stage : ℕ → Ctx → Ctx
set_stage stage x = record x { stage = stage }

-- The end of the monitor: the state is Closed, OnClosed runs, and Done fires.
unfoldable pub finalize : Ctx → Ctx
finalize x = record x { phase = closed; stage = done }

-- The later of two instants is kept.
unfoldable pub prevent_idle_close : ℕ → ℕ → Ctx → Ctx
prevent_idle_close now delay x =
    if ltb x.idle_floor (now + delay) then record x { idle_floor = now + delay } else x

unfoldable pub close_when_idle : ℕ → Ctx → Ctx
close_when_idle delay x = record x { idle_delay = delay }

-- The test of idleCloseLoop when its timer fires; a floor of 0 is unset.
unfoldable pub is_ready : ℕ → Ctx → Bool
is_ready now x = x.active == 0 && ltb 0 x.idle_delay && (x.idle_floor == 0 || leb x.idle_floor now)

unfoldable pub idle_close : ℕ → Ctx → Ctx
idle_close now x = if is_ready now x then close_ctx x else x

-- `task.Start`: a context without a parent.
unfoldable pub start_root : World → World
start_root w = record (change w.count (λ x. new_ctx none) w) { count = suc w.count }

-- `StartChild` of a context that is running.
unfoldable pub start_child : ℕ → World → World
start_child p w = record (change w.count (λ x. new_ctx (some p)) (change p (attach w.count) w)) {
  count = suc w.count;
}

-- The detachment by the monitor of `c`, whose parent may be nil.
abbrev pub detach_from : Option ℕ → ℕ → World → World
detach_from none c w = change c (set_stage detached) w
detach_from (some p) c w = change p (detach c) (change c (set_stage detached) w)
