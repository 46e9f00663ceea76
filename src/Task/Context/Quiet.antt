-- ===== src/Task/Context/Quiet.antt =====
-- The sections of one context that touch neither its parent nor its children.
use amp_sdk.Base.{ℕ, ◌+◌, ◌≡◌, refl, ◌∙◌, arith, true, ◌||◌, length, ltb, leb, ◌==◌, if_either}
use amp_sdk.Task.Context.{
  Ctx, running, closing, closed, drained, detached, done, close_ctx, release_ctx, set_stage,
  finalize, prevent_idle_close, close_when_idle, idle_close, is_ready,
}
use amp_sdk.Task.Context.Invariant.{IsLocal, IsQuiet, same-IsQuiet}

pub close-IsQuiet : (x : Ctx) → IsLocal x → IsQuiet x (close_ctx x)
unfolding close_ctx
close-IsQuiet x h =
    if_either (IsQuiet x) (x.phase == running)
      (λ live. record {
        parent = refl;
        subs = refl;
        stage = ground arith;
        phase = ground (arith, live);
        local = record {
          counted = h.counted;
          idle = h.idle;
          begun = ground (arith, h.begun, live);
          finished = ground arith;
        };
      })
      (λ other. same-IsQuiet x h)

pub idle_close-IsQuiet : (now : ℕ) (x : Ctx) → IsLocal x → IsQuiet x (idle_close now x)
unfolding idle_close
idle_close-IsQuiet now x h =
    if_either (IsQuiet x) (is_ready now x) (λ ready. close-IsQuiet x h) (λ busy. same-IsQuiet x h)

pub release-IsQuiet : (x : Ctx) → x.reserved ≡ true → IsLocal x → IsQuiet x (release_ctx x)
unfolding release_ctx
release-IsQuiet x held h =
    let one : x.active ≡ length x.subs + 1 = h.counted ∙ rw held refl in
    record {
      parent = refl;
      subs = refl;
      stage = ground arith;
      phase = ground arith;
      local = record {
        counted = omega (arith, one);
        idle = ground (arith, h.idle);
        begun = h.begun;
        finished = h.finished;
      };
    }

pub floor-IsQuiet :
    (now delay : ℕ) (x : Ctx) → IsLocal x → IsQuiet x (prevent_idle_close now delay x)
unfolding prevent_idle_close
floor-IsQuiet now delay x h =
    if_either (IsQuiet x) (ltb x.idle_floor (now + delay))
      (λ later. record {
        parent = refl;
        subs = refl;
        stage = ground arith;
        phase = ground arith;
        local = record {
          counted = h.counted;
          idle = h.idle;
          begun = h.begun;
          finished = h.finished;
        };
      })
      (λ earlier. same-IsQuiet x h)

pub delay-IsQuiet : (delay : ℕ) (x : Ctx) → IsLocal x → IsQuiet x (close_when_idle delay x)
unfolding close_when_idle
delay-IsQuiet delay x h = record {
  parent = refl;
  subs = refl;
  stage = ground arith;
  phase = ground arith;
  local = record { counted = h.counted; idle = h.idle; begun = h.begun; finished = h.finished };
}

-- The monitor goes on, to a stage for which the context is ready.
pub stage-IsQuiet :
    (stage : ℕ) (x : Ctx)
    → leb x.stage stage ≡ true
    → (ltb stage drained || x.active == 0) ≡ true
    → leb closing x.phase ≡ true
    → ltb x.phase closed ≡ true
    → IsLocal x
    → IsQuiet x (set_stage stage x)
unfolding set_stage
stage-IsQuiet stage x on idle ends live h = record {
  parent = refl;
  subs = refl;
  stage = on;
  phase = ground (arith, ends);
  local = record {
    counted = h.counted;
    idle = idle;
    begun = ground (arith, ends);
    finished = ground (arith, live);
  };
}

pub finalize-IsQuiet : (x : Ctx) → x.stage ≡ detached → IsLocal x → IsQuiet x (finalize x)
unfolding finalize
finalize-IsQuiet x at h = record {
  parent = refl;
  subs = refl;
  stage = ground (arith, at);
  phase = ground (arith, h.begun, at);
  local = record {
    counted = h.counted;
    idle = ground (arith, h.idle, at);
    begun = ground arith;
    finished = ground arith;
  };
}

-- A context with its monitor under way closes and is not Closed.
pub under_way :
    (x : Ctx) (stage : ℕ)
    → x.stage ≡ stage
    → ltb stage done ≡ true
    → IsLocal x
    → ltb x.phase closed ≡ true
under_way x stage at early h = ground (arith, h.finished, at, early)

pub ends :
    (x : Ctx) (stage : ℕ)
    → x.stage ≡ stage
    → ltb 0 stage ≡ true
    → IsLocal x
    → leb closing x.phase ≡ true
ends x stage at begun h = ground (arith, h.begun, at, begun)
