-- ===== src/Task/Context/Safety.antt =====
-- What holds of every world that the steps reach.
use amp_sdk.Base.{
  ℕ, suc, ◌+◌, ◌≤◌, ◌≡◌, refl, ap, subst, arith, true, false, not, ◌||◌, List, [], ◌∷◌, length, leb,
  ltb, ◌==◌, if_either, Bool-cases, inl, inr,
}
use amp_sdk.Task.Context.{
  World, Ctx, running, closing, closed, detached, empty_world, change, attach, remove_child, detach,
  close_ctx, set_stage, prevent_idle_close, idle_close, is_ready,
}
use amp_sdk.Task.Context.Steps.{Reach, start, later}
use amp_sdk.Task.Context.Invariant.{member, IsWorld, names_parent}
use amp_sdk.Task.Context.Family.{Step-IsWorld}

pub empty-IsWorld : IsWorld empty_world
empty-IsWorld = record {
  local = λ c. record { counted = refl; idle = refl; begun = refl; finished = refl };
  linked = λ c p. refl;
  fresh = λ c. ground arith;
  ranged = λ c. refl;
}

pub Reach-IsWorld : {w v : World} → Reach w v → IsWorld w → IsWorld v
Reach-IsWorld start h = h
Reach-IsWorld (later path step) h = Step-IsWorld step (Reach-IsWorld path h)

length_zero : (xs : List ℕ) → length xs ≡ 0 → xs ≡ []
length_zero [] h = refl
length_zero (x ∷ xs) h = absurd (no_length h)
  where
    no_length : suc (length xs) ≡ 0 → ⊥
    no_length e = omega arith

-- In every world that is reached, a Closed context counts no work: no OnStart or OnRun of it is under way and
-- it has no children. Every context that it ever started as a child is detached.
pub closed-drained :
    {w : World} (c d : ℕ)
    → Reach empty_world w
    → (w.ctxs c).phase ≡ closed
    → ((w.ctxs c).active ≡ 0)
      × ((w.ctxs c).reserved ≡ false)
      × ((w.ctxs c).subs ≡ [])
      × ((not (names_parent c (w.ctxs d).parent) || leb detached (w.ctxs d).stage) ≡ true)
closed-drained {w} c d path shut =
    let h = Reach-IsWorld path empty-IsWorld in
    let x = h.local c in
    let idle : (w.ctxs c).active ≡ 0 = ground (arith, x.idle, x.finished, shut) in
    let free : (w.ctxs c).reserved ≡ false = ground (arith, x.counted, idle) in
    let none_left : (w.ctxs c).subs ≡ [] =
      length_zero (w.ctxs c).subs (omega (arith, x.counted, idle)) in
    let away : member d (w.ctxs c).subs ≡ false = rw none_left refl in
    (idle, free, none_left, ground (arith, h.linked d c, away))

-- From one world to a later one, a context does not go back, and one that closes adopts nobody.
pub record IsLater (x y : Ctx) : Type 0 where
  pub onward : x.phase ≤ y.phase
  pub adopts : (d : ℕ) → (ltb x.phase closing || (not (member d y.subs) || member d x.subs)) ≡ true

pub same-IsLater : (x : Ctx) → IsLater x x
same-IsLater x = record { onward = omega arith; adopts = λ d. ground arith }

pub change-IsLater :
    (c : ℕ) (f : Ctx → Ctx) (w : World)
    → IsLater (w.ctxs c) (f (w.ctxs c))
    → (j : ℕ) → IsLater (w.ctxs j) ((change c f w).ctxs j)
unfolding change
change-IsLater c f w h j =
    if_either (IsLater (w.ctxs j)) (j == c)
      (λ here.
        let at : c ≡ j = ground (arith, here) in
        subst (λ i. IsLater (w.ctxs i) (f (w.ctxs i))) at h)
      (λ away. same-IsLater (w.ctxs j))

pub trans-IsLater : (x y z : Ctx) → IsLater x y → IsLater y z → IsLater x z
trans-IsLater x y z h g = record {
  onward = omega (arith, h.onward, g.onward);
  adopts = λ d. ground (arith, h.adopts d, g.adopts d, h.onward);
}

-- A section that leaves the children alone.
pub alone-IsLater : (x y : Ctx) → x.phase ≤ y.phase → y.subs ≡ x.subs → IsLater x y
alone-IsLater x y on same = record {
  onward = on;
  adopts = λ d. let e = ap (member d) same in ground (arith, e);
}

pub close-IsLater : (x : Ctx) → IsLater x (close_ctx x)
unfolding close_ctx
close-IsLater x =
    if_either (IsLater x) (x.phase == running)
      (λ live. alone-IsLater x _ (ground (arith, live)) refl) λ other. same-IsLater x

pub idle_close-IsLater : (now : ℕ) (x : Ctx) → IsLater x (idle_close now x)
unfolding idle_close
idle_close-IsLater now x =
    if_either (IsLater x) (is_ready now x) (λ ready. close-IsLater x) λ busy. same-IsLater x

pub floor-IsLater : (now delay : ℕ) (x : Ctx) → IsLater x (prevent_idle_close now delay x)
unfolding prevent_idle_close
floor-IsLater now delay x =
    if_either (IsLater x) (ltb x.idle_floor (now + delay))
      (λ more. alone-IsLater x _ (omega arith) refl) λ less. same-IsLater x

member-removed :
    (c d : ℕ) (xs : List ℕ) → (not (member d (remove_child c xs)) || member d xs) ≡ true
unfolding remove_child
member-removed c d [] = refl
member-removed c d (x ∷ xs) = elim (Bool-cases (x == c)) [
  | inl same ↦ rw same (ground arith)
  | inr other ↦ rw other (ground (arith, member-removed c d xs))
]

pub detach-IsLater : (c : ℕ) (x : Ctx) → IsLater x (detach c x)
unfolding detach
detach-IsLater c x = record {
  onward = omega arith;
  adopts = λ d. ground (arith, member-removed c d x.subs);
}

pub attach-IsLater : (c : ℕ) (x : Ctx) → x.phase ≡ running → IsLater x (attach c x)
unfolding attach
attach-IsLater c x live = record { onward = omega arith; adopts = λ d. ground (arith, live) }

pub stage-IsLater : (stage : ℕ) (x : Ctx) → IsLater x (set_stage stage x)
unfolding set_stage
stage-IsLater stage x = alone-IsLater x _ (omega arith) refl
