-- ===== src/Task/Context/Invariant.antt =====
-- What every step keeps: the count of a context's work, its place among its parent's children, and the agreement of its state with its monitor.
use amp_sdk.Base.{
  ℕ, ◌+◌, ◌≡◌, refl, ap, ◌∙◌, subst, arith, Bool, true, false, not, ◌&&◌, ◌||◌, List, [], ◌∷◌,
  Option, none, some, length, ltb, leb, ◌==◌, if◌then◌else◌, if_either,
}
use amp_sdk.Task.Context.{
  World, Ctx, closing, closed, watching, drained, detached, done, unstarted, change,
}

abbrev pub member : ℕ → List ℕ → Bool
member c [] = false
member c (x ∷ xs) = x == c || member c xs

-- What a context has by itself: the work it counts is its children and its reservation; past waitIdle it
-- has none; its monitor is not past Closing() unless it closes; and it is Closed only with its monitor done.
pub record IsLocal (x : Ctx) : Type 0 where
  pub counted : x.active ≡ length x.subs + (if x.reserved then 1 else 0)
  pub idle : (ltb x.stage drained || x.active == 0) ≡ true
  pub begun : (x.stage == watching || leb closing x.phase) ≡ true
  pub finished : (ltb x.phase closed || x.stage == done) ≡ true

abbrev pub names_parent : ℕ → Option ℕ → Bool
names_parent p none = false
names_parent p (some q) = q == p

-- A child of `p` that is not detached yet.
abbrev pub is_attached : ℕ → Ctx → Bool
is_attached p x = names_parent p x.parent && ltb x.stage detached

abbrev pub is_below : ℕ → Option ℕ → Bool
is_below n none = true
is_below n (some p) = ltb p n

abbrev pub is_absent : Option ℕ → Bool
is_absent none = true
is_absent (some p) = false

-- Of all contexts: each is one of its parent's children until it is detached, one that is not started is
-- blank, and a parent is started.
pub record IsWorld (w : World) : Type 0 where
  pub local : (c : ℕ) → IsLocal (w.ctxs c)
  pub linked : (c p : ℕ) → (not (is_attached p (w.ctxs c)) || member c (w.ctxs p).subs) ≡ true
  pub fresh :
      (c : ℕ)
      → (ltb c w.count || ((w.ctxs c).phase == unstarted && is_absent (w.ctxs c).parent)) ≡ true
  pub ranged : (c : ℕ) → is_below w.count (w.ctxs c).parent ≡ true

-- A change of a context that touches neither its parent nor its children.
pub record IsQuiet (x y : Ctx) : Type 0 where
  pub parent : y.parent ≡ x.parent
  pub subs : y.subs ≡ x.subs
  pub stage : leb x.stage y.stage ≡ true
  pub phase : (ltb 0 x.phase || y.phase == 0) ≡ true
  pub local : IsLocal y

pub quiet-IsWorld :
    (w v : World)
    → v.count ≡ w.count
    → ((c : ℕ) → IsQuiet (w.ctxs c) (v.ctxs c))
    → IsWorld w
    → IsWorld v
quiet-IsWorld w v same q h = record {
  local = λ c. (q c).local;
  linked = λ c p.
      let attached : (not (is_attached p (v.ctxs c)) || is_attached p (w.ctxs c)) ≡ true =
        ap
          (λ o.
            not (names_parent p o && ltb (v.ctxs c).stage detached)
            || (names_parent p (w.ctxs c).parent && ltb (w.ctxs c).stage detached))
          (q c).parent
        ∙ ground (arith, (q c).stage) in
      let children = ap (member c) (q p).subs in ground (arith, h.linked c p, attached, children);
  fresh = λ c.
      let parent = ap is_absent (q c).parent in
      let phase = (q c).phase in ground (arith, h.fresh c, parent, phase, same);
  ranged = λ c.
      ap (λ n. is_below n (v.ctxs c).parent) same ∙ ap (is_below w.count) (q c).parent ∙ h.ranged c;
}

pub same-IsQuiet : (x : Ctx) → IsLocal x → IsQuiet x x
same-IsQuiet x h = record {
  parent = refl;
  subs = refl;
  stage = ground arith;
  phase = ground arith;
  local = h;
}

pub change-IsWorld :
    (c : ℕ) (f : Ctx → Ctx) (w : World)
    → IsQuiet (w.ctxs c) (f (w.ctxs c))
    → IsWorld w
    → IsWorld (change c f w)
unfolding change
change-IsWorld c f w q h =
    quiet-IsWorld w (change c f w) refl
      (λ j.
        if_either (IsQuiet (w.ctxs j)) (j == c)
          (λ here.
            let at : c ≡ j = ground (arith, here) in
            subst (λ i. IsQuiet (w.ctxs i) (f (w.ctxs i))) at q)
          (λ away. same-IsQuiet (w.ctxs j) (h.local j)))
      h
