-- ===== src/Amp/Epoch/Passing.antt =====
-- What is known where a chain of checks passes.
use amp_sdk.Base.{◌≡◌, refl, ap₂, arith}
use amp_sdk.Base.{Bool, true, false, ◌||◌, ℕ, List, [], ◌∷◌, ltb, if◌then◌else◌}
use amp_sdk.Base.Bytes.{bytes_compare}
use amp_sdk.Amp.Tx.{is_equal}
use amp_sdk.Amp.Epoch.{EpochError, Checked, ◌>>=◌, refuse_if, same_bytes}
use amp_sdk.Amp.Epoch.Checked.{passes, refuses}

pub passes-injective : {A : Type 0} (a b : A) → passes a ≡ passes b → a ≡ b
passes-injective a b h = grind arith

pub bind-passes :
    {A : Type 0} {B : Type 0} (r : Checked A) (f : A → Checked B) (b : B)
    → (r >>= f) ≡ passes b
    → (a : A) × (r ≡ passes a) × (f a ≡ passes b)
bind-passes (passes a) f b h = (a, refl, h)
bind-passes (refuses e) f b h = absurd (grind arith)

pub refuse_if-passes : (b : Bool) (e : EpochError) (u : Unit) → refuse_if b e ≡ passes u → b ≡ false
refuse_if-passes true e u h = absurd (grind arith)
refuse_if-passes false e u h = refl

-- A test that has to fail, with what comes behind it.
pub guard-passes :
    {A : Type 0} (b : Bool) (e : EpochError) (r : Checked A) (a : A)
    → (if b then refuses e else r) ≡ passes a
    → (b ≡ false) × (r ≡ passes a)
guard-passes true e r a h = absurd (grind arith)
guard-passes false e r a h = (refl, h)

pub or-false : (a b : Bool) → (a || b) ≡ false → (a ≡ false) × (b ≡ false)
or-false true b h = absurd (grind arith)
or-false false b h = (refl, h)

compare-eq : (xs ys : List ℕ) → is_equal (bytes_compare xs ys) ≡ true → xs ≡ ys
unfolding bytes_compare
compare-eq [] [] h = refl
compare-eq [] (y ∷ ys) h = absurd (grind arith)
compare-eq (x ∷ xs) [] h = absurd (grind arith)
compare-eq (x ∷ xs) (y ∷ ys) h =
    let first : x ≡ y = ground arith in
    let rest : is_equal (bytes_compare xs ys) ≡ true = ground arith in
    ap₂ ◌∷◌ first (compare-eq xs ys rest)

compare_refl : (xs : List ℕ) → is_equal (bytes_compare xs xs) ≡ true
unfolding bytes_compare
compare_refl [] = refl
compare_refl (x ∷ xs) = let same : ltb x x ≡ false = ground arith in rw same (compare_refl xs)

pub same_bytes-eq : (xs ys : List ℕ) → same_bytes xs ys ≡ true → xs ≡ ys
same_bytes-eq xs ys h = compare-eq xs ys h

pub same_bytes_refl : (xs : List ℕ) → same_bytes xs xs ≡ true
same_bytes_refl xs = compare_refl xs
