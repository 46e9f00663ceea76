-- ===== src/Amp/Find/Search.antt =====
-- sort.Find on comparisons that go from negative to positive, as those of LoadValue do.
use amp_sdk.Base.{ℕ, zero, suc, ◌+◌, ◌/◌, ◌≤◌, ◌<◌, ◌≡◌, refl, arith}
use amp_sdk.Base.{true, false, ltb, if◌then◌else◌, if_either, Bool-cases, inl, inr}
use amp_sdk.Amp.Find.{is_after, find_loop, sort_find}
use Prim.Native.Nat.{Ordering}

-- Among indices that all compare as behind, the search goes to the end.
find_all_after :
    (cmp : ℕ → Ordering) (fuel i j : ℕ)
    → ((h : ℕ) → i ≤ h → h < j → is_after (cmp h) ≡ true)
    → i ≤ j
    → j ≤ i + fuel
    → find_loop cmp fuel i j ≡ j
unfolding find_loop
find_all_after cmp zero i j after h hf = omega arith
find_all_after cmp (suc fuel) i j after h hf =
    if_either (λ t. t ≡ j) (ltb i j)
      (λ open_span.
        let mid : (i ≤ (i + j) / 2) × ((i + j) / 2 < j) = ground arith in
        rw (after ((i + j) / 2) mid.0 mid.1) (
          find_all_after cmp fuel ((i + j) / 2 + 1) j (λ h lo hi. after h (omega arith) hi)
            (omega arith) (omega arith)))
      (λ closed_span. ground arith)

-- Among indices of which none compares as behind, the search goes to the first.
find_none_after :
    (cmp : ℕ → Ordering) (fuel j : ℕ)
    → ((h : ℕ) → h < j → is_after (cmp h) ≡ false)
    → j ≤ fuel
    → find_loop cmp fuel 0 j ≡ 0
unfolding find_loop
find_none_after cmp zero j before hf = refl
find_none_after cmp (suc fuel) j before hf =
    if_either (λ t. t ≡ 0) (ltb 0 j)
      (λ open_span.
        let mid : (0 + j) / 2 < j = ground arith in
        rw (before ((0 + j) / 2) mid)
          (find_none_after cmp fuel ((0 + j) / 2) (λ h hi. before h (omega arith)) (omega arith)))
      (λ closed_span. refl)

-- The indices that compare as behind are the last ones.
abbrev pub IsRising : ℕ → (ℕ → Ordering) → Type 0
IsRising n cmp = (h k : ℕ) → h ≤ k → k < n → is_after (cmp h) ≡ true → is_after (cmp k) ≡ true

falls :
    (n : ℕ) (cmp : ℕ → Ordering) (h k : ℕ)
    → IsRising n cmp
    → h ≤ k
    → k < n
    → is_after (cmp k) ≡ false
    → is_after (cmp h) ≡ false
falls n cmp h k rising hk hn not_k = elim (Bool-cases (is_after (cmp h))) [
  | inl yes_h ↦ let yes_k = rising h k hk hn yes_h in grind arith
  | inr no_h ↦ no_h
]

-- Then the search ends at the first index, or behind the last one where the middle compares as behind.
pub sort_find-rising :
    (n : ℕ) (cmp : ℕ → Ordering)
    → 0 < n
    → IsRising n cmp
    → sort_find n cmp ≡ (if is_after (cmp (n / 2)) then n else 0)
unfolding sort_find find_loop
sort_find-rising zero cmp some_index rising = absurd (omega arith)
sort_find-rising (suc n) cmp some_index rising =
    let start : (0 + suc n) / 2 ≡ suc n / 2 = omega arith in
    let mid : suc n / 2 < suc n = ground arith in
    let some_span : ltb 0 (suc n) ≡ true = ground arith in
    elim (Bool-cases (is_after (cmp (suc n / 2)))) [
      | inl high ↦
          rw (some_span, start, high)
            (find_all_after cmp n (suc n / 2 + 1) (suc n)
              (λ h lo hi. rising (suc n / 2) h (omega arith) hi high) (omega arith) (omega arith))
      | inr low ↦
          rw (some_span, start, low)
            (find_none_after cmp n (suc n / 2)
              (λ h hi. falls (suc n) cmp h (suc n / 2) rising (omega arith) mid low) (omega arith))
    ]
