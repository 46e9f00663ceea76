-- ===== src/Amp/Ops/Fields.antt =====
-- The slots of an operation are read back from the words that changed.
use amp_sdk.Base.{
  ℕ, ◌+◌, ◌*◌, ◌/◌, ◌%◌, ◌^◌, ◌<◌, ◌≡◌, refl, sym, ap, ap₂, ◌∙◌, arith, bit_and, bit_or,
}
use amp_sdk.Base.{
  true, false, List, [], ◌∷◌, ◌++◌, All, length, take, drop, ltb, ◌==◌, if◌then◌else◌, Bool-cases,
  inl, inr, ==_iff,
}
use amp_sdk.Base.{append_assoc, drop_step, drop_within, length-append}
use amp_sdk.Base.Bits.{bit_and_bit, bit_or_shifted}
use amp_sdk.Base.Bytes.{put_be, be_value, be_value-put_be, length-put_be}
use amp_sdk.Tag.Uid.{IsU64}
use amp_sdk.Amp.Wire.Read.{done}
use amp_sdk.Amp.Ops.{changed_from, put_fields, read_fields, cons_field}
use native.Mathlib.Nat.{pow-suc, one-le-pow, div-div-eq-div-mul}
use native.Mathlib.Numerals.{towards_suc}

-- The mask of the slots that differ, lowest bit first.
abbrev pub differing : List ℕ → List ℕ → ℕ
differing [] cur = 0
differing (p ∷ prv) [] = 0
differing (p ∷ prv) (c ∷ cur) = (if c == p then 0 else 1) + 2 * differing prv cur

two : (n : ℕ) → 2 ^ (n + 1) ≡ 2 * 2 ^ n
two n = simp towards_suc (omega arith)

double : (q i : ℕ) → q * 2 ^ (i + 1) ≡ 2 * q * 2 ^ i
double q i = omega (arith, ap (λ (t : ℕ). q * t) (two i))

pub changed_from-differing :
    (i : ℕ) (prv cur : List ℕ) → changed_from i prv cur ≡ differing prv cur * 2 ^ i
unfolding changed_from
changed_from-differing i [] cur = omega arith
changed_from-differing i (p ∷ prv) [] = omega arith
changed_from-differing i (p ∷ prv) (c ∷ cur) =
    ap (λ (t : ℕ). bit_or t (if c == p then 0 else 2 ^ i)) (changed_from-differing (i + 1) prv cur)
    ∙ bit_or_shifted (i + 1) (differing prv cur) (if c == p then 0 else 2 ^ i)
        (ground (arith, two i, one-le-pow i 2))
    ∙ ground (arith, double (differing prv cur) i)

pub differing-lt : (prv cur : List ℕ) → differing prv cur < 2 ^ length cur
differing-lt [] cur = omega (arith, one-le-pow (length cur) 2)
differing-lt (p ∷ prv) [] = omega arith
differing-lt (p ∷ prv) (c ∷ cur) = ground (arith, differing-lt prv cur, pow-suc 2 (length cur))

-- The test of the bit `i`, and the bits above it.
module _ (has i : ℕ) (p c : ℕ) (m : ℕ) (h : has / 2 ^ i ≡ (if c == p then 0 else 1) + 2 * m) where
  bit_test : (bit_and has (2 ^ i) == 0) ≡ (c == p)
  bit_test = elim (Bool-cases (c == p)) [
    | inl same ↦ rw same (ground (arith, bit_and_bit i has, clear same))
    | inr differs ↦ rw differs (ground (arith, bit_and_bit i has, one-le-pow i 2, set_bit differs))
  ]
    where
      clear : (c == p) ≡ true → has / 2 ^ i % 2 * 2 ^ i ≡ 0
      clear e =
          let e0 : has / 2 ^ i % 2 ≡ 0 = ground arith in ap (λ (t : ℕ). t * 2 ^ i) e0 ∙ omega arith

      set_bit : (c == p) ≡ false → has / 2 ^ i % 2 * 2 ^ i ≡ 2 ^ i
      set_bit e =
          let e1 : has / 2 ^ i % 2 ≡ 1 = ground arith in ap (λ (t : ℕ). t * 2 ^ i) e1 ∙ omega arith

  bits_above : has / 2 ^ (i + 1) ≡ m
  bits_above =
      ap (λ (t : ℕ). has / t) (two i ∙ omega arith)
      ∙ sym (div-div-eq-div-mul has (2 ^ i) 2)
      ∙ ground arith

module _ (i has c : ℕ) (cur : List ℕ) where
  put_keep :
      (bit_and has (2 ^ i) == 0) ≡ true → put_fields i has (c ∷ cur) ≡ put_fields (i + 1) has cur
  unfolding put_fields
  put_keep h = rw h refl

  put_fresh :
      (bit_and has (2 ^ i) == 0) ≡ false
      → put_fields i has (c ∷ cur) ≡ put_be 8 c ++ put_fields (i + 1) has cur
  unfolding put_fields
  put_fresh h = rw h refl

  read_keep :
      (src : List ℕ) (p : ℕ)
      → (bit_and has (2 ^ i) == 0) ≡ true
      → read_fields i has (c ∷ cur) src p ≡ cons_field c (read_fields (i + 1) has cur src p)
  unfolding read_fields
  read_keep src p h = rw h refl

  read_fresh :
      (src : List ℕ) (p : ℕ)
      → (bit_and has (2 ^ i) == 0) ≡ false
      → ltb (length src) (p + 8) ≡ false
      → read_fields i has (c ∷ cur) src p
        ≡ cons_field (be_value (take 8 (drop p src))) (read_fields (i + 1) has cur src (p + 8))
  unfolding read_fields
  read_fresh src p h g = rw (h, g) refl

read_word : (c : ℕ) (rest : List ℕ) → IsU64 c → be_value (take 8 (put_be 8 c ++ rest)) ≡ c
unfolding put_be
read_word c rest h = be_value-put_be 8 c h

-- Reading over the slots of the operation before gives the slots that were written.
pub read_fields-put :
    (i has : ℕ) (prv cur : List ℕ) (src : List ℕ) (p : ℕ) (rest : List ℕ)
    → length prv ≡ length cur
    → All IsU64 cur
    → has / 2 ^ i ≡ differing prv cur
    → drop p src ≡ put_fields i has cur ++ rest
    → read_fields i has prv src p ≡ done (cur, p + length (put_fields i has cur))
read_fields-put i has [] [] src p rest hl hv hb hd =
    unfold read_fields put_fields in ap (λ (t : ℕ). done ([], t)) (omega arith)
read_fields-put i has [] (c ∷ cur) src p rest hl hv hb hd = absurd (omega arith)
read_fields-put i has (x ∷ prv) [] src p rest hl hv hb hd = absurd (omega arith)
read_fields-put i has (x ∷ prv) (c ∷ cur) src p rest hl hv hb hd = elim (Bool-cases (c == x)) [
  | inl same ↦
      let clear = bit_test has i x c m hb ∙ same in
      let written = put_keep i has c cur clear in
      read_keep i has x prv src p clear
      ∙ ap (cons_field x) (
          read_fields-put (i + 1) has prv cur src p rest sizes hv.1 above
            (hd ∙ ap (λ (t : List ℕ). t ++ rest) written))
      ∙ ap₂ (λ (y : ℕ) (l : List ℕ). done (y ∷ cur, p + length l)) (sym ((==_iff c x).0 same))
          (sym written)
  | inr differs ↦
      let changed = bit_test has i x c m hb ∙ differs in
      let written = put_fresh i has c cur changed in
      let split : drop p src ≡ put_be 8 c ++ (put_fields (i + 1) has cur ++ rest) =
        hd
        ∙ ap (λ (t : List ℕ). t ++ rest) written
        ∙ append_assoc (put_be 8 c) (put_fields (i + 1) has cur) rest in
      let eight : length (put_be 8 c) ≡ 8 = length-put_be 8 c in
      let room : ltb (length src) (p + 8) ≡ false = ground (
        arith,
        drop_within p src (put_be 8 c) (put_fields (i + 1) has cur ++ rest) (omega (arith, eight))
            split,
      ) in
      let step : drop (p + 8) src ≡ put_fields (i + 1) has cur ++ rest =
        ap (λ t. drop (p + t) src) (sym eight)
        ∙ drop_step p src (put_be 8 c) (put_fields (i + 1) has cur ++ rest) split in
      let word : be_value (take 8 (drop p src)) ≡ c =
        ap (λ t. be_value (take 8 t)) split ∙ read_word c _ hv.0 in
      let size : p + 8 + length (put_fields (i + 1) has cur)
          ≡ p + length (put_fields i has (c ∷ cur)) =
        omega (
          arith,
          eight,
          ap length written,
          length-append (put_be 8 c) (put_fields (i + 1) has cur),
        ) in
      read_fresh i has x prv src p changed room
      ∙ ap (cons_field (be_value (take 8 (drop p src))))
          (read_fields-put (i + 1) has prv cur src (p + 8) rest sizes hv.1 above step)
      ∙ ap₂ (λ (y : ℕ) (n : ℕ). done (y ∷ cur, n)) word size
]
  where
    m : ℕ
    m = differing prv cur

    sizes : length prv ≡ length cur
    sizes = omega arith

    above : has / 2 ^ (i + 1) ≡ m
    above = bits_above has i x c m hb
