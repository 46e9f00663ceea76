-- ===== src/Amp/Wire/Message.antt =====
-- readPb and writePb: messages come back, and which lengths make the slice of readPb panic.
use amp_sdk.Base.{ℕ, suc, ◌+◌, ◌-◌, ◌*◌, ◌^◌, ◌≤◌, ◌<◌, ◌≡◌, ◌↔◌, ap, ◌∙◌, arith, bit_and, bit_or}
use amp_sdk.Base.{
  Bool, true, false, List, [], ◌∷◌, ◌++◌, Option, none, some, length, take, drop, ltb, leb, ◌==◌,
  ◌&&◌, if◌then◌else◌, Bool-cases, inl, inr,
}
use amp_sdk.Base.{
  length-append, length-drop, subst, append_assoc, take-append, drop-append, drop_step, drop_within,
}
use amp_sdk.Tag.Uid.{u64}
use amp_sdk.Amp.Wire.{
  put_uvarint, uvarint_loop, uvarint, read_span, after_read, or_malformed, append_message,
  read_message, write_pb, read_pb,
}
use amp_sdk.Amp.Wire.Read.{done, malformed, panics}
use amp_sdk.Amp.Wire.Uvarint.{uvarint-put_uvarint, put_uvarint-nonempty}

-- An end of 2 ^ 63 or more is negative or behind its start, so the slice panics.
pub read_span_lem :
    (src : List ℕ) (p v : ℕ)
    → p ≤ length src
    → length src < 2 ^ 63
    → v < 2 ^ 64
    → read_span src p v ≡ (
        if leb (2 ^ 63) (p + v)
        then panics
        else if ltb (length src) (p + v)
        then malformed
        else done (take v (drop p src), p + v))
unfolding read_span
read_span_lem src p v hp hl hv = elim (Bool-cases (leb (2 ^ 63) (p + v))) [
  | inl wild ↦ rw wild (ground arith)
  | inr tame ↦
      let whole : u64 (p + v) ≡ p + v = ground arith in
      let size : p + v - p ≡ v = omega arith in rw (tame, whole, size) (ground arith)
]

abbrev IsCounted : ℕ → Option (ℕ × ℕ) → Type 0
IsCounted m none = Unit
IsCounted m (some (v, n)) = n ≤ m

if-IsCounted :
    (m : ℕ) (c : Bool) (x y : Option (ℕ × ℕ))
    → IsCounted m x
    → IsCounted m y
    → IsCounted m (if c then x else y)
if-IsCounted m true x y hx hy = hx
if-IsCounted m false x y hx hy = hy

-- Uvarint takes no more bytes than there are.
uvarint_loop-IsCounted :
    (i x : ℕ) (bytes : List ℕ) → IsCounted (i + length bytes) (uvarint_loop i x bytes)
unfolding uvarint_loop
uvarint_loop-IsCounted i x [] = tt
uvarint_loop-IsCounted i x (b ∷ bytes) =
    let m : ℕ = i + suc (length bytes) in
    let y : ℕ = bit_or (u64 (bit_and b 0x7F * 2 ^ (7 * i))) x in
    let e : i + 1 + length bytes ≡ m = omega arith in
    let more : IsCounted m (uvarint_loop (i + 1) y bytes) =
      subst (λ t. IsCounted t (uvarint_loop (i + 1) y bytes)) e
        (uvarint_loop-IsCounted (i + 1) y bytes) in
    let last : Option (ℕ × ℕ) = some (bit_or (u64 (b * 2 ^ (7 * i))) x, i + 1) in
    let stop : Option (ℕ × ℕ) = if i == 9 && ltb 1 b then none else last in
    if-IsCounted m (i == 10) none (if ltb b 0x80 then stop else uvarint_loop (i + 1) y bytes) tt (
      if-IsCounted m (ltb b 0x80) stop (uvarint_loop (i + 1) y bytes)
        (if-IsCounted m (i == 9 && ltb 1 b) none last tt (omega arith)) more)

uvarint-IsCounted : (bytes : List ℕ) → IsCounted (length bytes) (uvarint bytes)
unfolding uvarint
uvarint-IsCounted bytes =
    let e : 0 + length bytes ≡ length bytes = omega arith in
    subst (λ t. IsCounted t (uvarint_loop 0 0 bytes)) e (uvarint_loop-IsCounted 0 0 bytes)

-- The part of readPb before the message is unmarshalled.
read_message-put :
    (src : List ℕ) (p : ℕ) (buf rest : List ℕ)
    → length src < 2 ^ 63
    → drop p src ≡ put_uvarint (length buf) ++ (buf ++ rest)
    → read_message src p ≡ done (buf, p + length (put_uvarint (length buf)) + length buf)
unfolding read_message
read_message-put src p buf rest hl h =
    let n : ℕ = length (put_uvarint (length buf)) in
    let ends =
      drop_within p src (put_uvarint (length buf)) (buf ++ rest) (put_uvarint-nonempty _) h in
    let fits = length-append buf rest in
    let inside : leb (length src) p ≡ false = ground (arith, put_uvarint-nonempty (length buf)) in
    let number = ap uvarint h ∙ uvarint-put_uvarint (length buf) (buf ++ rest) (omega arith) in
    let tame : leb (2 ^ 63) (p + n + length buf) ≡ false = ground arith in
    let room : ltb (length src) (p + n + length buf) ≡ false = ground arith in
    rw (inside, number)
      (read_span_lem src (p + n) (length buf) (omega arith) hl (omega arith)
        ∙ rw (tame, room)
            (ap (λ (t : List ℕ). done (t, p + n + length buf))
              (ap (take (length buf)) (drop_step p src (put_uvarint (length buf)) (buf ++ rest) h)
                ∙ take-append buf rest)))

module _ {M : Type 0} (marshal : M → Option (List ℕ)) (unmarshal : List ℕ → Option M) where
  -- A message that is written with writePb, and unmarshals from what it marshals to, is read back by
  -- readPb, which stops behind it, whatever follows.
  pub read_pb-write_pb :
      (dst : List ℕ) (pb : M) (buf rest : List ℕ)
      → marshal pb ≡ some buf
      → unmarshal buf ≡ some pb
      → length dst + length (put_uvarint (length buf)) + length buf + length rest < 2 ^ 63
      → read_pb marshal unmarshal ((write_pb marshal unmarshal dst pb).0 ++ rest) (length dst)
        ≡ done (pb, length (write_pb marshal unmarshal dst pb).0)
  unfolding read_pb write_pb
  read_pb-write_pb dst pb buf rest hm hu hl =
      ap (λ (w : List ℕ × Bool). read_pb marshal unmarshal (w.0 ++ rest) (length dst)) written
      ∙ ap
          (λ r.
            after_read r
              (λ span. after_read (or_malformed (unmarshal span.0)) (λ m. done (m, span.1))))
          (read_message-put src (length dst) buf rest (omega (arith, size, sizes)) start)
      ∙ ap
          (λ o.
            after_read (or_malformed o) (λ m. done (m, length dst + length number + length buf)))
          hu
      ∙ ap (λ (t : ℕ). done (pb, t))
          (omega (arith, size, ap (λ (w : List ℕ × Bool). length w.0) written))
    where
      number : List ℕ
      number = put_uvarint (length buf)

      written : write_pb marshal unmarshal dst pb ≡ (dst ++ (number ++ buf), true)
      written = ap (append_message dst) hm

      src : List ℕ
      src = (dst ++ (number ++ buf)) ++ rest

      start : drop (length dst) src ≡ number ++ (buf ++ rest)
      start =
          ap (drop (length dst)) (append_assoc dst (number ++ buf) rest)
          ∙ drop-append dst ((number ++ buf) ++ rest)
          ∙ append_assoc number buf rest

      size : length (dst ++ (number ++ buf)) ≡ length dst + length number + length buf
      size = omega (arith, length-append dst (number ++ buf), length-append number buf)

      sizes : length src ≡ length (dst ++ (number ++ buf)) + length rest
      sizes = length-append (dst ++ (number ++ buf)) rest

-- Where readPb finds a length, it panics exactly if the position behind the length and the length add
-- up to 2 ^ 63 or more, since the sum is then negative or wraps around.
pub read_message-panics_iff :
    (src : List ℕ) (p v n : ℕ)
    → p < length src
    → length src < 2 ^ 63
    → v < 2 ^ 64
    → uvarint (drop p src) ≡ some (v, n)
    → (read_message src p ≡ panics) ↔ (2 ^ 63 ≤ p + n + v)
unfolding read_message
read_message-panics_iff src p v n hp hl hv h =
    let inside : leb (length src) p ≡ false = ground arith in
    let counted : n ≤ length (drop p src) =
      subst (IsCounted (length (drop p src))) h (uvarint-IsCounted (drop p src)) in
    let within : p + n ≤ length src = omega (arith, length-drop p src) in
    rw (inside, h, read_span_lem src (p + n) v within hl hv) (ground arith)
