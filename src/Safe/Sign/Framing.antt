-- ===== src/Safe/Sign/Framing.antt =====
-- SigningParts and SigningDigest: what is signed determines the domain and the parts.
use amp_sdk.Base.{ℕ, ◌%◌, ◌^◌, ◌<◌, ◌≡◌, ◌≢◌, refl, sym, ap, ap₂, ◌∙◌, arith}
use amp_sdk.Base.{
  List, [], ◌∷◌, ◌++◌, none, some, length, get_or, take, drop, take-append, drop-append,
  length-append, All, Option-cases, inl, inr,
}
use amp_sdk.Base.Bytes.{put_be, be_value, be_value-put_be, length-put_be}
use amp_sdk.Safe.Sign.{signing_domain_tag, frame_parts, behind_tag, signing_parts, concat}

abbrev pub IsPart : List ℕ → Type 0
IsPart part = length part < 2 ^ 32

-- The bytes that the hash is given for parts of admissible length.
abbrev pub framed : List (List ℕ) → List ℕ
framed [] = []
framed (part ∷ parts) = put_be 4 (length part) ++ (part ++ framed parts)

abbrev pub segments : List (List ℕ) → List (List ℕ)
segments [] = []
segments (part ∷ parts) = put_be 4 (length part) ∷ part ∷ segments parts

none-some : {A : Type 0} {a : A} → none ≢ some a
none-some h = grind arith

-- The segments where there are any, and that no part is too long for its length.
frame_parts-IsPart :
    (parts : List (List ℕ)) (a : List (List ℕ))
    → frame_parts parts ≡ some a
    → All IsPart parts × (a ≡ segments parts)
unfolding frame_parts
frame_parts-IsPart [] a h = (tt, grind arith)
frame_parts-IsPart (part ∷ parts) a h = elim (Option-cases (frame_parts parts)) [
  | inl e ↦ absurd (none-some {a = a} (grind arith))
  | inr (rest, e) ↦ let ih = frame_parts-IsPart parts rest e in grind arith
]

concat-segments : (parts : List (List ℕ)) → concat (segments parts) ≡ framed parts
unfolding concat
concat-segments [] = refl
concat-segments (part ∷ parts) =
    ap (λ t. put_be 4 (length part) ++ (part ++ t)) (concat-segments parts)

-- One list in front of another is determined by its length.
pub split_lem :
    (xs ys : List ℕ) (u v : List ℕ)
    → length xs ≡ length ys
    → xs ++ u ≡ ys ++ v
    → (xs ≡ ys) × (u ≡ v)
split_lem xs ys u v n e = (
  sym (take-append xs u) ∙ ap₂ take n e ∙ take-append ys v,
  sym (drop-append xs u) ∙ ap₂ drop n e ∙ drop-append ys v,
)

length_of :
    (p q u v : List ℕ)
    → IsPart p
    → IsPart q
    → put_be 4 (length p) ++ u ≡ put_be 4 (length q) ++ v
    → (length p ≡ length q) × (u ≡ v)
length_of p q u v hp hq e =
    let four = length-put_be 4 (length p) ∙ sym (length-put_be 4 (length q)) in
    let parts = split_lem (put_be 4 (length p)) (put_be 4 (length q)) u v four e in
    (
      sym (be_value-put_be 4 (length p) hp) ∙ ap be_value parts.0 ∙ be_value-put_be 4 (length q) hq,
      parts.1,
    )

framed-nonempty : (p : List ℕ) (u : List ℕ) → [] ≢ put_be 4 (length p) ++ u
framed-nonempty p u e =
    omega (arith, ap length e, length-append (put_be 4 (length p)) u, length-put_be 4 (length p))

framed-injective :
    (ps qs : List (List ℕ)) → All IsPart ps → All IsPart qs → framed ps ≡ framed qs → ps ≡ qs
framed-injective [] [] hp hq e = refl
framed-injective [] (q ∷ qs) hp hq e = absurd (framed-nonempty q _ e)
framed-injective (p ∷ ps) [] hp hq e = absurd (framed-nonempty p _ (sym e))
framed-injective (p ∷ ps) (q ∷ qs) hp hq e =
    let sizes = length_of p q _ _ hp.0 hq.0 e in
    let parts = split_lem p q (framed ps) (framed qs) sizes.0 sizes.1 in
    ap₂ ◌∷◌ parts.0 (framed-injective ps qs hp.1 hq.1 parts.1)

-- What is hashed, where SigningParts has segments.
signing_parts-concat :
    (domain : List ℕ) (parts a : List (List ℕ))
    → signing_parts domain parts ≡ some a
    → All IsPart parts × (concat a ≡ length domain % 2 ^ 8 ∷ (domain ++ framed parts))
unfolding signing_parts signing_domain_tag concat
signing_parts-concat domain parts a h = elim (Option-cases (frame_parts parts)) [
  | inl e ↦ absurd (none-some {a = a} (ap (behind_tag domain) (sym e) ∙ h))
  | inr (rest, e) ↦
      let known = frame_parts-IsPart parts rest e in
      let whole : a ≡ signing_domain_tag domain ∷ rest = grind arith in
      (
        known.0,
        ap concat whole
            ∙ ap (λ t. length domain % 2 ^ 8 ∷ (domain ++ t))
                (ap concat known.1 ∙ concat-segments parts),
      )
]

-- Where SigningParts accepts two signatures' domains and parts, and the domains are shorter than 256
-- bytes, the bytes that are hashed for them are equal only if the domains are equal and the parts are
-- the same ones in the same order.
pub signing_parts-injective :
    (d1 d2 : List ℕ) (ps qs a b : List (List ℕ))
    → length d1 < 2 ^ 8
    → length d2 < 2 ^ 8
    → signing_parts d1 ps ≡ some a
    → signing_parts d2 qs ≡ some b
    → concat a ≡ concat b
    → (d1 ≡ d2) × (ps ≡ qs)
signing_parts-injective d1 d2 ps qs a b h1 h2 ha hb e =
    let one = signing_parts-concat d1 ps a ha in
    let two = signing_parts-concat d2 qs b hb in
    let same = sym one.1 ∙ e ∙ two.1 in
    let size : length d1 ≡ length d2 = omega (arith, ap (λ t. get_or t 0 0) same) in
    let behind : d1 ++ framed ps ≡ d2 ++ framed qs = ap (drop 1) same in
    let parts = split_lem d1 d2 (framed ps) (framed qs) size behind in
    (parts.0, framed-injective ps qs one.0 two.0 parts.1)
