-- ===== src/Amp/TagTree/Laws.antt =====
-- Validate looks at every leaf of the tree, and a text leaf is found by its type.
use amp_sdk.Base.{
  ℕ, ◌≡◌, ◌↔◌, refl, sym, ap₂, arith, true, false, List, [], ◌∷◌, All, Option, some, Bool-cases,
  inl, inr,
}
use amp_sdk.Amp.Member.{has_bytes}
use amp_sdk.Amp.TagTree.{
  Leaf, Tags, default_content_type, lower_char, to_lower, same_text, tag_text, content_type,
  validate_leaf, walk_tags, validate_visits, validate_tags,
}

refused_stays : (leaves : List (Option Leaf)) → validate_visits leaves false ≡ false
unfolding validate_visits
refused_stays [] = refl
refused_stays (leaf ∷ leaves) = refused_stays leaves

validate_visits_iff :
    (leaves : List (Option Leaf))
    → (validate_visits leaves true ≡ true) ↔ All (λ leaf. validate_leaf leaf ≡ true) leaves
unfolding validate_visits
validate_visits_iff [] = (λ h. tt, λ h. refl)
validate_visits_iff (leaf ∷ leaves) = elim (Bool-cases (validate_leaf leaf)) [
  | inl legal ↦
      let rest = validate_visits_iff leaves in rw legal ((λ h. (refl, rest.0 h)), (λ h. rest.1 h.1))
  | inr illegal ↦
      rw (illegal, refused_stays leaves) ((λ h. absurd (never h)), (λ h. absurd (never h.0)))
]
  where
    never : false ≡ true → ⊥
    never e = cc

-- A tree is legal exactly if each leaf that Walk visits is, at any depth.
pub validate_tags_iff :
    (t : Tags) → (validate_tags t ≡ true) ↔ All (λ leaf. validate_leaf leaf ≡ true) (walk_tags t)
unfolding validate_tags
validate_tags_iff t = validate_visits_iff (walk_tags t)

to_lower-twice : (text : List ℕ) → to_lower (to_lower text) ≡ to_lower text
unfolding to_lower lower_char
to_lower-twice [] = refl
to_lower-twice (c ∷ text) = ap₂ (λ (x : ℕ) y. x ∷ y) (ground arith) (to_lower-twice text)

same_text-eq : (xs ys : List ℕ) → same_text xs ys ≡ true → xs ≡ ys
unfolding same_text
same_text-eq [] [] h = refl
same_text-eq [] (b ∷ ys) h = cc
same_text-eq (a ∷ xs) [] h = cc
same_text-eq (a ∷ xs) (b ∷ ys) h =
    let same : a ≡ b = ground (arith, h) in
    let rest : same_text xs ys ≡ true = ground (arith, h) in
    ap₂ (λ (x : ℕ) y. x ∷ y) same (same_text-eq xs ys rest)

has_lower : (c : ℕ) (text : List ℕ) → has_bytes (to_lower (c ∷ text)) ≡ true
unfolding to_lower
has_lower c text = refl

-- A text leaf that was made with a type that is not empty has that type, in lower case, also where it is
-- the default and was left out.
pub content_type-tag_text :
    (c : ℕ) (kind text : List ℕ)
    → content_type (some (tag_text (c ∷ kind) text)) ≡ to_lower (c ∷ kind)
unfolding content_type tag_text
content_type-tag_text c kind text =
    elim (Bool-cases (same_text (to_lower (c ∷ kind)) default_content_type)) [
      | inl plain ↦ rw plain (sym (same_text-eq _ _ plain))
      | inr other ↦ rw (other, has_lower c kind) (to_lower-twice (c ∷ kind))
    ]
