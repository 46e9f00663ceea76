-- ===== src/Amp/Founders/Unordered.antt =====
-- The order of the founders does not count.
use amp_sdk.Base.{
  ℕ, ◌≡◌, refl, sym, ap, ◌∙◌, arith, Bool, Bool-cases, inl, inr, true, false, List, [], ◌∷◌, Option,
  if◌then◌else◌,
}
use amp_sdk.Amp.Quorum.{is_empty}
use amp_sdk.Amp.Epoch.EpochError.{bad_request}
use amp_sdk.Amp.Epoch.Checked.{passes, refuses}
use amp_sdk.Amp.Founders.{
  FounderKey, founder_entry, founder_entries, insert_entry, sort_entries, no_founders,
  founder_fingerprint,
}
use amp_sdk.Amp.Founders.Order.{insert_entry_comm}
use mathlib.Core.List.{Perm}
use mathlib.Core.List.Perm
use mathlib.Core.List.{foldr, map}

abbrev and_keyed : FounderKey → Bool → Bool
and_keyed founder rest = if is_empty founder.bytes then false else rest

abbrev insert_founder : FounderKey → List (List ℕ) → List (List ℕ)
insert_founder founder = insert_entry (founder_entry founder)

founder_entries-keyed :
    (founders : List FounderKey)
    → founder_entries founders ≡ (
        if foldr and_keyed true founders
        then passes (map founder_entry founders)
        else refuses bad_request)
unfolding founder_entries
founder_entries-keyed [] = refl
founder_entries-keyed (founder ∷ founders) = elim (Bool-cases (is_empty founder.bytes)) [
  | inl missing ↦ rw missing refl
  | inr present ↦ elim (Bool-cases (foldr and_keyed true founders)) [
    | inl keyed ↦ rw (present, founder_entries-keyed founders, keyed) refl
    | inr unkeyed ↦ rw (present, founder_entries-keyed founders, unkeyed) refl
  ]
]

sort_entries-map :
    (founders : List FounderKey)
    → sort_entries (map founder_entry founders) ≡ foldr insert_founder [] founders
unfolding sort_entries
sort_entries-map [] = refl
sort_entries-map (founder ∷ founders) = ap (insert_founder founder) (sort_entries-map founders)

keyed_comm :
    (a b : FounderKey) (x : Bool) → and_keyed a (and_keyed b x) ≡ and_keyed b (and_keyed a x)
keyed_comm a b x = ground arith

sort_entries-Perm :
    (founders others : List FounderKey)
    → Perm founders others
    → sort_entries (map founder_entry founders) ≡ sort_entries (map founder_entry others)
sort_entries-Perm founders others p =
    sort_entries-map founders
    ∙ Perm.foldr-eq (hlevel) insert_founder
        (λ a b. insert_entry_comm (founder_entry a) (founder_entry b)) p []
    ∙ sym (sort_entries-map others)

keyed-Perm :
    (founders others : List FounderKey)
    → Perm founders others
    → foldr and_keyed true founders ≡ foldr and_keyed true others
keyed-Perm founders others p = Perm.foldr-eq (hlevel) and_keyed keyed_comm p true

no_founders-Perm :
    (founders others : List FounderKey)
    → Perm founders others
    → no_founders founders ≡ no_founders others
no_founders-Perm [] [] p = refl
no_founders-Perm [] (x ∷ xs) p = absurd (cc (Perm.nil-eq p))
no_founders-Perm (x ∷ xs) [] p = absurd (cc (Perm.eq-nil p))
no_founders-Perm (x ∷ xs) (y ∷ ys) p = refl

-- Two lists that hold the same founders in different orders have the same fingerprint, or are refused with the
-- same code, so that the order in which the map is ranged over does not count.
pub founder_fingerprint-Perm :
    (hash : Option (List ℕ → List ℕ)) (founders others : List FounderKey) (required : ℕ)
    → Perm founders others
    → founder_fingerprint hash founders required ≡ founder_fingerprint hash others required
unfolding founder_fingerprint
founder_fingerprint-Perm hash founders others required p =
    rw
      (
        no_founders-Perm founders others p,
        founder_entries-keyed founders,
        founder_entries-keyed others,
        keyed-Perm founders others p,
      )
      (elim (Bool-cases (foldr and_keyed true others)) [
        | inl keyed ↦ rw (keyed, sort_entries-Perm founders others p) refl
        | inr unkeyed ↦ rw unkeyed refl
      ])
