-- ===== src/Amp/Rekey/Parts.antt =====
-- The parts of a re-key's digest and of its did:key, and what is known where a part is found.
use amp_sdk.Base.{
  ℕ, ◌≡◌, refl, sym, arith, Bool, true, false, not, List, [], ◌∷◌, ◌++◌, Option, none, some,
  if◌then◌else◌,
}
use amp_sdk.Tag.Uid.{Uid, append_to}
use amp_sdk.Tag.Uid.Base32.{codes}
use amp_sdk.Amp.Member.{KeyRef, has_bytes}
use amp_sdk.Amp.Rekey.{with_part, frame_part, base58_encode}

-- The kit and the bytes of a key.
abbrev pub key_bytes : KeyRef → List ℕ
key_bytes ref = append_to ref.kit [] ++ ref.pub_key

-- The UID of the did:key URI of an Ed25519 key: the multicodec prefix ED 01, the key, base58btc.
abbrev pub did_key : (List ℕ → Uid) → List ℕ → Uid
did_key hash_name pub_key = hash_name (codes "did:key:z" ++ base58_encode (0xED ∷ 0x01 ∷ pub_key))

pub with_part-some :
    {A : Type 0} {B : Type 0} (o : Option A) (k : A → Option B) (b : B)
    → with_part o k ≡ some b
    → (a : A) × (o ≡ some a) × (k a ≡ some b)
with_part-some none k b h = absurd (grind arith)
with_part-some (some a) k b h = (a, refl, h)

pub unless-some :
    {B : Type 0} (t : Bool) (o : Option B) (b : B)
    → (if t then none else o) ≡ some b
    → (t ≡ false) × (o ≡ some b)
unless-some true o b h = absurd (grind arith)
unless-some false o b h = (refl, h)

pub not-false : (b : Bool) → not b ≡ false → b ≡ true
not-false true h = refl
not-false false h = absurd (grind arith)

when-some :
    {B : Type 0} (t : Bool) (o : Option B) (b : B)
    → (if t then o else none) ≡ some b
    → (t ≡ true) × (o ≡ some b)
when-some true o b h = (refl, h)
when-some false o b h = absurd (grind arith)

some-eq : {A : Type 0} (a b : A) → some a ≡ some b → a ≡ b
some-eq a b h = grind arith

pub frame_part-some :
    (o : Option KeyRef) (part : List ℕ)
    → frame_part o ≡ some part
    → (ref : KeyRef) × (o ≡ some ref) × (has_bytes ref.pub_key ≡ true) × (part ≡ key_bytes ref)
unfolding frame_part
frame_part-some none part h = absurd (grind arith)
frame_part-some (some ref) part h =
    let (filled, framed) = when-some (has_bytes ref.pub_key) _ part h in
    (ref, refl, filled, some-eq part (key_bytes ref) (sym framed))
