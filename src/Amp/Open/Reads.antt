-- ===== src/Amp/Open/Reads.antt =====
-- readBytes of ReadTxMsg: what it takes from the chunks of a stream, and what it leaves.
use amp_sdk.Base.{ℕ, zero, suc, ◌-◌, ◌≤◌, ◌≡◌, refl, sym, ap, ◌∙◌, arith}
use amp_sdk.Base.{
  List, [], ◌∷◌, ◌++◌, Option, some, All, false, length, take, drop, length-append, take-append,
  drop-append, ltb, ◌==◌, if_either,
}
use amp_sdk.Amp.Open.{Chunk, read_bytes, behind_chunk}

-- The bytes of the chunks, and that no read of them returns an error.
unfoldable pub bytes_of : List Chunk → List ℕ
bytes_of [] = []
bytes_of (chunk ∷ chunks) = chunk.bytes ++ bytes_of chunks

abbrev pub IsQuiet : Chunk → Type 0
IsQuiet chunk = chunk.with_error ≡ false

-- A read of `n` bytes from chunks that hold as many has those bytes, and leaves the others, in front of what
-- the stream has behind the chunks.
abbrev IsRead : ℕ → List Chunk → List Chunk → Option (List ℕ × List Chunk) → Type 0
IsRead n chunks others r =
    (rest : List Chunk) × (r ≡ some (take n (bytes_of chunks), rest ++ others))
    × All IsQuiet rest
    × (bytes_of rest ≡ drop n (bytes_of chunks))

take_behind :
    (c ys : List ℕ) (n : ℕ)
    → length c ≤ n
    → (take n (c ++ ys) ≡ c ++ take (n - length c) ys) × (drop n (c ++ ys) ≡ drop (n - length c) ys)
take_behind [] ys n h =
    let same : n ≡ n - 0 = omega arith in (ap (λ k. take k ys) same, ap (λ k. drop k ys) same)
take_behind (x ∷ c) ys zero h = absurd (omega arith)
take_behind (x ∷ c) ys (suc n) h =
    let rest = take_behind c ys n (omega arith) in
    let same : n - length c ≡ suc n - suc (length c) = omega arith in
    (ap (λ t. x ∷ t) (rest.0 ∙ ap (λ k. c ++ take k ys) same), rest.1 ∙ ap (λ k. drop k ys) same)

pub take_within :
    (c ys : List ℕ) (n : ℕ)
    → n ≤ length c
    → (take n (c ++ ys) ≡ take n c) × (drop n (c ++ ys) ≡ drop n c ++ ys)
take_within c ys zero h = (refl, refl)
take_within [] ys (suc n) h = absurd (omega arith)
take_within (x ∷ c) ys (suc n) h =
    let rest = take_within c ys n (omega arith) in (ap (λ t. x ∷ t) rest.0, rest.1)

read_none : (others : List Chunk) → read_bytes 0 others ≡ some ([], others)
unfolding read_bytes
read_none [] = refl
read_none (c ∷ cs) = refl

read_bytes-IsRead :
    (n : ℕ) (chunks others : List Chunk)
    → All IsQuiet chunks
    → n ≤ length (bytes_of chunks)
    → IsRead n chunks others (read_bytes n (chunks ++ others))
unfolding read_bytes bytes_of
read_bytes-IsRead n [] others quiet h =
    let z : n ≡ 0 = omega arith in ([], rw z (read_none others), tt, rw z refl)
read_bytes-IsRead n (c ∷ cs) others quiet h =
    let all : List ℕ = c.bytes ++ bytes_of cs in
    let IsSplit : Option (List ℕ × List Chunk) → Type 0 = λ r.
      (rest : List Chunk) × (r ≡ some (take n all, rest ++ others))
      × All IsQuiet rest
      × (bytes_of rest ≡ drop n all) in
    if_either IsSplit (n == 0)
      (λ stop. let z : n ≡ 0 = ground arith in (c ∷ cs, rw z refl, quiet, rw z refl))
      (λ more.
        if_either IsSplit (ltb n (length c.bytes))
          (λ short.
            let cut = take_within c.bytes (bytes_of cs) n (ground arith) in
            let left : Chunk = record c { bytes = drop n c.bytes } in
            (
              left ∷ cs,
              ap (λ t. some (t, left ∷ (cs ++ others))) (sym cut.0),
              (quiet.0, quiet.1),
              sym cut.1,
            ))
          (λ long.
            let cut = take_behind c.bytes (bytes_of cs) n (ground arith) in
            let (rest, found, calm, left) =
              read_bytes-IsRead (n - length c.bytes) cs others quiet.1
                (ground (arith, length-append c.bytes (bytes_of cs))) in
            (
              rest,
              rw quiet.0 (
                  ap (behind_chunk c.bytes) found ∙ ap (λ t. some (t, rest ++ others)) (sym cut.0)),
              calm,
              left ∙ sym cut.1,
            )))

-- The same for chunks that begin with the bytes.
pub read_bytes-bytes_of :
    (chunks others : List Chunk) (xs ys : List ℕ)
    → All IsQuiet chunks
    → bytes_of chunks ≡ xs ++ ys
    → (rest : List Chunk) × (read_bytes (length xs) (chunks ++ others) ≡ some (xs, rest ++ others))
      × All IsQuiet rest
      × (bytes_of rest ≡ ys)
read_bytes-bytes_of chunks others xs ys quiet e =
    let (rest, found, calm, left) =
      read_bytes-IsRead (length xs) chunks others quiet
        (omega (arith, ap length e, length-append xs ys)) in
    (
      rest,
      found ∙ ap (λ t. some (t, rest ++ others)) (ap (take (length xs)) e ∙ take-append xs ys),
      calm,
      left ∙ ap (drop (length xs)) e ∙ drop-append xs ys,
    )
