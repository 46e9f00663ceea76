-- ===== src/Amp/Open/Preamble.antt =====
-- The preamble of a transaction's bytes, and the head and the data store that it delimits.
use amp_sdk.Base.{ℕ, ◌+◌, ◌-◌, ◌^◌, ◌<◌, ◌≡◌, refl, sym, ap, ap₂, ◌∙◌, arith}
use amp_sdk.Base.{
  List, [], ◌++◌, none, some, true, false, not, ◌||◌, length, take, drop, take-append, drop-append,
  length-append, ltb, append-nil, append_assoc,
}
use amp_sdk.Base.Bytes.{put_be, be_value-put_be, bytes_compare}
use amp_sdk.Amp.Seal.{preamble_signature}
use amp_sdk.Amp.Seal.Layout.{head}
use amp_sdk.Amp.Open.{tx_head_len, tx_data_len, is_signed_preamble, head_body, data_behind}

-- The beginning of a preamble, in front of anything.
abbrev pub preamble : ℕ → ℕ → List ℕ → List ℕ
preamble head_len data_len rest =
    preamble_signature ++ (put_be 4 head_len ++ (put_be 4 data_len ++ rest))

tx_head_len-preamble : (h d : ℕ) (rest : List ℕ) → h < 2 ^ 32 → tx_head_len (preamble h d rest) ≡ h
unfolding tx_head_len put_be
tx_head_len-preamble h d rest small = be_value-put_be 4 h small

tx_data_len-preamble : (h d : ℕ) (rest : List ℕ) → d < 2 ^ 32 → tx_data_len (preamble h d rest) ≡ d
unfolding tx_data_len put_be
tx_data_len-preamble h d rest small = be_value-put_be 4 d small

preamble-is_signed : (h d : ℕ) (rest : List ℕ) → is_signed_preamble (preamble h d rest) ≡ true
unfolding is_signed_preamble bytes_compare
preamble-is_signed h d rest = refl

length-preamble : (h d : ℕ) (rest : List ℕ) → length (preamble h d rest) ≡ 12 + length rest
unfolding put_be
length-preamble h d rest = omega arith

preamble-append : (h d : ℕ) (rest xs : List ℕ) → preamble h d rest ++ xs ≡ preamble h d (rest ++ xs)
unfolding put_be
preamble-append h d rest xs = refl

-- A head and a data store behind sixteen bytes that state their lengths.
module _ (pre head store rest : List ℕ) where
  abbrev behind_pre : List ℕ
  behind_pre = pre ++ (head ++ (store ++ rest))

  regroup : behind_pre ≡ (pre ++ head) ++ (store ++ rest)
  regroup = sym (append_assoc pre head (store ++ rest))

  length-wire : length behind_pre ≡ length pre + length head + length store + length rest
  length-wire = omega (
    arith,
    length-append pre (head ++ (store ++ rest)),
    length-append head (store ++ rest),
    length-append store rest,
  )

  take_front : take (length pre + length head) behind_pre ≡ pre ++ head
  take_front =
      ap₂ take (sym (length-append pre head)) regroup ∙ take-append (pre ++ head) (store ++ rest)

  drop_front : drop (length pre + length head) behind_pre ≡ store ++ rest
  drop_front =
      ap₂ drop (sym (length-append pre head)) regroup ∙ drop-append (pre ++ head) (store ++ rest)

  module _ (hp : length pre ≡ 16) (hh : tx_head_len behind_pre ≡ length pre + length head)
      (hd : tx_data_len behind_pre ≡ length store) where
    head_body_lem : head_body behind_pre ≡ some head
    unfolding head_body
    head_body_lem =
        let guard : (ltb (tx_head_len behind_pre) 16
              || ltb (length behind_pre) (tx_head_len behind_pre)
              || ltb (length behind_pre - tx_head_len behind_pre) (tx_data_len behind_pre))
            ≡ false =
          ground (arith, length-wire) in
        rw guard (
          ap (λ t. some (drop 16 t)) (ap (λ n. take n behind_pre) hh ∙ take_front)
          ∙ ap (λ n. some (drop n (pre ++ head))) (sym hp)
          ∙ ap some (drop-append pre head))

    data_behind_lem : data_behind behind_pre ≡ store
    unfolding data_behind
    data_behind_lem =
        ap₂ take hd (ap (λ n. drop n behind_pre) hh ∙ drop_front) ∙ take-append store rest

-- The bytes of a transaction whose preamble states the lengths of its head and of its data store.
module _ (tail head store rest : List ℕ) where
  abbrev pub front : List ℕ
  front = preamble (16 + length head) (length store) tail

  abbrev pub wire : List ℕ
  wire = front ++ (head ++ (store ++ rest))

  pub length_of_wire : length tail ≡ 4 → length wire ≡ 16 + length head + length store + length rest
  length_of_wire four = omega (
    arith,
    length-wire front head store rest,
    length-preamble (16 + length head) (length store) tail,
  )

  pub front-is_signed : is_signed_preamble front ≡ true
  front-is_signed = preamble-is_signed (16 + length head) (length store) tail

  pub front-head_len : 16 + length head < 2 ^ 32 → tx_head_len front ≡ 16 + length head
  front-head_len fits = tx_head_len-preamble (16 + length head) (length store) tail fits

  pub front-data_len : length store < 2 ^ 32 → tx_data_len front ≡ length store
  front-data_len fits = tx_data_len-preamble (16 + length head) (length store) tail fits

  module _ (four : length tail ≡ 4) (head_fits : 16 + length head < 2 ^ 32)
      (store_fits : length store < 2 ^ 32) where
    pub length-front : length front ≡ 16
    length-front = omega (arith, four, length-preamble (16 + length head) (length store) tail)

    states_head : tx_head_len wire ≡ length front + length head
    states_head =
        ap tx_head_len (preamble-append (16 + length head) (length store) tail _)
        ∙ tx_head_len-preamble (16 + length head) (length store) _ head_fits
        ∙ ap (λ n. n + length head) (sym length-front)

    states_store : tx_data_len wire ≡ length store
    states_store =
        ap tx_data_len (preamble-append (16 + length head) (length store) tail _)
        ∙ tx_data_len-preamble (16 + length head) (length store) _ store_fits

    pub wire-head_body : head_body wire ≡ some head
    wire-head_body = head_body_lem front head store rest length-front states_head states_store

    pub wire-data_behind : data_behind wire ≡ store
    wire-data_behind = data_behind_lem front head store rest length-front states_head states_store

    -- A store that is stated but missing.
    pub missing_store : 0 < length store → head_body (front ++ head) ≡ none
    unfolding head_body
    missing_store some_store =
        let at_head : tx_head_len (front ++ head) ≡ 16 + length head =
          ap tx_head_len (preamble-append (16 + length head) (length store) tail head)
          ∙ tx_head_len-preamble (16 + length head) (length store) _ head_fits in
        let at_store : tx_data_len (front ++ head) ≡ length store =
          ap tx_data_len (preamble-append (16 + length head) (length store) tail head)
          ∙ tx_data_len-preamble (16 + length head) (length store) _ store_fits in
        let whole : length (front ++ head) ≡ 16 + length head =
          omega (arith, length-append front head, length-front) in
        let guard : (ltb (tx_head_len (front ++ head)) 16
              || ltb (length (front ++ head)) (tx_head_len (front ++ head))
              || ltb (length (front ++ head) - tx_head_len (front ++ head))
                  (tx_data_len (front ++ head)))
            ≡ true =
          ground arith in
        rw guard refl

    -- The tests with which a reader begins.
    pub wire-is_accepted : (ltb (length wire) 16 || not (is_signed_preamble wire)) ≡ false
    wire-is_accepted =
        let signed : is_signed_preamble wire ≡ true =
          ap is_signed_preamble (preamble-append (16 + length head) (length store) tail _)
          ∙ preamble-is_signed (16 + length head) (length store) _ in
        rw signed (ground (arith, length-wire front head store rest, length-front))

-- What follows a transaction's bytes.
pub wire-append :
    (tail head store rest : List ℕ) → wire tail head store [] ++ rest ≡ wire tail head store rest
wire-append tail head store rest =
    append_assoc (front tail head store rest) (head ++ (store ++ [])) rest
    ∙ ap (λ t. front tail head store rest ++ t)
        (append_assoc head (store ++ []) rest ∙ ap (λ t. head ++ (t ++ rest)) (append-nil store))
