-- ===== src/Amp/Epoch/Frame.antt =====
-- EpochFrame: what is signed determines the charter and the terms.
use amp_sdk.Base.{ℕ, ◌^◌, ◌<◌, ◌≡◌, sym, ap, ◌∙◌}
use amp_sdk.Base.{List, [], ◌++◌, some, length, append-nil, ◌||◌}
use amp_sdk.Base.Bytes.{put_be, be_value, be_value-put_be, length-put_be}
use amp_sdk.Safe.Sign.Framing.{split_lem}
use amp_sdk.Amp.Quorum.{is_empty}
use amp_sdk.Amp.Epoch.{PlanetEpoch, epoch_frame, signed_bytes}
use amp_sdk.Amp.Epoch.EpochError.{bad_request}
use amp_sdk.Amp.Epoch.Checked.{passes}
use amp_sdk.Amp.Epoch.Passing.{passes-injective, guard-passes}

framed_part :
    (a b u v : List ℕ)
    → length a < 2 ^ 64
    → length b < 2 ^ 64
    → put_be 8 (length a) ++ (a ++ u) ≡ put_be 8 (length b) ++ (b ++ v)
    → (a ≡ b) × (u ≡ v)
framed_part a b u v ha hb e =
    let eight = length-put_be 8 (length a) ∙ sym (length-put_be 8 (length b)) in
    let (numbers, rest) =
      split_lem (put_be 8 (length a)) (put_be 8 (length b)) (a ++ u) (b ++ v) eight e in
    let size : length a ≡ length b =
      sym (be_value-put_be 8 (length a) ha)
      ∙ ap be_value numbers
      ∙ be_value-put_be 8 (length b) hb in
    split_lem a b u v size rest

epoch_frame-injective :
    (c1 c2 t1 t2 : List ℕ)
    → length c1 < 2 ^ 64
    → length c2 < 2 ^ 64
    → length t1 < 2 ^ 64
    → length t2 < 2 ^ 64
    → epoch_frame c1 t1 ≡ epoch_frame c2 t2
    → (c1 ≡ c2) × (t1 ≡ t2)
unfolding epoch_frame
epoch_frame-injective c1 c2 t1 t2 hc1 hc2 ht1 ht2 e =
    let (charters, rest) = framed_part c1 c2 _ _ hc1 hc2 e in
    let padded : put_be 8 (length t1) ++ (t1 ++ []) ≡ put_be 8 (length t2) ++ (t2 ++ []) =
      ap (λ t. put_be 8 (length t1) ++ t) (append-nil t1)
      ∙ rest
      ∙ ap (λ t. put_be 8 (length t2) ++ t) (sym (append-nil t2)) in
    (charters, (framed_part t1 t2 [] [] ht1 ht2 padded).0)

signed_bytes-frame :
    (pe : PlanetEpoch) (frame : List ℕ)
    → signed_bytes (some pe) ≡ passes frame
    → epoch_frame pe.charter pe.terms ≡ frame
unfolding signed_bytes
signed_bytes-frame pe frame h =
    passes-injective (epoch_frame pe.charter pe.terms) frame
      (guard-passes (is_empty pe.charter || is_empty pe.terms) bad_request
        (passes (epoch_frame pe.charter pe.terms)) frame h).1

-- Two epochs with the same bytes to sign have the same charter and the same terms, for blobs shorter
-- than 2 ^ 64 bytes.
pub signed_bytes-injective :
    (a b : PlanetEpoch) (frame : List ℕ)
    → length a.charter < 2 ^ 64
    → length b.charter < 2 ^ 64
    → length a.terms < 2 ^ 64
    → length b.terms < 2 ^ 64
    → signed_bytes (some a) ≡ passes frame
    → signed_bytes (some b) ≡ passes frame
    → (a.charter ≡ b.charter) × (a.terms ≡ b.terms)
signed_bytes-injective a b frame hc1 hc2 ht1 ht2 ha hb =
    epoch_frame-injective a.charter b.charter a.terms b.terms hc1 hc2 ht1 ht2
      (signed_bytes-frame a frame ha ∙ sym (signed_bytes-frame b frame hb))
