-- ===== src/Amp/Founders/Tests.antt =====
-- The theorem on fingerprints at a concrete input.
use amp_sdk.Base.{◌≡◌, refl, [], ◌∷◌, some}
use amp_sdk.Amp.Epoch.Checked.{refuses}
use amp_sdk.Amp.Epoch.EpochError.{bad_request}
use amp_sdk.Amp.Founders.{FounderKey, founder_entries, founder_fingerprint}
use amp_sdk.Amp.Founders.Unordered.{founder_fingerprint-Perm}
use mathlib.Core.List.Perm

abbrev ann : FounderKey
ann = record {
  founder_id = record { w0 = 1; w1 = 2 };
  crypto_kit_id = record { w0 = 9; w1 = 9 };
  bytes = 200 ∷ 4 ∷ [];
}

abbrev ben : FounderKey
ben = record {
  founder_id = record { w0 = 3; w1 = 4 };
  crypto_kit_id = record { w0 = 9; w1 = 9 };
  bytes = 30 ∷ 4 ∷ 7 ∷ [];
}

abbrev keyless : FounderKey
keyless = record {
  founder_id = record { w0 = 5; w1 = 6 };
  crypto_kit_id = record { w0 = 9; w1 = 9 };
  bytes = [];
}

keyless_refused : founder_entries (ann ∷ keyless ∷ ben ∷ []) ≡ refuses bad_request
unfolding founder_entries
keyless_refused = refl

founder_fingerprint-Perm_example :
    founder_fingerprint (some (λ framed. framed)) (ben ∷ ann ∷ []) 2
    ≡ founder_fingerprint (some (λ framed. framed)) (ann ∷ ben ∷ []) 2
founder_fingerprint-Perm_example =
    founder_fingerprint-Perm (some (λ framed. framed)) (ben ∷ ann ∷ []) (ann ∷ ben ∷ []) 2
      (Perm.swap ann ben [])
