-- ===== src/Amp/Terms/Durations.antt =====
-- The durations of a configuration, and the guard against transactions from the future.
use amp_sdk.Base.{ℕ, ◌+◌, ◌*◌, ◌/◌, ◌≤◌, ◌<◌, ◌≡◌, ◌↔◌, ap, ◌∙◌, arith, true, some}
use amp_sdk.Base.Int.{ℤ, pos, negsuc, sub_ℕ}
use amp_sdk.Tag.Uid.{Uid}
use amp_sdk.Tag.Uid.Time.{unix}
use amp_sdk.Amp.Terms.{
  second, positive_or, seconds, VaultConfig, quarantine_retention, max_future_skew,
  rate_limit_window, bootstrap_ttl, blob_rate_limit_window, default_quarantine_retention,
  default_max_future_skew, default_rate_limit_window, default_bootstrap_ttl,
  default_blob_rate_limit_window, within_future_skew, skew_seconds, is_at_most,
}

-- The seconds whose nanoseconds fit an int64.
abbrev pub max_seconds : ℕ
max_seconds = 9223372036

seconds_exact : (n : ℕ) → n ≤ max_seconds → seconds n ≡ pos (n * second)
unfolding seconds
seconds_exact n h = ground arith

-- A setting that is at most the longest duration.
abbrev pub IsShort : ℤ → Type 0
IsShort secs = positive_or secs 0 ≤ max_seconds

seconds_or_exact :
    (secs : ℤ) (d : ℕ)
    → IsShort secs
    → d ≤ max_seconds
    → seconds (positive_or secs d) ≡ pos (positive_or secs d * second)
seconds_or_exact (pos n) d h hd = seconds_exact _ (ground arith)
seconds_or_exact (negsuc n) d h hd = seconds_exact d hd

positive_or_chain :
    (b r : ℤ) (d : ℕ)
    → positive_or (pos (positive_or b (positive_or r 0))) d ≡ positive_or b (positive_or r d)
positive_or_chain (pos b) (pos r) d = ground arith
positive_or_chain (pos b) (negsuc r) d = ground arith
positive_or_chain (negsuc b) (pos r) d = ground arith
positive_or_chain (negsuc b) (negsuc r) d = ground arith

positive_or_short :
    (secs : ℤ) (d : ℕ) → IsShort secs → d ≤ max_seconds → positive_or secs d ≤ max_seconds
positive_or_short (pos n) d h hd = ground arith
positive_or_short (negsuc n) d h hd = hd

positive_or_chain_short :
    (b r : ℤ) (d : ℕ)
    → IsShort b
    → IsShort r
    → d ≤ max_seconds
    → positive_or b (positive_or r d) ≤ max_seconds
positive_or_chain_short b r d hb hr hd =
    positive_or_short b (positive_or r d) hb (positive_or_short r d hr hd)

-- The settings of a configuration are at most the longest duration.
abbrev pub IsConfig : VaultConfig → Type 0
IsConfig c =
    IsShort c.quarantine_retention_secs
    × IsShort c.max_future_skew_secs
    × IsShort c.rate_limit_window_secs
    × IsShort c.bootstrap_ttl_secs
    × IsShort c.blob_rate_limit_window_secs

-- Of a configuration with settings of at most 9223372036 seconds, the durations are the settings in
-- nanoseconds, a setting that is not positive giving way to its default, and that of the blob window to
-- the other window first.
pub durations_exact :
    (c : VaultConfig)
    → IsConfig c
    → (quarantine_retention (some c)
        ≡ pos (positive_or c.quarantine_retention_secs default_quarantine_retention * second))
      × (max_future_skew (some c)
          ≡ pos (positive_or c.max_future_skew_secs default_max_future_skew * second))
      × (rate_limit_window (some c)
          ≡ pos (positive_or c.rate_limit_window_secs default_rate_limit_window * second))
      × (bootstrap_ttl (some c)
          ≡ pos (positive_or c.bootstrap_ttl_secs default_bootstrap_ttl * second))
      × (blob_rate_limit_window (some c)
          ≡ pos (
              positive_or c.blob_rate_limit_window_secs
                (positive_or c.rate_limit_window_secs default_blob_rate_limit_window)
              * second))
unfolding quarantine_retention max_future_skew rate_limit_window bootstrap_ttl
    blob_rate_limit_window
durations_exact c (hq, hs, hr, ht, hb) = (
  seconds_or_exact c.quarantine_retention_secs default_quarantine_retention hq (omega arith),
  seconds_or_exact c.max_future_skew_secs default_max_future_skew hs (omega arith),
  seconds_or_exact c.rate_limit_window_secs default_rate_limit_window hr (omega arith),
  seconds_or_exact c.bootstrap_ttl_secs default_bootstrap_ttl ht (omega arith),
  ap seconds (positive_or_chain c.blob_rate_limit_window_secs c.rate_limit_window_secs _)
      ∙ seconds_exact _ (
          positive_or_chain_short c.blob_rate_limit_window_secs c.rate_limit_window_secs
            default_blob_rate_limit_window hb hr (omega arith)),
)

positive_or-pos : (secs : ℤ) (d : ℕ) → 0 < d → 0 < positive_or secs d
positive_or-pos (pos n) d h = ground arith
positive_or-pos (negsuc n) d h = h

guard_iff :
    (u now n : ℕ)
    → 0 < n
    → (is_at_most (sub_ℕ u now) (skew_seconds (pos (n * second))) ≡ true) ↔ (u ≤ now + n)
guard_iff u now n h =
    let whole : n * second / second ≡ n = omega arith in rw whole (ground (arith, h))

-- The guard against transactions from the future, at the skew that the configuration sets, accepts a
-- transaction exactly if it is stamped at most that many seconds after now; an unset skew is five minutes.
pub within_future_skew-max_future_skew :
    (c : VaultConfig) (now : ℕ) (tx : Uid)
    → IsShort c.max_future_skew_secs
    → (within_future_skew now tx (max_future_skew (some c)) ≡ true)
      ↔ (unix tx ≤ now + positive_or c.max_future_skew_secs default_max_future_skew)
unfolding within_future_skew max_future_skew
within_future_skew-max_future_skew c now tx h =
    rw (seconds_or_exact c.max_future_skew_secs default_max_future_skew h (omega arith)) (
      guard_iff (unix tx) now _
        (positive_or-pos c.max_future_skew_secs default_max_future_skew (omega arith)))
