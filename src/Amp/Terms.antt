-- ===== src/Amp/Terms.antt =====
-- amp/amp.support.attrs.go: the times that an epoch's terms and a vault's configuration set. A nil pointer
-- is `none`, an int64 is an integer, a time.Duration its nanoseconds, and the clock is an argument, in
-- seconds from 1970 on.
pub mod Windows
pub mod Durations
mod Tests
use amp_sdk.Base.{
  ℕ, suc, ◌+◌, ◌-◌, ◌*◌, ◌/◌, ◌^◌, Bool, true, false, Option, none, some, ltb, leb, if◌then◌else◌,
}
use amp_sdk.Base.Int.{ℤ, pos, negsuc, sub_ℕ}
use amp_sdk.Tag.Uid.{Uid, u64}
use amp_sdk.Tag.Uid.Time.{unix}

-- DefaultMaxGracePeriod
abbrev pub default_max_grace_period : ℕ
default_max_grace_period = 90 * 24 * 60 * 60

-- DefaultQuarantineRetention
abbrev pub default_quarantine_retention : ℕ
default_quarantine_retention = 7 * 24 * 60 * 60

-- DefaultMaxFutureSkew
abbrev pub default_max_future_skew : ℕ
default_max_future_skew = 5 * 60

-- DefaultRateLimitWindow
abbrev pub default_rate_limit_window : ℕ
default_rate_limit_window = 24 * 60 * 60

-- DefaultBootstrapTTL
abbrev pub default_bootstrap_ttl : ℕ
default_bootstrap_ttl = 7 * 24 * 60 * 60

-- DefaultBlobRateLimitWindow
abbrev pub default_blob_rate_limit_window : ℕ
default_blob_rate_limit_window = 24 * 60 * 60

-- time.Second
abbrev pub second : ℕ
second = 1000000000

-- A value that is not positive gives way to the default.
abbrev pub positive_or : ℤ → ℕ → ℕ
positive_or (pos n) d = if ltb 0 n then n else d
positive_or (negsuc n) d = d

-- The int64 with these 64 bits.
abbrev pub signed : ℕ → ℤ
signed bits = if ltb bits (2 ^ 63) then pos bits else negsuc (2 ^ 64 - 1 - bits)

-- `time.Duration(secs) * time.Second`
unfoldable pub seconds : ℕ → ℤ
seconds n = signed (u64 (n * second))

-- The fields of a VaultConfig that are read as durations.
pub record VaultConfig : Type 0 where
  pub quarantine_retention_secs : ℤ
  pub max_future_skew_secs : ℤ
  pub rate_limit_window_secs : ℤ
  pub bootstrap_ttl_secs : ℤ
  pub blob_rate_limit_window_secs : ℤ

abbrev pub field_or_zero : Option VaultConfig → (VaultConfig → ℤ) → ℤ
field_or_zero none field = pos 0
field_or_zero (some config) field = field config

unfoldable pub quarantine_retention : Option VaultConfig → ℤ
quarantine_retention config = seconds (
    positive_or (field_or_zero config (λ c. c.quarantine_retention_secs))
      default_quarantine_retention)

unfoldable pub max_future_skew : Option VaultConfig → ℤ
max_future_skew config =
    seconds
      (positive_or (field_or_zero config (λ c. c.max_future_skew_secs)) default_max_future_skew)

unfoldable pub rate_limit_window : Option VaultConfig → ℤ
rate_limit_window config =
    seconds
      (positive_or (field_or_zero config (λ c. c.rate_limit_window_secs)) default_rate_limit_window)

unfoldable pub bootstrap_ttl : Option VaultConfig → ℤ
bootstrap_ttl config =
    seconds (positive_or (field_or_zero config (λ c. c.bootstrap_ttl_secs)) default_bootstrap_ttl)

-- The window of blobs falls back to that of transactions.
unfoldable pub blob_rate_limit_window : Option VaultConfig → ℤ
blob_rate_limit_window config = seconds (
    positive_or
      (field_or_zero config (λ c.
        pos (positive_or c.blob_rate_limit_window_secs (positive_or c.rate_limit_window_secs 0))))
      default_blob_rate_limit_window)

-- `EpochTerms` by its MaxGracePeriod, in seconds.
unfoldable pub grace_period : Option ℤ → ℕ
grace_period none = default_max_grace_period
grace_period (some max_grace_period) = positive_or max_grace_period default_max_grace_period

unfoldable pub tx_within_grace_period : Option ℤ → Uid → Uid → Bool
tx_within_grace_period terms tx_time new_epoch_time =
    if leb (unix new_epoch_time) (unix tx_time)
    then true
    else leb (unix new_epoch_time - unix tx_time) (grace_period terms)

unfoldable pub within_revocation_cliff : Option ℤ → Uid → Uid → Bool
within_revocation_cliff terms tx_time cut_time =
    if leb (unix tx_time) (unix cut_time)
    then true
    else leb (unix tx_time - unix cut_time) (grace_period terms)

-- `int64(maxSkew / time.Second)`, or the default where that is not positive. The division truncates, so a
-- negative duration gives no positive number of seconds.
abbrev pub skew_seconds : ℤ → ℕ
skew_seconds (pos n) = positive_or (pos (n / second)) default_max_future_skew
skew_seconds (negsuc n) = default_max_future_skew

abbrev pub is_at_most : ℤ → ℕ → Bool
is_at_most (pos n) m = leb n m
is_at_most (negsuc n) m = true

unfoldable pub within_future_skew : ℕ → Uid → ℤ → Bool
within_future_skew now tx_id max_skew = is_at_most (sub_ℕ (unix tx_id) now) (skew_seconds max_skew)

-- `PlanetInvite` by its ExpiresAt: 0 and less is no expiry.
unfoldable pub is_expired : Option ℤ → ℕ → Bool
is_expired none now = true
is_expired (some (pos expires_at)) now = if leb expires_at 0 then false else ltb expires_at now
is_expired (some (negsuc n)) now = false
