-- ===== src/Amp/Terms/Tests.antt =====
-- The theorems on terms and configurations at one configuration, and a skew below a second.
use amp_sdk.Base.{ℕ, ◌*◌, ◌≡◌, refl, true}
use amp_sdk.Base.Int.{pos, negsuc}
use amp_sdk.Tag.Uid.{Uid}
use amp_sdk.Tag.Uid.Time.{unix}
use amp_sdk.Amp.Terms.{VaultConfig, within_future_skew}

abbrev at : ℕ → Uid
at n = record { w0 = n * 65536; w1 = 0 }

abbrev config : VaultConfig
config = record {
  quarantine_retention_secs = pos 0;
  max_future_skew_secs = pos 60;
  rate_limit_window_secs = pos 3600;
  bootstrap_ttl_secs = negsuc 0;
  blob_rate_limit_window_secs = pos 0;
}

-- Half a second of skew is taken for the default of five minutes.
half_second : within_future_skew 1000 (at 1300) (pos 500000000) ≡ true
unfolding within_future_skew unix
half_second = refl
