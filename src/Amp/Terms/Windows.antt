-- ===== src/Amp/Terms/Windows.antt =====
-- The windows in which a transaction is accepted around an epoch or a revocation.
use amp_sdk.Base.{◌+◌, ◌≤◌, ◌≡◌, ◌↔◌, arith, true, ◌&&◌, Option}
use amp_sdk.Base.Int.{ℤ}
use amp_sdk.Tag.Uid.{Uid}
use amp_sdk.Tag.Uid.Time.{unix}
use amp_sdk.Amp.Terms.{grace_period, tx_within_grace_period, within_revocation_cliff}

-- A transaction is in the grace period of an epoch exactly if the epoch is at most the grace period newer,
-- and before the revocation cliff of a cut exactly if it is itself at most that much newer than the cut.
pub tx_within_grace_period_iff :
    (terms : Option ℤ) (tx epoch cut : Uid)
    → ((tx_within_grace_period terms tx epoch ≡ true) ↔ (unix epoch ≤ unix tx + grace_period terms))
      × ((within_revocation_cliff terms tx cut ≡ true) ↔ (unix tx ≤ unix cut + grace_period terms))
unfolding tx_within_grace_period within_revocation_cliff
tx_within_grace_period_iff terms tx epoch cut = (ground arith, ground arith)

-- A transaction that a revocation lets through is let through with every earlier time, and one that an
-- epoch lets through with every later time.
pub within_revocation_cliff_mono :
    (terms : Option ℤ) (early late mark : Uid)
    → unix early ≤ unix late
    → within_revocation_cliff terms late mark && tx_within_grace_period terms early mark ≡ true
    → (within_revocation_cliff terms early mark ≡ true)
      × (tx_within_grace_period terms late mark ≡ true)
unfolding tx_within_grace_period within_revocation_cliff
within_revocation_cliff_mono terms early late mark order h = (ground (arith, h), ground (arith, h))
