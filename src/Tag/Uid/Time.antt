-- ===== src/Tag/Uid/Time.antt =====
-- The time form of a UID: UID_FromTime, Unix and AsTime, and NowID with its entropy fold.
use amp_sdk.Base.{
  ℕ, zero, suc, ◌+◌, ◌-◌, ◌*◌, ◌/◌, ◌%◌, ◌^◌, ◌<◌, ◌≡◌, bit_and, bit_or, bit_xor, arith, refl, ap,
  ap₂, ◌∙◌,
}
use amp_sdk.Base.{if◌then◌else◌, ◌==◌}
use amp_sdk.Base.Bits.{bit_or_shifted, bit_and_mask, bit_xor_high}
use amp_sdk.Tag.Uid.{Uid, u64, value}

-- TickStep64
abbrev pub tick_step : ℕ
tick_step = 0x44B82FA1C

abbrev pub entropy_bits : ℕ
entropy_bits = 34 + 16

-- `seconds` is `uint64(t.Unix())` and `ns` is `t.Nanosecond()`.
unfoldable pub from_time : ℕ → ℕ → Uid
from_time seconds ns =
    let ns_f64 = u64 (ns * tick_step) in
    record { w0 = bit_or (u64 (seconds * 2 ^ 16)) (ns_f64 / 2 ^ 48); w1 = u64 (ns_f64 * 2 ^ 16) }

unfoldable pub unix : Uid → ℕ
unix id = id.w0 / 2 ^ 16

-- The seconds and the nanoseconds that are given to `time.Unix`.
unfoldable pub as_time : Uid → ℕ × ℕ
unfolding unix
as_time id =
    let ns_f64 = bit_or (u64 (bit_and id.w0 0xFFFF * 2 ^ 48)) (id.w1 / 2 ^ 16) in
    (unix id, u64 (1 + ns_f64 / (1 + tick_step)))

from_time_words :
    (seconds ns : ℕ)
    → seconds < 2 ^ 48
    → ns < 1000000000
    → ((from_time seconds ns).w0 ≡ seconds * 2 ^ 16 + ns * tick_step / 2 ^ 48)
      × ((from_time seconds ns).w1 ≡ ns * tick_step * 2 ^ 16 % 2 ^ 64)
unfolding from_time
from_time_words seconds ns hs hn = (
  omega (
    arith,
    ap (λ (t : ℕ). bit_or t (u64 (ns * tick_step) / 2 ^ 48)) fits,
    bit_or_shifted 16 seconds (u64 (ns * tick_step) / 2 ^ 48) (omega arith),
  ),
  omega arith,
)
  where
    fits : u64 (seconds * 2 ^ 16) ≡ seconds * 2 ^ 16
    fits = omega arith

-- The fraction of a second is kept whole across the two words.
fraction :
    (x : ℕ) → x < 2 ^ 64 → bit_or (u64 (x / 2 ^ 48 * 2 ^ 48)) (x * 2 ^ 16 % 2 ^ 64 / 2 ^ 16) ≡ x
fraction x h =
    ap (λ (t : ℕ). bit_or t (x * 2 ^ 16 % 2 ^ 64 / 2 ^ 16)) fits
    ∙ bit_or_shifted 48 (x / 2 ^ 48) (x * 2 ^ 16 % 2 ^ 64 / 2 ^ 16) (omega arith)
    ∙ sum
  where
    fits : u64 (x / 2 ^ 48 * 2 ^ 48) ≡ x / 2 ^ 48 * 2 ^ 48
    fits = omega arith

    sum : x / 2 ^ 48 * 2 ^ 48 + x * 2 ^ 16 % 2 ^ 64 / 2 ^ 16 ≡ x
    sum = omega arith

-- Dividing by one more than the step takes one nanosecond off, but not from zero.
ticks :
    (ns : ℕ)
    → ns < 1000000000
    → u64 (1 + ns * tick_step / (1 + tick_step)) ≡ (if ns == 0 then 1 else ns)
ticks zero h = refl
ticks (suc n) h = ground arith

as_time_words :
    (id : Uid) (seconds x : ℕ)
    → x < 2 ^ 64
    → id.w0 ≡ seconds * 2 ^ 16 + x / 2 ^ 48
    → id.w1 ≡ x * 2 ^ 16 % 2 ^ 64
    → as_time id ≡ (seconds, u64 (1 + x / (1 + tick_step)))
unfolding as_time
as_time_words id seconds x hx h0 h1 =
    ap₂ {C = ℕ × ℕ} (λ s y. (s, u64 (1 + y / (1 + tick_step)))) (omega arith) whole
  where
    low : bit_and id.w0 0xFFFF ≡ x / 2 ^ 48
    low = omega (arith, bit_and_mask 16 id.w0)

    whole : bit_or (u64 (bit_and id.w0 0xFFFF * 2 ^ 48)) (id.w1 / 2 ^ 16) ≡ x
    whole = ap₂ (λ (s t : ℕ). bit_or (u64 (s * 2 ^ 48)) (t / 2 ^ 16)) low h1 ∙ fraction x hx

-- A time goes through a UID with its seconds and its nanoseconds, but a whole second comes back one
-- nanosecond late.
pub as_time-from_time :
    (seconds ns : ℕ)
    → seconds < 2 ^ 48
    → ns < 1000000000
    → as_time (from_time seconds ns) ≡ (seconds, if ns == 0 then 1 else ns)
as_time-from_time seconds ns hs hn =
    let words = from_time_words seconds ns hs hn in
    as_time_words (from_time seconds ns) seconds (ns * tick_step) (omega arith) words.0 words.1
    ∙ ap {B = ℕ × ℕ} (λ t. (seconds, t)) (ticks ns hn)

-- Later times have larger UIDs: seconds first, then nanoseconds.
pub from_time_mono :
    (s t m n : ℕ)
    → s < 2 ^ 48
    → t < 2 ^ 48
    → m < 1000000000
    → n < 1000000000
    → s * 1000000000 + m < t * 1000000000 + n
    → value (from_time s m) < value (from_time t n)
from_time_mono s t m n hs ht hm hn h =
    omega (arith, from_time_words s m hs hm, from_time_words t n ht hn)

-- rot1 and rot2
abbrev pub rot1 : ℕ
rot1 = 2 ^ 63 - 471

abbrev pub rot2 : ℕ
rot2 = 2 ^ 62 - 143

-- NowID on the time UID and the process's entropy word: one round of the loop that wins its
-- compare-and-swap. It returns the UID and the word that it stores.
unfoldable pub now_id : Uid → ℕ → Uid × ℕ
now_id uid prev =
    let entropy = bit_xor (u64 (rot1 * uid.w1)) prev in
    (
      record uid { w1 = bit_xor uid.w1 (bit_and entropy (2 ^ entropy_bits - 1)) },
      u64 (rot2 * entropy),
    )

-- NowID leaves the 78 high bits of the time as they are.
pub now_id_high : (uid : Uid) (prev : ℕ) → value (now_id uid prev).0 / 2 ^ 50 ≡ value uid / 2 ^ 50
unfolding now_id
now_id_high uid prev = omega (
  arith,
  bit_xor_high 50 uid.w1 (bit_and entropy (2 ^ 50 - 1)) (omega (arith, bit_and_mask 50 entropy)),
)
  where
    entropy : ℕ
    entropy = bit_xor (u64 (rot1 * uid.w1)) prev
