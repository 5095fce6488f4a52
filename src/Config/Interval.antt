-- ===== src/Config/Interval.antt =====
-- The poll interval in nanoseconds: `time.Duration(r.PollInterval) * time.Second` is an int64 product.
use play_apk_distributor.Prelude.{ℕ, ◌≤◌, ◌*◌, ◌≡◌, refl, true, none, arith}
use play_apk_distributor.Prelude.Int.{pos, ltb_ℤ, leb_ℤ, mul64}
use play_apk_distributor.Config.{Config, parsed, snapshot, reload, second}
use play_apk_distributor.Config.Validate.{Raw, validate}
use play_apk_distributor.Config.Validate.Laws.{IsValidConfig, validate_iff}

-- Up to 9223372036 seconds, some 292 years, the interval is exact and positive.
pub interval_exact :
    (r : Raw) (n : ℕ)
    → r.poll_interval ≡ pos n
    → 1 ≤ n
    → n ≤ 9223372036
    → ((snapshot r).poll_interval ≡ pos (n * 1000000000))
      × (ltb_ℤ (pos 0) (snapshot r).poll_interval ≡ true)
unfolding snapshot
interval_exact r n e low high = rw e (ground arith, ground arith)

interval_wrapped :
    (n : ℕ) → 9223372037 ≤ n → n ≤ 18446744073 → leb_ℤ (mul64 (pos n) second) (pos 0) ≡ true
interval_wrapped n low high = ground arith

reload_valid :
    (r : Raw) (c : Config)
    → validate r ≡ none
    → reload (parsed r) c ≡ (none, record c { snap = snapshot r })
unfolding reload
reload_valid r c h = ground arith

-- For a valid configuration with a poll interval from 9223372037 to 18446744073 seconds the
-- reload succeeds and the interval in use is not positive, on which `time.NewTicker` panics.
pub interval_wraps :
    (r : Raw) (c : Config) (n : ℕ)
    → IsValidConfig r
    → r.poll_interval ≡ pos n
    → 9223372037 ≤ n
    → n ≤ 18446744073
    → ((reload (parsed r) c).0 ≡ none)
      × (leb_ℤ (reload (parsed r) c).1.snap.poll_interval (pos 0) ≡ true)
unfolding snapshot
interval_wraps r c n v e low high =
    rw (reload_valid r c ((validate_iff r).1 v), e) (refl, interval_wrapped n low high)
