-- ===== src/Adb/Client/Laws.antt =====
-- When `Reconnect` succeeds and how long it sleeps, and which lines `IsConnected` takes for the device.
use play_apk_distributor.Prelude.{
  ℕ, zero, suc, ◌+◌, ◌*◌, ◌<◌, ◌≡◌, refl, ap, ◌∙◌, Bool, true, false, List, [], ◌∷◌, ◌++◌, some,
  arith, length, ltb, if◌then◌else◌,
}
use play_apk_distributor.Text.{Text, has_prefix, cut_prefix, split}
use play_apk_distributor.Adb.Client.{lists_device, any_line, is_connected, attempt, reconnect}

attempt_success :
    (left i backoff : ℕ) (tries : ℕ → Bool) (k : ℕ)
    → k < left
    → ((j : ℕ) → j < k → tries (i + j) ≡ false)
    → tries (i + k) ≡ true
    → ((attempt left i backoff tries).0 ≡ true) × (length (attempt left i backoff tries).1 ≡ k)
unfolding attempt
attempt_success zero i b tries k lt before here = absurd (omega arith)
attempt_success (suc left) i b tries zero lt before here =
    let now : tries i ≡ true = ap tries (omega arith) ∙ here in ground arith
attempt_success (suc left) i b tries (suc k) lt before here =
    let first : tries i ≡ false = ap tries (omega arith) ∙ before 0 (omega arith) in
    let ih =
      attempt_success left (suc i) (if ltb b 30 then b * 2 else b) tries k (omega arith)
        (λ j h. ap tries (omega arith) ∙ before (suc j) (omega arith))
        (ap tries (omega arith) ∙ here) in
    ground (arith, ih)

attempt_failure :
    (left i backoff : ℕ) (tries : ℕ → Bool)
    → ((j : ℕ) → j < left → tries (i + j) ≡ false)
    → ((attempt left i backoff tries).0 ≡ false) × (length (attempt left i backoff tries).1 ≡ left)
unfolding attempt
attempt_failure zero i b tries h = (refl, refl)
attempt_failure (suc left) i b tries h =
    let first : tries i ≡ false = ap tries (omega arith) ∙ h 0 (omega arith) in
    let ih =
      attempt_failure left (suc i) (if ltb b 30 then b * 2 else b) tries
        (λ j k. ap tries (omega arith) ∙ h (suc j) (omega arith)) in
    ground (arith, ih)

-- If one of the five attempts of `Reconnect` connects and those before it do not, it succeeds
-- after as many sleeps as there were attempts before.
pub reconnect_success :
    (tries : ℕ → Bool) (k : ℕ)
    → k < 5
    → ((j : ℕ) → j < k → tries j ≡ false)
    → tries k ≡ true
    → ((reconnect tries).0 ≡ true) × (length (reconnect tries).1 ≡ k)
unfolding reconnect
reconnect_success tries k lt before here =
    attempt_success 5 0 1 tries k lt (λ j h. ap tries (omega arith) ∙ before j h)
      (ap tries (omega arith) ∙ here)

-- It fails when all five do, and then it has slept 1, 2, 4, 8 and 16 seconds.
pub reconnect_failure :
    (tries : ℕ → Bool)
    → ((j : ℕ) → j < 5 → tries j ≡ false)
    → reconnect tries ≡ (false, 1 ∷ 2 ∷ 4 ∷ 8 ∷ 16 ∷ [])
unfolding reconnect
reconnect_failure tries h = ground (
  arith,
  h 0 (omega arith),
  h 1 (omega arith),
  h 2 (omega arith),
  h 3 (omega arith),
  h 4 (omega arith),
)

-- a line that begins with the serial and names its state as a device is enough, wherever it stands
any_line_there :
    (serial line : Text) (before behind : List Text)
    → lists_device serial line ≡ true
    → any_line serial (before ++ line ∷ behind) ≡ true
unfolding any_line
any_line_there serial line [] behind h = ground arith
any_line_there serial line (b ∷ before) behind h =
    ground (arith, any_line_there serial line before behind h)

prefix-append : (p q line : Text) → has_prefix line (p ++ q) ≡ true → has_prefix line p ≡ true
unfolding has_prefix cut_prefix
prefix-append [] q line h = refl
prefix-append (c ∷ p) q [] h = cc
prefix-append (c ∷ p) q (d ∷ line) h = ground (arith, prefix-append p q line)

shorter_serial :
    (serial more line : Text)
    → lists_device (serial ++ more) line ≡ true
    → lists_device serial line ≡ true
unfolding lists_device
shorter_serial serial more line h = ground (arith, prefix-append serial more line)

-- If `adb devices` lists as a device a serial that begins with the one asked for and is longer,
-- as that of port 5554 begins with that of port 555, then `IsConnected` holds.
pub is_connected_longer :
    (serial more line out : Text) (before behind : List Text)
    → split 10 out ≡ before ++ line ∷ behind
    → lists_device (serial ++ more) line ≡ true
    → is_connected serial (some out) ≡ true
unfolding is_connected
is_connected_longer serial more line out before behind e h =
    rw e (any_line_there serial line before behind (shorter_serial serial more line h))
