-- ===== src/Adb/Client.antt =====
-- `Client` of adb/adb.go: the serial, `Connect`, `IsConnected` and `Reconnect`.
pub mod Laws
use play_apk_distributor.Prelude.{
  ℕ, zero, suc, ◌+◌, ◌*◌, Bool, true, false, ◌&&◌, ◌||◌, List, [], ◌∷◌, ◌++◌, Option, none, some,
  ltb, if◌then◌else◌,
}
use play_apk_distributor.Prelude.Int.{ℤ}
use play_apk_distributor.Text.{Text, codes, has_prefix, contains, split}
use play_apk_distributor.Decimal.{itoa}

-- the serial that `New` and `syncClients` make from host and port
unfoldable pub serial_of : Text → ℤ → Text
serial_of host port = host ++ b':' ∷ itoa port

-- Connect: `none` is a command that failed; the result says whether there was no error
pub connect : Option Text → Bool
connect none = false
connect (some out) =
    if contains out (codes "failed") || contains out (codes "error") then false else true

-- a line of `adb devices` as `IsConnected` reads it
unfoldable pub lists_device : Text → Text → Bool
lists_device serial line = has_prefix line serial && contains line (codes "device")

pub any_line : Text → List Text → Bool
unfolding lists_device
any_line serial [] = false
any_line serial (line ∷ lines) = lists_device serial line || any_line serial lines

-- IsConnected
unfoldable pub is_connected : Text → Option Text → Bool
unfolding any_line
is_connected serial none = false
is_connected serial (some out) = any_line serial (split 10 out)

-- Reconnect: whether an attempt succeeded, and the sleeps in seconds. `tries i` is the outcome of the
-- attempt i, from 0 on.
pub attempt : ℕ → ℕ → ℕ → (ℕ → Bool) → Bool × List ℕ
attempt zero i backoff tries = (false, [])
attempt (suc left) i backoff tries =
    let again = attempt left (suc i) (if ltb backoff 30 then backoff * 2 else backoff) tries in
    elim (tries i) [ true ↦ (true, []) | false ↦ (again.0, backoff ∷ again.1) ]

pub reconnect : (ℕ → Bool) → Bool × List ℕ
unfolding attempt
reconnect tries = attempt 5 0 1 tries
