-- ===== src/Device/Wifi.antt =====
-- FutronixESP8266/WifiConnection.h. The radio is not in the repository: what WiFi.status() gives at
-- each poll is a list, of whether it is WL_CONNECTED.
use futronix_alexa.Base.{
  ℕ, zero, suc, ◌+◌, ◌≡◌, ◌≤◌, ◌<◌, Bool, true, false, ◌||◌, Option, some, none, List, [], ◌∷◌,
  length, take, ltb, if◌then◌else◌, ◌>>=◌, Pointer, arith,
}

-- class WifiConnection
pub record WifiConnection : Type 0 where
  pub ssid : Pointer
  pub passwd : Pointer
  pub enabled : Bool
  pub is_connected : Bool

-- WifiConnection::WifiConnection
abbrev pub new_wifi : Pointer → Pointer → WifiConnection
new_wifi ssid passwd = record {
  ssid = ssid;
  passwd = passwd;
  enabled = false;
  is_connected = false;
}

-- WifiConnection::begin
abbrev pub begin_wifi : WifiConnection → WifiConnection
begin_wifi w = record w { enabled = true }

-- The loop of `connect`, with `i`; `none` when the polls run out before the loop has ended.
unfoldable pub connect_loop : List Bool → ℕ → Option Bool
connect_loop [] i = none
connect_loop (connected ∷ polls) i =
    let rest = connect_loop polls (i + 1) in
    if connected then some true else (if ltb 10 i then some false else rest)

-- WifiConnection::connect
unfoldable pub connect : List Bool → WifiConnection → Option (WifiConnection × Bool)
connect polls w = connect_loop polls 0 >>= λ state. some (record w { is_connected = state }, state)

-- Whether one of the polls finds a connection.
unfoldable pub any : List Bool → Bool
any [] = false
any (b ∷ bs) = b || any bs

connect_loop_lem :
    (k i : ℕ) (polls : List Bool)
    → i + k ≡ 11
    → k < length polls
    → connect_loop polls i ≡ some (any (take (suc k) polls))
unfolding connect_loop any
connect_loop_lem k i [] e h = absurd (omega arith)
connect_loop_lem zero i (b ∷ polls) e h = ground arith
connect_loop_lem (suc k) i (b ∷ polls) e h =
    ground (arith, connect_loop_lem k (i + 1) polls (omega arith) (omega arith))

-- With at least twelve polls at hand, `connect` ends after at most twelve of them, and succeeds
-- exactly when one of the first twelve finds a connection.
pub connect_lem :
    (polls : List Bool) (w : WifiConnection)
    → 12 ≤ length polls
    → connect polls w ≡ some (record w { is_connected = any (take 12 polls) }, any (take 12 polls))
unfolding connect
connect_lem polls w h = rw (connect_loop_lem 11 0 polls (omega arith) (omega arith))
