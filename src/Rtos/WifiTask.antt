-- ===== src/Rtos/WifiTask.antt =====
-- `wifi_task` of RTOS/futronix-alexa-rtos/aws_iot.c: a loop without end over the states that the radio
-- reports. A step goes from one poll of the radio to the next; the delays between them are left out.
pub mod Alive
use futronix_alexa.Base.{
  ℕ, ◌+◌, ◌%◌, Bool, true, false, not, ◌&&◌, List, [], ◌∷◌, ltb, if◌then◌else◌,
}

-- What sdk_wifi_station_get_connect_status gives.
pub data Status : Type 0 where
  idle connecting wrong_password no_ap_found connect_fail got_ip : Status

abbrev pub is_got_ip : Status → Bool
is_got_ip got_ip = true
is_got_ip idle = false
is_got_ip connecting = false
is_got_ip wrong_password = false
is_got_ip no_ap_found = false
is_got_ip connect_fail = false

-- The states on which the first loop breaks.
abbrev pub is_failure : Status → Bool
is_failure wrong_password = true
is_failure no_ap_found = true
is_failure connect_fail = true
is_failure idle = false
is_failure connecting = false
is_failure got_ip = false

-- The loop that the next poll belongs to: the first one, with retries, or the second one.
pub data Phase : Type 0 where
  seeking holding : Phase

-- The task's variables, and the global `wifi_alive`, which the other tasks read.
pub record WifiTask : Type 0 where
  pub phase : Phase
  pub status : Status
  pub retries : ℕ
  pub wifi_alive : Bool

-- The test of the first loop: (status != STATION_GOT_IP) && (retries)
unfoldable pub test_seeking : WifiTask → WifiTask
test_seeking t =
    if not (is_got_ip t.status) && ltb 0 t.retries
    then record t { phase = seeking }
    else record t { phase = holding }

-- The task up to its first poll.
unfoldable pub start_wifi : WifiTask
unfolding test_seeking
start_wifi =
    test_seeking (record { phase = seeking; status = idle; retries = 30; wifi_alive = false })

-- A poll in the first loop. `retries` is a uint8_t.
unfoldable pub seek : Status → WifiTask → WifiTask
unfolding test_seeking
seek s t =
    if is_failure s
    then record t { status = s; phase = holding }
    else test_seeking (record t { status = s; retries = (t.retries + 255) % 256 })

-- A poll in the second loop, and behind it the start of the next turn of the outer loop.
unfoldable pub hold : Status → WifiTask → WifiTask
unfolding test_seeking
hold s t =
    if is_got_ip s
    then record t { status = s; wifi_alive = true }
    else test_seeking (record t { status = s; wifi_alive = false })

unfoldable pub poll_in : Phase → Status → WifiTask → WifiTask
unfolding seek hold
poll_in seeking s t = seek s t
poll_in holding s t = hold s t

unfoldable pub poll_wifi : Status → WifiTask → WifiTask
unfolding poll_in
poll_wifi s t = poll_in t.phase s t

-- The polls of a run.
unfoldable pub run_wifi : List Status → WifiTask → WifiTask
run_wifi [] t = t
run_wifi (s ∷ ss) t = run_wifi ss (poll_wifi s t)
