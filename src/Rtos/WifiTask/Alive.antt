-- ===== src/Rtos/WifiTask/Alive.antt =====
-- What `wifi_alive` says of the radio.
use futronix_alexa.Base.{◌≡◌, ◌≤◌, ◌<◌, refl, true, false, List, [], ◌∷◌, ◌++◌, arith}
use futronix_alexa.Rtos.WifiTask.{
  Status, got_ip, is_got_ip, seeking, WifiTask, start_wifi, poll_wifi, run_wifi,
}

-- While the task seeks, `wifi_alive` is clear and there are retries left; it is set only if the last
-- poll found a connection.
pub record IsSound (t : WifiTask) : Type 0 where
  pub seeks : t.phase ≡ seeking → (t.wifi_alive ≡ false) × (0 < t.retries)
  pub bounded : t.retries ≤ 30
  pub alive : t.wifi_alive ≡ true → t.status ≡ got_ip

pub start_wifi-IsSound : IsSound start_wifi
unfolding start_wifi
start_wifi-IsSound = ground arith

pub poll_wifi-IsSound : (s : Status) (t : WifiTask) → IsSound t → IsSound (poll_wifi s t)
unfolding poll_wifi
poll_wifi-IsSound s t h = ground arith

pub run_wifi-from : (ss : List Status) (t : WifiTask) → IsSound t → IsSound (run_wifi ss t)
unfolding run_wifi
run_wifi-from [] t h = h
run_wifi-from (s ∷ ss) t h = run_wifi-from ss (poll_wifi s t) (poll_wifi-IsSound s t h)

run_wifi-append :
    (xs ys : List Status) (t : WifiTask) → run_wifi (xs ++ ys) t ≡ run_wifi ys (run_wifi xs t)
unfolding run_wifi
run_wifi-append [] ys t = refl
run_wifi-append (x ∷ xs) ys t = run_wifi-append xs ys (poll_wifi x t)

-- A poll without a connection clears `wifi_alive`; two with one set it.
down_at_once :
    (s : Status) (t : WifiTask)
    → IsSound t
    → is_got_ip s ≡ false
    → (poll_wifi s t).wifi_alive ≡ false
unfolding poll_wifi
down_at_once s t h e = ground arith

up_in_two : (t : WifiTask) → IsSound t → (poll_wifi got_ip (poll_wifi got_ip t)).wifi_alive ≡ true
unfolding poll_wifi
up_in_two t h = ground arith

pub run_wifi_down :
    (ps : List Status) (s : Status) (t : WifiTask)
    → IsSound t
    → is_got_ip s ≡ false
    → (run_wifi (ps ++ s ∷ []) t).wifi_alive ≡ false
run_wifi_down ps s t sound e =
    rw (run_wifi-append ps (s ∷ []) t)
      (unfold run_wifi in down_at_once s (run_wifi ps t) (run_wifi-from ps t sound) e)

-- After any polls of the radio, `wifi_alive` is set only if the last one found a connection, and at
-- most 30 retries are left; a further poll without a connection clears it at once, and two further
-- ones in a row with a connection set it, also when no retries are left.
pub run_wifi_lem :
    (ss : List Status) (s : Status)
    → let run = λ (more : List Status). run_wifi (ss ++ more) start_wifi in
      ((run []).wifi_alive ≡ true → (run []).status ≡ got_ip)
      × (is_got_ip s ≡ false → (run (s ∷ [])).wifi_alive ≡ false)
      × ((run (got_ip ∷ got_ip ∷ [])).wifi_alive ≡ true)
      × ((run []).retries ≤ 30)
run_wifi_lem ss s =
    let t = run_wifi ss start_wifi in
    let sound = run_wifi-from ss start_wifi start_wifi-IsSound in
    rw
      (
        run_wifi-append ss [] start_wifi,
        run_wifi-append ss (s ∷ []) start_wifi,
        run_wifi-append ss (got_ip ∷ got_ip ∷ []) start_wifi,
      )
      (unfold run_wifi in (sound.alive, down_at_once s t sound, up_in_two t sound, sound.bounded))
