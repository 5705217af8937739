-- ===== src/Examples/Radio.antt =====
-- The theorems on the infrared signal, the LED and the Wifi.
use futronix_alexa.Base.{
  ℕ, ◌+◌, ◌≡◌, ◌≢◌, ◌<◌, false, some, List, [], ◌∷◌, ◌++◌, replicate, if◌then◌else◌, arith, pos,
  leb, null,
}
use futronix_alexa.Ir.Timer.{reset, elapsed, reading, elapsed_lem}
use futronix_alexa.Ir.Pulse.{Action, mark_loop, mark_loop_total, readings}
use futronix_alexa.Ir.Frame.{off, send_futronix}
use futronix_alexa.Ir.Decode.{receive_times, receive_times-send_futronix}
use futronix_alexa.Command.{set_scene}
use futronix_alexa.Command.Scenes.{
  read_scenes, read_scenes-set_scene, receive_times-set_scene_stray,
}
use futronix_alexa.Device.Wifi.{new_wifi, connect, any, connect_lem}

pos_inj : (a b : ℕ) → pos a ≡ pos b → a ≡ b
pos_inj a b e = cc

receive_times-send_futronix_example :
    receive_times 3 (send_futronix 0x15 ++ off ∷ []) ≡ some (0x15 ∷ 0x15 ∷ 0x15 ∷ [], off ∷ [])
receive_times-send_futronix_example = receive_times-send_futronix 0x15 (off ∷ [])

read_scenes-set_scene_example :
    read_scenes (set_scene (pos 13)) ≡ some (pos 13 ∷ pos 13 ∷ pos 13 ∷ [])
read_scenes-set_scene_example = read_scenes-set_scene (pos 13) (omega arith)

not_below : (n : ℕ) → n < 20 → pos 20 ≢ pos n
not_below n h e = absurd (omega (arith, pos_inj 20 n e))

receive_times-set_scene_stray_example :
    receive_times 3 (set_scene (pos 20)) ≡ some (replicate 3 0x3f, [])
receive_times-set_scene_stray_example = receive_times-set_scene_stray (pos 20) (λ e. cc) not_below

elapsed_lem_example :
    elapsed (reset 4294967290) (reading 4294967290 10)
    ≡ (if leb (4294967290 + 10) 4294967295 then 10 else 9)
elapsed_lem_example = elapsed_lem 4294967290 10 (omega arith) (omega arith)

mark_loop_total_example :
    (xs : List Action) × (mark_loop (reset 5) 13 3 (readings 5 (0 ∷ 2 ∷ 4 ∷ 7 ∷ [])) ≡ some xs)
mark_loop_total_example =
    mark_loop_total 5 13 3 (0 ∷ 2 ∷ 4 ∷ 7 ∷ [])
      (
        omega arith,
        omega arith,
        (omega arith, omega arith, (omega arith, omega arith, (omega arith, omega arith, tt))),
      )
      (omega arith)

connect_lem_example :
    connect (replicate 12 false) (new_wifi null null)
    ≡ some (record (new_wifi null null) { is_connected = false }, false)
unfolding any
connect_lem_example = connect_lem (replicate 12 false) (new_wifi null null) (omega arith)
