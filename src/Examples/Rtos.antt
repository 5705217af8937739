-- ===== src/Examples/Rtos.antt =====
-- The theorems on the firmware for FreeRTOS.
use futronix_alexa.Base.{
  Bool, ◌+◌, ◌*◌, ◌%◌, ◌^◌, ◌≡◌, refl, ◌≤◌, ◌<◌, ◌↔◌, true, false, some, none, List, [], ◌∷◌, ◌++◌,
  All, pos, negsuc, codes, arith,
}
use mathlib.Core.List.{reverse}
use futronix_alexa.Ir.Frame.{command_bits}
use futronix_alexa.Rtos.Send.{Carrier, send_data, enable_ir_out, min_arg}
use futronix_alexa.Rtos.Send.Bits.{send_bits, digits, send_data_lem}
use futronix_alexa.Rtos.Send.Period.{nearest_period, hertz, enable_ir_out_lem}
use futronix_alexa.Rtos.Lg.{lg_timing, send_lg}
use futronix_alexa.Rtos.Lg.Code.{receive_lg, receive_lg-send_lg}
use futronix_alexa.Rtos.Futronix.{Ending, send_futronix_rtos}
use futronix_alexa.Rtos.Futronix.Overrun.{render, front, send_futronix_overrun}
use futronix_alexa.Rtos.Identity.{Identity, new_identity, get_my_id, client_name}
use futronix_alexa.Rtos.Identity.Text.{hex_text, get_my_id_lem}
use futronix_alexa.Rtos.WifiTask.{
  Status, idle, got_ip, wrong_password, is_got_ip, start_wifi, run_wifi,
}
use futronix_alexa.Rtos.WifiTask.Alive.{run_wifi_lem}
use futronix_alexa.Rtos.Ssl.{SslCodes, Answers, ssl_connect}
use futronix_alexa.Rtos.Ssl.Connect.{IsDistinct, IsPrepared, IsRetried, Shakes, ssl_connect_lem}
use futronix_alexa.Rtos.MqttTask.{Session, down, up, reading, mqtt_run, talk}
use futronix_alexa.Rtos.MqttTask.Protocol.{Link, talking, closed, follow, mqtt_run_lem}
use futronix_alexa.Rtos.Ssl.Contexts.{call_all, all_or_none}
use futronix_alexa.Rtos.MqttTask.Contexts.{all_calls, mqtt_contexts_lem}
use futronix_alexa.Rtos.Tasks.{Tick, turns_of, yields, talk_ends}

abbrev carrier : Carrier
carrier = record { on_time_period = 0; off_time_period = 0; period_offset = pos 0 }

send_data_lem_example :
    (send_data lg_timing 0x88c0051 28 true ≡ send_bits lg_timing (digits 28 0x88c0051))
    × (send_data lg_timing 0x88c0051 28 false ≡ send_bits lg_timing (reverse (digits 28 0x88c0051)))
send_data_lem_example = send_data_lem lg_timing 0x88c0051 28 (omega arith)

receive_lg-send_lg_example :
    receive_lg (send_lg 0x88c0051 28 1 carrier).1 ≡ some (28, 0x88c0051 % 2 ^ 28, 1)
receive_lg-send_lg_example = receive_lg-send_lg 0x88c0051 28 1 carrier (omega arith)

enable_ir_out_lem_example :
    let c = enable_ir_out 38 50 carrier in
    let period = nearest_period (hertz 38) in
    let share = min_arg 50 100 in
    (c.on_time_period + c.off_time_period ≡ period)
    × (1 ≤ period)
    × (period ≤ 1000)
    × (100 * c.on_time_period ≤ period * share)
    × (period * share < 100 * c.on_time_period + 100)
    × (c.period_offset ≡ pos 0)
enable_ir_out_lem_example = enable_ir_out_lem 38 50 0 0 (omega arith) (omega arith) (omega arith)

send_futronix_overrun_example :
    (send_futronix_rtos 7 0x15 carrier).1 ≡ (render (front (command_bits 0x15)), Ending.overrun)
send_futronix_overrun_example = send_futronix_overrun 0x15 7 carrier (omega arith)

get_my_id_lem_example :
    let text = hex_text (0x5c ∷ 0xcf ∷ 0x7f ∷ 0 ∷ 0xa ∷ 0xff ∷ []) in
    let s : Identity = record { my_id = text ++ 0 ∷ []; my_id_done = true } in
    (get_my_id (some (0x5c ∷ 0xcf ∷ 0x7f ∷ 0 ∷ 0xa ∷ 0xff ∷ [])) new_identity
      ≡ some (s, some (text ++ 0 ∷ [])))
    × (get_my_id none s ≡ some (s, some (text ++ 0 ∷ [])))
    × (client_name none s ≡ some (s, codes "ESP-" ++ text))
get_my_id_lem_example = get_my_id_lem 0x5c 0xcf 0x7f 0 0xa 0xff (omega arith) none

-- A wrong password, and a connection later.
abbrev polls : List Status
polls = idle ∷ wrong_password ∷ got_ip ∷ []

run_wifi_lem_example :
    let run = λ (more : List Status). run_wifi (polls ++ more) start_wifi in
    ((run []).wifi_alive ≡ true → (run []).status ≡ got_ip)
    × (is_got_ip idle ≡ false → (run (idle ∷ [])).wifi_alive ≡ false)
    × ((run (got_ip ∷ got_ip ∷ [])).wifi_alive ≡ true)
    × ((run []).retries ≤ 30)
run_wifi_lem_example = run_wifi_lem polls idle

-- The codes of the library in its version 2.
abbrev ssl_codes : SslCodes
ssl_codes = record {
  want_read = negsuc 0x68ff;
  want_write = negsuc 0x687f;
  read_timeout = negsuc 0x67ff;
  cert_verify_failed = negsuc 0x26ff;
}

ssl_codes-IsDistinct : IsDistinct ssl_codes
ssl_codes-IsDistinct = record {
  ne_zero = λ e. cc e;
  ne_want_read = λ e. ground arith;
  ne_want_write = λ e. ground arith;
}

-- A server that is not ready at first.
abbrev answers : Answers
answers = record {
  drbg_seed = pos 0;
  ca_cert = pos 0;
  client_cert = pos 0;
  client_key = pos 0;
  net_connect = pos 0;
  config_defaults = pos 0;
  own_cert = pos 0;
  ssl_setup = pos 0;
  set_hostname = pos 0;
  handshakes = negsuc 0x68ff ∷ pos 0 ∷ [];
  verify_result = pos 0;
}

ssl_connect_lem_example :
    ((ssl_connect ssl_codes answers ≡ some (pos 0))
      ↔ (IsPrepared answers × Shakes ssl_codes (negsuc 0x68ff ∷ pos 0 ∷ []) × (pos 0 ≡ pos 0)))
    × ((ssl_connect ssl_codes answers ≡ none)
        ↔ (IsPrepared answers × All (IsRetried ssl_codes) (negsuc 0x68ff ∷ pos 0 ∷ [])))
ssl_connect_lem_example = ssl_connect_lem ssl_codes answers ssl_codes-IsDistinct

-- A session whose transport breaks in its first turn.
abbrev broken : Session
broken = record {
  answers = answers;
  connect_transfers = [];
  connect_result = pos 0;
  subscribe_transfers = [];
  turns =
      record {
        wifi_alive = true;
        items = [];
        transfers = reading (pos 0) ∷ [];
        disconnected = false;
      }
      ∷ record { wifi_alive = true; items = []; transfers = []; disconnected = false }
      ∷ [];
}

mqtt_run_lem_example :
    let s = mqtt_run ssl_codes (down ∷ up broken ∷ []) false in
    (k : Link) × (follow closed s.actions ≡ some k) × (s.finished ≡ true → k ≡ closed)
mqtt_run_lem_example = mqtt_run_lem ssl_codes (down ∷ up broken ∷ []) false

mqtt_contexts_lem_example :
    let s = mqtt_run ssl_codes (down ∷ up broken ∷ up broken ∷ []) false in
    (b : Bool) × (call_all (all_calls s.actions) (all_or_none false) ≡ some (all_or_none b))
    × (s.finished ≡ true → b ≡ false)
mqtt_contexts_lem_example = mqtt_contexts_lem ssl_codes (down ∷ up broken ∷ up broken ∷ []) false

-- A turn with the Wifi, one whose polls have lost it, and one that is never reached.
abbrev kept : Tick
kept = record { polls = got_ip ∷ []; items = []; transfers = []; disconnected = false }

abbrev lost : Tick
lost = record { polls = got_ip ∷ idle ∷ []; items = []; transfers = []; disconnected = false }

abbrev left : Session
left = record broken {
  turns = turns_of (run_wifi (idle ∷ got_ip ∷ []) start_wifi) (kept ∷ lost ∷ kept ∷ []);
}

talk_ends_example :
    let r = talk ssl_codes left false in
    (r.finished ≡ true) × (yields r.actions ≤ 1) × (follow talking r.actions ≡ some closed)
talk_ends_example =
    talk_ends ssl_codes left (idle ∷ got_ip ∷ []) (kept ∷ []) (kept ∷ []) lost (got_ip ∷ []) idle
      false refl refl refl
