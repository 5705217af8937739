-- ===== src/Rtos/MqttTask.antt =====
-- `mqtt_task` of RTOS/futronix-alexa-rtos/aws_iot.c, and the transport that it gives to the MQTT
-- library. The answers of the libraries and what the other tasks do come in as a list of rounds of the
-- outer loop; the calls go out as a list of actions.
pub mod Protocol
pub mod Contexts
use futronix_alexa.Base.{
  ℕ, ◌+◌, ◌*◌, ◌%◌, Bool, true, false, not, ◌&&◌, ◌||◌, some, none, List, [], ◌∷◌, ◌++◌, take,
  decimal, codes, ℤ, pos, eq_ℤ, if◌then◌else◌,
}
use futronix_alexa.Rtos.Ssl.{SslCodes, Answers, is_negative, is_zero, ssl_connect}

-- r <= 0
abbrev is_nonpositive : ℤ → Bool
is_nonpositive r = is_zero r || is_negative r

-- mqtt_ssl_read, on what ssl_read returns: the global `ssl_reset` after it.
unfoldable pub mqtt_ssl_read : SslCodes → ℤ → Bool → Bool
mqtt_ssl_read c r ssl_reset =
    if is_nonpositive r
      && (not (eq_ℤ r c.want_read) && (not (eq_ℤ r c.want_write) && not (eq_ℤ r c.read_timeout)))
    then true
    else ssl_reset

-- mqtt_ssl_write
unfoldable pub mqtt_ssl_write : SslCodes → ℤ → Bool → Bool
mqtt_ssl_write c r ssl_reset =
    if is_nonpositive r && (not (eq_ℤ r c.want_read) && not (eq_ℤ r c.want_write))
    then true
    else ssl_reset

-- A call of the transport from inside the MQTT library.
pub data Transfer : Type 0 where
  reading : ℤ → Transfer
  writing : ℤ → Transfer

unfoldable pub transfer : SslCodes → List Transfer → Bool → Bool
transfer c [] ssl_reset = ssl_reset
transfer c (reading r ∷ ts) ssl_reset = transfer c ts (mqtt_ssl_read c r ssl_reset)
transfer c (writing r ∷ ts) ssl_reset = transfer c ts (mqtt_ssl_write c r ssl_reset)

-- What the task tells the libraries; a connection is told with its success.
pub data Action : Type 0 where
  ssl_init : Action
  ssl_connected : Bool → Action
  mqtt_connected : Bool → Action
  mqtt_subscribe : Action
  queue_reset : Action
  mqtt_publish : List ℕ → Action
  mqtt_yield : Action
  ssl_destroy : Action
  wait : Action

-- An item of the queue: the tick, the heap and the stack at that time, and the transfers of its
-- publication.
pub record Item : Type 0 where
  pub task_tick : ℕ
  pub free_heap : ℕ
  pub free_stack : ℕ
  pub transfers : List Transfer

-- snprintf into `msg`, of 64 bytes.
unfoldable pub message_text : Item → List ℕ
message_text i = take 63 (
    decimal i.task_tick
    ++ (codes ": free heap "
        ++ (decimal i.free_heap
            ++ (codes ", free stack " ++ decimal ((i.free_stack * 4) % 4294967296)))))

-- A turn of the inner loop: `wifi_alive` at its test, the items that are in the queue, the transfers
-- of mqtt_yield, and whether that reports a lost connection.
pub record Turn : Type 0 where
  pub wifi_alive : Bool
  pub items : List Item
  pub transfers : List Transfer
  pub disconnected : Bool

-- The loop over the queue: the actions, and `ssl_reset`.
unfoldable pub publish_loop : SslCodes → List Item → Bool → List Action × Bool
publish_loop c [] ssl_reset = ([], ssl_reset)
publish_loop c (i ∷ items) ssl_reset =
    let (rest, after) = publish_loop c items (transfer c i.transfers ssl_reset) in
    (mqtt_publish (message_text i) ∷ rest, after)

-- The actions of a stretch, `ssl_reset` behind it, and whether it ends before its input does.
pub record Stretch : Type 0 where
  pub actions : List Action
  pub ssl_reset : Bool
  pub finished : Bool

abbrev pub after : List Action → Stretch → Stretch
after xs s = record s { actions = xs ++ s.actions }

-- The inner loop.
unfoldable pub turn_loop : SslCodes → List Turn → Bool → Stretch
turn_loop c [] ssl_reset = record { actions = []; ssl_reset = ssl_reset; finished = false }
turn_loop c (t ∷ turns) ssl_reset =
    let published = publish_loop c t.items ssl_reset in
    let reset = transfer c t.transfers published.1 in
    let rest = turn_loop c turns reset in
    if t.wifi_alive && not ssl_reset
    then after (published.0 ++ mqtt_yield ∷ []) (
        if t.disconnected
        then record { actions = []; ssl_reset = reset; finished = true }
        else rest)
    else record { actions = []; ssl_reset = ssl_reset; finished = true }

-- A round of the outer loop that finds the Wifi alive.
pub record Session : Type 0 where
  pub answers : Answers
  pub connect_transfers : List Transfer
  pub connect_result : ℤ
  pub subscribe_transfers : List Transfer
  pub turns : List Turn

-- From the accepted MQTT connection on.
unfoldable pub talk : SslCodes → Session → Bool → Stretch
talk c s ssl_reset =
    let loop = turn_loop c s.turns (transfer c s.subscribe_transfers ssl_reset) in
    after (mqtt_subscribe ∷ queue_reset ∷ [])
      (record loop { actions = loop.actions ++ (if loop.finished then ssl_destroy ∷ [] else []) })

-- From the TLS connection on.
unfoldable pub log_in : SslCodes → Session → Bool → Stretch
log_in c s ssl_reset =
    let reset = transfer c s.connect_transfers ssl_reset in
    if is_zero s.connect_result then after (mqtt_connected true ∷ []) (talk c s reset) else record {
      actions = mqtt_connected false ∷ ssl_destroy ∷ [];
      ssl_reset = reset;
      finished = true;
    }

-- The round; it starts with `ssl_reset = 0`.
unfoldable pub mqtt_session : SslCodes → Session → Bool → Stretch
mqtt_session c s ssl_reset = after (ssl_init ∷ []) (elim (ssl_connect c s.answers) [
  | none ↦ record { actions = []; ssl_reset = false; finished = false }
  | some ret ↦ if is_zero ret then after (ssl_connected true ∷ []) (log_in c s false) else record {
    actions = ssl_connected false ∷ ssl_destroy ∷ [];
    ssl_reset = false;
    finished = true;
  }
])

-- A round of the outer loop: without Wifi it only waits.
pub data Round : Type 0 where
  down : Round
  up : Session → Round

unfoldable pub mqtt_round : SslCodes → Round → Bool → Stretch
mqtt_round c down ssl_reset = record { actions = wait ∷ []; ssl_reset = ssl_reset; finished = true }
mqtt_round c (up s) ssl_reset = mqtt_session c s ssl_reset

-- The outer loop, as far as the rounds go. A round that does not finish is the last one.
unfoldable pub mqtt_run : SslCodes → List Round → Bool → Stretch
mqtt_run c [] ssl_reset = record { actions = []; ssl_reset = ssl_reset; finished = true }
mqtt_run c (r ∷ rounds) ssl_reset =
    let first = mqtt_round c r ssl_reset in
    let rest = mqtt_run c rounds first.ssl_reset in
    if first.finished then after first.actions rest else first
