-- ===== src/Rtos/Board.antt =====
-- `blink`, `topic_received`, `beat_task` and `user_init` of RTOS/futronix-alexa-rtos/aws_iot.c: what
-- they tell the pins and the system.
use futronix_alexa.Base.{ℕ, Bool, List, [], ◌∷◌, length, ltb, codes, if◌then◌else◌}

-- gpio_enable(pin, GPIO_OUTPUT), gpio_write, a vTaskDelay in milliseconds, xQueueCreate, xTaskCreate
-- with the stack's size.
pub data BoardEvent : Type 0 where
  gpio_enable : ℕ → BoardEvent
  gpio_write : ℕ → ℕ → BoardEvent
  delay_ms : ℕ → BoardEvent
  queue_create : ℕ → ℕ → BoardEvent
  task_create : List ℕ → ℕ → BoardEvent

abbrev pub gpio_led : ℕ
gpio_led = 2

-- blink, on the constant `gpio`
abbrev pub blink_led : List BoardEvent
blink_led = gpio_write gpio_led 0 ∷ delay_ms 1000 ∷ gpio_write gpio_led 1 ∷ delay_ms 1000 ∷ []

-- topic_received; its prints and the unused parser are left out.
unfoldable pub topic_received : List ℕ → List BoardEvent
topic_received payload = if ltb 0 (length payload) then blink_led else []

-- A round of `beat_task`: a second without Wifi, ten with.
unfoldable pub beat_round : Bool → List BoardEvent
beat_round wifi_alive = if wifi_alive then delay_ms 10000 ∷ [] else delay_ms 1000 ∷ []

-- user_init
abbrev pub user_init : List BoardEvent
user_init =
    gpio_enable gpio_led
    ∷ gpio_write gpio_led 1
    ∷ queue_create 3 16
    ∷ task_create (codes "wifi_task") 256
    ∷ task_create (codes "beat_task") 256
    ∷ task_create (codes "mqtt_task") 2048
    ∷ []
