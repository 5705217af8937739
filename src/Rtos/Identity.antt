-- ===== src/Rtos/Identity.antt =====
-- `get_my_id` of RTOS/futronix-alexa-rtos/aws_iot.c, and the client's name that `mqtt_task` makes of
-- it. A `char` is unsigned, as on this chip.
pub mod Text
use futronix_alexa.Base.{
  ℕ, zero, suc, ◌+◌, ◌*◌, ◌/◌, ◌%◌, Bool, true, false, Option, some, none, List, ◌++◌, get_elem?,
  splice, store, length, replicate, ltb, leb, c_str, codes, sprintf, if◌then◌else◌, ◌>>=◌,
}

-- The static variables `my_id`, of 13 bytes, and `my_id_done`.
pub record Identity : Type 0 where
  pub my_id : List ℕ
  pub my_id_done : Bool

-- The static variables before the first call, which are zeros.
abbrev pub new_identity : Identity
new_identity = record { my_id = replicate 13 0; my_id_done = false }

-- x > 9 ? x + 7 : x, and then x + '0', in a uint8_t.
unfoldable pub id_digit : ℕ → ℕ
id_digit x = ((if ltb 9 x then (x + 7) % 256 else x) + 48) % 256

-- The loop over `i`, at `i + 1` rounds left: the buffer's byte `i` becomes two digits.
unfoldable pub expand_loop : ℕ → List ℕ → Option (List ℕ)
expand_loop zero buf = some buf
expand_loop (suc i) buf = get_elem? buf i >>= λ low.
    store buf (i * 2 + 1) (id_digit (low % 16)) >>= λ buf'. get_elem? buf' i >>= λ high.
    store buf' (i * 2) (id_digit (high / 16)) >>= λ buf''. expand_loop i buf''

-- get_my_id. `mac` is what sdk_wifi_get_macaddr writes, if it succeeds. The result is NULL or the
-- buffer.
unfoldable pub get_my_id : Option (List ℕ) → Identity → Option (Identity × Option (List ℕ))
get_my_id mac s = if s.my_id_done then some (s, some s.my_id) else (elim mac [
  | none ↦ some (s, none)
  | some bytes ↦
      if leb (length bytes) (length s.my_id)
      then (expand_loop 6 (splice s.my_id 0 bytes) >>= λ buf.
          store buf 12 0 >>= λ buf'. some (record { my_id = buf'; my_id_done = true }, some buf'))
      else none
])

-- The name of the client, in a buffer of 20 bytes: strcat reads what `get_my_id` gives, also NULL.
unfoldable pub client_name : Option (List ℕ) → Identity → Option (Identity × List ℕ)
client_name mac s = get_my_id mac s >>= λ (s', id).
    id >>= λ text. sprintf 20 (codes "ESP-" ++ c_str text) >>= λ name. some (s', name)
