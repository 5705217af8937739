-- ===== src/Wemo/Server/Identity.antt =====
-- The name and the serial number of a server.
use futronix_alexa.Base.{
  sizes, ℕ, none, true, ◌+◌, ◌/◌, ◌%◌, ◌≡◌, ◌<◌, refl, ◌∙◌, some, List, ◌++◌, length, c_str, codes,
  hex, decimal, ltb, lt→ltb, if_true, arith, length-map, if◌then◌else◌,
}
use futronix_alexa.Wemo.Fauxmo.Names.{length-hex_two}
use futronix_alexa.Wemo.Emulator.{SceneCallbackHandler}
use futronix_alexa.Wemo.Server.{WemoServer, small_hex, serial_of, new_server}

length-small_hex : (n : ℕ) → n < 256 → length (small_hex n) ≡ 2
length-small_hex n h =
    length-map (λ c. if ltb 64 c then c + 32 else c) (hex 2 n) ∙ length-hex_two n h

length_four :
    (a b c d : List ℕ) → length (a ++ b ++ c ++ d) ≡ length a + length b + length c + length d
length_four a b c d = grind sizes

-- The serial number fits its buffer, whatever the id of the chip.
serial_of-some : (chip_id : ℕ) → (serial : List ℕ) × (serial_of chip_id ≡ some serial)
unfolding serial_of
serial_of-some chip_id =
    let start = codes "38323636-4558-4dda-9188-cda0e6" in
    let high = small_hex ((chip_id / 65536) % 256) in
    let mid = small_hex ((chip_id / 256) % 256) in
    let low = small_hex (chip_id % 256) in
    let size : length (start ++ high ++ mid ++ low) ≡ 36 = omega (
      arith,
      length_four start high mid low,
      length-small_hex ((chip_id / 65536) % 256) (omega arith),
      length-small_hex ((chip_id / 256) % 256) (omega arith),
      length-small_hex (chip_id % 256) (omega arith),
    ) in
    (
      start ++ high ++ mid ++ low,
      if_true (some (start ++ high ++ mid ++ low)) none (lt→ltb _ 64 (omega (arith, size))),
    )

-- A server is made of every name below 70 bytes, and keeps its name, port and handler.
pub new_server_lem :
    (chip_id : ℕ) (name : List ℕ) (port : ℕ) (h : SceneCallbackHandler)
    → length (c_str name) < 70
    → (s : WemoServer) × (new_server chip_id name port h ≡ some s)
      × (s.device_name ≡ c_str name)
      × (s.local_port ≡ port)
      × (s.handler ≡ h)
      × (s.is_open ≡ true)
unfolding new_server
new_server_lem chip_id name port h k =
    let (serial, e) = serial_of-some chip_id in
    (
      record {
        device_name = c_str name;
        local_port = port;
        handler = h;
        uuid = codes "Socket-1_0-" ++ serial ++ codes "-" ++ decimal port;
        serial = serial;
        is_open = true;
      },
      rw (lt→ltb (length (c_str name)) 70 k, e),
      refl,
      refl,
      refl,
      refl,
    )
