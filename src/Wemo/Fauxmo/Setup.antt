-- ===== src/Wemo/Fauxmo/Setup.antt =====
-- The first block of Fauxmo::handleTCPPacket: the description of a device.
use futronix_alexa.Base.{
  sizes, ℕ, suc, ◌+◌, ◌-◌, ◌≡◌, ◌≢◌, ◌≤◌, ◌<◌, refl, sym, ap, subst, ◌∙◌, true, false, Option, some,
  none, List, [], ◌∷◌, ◌++◌, length, get_elem?, get_elem?-set_self, set, ltb, if◌then◌else◌, arith,
  decimal, decimal_loop, Bool-cases, inl, inr, eq_ℤ, ℤ, pos, codes, if_true, if_false, lt→ltb,
  ◌>>=◌, ltb→lt, c_str, store-some, get_elem?-lt, some_inj,
}
use futronix_alexa.Wemo.Templates.{
  setup_name, setup_model, setup_end, setup_template_length, headers_length_field, headers_body,
  headers_end,
}
use futronix_alexa.Wemo.Fauxmo.{Device, Datagram, Fauxmo, next_udp_response}
use futronix_alexa.Wemo.Fauxmo.Tcp.{
  reply, close, setup_xml, tcp_packet, handle_setup, handle_control, handle_tcp_packet,
}
use futronix_alexa.Wemo.Fauxmo.Skips.{IsUnhit}
use futronix_alexa.Wemo.Fauxmo.Rounds.{IsSearching, response_cases}

-- The description of a device, and the packet that holds it.
unfoldable pub description : Device → List ℕ
description d = setup_name ++ d.name ++ setup_model ++ d.uuid ++ setup_end

unfoldable pub packet_text : List ℕ → List ℕ
packet_text body =
    headers_length_field ++ decimal (length body) ++ headers_body ++ body ++ headers_end

fits_same :
    (size name : ℕ)
    → size ≡ (setup_template_length - 4) + 14 + name
    → ltb size (setup_template_length + 50) ≡ ltb name 40
fits_same size name e = ground arith

length-five :
    (a b c d e : List ℕ)
    → length (a ++ b ++ c ++ d ++ e) ≡ length a + length b + length c + length d + length e
length-five a b c d e = grind sizes

length-description :
    (d : Device)
    → length d.uuid ≡ 14
    → length (description d) ≡ (setup_template_length - 4) + 14 + length d.name
unfolding description
length-description d h = length-five setup_name d.name setup_model d.uuid setup_end ∙ omega arith

setup_xml_lem :
    (d : Device)
    → length d.uuid ≡ 14
    → setup_xml d ≡ (if ltb (length d.name) 40 then some (description d) else none)
unfolding setup_xml description
setup_xml_lem d h =
    let size = length-description d h in
    ap (λ b. if b then some (description d) else none)
      (fits_same (length (description d)) (length d.name) size)

three_rounds : (f n : ℕ) → 100 ≤ n → n < 1000 → length (decimal_loop (suc (suc (suc f))) n []) ≡ 3
unfolding decimal_loop
three_rounds f n h k = ground arith

length-decimal_three : (n : ℕ) → 100 ≤ n → n < 1000 → length (decimal n) ≡ 3
length-decimal_three n h k =
    let rounds : n + 1 ≡ suc (suc (suc (n - 2))) = omega arith in
    subst (λ r. length (decimal_loop r n []) ≡ 3) (sym rounds) (three_rounds (n - 2) n h k)

-- A body of three digits' length fits.
tcp_packet_lem :
    (body : List ℕ)
    → 100 ≤ length body
    → length body < 1000
    → tcp_packet body ≡ some (packet_text body)
unfolding tcp_packet packet_text
tcp_packet_lem body h k =
    let size =
      length-five headers_length_field (decimal (length body)) headers_body body headers_end in
    let digits = length-decimal_three (length body) h k in
    if_true (some (packet_text body)) none (lt→ltb _ _ (omega (arith, size, digits)))

-- With a name below forty characters both texts fit.
pub setup_texts :
    (d : Device)
    → length d.uuid ≡ 14
    → length d.name < 40
    → (setup_xml d ≡ some (description d))
      × (tcp_packet (description d) ≡ some (packet_text (description d)))
setup_texts d u h =
    let size = length-description d u in
    (
      setup_xml_lem d u ∙ if_true (some (description d)) none (lt→ltb (length d.name) 40 h),
      tcp_packet_lem (description d) (omega (arith, size)) (omega (arith, size)),
    )

-- The object after a device was asked for its description.
abbrev pub marked : ℕ → Device → Fauxmo → Fauxmo
marked device_id d f = record f { devices = set f.devices device_id (record d { hit = true }) }

handle_setup_lem :
    (index_of : List ℕ → List ℕ → ℤ) (device_id : ℕ) (content : List ℕ) (d : Device) (f : Fauxmo)
    → length d.uuid ≡ 14
    → index_of content (codes "GET /setup.xml") ≡ pos 0
    → handle_setup index_of device_id content d f ≡ (
        if ltb (length d.name) 40
        then some (marked device_id d f, reply (packet_text (description d)) ∷ close ∷ [])
        else none)
unfolding handle_setup
handle_setup_lem index_of device_id content d f u e = elim (Bool-cases (ltb (length d.name) 40)) [
  | inl short ↦
      let size = length-description d u in
      let below = ltb→lt (length d.name) 40 short in
      let body = setup_xml_lem d u ∙ if_true (some (description d)) none short in
      rw
        (
          e,
          body,
          tcp_packet_lem (description d) (omega (arith, size)) (omega (arith, size, below)),
          short,
        )
        refl
  | inr long ↦
      let body = setup_xml_lem d u ∙ if_false (some (description d)) none long in
      rw (e, body, long) refl
]

-- A device that was hit is not the one that is answered for.
unhit_ne :
    (devices : List Device) (i k : ℕ) (d : Device)
    → k < length devices
    → IsUnhit (set devices k (record d { hit = true })) i
    → i ≢ k
unhit_ne devices i k d h (x, at, unhit) e =
    let same = some_inj (
      sym at
      ∙ ap (get_elem? (set devices k (record d { hit = true }))) e
      ∙ get_elem?-set_self devices k (record d { hit = true }) h) in
    cc (ap (λ (y : Device). y.hit) same, unhit)

-- The device that is answered for.
answered :
    (sent : Option Datagram) (i : ℕ) (f h : Fauxmo) (k : ℕ) (t : Datagram)
    → ◌>>=◌ {B = Fauxmo × Option (ℕ × Datagram)} sent (λ x. some (f, some (i, x)))
      ≡ some (h, some (k, t))
    → i ≡ k
answered none i f h k t e = absurd cc
answered (some x) i f h k t e = cc

-- A request for the description of a device that exists, with a UUID of 14 characters, in a block
-- with room for its terminator: with a name of fewer than 40 characters it is answered and the
-- connection closed, and then the device is passed over by `nextUDPResponse` as long as the devices
-- stay as they are; with a longer name the description is written past the end of its buffer.
pub setup_request_lem :
    (index_of : List ℕ → List ℕ → ℤ) (device_id : ℕ) (data' : List ℕ) (len : ℕ) (d : Device)
    (f : Fauxmo)
    → get_elem? f.devices device_id ≡ some d
    → length d.uuid ≡ 14
    → len < length data'
    → index_of (c_str (set data' len 0)) (codes "GET /setup.xml") ≡ pos 0
    → eq_ℤ (index_of (c_str (set data' len 0)) (codes "POST /upnp/control/basicevent1")) (pos 0)
      ≡ false
    → (handle_tcp_packet index_of device_id data' len f ≡ (
        if ltb (length d.name) 40
        then some (marked device_id d f, reply (packet_text (description d)) ∷ close ∷ [])
        else none))
      × ((local_ip : List ℕ) (g h : Fauxmo) (t : Datagram)
          → g.devices ≡ (marked device_id d f).devices
          → IsSearching g
          → next_udp_response local_ip g ≢ some (h, some (device_id, t)))
unfolding handle_tcp_packet handle_control
setup_request_lem index_of device_id data' len d f at u room get post =
    let handled = handle_setup_lem index_of device_id (c_str (set data' len 0)) d f u get in
    (
      elim (Bool-cases (ltb (length d.name) 40)) [
        | inl short ↦ rw (store-some data' len 0 room, at, handled, post, short) refl
        | inr long ↦ rw (store-some data' len 0 room, at, handled, long) refl
      ],
      λ local_ip g h t same searching e. elim (response_cases local_ip g searching) [
        | inl (g', o) ↦ cc (o.result, e)
        | inr (g', i, x, q) ↦
            unhit_ne f.devices i device_id d (get_elem?-lt f.devices device_id at)
              (subst (λ ds. IsUnhit ds i) same (x, q.at, q.unhit))
              (answered _ i g' h device_id t (sym q.result ∙ e))
      ],
    )
