-- ===== src/Wemo/Fauxmo/Replies.antt =====
-- Fauxmo::sendUDPResponse: when its text fits the buffer.
use futronix_alexa.Base.{
  sizes, ℕ, suc, ◌+◌, ◌-◌, ◌*◌, ◌≡◌, ◌≤◌, ◌<◌, sym, ap, subst, ◌∙◌, some, none, List, [], ◌++◌,
  length, get_elem?, ltb, if◌then◌else◌, ◌>>=◌, arith, decimal, decimal_loop, sprintf,
}
use futronix_alexa.Wemo.Templates.{
  udp_location, udp_colon, udp_setup, udp_server, udp_end, udp_template_length,
}
use futronix_alexa.Wemo.Fauxmo.{Device, Fauxmo, udp_response}

five_rounds :
    (f n : ℕ)
    → 10000 ≤ n
    → n < 100000
    → length (decimal_loop (suc (suc (suc (suc (suc f))))) n []) ≡ 5
unfolding decimal_loop
five_rounds f n h k = ground arith

-- A port of five digits.
length-decimal : (n : ℕ) → 10000 ≤ n → n < 100000 → length (decimal n) ≡ 5
length-decimal n h k =
    let rounds : n + 1 ≡ suc (suc (suc (suc (suc (n - 4))))) = omega arith in
    subst (λ r. length (decimal_loop r n []) ≡ 5) (sym rounds) (five_rounds (n - 4) n h k)

-- The text of a reply.
abbrev pub reply_text : List ℕ → ℕ → Device → List ℕ
reply_text local_ip port d =
    udp_location
    ++ local_ip
    ++ udp_colon
    ++ decimal port
    ++ udp_setup
    ++ d.uuid
    ++ udp_server
    ++ d.uuid
    ++ udp_end

-- The sizes of nine pieces, one of which stands twice.
length-pieces :
    (a ip b port c uuid e g : List ℕ)
    → length (a ++ ip ++ b ++ port ++ c ++ uuid ++ e ++ uuid ++ g)
      ≡ length a
        + length ip
        + length b
        + length port
        + length c
        + 2 * length uuid
        + length e
        + length g
length-pieces a ip b port c uuid e g = grind sizes

length-reply_text :
    (local_ip : List ℕ) (port : ℕ) (d : Device)
    → 10000 ≤ port
    → port < 100000
    → length d.uuid ≡ 14
    → length (reply_text local_ip port d) ≡ (udp_template_length - 8) + length local_ip + 33
length-reply_text local_ip port d h k u =
    length-pieces udp_location local_ip udp_colon (decimal port) udp_setup d.uuid udp_server udp_end
    ∙ omega (arith, length-decimal port h k, u)

fits_same :
    (size ip : ℕ)
    → size ≡ (udp_template_length - 8) + ip + 33
    → ltb size (udp_template_length + 40) ≡ ltb ip 15
fits_same size ip e = ground arith

-- For a device that exists, with a UUID of 14 characters, and a port of five digits, the reply to a
-- search fits its buffer exactly if the chip's address has fewer than 15 characters, and then it
-- names the address, the port and the UUID; with an address of 15 characters it is written past the
-- end of the buffer.
pub udp_response_lem :
    (local_ip : List ℕ) (device_id : ℕ) (f : Fauxmo) (d : Device)
    → get_elem? f.devices device_id ≡ some d
    → length d.uuid ≡ 14
    → 10000 ≤ f.base_port + f.current
    → f.base_port + f.current < 100000
    → udp_response local_ip device_id f ≡ (
        if ltb (length local_ip) 15
        then some (reply_text local_ip (f.base_port + f.current) d)
        else none)
unfolding udp_response
udp_response_lem local_ip device_id f d at u h k =
    let size = length-reply_text local_ip (f.base_port + f.current) d h k u in
    let text = reply_text local_ip (f.base_port + f.current) d in
    ap
      (λ o. o >>= λ (x : Device).
        sprintf (udp_template_length + 40) (reply_text local_ip (f.base_port + f.current) x))
      at
    ∙ ap (λ b. if b then some text else none) (fits_same (length text) (length local_ip) size)
