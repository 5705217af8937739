-- ===== src/Wemo/Fauxmo/Rounds.antt =====
-- Fauxmo::nextUDPResponse: which device is answered for and with what, and how many answers are left.
use futronix_alexa.Base.{
  ℕ, zero, suc, ◌+◌, ◌-◌, ◌*◌, ◌≡◌, ◌≤◌, ◌<◌, refl, sym, ap, subst, ◌∙◌, true, false, some, none,
  List, map, replicate, get_elem?, get_elem?-map, get_elem?-replicate, get_elem?-lt, some_inj,
  length, ltb, ◌==◌, arith, Bool-cases, inl, inr, ◌⊎◌, ==_iff, ltb→lt, if◌then◌else◌, ◌>>=◌,
}
use futronix_alexa.Wemo.Fauxmo.Skips.{AreHitFrom, skip_loop_lem}
use futronix_alexa.Wemo.Fauxmo.Replies.{reply_text, udp_response_lem}
use futronix_alexa.Wemo.Fauxmo.{
  Device, Fauxmo, Datagram, skip_fuel, advance, udp_response, send_udp_response, next_udp_response,
}

-- The answers that are left for a search, at most: each device in each round, less those that this
-- round has passed.
abbrev pub answers_left : Fauxmo → ℕ
answers_left f = f.rounds_left * length f.devices - f.current

fewer_round : (r n c left : ℕ) → 0 < r → c + 1 ≡ n → r * n ≤ left + c → (r - 1) * n - 0 < left
fewer_round zero n c left p end k = absurd (omega arith)
fewer_round (suc r) n c left p end k =
    let less : suc r - 1 ≡ r = omega arith in subst (λ m. m * n - 0 < left) (sym less) (omega arith)

fewer_device : (r n c left : ℕ) → 0 < r → c < n → r * n ≤ left + c → r * n - (c + 1) < left
fewer_device zero n c left p h k = absurd (omega arith)
fewer_device (suc r) n c left p h k = omega arith

-- The state of the search between two calls: the next device exists.
pub record IsSearching (f : Fauxmo) : Type 0 where
  pub inside : f.current < length f.devices

-- What a reply is made from: the devices and the port of the first, and the sender of the search.
abbrev pub Origin : Type 0
Origin = List Device × ℕ × List ℕ × ℕ

abbrev pub origin : Fauxmo → Origin
origin f = (f.devices, f.base_port, f.remote_ip, f.remote_port)

-- The reply for a device.
abbrev pub reply_for : List ℕ → Origin → ℕ → Device → Datagram
reply_for local_ip (devices, port, ip, udp_port) i d = record {
  to_ip = ip;
  to_port = udp_port;
  text = reply_text local_ip (port + i) d;
}

-- UUIDs of 14 characters and ports of five digits.
pub record IsIdentified (f : Fauxmo) : Type 0 where
  pub uuids : map (λ (d : Device). length d.uuid) f.devices ≡ replicate (length f.devices) 14
  pub low : 10000 ≤ f.base_port
  pub high : f.base_port + length f.devices ≤ 100000

length-uuid :
    (f : Fauxmo) (i : ℕ) (d : Device)
    → IsIdentified f
    → get_elem? f.devices i ≡ some d
    → length d.uuid ≡ 14
length-uuid f i d h at = some_inj (
    sym (get_elem?-map (λ (x : Device). length x.uuid) f.devices i d at)
    ∙ ap (λ ns. get_elem? ns i) h.uuids
    ∙ get_elem?-replicate (length f.devices) i 14 (get_elem?-lt f.devices i at))

-- What one call of `nextUDPResponse` gives where it answers for device `i`.
pub record IsReplying (local_ip : List ℕ) (f f' : Fauxmo) (i : ℕ) (d : Device) : Type 0 where
  pub at : get_elem? f.devices i ≡ some d
  pub unhit : d.hit ≡ false
  pub searching : IsSearching f'
  pub same_origin : origin f' ≡ origin f
  pub fewer : answers_left f' < answers_left f
  pub result :
      next_udp_response local_ip f
      ≡ (send_udp_response local_ip i (record f { current = i }) >>= λ t. some (f', some (i, t)))

-- What it gives where it does not.
pub record IsOver (local_ip : List ℕ) (f f' : Fauxmo) : Type 0 where
  pub searching : IsSearching f'
  pub same_origin : origin f' ≡ origin f
  pub over : f'.rounds_left ≡ 0
  pub passed : (f.rounds_left ≡ 0) ⊎ AreHitFrom f.devices f.current
  pub result : next_udp_response local_ip f ≡ some (f', none)

advance_last :
    (f : Fauxmo)
    → (f.current + 1 == length f.devices) ≡ true
    → advance f ≡ record f { rounds_left = f.rounds_left - 1; current = 0 }
advance_last f last = rw last

advance_next :
    (f : Fauxmo)
    → (f.current + 1 == length f.devices) ≡ false
    → advance f ≡ record f { current = f.current + 1 }
advance_next f more = rw more

-- The step to the next device.
advance_lem :
    (f : Fauxmo) (left : ℕ)
    → 0 < f.rounds_left
    → f.current < length f.devices
    → f.rounds_left * length f.devices ≤ left + f.current
    → IsSearching (advance f) × (origin (advance f) ≡ origin f) × (answers_left (advance f) < left)
advance_lem f left live inside onward = elim (Bool-cases (f.current + 1 == length f.devices)) [
  | inl last ↦
      let end = (==_iff (f.current + 1) (length f.devices)).0 last in
      subst (λ (x : Fauxmo). IsSearching x × (origin x ≡ origin f) × (answers_left x < left))
        (sym (advance_last f last))
        (
          record { inside = omega arith },
          refl,
          fewer_round f.rounds_left (length f.devices) f.current left live end onward,
        )
  | inr more ↦
      subst (λ (x : Fauxmo). IsSearching x × (origin x ≡ origin f) × (answers_left x < left))
        (sym (advance_next f more))
        (
          record { inside = ground arith },
          refl,
          fewer_device f.rounds_left (length f.devices) f.current left live inside onward,
        )
]

-- While the next device exists, a call ends; it answers for a device or it is over.
pub response_cases :
    (local_ip : List ℕ) (f : Fauxmo)
    → IsSearching f
    → ((f' : Fauxmo) × IsOver local_ip f f')
      ⊎ ((f' : Fauxmo) × (i : ℕ) × (d : Device) × IsReplying local_ip f f' i d)
unfolding next_udp_response send_udp_response udp_response
response_cases local_ip f h =
    let (r, c, e, s) =
      skip_loop_lem (skip_fuel f) f.devices f.rounds_left f.current h.inside (omega arith)
        (omega arith) in
    let f1 = record f { rounds_left = r; current = c } in
    elim (Bool-cases (ltb 0 r)) [
      | inr idle ↦
          let over : r ≡ 0 = ground arith in
          inl (
            f1,
            record {
              searching = record { inside = s.inside };
              same_origin = refl;
              over = over;
              passed = s.passed over;
              result = rw (e, idle);
            },
          )
      | inl live ↦ elim s.stopped [
        | inl over ↦ absurd (ground arith)
        | inr (d, at, unhit) ↦
            let (searching, same, fewer) =
              advance_lem f1 (answers_left f) (ltb→lt 0 r live) s.inside
                (omega (arith, s.onward)) in
            inr (
              advance f1,
              c,
              d,
              record {
                at = at;
                unhit = unhit;
                searching = searching;
                same_origin = same;
                fewer = fewer;
                result = rw (e, live);
              },
            )
      ]
    ]

-- The reply for a device at the place `i`.
send_udp_response_lem :
    (local_ip : List ℕ) (f : Fauxmo) (i : ℕ) (d : Device)
    → IsIdentified f
    → get_elem? f.devices i ≡ some d
    → send_udp_response local_ip i (record f { current = i })
      ≡ (if ltb (length local_ip) 15 then some (reply_for local_ip (origin f) i d) else none)
unfolding send_udp_response
send_udp_response_lem local_ip f i d h at =
    let inside = get_elem?-lt f.devices i at in
    let e =
      udp_response_lem local_ip i (record f { current = i }) d at (length-uuid f i d h at)
        (omega (arith, h.low)) (omega (arith, h.high, inside)) in
    elim (Bool-cases (ltb (length local_ip) 15)) [
      | inl short ↦ rw (e, short)
      | inr long ↦ rw (e, long)
    ]

-- On a chip with any address, while the next device exists, for UUIDs of 14 characters and ports of
-- five digits, `nextUDPResponse` comes to an end in one of two ways. Either it sends nothing and no
-- round is left, and then no round was left before, or every device from the current one to the
-- last was hit since the search. Or it comes to a device that was not hit: with an address of fewer
-- than 15 characters its reply, with the address, the device's port and its UUID, goes to the
-- sender of the search, the next device exists again, and fewer answers are left; with a longer
-- address the reply is written past its buffer.
pub next_udp_response_lem :
    (local_ip : List ℕ) (f : Fauxmo)
    → IsSearching f
    → IsIdentified f
    → ((f' : Fauxmo) × (next_udp_response local_ip f ≡ some (f', none))
        × IsSearching f'
        × (origin f' ≡ origin f)
        × (f'.rounds_left ≡ 0)
        × ((f.rounds_left ≡ 0) ⊎ AreHitFrom f.devices f.current))
      ⊎ ((f' : Fauxmo) × (i : ℕ) × (d : Device) × (next_udp_response local_ip f ≡ (
            if ltb (length local_ip) 15
            then some (f', some (i, reply_for local_ip (origin f) i d))
            else none))
          × (get_elem? f.devices i ≡ some d)
          × (d.hit ≡ false)
          × IsSearching f'
          × (origin f' ≡ origin f)
          × (answers_left f' < answers_left f))
next_udp_response_lem local_ip f h identified = elim (response_cases local_ip f h) [
  | inl (f', o) ↦ inl (f', o.result, o.searching, o.same_origin, o.over, o.passed)
  | inr (f', i, d, q) ↦
      let sent = send_udp_response_lem local_ip f i d identified q.at in
      let e = q.result ∙ ap (λ o. o >>= λ t. some (f', some (i, t))) sent in
      inr (
        f',
        i,
        d,
        e ∙ elim (Bool-cases (ltb (length local_ip) 15)) [
          | inl short ↦ rw short
          | inr long ↦ rw long
        ],
        q.at,
        q.unhit,
        q.searching,
        q.same_origin,
        q.fewer,
      )
]
