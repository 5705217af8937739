-- ===== src/Wemo/Fauxmo/Searches.antt =====
-- Fauxmo::handle over a whole search: the calls that follow a request by UDP, and the request itself.
use futronix_alexa.Base.{
  store, lt→ltb, ℕ, ◌+◌, ◌-◌, ◌*◌, ◌%◌, ◌≡◌, ◌≤◌, ◌<◌, refl, sym, ap, subst, ◌∙◌, true, false, ◌&&◌,
  Option, some, none, List, [], ◌∷◌, length, get_elem?, map, replicate, ltb, ◌>>=◌, arith,
  Bool-cases, inl, inr, ◌⊎◌, All, ℤ, if_true, if_false,
}
use futronix_alexa.Wemo.Fauxmo.{
  Device, Datagram, Fauxmo, handle_fauxmo, handle_udp_packet, next_udp_response,
  udp_responses_interval,
}
use futronix_alexa.Wemo.Fauxmo.Rounds.{
  answers_left, IsSearching, IsIdentified, Origin, origin, reply_for, response_cases,
  next_udp_response_lem,
}

-- The byte behind a block does not exist.
store_behind : (buf : List ℕ) → store buf (length buf) 0 ≡ none
store_behind buf = ground arith

-- The answer joins those that follow it.
abbrev pub join : Option (ℕ × Datagram) → List (ℕ × Datagram) → List (ℕ × Datagram)
join none rest = rest
join (some i) rest = i ∷ rest

length-join :
    (answer : Option (ℕ × Datagram)) (ys : List (ℕ × Datagram))
    → length (join answer ys) ≡ length (join answer []) + length ys
length-join none ys = omega arith
length-join (some i) ys = omega arith

-- An answer is the reply for a device that was not hit.
abbrev pub IsReply : List ℕ → Origin → ℕ × Datagram → Type 0
IsReply local_ip o (i, t) =
    (d : Device) × (get_elem? o.0 i ≡ some d) × (d.hit ≡ false) × (t ≡ reply_for local_ip o i d)

join-All :
    (local_ip : List ℕ) (o : Origin) (answer : Option (ℕ × Datagram)) (ys : List (ℕ × Datagram))
    → All (IsReply local_ip o) (join answer [])
    → All (IsReply local_ip o) ys
    → All (IsReply local_ip o) (join answer ys)
join-All local_ip o none ys a b = b
join-All local_ip o (some i) ys a b = (a.0, b)

-- No answer is due, or all replies fit their buffer.
abbrev pub CanReply : List ℕ → Fauxmo → Type 0
CanReply local_ip f = (f.rounds_left ≡ 0) ⊎ ((length local_ip < 15) × IsIdentified f)

IsIdentified-origin : (f f' : Fauxmo) → origin f' ≡ origin f → IsIdentified f → IsIdentified f'
IsIdentified-origin f f' e h =
    let same : f'.devices ≡ f.devices = ap (λ (o : Origin). o.0) e in
    let port : f'.base_port ≡ f.base_port = ap (λ (o : Origin). o.1) e in
    record {
      uuids =
          subst (λ ds. map (λ (d : Device). length d.uuid) ds ≡ replicate (length ds) 14) (sym same)
            h.uuids;
      low = omega (arith, port, h.low);
      high = omega (arith, port, ap length same, h.high);
    }

-- What a step promises, with its answers.
pub record IsServed (local_ip : List ℕ) (f f' : Fauxmo) (answers : List (ℕ × Datagram))
    : Type 0 where
  pub searching : IsSearching f'
  pub ready : CanReply local_ip f'
  pub same_origin : origin f' ≡ origin f
  pub bounded : length answers + answers_left f' ≤ answers_left f
  pub all_replies : All (IsReply local_ip (origin f)) answers

abbrev Serves : List ℕ → Fauxmo → Type 0
Serves local_ip f =
    (f' : Fauxmo) × (answer : Option (ℕ × Datagram)) × (next_udp_response local_ip f
      ≡ some (f', answer))
    × IsServed local_ip f f' (join answer [])

respond_idle :
    (local_ip : List ℕ) (f : Fauxmo) → IsSearching f → f.rounds_left ≡ 0 → Serves local_ip f
respond_idle local_ip f h over = elim (response_cases local_ip f h) [
  | inr (f', i, d, q) ↦
      absurd (omega (arith, q.fewer, ap (λ r. r * length f.devices - f.current) over))
  | inl (f', o) ↦ (
    f',
    none,
    o.result,
    record {
      searching = o.searching;
      ready = inl o.over;
      same_origin = o.same_origin;
      bounded = omega (arith, ap (λ r. r * length f'.devices - f'.current) o.over);
      all_replies = tt;
    },
  )
]

respond : (local_ip : List ℕ) (f : Fauxmo) → IsSearching f → CanReply local_ip f → Serves local_ip f
respond local_ip f h (inl over) = respond_idle local_ip f h over
respond local_ip f h (inr (short, identified)) =
    elim (next_udp_response_lem local_ip f h identified) [
      | inl (f', e, searching, same, over, passed) ↦ (
        f',
        none,
        e,
        record {
          searching = searching;
          ready = inl over;
          same_origin = same;
          bounded = omega (arith, ap (λ r. r * length f'.devices - f'.current) over);
          all_replies = tt;
        },
      )
      | inr (f', i, d, e, at, unhit, searching, same, fewer) ↦ (
        f',
        some (i, reply_for local_ip (origin f) i d),
        e ∙ if_true _ _ (lt→ltb (length local_ip) 15 short),
        record {
          searching = searching;
          ready = inr (short, IsIdentified-origin f f' same identified);
          same_origin = same;
          bounded = omega (arith, fewer);
          all_replies = ((d, at, unhit, refl), tt);
        },
      )
    ]

module _ (index_of : List ℕ → List ℕ → ℤ) (local_ip : List ℕ) where
  -- The calls of `handle` at the given times while no packet comes, and the answers.
  unfoldable pub ticks : List ℕ → Fauxmo → Option (Fauxmo × List (ℕ × Datagram))
  ticks [] f = some (f, [])
  ticks (now ∷ clock) f = handle_fauxmo index_of local_ip none 0 now f >>= λ (f', answer).
      ticks clock f' >>= λ (f'', rest). some (f'', join answer rest)

  -- One call with no packet.
  pub handle_tick :
      (f : Fauxmo) (draw now : ℕ)
      → IsSearching f
      → CanReply local_ip f
      → (f' : Fauxmo) × (answer : Option (ℕ × Datagram)) × (handle_fauxmo index_of local_ip none
            draw now f
          ≡ some (f', answer))
        × IsServed local_ip f f' (join answer [])
  unfolding handle_fauxmo
  handle_tick f draw now h c =
      elim (Bool-cases (
        ltb 0 f.rounds_left
        && ltb udp_responses_interval ((now + 4294967296 - f.last_tick) % 4294967296))) [
          | inl due ↦
              let (f', answer, e, s) =
                respond local_ip (record f { last_tick = now }) (record { inside = h.inside })
                  (elim c [
                    | inl over ↦ inl over
                    | inr (short, i) ↦
                        inr (short, record { uuids = i.uuids; low = i.low; high = i.high })
                  ]) in
              (
                f',
                answer,
                if_true _ _ due ∙ e,
                record {
                  searching = s.searching;
                  ready = s.ready;
                  same_origin = s.same_origin;
                  bounded = s.bounded;
                  all_replies = s.all_replies;
                },
              )
          | inr early ↦ (
            f,
            none,
            if_false _ _ early,
            record {
              searching = h;
              ready = c;
              same_origin = refl;
              bounded = omega arith;
              all_replies = tt;
            },
          )
        ]

  -- On an object whose next device exists, and either with no round left or, for a chip's address
  -- of fewer than 15 characters, with UUIDs of 14 characters and ports of five digits: while no
  -- packet comes, `handle` never fails, whatever the times of its calls. Each reply is for a device
  -- that exists and was not hit since the search, names the address, the device's port and its
  -- UUID, and goes to the sender of the search; there are no more replies than the rounds that are
  -- left allow, and the object stays such an object.
  pub ticks_lem :
      (clock : List ℕ) (f : Fauxmo)
      → IsSearching f
      → CanReply local_ip f
      → (f' : Fauxmo) × (answers : List (ℕ × Datagram)) × (ticks clock f ≡ some (f', answers))
        × IsServed local_ip f f' answers
  unfolding ticks
  ticks_lem [] f h c = (
    f,
    [],
    refl,
    record {
      searching = h;
      ready = c;
      same_origin = refl;
      bounded = omega arith;
      all_replies = tt;
    },
  )
  ticks_lem (now ∷ clock) f h c =
      let (f', answer, e, a) = handle_tick f 0 now h c in
      let (f'', rest, e', b) = ticks_lem clock f' a.searching a.ready in
      (
        f'',
        join answer rest,
        rw (e, e'),
        record {
          searching = b.searching;
          ready = b.ready;
          same_origin = b.same_origin ∙ a.same_origin;
          bounded = omega (arith, a.bounded, b.bounded, length-join answer rest);
          all_replies =
              join-All local_ip (origin f) answer rest a.all_replies
                (subst (λ o. All (IsReply local_ip o) rest) a.same_origin b.all_replies);
        },
      )

module _ (index_of : List ℕ → List ℕ → ℤ) where
  -- On an enabled object, `handle` writes one byte behind the packet that it reads: its array has
  -- just the packet's length, and the terminator goes behind it.
  pub handle_fauxmo_overflow :
      (local_ip ip : List ℕ) (port : ℕ) (bytes : List ℕ) (draw now : ℕ) (f : Fauxmo)
      → f.enabled ≡ true
      → 0 < length bytes
      → handle_fauxmo index_of local_ip (some (ip, port, bytes)) draw now f ≡ none
  unfolding handle_fauxmo handle_udp_packet
  handle_fauxmo_overflow local_ip ip port bytes draw now f on filled =
      rw (lt→ltb 0 (length bytes) filled, on, store_behind bytes)
