-- ===== src/Main/Runs/Orders.antt =====
-- Whole runs of the firmware, from its start on.
use futronix_alexa.Base.{
  ap, c_str, set, subst, if◌then◌else◌, ℕ, ◌≡◌, refl, Option, some, none, List, [], ◌∷◌, length,
  All, ℤ, pos,
}
use futronix_alexa.Eeprom.Api.{Eeprom, Documented}
use futronix_alexa.Storage.Table.{Raw}
use futronix_alexa.Storage.Table.View.{IsRaw}
use futronix_alexa.Ir.Frame.{Pulse}
use futronix_alexa.Ir.Decode.{receive_times}
use futronix_alexa.Wemo.Fauxmo.Rounds.{Origin}
use futronix_alexa.Wemo.Fauxmo.Searches.{handle_tick}
use futronix_alexa.Admin.{Firmware, Request, Response}
use futronix_alexa.Admin.Requests.{Panel, respond, handle_request_lem}
use futronix_alexa.Main.{with_fauxmo, send_queued, listen_admin, loop_turn}
use futronix_alexa.Main.Switches.{listened}
use futronix_alexa.Main.Runs.{
  Event, tcp, turn, run_event, run_events, flush, served, observe, observe_all, IsOrderly, orderly,
  thrice, all_pulses, receive_times-all_pulses, all_pulses-append,
}
use futronix_alexa.Main.Runs.Steps.{
  IsAwake, broadcast_lem, flush_at, ticked, handled_tcp, buffered, spared,
}
use futronix_alexa.Main.Handlers.{is_switch, receive_any}

module _ {S : Type 0} {lib : Eeprom S} (doc : Documented lib) {raw : Raw} (honest : IsRaw raw)
    (to_int : List ℕ → ℤ) (index_of : List ℕ → List ℕ → ℤ) (local_ip : List ℕ) where
  admin_lem :
      (packet : Option (List ℕ)) (request : Option Request) (w : Firmware S) (p : Panel)
      → IsOrderly to_int (turn 0 0 packet request)
      → IsAwake doc local_ip w p
      → (w' : Firmware S) × (answer : Option (List ℕ)) × (response : Option Response)
        × (listen_admin index_of lib raw to_int packet request w ≡ some (w', answer, response))
        × IsAwake doc local_ip w' (served to_int request p)
  unfolding listen_admin
  admin_lem packet none w p h a =
      let (buffer', answer, e, size) = broadcast_lem w.packet_buffer packet a.buffer in
      (
        record w { packet_buffer = buffer' },
        answer,
        none,
        rw e,
        buffered doc local_ip buffer' w p size a,
      )
  admin_lem packet (some r) w p h a =
      let (buffer', answer, e, size) = broadcast_lem w.packet_buffer packet a.buffer in
      let w1 = record w { packet_buffer = buffer' } in
      let b = buffered doc local_ip buffer' w p size a in
      let (w2, handled, shows, spares) = handle_request_lem doc honest to_int r w1 p h b.shows in
      (
        w2,
        answer,
        (respond to_int r p).0,
        rw (e, handled),
        spared doc local_ip w1 w2 p _ b shows spares,
      )

  turn_lem :
      (draw now : ℕ) (packet : Option (List ℕ)) (request : Option Request) (w : Firmware S)
      (p : Panel)
      → IsOrderly to_int (turn draw now packet request)
      → IsAwake doc local_ip w p
      → (w' : Firmware S) × (loop_turn index_of local_ip lib raw to_int none draw now packet request
            w
          ≡ some (w', all_pulses (flush (served to_int request p)).1))
        × IsAwake doc local_ip w' (flush (served to_int request p)).0
  unfolding loop_turn
  turn_lem draw now packet request w p h a =
      let (f, answer, e, s) =
        handle_tick index_of local_ip w.futronix.wemo.fauxmo draw now a.searching a.ready in
      let heard = listened index_of local_ip draw now w f answer a.routed.on e in
      let (w1, reply, response, e1, b) =
        admin_lem packet request (with_fauxmo f w) p (orderly to_int draw now packet request h) (
          ticked doc local_ip f w p s.searching s.ready (ap (λ (o : Origin). o.0) s.same_origin)
            a) in
      let (c, pulses) =
        flush_at doc local_ip (served to_int request p).queued w1 (served to_int request p) refl
          b in
      ((send_queued w1).0, rw (heard, e1, pulses), c)

  event_lem :
      (e : Event) (w : Firmware S) (p : Panel)
      → IsOrderly to_int e
      → IsAwake doc local_ip w p
      → (w' : Firmware S) × (run_event lib raw to_int index_of local_ip e w
          ≡ some (w', all_pulses (observe to_int index_of e p).1))
        × IsAwake doc local_ip w' (observe to_int index_of e p).0
  unfolding run_event observe all_pulses
  event_lem (tcp k data' len) w p (few, room) a =
      let (f, effects, taken, kept, routed) =
        receive_any index_of k data' len w few a.routed room in
      let on' = is_switch index_of (c_str (set data' len 0)) in
      let q = if on' then pos k else w.scene_to_set in
      (
        record (with_fauxmo f w) { scene_to_set = q },
        rw taken,
        subst
            (λ old.
              IsAwake doc local_ip (record (with_fauxmo f w) { scene_to_set = q })
                (record p { queued = if on' then pos k else old }))
            a.shows.queue (handled_tcp doc local_ip q f w p kept routed a),
      )
  event_lem (turn draw now packet request) w p h a = turn_lem draw now packet request w p h a

  events_lem :
      (events : List Event) (w : Firmware S) (p : Panel)
      → All (IsOrderly to_int) events
      → IsAwake doc local_ip w p
      → (w' : Firmware S) × (run_events lib raw to_int index_of local_ip events w
          ≡ some (w', all_pulses (observe_all to_int index_of events p).1))
        × IsAwake doc local_ip w' (observe_all to_int index_of events p).0
  unfolding run_events observe_all all_pulses
  events_lem [] w p h a = (w, refl, a)
  events_lem (e ∷ events) w p h a =
      let (w1, e1, a1) = event_lem e w p h.0 a in
      let (w2, e2, a2) = events_lem events w1 (observe to_int index_of e p).0 h.1 a1 in
      (
        w2,
        rw (
          e1,
          e2,
          all_pulses-append (observe to_int index_of e p).1
              (observe_all to_int index_of events (observe to_int index_of e p).0).1,
        ),
        a2,
      )

  -- With a zero byte in the buffer of `getEntry` behind the record: on a begun firmware with the
  -- five scenes, a running database, a next device that exists, a packet buffer of 512 bytes, and
  -- no answer to a search left to give (or, for an address of fewer than 15 characters, UUIDs of 14
  -- characters and ports of five digits), every sequence of orders runs without a failure and
  -- leaves such a firmware: any data by TCP for one of the five devices, in blocks with room for
  -- its terminator, and turns of `loop` with any broadcast and any web request (renames of any
  -- number but 9 and the least `int`) and no search. The firmware follows the abstract view, and a
  -- receiver reads three times the command of each scene that the abstract view sends, in its
  -- order.
  pub run_events_lem :
      (events : List Event) (w : Firmware S) (p : Panel)
      → All (IsOrderly to_int) events
      → IsAwake doc local_ip w p
      → let (p', scenes) = observe_all to_int index_of events p in
        (w' : Firmware S) × (pulses : List Pulse) × (run_events lib raw to_int index_of local_ip
            events w
          ≡ some (w', pulses))
        × IsAwake doc local_ip w' p'
        × (receive_times (length (thrice scenes)) pulses ≡ some (thrice scenes, []))
  run_events_lem events w p h a =
      let (w', e, a') = events_lem events w p h a in
      let scenes = (observe_all to_int index_of events p).1 in
      (w', all_pulses scenes, e, a', receive_times-all_pulses scenes)
