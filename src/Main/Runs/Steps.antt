-- ===== src/Main/Runs/Steps.antt =====
-- The parts of a turn of `loop`, as steps of the abstract view.
use mathlib.Core.List.{append-nil}
use futronix_alexa.Base.{
  arith, ℕ, ◌≡◌, refl, sym, ap, subst, ◌∙◌, Option, some, none, List, take, length, map, ℤ, pos,
  negsuc, inl, inr, replicate,
}
use futronix_alexa.Eeprom.Api.{Eeprom, Documented}
use futronix_alexa.Command.{set_scene}
use futronix_alexa.Wemo.Fauxmo.{Device, Fauxmo}
use futronix_alexa.Wemo.Fauxmo.Rounds.{IsSearching}
use futronix_alexa.Wemo.Fauxmo.Searches.{CanReply}
use futronix_alexa.Wemo.Emulator.{WemoEmulator}
use futronix_alexa.Wemo.Emulator.Routes.{IsRouted}
use futronix_alexa.App.{set_current_scene}
use futronix_alexa.App.Servers.{scene_routes}
use futronix_alexa.Admin.{Firmware, answer_broadcast}
use futronix_alexa.Admin.Broadcast.{answer_to, answer_broadcast_lem}
use futronix_alexa.Admin.Requests.{Panel, Shows, Spares}
use futronix_alexa.Main.{with_fauxmo, send_queued}
use futronix_alexa.Main.Runs.{flush, all_pulses}
use futronix_alexa.Main.Handlers.{Keeps}

pub broadcast_lem :
    (buffer : List ℕ) (packet : Option (List ℕ))
    → length buffer ≡ 512
    → (buffer' : List ℕ) × (answer : Option (List ℕ)) × (answer_broadcast buffer packet
        ≡ some (buffer', answer))
      × (length buffer' ≡ 512)
unfolding answer_broadcast
broadcast_lem buffer none h = (buffer, none, refl, h)
broadcast_lem buffer (some packet) h =
    let (buffer', e, size) = answer_broadcast_lem buffer packet h in
    (buffer', answer_to (take 255 packet), e, size)

-- The TCP handler leaves the replies as they are.
Keeps-CanReply :
    (local_ip : List ℕ) (f f' : Fauxmo) → Keeps f f' → CanReply local_ip f → CanReply local_ip f'
Keeps-CanReply local_ip f f' k (inl over) = inl (k.same_rounds ∙ over)
Keeps-CanReply local_ip f f' k (inr (short, i)) = inr (
  short,
  record {
    uuids = k.same_sizes ∙ i.uuids ∙ ap (λ n. replicate n 14) (sym k.same_length);
    low = omega (arith, k.same_port, i.low);
    high = omega (arith, k.same_port, k.same_length, i.high);
  },
)

module _ {S : Type 0} {lib : Eeprom S} (doc : Documented lib) (local_ip : List ℕ) where
  -- A begun firmware with the five scenes, which looks like `p`, on a chip with this address.
  pub record IsAwake (w : Firmware S) (p : Panel) : Type 0 where
    pub shows : Shows doc w p
    pub routed : IsRouted w.futronix.wemo (scene_routes 5 0)
    pub searching : IsSearching w.futronix.wemo.fauxmo
    pub ready : CanReply local_ip w.futronix.wemo.fauxmo
    pub buffer : length w.packet_buffer ≡ 512

  pub flush_at :
      (q : ℤ) (w : Firmware S) (p : Panel)
      → p.queued ≡ q
      → IsAwake w p
      → IsAwake (send_queued w).0 (flush p).0 × ((send_queued w).1 ≡ all_pulses (flush p).1)
  unfolding send_queued set_current_scene all_pulses
  flush_at (pos n) w p e a =
      rw (a.shows.queue, e)
        (
          record {
            shows = record { stored = a.shows.stored; queue = refl; now = refl };
            routed = a.routed;
            searching = a.searching;
            ready = a.ready;
            buffer = a.buffer;
          },
          sym (append-nil (set_scene (pos n))),
        )
  flush_at (negsuc n) w p e a =
      rw (a.shows.queue, e)
        (
          record {
            shows = record { stored = a.shows.stored; queue = refl; now = a.shows.now };
            routed = a.routed;
            searching = a.searching;
            ready = a.ready;
            buffer = a.buffer;
          },
          refl,
        )

  pub ticked :
      (f : Fauxmo) (w : Firmware S) (p : Panel)
      → IsSearching f
      → CanReply local_ip f
      → f.devices ≡ w.futronix.wemo.fauxmo.devices
      → IsAwake w p
      → IsAwake (with_fauxmo f w) p
  ticked f w p h c e a = record {
    shows = record { stored = a.shows.stored; queue = a.shows.queue; now = a.shows.now };
    routed = record {
      on = a.routed.on;
      named = ap (map (λ (d : Device). d.name)) e ∙ a.routed.named;
      identified = ap (map (λ (d : Device). length d.uuid)) e ∙ a.routed.identified;
      counted = a.routed.counted;
      handled = a.routed.handled;
      room = a.routed.room;
    };
    searching = h;
    ready = c;
    buffer = a.buffer;
  }

  pub handled_tcp :
      (q : ℤ) (f : Fauxmo) (w : Firmware S) (p : Panel)
      → Keeps w.futronix.wemo.fauxmo f
      → IsRouted (with_fauxmo f w).futronix.wemo (scene_routes 5 0)
      → IsAwake w p
      → IsAwake (record (with_fauxmo f w) { scene_to_set = q }) (record p { queued = q })
  handled_tcp q f w p k r a = record {
    shows = record { stored = a.shows.stored; queue = refl; now = a.shows.now };
    routed = r;
    searching = record {
      inside = omega (arith, k.same_current, k.same_length, a.searching.inside);
    };
    ready = Keeps-CanReply local_ip w.futronix.wemo.fauxmo f k a.ready;
    buffer = a.buffer;
  }

  pub buffered :
      (bytes : List ℕ) (w : Firmware S) (p : Panel)
      → length bytes ≡ 512
      → IsAwake w p
      → IsAwake (record w { packet_buffer = bytes }) p
  buffered bytes w p h a = record {
    shows = record { stored = a.shows.stored; queue = a.shows.queue; now = a.shows.now };
    routed = a.routed;
    searching = a.searching;
    ready = a.ready;
    buffer = h;
  }

  pub spared :
      (w w' : Firmware S) (p p' : Panel)
      → IsAwake w p
      → Shows doc w' p'
      → Spares w w'
      → IsAwake w' p'
  spared w w' p p' a shows s = record {
    shows = shows;
    routed = subst (λ x. IsRouted x (scene_routes 5 0)) (sym s.same_wemo) a.routed;
    searching = subst (λ (x : WemoEmulator). IsSearching x.fauxmo) (sym s.same_wemo) a.searching;
    ready = subst (λ (x : WemoEmulator). CanReply local_ip x.fauxmo) (sym s.same_wemo) a.ready;
    buffer = ap length s.same_buffer ∙ a.buffer;
  }
