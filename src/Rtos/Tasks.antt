-- ===== src/Rtos/Tasks.antt =====
-- `wifi_task` and `mqtt_task` of RTOS/futronix-alexa-rtos/aws_iot.c together: the global `wifi_alive`
-- goes from the one to the other.
use futronix_alexa.Base.{
  ℕ, suc, ◌+◌, ◌≡◌, ◌≤◌, refl, ap, sym, ◌∙◌, subst, Bool, true, false, not, ◌&&◌, some, List, [],
  ◌∷◌, ◌++◌, length, arith, if◌then◌else◌, if_false,
}
use futronix_alexa.Rtos.Ssl.{SslCodes}
use futronix_alexa.Rtos.WifiTask.{Status, is_got_ip, WifiTask, run_wifi, start_wifi}
use futronix_alexa.Rtos.WifiTask.Alive.{IsSound, start_wifi-IsSound, run_wifi-from, run_wifi_down}
use futronix_alexa.Rtos.MqttTask.{
  Action, mqtt_yield, ssl_init, ssl_connected, mqtt_connected, mqtt_subscribe, queue_reset,
  mqtt_publish, ssl_destroy, wait, Item, Transfer, Turn, Session, Stretch, publish_loop,
  after as following, turn_loop, transfer, talk,
}
use futronix_alexa.Rtos.MqttTask.Protocol.{talking, closed, follow, talk-Keeps}

-- A turn of the inner loop of `mqtt_task`, with the polls that `wifi_task` makes before its test.
pub record Tick : Type 0 where
  pub polls : List Status
  pub items : List Item
  pub transfers : List Transfer
  pub disconnected : Bool

-- The turns as `mqtt_task` sees them.
pub turns_of : WifiTask → List Tick → List Turn
turns_of t [] = []
turns_of t (k ∷ ks) =
    let t' = run_wifi k.polls t in
    record {
      wifi_alive = t'.wifi_alive;
      items = k.items;
      transfers = k.transfers;
      disconnected = k.disconnected;
    }
    ∷ turns_of t' ks

-- The calls of mqtt_yield.
pub yields : List Action → ℕ
yields [] = 0
yields (mqtt_yield ∷ more) = suc (yields more)
yields (ssl_init ∷ more) = yields more
yields (ssl_connected b ∷ more) = yields more
yields (mqtt_connected b ∷ more) = yields more
yields (mqtt_subscribe ∷ more) = yields more
yields (queue_reset ∷ more) = yields more
yields (mqtt_publish m ∷ more) = yields more
yields (ssl_destroy ∷ more) = yields more
yields (wait ∷ more) = yields more

yields-append : (xs ys : List Action) → yields (xs ++ ys) ≡ yields xs + yields ys
unfolding yields
yields-append [] ys = omega arith
yields-append (mqtt_yield ∷ xs) ys = omega (arith, yields-append xs ys)
yields-append (ssl_init ∷ xs) ys = yields-append xs ys
yields-append (ssl_connected b ∷ xs) ys = yields-append xs ys
yields-append (mqtt_connected b ∷ xs) ys = yields-append xs ys
yields-append (mqtt_subscribe ∷ xs) ys = yields-append xs ys
yields-append (queue_reset ∷ xs) ys = yields-append xs ys
yields-append (mqtt_publish m ∷ xs) ys = yields-append xs ys
yields-append (ssl_destroy ∷ xs) ys = yields-append xs ys
yields-append (wait ∷ xs) ys = yields-append xs ys

yields-publish_loop :
    (c : SslCodes) (items : List Item) (reset : Bool) → yields (publish_loop c items reset).0 ≡ 0
unfolding yields publish_loop
yields-publish_loop c [] reset = refl
yields-publish_loop c (i ∷ items) reset = yields-publish_loop c items (transfer c i.transfers reset)

no_wifi : (a b : Bool) → a ≡ false → (a && b) ≡ false
no_wifi a b e = rw e

-- A turn that the Wifi has left.
loop_left :
    (c : SslCodes) (t : Turn) (turns : List Turn) (reset : Bool)
    → t.wifi_alive ≡ false
    → turn_loop c (t ∷ turns) reset ≡ record { actions = []; ssl_reset = reset; finished = true }
unfolding turn_loop
loop_left c t turns reset e = if_false _ _ (no_wifi t.wifi_alive (not reset) e)

-- The loop has ended, after at most `n` calls of mqtt_yield.
record EndsWithin (n : ℕ) (s : Stretch) : Type 0 where
  ends : s.finished ≡ true
  few : yields s.actions ≤ n

EndsWithin-stop :
    (n : ℕ) (reset : Bool)
    → EndsWithin n (record { actions = []; ssl_reset = reset; finished = true })
unfolding yields
EndsWithin-stop n reset = record { ends = refl; few = omega arith }

EndsWithin-if :
    (n : ℕ) (b : Bool) {x y : Stretch}
    → EndsWithin n x
    → EndsWithin n y
    → EndsWithin n (if b then x else y)
EndsWithin-if n true h k = h
EndsWithin-if n false h k = k

-- Actions with one call of mqtt_yield in front.
EndsWithin-after :
    (n : ℕ) (xs : List Action) (s : Stretch)
    → yields xs ≡ 1
    → EndsWithin n s
    → EndsWithin (suc n) (following xs s)
EndsWithin-after n xs s e h = record {
  ends = h.ends;
  few = omega (arith, yields-append xs s.actions, h.few, e);
}

one_yield :
    (c : SslCodes) (items : List Item) (reset : Bool)
    → yields ((publish_loop c items reset).0 ++ mqtt_yield ∷ []) ≡ 1
unfolding yields
one_yield c items reset =
    yields-append (publish_loop c items reset).0 (mqtt_yield ∷ [])
    ∙ ap (λ n. n + 1) (yields-publish_loop c items reset)

loop_ends :
    (c : SslCodes) (before after : List Tick) (lost : Tick) (ps : List Status) (s : Status)
    (t : WifiTask) (reset : Bool)
    → IsSound t
    → lost.polls ≡ ps ++ s ∷ []
    → is_got_ip s ≡ false
    → EndsWithin (length before) (turn_loop c (turns_of t (before ++ lost ∷ after)) reset)
unfolding turns_of turn_loop
loop_ends c [] after lost ps s t reset sound e down =
    subst (EndsWithin 0)
      (sym (
        loop_left c _ (turns_of (run_wifi lost.polls t) after) reset (
          ap (λ (l : List Status). (run_wifi l t).wifi_alive) e ∙ run_wifi_down ps s t sound down)))
      (EndsWithin-stop 0 reset)
loop_ends c (k ∷ before) after lost ps s t reset sound e down =
    EndsWithin-if (suc (length before)) _
      (EndsWithin-after (length before) _ _ (one_yield c k.items reset) (
        EndsWithin-if (length before) k.disconnected (EndsWithin-stop (length before) _) (
          loop_ends c before after lost ps s (run_wifi k.polls t) _ (run_wifi-from k.polls t sound)
            e down)))
      (EndsWithin-stop (suc (length before)) reset)

talk_yields :
    (xs : List Action)
    → yields (mqtt_subscribe ∷ queue_reset ∷ (xs ++ ssl_destroy ∷ [])) ≡ yields xs
unfolding yields
talk_yields xs = omega (arith, yields-append xs (ssl_destroy ∷ []))

-- With the turns that `wifi_task` makes, from any polls before on: when the radio reports no
-- connection at the last poll before a turn, then, whatever happens in the turns around it, the
-- session has ended by that turn, after at most one mqtt_yield for each turn before it, and its
-- connection is destroyed.
pub talk_ends :
    (c : SslCodes) (s : Session) (seen : List Status) (before after : List Tick) (lost : Tick)
    (ps : List Status) (st : Status) (reset : Bool)
    → s.turns ≡ turns_of (run_wifi seen start_wifi) (before ++ lost ∷ after)
    → lost.polls ≡ ps ++ st ∷ []
    → is_got_ip st ≡ false
    → let r = talk c s reset in
      (r.finished ≡ true)
      × (yields r.actions ≤ length before)
      × (follow talking r.actions ≡ some closed)
unfolding talk
talk_ends c s seen before after lost ps st reset turns e down =
    let sound = run_wifi-from seen start_wifi start_wifi-IsSound in
    let reset' = transfer c s.subscribe_transfers reset in
    let ended =
      subst (λ ts. EndsWithin (length before) (turn_loop c ts reset')) (sym turns)
        (loop_ends c before after lost ps st (run_wifi seen start_wifi) reset' sound e down) in
    let k = talk-Keeps c s reset in
    (
      ended.ends,
      rw ended.ends (omega (arith, talk_yields (turn_loop c s.turns reset').actions, ended.few)),
      k.kept ∙ ap some (k.arrives ended.ends),
    )
