-- ===== src/Rtos/MqttTask/Protocol.antt =====
-- The order of the calls that `mqtt_task` makes.
use futronix_alexa.Base.{
  ◌≡◌, refl, ap, sym, ◌∙◌, Bool, true, false, Option, some, none, List, [], ◌∷◌, ◌++◌, ◌>>=◌,
  Bool-cases, inl, inr, if◌then◌else◌, if_false, subst, Option-cases,
}
use futronix_alexa.Rtos.Ssl.{SslCodes, is_zero, ssl_connect}
use futronix_alexa.Rtos.MqttTask.{
  Action, ssl_init, ssl_connected, mqtt_connected, mqtt_subscribe, queue_reset, mqtt_publish,
  mqtt_yield, ssl_destroy, wait, Item, Turn, Session, Round, down, up, Stretch, after, publish_loop,
  turn_loop, talk, log_in, mqtt_session, mqtt_round, mqtt_run,
}

-- The state of the connection: none; initialised; over TLS; with MQTT; refused on one of the two layers.
pub data Link : Type 0 where
  closed ready secured talking refused : Link

-- What an action does to it. There is no other action in a state.
unfoldable pub step : Link → Action → Option Link
step closed wait = some closed
step closed ssl_init = some ready
step ready (ssl_connected true) = some secured
step ready (ssl_connected false) = some refused
step secured (mqtt_connected true) = some talking
step secured (mqtt_connected false) = some refused
step talking mqtt_subscribe = some talking
step talking queue_reset = some talking
step talking (mqtt_publish m) = some talking
step talking mqtt_yield = some talking
step talking ssl_destroy = some closed
step refused ssl_destroy = some closed
step _ _ = none

unfoldable pub follow : Link → List Action → Option Link
follow k [] = some k
follow k (a ∷ more) = step k a >>= λ k'. follow k' more

follow-append :
    (k : Link) (xs ys : List Action) → follow k (xs ++ ys) ≡ (follow k xs >>= λ k'. follow k' ys)
unfolding follow
follow-append k [] ys = refl
follow-append k (x ∷ xs) ys = elim (Option-cases (step k x)) [
  | inl e ↦ rw e
  | inr (k', e) ↦ rw e (follow-append k' xs ys)
]

-- A stretch keeps to the steps from a state on, and ends in another one if it is finished.
pub record Keeps (from to : Link) (s : Stretch) : Type 0 where
  pub end : Link
  pub kept : follow from s.actions ≡ some end
  pub arrives : s.finished ≡ true → end ≡ to

publish_loop-follow :
    (c : SslCodes) (items : List Item) (reset : Bool)
    → follow talking (publish_loop c items reset).0 ≡ some talking
unfolding publish_loop follow step
publish_loop-follow c [] reset = refl
publish_loop-follow c (i ∷ items) reset = publish_loop-follow c items _

-- What follows actions that keep to the steps.
Keeps-after :
    (from mid to : Link) (xs : List Action) (s : Stretch)
    → follow from xs ≡ some mid
    → Keeps mid to s
    → Keeps from to (after xs s)
Keeps-after from mid to xs s e k = record {
  end = k.end;
  kept = rw (follow-append from xs s.actions, e) k.kept;
  arrives = k.arrives;
}

Keeps-if :
    (from to : Link) (b : Bool) {x y : Stretch}
    → Keeps from to x
    → Keeps from to y
    → Keeps from to (if b then x else y)
Keeps-if from to true k l = k
Keeps-if from to false k l = l

Keeps-nothing :
    (k : Link) (reset finished : Bool)
    → Keeps k k (record { actions = []; ssl_reset = reset; finished = finished })
unfolding follow
Keeps-nothing k reset finished = record { end = k; kept = refl; arrives = λ _. refl }

publish_yield :
    (c : SslCodes) (items : List Item) (reset : Bool)
    → follow talking ((publish_loop c items reset).0 ++ mqtt_yield ∷ []) ≡ some talking
publish_yield c items reset =
    rw
      (
        follow-append talking (publish_loop c items reset).0 (mqtt_yield ∷ []),
        publish_loop-follow c items reset,
      )
      (unfold follow step in refl)

turn_loop-Keeps :
    (c : SslCodes) (turns : List Turn) (reset : Bool)
    → Keeps talking talking (turn_loop c turns reset)
unfolding turn_loop
turn_loop-Keeps c [] reset = Keeps-nothing talking reset false
turn_loop-Keeps c (t ∷ turns) reset =
    Keeps-if talking talking _
      (Keeps-after talking talking talking _ _ (publish_yield c t.items reset) (
        Keeps-if talking talking t.disconnected (Keeps-nothing talking _ true)
          (turn_loop-Keeps c turns _)))
      (Keeps-nothing talking reset true)

-- The loop and the end of the connection behind it.
closing :
    (s : Stretch)
    → Keeps talking talking s
    → Keeps talking closed
        (record s { actions = s.actions ++ (if s.finished then ssl_destroy ∷ [] else []) })
closing s k = elim (Bool-cases s.finished) [
  | inl over ↦ record {
    end = closed;
    kept =
        rw (over, follow-append talking s.actions (ssl_destroy ∷ []), k.kept, k.arrives over)
          (unfold follow step in refl);
    arrives = λ _. refl;
  }
  | inr running ↦ record {
    end = k.end;
    kept = rw (running, follow-append talking s.actions [], k.kept) (unfold follow in refl);
    arrives = λ e. absurd (cc (e, running));
  }
]

pub talk-Keeps : (c : SslCodes) (s : Session) (reset : Bool) → Keeps talking closed (talk c s reset)
unfolding talk follow step
talk-Keeps c s reset =
    Keeps-after talking talking closed (mqtt_subscribe ∷ queue_reset ∷ []) _ refl
      (closing _ (turn_loop-Keeps c s.turns _))

log_in-Keeps : (c : SslCodes) (s : Session) (reset : Bool) → Keeps secured closed (log_in c s reset)
unfolding log_in follow step
log_in-Keeps c s reset =
    Keeps-if secured closed (is_zero s.connect_result)
      (Keeps-after secured talking closed (mqtt_connected true ∷ []) _ refl (talk-Keeps c s _))
      (record { end = closed; kept = refl; arrives = λ _. refl })

mqtt_session-Keeps :
    (c : SslCodes) (s : Session) (reset : Bool) → Keeps closed closed (mqtt_session c s reset)
unfolding mqtt_session follow step
mqtt_session-Keeps c s reset = elim (Option-cases (ssl_connect c s.answers)) [
  | inl hangs ↦ rw hangs (record { end = ready; kept = refl; arrives = λ e. absurd (cc e) })
  | inr (ret, e) ↦ rw e (
      Keeps-after closed ready closed (ssl_init ∷ []) _ refl (
        Keeps-if ready closed (is_zero ret)
          (Keeps-after ready secured closed (ssl_connected true ∷ []) _ refl
            (log_in-Keeps c s false))
          (record { end = closed; kept = refl; arrives = λ _. refl })))
]

mqtt_round-Keeps :
    (c : SslCodes) (r : Round) (reset : Bool) → Keeps closed closed (mqtt_round c r reset)
unfolding mqtt_round follow step
mqtt_round-Keeps c down reset = record { end = closed; kept = refl; arrives = λ _. refl }
mqtt_round-Keeps c (up s) reset = mqtt_session-Keeps c s reset

mqtt_run-Keeps :
    (c : SslCodes) (rounds : List Round) (reset : Bool)
    → Keeps closed closed (mqtt_run c rounds reset)
unfolding mqtt_run
mqtt_run-Keeps c [] reset = Keeps-nothing closed reset true
mqtt_run-Keeps c (r ∷ rounds) reset =
    let first = mqtt_round c r reset in
    let k = mqtt_round-Keeps c r reset in
    let rest = mqtt_run-Keeps c rounds first.ssl_reset in
    elim (Bool-cases first.finished) [
      | inl over ↦ rw over (
          Keeps-after closed closed closed first.actions (mqtt_run c rounds first.ssl_reset)
            (k.kept ∙ ap some (k.arrives over)) rest)
      | inr running ↦ subst (Keeps closed closed) (sym (if_false _ _ running)) k
    ]

-- Whatever the libraries, the Wifi and the queue do: a connection is initialised only when there is
-- none, MQTT is spoken only over an accepted TLS connection, messages are published only after an
-- accepted MQTT connection, and each connection is destroyed exactly once, before the next one.
-- When all rounds have finished, none is left.
pub mqtt_run_lem :
    (c : SslCodes) (rounds : List Round) (ssl_reset : Bool)
    → let s = mqtt_run c rounds ssl_reset in
      (k : Link) × (follow closed s.actions ≡ some k) × (s.finished ≡ true → k ≡ closed)
mqtt_run_lem c rounds ssl_reset =
    let k = mqtt_run-Keeps c rounds ssl_reset in (k.end, k.kept, k.arrives)
