-- ===== src/Rtos/MqttTask/Contexts.antt =====
-- What mqtt_task does to the contexts of its SSLConnection.
use futronix_alexa.Base.{
  ◌≡◌, ap, Bool, true, false, some, List, [], ◌∷◌, ◌++◌, Option-cases, inl, inr, arith,
}
use futronix_alexa.Rtos.Ssl.{SslCodes}
use futronix_alexa.Rtos.Ssl.Contexts.{
  ContextCall, init_contexts, destroy_contexts, call, call_all, call_all-append, all_or_none,
}
use futronix_alexa.Rtos.MqttTask.{Action, ssl_init, ssl_destroy, Round, mqtt_run}
use futronix_alexa.Rtos.MqttTask.Protocol.{
  Link, closed, ready, secured, talking, refused, step, follow, mqtt_run_lem,
}

-- The calls that an action of mqtt_task makes, and those of its actions.
abbrev pub calls_of : Action → List ContextCall
calls_of ssl_init = init_contexts
calls_of ssl_destroy = destroy_contexts
calls_of _ = []

unfoldable pub all_calls : List Action → List ContextCall
all_calls [] = []
all_calls (a ∷ more) = calls_of a ++ all_calls more

abbrev is_linked : Link → Bool
is_linked closed = false
is_linked _ = true

-- A step of the protocol uses the contexts as it should.
calls_of-step :
    (k k' : Link) (a : Action)
    → step k a ≡ some k'
    → call_all (calls_of a) (all_or_none (is_linked k)) ≡ some (all_or_none (is_linked k'))
unfolding step call call_all
calls_of-step closed k' a h = ground (arith, h)
calls_of-step ready k' a h = ground (arith, h)
calls_of-step secured k' a h = ground (arith, h)
calls_of-step talking k' a h = ground (arith, h)
calls_of-step refused k' a h = ground (arith, h)

all_calls-follow :
    (actions : List Action) (k k' : Link)
    → follow k actions ≡ some k'
    → call_all (all_calls actions) (all_or_none (is_linked k)) ≡ some (all_or_none (is_linked k'))
unfolding follow all_calls
all_calls-follow [] k k' h = unfold call_all in cc h
all_calls-follow (a ∷ more) k k' h = elim (Option-cases (step k a)) [
  | inl e ↦ cc (h, e)
  | inr (mid, e) ↦
      rw
        (
          call_all-append (calls_of a) (all_calls more) (all_or_none (is_linked k)),
          calls_of-step k mid a e,
        )
        (all_calls-follow more mid k' (cc (h, e)))
]

-- Whatever the libraries, the Wifi and the queue do, and however many connections `mqtt_task`
-- makes: each of the eight contexts of the TLS library is initialised by `ssl_init` only while it
-- is not in use, and freed by `ssl_destroy` only while it is. When all rounds have finished, none
-- is in use.
pub mqtt_contexts_lem :
    (c : SslCodes) (rounds : List Round) (ssl_reset : Bool)
    → let s = mqtt_run c rounds ssl_reset in
      (b : Bool) × (call_all (all_calls s.actions) (all_or_none false) ≡ some (all_or_none b))
      × (s.finished ≡ true → b ≡ false)
mqtt_contexts_lem c rounds ssl_reset =
    let (k, kept, over) = mqtt_run_lem c rounds ssl_reset in
    (
      is_linked k,
      all_calls-follow (mqtt_run c rounds ssl_reset).actions closed k kept,
      λ e. ap is_linked (over e),
    )
