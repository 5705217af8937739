-- ===== src/Aws/Clients.antt =====
-- The clients that AwsManager makes, and what it sends by them.
use mathlib.Core.List.{append-nil, append_assoc}
use futronix_alexa.Base.{
  ℕ, suc, ◌+◌, ◌%◌, ◌≡◌, ◌≤◌, ◌<◌, refl, ap, subst, sym, ◌∙◌, Bool, true, false, ◌&&◌, Option, some,
  none, List, [], ◌∷◌, ◌++◌, All, length, splice, splice_zero, splice-set, splice-nil, length-set,
  set, drop, replicate, store-some, HasNoZero, c_str, c_str-append_zero, ◌==◌, eq_ℤ, pos, ◌>>=◌,
  if◌then◌else◌, arith, Bool-cases, inl, inr, Option-cases, ==_refl,
}
use futronix_alexa.Aws.{
  AwsManager, Action, new_client, delete_client, disconnect, mqtt_connect, subscribe, publish,
  id_loop, generate_client_id, Answers, renew_client, connect_aws, subscribe_aws, send_message,
  connect_and_listen, aws_message,
}

-- A number that random(1, 256) gives.
abbrev pub IsDrawn : ℕ → Type 0
IsDrawn r = (0 < r) × (r < 256)

id_loop_lem :
    (rands : List ℕ) (i : ℕ) (id : List ℕ)
    → All IsDrawn rands
    → i + length rands ≤ length id
    → id_loop (length rands) i rands id ≡ some (splice id i rands)
unfolding id_loop
id_loop_lem [] i id h k = ap some (sym (splice-nil id i))
id_loop_lem (r ∷ rands) i id h k =
    let small : r % 256 ≡ r = omega (arith, h.0.1) in
    rw (small, store-some id i r (omega arith))
      (id_loop_lem rands (suc i) (set id i r) h.1 (omega (arith, length-set id i r))
        ∙ ap some (splice-set id i r rands))

drawn-HasNoZero : (rands : List ℕ) → All IsDrawn rands → HasNoZero rands
drawn-HasNoZero [] h = tt
drawn-HasNoZero (r ∷ rands) h = (λ e. absurd (omega (arith, e, h.0)), drawn-HasNoZero rands h.1)

-- `generateClientID` gives a C string of the 22 drawn characters.
pub generate_client_id_lem :
    (rands : List ℕ)
    → All IsDrawn rands
    → length rands ≡ 22
    → (generate_client_id rands ≡ some (rands ++ 0 ∷ [])) × (c_str (rands ++ 0 ∷ []) ≡ rands)
unfolding generate_client_id
generate_client_id_lem rands h k = (
  subst (λ n. id_loop n 0 rands (replicate 23 0) ≡ some (rands ++ 0 ∷ [])) k
      (id_loop_lem rands 0 (replicate 23 0) h (omega arith)
        ∙ ap some (
            splice_zero (replicate 23 0) rands (omega arith)
            ∙ ap (λ n. rands ++ drop n (replicate 23 0)) k)),
  c_str-append_zero rands [] (drawn-HasNoZero rands h),
)

-- What an action does to the client that is alive, if any: there is never a second one, and no call is
-- made on a client that is not alive.
pub live_step : Option ℕ → Action → Option (Option ℕ)
live_step none (new_client n) = some (some n)
live_step (some m) (delete_client n) = if m == n then some none else none
live_step (some m) (disconnect n) = if m == n then some (some m) else none
live_step (some m) (mqtt_connect n id) = if m == n then some (some m) else none
live_step (some m) (subscribe n) = if m == n then some (some m) else none
live_step (some m) (publish n text) = if m == n then some (some m) else none
live_step _ _ = none

pub live : Option ℕ → List Action → Option (Option ℕ)
live k [] = some k
live k (a ∷ more) = live_step k a >>= λ k'. live k' more

-- The texts that are published.
pub published : List Action → List (List ℕ)
published [] = []
published (publish n text ∷ more) = text ∷ published more
published (new_client n ∷ more) = published more
published (delete_client n ∷ more) = published more
published (disconnect n ∷ more) = published more
published (mqtt_connect n id ∷ more) = published more
published (subscribe n ∷ more) = published more

live-append :
    (k : Option ℕ) (xs ys : List Action) → live k (xs ++ ys) ≡ (live k xs >>= λ k'. live k' ys)
unfolding live
live-append k [] ys = refl
live-append k (x ∷ xs) ys = elim (Option-cases (live_step k x)) [
  | inl e ↦ rw e
  | inr (k', e) ↦ rw e (live-append k' xs ys)
]

published-append : (xs ys : List Action) → published (xs ++ ys) ≡ published xs ++ published ys
unfolding published
published-append [] ys = refl
published-append (new_client n ∷ xs) ys = published-append xs ys
published-append (delete_client n ∷ xs) ys = published-append xs ys
published-append (disconnect n ∷ xs) ys = published-append xs ys
published-append (mqtt_connect n id ∷ xs) ys = published-append xs ys
published-append (subscribe n ∷ xs) ys = published-append xs ys
published-append (publish n text ∷ xs) ys = ap (◌∷◌ text) (published-append xs ys)

renew_client_lem :
    (fresh : ℕ) (is_connected : Bool) (a : AwsManager)
    → (live a.mqtt_client (renew_client fresh is_connected a).1 ≡ some (some fresh))
      × (published (renew_client fresh is_connected a).1 ≡ [])
unfolding renew_client live live_step published
renew_client_lem fresh is_connected a = elim (Option-cases a.mqtt_client) [
  | inl e ↦ rw e (refl, refl)
  | inr (m, e) ↦ rw e (ground (arith, ==_refl m))
]

-- What follows the making of the client.
tail_of : ℕ → Bool → Bool → List ℕ → List Action
tail_of fresh up accepted id =
    if up
    then mqtt_connect fresh id
      ∷ (if accepted then subscribe fresh ∷ publish fresh (aws_message ++ 0 ∷ []) ∷ [] else [])
    else []

tail_of_lem :
    (fresh : ℕ) (up accepted : Bool) (id : List ℕ)
    → (live (some fresh) (tail_of fresh up accepted id) ≡ some (some fresh))
      × (published (tail_of fresh up accepted id)
          ≡ (if up && accepted then (aws_message ++ 0 ∷ []) ∷ [] else []))
unfolding tail_of live live_step published
tail_of_lem fresh true true id = (ground (arith, ==_refl fresh), refl)
tail_of_lem fresh true false id = (ground (arith, ==_refl fresh), refl)
tail_of_lem fresh false accepted id = (refl, refl)

subscribe_aws_lem :
    (n : ℕ) (a : AwsManager) → a.mqtt_client ≡ some n → subscribe_aws a ≡ some (subscribe n ∷ [])
unfolding subscribe_aws
subscribe_aws_lem n a e = rw e

send_message_lem :
    (n : ℕ) (a : AwsManager)
    → a.mqtt_client ≡ some n
    → send_message a ≡ some (publish n (aws_message ++ 0 ∷ []) ∷ [])
unfolding send_message aws_message
send_message_lem n a e = rw e

connect_and_listen_tail :
    (fresh : ℕ) (x : Answers) (a : AwsManager)
    → All IsDrawn x.rands
    → length x.rands ≡ 22
    → let (a', actions) = renew_client fresh x.is_connected a in
      connect_and_listen fresh x a
      ≡ some (
        a',
        actions ++ tail_of fresh (eq_ℤ x.ip_result (pos 1)) (eq_ℤ x.mqtt_result (pos 0)) x.rands,
      )
unfolding connect_and_listen connect_aws tail_of
connect_and_listen_tail fresh x a h k =
    let (a', actions) = renew_client fresh x.is_connected a in
    let (id, text) = generate_client_id_lem x.rands h k in
    elim (Bool-cases (eq_ℤ x.ip_result (pos 1))) [
      | inl up ↦ elim (Bool-cases (eq_ℤ x.mqtt_result (pos 0))) [
        | inl accepted ↦
            rw (up, accepted, id, text)
              (rw
                (
                  subscribe_aws_lem fresh a' (unfold renew_client in refl),
                  send_message_lem fresh a' (unfold renew_client in refl),
                )
                (ap (λ l. some (a', l)) (append_assoc actions (mqtt_connect fresh x.rands ∷ []) _)))
        | inr rejected ↦ rw (up, rejected, id, text) refl
      ]
      | inr down ↦ rw (down, append-nil actions)
    ]

-- `connectAndListen`, with 22 random numbers from 1 to 255, never writes outside a buffer. Whatever
-- the outside answers, the old client is deleted before the new one is made, and after it only the
-- new one is alive and used. The message is published, with its terminator, exactly if both
-- connections succeed.
pub connect_and_listen_lem :
    (fresh : ℕ) (x : Answers) (a : AwsManager)
    → All IsDrawn x.rands
    → length x.rands ≡ 22
    → (a' : AwsManager) × (actions : List Action) × (connect_and_listen fresh x a
        ≡ some (a', actions))
      × (a'.mqtt_client ≡ some fresh)
      × (live a.mqtt_client actions ≡ some (some fresh))
      × (published actions ≡ (
          if eq_ℤ x.ip_result (pos 1) && eq_ℤ x.mqtt_result (pos 0)
          then (aws_message ++ 0 ∷ []) ∷ []
          else []))
connect_and_listen_lem fresh x a h k =
    let (a', actions) = renew_client fresh x.is_connected a in
    let (alive, silent) = renew_client_lem fresh x.is_connected a in
    let more = tail_of fresh (eq_ℤ x.ip_result (pos 1)) (eq_ℤ x.mqtt_result (pos 0)) x.rands in
    let (kept, sent) =
      tail_of_lem fresh (eq_ℤ x.ip_result (pos 1)) (eq_ℤ x.mqtt_result (pos 0)) x.rands in
    (
      a',
      actions ++ more,
      connect_and_listen_tail fresh x a h k,
      unfold renew_client in refl,
      rw (live-append a.mqtt_client actions more, alive) kept,
      rw (published-append actions more, silent) sent,
    )
