-- ===== src/Rtos/Ssl/Connect.antt =====
-- When `ssl_connect` succeeds, and when it does not come back.
use futronix_alexa.Base.{
  ◌≡◌, ◌≢◌, ◌↔◌, ◌⊎◌, inl, inr, refl, ap, sym, some_inj, ◌∙◌, Bool-cases, Option-cases, true, false,
  some, none, List, [], ◌∷◌, All, ℤ, pos, negsuc, eq_ℤ, arith,
}
use futronix_alexa.Rtos.Ssl.{
  SslCodes, Answers, is_negative, handshake_loop, finish_connect, ssl_connect,
}

eq_ℤ_iff : (a b : ℤ) → (eq_ℤ a b ≡ true) ↔ (a ≡ b)
eq_ℤ_iff (pos a) (pos b) = ground arith
eq_ℤ_iff (pos a) (negsuc b) = ground arith
eq_ℤ_iff (negsuc a) (pos b) = ground arith
eq_ℤ_iff (negsuc a) (negsuc b) = ground arith

-- The code for a refused certificate is an error, and not one of the two that ask to go on.
pub record IsDistinct (c : SslCodes) : Type 0 where
  pub ne_zero : c.cert_verify_failed ≢ pos 0
  pub ne_want_read : c.cert_verify_failed ≢ c.want_read
  pub ne_want_write : c.cert_verify_failed ≢ c.want_write

-- A try of the handshake that is followed by another one.
abbrev pub IsRetried : SslCodes → ℤ → Type 0
IsRetried c r = (r ≢ pos 0) × (r ≢ c.cert_verify_failed)

-- A try succeeds, and the ones before it are neither a success nor a refused certificate.
abbrev pub Shakes : SslCodes → List ℤ → Type 0
Shakes c [] = ⊥
Shakes c (r ∷ rs) = (r ≡ pos 0) ⊎ (IsRetried c r × Shakes c rs)

-- What a try does.
data Try (c : SslCodes) (r : ℤ) : Type 0 where
  success : r ≡ pos 0 → Try c r
  refused : r ≡ c.cert_verify_failed → Try c r
  again : r ≢ pos 0 → r ≢ c.cert_verify_failed → Try c r

Try-cases : (c : SslCodes) (r : ℤ) → Try c r
Try-cases c r = elim (Bool-cases (eq_ℤ r (pos 0))) [
  | inl zero ↦ success ((eq_ℤ_iff r (pos 0)).0 zero)
  | inr other ↦ elim (Bool-cases (eq_ℤ r c.cert_verify_failed)) [
    | inl failed ↦ refused ((eq_ℤ_iff r c.cert_verify_failed).0 failed)
    | inr not_failed ↦
        again (λ e. cc (other, (eq_ℤ_iff r (pos 0)).1 e))
          (λ e. cc (not_failed, (eq_ℤ_iff r c.cert_verify_failed).1 e))
  ]
]

handshake_success : (c : SslCodes) (rs : List ℤ) → handshake_loop c (pos 0 ∷ rs) ≡ some (pos 0)
unfolding handshake_loop
handshake_success c rs = refl

handshake_refused :
    (c : SslCodes) (rs : List ℤ)
    → IsDistinct c
    → handshake_loop c (c.cert_verify_failed ∷ rs) ≡ some c.cert_verify_failed
unfolding handshake_loop
handshake_refused c rs h =
    let r = c.cert_verify_failed in
    ground
      (arith, eq_ℤ_iff r (pos 0), eq_ℤ_iff r c.want_read, eq_ℤ_iff r c.want_write, eq_ℤ_iff r r)

handshake_again :
    (c : SslCodes) (r : ℤ) (rs : List ℤ)
    → r ≢ pos 0
    → r ≢ c.cert_verify_failed
    → handshake_loop c (r ∷ rs) ≡ handshake_loop c rs
unfolding handshake_loop
handshake_again c r rs h k = ground (arith, eq_ℤ_iff r (pos 0), eq_ℤ_iff r c.cert_verify_failed)

handshake-success :
    (c : SslCodes) (rs : List ℤ) → IsDistinct c → (handshake_loop c rs ≡ some (pos 0)) ↔ Shakes c rs
handshake-success c [] h = (λ e. unfold handshake_loop in cc e, λ s. absurd s)
handshake-success c (r ∷ rs) h = elim (Try-cases c r) [
  | success e ↦ (λ _. inl e, λ _. rw e (handshake_success c rs))
  | refused e ↦ (
    λ p. absurd (
        h.ne_zero (
          some_inj
            (sym (handshake_refused c rs h) ∙ ap (λ x. handshake_loop c (x ∷ rs)) (sym e) ∙ p))),
    λ s. elim s [ inl z ↦ absurd (h.ne_zero (sym e ∙ z)) | inr q ↦ absurd (q.0.1 e) ],
  )
  | again n k ↦
      let later = handshake-success c rs h in
      rw (handshake_again c r rs n k)
        (λ p. inr ((n, k), later.0 p), λ s. elim s [ inl z ↦ absurd (n z) | inr q ↦ later.1 q.1 ])
]

handshake-none :
    (c : SslCodes) (rs : List ℤ)
    → IsDistinct c
    → (handshake_loop c rs ≡ none) ↔ All (IsRetried c) rs
handshake-none c [] h = (λ _. tt, λ _. unfold handshake_loop in refl)
handshake-none c (r ∷ rs) h = elim (Try-cases c r) [
  | success e ↦ (
    λ p. cc (p, ap (λ x. handshake_loop c (x ∷ rs)) e, handshake_success c rs),
    λ a. absurd (a.0.0 e),
  )
  | refused e ↦ (
    λ p. cc (p, ap (λ x. handshake_loop c (x ∷ rs)) e, handshake_refused c rs h),
    λ a. absurd (a.0.1 e),
  )
  | again n k ↦
      let later = handshake-none c rs h in
      rw (handshake_again c r rs n k) (λ p. ((n, k), later.0 p), λ a. later.1 a.1)
]

-- No call before the handshake fails. For the two certificates a positive code, the number of those
-- that could not be read, is no failure.
pub record IsPrepared (a : Answers) : Type 0 where
  pub drbg_seed : is_negative a.drbg_seed ≡ false
  pub ca_cert : is_negative a.ca_cert ≡ false
  pub client_cert : is_negative a.client_cert ≡ false
  pub client_key : a.client_key ≡ pos 0
  pub net_connect : a.net_connect ≡ pos 0
  pub config_defaults : a.config_defaults ≡ pos 0
  pub own_cert : a.own_cert ≡ pos 0
  pub ssl_setup : a.ssl_setup ≡ pos 0
  pub set_hostname : a.set_hostname ≡ pos 0

ssl_connect-prepared :
    (c : SslCodes) (a : Answers) → IsPrepared a → ssl_connect c a ≡ finish_connect c a
unfolding ssl_connect
ssl_connect-prepared c a p = rw (
  p.drbg_seed, p.ca_cert, p.client_cert, p.client_key, p.net_connect, p.config_defaults, p.own_cert,
  p.ssl_setup, p.set_hostname,
)

-- Every other result than success and no result at all needs a failed call.
IsPrepared-ssl_connect :
    (c : SslCodes) (a : Answers)
    → (ssl_connect c a ≡ some (pos 0)) ⊎ (ssl_connect c a ≡ none)
    → IsPrepared a
unfolding ssl_connect
IsPrepared-ssl_connect c a h = ground (
  arith,
  eq_ℤ_iff a.client_key (pos 0),
  eq_ℤ_iff a.net_connect (pos 0),
  eq_ℤ_iff a.config_defaults (pos 0),
  eq_ℤ_iff a.own_cert (pos 0),
  eq_ℤ_iff a.ssl_setup (pos 0),
  eq_ℤ_iff a.set_hostname (pos 0),
)

finish_connect-success :
    (c : SslCodes) (a : Answers)
    → (finish_connect c a ≡ some (pos 0))
      ↔ ((handshake_loop c a.handshakes ≡ some (pos 0)) × (a.verify_result ≡ pos 0))
unfolding finish_connect
finish_connect-success c a = elim (Option-cases (handshake_loop c a.handshakes)) [
  | inl e ↦ rw e (λ p. cc p, λ q. cc (q.0))
  | inr (r, e) ↦ rw e (ground (arith, eq_ℤ_iff r (pos 0)))
]

finish_connect-none :
    (c : SslCodes) (a : Answers)
    → (finish_connect c a ≡ none) ↔ (handshake_loop c a.handshakes ≡ none)
unfolding finish_connect
finish_connect-none c a = ground arith

-- Where the code for a refused certificate is neither 0 nor one of the two that ask to go on:
-- `ssl_connect` reports success exactly if no call before the handshake fails, a try of the
-- handshake succeeds before the certificate is refused, and the verification gives 0. It does not
-- come back exactly if no call before the handshake fails and every try fails for another reason
-- than a refused certificate, whatever the error.
pub ssl_connect_lem :
    (c : SslCodes) (a : Answers)
    → IsDistinct c
    → ((ssl_connect c a ≡ some (pos 0))
        ↔ (IsPrepared a × Shakes c a.handshakes × (a.verify_result ≡ pos 0)))
      × ((ssl_connect c a ≡ none) ↔ (IsPrepared a × All (IsRetried c) a.handshakes))
ssl_connect_lem c a h =
    let shakes = handshake-success c a.handshakes h in
    let retried = handshake-none c a.handshakes h in
    let good = finish_connect-success c a in
    let stuck = finish_connect-none c a in
    let prepared = ssl_connect-prepared c a in
    (
      (
        λ p.
            let ready = IsPrepared-ssl_connect c a (inl p) in
            let (shaken, verified) = good.0 (sym (prepared ready) ∙ p) in
            (ready, shakes.0 shaken, verified),
        λ q. prepared q.0 ∙ good.1 (shakes.1 q.1, q.2),
      ),
      (
        λ p.
            let ready = IsPrepared-ssl_connect c a (inr p) in
            (ready, retried.0 (stuck.0 (sym (prepared ready) ∙ p))),
        λ q. prepared q.0 ∙ stuck.1 (retried.1 q.1),
      ),
    )
