-- ===== src/Rtos/Ssl.antt =====
-- RTOS/futronix-alexa-rtos/ssl_connection.c. The calls of the mbedtls library come in as what they
-- return, in the order of the calls.
pub mod Connect
pub mod Contexts
use futronix_alexa.Base.{
  Bool, true, false, not, ◌&&◌, Option, some, none, List, [], ◌∷◌, ℤ, pos, negsuc, eq_ℤ,
  if◌then◌else◌,
}

-- The codes of the library that the program tests.
pub record SslCodes : Type 0 where
  pub want_read : ℤ
  pub want_write : ℤ
  pub read_timeout : ℤ
  pub cert_verify_failed : ℤ

abbrev pub is_negative : ℤ → Bool
is_negative (pos n) = false
is_negative (negsuc n) = true

abbrev pub is_zero : ℤ → Bool
is_zero r = eq_ℤ r (pos 0)

-- What the calls of `ssl_connect` return: the seed of the random numbers, the certificates of the
-- authority and the client, the key, the TCP connection, the defaults, the client's own certificate, the
-- setup, the host name, each try of the handshake, and the verification.
pub record Answers : Type 0 where
  pub drbg_seed : ℤ
  pub ca_cert : ℤ
  pub client_cert : ℤ
  pub client_key : ℤ
  pub net_connect : ℤ
  pub config_defaults : ℤ
  pub own_cert : ℤ
  pub ssl_setup : ℤ
  pub set_hostname : ℤ
  pub handshakes : List ℤ
  pub verify_result : ℤ

-- The loop over mbedtls_ssl_handshake: what it returns early, or 0 behind it. `none`: it still runs
-- when the tries are used up.
unfoldable pub handshake_loop : SslCodes → List ℤ → Option ℤ
handshake_loop c [] = none
handshake_loop c (ret ∷ rets) =
    let rest = handshake_loop c rets in
    if is_zero ret
    then some (pos 0)
    else (if not (eq_ℤ ret c.want_read)
          && not (eq_ℤ ret c.want_write)
          && eq_ℤ ret c.cert_verify_failed
        then some ret
        else rest)

-- The handshake and what follows it.
unfoldable pub finish_connect : SslCodes → Answers → Option ℤ
finish_connect c a = elim (handshake_loop c a.handshakes) [
  | none ↦ none
  | some ret ↦ if is_zero ret then some a.verify_result else some ret
]

-- `ssl_connect`; `handle_error` prints the code and returns it.
unfoldable pub ssl_connect : SslCodes → Answers → Option ℤ
ssl_connect c a =
    if is_negative a.drbg_seed
    then some (negsuc 0)
    else if is_negative a.ca_cert
    then some a.ca_cert
    else if is_negative a.client_cert
    then some a.client_cert
    else if not (is_zero a.client_key)
    then some a.client_key
    else if not (is_zero a.net_connect)
    then some a.net_connect
    else if not (is_zero a.config_defaults)
    then some a.config_defaults
    else if not (is_zero a.own_cert)
    then some a.own_cert
    else if not (is_zero a.ssl_setup)
    then some a.ssl_setup
    else if not (is_zero a.set_hostname)
    then some a.set_hostname
    else finish_connect c a
