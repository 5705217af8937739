-- ===== src/Aws.antt =====
-- class AwsManager of FutronixESP8266/AwsManager.h. The MQTT and web socket libraries are not part of
-- the model: what they return comes in as an argument, and the calls go out as a list of actions.
pub mod Clients
use futronix_alexa.Base.{
  ℕ, zero, suc, ◌+◌, ◌%◌, Bool, true, false, Option, some, none, List, [], ◌∷◌, ◌++◌, length, store,
  replicate, splice, codes, ℤ, pos, eq_ℤ, if◌then◌else◌, ◌>>=◌, sprintf, c_str,
}

-- class AwsManager, with the global `_arrivedCount`; `_mqttClient` is NULL or the number of a client.
pub record AwsManager : Type 0 where
  pub enabled : Bool
  pub mqtt_client : Option ℕ
  pub connection : ℕ
  pub arrived_count : ℕ

-- AwsManager::AwsManager
abbrev pub new_aws : AwsManager
new_aws = record { enabled = false; mqtt_client = none; connection = 0; arrived_count = 0 }

-- AwsManager::begin. The settings of the web socket client are constants.
abbrev pub begin_aws : AwsManager → AwsManager
begin_aws a = record a { enabled = true }

-- A call of the libraries; a client is known by its number.
pub data Action : Type 0 where
  new_client : ℕ → Action
  delete_client : ℕ → Action
  disconnect : ℕ → Action
  mqtt_connect : ℕ → List ℕ → Action
  subscribe : ℕ → Action
  publish : ℕ → List ℕ → Action

-- The loop of `generateClientID`: `rands` is what random(1, 256) gives, cut to a char.
unfoldable pub id_loop : ℕ → ℕ → List ℕ → List ℕ → Option (List ℕ)
id_loop zero i rands id = some id
id_loop (suc rounds) i [] id = none
id_loop (suc rounds) i (r ∷ rands) id =
    store id i (r % 256) >>= λ id'. id_loop rounds (suc i) rands id'

-- AwsManager::generateClientID: a zeroed block of 23 bytes.
unfoldable pub generate_client_id : List ℕ → Option (List ℕ)
generate_client_id rands = id_loop 22 0 rands (replicate 23 0)

-- What the outside answers to `connect`: whether the old client is connected, the result of the web
-- socket connection, the random numbers, and the result of the MQTT connection.
pub record Answers : Type 0 where
  pub is_connected : Bool
  pub ip_result : ℤ
  pub rands : List ℕ
  pub mqtt_result : ℤ

-- The first part of `connect`: the old client goes, and a new one is made. `fresh` is its number.
unfoldable pub renew_client : ℕ → Bool → AwsManager → AwsManager × List Action
renew_client fresh is_connected a = (
  record a { mqtt_client = some fresh; connection = a.connection + 1 },
  (elim a.mqtt_client [
    | none ↦ []
    | some old ↦ (if is_connected then disconnect old ∷ [] else []) ++ delete_client old ∷ []
  ])
      ++ new_client fresh ∷ [],
)

-- AwsManager::connect
unfoldable pub connect_aws : ℕ → Answers → AwsManager → Option (AwsManager × List Action × Bool)
connect_aws fresh x a =
    let (a', actions) = renew_client fresh x.is_connected a in
    if eq_ℤ x.ip_result (pos 1)
    then (generate_client_id x.rands >>= λ id.
        some (a', actions ++ mqtt_connect fresh (c_str id) ∷ [], eq_ℤ x.mqtt_result (pos 0)))
    else some (a', actions, false)

-- The text of `sendMessage`.
unfoldable pub aws_message : List ℕ
aws_message = codes "{\"state\":{\"reported\":{\"on\": false}, \"desired\":{\"on\": false}}}"

-- AwsManager::sendMessage: the text in a buffer of 100 bytes, sent with its terminator.
unfoldable pub send_message : AwsManager → Option (List Action)
unfolding aws_message
send_message a = sprintf 100 aws_message >>= λ buf.
    a.mqtt_client >>= λ client. some (publish client (buf ++ 0 ∷ []) ∷ [])

-- AwsManager::subscribe, whose result is only printed.
unfoldable pub subscribe_aws : AwsManager → Option (List Action)
subscribe_aws a = a.mqtt_client >>= λ client. some (subscribe client ∷ [])

-- AwsManager::connectAndListen
unfoldable pub connect_and_listen : ℕ → Answers → AwsManager → Option (AwsManager × List Action)
connect_and_listen fresh x a = connect_aws fresh x a >>= λ (a', actions, ok).
    if ok
    then (subscribe_aws a' >>= λ more.
        send_message a' >>= λ last. some (a', actions ++ (more ++ last)))
    else some (a', actions)

-- onMessageArrivedCallback: what is printed of the payload, from a zeroed block that is one byte longer.
unfoldable pub on_message_arrived : List ℕ → AwsManager → AwsManager × List ℕ
on_message_arrived payload a = (
  record a { arrived_count = a.arrived_count + 1 },
  c_str (splice (replicate (length payload + 1) 0) 0 payload),
)
