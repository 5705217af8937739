-- ===== src/Wemo/Server.antt =====
-- FutronixESP8266/WemoServer.h: one emulated device with a web server of its own, as the version of the
-- emulator behind __OLD_VERSION__ uses it. Requests come in as their arguments, and replies go out as
-- texts; `String::indexOf` is a parameter.
pub mod Identity
use futronix_alexa.Base.{
  ℕ, ◌+◌, ◌/◌, ◌%◌, Bool, true, false, Option, some, List, [], ◌∷◌, ◌++◌, map, ltb, if◌then◌else◌,
  ◌>>=◌, c_str, codes, decimal, hex, sprintf, ℤ,
}
use futronix_alexa.Wemo.Fauxmo.{is_positive}
use futronix_alexa.Wemo.Emulator.{SceneCallbackHandler, handle_callback}

-- class WemoServer; `is_open` is the state of its web server.
pub record WemoServer : Type 0 where
  pub device_name : List ℕ
  pub local_port : ℕ
  pub handler : SceneCallbackHandler
  pub uuid : List ℕ
  pub serial : List ℕ
  pub is_open : Bool

-- %02x, in small letters.
abbrev pub small_hex : ℕ → List ℕ
small_hex n = map {A = ℕ} {B = ℕ} (λ c. if ltb 64 c then c + 32 else c) (hex 2 n)

-- The serial number, in a buffer of 64 bytes.
unfoldable pub serial_of : ℕ → Option (List ℕ)
serial_of chip_id = sprintf 64 (
    codes "38323636-4558-4dda-9188-cda0e6"
    ++ small_hex ((chip_id / 65536) % 256)
    ++ small_hex ((chip_id / 256) % 256)
    ++ small_hex (chip_id % 256))

-- WemoServer::WemoServer, on the chip with this id. The name is copied to 70 bytes.
unfoldable pub new_server : ℕ → List ℕ → ℕ → SceneCallbackHandler → Option WemoServer
new_server chip_id device_name local_port handler = sprintf 70 (c_str device_name) >>= λ name.
    serial_of chip_id >>= λ serial. some (record {
      device_name = name;
      local_port = local_port;
      handler = handler;
      uuid = codes "Socket-1_0-" ++ serial ++ codes "-" ++ decimal local_port;
      serial = serial;
      is_open = true;
    })

-- WemoServer::respondToSearch: the reply, from the chip's address in a buffer of 16 bytes.
unfoldable pub search_reply : List ℕ → WemoServer → Option (List ℕ)
search_reply local_ip s = sprintf 16 local_ip >>= λ ip. some (
    codes
      "HTTP/1.1 200 OK\r\nCACHE-CONTROL: max-age=86400\r\nDATE: Sat, 26 Nov 2016 04:56:29 GMT\r\nEXT:\r\nLOCATION: http://"
    ++ ip
    ++ codes ":"
    ++ decimal s.local_port
    ++ codes
        "/setup.xml\r\nOPT: \"http://schemas.upnp.org/upnp/1/0/\"; ns=01\r\n01-NLS: b9200ebb-736d-4b93-bf03-835149d13983\r\nSERVER: Unspecified, UPnP/1.0, Unspecified\r\nST: urn:Belkin:device:**\r\nUSN: uuid:"
    ++ s.uuid
    ++ codes "::urn:Belkin:device:**\r\nX-User-Agent: redsonic\r\n\r\n")

-- WemoServer::stop
abbrev pub stop_server : WemoServer → WemoServer
stop_server s = record s { is_open = false }

-- WemoServer::handleUpnpControl: what the handler's calls write to SCENE_TO_SET, in their order.
unfoldable pub handle_upnp_control : (List ℕ → List ℕ → ℤ) → List ℕ → WemoServer → List (Option ℤ)
handle_upnp_control index_of request s =
    (if is_positive (index_of request (codes "<BinaryState>1</BinaryState>"))
      then handle_callback 1 s.handler ∷ []
      else [])
    ++ (if is_positive (index_of request (codes "<BinaryState>0</BinaryState>"))
        then handle_callback 0 s.handler ∷ []
        else [])

-- WemoServer::handleRoot
abbrev pub root_text : List ℕ
root_text = codes "You should tell Alexa to discover devices"

-- WemoServer::handleSetupXml
unfoldable pub setup_text : WemoServer → List ℕ
setup_text s =
    codes
      "<?xml version=\"1.0\"?><root><device><deviceType>urn:Belkin:device:controllee:1</deviceType><friendlyName>"
    ++ s.device_name
    ++ codes
        "</friendlyName><manufacturer>Belkin International Inc.</manufacturer><modelName>Emulated Socket</modelName><modelNumber>3.1415</modelNumber><UDN>uuid:"
    ++ s.uuid
    ++ codes
        "</UDN><serialNumber>221517K0101769</serialNumber><binaryState>0</binaryState><serviceList><service><serviceType>urn:Belkin:service:basicevent:1</serviceType><serviceId>urn:Belkin:serviceId:basicevent1</serviceId><controlURL>/upnp/control/basicevent1</controlURL><eventSubURL>/upnp/event/basicevent1</eventSubURL><SCPDURL>/eventservice.xml</SCPDURL></service></serviceList></device></root>\r\n\r\n"

-- WemoServer::handleEventservice
abbrev pub event_text : List ℕ
event_text =
    codes
      "<?scpd xmlns=\"urn:Belkin:service-1-0\"?><actionList><action><name>SetBinaryState</name><argumentList><argument><retval/><name>BinaryState</name><relatedStateVariable>BinaryState</relatedStateVariable><direction>in</direction></argument></argumentList><serviceStateTable><stateVariable sendEvents=\"yes\"><name>BinaryState</name><dataType>Boolean</dataType><defaultValue>0</defaultValue></stateVariable><stateVariable sendEvents=\"yes\"><name>level</name><dataType>string</dataType><defaultValue>0</defaultValue></stateVariable></serviceStateTable></action></scpd>\r\n\r\n"

-- The routes of WemoServer::startWebServer, with the argument that a handler asks for.
pub data Page : Type 0 where
  index_page : Page
  root_page : Page
  setup_page : Page
  control_page : List ℕ → Page
  event_page : Page

-- send(200, content_type, body)
pub record Reply : Type 0 where
  pub content_type : List ℕ
  pub body : List ℕ

abbrev plain : List ℕ → Reply
plain body = record { content_type = codes "text/plain"; body = body }

-- The handlers that WemoServer::startWebServer installs: the reply, and what the handler of the scene
-- writes to SCENE_TO_SET.
unfoldable pub serve : (List ℕ → List ℕ → ℤ) → Page → WemoServer → Reply × List (Option ℤ)
serve index_of index_page s = (plain (codes "Hello World!"), [])
serve index_of root_page s = (plain root_text, [])
serve index_of setup_page s = (record { content_type = codes "text/xml"; body = setup_text s }, [])
serve index_of (control_page request) s = (plain [], handle_upnp_control index_of request s)
serve index_of event_page s = (plain event_text, [])
