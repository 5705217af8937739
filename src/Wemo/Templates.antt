-- ===== src/Wemo/Templates.antt =====
-- The reply texts of FutronixESP8266/Fauxmo.h, split at their formats.
use futronix_alexa.Base.{List, ℕ, ◌+◌, codes, length}

-- UDP_TEMPLATE
abbrev pub udp_location : List ℕ
udp_location =
    codes
      "HTTP/1.1 200 OK\r\nCACHE-CONTROL: max-age=86400\r\nDATE: Sun, 20 Nov 2016 00:00:00 GMT\r\nEXT:\r\nLOCATION: http://"

abbrev pub udp_colon : List ℕ
udp_colon = codes ":"

abbrev pub udp_setup : List ℕ
udp_setup = codes "/setup.xml\r\nOPT: \"http://schemas.upnp.org/upnp/1/0/\"; ns=01\r\n01-NLS: "

abbrev pub udp_server : List ℕ
udp_server =
    codes
      "\r\nSERVER: Unspecified, UPnP/1.0, Unspecified\r\nST: urn:Belkin:device:**\r\nUSN: uuid:Socket-1_0-"

abbrev pub udp_end : List ℕ
udp_end = codes "::urn:Belkin:device:**\r\n\r\n"

-- strlen(UDP_TEMPLATE): the pieces, and four formats of two characters.
abbrev pub udp_template_length : ℕ
udp_template_length =
    length udp_location
    + length udp_colon
    + length udp_setup
    + length udp_server
    + length udp_end
    + 8

-- SETUP_TEMPLATE
abbrev pub setup_name : List ℕ
setup_name =
    codes
      "<?xml version=\"1.0\"?><root><device><deviceType>urn:Belkin:device:controllee:1</deviceType><friendlyName>"

abbrev pub setup_model : List ℕ
setup_model =
    codes
      "</friendlyName><manufacturer>Belkin International Inc.</manufacturer><modelName>FauxmoESP</modelName><modelNumber>2.0.0</modelNumber><UDN>uuid:Socket-1_0-"

abbrev pub setup_end : List ℕ
setup_end = codes "</UDN></device></root>"

abbrev pub setup_template_length : ℕ
setup_template_length = length setup_name + length setup_model + length setup_end + 4

-- HEADERS
abbrev pub headers_length_field : List ℕ
headers_length_field = codes "HTTP/1.1 200 OK\r\nCONTENT-LENGTH: "

abbrev pub headers_body : List ℕ
headers_body =
    codes
      "\r\nCONTENT-TYPE: text/xml\r\nDATE: Sun, 01 Jan 2017 00:00:00 GMT\r\nLAST-MODIFIED: Sat, 01 Jan 2017 00:00:00 GMT\r\nSERVER: Unspecified, UPnP/1.0, Unspecified\r\nX-USER-AGENT: redsonic\r\nCONNECTION: close\r\n\r\n"

abbrev pub headers_end : List ℕ
headers_end = codes "\r\n"

abbrev pub headers_template_length : ℕ
headers_template_length = length headers_length_field + length headers_body + length headers_end + 4
