-- ===== src/Examples/Older.antt =====
-- The theorems on the older emulator and the AWS service.
use futronix_alexa.Base.{
  ◌≡◌, refl, true, false, ◌&&◌, some, List, [], ◌∷◌, ◌++◌, pos, eq_ℤ, codes, c_str, replicate,
  if◌then◌else◌, arith,
}
use futronix_alexa.Wemo.Emulator.{SceneCallbackHandler}
use futronix_alexa.Wemo.Server.{WemoServer}
use futronix_alexa.Wemo.OldEmulator.{OldEmulator, replace_server}
use futronix_alexa.Wemo.OldEmulator.Entries.{entries, rename_first, replace_server_lem}
use futronix_alexa.Aws.{AwsManager, Answers, Action, aws_message, connect_and_listen}
use futronix_alexa.Aws.Clients.{live, published, connect_and_listen_lem}

abbrev handler : SceneCallbackHandler
handler = record { scene_no = 4 }

abbrev hall : WemoServer
hall = record {
  device_name = codes "hall";
  local_port = 81;
  handler = handler;
  uuid = [];
  serial = [];
  is_open = true;
}

abbrev one_server : OldEmulator
one_server = record { servers = hall ∷ []; packet_buffer = []; enabled = true; is_running = true }

replace_server_lem_example :
    (w' : OldEmulator) × (replace_server 1 (codes "hall") (codes "attic") handler one_server
      ≡ some (w', false))
    × (entries w'.servers
        ≡ rename_first (c_str (codes "hall")) (c_str (codes "attic")) 4 (entries (hall ∷ [])))
replace_server_lem_example =
    replace_server_lem 1 (codes "hall") (codes "attic") handler one_server refl (omega arith)

-- Both connections succeed, and an old client is still connected.
abbrev accepted : Answers
accepted = record {
  is_connected = true;
  ip_result = pos 1;
  rands = replicate 22 65;
  mqtt_result = pos 0;
}

abbrev listening : AwsManager
listening = record { enabled = true; mqtt_client = some 1; connection = 1; arrived_count = 0 }

connect_and_listen_lem_example :
    (a' : AwsManager) × (actions : List Action) × (connect_and_listen 2 accepted listening
      ≡ some (a', actions))
    × (a'.mqtt_client ≡ some 2)
    × (live (some 1) actions ≡ some (some 2))
    × (published actions ≡ (
        if eq_ℤ (pos 1) (pos 1) && eq_ℤ (pos 0) (pos 0) then (aws_message ++ 0 ∷ []) ∷ [] else []))
connect_and_listen_lem_example = connect_and_listen_lem 2 accepted listening (omega arith) refl
