-- ===== src/Examples/Members.antt =====
-- A server with one room of two clients, and who is in it after a join, a leave and a disconnect.
use quickonnect.Prelude.{◌≡◌, List, true, some, none, [], ◌∷◌, Text, codes, nat_eq, text_eq}
use quickonnect.Screen.{ScreenRelayState}
use quickonnect.Camera
use quickonnect.Mixer
use quickonnect.Whiteboard
use quickonnect.Json
use quickonnect.World.{World, Env, Session, RoomData, start}
use quickonnect.Rooms.Refinement.{
  Request, join, leave, disconnect, Steps, view, replies, verdicts, perform_all, perform_all-Steps,
  perform_all-IsOccupied,
}
use quickonnect.Rooms.Occupied.{IsOccupied}

abbrev pub ann : Session
ann = record { conn = 1; user_id = 1; username = codes "ann" }

abbrev pub bob : Session
bob = record { conn = 2; user_id = 2; username = codes "bob" }

abbrev pub cy : Session
cy = record { conn = 3; user_id = 3; username = codes "cy" }

-- Ann shares her screen, and Bob controls it.
abbrev pub screen : ScreenRelayState
screen = record {
  share = some (record {
    sharer_user_id = 1;
    sharer_username = codes "ann";
    controller_user_id = some 2;
    controller_username = some (codes "bob");
  });
}

abbrev pub lobby : Text
lobby = codes "LOBBY1"

abbrev pub lobby_data : RoomData
lobby_data = record {
  room = record { id = 7; room_code = lobby; created_by = 1 };
  clients = (1, ann) ∷ (2, bob) ∷ [];
  screen = screen;
  audio = Mixer.init true;
  whiteboard = Whiteboard.blank true;
  camera = Camera.init;
}

abbrev pub server : World
server = record {
  rooms = (lobby, lobby_data) ∷ [];
  current_rooms = (1, lobby ∷ []) ∷ (2, lobby ∷ []) ∷ [];
  clients = (1, ann) ∷ (2, bob) ∷ [];
  public_keys = [];
  stopped = [];
  log = [];
}

-- Redis pins every room to the second server.
abbrev pub env : Env
env = record {
  server_id = codes "s1";
  send_works = λ log. true;
  redis_get_answer = λ log code. some (codes "s2");
  select_room_answer = λ log code. some none;
  insert_room_answer = λ log code creator. some 8;
  history_answer = λ log room. some [];
  snapshot_answer = λ log room. some none;
  rows_answer = λ log room seq. some [];
  stt_enabled = true;
  server_address_answer = λ log server. some (codes "10.0.0.2", 9002);
  decode_base64 = λ t. none;
  encode_base64 = λ b. [];
  render_answer = λ log code. none;
  redis_works = λ log. true;
  members_answer = λ log. some (1 ∷ 2 ∷ []);
  message_answer = λ log room sender text kind. some (5, Json.null);
  username_answer = λ log user. some none;
  tables_answer = λ log. record { users = []; friendships = [] };
  tables_work = λ log. (true, true);
  read_id = λ v. none;
  float_id = λ t. none;
  now = λ log. 1000;
}

-- Cy asks for the lobby, which Redis has on the other server, and then for a room of the two, which is
-- never looked up there and which the database takes; Bob leaves the lobby, and Ann's connection ends.
abbrev requests : List Request
requests = join lobby cy ∷ join (codes "DM-bob-cy") cy ∷ leave lobby 2 ∷ disconnect 1 ∷ []

requests_example :
    Steps requests
      (replies env requests server)
      (view server)
      (view (perform_all env requests server))
    × (replies env requests server ≡ verdicts env requests server)
requests_example = perform_all-Steps env requests server

no_empty_room_example : IsOccupied (perform_all env requests start).rooms
no_empty_room_example = perform_all-IsOccupied env requests
