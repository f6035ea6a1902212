-- ===== src/Server/Listening.antt =====
-- server/main.py: what the other servers publish.
use quickonnect.Prelude.{
  true, false, Option, none, some, [], ◌∷◌, Text, codes, text_eq, ◌==◌, if◌then◌else◌,
}
use quickonnect.Prelude.Int.{pos}
use quickonnect.Json
use quickonnect.Json.{Json, Fields, dict, str, obj, int, bool, float}
use quickonnect.Packet
use quickonnect.Server.{
  says, named_client, get_client, handle_user_status, handle_dm_message, handle_room_invite_pubsub,
}
use quickonnect.Handler.Social.{send_friend_list}
use quickonnect.World.{World, Env, Session, deliver}

abbrev pub incoming_request : Json → Json → Json
incoming_request from_user_id from_username = dict (
    ("event", str (codes "incoming_request"))
    ∷ ("from_user_id", from_user_id)
    ∷ ("from_username", from_username)
    ∷ [])

-- The client of a name that any JSON value may give.
unfoldable pub client_called : Option Json → World → Option Session
client_called (some (str t)) w = named_client t w.clients
client_called _ w = none

unfoldable pub client_with_id : Env → Option Json → World → Option Session
client_with_id env (some (int (pos n))) w = get_client n w
client_with_id env (some (float t)) w = elim (env.float_id t) [
  | none ↦ none
  | some n ↦ get_client n w
]
client_with_id env (some (bool true)) w = get_client 1 w
client_with_id env (some (bool false)) w = get_client 0 w
client_with_id env _ w = none

-- `data["…"]` raises where the key is missing.
abbrev pub notify_request : Env → Option Session → Option Json → Option Json → World → World
notify_request env (some s) (some from_user_id) (some from_username) w =
    send_friend_list env s
      (deliver env s.conn Packet.friend_update (incoming_request from_user_id from_username) w)
notify_request env _ _ _ w = w

abbrev pub refresh_friends : Env → Option Session → World → World
refresh_friends env none w = w
refresh_friends env (some s) w = send_friend_list env s w

-- `_handle_friend_event`; an exception is logged.
unfoldable pub handle_friend_event : Env → Fields → World → World
unfolding client_called client_with_id
handle_friend_event env event w =
    if says (Json.find "type" event) (codes "friend_request")
    then notify_request env (client_called (Json.find "to_username" event) w)
        (Json.find "from_user_id" event) (Json.find "from_username" event) w
    else if says (Json.find "type" event) (codes "friend_accepted")
    then refresh_friends env (client_with_id env (Json.find "to_user_id" event) w) w
    else w

-- One message of `_pubsub_loop`, on one of the four channels; what is no JSON object is skipped.
unfoldable pub receive : Env → Text → Option Json → World → World
unfolding handle_friend_event
receive env channel (some (obj event)) w =
    if channel == codes "user_status"
    then handle_user_status env event w
    else if channel == codes "friend_events"
    then handle_friend_event env event w
    else if channel == codes "dm_messages"
    then handle_dm_message env event w
    else if channel == codes "room_invites"
    then handle_room_invite_pubsub env event w
    else w
receive env channel _ w = w
