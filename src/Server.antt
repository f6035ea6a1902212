-- ===== src/Server.antt =====
-- server/main.py: the clients of one chat server, and what it hears from the others through Redis.
pub mod Listening
pub mod Delivery
use quickonnect.Prelude.{
  ℕ, Bool, true, false, not, ◌&&◌, Option, none, some, List, [], ◌∷◌, Text, codes, nat_eq, text_eq,
  string_eq, ◌==◌, if◌then◌else◌, length,
}
use quickonnect.Prelude.Dict.{Dict, get, put, erase, values}
use quickonnect.Prelude.Int.{pos}
use quickonnect.Json
use quickonnect.Json.{Json, Fields, dict, num, str, bool, int, obj}
use quickonnect.Packet
use quickonnect.World
use quickonnect.World.{
  World, Env, Session, Proc, Done, pure, raise, done, modify, ◌>>=◌, ◌>>◌, call, send, deliver,
  deliver_all, redis_online, redis_offline, redis_members, published, redis_hset, redis_hdel,
  closed,
}

-- `ClientHandler.disconnect`
unfoldable pub disconnect : Session → World → World
disconnect s w = record w { stopped = s.conn ∷ w.stopped; log = closed s.conn ∷ w.log }

abbrev pub status_payload : Env → Session → Bool → Json
status_payload env s online = dict (
    ("user_id", num s.user_id)
    ∷ ("username", str s.username)
    ∷ ("online", bool online)
    ∷ ("server_id", str env.server_id)
    ∷ [])

-- A call of Redis that raises where the connection fails.
abbrev pub redis_step : Env → World.Call → Proc Done
redis_step env c w =
    if env.redis_works w.log then call c w else raise (record w { log = c ∷ w.log })

-- The two calls that tell the other servers.
abbrev pub announce : Env → Session → Bool → World.Call → Proc Done
announce env s online c = do
  redis_step env c
  redis_step env (published (codes "user_status") (status_payload env s online))

-- The old session, unless it is this one.
unfoldable pub end_old : Session → Option Session → World → World
unfolding disconnect
end_old s none w = w
end_old s (some old) w = if old.conn == s.conn then w else disconnect old w

-- The part of `register_client` under the lock.
unfoldable pub add_client : Session → World → World
unfolding end_old
add_client s w =
    let w' = end_old s (get s.user_id w.clients) w in
    record w' { clients = put s.user_id s w'.clients }

unfoldable pub register_client : Env → Session → Proc Done
unfolding add_client
register_client env s = do modify (add_client s); announce env s true (redis_online s.user_id)

unfoldable pub unregister_client : Env → Session → Proc Done
unregister_client env s = do
  modify (λ w. record w { clients = erase s.user_id w.clients })
  announce env s false (redis_offline s.user_id)

-- `get_online_users`: an exception counts as nobody.
unfoldable pub get_online_users : Env → World → List ℕ × World
get_online_users env w = (
  (elim (env.members_answer w.log) [ none ↦ [] | some l ↦ l ]),
  record w { log = redis_members ∷ w.log },
)

unfoldable pub get_connection_count : World → ℕ
get_connection_count w = length w.clients

unfoldable pub get_client : ℕ → World → Option Session
get_client user_id w = get user_id w.clients

unfoldable pub named_client : Text → Dict ℕ Session → Option Session
named_client username [] = none
named_client username ((uid, s) ∷ d) =
    let rest = named_client username d in if s.username == username then some s else rest

unfoldable pub get_client_by_username : Text → World → Option Session
unfolding named_client
get_client_by_username username w = named_client username w.clients

-- A failure to publish is logged and forgotten.
unfoldable pub publish : Text → Json → World → World
publish channel message w = record w { log = published channel message ∷ w.log }

abbrev pub publish_friend_event : Json → World → World
publish_friend_event event w = publish (codes "friend_events") event w

abbrev pub dm_event : Env → Text → Json → Json
dm_event env recipient_username msg_data = dict (
    ("recipient_username", str recipient_username)
    ∷ ("message", msg_data)
    ∷ ("originating_server_id", str env.server_id)
    ∷ [])

unfoldable pub publish_dm_message : Env → Text → Json → World → World
unfolding publish
publish_dm_message env recipient_username msg_data w =
    publish (codes "dm_messages") (dm_event env recipient_username msg_data) w

-- Whether a user id is the one that a message names.
abbrev pub is_id : ℕ → Option Json → Bool
is_id uid (some (int (pos n))) = uid == n
is_id uid (some (bool true)) = uid == 1
is_id uid (some (bool false)) = uid == 0
is_id uid _ = false

-- The handlers of all users but the one that the message names.
unfoldable pub but_user : Option Json → Dict ℕ Session → List Session
but_user user_id [] = []
but_user user_id ((uid, s) ∷ d) =
    let rest = but_user user_id d in if is_id uid user_id then rest else s ∷ rest

abbrev pub friend_status : Fields → Json
friend_status event = dict (
    ("event", str (codes "status"))
    ∷ ("user_id", Json.or_null (Json.find "user_id" event))
    ∷ ("username", Json.get_or "username" (str []) event)
    ∷ ("online", Json.get_or "online" (bool false) event)
    ∷ [])

unfoldable pub handle_user_status : Env → Fields → World → World
unfolding but_user
handle_user_status env event w =
    deliver_all env (but_user (Json.find "user_id" event) w.clients) Packet.friend_update
      (friend_status event) w

-- `event.get(key) == text`
abbrev pub says : Option Json → Text → Bool
says (some (str t)) text = t == text
says _ text = false

-- The client of the name that a message gives, where that is not empty.
abbrev pub addressee : Json → World → Option Session
addressee (str (c ∷ t)) w = get_client_by_username (c ∷ t) w
addressee _ w = none

abbrev pub deliver_to : Env → Option Session → Packet.PacketType → Json → World → World
deliver_to env none t p w = w
deliver_to env (some s) t p w = deliver env s.conn t p w

-- What a server published itself, it has already delivered.
unfoldable pub handle_dm_message : Env → Fields → World → World
unfolding get_client_by_username
handle_dm_message env event w =
    if says (Json.find "originating_server_id" event) env.server_id
    then w
    else if not (Json.truthy (Json.get_or "message" (dict []) event))
    then w
    else deliver_to env (addressee (Json.get_or "recipient_username" (str []) event) w)
        Packet.chat_message (Json.get_or "message" (dict []) event) w

abbrev pub invite_notice : Fields → Json
invite_notice event = dict (
    ("room_code", Json.get_or "room_code" (str []) event)
    ∷ ("from_user_id", Json.or_null (Json.find "from_user_id" event))
    ∷ ("from_username", Json.get_or "from_username" (str []) event)
    ∷ [])

unfoldable pub handle_room_invite_pubsub : Env → Fields → World → World
unfolding get_client_by_username
handle_room_invite_pubsub env event w =
    if says (Json.find "originating_server_id" event) env.server_id
    then w
    else deliver_to env (addressee (Json.get_or "target_username" (str []) event) w)
        Packet.room_invite_notify (invite_notice event) w

-- `_register_server` and `_unregister_server`, the first of which raises where Redis fails.
abbrev pub advertised : Text → Text
advertised host = if host == codes "0.0.0.0" then codes "127.0.0.1" else host

unfoldable pub register_server : Env → Text → ℕ → Proc Done
register_server env host port =
    redis_step env
      (redis_hset env.server_id (dict (("host", str (advertised host)) ∷ ("port", num port) ∷ [])))

unfoldable pub unregister_server : Env → World → World
unregister_server env w = record w { log = redis_hdel env.server_id ∷ w.log }

abbrev pub shutdown_payload : Json
shutdown_payload =
    dict (("message", str (codes "Server is shutting down")) ∷ ("reconnect_delay", num 5) ∷ [])

unfoldable pub disconnect_all : List Session → World → World
unfolding disconnect
disconnect_all [] w = w
disconnect_all (s ∷ l) w = disconnect_all l (disconnect s w)

-- `stop`, without the sockets and connections of the server itself. No handler runs in between.
unfoldable pub stop : Env → World → World
unfolding disconnect_all unregister_server
stop env w =
    let w₁ = deliver_all env (values w.clients) Packet.server_shutdown shutdown_payload w in
    let w₂ = disconnect_all (values w₁.clients) w₁ in
    unregister_server env (record w₂ { clients = [] })
