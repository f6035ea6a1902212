-- ===== src/Connection.antt =====
-- client/network/connection.py: the client's connection, and how it is made again once it is lost. The
-- network is a parameter: what comes of each attempt, and of each packet that is sent.
pub mod Waits
pub mod Reconnect
use quickonnect.Prelude.{
  ℕ, zero, suc, ◌+◌, ◌-◌, ◌*◌, Bool, true, false, not, ◌&&◌, Option, none, some, List, [], ◌∷◌,
  ◌++◌, Text, codes, nat_eq, text_eq, string_eq, ◌==◌, if◌then◌else◌, ltb,
}
use quickonnect.Json
use quickonnect.Json.{Json, Fields, dict, str, obj, field, end}
use quickonnect.Packet
use quickonnect.Packet.{PacketType}

abbrev pub max_reconnect_attempts : ℕ
max_reconnect_attempts = 10

-- Seconds.
abbrev pub initial_backoff : ℕ
initial_backoff = 1

abbrev pub max_backoff : ℕ
max_backoff = 30

-- What a connection does that is seen outside: a packet that is sent, the callbacks, and a wait.
pub data Event : Type 0 where
  sent : PacketType → Json → Event
  reconnecting : ℕ → Event
  reconnected : Event
  disconnected : Text → Event
  waited : ℕ → Event

-- `ConnectionManager`, less its threads; `alive` says that there is a socket. Newest event first.
pub record Connection : Type 0 where
  pub alive : Bool
  pub has_key : Bool
  pub running : Bool
  pub reconnect_enabled : Bool
  pub auth_payload : Option Fields
  pub auth_type : Text
  pub room_codes : List Text
  pub is_reconnecting : Bool
  pub log : List Event

abbrev pub emit : Event → Connection → Connection
emit e c = record c { log = e ∷ c.log }

-- `connected`
unfoldable pub connected : Connection → Bool
connected c = c.running && c.alive

unfoldable pub enable_reconnect : Fields → Text → List Text → Connection → Connection
enable_reconnect auth_payload auth_type room_codes c = record c {
  reconnect_enabled = true;
  auth_payload = some auth_payload;
  auth_type = auth_type;
  room_codes = room_codes;
}

unfoldable pub disable_reconnect : Connection → Connection
disable_reconnect c = record c { reconnect_enabled = false }

unfoldable pub update_room_codes : List Text → Connection → Connection
update_room_codes room_codes c = record c { room_codes = room_codes }

unfoldable pub disconnect : Connection → Connection
disconnect c = record c {
  reconnect_enabled = false;
  running = false;
  alive = false;
  has_key = false;
}

-- The socket is closed and given up, and the key with it.
abbrev pub drop_socket : Connection → Connection
drop_socket c = record c { running = false; alive = false; has_key = false }

-- `_handle_disconnect`; the result says whether it starts the thread of `_reconnect_loop`.
unfoldable pub handle_disconnect : Text → Connection → Connection × Bool
handle_disconnect reason c =
    if not c.running
    then (c, false)
    else if c.reconnect_enabled && not c.is_reconnecting
    then (record (drop_socket c) { is_reconnecting = true }, true)
    else (emit (disconnected reason) (drop_socket c), false)

abbrev pub send_failed : Text
send_failed = codes "Send failed"

-- `send`, of a packet that the network takes or does not.
unfoldable pub send : Bool → PacketType → Json → Connection → Connection × Bool
unfolding handle_disconnect connected
send works packet_type payload c =
    if not (connected c)
    then (c, false)
    else if works
    then (emit (sent packet_type payload) c, false)
    else handle_disconnect send_failed c

-- What comes of a packet that is read: the read raises, a packet comes, or none ever does. The source
-- takes the time limit off the socket before the handshake, so such a read does not return.
pub data Answer : Type 0 where
  raised : Answer
  received : Fields → Answer
  silent : Answer

-- What one attempt meets: no connection or a handshake that raises, a handshake that never ends, or the
-- answer to the authentication, and then which of the joins the network takes.
pub data Attempt : Type 0 where
  no_handshake : Attempt
  silent_handshake : Attempt
  handshake : Answer → List Bool → Attempt

-- The token that a login brought is kept for the next time.
abbrev pub with_token : Json → Connection → Connection
with_token token c =
    if Json.truthy token
    then record c { auth_payload = some (field "token" token end); auth_type = codes "jwt" }
    else c

-- Whether the authentication succeeded; `none` where it never returns.
abbrev pub after_login : Answer → Connection → Option Bool × Connection
after_login raised c = (some false, c)
after_login (received response) c =
    if Json.truthy (Json.get_or "success" Json.null response)
    then (some true, with_token (Json.get_or "token" Json.null response) c)
    else (some false, c)
after_login silent c = (none, c)

abbrev pub after_token : Answer → Connection → Option Bool × Connection
after_token raised c = (some false, c)
after_token (received response) c =
    (some (Json.truthy (Json.get_or "success" (Json.bool false) response)), c)
after_token silent c = (none, c)

abbrev pub token_request : Fields → Json
token_request payload = dict (("token", Json.get_or "token" (str []) payload) ∷ [])

abbrev pub login_request : Fields → Json
login_request payload = dict (
    ("username", Json.get_or "username" (str []) payload)
    ∷ ("password", Json.get_or "password" (str []) payload)
    ∷ [])

-- `_do_reconnect_auth`, with a payload that is not empty.
abbrev pub authenticate_with : Answer → Fields → Connection → Option Bool × Connection
authenticate_with answer payload c =
    if c.auth_type == codes "jwt"
    then after_token answer (emit (sent Packet.auth_request (token_request payload)) c)
    else if c.auth_type == codes "login"
    then after_login answer (emit (sent Packet.login_request (login_request payload)) c)
    else (some false, c)

abbrev pub with_payload : Answer → Option Fields → Connection → Option Bool × Connection
with_payload answer none c = (some false, c)
with_payload answer (some end) c = (some false, c)
with_payload answer (some (field k v l)) c = authenticate_with answer (field k v l) c

unfoldable pub do_reconnect_auth : Answer → Connection → Option Bool × Connection
do_reconnect_auth answer c = with_payload answer c.auth_payload c

abbrev pub join_payload : Text → Json
join_payload room_code = dict (("room_code", str room_code) ∷ [])

-- The joins; a network that says nothing more takes them.
unfoldable pub rejoin : List Text → List Bool → Connection → Connection
unfolding send
rejoin [] answers c = c
rejoin (room_code ∷ rest) [] c =
    rejoin rest [] (send true Packet.join_room (join_payload room_code) c).0
rejoin (room_code ∷ rest) (works ∷ answers) c =
    rejoin rest answers (send works Packet.join_room (join_payload room_code) c).0

-- `_do_rejoin_rooms`
unfoldable pub do_rejoin_rooms : List Bool → Connection → Connection
unfolding rejoin
do_rejoin_rooms answers c = rejoin c.room_codes answers c

-- What follows the authentication.
abbrev pub after_auth : List Bool → Option Bool × Connection → Option Bool × Connection
after_auth joins (none, c) = (none, c)
after_auth joins (some true, c) =
    (some true, emit reconnected (record (do_rejoin_rooms joins c) { is_reconnecting = false }))
after_auth joins (some false, c) = (some false, drop_socket c)

-- The part of an attempt after the handshake: whether it succeeded, `none` where it never returns.
unfoldable pub try_auth : Answer → List Bool → Connection → Option Bool × Connection
unfolding do_reconnect_auth do_rejoin_rooms
try_auth answer joins c =
    after_auth joins
      (do_reconnect_auth answer (record c { alive = true; has_key = true; running = true }))

-- One attempt.
unfoldable pub attempt : Attempt → Connection → Option Bool × Connection
unfolding try_auth
attempt no_handshake c = (some false, drop_socket c)
attempt silent_handshake c = (none, record c { alive = true })
attempt (handshake answer joins) c = try_auth answer joins c

abbrev pub next_backoff : ℕ → ℕ
next_backoff backoff = if ltb max_backoff (backoff * 2) then max_backoff else backoff * 2

abbrev pub failure : Text → Text
failure reason = codes "Reconnection failed after 10 attempts (original: " ++ (reason ++ codes ")")

-- All attempts failed, or the client gave up in between.
abbrev pub exhausted : Text → Connection → Connection
exhausted reason c =
    emit (disconnected (failure reason))
      (record c { is_reconnecting = false; reconnect_enabled = false })

-- How the loop goes on: whether the client still wants the connection, and what the attempt came to.
abbrev pub outcome :
    Bool → Option Bool → Connection → Connection → Bool × Connection → Bool × Connection
outcome false tried given_up c later = (true, given_up)
outcome true none given_up c later = (false, c)
outcome true (some true) given_up c later = (true, c)
outcome true (some false) given_up c later = later

-- The loop, with the attempts that are left; `network` is what the attempt of a number meets. It says
-- whether the loop returns; where it does not, the connection is as the attempt leaves it that never
-- returns.
unfoldable pub attempts : (ℕ → Attempt) → ℕ → ℕ → Text → ℕ → Connection → Bool × Connection
unfolding attempt
attempts network zero number reason backoff c = (true, exhausted reason c)
attempts network (suc left) number reason backoff c =
    let waiting = emit (waited backoff) (emit (reconnecting number) c) in
    let (tried, c') = attempt (network number) waiting in
    let later = attempts network left (suc number) reason (next_backoff backoff) c' in
    outcome c.reconnect_enabled tried (exhausted reason c) c' later

-- `_reconnect_loop`
unfoldable pub reconnect_loop : (ℕ → Attempt) → Text → Connection → Bool × Connection
unfolding attempts
reconnect_loop network reason c = attempts network max_reconnect_attempts 1 reason initial_backoff c
