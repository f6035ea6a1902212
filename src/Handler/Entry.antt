-- ===== src/Handler/Entry.antt =====
-- server/client_handler.py: the beginning of a connection, up to its registration.
use quickonnect.Prelude.{
  ℕ, Bool, true, false, Option, none, some, List, [], ◌∷◌, Text, String, codes, nat_eq, ◌==◌,
  if◌then◌else◌,
}
use quickonnect.Auth
use quickonnect.Auth.{Outside, Accounts, User, register, login, validate_token}
use quickonnect.Json.{Json, Fields, dict, num, str, obj, bool}
use quickonnect.Packet
use quickonnect.Packet.{PacketType}
use quickonnect.Protocol.{Message}
use quickonnect.Rooms.{note}
use quickonnect.Handler.{field_or, error_payload}
use quickonnect.Handler.Social.{send_friend_list}
use quickonnect.Handler.Lifecycle.{Arrival, arrived, timed_out, handle_health_query, run_registered}
use quickonnect.World.{World, Env, Session, deliver, closed}

-- What comes of the packet that is to authenticate: an exception, a refusal, or a user, with the reply.
pub data Entry : Type 0 where
  raised : Entry
  refused : PacketType → Json → Entry
  admitted : User → PacketType → Json → Entry

abbrev pub refusal_payload : Text → Json
refusal_payload error = dict (("success", bool false) ∷ ("error", str error) ∷ [])

abbrev pub token_payload : User → Text → Json
token_payload user token = dict (
    ("success", bool true)
    ∷ ("token", str token)
    ∷ ("user_id", num user.id)
    ∷ ("username", str user.username)
    ∷ [])

abbrev pub user_payload : User → Json
user_payload user =
    dict (("success", bool true) ∷ ("user_id", num user.id) ∷ ("username", str user.username) ∷ [])

abbrev pub invalid_token : Text
invalid_token = codes "Invalid or expired token"

abbrev pub auth_timeout : Text
auth_timeout = codes "Authentication timeout"

abbrev pub expected_auth : Text
expected_auth = codes "Expected auth packet"

abbrev pub entry_of : PacketType → Auth.Outcome → Entry
entry_of response Auth.raised = raised
entry_of response (Auth.granted user token) = admitted user response (token_payload user token)
entry_of response (Auth.failed error) = refused response (refusal_payload error)

abbrev pub token_entry : Option (Option User) → Entry
token_entry none = raised
token_entry (some none) = refused Packet.auth_response (refusal_payload invalid_token)
token_entry (some (some user)) = admitted user Packet.auth_response (user_payload user)

-- What is no string has no `split`.
abbrev pub validate : Outside → Json → Accounts → Option (Option User)
validate o (str token) a = validate_token o token a
validate o _ a = none

abbrev pub credential : Fields → String → Json
credential payload key = field_or key (str []) payload

unfoldable pub authenticate_with : Outside → PacketType → Fields → Accounts → Entry × Accounts
authenticate_with o Packet.register_request payload a =
    let (outcome, a') =
      register o (credential payload "username") (credential payload "password") a in
    (entry_of Packet.register_response outcome, a')
authenticate_with o Packet.login_request payload a =
    let (outcome, a') = login o (credential payload "username") (credential payload "password") a in
    (entry_of Packet.login_response outcome, a')
authenticate_with o Packet.auth_request payload a =
    (token_entry (validate o (credential payload "token") a), a)
authenticate_with o _ payload a = (refused Packet.error (error_payload 400 expected_auth), a)

-- The three types of a packet that reads its fields; those of another type are not read.
abbrev pub reads_fields : PacketType → Bool
reads_fields Packet.register_request = true
reads_fields Packet.login_request = true
reads_fields Packet.auth_request = true
reads_fields _ = false

unfoldable pub authenticate : Outside → Message → Accounts → Entry × Accounts
unfolding authenticate_with
authenticate o packet a = elim packet.payload [
  | obj payload ↦ authenticate_with o packet.packet_type payload a
  | _ ↦
      if reads_fields packet.packet_type
      then (raised, a)
      else (refused Packet.error (error_payload 400 expected_auth), a)
]

abbrev pub session_of : ℕ → User → Session
session_of conn user = record { conn = conn; user_id = user.id; username = user.username }

-- The reply to the packet, and after an admission the list of friends.
abbrev pub reply_to : Env → ℕ → Entry × Accounts → World → (Option Session × Accounts) × World
reply_to env conn (raised, a) w = ((none, a), w)
reply_to env conn (refused t p, a) w = ((none, a), deliver env conn t p w)
reply_to env conn (admitted user t p, a) w =
    let s = session_of conn user in ((some s, a), send_friend_list env s (deliver env conn t p w))

-- `_do_auth`: `none` is `False`, or an exception, which end the connection alike.
unfoldable pub do_auth :
    Env → Outside → ℕ → Arrival → Accounts → World → (Option Session × Accounts) × World
unfolding authenticate
do_auth env o conn (arrived packet) a w = reply_to env conn (authenticate o packet a) w
do_auth env o conn timed_out a w =
    ((none, a), deliver env conn Packet.error (error_payload 408 auth_timeout) w)
do_auth env o conn _ a w = ((none, a), w)

-- `_cleanup` of a connection that no user is known of.
abbrev pub end_unknown : ℕ → World → World
end_unknown conn w = note (closed conn) (record w { stopped = conn ∷ w.stopped })

-- The connection once it was authenticated, or was not.
abbrev pub serve : Env → ℕ → List Arrival → (Option Session × Accounts) × World → Accounts × World
serve env conn arrivals ((none, a), w) = (a, end_unknown conn w)
serve env conn arrivals ((some s, a), w) = (a, (run_registered env s arrivals w).1)

-- The connection after its handshake.
abbrev pub after_handshake : Env → Outside → ℕ → List Arrival → Accounts → World → Accounts × World
after_handshake env o conn [] a w = (a, end_unknown conn w)
after_handshake env o conn (arrival ∷ rest) a w =
    serve env conn rest (do_auth env o conn arrival a w)

-- `_do_handshake`: `hello` is the payload of the answer, which the cryptography library makes of the
-- client's key, and `none` for an invalid key. An answer that cannot be sent ends the connection.
unfoldable pub shake_hands :
    Env → Outside → ℕ → Option Json → List Arrival → Accounts → World → Accounts × World
unfolding do_auth
shake_hands env o conn none rest a w = (a, end_unknown conn w)
shake_hands env o conn (some hello) rest a w =
    let w' = deliver env conn Packet.server_hello hello w in
    if env.send_works w.log then after_handshake env o conn rest a w' else (a, end_unknown conn w')

-- `run`, on what arrives on a new connection.
unfoldable pub run :
    Env → Outside → (Json → Option Json) → ℕ → List Arrival → Accounts → World → Accounts × World
unfolding shake_hands
run env o hello conn (arrived first ∷ rest) a w =
    if Packet.code first.packet_type == Packet.code Packet.health_query
    then (a, end_unknown conn (handle_health_query env conn w))
    else if Packet.code first.packet_type == Packet.code Packet.client_hello
    then shake_hands env o conn (hello first.payload) rest a w
    else (a, end_unknown conn w)
run env o hello conn _ a w = (a, end_unknown conn w)
