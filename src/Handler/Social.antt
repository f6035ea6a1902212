-- ===== src/Handler/Social.antt =====
-- server/client_handler.py: invites, public keys and friends.
use quickonnect.Prelude.{
  ℕ, Bool, true, false, ◌||◌, Option, none, some, List, [], ◌∷◌, map, Text, codes, nat_eq,
  if◌then◌else◌, elem,
}
use quickonnect.Prelude.Dict.{get, put}
use quickonnect.Friends
use quickonnect.Friends.{Friend, Tables, Reply}
use quickonnect.Json
use quickonnect.Json.{Json, Fields, dict, num, str, bool, null, arr, items}
use quickonnect.Packet
use quickonnect.Rooms.{note}
use quickonnect.Server.{get_client_by_username, get_online_users, publish, publish_friend_event}
use quickonnect.Handler
use quickonnect.Handler.{text_field, stripped, field_or, is_empty, send_error}
use quickonnect.World.{
  World, Env, Session, Proc, Done, modify, ◌>>=◌, ◌>>◌, send, deliver, stored, select_friends,
}

abbrev pub invalid_invite : Text
invalid_invite = codes "Invalid invite"

abbrev pub username_required : Text
username_required = codes "Username required"

abbrev pub invite_payload : Session → Text → Json
invite_payload me room_code = dict (
    ("room_code", str room_code)
    ∷ ("from_user_id", num me.user_id)
    ∷ ("from_username", str me.username)
    ∷ [])

abbrev pub invite_event : Env → Session → Text → Text → Json
invite_event env me target_username room_code = dict (
    ("target_username", str target_username)
    ∷ ("room_code", str room_code)
    ∷ ("from_user_id", num me.user_id)
    ∷ ("from_username", str me.username)
    ∷ ("originating_server_id", str env.server_id)
    ∷ [])

abbrev pub invite_sent : Text → Text → Json
invite_sent target_username room_code = dict (
    ("room_code", str room_code)
    ∷ ("event", str (codes "invite_sent"))
    ∷ ("username", str target_username)
    ∷ [])

-- To the client of that name here, or else to the other servers.
unfoldable pub forward_invite : Env → Session → Text → Text → World → World
forward_invite env me target_username room_code w =
    elim (get_client_by_username target_username w) [
      | some target ↦
          deliver env target.conn Packet.room_invite_notify (invite_payload me room_code) w
      | none ↦ publish (codes "room_invites") (invite_event env me target_username room_code) w
    ]

unfoldable pub invite : Env → Session → Text → Text → Proc Done
unfolding forward_invite
invite env me target_username room_code =
    if is_empty target_username || is_empty room_code
    then send_error env me 400 invalid_invite
    else (do
      modify (forward_invite env me target_username room_code)
      send env me Packet.room_update (invite_sent target_username room_code))

unfoldable pub handle_room_invite : Env → Session → Fields → Proc Done
unfolding invite
handle_room_invite env me payload = do
  target_username ← text_field "target_username" payload
  room_code ← text_field "room_code" payload
  invite env me target_username room_code

unfoldable pub handle_public_key_announce : Session → Fields → Proc Done
handle_public_key_announce me payload = modify (λ w. record w {
  public_keys = put me.conn (field_or "public_key" (str []) payload) w.public_keys;
})

abbrev pub key_payload : Text → Json → Bool → Json
key_payload username key found =
    dict (("username", str username) ∷ ("public_key", key) ∷ ("found", bool found) ∷ [])

-- The key that the user of a name announced, where it counts as one.
unfoldable pub known_key : Text → World → Option Json
known_key username w = elim (get_client_by_username username w) [
  | none ↦ none
  | some target ↦ elim (get target.conn w.public_keys) [
    | none ↦ none
    | some key ↦ if Json.truthy key then some key else none
  ]
]

abbrev pub key_answer : Text → Option Json → Json
key_answer username none = key_payload username (str []) false
key_answer username (some key) = key_payload username key true

unfoldable pub request_key : Env → Session → Text → World → World
unfolding known_key
request_key env me target_username w =
    if is_empty target_username
    then deliver env me.conn Packet.error (Handler.error_payload 400 username_required) w
    else deliver env me.conn Packet.public_key_response
        (key_answer target_username (known_key target_username w)) w

unfoldable pub handle_public_key_request : Env → Session → Fields → Proc Done
unfolding request_key
handle_public_key_request env me payload = do
  target_username ← text_field "target_username" payload
  modify (request_key env me target_username)

-- `Friend.to_dict`, with `online` as `_send_friend_list` sets it.
abbrev pub friend_json : List ℕ → Friend → Json
friend_json online_users f = dict (
    ("user_id", num f.user_id)
    ∷ ("username", str f.username)
    ∷ ("status", str f.status)
    ∷ ("online", bool (elem f.user_id online_users))
    ∷ [])

abbrev pub friends_payload : List ℕ → List Friend → Json
friends_payload online_users friends =
    dict (("friends", arr (items (map (friend_json online_users) friends))) ∷ [])

unfoldable pub send_friend_list : Env → Session → World → World
send_friend_list env me w =
    let (first, second) = env.tables_work w.log in
    let friends = Friends.get_friends first second me.user_id (env.tables_answer w.log) in
    let (online_users, w') = get_online_users env (note (select_friends me.user_id) w) in
    deliver env me.conn Packet.friend_list (friends_payload online_users friends) w'

abbrev pub request_event : Session → Text → Json
request_event me target_username = dict (
    ("type", str (codes "friend_request"))
    ∷ ("from_user_id", num me.user_id)
    ∷ ("from_username", str me.username)
    ∷ ("to_username", str target_username)
    ∷ [])

abbrev pub request_sent : Text → Json
request_sent target_username =
    dict (("event", str (codes "request_sent")) ∷ ("target_username", str target_username) ∷ [])

abbrev pub after_request : Env → Session → Text → Reply → World → World
after_request env me target_username (false, error) w =
    deliver env me.conn Packet.error (Handler.error_payload 400 error) w
after_request env me target_username (true, error) w =
    deliver env me.conn Packet.friend_update (request_sent target_username)
      (publish_friend_event (request_event me target_username) w)

unfoldable pub request_friend : Env → Session → Text → World → World
request_friend env me target_username w =
    if is_empty target_username
    then w
    else (let (reply, tables) =
          Friends.send_request (env.tables_work w.log).0 me.user_id target_username
            (env.tables_answer w.log) in
        after_request env me target_username reply (note (stored tables) w))

unfoldable pub handle_friend_request : Env → Session → Fields → Proc Done
unfolding request_friend
handle_friend_request env me payload = do
  target_username ← text_field "target_username" payload
  modify (request_friend env me target_username)

abbrev pub accepted_event : Session → Json → Json
accepted_event me from_user_id = dict (
    ("type", str (codes "friend_accepted"))
    ∷ ("from_user_id", num me.user_id)
    ∷ ("from_username", str me.username)
    ∷ ("to_user_id", from_user_id)
    ∷ [])

abbrev pub not_processed : Text
not_processed = codes "Failed to process response"

-- `respond_to_request`, where the value is read as an id.
abbrev pub respond : Env → ℕ → Option ℕ → Bool → World → Reply × Tables
respond env user_id none accept w = ((false, not_processed), env.tables_answer w.log)
respond env user_id (some from_user_id) accept w =
    Friends.respond_to_request (env.tables_work w.log).0 user_id from_user_id accept
      (env.tables_answer w.log)

abbrev pub after_response : Env → Session → Json → Bool → Reply → World → World
after_response env me from_user_id accept (false, error) w =
    deliver env me.conn Packet.error (Handler.error_payload 400 error) w
after_response env me from_user_id false (true, error) w = send_friend_list env me w
after_response env me from_user_id true (true, error) w =
    publish_friend_event (accepted_event me from_user_id) (send_friend_list env me w)

unfoldable pub respond_friend : Env → Session → Json → Bool → World → World
respond_friend env me null accept w = w
respond_friend env me from_user_id accept w =
    let (reply, tables) = respond env me.user_id (env.read_id from_user_id) accept w in
    after_response env me from_user_id accept reply (note (stored tables) w)

unfoldable pub handle_friend_response : Env → Session → Fields → Proc Done
unfolding respond_friend
handle_friend_response env me payload = modify (
    respond_friend env me (Json.or_null (Json.find "from_user_id" payload))
      (Json.truthy (field_or "accept" (bool false) payload)))
