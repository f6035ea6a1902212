-- ===== src/Handler/Chat.antt =====
-- server/client_handler.py: chat messages, in rooms and between two users.
pub mod Recipient
pub mod Posting
use quickonnect.Prelude.{
  ℕ, Bool, true, false, not, ◌&&◌, ◌||◌, Option, none, some, List, [], ◌∷◌, ◌++◌, Text, String,
  codes, nat_eq, text_eq, string_eq, ◌==◌, if◌then◌else◌, ltb, length, take, drop, ◌-◌, ◌*◌, suc,
}
use quickonnect.Prelude.Dict.{Dict, has, values}
use quickonnect.Json
use quickonnect.Json.{Json, Items, Fields, nil, cons, end, field, dict, num, str, arr, obj}
use quickonnect.Messages.{Message, stored_message, message_fields}
use quickonnect.Packet
use quickonnect.Rooms.{
  starts_with, is_dm_room, get_room, get_room_clients, join_room, note, RoomState,
}
use quickonnect.Server.{get_client_by_username, named_client, publish_dm_message}
use quickonnect.Handler.{field_or, send_error, room_not_found, add_room, is_empty}
use quickonnect.World.{
  World, Env, Session, Proc, Done, pure, raise, done, modify, ◌>>=◌, ◌>>◌, deliver, deliver_all,
  insert_message, select_username,
}

abbrev pub invalid_message_type : Text
invalid_message_type = codes "Invalid message type"

abbrev pub file_too_large : Text
file_too_large = codes "File too large (max 10 MB)"

abbrev pub no_dm_room : Text
no_dm_room = codes "Failed to open DM room"

abbrev pub not_stored : Text
not_stored = codes "Failed to store message"

abbrev pub max_content_len : ℕ
max_content_len = 14 * 1024 * 1024

-- The three types of a message.
unfoldable pub message_type : Json → Option Text
message_type (str t) =
    if t == codes "text" || (t == codes "image" || t == codes "file") then some t else none
message_type _ = none

abbrev pub is_file : Text → Bool
is_file t = t == codes "image" || t == codes "file"

abbrev pub count_items : Items → ℕ
count_items nil = 0
count_items (cons v l) = suc (count_items l)

abbrev pub count_fields : Fields → ℕ
count_fields end = 0
count_fields (field k v l) = suc (count_fields l)

-- `len(v)`, which raises for what has no length.
unfoldable pub json_length : Json → Option ℕ
json_length (str t) = some (length t)
json_length (arr l) = some (count_items l)
json_length (obj l) = some (count_fields l)
json_length _ = none

-- `s.endswith(suffix)`
unfoldable pub ends_with : Text → Text → Bool
ends_with suffix t =
    not (ltb (length t) (length suffix)) && drop (length t - length suffix) t == suffix

unfoldable pub extract_dm_recipient : Text → Text → Option Text
unfolding ends_with starts_with
extract_dm_recipient username room_code =
    let inner = drop 3 room_code in
    let prefix = username ++ codes "-" in
    let suffix = codes "-" ++ username in
    if starts_with prefix inner
    then some (drop (length prefix) inner)
    else if ends_with suffix inner
    then some (take (length inner - length suffix) inner)
    else none

-- Whether the sender is in the room of two, which is opened and joined where need be.
abbrev opening_failed : Env → Session → Text → Proc Bool
opening_failed env me error = do
  send_error env me 500 (if is_empty error then no_dm_room else error)
  pure false

abbrev opened : Session → Text → Proc Bool
opened me room_code = do modify (add_room me room_code); pure true

unfoldable pub after_join : Env → Session → Text → Option RoomState × Option Text → Proc Bool
after_join env me room_code (none, none) = opening_failed env me []
after_join env me room_code (none, some error) = opening_failed env me error
after_join env me room_code (some state, none) = opened me room_code
after_join env me room_code (some state, some error) =
    if is_empty error then opened me room_code else opening_failed env me error

unfoldable pub open_dm : Env → Session → Text → Proc Bool
unfolding after_join
open_dm env me room_code w =
    if has me.user_id (get_room_clients room_code w)
    then (some true, w)
    else (let (result, w') = join_room env room_code me w in after_join env me room_code result w')

-- `message_service.store_message`: the second query is made once the first has stored the message.
unfoldable pub store_message : Env → ℕ → ℕ → Json → Text → Proc (Option Message)
store_message env room_id sender_id content msg_type w =
    let w₁ = note (insert_message room_id sender_id content msg_type) w in
    elim (env.message_answer w.log room_id sender_id content msg_type) [
      | none ↦ (some none, w₁)
      | some row ↦ (
        some (
            stored_message room_id sender_id content msg_type (some row)
              (env.username_answer w₁.log sender_id)),
        note (select_username sender_id) w₁,
      )
    ]

abbrev pub file_fields : Text → Fields → List (String × Json)
file_fields msg_type payload =
    if is_file msg_type
    then ("filename", field_or "filename" (str []) payload)
      ∷ ("filesize", field_or "filesize" (num 0) payload)
      ∷ []
    else []

-- `msg_data`
abbrev pub message_payload : Session → Text → Text → Fields → Message → Json
message_payload me room_code msg_type payload msg = dict (
    message_fields (record msg { sender_name = me.username })
    ++ (("room_code", str room_code) ∷ file_fields msg_type payload))

-- The push to the other user of a room of two, unless the room's clients include them.
unfoldable pub push_to : Env → Text → Dict ℕ Session → Json → World → World
push_to env recipient clients msg_data w = elim (named_client recipient clients) [
  | some s ↦ w
  | none ↦ elim (get_client_by_username recipient w) [
    | some s ↦ deliver env s.conn Packet.chat_message msg_data w
    | none ↦ publish_dm_message env recipient msg_data w
  ]
]

unfoldable pub push_dm : Env → Session → Text → Dict ℕ Session → Json → World → World
unfolding push_to
push_dm env me room_code clients msg_data w = elim (extract_dm_recipient me.username room_code) [
  | none ↦ w
  | some recipient ↦ if is_empty recipient then w else push_to env recipient clients msg_data w
]

unfoldable pub distribute : Env → Session → Text → Json → World → World
unfolding push_dm
distribute env me room_code msg_data w =
    let clients = get_room_clients room_code w in
    let w' = deliver_all env (values clients) Packet.chat_message msg_data w in
    if is_dm_room room_code then push_dm env me room_code clients msg_data w' else w'

abbrev pub finish : Env → Session → Fields → Text → Text → Option Message → Proc Done
finish env me payload room_code msg_type none = send_error env me 500 not_stored
finish env me payload room_code msg_type (some msg) =
    modify (distribute env me room_code (message_payload me room_code msg_type payload msg))

unfoldable pub post : Env → Session → Fields → Text → Json → Text → Proc Done
unfolding store_message distribute
post env me payload room_code content msg_type w = elim (get_room room_code w) [
  | none ↦ send_error env me 404 room_not_found w
  | some room ↦
      (store_message env room.id me.user_id content msg_type
          >>= finish env me payload room_code msg_type)
        w
]

unfoldable pub chat_in : Env → Session → Fields → Text → Json → Text → Proc Done
unfolding open_dm post
chat_in env me payload room_code content msg_type =
    if is_dm_room room_code
    then (open_dm env me room_code >>= λ ready.
        if ready then post env me payload room_code content msg_type else done)
    else post env me payload room_code content msg_type

-- A room code that is no string has no `startswith`, and raises.
abbrev pub chat_code : Env → Session → Fields → Json → Json → Text → Proc Done
chat_code env me payload (str room_code) content msg_type =
    chat_in env me payload room_code content msg_type
chat_code env me payload _ content msg_type = raise

unfoldable pub chat_typed : Env → Session → Fields → Json → Json → Text → Proc Done
unfolding json_length chat_in
chat_typed env me payload room_code content msg_type =
    if is_file msg_type
    then elim (json_length content) [
      | none ↦ raise
      | some n ↦
          if ltb max_content_len n
          then send_error env me 413 file_too_large
          else chat_code env me payload room_code content msg_type
    ]
    else chat_code env me payload room_code content msg_type

unfoldable pub handle_chat_message : Env → Session → Fields → Proc Done
unfolding message_type chat_typed
handle_chat_message env me payload =
    let room_code = field_or "room_code" (str []) payload in
    let content = field_or "content" (str []) payload in
    if not (Json.truthy room_code) || not (Json.truthy content)
    then done
    else elim (message_type (field_or "msg_type" (str (codes "text")) payload)) [
      | none ↦ send_error env me 400 invalid_message_type
      | some msg_type ↦ chat_typed env me payload room_code content msg_type
    ]
