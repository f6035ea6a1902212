-- ===== src/Handler/Chat/Posting.antt =====
-- Whom a chat message reaches.
use mathlib.Core.List.{reverse_aux}
use mathlib.Core.Path.{ap₂}
use quickonnect.Prelude.{
  ℕ, ◌≤◌, true, false, some, [], ◌∷◌, Text, codes, ltb, nat_eq, text_eq, string_eq, ◌≡◌, refl, ap,
  ◌∙◌, arith, inl, inr, Bool-cases,
}
use quickonnect.Prelude.Dict.{values}
use quickonnect.Json
use quickonnect.Json.{Json, Fields, str, null}
use quickonnect.Messages.{Message, stored_message, name_found}
use quickonnect.Packet
use quickonnect.Rooms.{is_dm_room, get_room, get_room_clients, note}
use quickonnect.Handler.{field_or}
use quickonnect.Handler.Chat.{
  handle_chat_message, chat_typed, chat_in, post, store_message, distribute, finish,
  message_payload, message_type, is_file, json_length, max_content_len,
}
use quickonnect.World.{World, Env, Session, Room, insert_message, select_username}
use quickonnect.World.Sends.{sends, log-deliver_all, bind-some}

-- The message as the database took it.
abbrev pub new_message : Env → Session → Room → Json → Text → ℕ → Json → World → Message
new_message env me room content msg_type id sent_at w = record {
  id = id;
  room_id = room.id;
  sender_id = me.user_id;
  sender_name =
      name_found (
        env.username_answer (insert_message room.id me.user_id content msg_type ∷ w.log)
          me.user_id);
  content = content;
  msg_type = msg_type;
  sent_at = sent_at;
}

-- The calls that storing a message makes.
abbrev pub storing : Session → Room → Json → Text → World → World
storing me room content msg_type w =
    note (select_username me.user_id) (note (insert_message room.id me.user_id content msg_type) w)

handle_chat_message_then :
    (env : Env) (me : Session) (payload : Fields) (c : ℕ) (code : Text) (content : Json)
    (msg_type : Text)
    → field_or "room_code" (str []) payload ≡ str (c ∷ code)
    → field_or "content" (str []) payload ≡ content
    → message_type (field_or "msg_type" (str (codes "text")) payload) ≡ some msg_type
    → Json.truthy content ≡ true
    → handle_chat_message env me payload
      ≡ chat_typed env me payload (str (c ∷ code)) content msg_type
unfolding handle_chat_message Json.truthy
handle_chat_message_then env me payload c code content msg_type at body kind full =
    rw (at, body) (rw full (rw kind (ap₂ (λ r b. chat_typed env me payload r b msg_type) at body)))

chat_typed_then :
    (env : Env) (me : Session) (payload : Fields) (code : Text) (content : Json) (msg_type : Text)
    (n : ℕ)
    → (is_file msg_type ≡ true → (json_length content ≡ some n) × (n ≤ max_content_len))
    → chat_typed env me payload (str code) content msg_type
      ≡ chat_in env me payload code content msg_type
unfolding chat_typed
chat_typed_then env me payload code content msg_type n fit = elim (Bool-cases (is_file msg_type)) [
  | inl file ↦
      let (size, small) = fit file in
      let fits : ltb max_content_len n ≡ false = ground arith in rw file (rw size (rw fits refl))
  | inr text ↦ rw text refl
]

store_message_lem :
    (env : Env) (me : Session) (w : World) (content : Json) (msg_type : Text) (room : Room) (id : ℕ)
    (sent_at : Json)
    → env.message_answer w.log room.id me.user_id content msg_type ≡ some (id, sent_at)
    → store_message env room.id me.user_id content msg_type w ≡ (
      some (some (new_message env me room content msg_type id sent_at w)),
      storing me room content msg_type w,
    )
unfolding store_message stored_message
store_message_lem env me w content msg_type room id sent_at stored = rw (stored, store_message) refl

post_log :
    (env : Env) (me : Session) (payload : Fields) (w : World) (code : Text) (content : Json)
    (msg_type : Text) (room : Room) (id : ℕ) (sent_at : Json)
    → is_dm_room code ≡ false
    → get_room code w ≡ some room
    → env.message_answer w.log room.id me.user_id content msg_type ≡ some (id, sent_at)
    → (post env me payload code content msg_type w).1.log
      ≡ reverse_aux
          (sends (values (get_room_clients code w)) Packet.chat_message (
            message_payload me code msg_type payload
              (new_message env me room content msg_type id sent_at w)))
          (storing me room content msg_type w).log
unfolding post distribute get_room_clients
post_log env me payload w code content msg_type room id sent_at regular there stored =
    let msg = new_message env me room content msg_type id sent_at w in
    rw (there, post)
      (ap (λ r. r.1.log)
          (bind-some (store_message env room.id me.user_id content msg_type)
            (finish env me payload code msg_type) w (storing me room content msg_type w) (some msg)
            (store_message_lem env me w content msg_type room id sent_at stored))
        ∙ rw regular (
            log-deliver_all env (values (get_room_clients code w)) Packet.chat_message
              (message_payload me code msg_type payload msg) (storing me room content msg_type w)))

-- A message to a regular room that is open on this server, from any user, with a content that is not
-- empty, of one of the three types, and with no more than 14 MiB if it is a file, is written to the
-- database once, and then sent to every client of the room in order, the sender's own among them if
-- it is there, and to nobody else; where the database stores it.
pub chat_log :
    (env : Env) (me : Session) (payload : Fields) (w : World) (c : ℕ) (code : Text) (content : Json)
    (msg_type : Text) (n : ℕ) (room : Room) (id : ℕ) (sent_at : Json)
    → field_or "room_code" (str []) payload ≡ str (c ∷ code)
    → field_or "content" (str []) payload ≡ content
    → message_type (field_or "msg_type" (str (codes "text")) payload) ≡ some msg_type
    → Json.truthy content ≡ true
    → (is_file msg_type ≡ true → (json_length content ≡ some n) × (n ≤ max_content_len))
    → is_dm_room (c ∷ code) ≡ false
    → get_room (c ∷ code) w ≡ some room
    → env.message_answer w.log room.id me.user_id content msg_type ≡ some (id, sent_at)
    → (handle_chat_message env me payload w).1.log
      ≡ reverse_aux
          (sends (values (get_room_clients (c ∷ code) w)) Packet.chat_message (
            message_payload me
              (c ∷ code)
              msg_type
              payload
              (new_message env me room content msg_type id sent_at w)))
          (storing me room content msg_type w).log
unfolding chat_in
chat_log env me payload w c code content msg_type n room id sent_at at body kind full fit regular
      there stored =
    ap (λ f. (f w).1.log)
      (handle_chat_message_then env me payload c code content msg_type at body kind full
        ∙ chat_typed_then env me payload (c ∷ code) content msg_type n fit)
    ∙ rw regular
        (post_log env me payload w (c ∷ code) content msg_type room id sent_at regular there stored)
