-- ===== src/Server/Delivery.antt =====
-- What one server publishes, and another one hears.
use mathlib.Core.Path.{subst}
use quickonnect.Prelude.{
  ℕ, true, false, none, some, List, ◌∷◌, Text, codes, text_eq, text_beq, ◌==◌, ◌≡◌, ◌≢◌, refl, sym,
  ap, ◌∙◌, arith, inl, text_beq_iff, ==_refl,
}
use quickonnect.Prelude.Dict.{values}
use quickonnect.Json
use quickonnect.Json.{Json, num, str, dict}
use quickonnect.Packet
use quickonnect.Rooms.{is_dm_room, get_room_clients}
use quickonnect.Server.{
  dm_event, handle_dm_message, handle_room_invite_pubsub, get_client_by_username, named_client,
  publish, publish_dm_message,
}
use quickonnect.Server.Listening.{receive}
use quickonnect.Handler.Chat.{distribute, push_dm, push_to, extract_dm_recipient}
use quickonnect.Handler.{is_empty}
use quickonnect.Handler.Social.{forward_invite, invite_event, invite_payload}
use quickonnect.World.{World, Env, Session, deliver, deliver_all, published}
use quickonnect.World.Sends.{IsLogged, deliver_all-SameState}

text_differs : (t u : Text) → t ≢ u → (t == u) ≡ false
text_differs t u n = ground (arith, text_beq_iff t u)

dm_received :
    (a b : Env) (c : ℕ) (name : Text) (msg_data : Json) (w : World) (s : Session)
    → a.server_id ≢ b.server_id
    → Json.truthy msg_data ≡ true
    → get_client_by_username (c ∷ name) w ≡ some s
    → receive b (codes "dm_messages") (some (dm_event a (c ∷ name) msg_data)) w
      ≡ deliver b s.conn Packet.chat_message msg_data w
unfolding receive handle_dm_message Json.find Json.get_or deliver text_beq
dm_received a b c name msg_data w s apart full found =
    rw (text_differs a.server_id b.server_id apart, full) (rw found refl)

dm_echo :
    (a : Env) (name : Text) (msg_data : Json) (w : World)
    → receive a (codes "dm_messages") (some (dm_event a name msg_data)) w ≡ w
unfolding receive handle_dm_message Json.find text_beq
dm_echo a name msg_data w = rw (==_refl a.server_id) refl

invite_received :
    (a b : Env) (me : Session) (c : ℕ) (name room_code : Text) (w : World) (s : Session)
    → a.server_id ≢ b.server_id
    → get_client_by_username (c ∷ name) w ≡ some s
    → receive b (codes "room_invites") (some (invite_event a me (c ∷ name) room_code)) w
      ≡ deliver b s.conn Packet.room_invite_notify (invite_payload me room_code) w
unfolding receive handle_room_invite_pubsub Json.find Json.get_or deliver text_beq
invite_received a b me c name room_code w s apart found =
    rw (text_differs a.server_id b.server_id apart) (rw found refl)

clients-deliver_all :
    (env : Env) (l : List Session) (t : Packet.PacketType) (p : Json) (w : World)
    → (deliver_all env l t p w).clients ≡ w.clients
clients-deliver_all env l t p w = (deliver_all-SameState env l t p w).clients

-- The world once the room's own clients have been sent a chat message.
abbrev pub echoed : Env → Text → Json → World → World
echoed env room_code msg_data w =
    deliver_all env (values (get_room_clients room_code w)) Packet.chat_message msg_data w

distribute-publish_dm_message :
    (a : Env) (me : Session) (room_code : Text) (c : ℕ) (name : Text) (msg_data : Json) (w : World)
    → is_dm_room room_code ≡ true
    → extract_dm_recipient me.username room_code ≡ some (c ∷ name)
    → named_client (c ∷ name) (get_room_clients room_code w) ≡ none
    → get_client_by_username (c ∷ name) w ≡ none
    → distribute a me room_code msg_data w
      ≡ publish_dm_message a (c ∷ name) msg_data (echoed a room_code msg_data w)
unfolding distribute push_dm push_to get_client_by_username publish_dm_message is_empty
distribute-publish_dm_message a me room_code c name msg_data w dm recipient outside absent =
    let far : named_client (c ∷ name) (echoed a room_code msg_data w).clients ≡ none =
      ap (named_client (c ∷ name)) (
        clients-deliver_all a (values (get_room_clients room_code w)) Packet.chat_message msg_data
          w)
      ∙ absent in
    rw dm (rw (recipient, push_dm) (rw (outside, push_to) (rw far refl)))

-- A message, not empty, to a user who is on another server reaches them: where the room of two has no client of
-- the recipient's name here, and no client of this server has it, distributing the message publishes
-- an event that this server ignores, and that another server, with a client of that name, delivers to
-- that client, with the message as it is.
pub dm_across :
    (a b : Env) (me : Session) (room_code : Text) (c : ℕ) (name : Text) (msg_data : Json)
    (w v : World) (s : Session)
    → a.server_id ≢ b.server_id
    → is_dm_room room_code ≡ true
    → extract_dm_recipient me.username room_code ≡ some (c ∷ name)
    → named_client (c ∷ name) (get_room_clients room_code w) ≡ none
    → get_client_by_username (c ∷ name) w ≡ none
    → Json.truthy msg_data ≡ true
    → get_client_by_username (c ∷ name) v ≡ some s
    → (event : Json) × (IsLogged
          (published (codes "dm_messages") event)
          (distribute a me room_code msg_data w).log
        × ((receive a (codes "dm_messages") (some event) w ≡ w)
            × (receive b (codes "dm_messages") (some event) v
                ≡ deliver b s.conn Packet.chat_message msg_data v)))
unfolding publish_dm_message publish
dm_across a b me room_code c name msg_data w v s apart dm recipient outside absent full there = (
  dm_event a (c ∷ name) msg_data,
  (
    subst (λ x. IsLogged (published (codes "dm_messages") (dm_event a (c ∷ name) msg_data)) x.log)
        (sym (
          distribute-publish_dm_message a me room_code c name msg_data w dm recipient outside
            absent))
        (inl refl),
    (dm_echo a (c ∷ name) msg_data w, dm_received a b c name msg_data v s apart full there),
  ),
)

-- An invite to a user who is on another server reaches them: it is published, and the other server, which
-- has a client of that name, sends that client the notice that a client here would have been sent.
pub invite_across :
    (a b : Env) (me : Session) (c : ℕ) (name room_code : Text) (w v : World) (s : Session)
    → a.server_id ≢ b.server_id
    → get_client_by_username (c ∷ name) w ≡ none
    → get_client_by_username (c ∷ name) v ≡ some s
    → (event : Json) × (IsLogged
          (published (codes "room_invites") event)
          (forward_invite a me (c ∷ name) room_code w).log
        × (receive b (codes "room_invites") (some event) v
            ≡ forward_invite b me (c ∷ name) room_code v))
unfolding forward_invite publish
invite_across a b me c name room_code w v s apart absent there = (
  invite_event a me (c ∷ name) room_code,
  (
    rw (absent, IsLogged) (inl refl),
    rw (there, forward_invite) (invite_received a b me c name room_code v s apart there),
  ),
)
