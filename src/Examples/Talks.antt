-- ===== src/Examples/Talks.antt =====
-- Messages between users of two servers, in a room, and the end of a connection.
use mathlib.Core.List.{reverse_aux}
use quickonnect.Prelude.{
  ℕ, ◌≡◌, ◌≢◌, refl, arith, true, false, none, some, [], ◌∷◌, codes, nat_eq, text_eq, text_beq,
  ◌==◌, if◌then◌else◌, text_beq_iff,
}
use quickonnect.Prelude.Dict.{get, values}
use quickonnect.Json
use quickonnect.Json.{Json, Fields, str, num, dict}
use quickonnect.Packet
use quickonnect.Rooms.{get_room_clients, get_room, is_dm_room, starts_with}
use quickonnect.Rooms.Maps.{member}
use quickonnect.Server.{get_client, get_client_by_username, named_client, register_client}
use quickonnect.Server.Listening.{receive}
use quickonnect.Server.Delivery.{dm_across}
use quickonnect.Handler.Chat.{
  handle_chat_message, distribute, message_payload, extract_dm_recipient, ends_with, message_type,
  json_length,
}
use quickonnect.Handler.Chat.Posting.{chat_log, new_message, storing}
use quickonnect.Handler.Chat.Recipient.{dm_code, extract_dm_recipient_lem}
use quickonnect.Handler.Lifecycle.{cleanup}
use quickonnect.Handler.Lifecycle.Cleanup.{cleanup_members, cleanup-register_client}
use quickonnect.World.{World, Env, Session, deliver, published, start}
use quickonnect.World.Sends.{IsLogged, sends}
use quickonnect.Examples.Members.{ann, cy, lobby, lobby_data, server, env}

abbrev far : Env
far = record env { server_id = codes "s2" }

-- Cy is on the other server.
abbrev elsewhere : World
elsewhere = record start { clients = (3, cy) ∷ [] }

abbrev greeting : Json
greeting = dict (("content", str (codes "hello")) ∷ [])

apart : env.server_id ≢ far.server_id
unfolding text_beq
apart e = let tested : false ≡ true = (text_beq_iff (codes "s1") (codes "s2")).1 e in cc tested

across_example :
    (event : Json) × (IsLogged
        (published (codes "dm_messages") event)
        (distribute env ann (codes "DM-ann-cy") greeting server).log
      × ((receive env (codes "dm_messages") (some event) server ≡ server)
          × (receive far (codes "dm_messages") (some event) elsewhere
              ≡ deliver far cy.conn Packet.chat_message greeting elsewhere)))
unfolding is_dm_room starts_with extract_dm_recipient ends_with named_client get_room_clients get
    get_client_by_username text_beq Json.truthy
across_example =
    dm_across env far ann (codes "DM-ann-cy") b'c' (codes "y") greeting server elsewhere cy apart
      refl refl refl refl refl refl

recipient_example :
    (extract_dm_recipient (codes "ann") (dm_code (codes "ann") (codes "cy")) ≡ some (codes "cy"))
    × (extract_dm_recipient (codes "cy") (dm_code (codes "ann") (codes "cy")) ≡ some (codes "ann"))
recipient_example = extract_dm_recipient_lem (codes "ann") (codes "cy") (λ e. cc e) refl refl

abbrev message : Fields
message = Json.fields (("room_code", str lobby) ∷ ("content", str (codes "hello")) ∷ [])

chat_example :
    (handle_chat_message env ann message server).1.log
    ≡ reverse_aux
        (sends (values (get_room_clients lobby server)) Packet.chat_message (
          message_payload ann lobby (codes "text") message (
            new_message env ann lobby_data.room
              (str (codes "hello"))
              (codes "text")
              5
              Json.null
              server)))
        (storing ann lobby_data.room (str (codes "hello")) (codes "text") server).log
unfolding Json.get_or Json.find message_type Json.truthy json_length is_dm_room starts_with get_room
    get text_beq
chat_example =
    chat_log env ann message server b'L' (codes "OBBY1") (str (codes "hello")) (codes "text") 5
      lobby_data.room 5 Json.null refl refl refl refl (λ h. (refl, omega arith)) refl refl refl

cleanup_example :
    (member lobby 1 (cleanup env ann server).1.rooms
      ≡ (if ◌==◌ {A = ℕ} 1 ann.user_id then none else member lobby 1 server.rooms))
    × (get_client ann.user_id (cleanup env ann server).1 ≡ none)
cleanup_example = cleanup_members env ann server lobby 1

-- Ann again, by another connection.
abbrev ann_again : Session
ann_again = record ann { conn = 4 }

replaced_example :
    (get_client 1 (register_client env ann_again server).1 ≡ some ann_again)
    × ((get_client 1 (cleanup env ann (register_client env ann_again server).1).1 ≡ none)
        × (member lobby 1 (cleanup env ann (register_client env ann_again server).1).1.rooms
            ≡ none))
replaced_example = cleanup-register_client env ann ann_again server lobby refl
