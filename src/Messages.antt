-- ===== src/Messages.antt =====
-- shared/models.py (`Message`) and server/services/message_service.py.
use quickonnect.Prelude.{ℕ, ◌∷◌, String, Option, none, some, List, reverse, Text, []}
use quickonnect.Json.{Json, dict, num, str}

-- `Message`; the time is kept as `to_dict` shows it, and the content is what the packet held.
pub record Message : Type 0 where
  pub id : ℕ
  pub room_id : ℕ
  pub sender_id : ℕ
  pub sender_name : Text
  pub content : Json
  pub msg_type : Text
  pub sent_at : Json

-- `Message.to_dict`
abbrev pub message_fields : Message → List (String × Json)
message_fields m =
    ("id", num m.id)
    ∷ ("room_id", num m.room_id)
    ∷ ("sender_id", num m.sender_id)
    ∷ ("sender_name", str m.sender_name)
    ∷ ("content", m.content)
    ∷ ("msg_type", str m.msg_type)
    ∷ ("sent_at", m.sent_at)
    ∷ []

abbrev pub message_json : Message → Json
message_json m = dict (message_fields m)

abbrev pub history_limit : ℕ
history_limit = 100

-- What `get_history` makes of the rows, which the query gives newest first and at most
-- `history_limit` of; `none` is a query that raises.
unfoldable pub oldest_first : Option (List Message) → List Message
oldest_first none = []
oldest_first (some rows) = reverse rows

-- The name of the sender, where the query for it finds one.
unfoldable pub name_found : Option (Option Text) → Text
name_found (some (some name)) = name
name_found _ = []

-- What `store_message` makes of the answers to its two statements.
unfoldable pub stored_message :
    ℕ → ℕ → Json → Text → Option (ℕ × Json) → Option (Option Text) → Option Message
unfolding name_found
stored_message room_id sender_id content msg_type none name = none
stored_message room_id sender_id content msg_type (some (id, sent_at)) name = some (record {
  id = id;
  room_id = room_id;
  sender_id = sender_id;
  sender_name = name_found name;
  content = content;
  msg_type = msg_type;
  sent_at = sent_at;
})
