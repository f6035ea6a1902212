-- ===== src/World.antt =====
-- The state of one chat server, the calls it makes of what is outside, and its handlers' monad.
-- What the outside answers is a function of the calls made so far, so that it may answer the same
-- question differently at another time.
pub mod Sends
use quickonnect.Prelude.{
  ℕ, Bool, true, false, Option, none, some, List, [], ◌∷◌, Text, nat_eq, text_eq, if◌then◌else◌,
  ◌==◌,
}
use quickonnect.Prelude.Dict.{Dict, get, put}
use quickonnect.Json.{Json, Fields}
use quickonnect.Packet.{PacketType}
use quickonnect.Screen.{ScreenRelayState}
use quickonnect.Camera.{CameraState}
use quickonnect.Mixer.{AudioMixerState}
use quickonnect.Whiteboard.{WhiteboardState, Row}
use quickonnect.Stt.{Bytes}
use quickonnect.Messages.{Message}
use quickonnect.Friends.{Tables}

-- shared/models.py: `Room`, less its time stamp.
pub record Room : Type 0 where
  pub id : ℕ
  pub room_code : Text
  pub created_by : ℕ

-- A `ClientHandler` object past authentication: its identity, and the attributes that stay.
pub record Session : Type 0 where
  pub conn : ℕ
  pub user_id : ℕ
  pub username : Text

-- A value of `RoomManager._rooms`.
pub record RoomData : Type 0 where
  pub room : Room
  pub clients : Dict ℕ Session
  pub screen : ScreenRelayState
  pub audio : AudioMixerState
  pub whiteboard : WhiteboardState
  pub camera : CameraState

pub data Call : Type 0 where
  sent : ℕ → PacketType → Json → Call
  redis_get redis_delete : Text → Call
  redis_set : Text → Text → Call
  redis_hget : Text → Call
  select_room : Text → Call
  insert_room : Text → ℕ → Call
  insert_participant update_left : ℕ → ℕ → Call
  select_history select_board : ℕ → Call
  rendered : Text → Call
  insert_event : ℕ → ℕ → ℕ → Text → Fields → Call
  submitted : ℕ → Text → List Bytes → Call
  -- `sadd` and `srem` of the set `online_users`, and its members.
  redis_online redis_offline : ℕ → Call
  redis_members : Call
  -- `publish` on a channel, `hset` and `hdel` of the table `servers`.
  published : Text → Json → Call
  redis_hset : Text → Json → Call
  redis_hdel : Text → Call
  insert_message : ℕ → ℕ → Json → Text → Call
  select_username : ℕ → Call
  -- The tables of users and friendships, as a request or an answer left them.
  stored : Tables → Call
  select_friends : ℕ → Call
  -- The socket of a connection, as it is closed.
  closed : ℕ → Call
  -- The room's data as its threads are stopped and it is given up.
  destroyed : Text → RoomData → Call

-- The answers from outside. `none` is an exception, or the answer `None` where the source treats an
-- exception as that.
pub record Env : Type 0 where
  pub server_id : Text
  pub send_works : List Call → Bool
  pub redis_get_answer : List Call → Text → Option Text
  pub select_room_answer : List Call → Text → Option (Option Room)
  pub insert_room_answer : List Call → Text → ℕ → Option ℕ
  pub history_answer : List Call → ℕ → Option (List Message)
  pub snapshot_answer : List Call → ℕ → Option (Option (ℕ × Bytes))
  pub rows_answer : List Call → ℕ → ℕ → Option (List Row)
  pub stt_enabled : Bool
  pub server_address_answer : List Call → Text → Option (Text × ℕ)
  pub decode_base64 : Text → Option Bytes
  pub encode_base64 : Bytes → Text
  pub render_answer : List Call → Text → Option Bytes
  -- Whether `sadd`, `srem` and `publish` raise nothing.
  pub redis_works : List Call → Bool
  -- The members of `online_users`, as `int` reads them.
  pub members_answer : List Call → Option (List ℕ)
  -- The id and the time of a message that was stored, and its sender's name.
  pub message_answer : List Call → ℕ → ℕ → Json → Text → Option (ℕ × Json)
  pub username_answer : List Call → ℕ → Option (Option Text)
  -- The tables as they are when they are asked, and whether the statements on them raise nothing.
  pub tables_answer : List Call → Tables
  pub tables_work : List Call → Bool × Bool
  -- The id that the database reads a value as (0 where it is the id of no row); `none` raises.
  pub read_id : Json → Option ℕ
  -- The natural number that equals the float of a spelling, if one does.
  pub float_id : Text → Option ℕ
  pub now : List Call → ℕ

-- Newest call first.
pub record World : Type 0 where
  pub rooms : Dict Text RoomData
  pub current_rooms : Dict ℕ (List Text)
  -- `ChatServer._clients`
  pub clients : Dict ℕ Session
  -- `_e2e_public_key` of each connection.
  pub public_keys : Dict ℕ Json
  pub stopped : List ℕ
  pub log : List Call

abbrev pub start : World
start = record {
  rooms = [];
  current_rooms = [];
  clients = [];
  public_keys = [];
  stopped = [];
  log = [];
}

-- A handler's code: `none` is an exception, which `_dispatch` logs. What was done stays done.
abbrev pub Proc {ℓ} : Type ℓ → Type ℓ
Proc A = World → Option A × World

module _ {ℓ} {A : Type ℓ} where
  abbrev pub pure : A → Proc A
  pure a w = (some a, w)

  abbrev pub raise : Proc A
  raise w = (none, w)

  abbrev pub gets : (World → A) → Proc A
  gets f w = (some (f w), w)

infixl 5 ◌>>=◌ ◌>>◌
abbrev pub ◌>>=◌ {ℓ κ} :
    {A : Type ℓ} {B : Type κ} → Proc A → (A → Proc B) → World → Option B × World
◌>>=◌ m f w = let (r, w') = m w in elim r [ none ↦ (none, w') | some a ↦ f a w' ]

abbrev pub ◌>>◌ {ℓ κ} : {A : Type ℓ} {B : Type κ} → Proc A → Proc B → World → Option B × World
m >> k = m >>= λ _. k

abbrev pub Done : Type 0
Done = Unit

abbrev pub done : Proc Done
done w = (some tt, w)

abbrev pub modify : (World → World) → Proc Done
modify f w = (some tt, f w)

abbrev pub call : Call → Proc Done
call c w = (some tt, record w { log = c ∷ w.log })

-- `ClientHandler.send`: a failure stops the handler's loop, and nothing is raised.
unfoldable pub deliver : Env → ℕ → PacketType → Json → World → World
deliver env conn packet_type payload w = record w {
  stopped = if env.send_works w.log then w.stopped else conn ∷ w.stopped;
  log = sent conn packet_type payload ∷ w.log;
}

abbrev pub send : Env → Session → PacketType → Json → Proc Done
send env s packet_type payload = modify (deliver env s.conn packet_type payload)

-- `for handler in …: handler.send(…)`
unfoldable pub deliver_all : Env → List Session → PacketType → Json → World → World
unfolding deliver
deliver_all env [] packet_type payload w = w
deliver_all env (s ∷ l) packet_type payload w =
    deliver_all env l packet_type payload (deliver env s.conn packet_type payload w)

-- The handlers of a room's clients, in the dict's order, but for the user `skip`.
unfoldable pub without_user : ℕ → Dict ℕ Session → List Session
without_user skip [] = []
without_user skip ((uid, s) ∷ d) =
    if uid == skip then without_user skip d else s ∷ without_user skip d
