-- ===== src/Balancer.antt =====
-- loadbalancer/config.py and health_checker.py: the chat servers, their health and their load.
pub mod Choice
pub mod Router
pub mod Keyed
pub mod Routing
pub mod Client
use quickonnect.Prelude.{
  ℕ, Bool, true, false, not, ◌&&◌, ◌||◌, Option, none, some, List, [], ◌∷◌, map, Text, codes,
  nat_eq, text_eq, string_eq, ◌==◌, if◌then◌else◌, ltb, ◌++◌,
}
use quickonnect.Prelude.Dict.{Dict, get, put, values}
use quickonnect.Prelude.Split.{split}
use quickonnect.Json
use quickonnect.Json.{Json, Fields, dict, num, str, obj}
use quickonnect.Packet
use quickonnect.Packet.{PacketType}
use quickonnect.Protocol.{Message}
use quickonnect.Rooms.{is_dm_room}
use quickonnect.Handler.{strip, is_empty, error_payload}

-- An entry of `LBConfig.chat_servers`.
pub record Entry : Type 0 where
  pub server_id : Text
  pub host : Text
  pub port : ℕ

-- The entries of `CHAT_SERVERS`: `int` reads a port, and raises for what is none.
unfoldable pub parse_entry : (Text → Option ℕ) → List Text → Option (List Entry)
parse_entry int_of (server_id ∷ host ∷ port ∷ []) = elim (int_of port) [
  | none ↦ none
  | some n ↦ some (record { server_id = server_id; host = host; port = n } ∷ [])
]
parse_entry int_of _ = some []

abbrev join_entries : Option (List Entry) → Option (List Entry) → Option (List Entry)
join_entries none rest = none
join_entries (some l) none = none
join_entries (some l) (some m) = some (l ++ m)

unfoldable pub parse_entries : (Text → Option ℕ) → List Text → Option (List Entry)
unfolding parse_entry
parse_entries int_of [] = some []
parse_entries int_of (entry ∷ entries) =
    join_entries (parse_entry int_of (split b':' (strip entry))) (parse_entries int_of entries)

abbrev pub default_servers : List Entry
default_servers =
    record { server_id = codes "server-9001"; host = codes "127.0.0.1"; port = 9001 }
    ∷ record { server_id = codes "server-9002"; host = codes "127.0.0.1"; port = 9002 }
    ∷ []

abbrev or_default : List Entry → List Entry
or_default [] = default_servers
or_default (e ∷ l) = e ∷ l

-- `LBConfig.__init__`, of the variable `CHAT_SERVERS`; `none` raises.
unfoldable pub chat_servers : (Text → Option ℕ) → Text → Option (List Entry)
unfolding parse_entries
chat_servers int_of servers_env =
    if is_empty servers_env
    then some default_servers
    else elim (parse_entries int_of (split b',' servers_env)) [
      | none ↦ none
      | some l ↦ some (or_default l)
    ]

pub record ServerInfo : Type 0 where
  pub server_id : Text
  pub host : Text
  pub port : ℕ
  pub connection_count : ℕ
  pub cpu_load : ℕ
  pub is_up : Bool
  pub last_check : ℕ

abbrev pub Servers : Type 0
Servers = Dict Text ServerInfo

abbrev pub new_info : Entry → ServerInfo
new_info e = record {
  server_id = e.server_id;
  host = e.host;
  port = e.port;
  connection_count = 0;
  cpu_load = 0;
  is_up = false;
  last_check = 0;
}

-- `HealthChecker.__init__`
unfoldable pub init_servers : List Entry → Servers → Servers
init_servers [] d = d
init_servers (e ∷ l) d = init_servers l (put e.server_id (new_info e) d)

-- `_check_one`: a server answers with its two numbers, or the query fails.
unfoldable pub check_one : Option (ℕ × ℕ) → ℕ → ServerInfo → ServerInfo
check_one none now info = record info { is_up = false; last_check = now }
check_one (some (connection_count, cpu_load)) now info = record info {
  connection_count = connection_count;
  cpu_load = cpu_load;
  is_up = true;
  last_check = now;
}

-- `_check_all`
unfoldable pub check_all : (ServerInfo → Option (ℕ × ℕ)) → (ServerInfo → ℕ) → Servers → Servers
unfolding check_one
check_all answer now [] = []
check_all answer now ((id, info) ∷ d) =
    (id, check_one (answer info) (now info) info) ∷ check_all answer now d

unfoldable pub up_servers : List ServerInfo → List ServerInfo
up_servers [] = []
up_servers (s ∷ l) = let rest = up_servers l in if s.is_up then s ∷ rest else rest

-- `a < b`, of the sort's keys.
unfoldable pub less_loaded : ServerInfo → ServerInfo → Bool
less_loaded a b =
    ltb a.connection_count b.connection_count
    || a.connection_count == b.connection_count && ltb a.cpu_load b.cpu_load

-- `list.sort`, which keeps the order of equal keys.
unfoldable pub insert_server : ServerInfo → List ServerInfo → List ServerInfo
unfolding less_loaded
insert_server s [] = s ∷ []
insert_server s (t ∷ l) =
    let rest = insert_server s l in if less_loaded t s then t ∷ rest else s ∷ (t ∷ l)

unfoldable pub sort_servers : List ServerInfo → List ServerInfo
unfolding insert_server
sort_servers [] = []
sort_servers (s ∷ l) = insert_server s (sort_servers l)

abbrev pub first : List ServerInfo → Option ServerInfo
first [] = none
first (s ∷ l) = some s

unfoldable pub get_least_loaded : Servers → Option ServerInfo
unfolding up_servers sort_servers
get_least_loaded d = first (sort_servers (up_servers (values d)))
