-- ===== src/Lib.antt =====
-- QuicKonNect: a chat server's rooms and what each packet of a client does to them, the packets as
-- bytes, the accounts and tokens of its users, and the load balancer before the servers.
--
-- Parts, and the files that model them. A record stands for each class, a function for each method,
-- under the source's names.
--   Screen        server/features/screen_relay.py: who shares the screen of a room, who controls it.
--   Camera        server/features/camera_state.py: whose camera is on.
--   Whiteboard    server/features/whiteboard.py: events, their numbers, undo and redo, the snapshot.
--   Stt           server/features/stt_worker.py: the frames gathered for speech-to-text.
--   Mixer         server/features/audio_mixer.py: jitter buffers and the mix that each member hears.
--   Packet        shared/constants.py: the packet types, their numbers, the plaintext set.
--   Friends       server/services/friend_service.py: friend requests, on the tables of the database.
--   World         the state of one server, the calls it makes of what is outside, and the monad of
--                 its handlers (server/client_handler.py: `send`; shared/models.py: `Room`).
--   Rooms         server/room_manager.py: `RoomManager`, on that state.
--   Handler       server/client_handler.py: the handlers of screen sharing, remote control, joining,
--                 leaving, camera, microphone and whiteboard, composed of the parts above.
--   Handler/Chat, Handler/Social, Handler/Lifecycle, Handler/Entry
--                 chat messages; invites, keys and friends; which handler a packet reaches, the main
--                 loop and the end of a connection; its beginning, up to the registration.
--   Messages      server/services/message_service.py, and `Message` of shared/models.py.
--   Auth          server/services/auth_service.py: registration, login, tokens of a user.
--   Server        server/main.py: the clients of a server, what it publishes and hears.
--   Crypto        shared/crypto.py: packets' encryption, and tokens (Crypto/Jwt).
--   Protocol      shared/protocol.py: packets as bytes, and a packet read from a stream.
--   Balancer      loadbalancer/config.py, health_checker.py: the servers and their load; Balancer/Router:
--                 loadbalancer/router.py: the server that a client is sent to; Balancer/Client:
--                 client/network/lb_client.py: the client that asks.
--   Subtitle      server/features/subtitle.py: a transcript, translated and sent to a room.
--   Connection    client/network/connection.py: how the client connects again.
--   Json          the values of `json.loads`, and the `dict` methods by which they are read.
--   Prelude       texts as lists of code points, `dict` as an association list, integers.
--   Examples      the theorems at concrete states.
--
-- How the parts interact. A handler reads its payload, looks the room up in `Rooms`, calls a method of
-- one of the room's parts (`Screen`, `Camera`, `Mixer`, `Whiteboard`), writes the part back, and sends
-- packets to members by `deliver`. `run` leads a connection from its first packet through `do_auth` and
-- `register_client` into `main_loop`, whose `dispatch` calls the handlers, and `cleanup` ends it. Servers
-- meet only in what one publishes and another hears (`receive`). A client's join and leave go
-- through `Rooms`, which creates a room's parts and gives them up. Everything that leaves the server is a `Call` in the log of the `World`.
--
-- What is taken as given. Every method under a lock is one step, and so is every handler: threads that
-- interleave inside one handler are not modelled. What Redis, the database, the sockets, the renderer
-- and base64 answer is a parameter (`Env`), a function of the calls made so far, so the same question
-- may be answered differently later. Python sets are lists, and a theorem about a dict that needs its
-- keys distinct says so. Texts are lists of code points, so lengths and prefixes are Python's. Time
-- stamps and logging are left out. `int(a / n)` on samples is the truncated quotient, which it is for
-- numbers of that size. Which number a float equals as a user id is a parameter (`float_id`), a float's
-- truth is read off its spelling, and a `client_event_id` that is neither a string nor null is not modelled.
--
-- Redis' keys of rooms belong to the chat servers as well as to the load balancer; each part is given
-- them as they are when it asks. A read from a socket may raise, or, where the client waits without a
-- time limit (`Connection.Answer`), never return; a `send` returns.
--
-- Bounds: a jitter buffer holds 10 frames of 640 bytes, a chunk of speech 150 frames, the memory of
-- client event ids 1000 entries, as in the source. All loops are structural recursion; there is no fuel.
--
-- Not modelled: RSA, bcrypt, the ciphers, base64 and JSON themselves, which are parameters, with what
-- their documentation says as named hypotheses (`IsCipher`, `IsRead`, `IsSigning`); the sockets and the
-- starting of threads; the rest of the client application, and the scripts.
pub mod Prelude
pub mod Screen
pub mod Camera
pub mod Json
pub mod Whiteboard
pub mod Stt
pub mod Mixer
pub mod Packet
pub mod Messages
pub mod Server
pub mod World
pub mod Rooms
pub mod Handler
pub mod Friends
pub mod Crypto
pub mod Auth
pub mod Balancer
pub mod Connection
pub mod Subtitle
pub mod Protocol
pub mod Examples
