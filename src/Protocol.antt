-- ===== src/Protocol.antt =====
-- shared/protocol.py: packets as bytes on a stream. JSON and the cipher are parameters.
pub mod Stream
pub mod Headers
pub mod Roundtrip
pub mod Errors
use quickonnect.Prelude.{
  ℕ, ◌+◌, ◌-◌, ◌*◌, ◌/◌, ◌%◌, ◌≡◌, ◌≢◌, Bool, true, false, not, ◌&&◌, ◌||◌, Option, none, some,
  List, [], ◌∷◌, ◌++◌, nat_eq, text_eq, ◌==◌, if◌then◌else◌, codes, ltb, leb, length, take, drop,
  replicate,
}
use quickonnect.Stt.{Bytes}
use quickonnect.Json
use quickonnect.Json.{Json}
use quickonnect.Packet
use quickonnect.Packet.{PacketType}
use quickonnect.Crypto.{Cipher, aes_encrypt, aes_decrypt}

-- shared/constants.py
abbrev pub magic : Bytes
magic = codes "QKNT"

abbrev pub protocol_version : ℕ
protocol_version = 1

abbrev pub header_size : ℕ
header_size = 40

abbrev pub max_payload_size : ℕ
max_payload_size = 16 * 1024 * 1024

-- `json.dumps(payload, ensure_ascii=False).encode("utf-8")`, and `json.loads(raw.decode("utf-8"))`,
-- which gives `none` where it raises.
pub record Codec : Type 0 where
  pub dumps : Json → Bytes
  pub loads : Bytes → Option Json

-- What the documentation of `json` says of the value that is sent: it is read back.
pub record IsRead (c : Codec) (p : Json) : Type 0 where
  pub reads : c.loads (c.dumps p) ≡ some p
  pub nonempty : c.dumps p ≢ []

-- `Packet`
pub record Message : Type 0 where
  pub packet_type : PacketType
  pub payload : Json

-- `struct.pack` of `H`, of `I` and of `12s`, big-endian.
abbrev pub pack_u16 : ℕ → Bytes
pack_u16 n = (n / 256) ∷ (n % 256) ∷ []

abbrev pub pack_u32 : ℕ → Bytes
pack_u32 n = (n / 16777216) ∷ (n / 65536 % 256) ∷ (n / 256 % 256) ∷ (n % 256) ∷ []

unfoldable pub pack_text : ℕ → Bytes → Bytes
pack_text n b = take n (b ++ replicate n 0)

-- `struct.pack("!4sHHI", …)`; the length is out of range from 2³² on, which raises.
unfoldable pub pack_aad : ℕ → ℕ → Option Bytes
pack_aad type_code size =
    if ltb size 4294967296
    then some (magic ++ (pack_u16 protocol_version ++ (pack_u16 type_code ++ pack_u32 size)))
    else none

-- `struct.pack(HEADER_FORMAT, …)`
unfoldable pub pack_header : ℕ → ℕ → Bytes → Bytes → Option Bytes
unfolding pack_aad pack_text
pack_header type_code size nonce tag = elim (pack_aad type_code size) [
  | none ↦ none
  | some start ↦ some (start ++ (pack_text 12 nonce ++ pack_text 16 tag))
]

abbrev pub no_nonce : Bytes
no_nonce = replicate 12 0

abbrev pub no_tag : Bytes
no_tag = replicate 16 0

abbrev pub append_to : Option Bytes → Bytes → Option Bytes
append_to none body = none
append_to (some header) body = some (header ++ body)

-- The encrypted form, with the nonce that was drawn.
unfoldable pub encode_secret : Cipher → Bytes → PacketType → Bytes → Bytes → Option Bytes
encode_secret cipher nonce packet_type payload_bytes aes_key =
    elim (pack_aad (Packet.code packet_type) (length payload_bytes)) [
      | none ↦ none
      | some aad ↦
          let (ciphertext, tag) = aes_encrypt cipher aes_key nonce payload_bytes aad in
          append_to (pack_header (Packet.code packet_type) (length ciphertext) nonce tag) ciphertext
    ]

unfoldable pub encode_plain : PacketType → Bytes → Option Bytes
encode_plain packet_type payload_bytes =
    append_to (pack_header (Packet.code packet_type) (length payload_bytes) no_nonce no_tag)
      payload_bytes

-- `encode_packet`; `none` raises.
unfoldable pub encode_packet :
    Codec → Cipher → Bytes → PacketType → Json → Option Bytes → Option Bytes
encode_packet codec cipher nonce packet_type payload none =
    encode_plain packet_type (codec.dumps payload)
encode_packet codec cipher nonce packet_type payload (some aes_key) =
    if not (Packet.is_plaintext packet_type)
    then encode_secret cipher nonce packet_type (codec.dumps payload) aes_key
    else encode_plain packet_type (codec.dumps payload)

pub record Header : Type 0 where
  pub packet_type : PacketType
  pub payload_len : ℕ
  pub nonce : Bytes
  pub tag : Bytes

-- `struct.unpack` of `H` and `I`.
unfoldable pub unpack_number : Bytes → ℕ → ℕ
unpack_number [] n = n
unpack_number (b ∷ bytes) n = unpack_number bytes (256 * n + b)

abbrev pub field_bytes : ℕ → ℕ → Bytes → Bytes
field_bytes start size b = take size (drop start b)

abbrev pub number_at : ℕ → ℕ → Bytes → ℕ
number_at start size b = unpack_number (field_bytes start size b) 0

-- The header, once its packet type was looked up.
abbrev pub with_type : Option PacketType → ℕ → Bytes → Bytes → Option Header
with_type none payload_len nonce tag = none
with_type (some t) payload_len nonce tag =
    some (record { packet_type = t; payload_len = payload_len; nonce = nonce; tag = tag })

-- `decode_header`: `none` raises.
unfoldable pub decode_header : Bytes → Option Header
unfolding unpack_number
decode_header b =
    if not (length b == header_size)
    then none
    else if not (take 4 b == magic)
    then none
    else if not (number_at 4 2 b == protocol_version)
    then none
    else if ltb max_payload_size (number_at 8 4 b)
    then none
    else with_type (Packet.of_code (number_at 6 2 b)) (number_at 8 4 b) (field_bytes 12 12 b)
        (field_bytes 24 16 b)

-- What the socket will hand over: the pieces in which the bytes arrive. At the end of them the
-- connection is closed, and `recv` gives no byte; an empty piece is such an end, too.
abbrev pub Pieces : Type 0
Pieces = List Bytes

-- `_recv_exact`: `none` raises `ConnectionError`.
unfoldable pub recv_exact : ℕ → Bytes → Pieces → Option (Bytes × Pieces)
recv_exact n got [] = if n == 0 then some (got, []) else none
recv_exact n got (piece ∷ pieces) =
    let rest = recv_exact (n - length piece) (got ++ piece) pieces in
    if n == 0
    then some (got, piece ∷ pieces)
    else if length piece == 0
    then none
    else if leb (length piece) n
    then rest
    else some (got ++ take n piece, drop n piece ∷ pieces)

-- The payload's bytes in clear; `none` raises.
unfoldable pub open_payload : Cipher → Option Bytes → Header → Bytes → Option Bytes
open_payload cipher aes_key h raw = if h.nonce == no_nonce then some raw else elim aes_key [
  | none ↦ none
  | some key ↦ elim (pack_aad (Packet.code h.packet_type) h.payload_len) [
    | none ↦ none
    | some aad ↦ aes_decrypt cipher key h.nonce raw h.tag aad
  ]
]

-- `json.loads(…) if raw_payload else {}`
unfoldable pub parse_payload : Codec → Bytes → Option Json
parse_payload codec [] = some (Json.obj Json.end)
parse_payload codec (b ∷ raw) = codec.loads (b ∷ raw)

abbrev pub packet_of : PacketType → Option Json → Pieces → Option (Message × Pieces)
packet_of t none pieces = none
packet_of t (some p) pieces = some (record { packet_type = t; payload = p }, pieces)

abbrev pub read_body :
    Codec → Cipher → Option Bytes → Header → Option (Bytes × Pieces) → Option (Message × Pieces)
read_body codec cipher aes_key h none = none
read_body codec cipher aes_key h (some (raw, pieces)) = elim (open_payload cipher aes_key h raw) [
  | none ↦ none
  | some clear ↦ packet_of h.packet_type (parse_payload codec clear) pieces
]

abbrev pub read_rest :
    Codec → Cipher → Option Bytes → Option Header → Pieces → Option (Message × Pieces)
read_rest codec cipher aes_key none pieces = none
read_rest codec cipher aes_key (some h) pieces =
    read_body codec cipher aes_key h (recv_exact h.payload_len [] pieces)

-- `read_packet`; `none` raises.
unfoldable pub read_packet : Codec → Cipher → Option Bytes → Pieces → Option (Message × Pieces)
read_packet codec cipher aes_key pieces = elim (recv_exact header_size [] pieces) [
  | none ↦ none
  | some (header_bytes, rest) ↦ read_rest codec cipher aes_key (decode_header header_bytes) rest
]
