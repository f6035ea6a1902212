-- ===== src/Examples/Packets.antt =====
-- An encrypted packet that arrives in two pieces, with a cipher that only appends a tag.
use quickonnect.Prelude.{
  ◌-◌, ◌≡◌, ◌↔◌, refl, ap, arith, some, [], ◌∷◌, ◌++◌, length, take, drop, replicate, length-append,
}
use quickonnect.Stt.{Bytes}
use quickonnect.Json
use quickonnect.Json.{Json}
use quickonnect.Packet
use quickonnect.Crypto.{Cipher, IsCipher, aes_encrypt}
use quickonnect.Protocol.{
  Codec, IsRead, Pieces, Header, encode_packet, read_packet, decode_header, pack_header, pack_aad,
  pack_text, encode_secret,
}
use quickonnect.Protocol.Headers.{start_of}
use quickonnect.Protocol.Stream.{bytes, AllFilled, Received, recv_exact_lem}
use quickonnect.Protocol.Roundtrip.{IsNonce, take_exact, read_packet-encode_packet}
use quickonnect.Protocol.Errors.{IsHeader, decode_header_iff}

abbrev cipher : Cipher
cipher = record {
  seal = λ key nonce text aad. text ++ replicate 16 0;
  unseal = λ key nonce text aad. some (take (length text - 16) text);
}

cipher-IsCipher : IsCipher cipher
cipher-IsCipher = record {
  opens = λ key nonce text aad.
      let size : length text ≡ length (text ++ replicate 16 0) - 16 =
        omega (arith, length-append {0} text (replicate 16 0)) in
      ap some (take_exact text (replicate 16 0) (length (text ++ replicate 16 0) - 16) size);
  tagged = λ key nonce text aad. omega (arith, length-append {0} text (replicate 16 0));
}

abbrev empty : Json
empty = Json.obj Json.end

abbrev codec : Codec
codec = record { dumps = λ v. 123 ∷ []; loads = λ b. some empty }

codec-IsRead : IsRead codec empty
codec-IsRead = record { reads = refl; nonempty = λ e. cc e }

abbrev nonce : Bytes
nonce = replicate 12 1

nonce-IsNonce : IsNonce nonce
nonce-IsNonce = record { size = refl; drawn = λ e. cc e }

abbrev sent : Bytes
sent = (start_of (Packet.code Packet.heartbeat) 1 ++ (nonce ++ replicate 16 0)) ++ (123 ∷ [])

sent_lem : encode_packet codec cipher nonce Packet.heartbeat empty (some []) ≡ some sent
unfolding encode_packet encode_secret pack_header pack_aad pack_text aes_encrypt Packet.is_plaintext
    Packet.code
sent_lem = refl

-- A byte of the next packet follows.
abbrev pieces : Pieces
pieces = take 20 sent ∷ ((drop 20 sent ++ (7 ∷ [])) ∷ [])

pieces-AllFilled : AllFilled pieces
pieces-AllFilled = (λ e. cc e, (λ e. cc e, tt))

read_packet_example :
    (left : Pieces) × (read_packet codec cipher (some []) pieces
      ≡ some (record { packet_type = Packet.heartbeat; payload = empty }, left))
    × (bytes left ≡ 7 ∷ [])
    × AllFilled left
read_packet_example =
    read_packet-encode_packet codec cipher (some []) nonce Packet.heartbeat empty (7 ∷ []) pieces
      sent cipher-IsCipher nonce-IsNonce codec-IsRead (omega arith) sent_lem refl pieces-AllFilled

recv_exact_example : Received 40 [] pieces
recv_exact_example = recv_exact_lem 40 [] pieces (omega arith) pieces-AllFilled

abbrev header : Header
header = record {
  packet_type = Packet.heartbeat;
  payload_len = 1;
  nonce = nonce;
  tag = replicate 16 0;
}

decode_header_example :
    (decode_header (take 40 sent) ≡ some header) ↔ IsHeader (take 40 sent) header
decode_header_example = decode_header_iff (take 40 sent) header
