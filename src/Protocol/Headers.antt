-- ===== src/Protocol/Headers.antt =====
-- The forty bytes of a header.
use quickonnect.Prelude.{
  ℕ, ◌-◌, ◌≤◌, ◌<◌, ◌≡◌, refl, ap, ◌∙◌, true, false, some, ◌++◌, nat_eq, text_eq, ◌==◌, ltb, length,
  take, drop, replicate, arith, length-append, nat_beq_iff, take-append, drop-append, take-all,
  drop-all, text_beq_iff,
}
use mathlib.Core.Path.{ap₂}
use mathlib.Core.List.{append-nil}
use quickonnect.Stt.{Bytes}
use quickonnect.Packet
use quickonnect.Packet.{PacketType, client_hello}
use quickonnect.Packet.Codes.{code-of_code}
use quickonnect.Protocol.{
  magic, protocol_version, header_size, max_payload_size, pack_u16, pack_u32, pack_text, pack_aad,
  pack_header, decode_header, Header, number_at, field_bytes, unpack_number,
}

pub pack_text_exact : (n : ℕ) (b : Bytes) → length b ≡ n → pack_text n b ≡ b
unfolding pack_text
pack_text_exact n b e =
    let over : n - length b ≡ 0 = omega arith in
    take-append n b (replicate n 0)
    ∙ (ap (λ k. take n b ++ take k (replicate n 0)) over
        ∙ (append-nil (take n b) ∙ take-all n b (omega arith)))

-- What stands before the nonce.
abbrev pub start_of : ℕ → ℕ → Bytes
start_of type_code size =
    magic ++ (pack_u16 protocol_version ++ (pack_u16 type_code ++ pack_u32 size))

pub pack_aad_lem :
    (type_code size : ℕ)
    → size < 4294967296
    → pack_aad type_code size ≡ some (start_of type_code size)
unfolding pack_aad
pack_aad_lem type_code size h = ground arith

pub pack_header_lem :
    (type_code size : ℕ) (nonce tag : Bytes)
    → size < 4294967296
    → length nonce ≡ 12
    → length tag ≡ 16
    → pack_header type_code size nonce tag ≡ some (start_of type_code size ++ (nonce ++ tag))
unfolding pack_header
pack_header_lem type_code size nonce tag h n t =
    rw (pack_aad_lem type_code size h, pack_header)
      (ap (λ b. some (start_of type_code size ++ b))
        (ap₂ ◌++◌ (pack_text_exact 12 nonce n) (pack_text_exact 16 tag t)))

u32_lem : (n : ℕ) → n < 4294967296 → unpack_number (pack_u32 n) 0 ≡ n
unfolding unpack_number
u32_lem n h = omega arith

u16_lem : (n : ℕ) → n < 65536 → unpack_number (pack_u16 n) 0 ≡ n
unfolding unpack_number
u16_lem n h = omega arith

code-lt : (t : PacketType) → Packet.code t < 256
unfolding Packet.code
code-lt client_hello = omega arith
code-lt _ = omega arith

pub decode_header_lem :
    (b : Bytes) (t : PacketType)
    → length b ≡ header_size
    → take 4 b ≡ magic
    → number_at 4 2 b ≡ protocol_version
    → Packet.of_code (number_at 6 2 b) ≡ some t
    → number_at 8 4 b ≤ max_payload_size
    → decode_header b
      ≡ some (record {
        packet_type = t;
        payload_len = number_at 8 4 b;
        nonce = field_bytes 12 12 b;
        tag = field_bytes 24 16 b;
      })
unfolding decode_header
decode_header_lem b t size start version type small =
    let s : (length b == header_size) ≡ true = ground (arith, nat_beq_iff (length b) header_size) in
    let m : (take 4 b == magic) ≡ true = (text_beq_iff (take 4 b) magic).1 start in
    let v : (number_at 4 2 b == protocol_version) ≡ true =
      (nat_beq_iff (number_at 4 2 b) protocol_version).1 version in
    let l : ltb max_payload_size (number_at 8 4 b) ≡ false = ground arith in rw (s, m, v, l, type)

abbrev pub header_of : PacketType → ℕ → Bytes → Bytes → Header
header_of t size nonce tag = record {
  packet_type = t;
  payload_len = size;
  nonce = nonce;
  tag = tag;
}

-- A header that was packed is read back, field by field.
pub decode_header_packed :
    (t : PacketType) (size : ℕ) (nonce tag : Bytes)
    → size ≤ max_payload_size
    → length nonce ≡ 12
    → length tag ≡ 16
    → decode_header (start_of (Packet.code t) size ++ (nonce ++ tag))
      ≡ some (record { packet_type = t; payload_len = size; nonce = nonce; tag = tag })
unfolding unpack_number
decode_header_packed t size nonce tag small n g =
    let b = start_of (Packet.code t) size ++ (nonce ++ tag) in
    let none_left : 12 - length nonce ≡ 0 = omega arith in
    let first : field_bytes 12 12 b ≡ nonce =
      take-append 12 nonce tag
      ∙ (ap (λ k. take 12 nonce ++ take k tag) none_left
          ∙ (append-nil (take 12 nonce) ∙ take-all 12 nonce (omega arith))) in
    let rest : drop 24 b ≡ tag =
      drop-append 12 nonce tag
      ∙ (ap (λ k. drop 12 nonce ++ drop k tag) none_left
          ∙ ap (λ l. l ++ tag) (drop-all 12 nonce (omega arith))) in
    let second : field_bytes 24 16 b ≡ tag = ap (take 16) rest ∙ take-all 16 tag (omega arith) in
    let count : number_at 8 4 b ≡ size = u32_lem size (omega arith) in
    let type : Packet.of_code (number_at 6 2 b) ≡ some t =
      ap Packet.of_code (u16_lem (Packet.code t) (omega (arith, code-lt t))) ∙ code-of_code t in
    decode_header_lem b t (omega (arith, length-append {0} nonce tag)) refl refl type
      (omega (arith, count))
    ∙ (ap (λ k. some (header_of t k (field_bytes 12 12 b) (field_bytes 24 16 b))) count
        ∙ (ap (λ l. some (header_of t size l (field_bytes 24 16 b))) first
            ∙ ap (λ l. some (header_of t size nonce l)) second))
