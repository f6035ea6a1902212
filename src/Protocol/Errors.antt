-- ===== src/Protocol/Errors.antt =====
-- Which headers and streams are refused.
use quickonnect.Prelude.{
  ◌≤◌, ◌<◌, ◌≡◌, ◌↔◌, refl, sym, ap, ◌∙◌, true, false, Option, none, some, [], nat_eq, text_eq,
  ◌==◌, ltb, length, take, arith, inl, inr, Bool-cases, nat_beq_iff, text_beq_iff,
}
use mathlib.Core.Path.{subst}
use quickonnect.Stt.{Bytes}
use quickonnect.Packet
use quickonnect.Packet.Codes.{of_code_iff}
use quickonnect.Protocol.{
  Codec, Header, Pieces, magic, protocol_version, header_size, max_payload_size, number_at,
  field_bytes, decode_header, with_type, read_packet,
}
use quickonnect.Protocol.Headers.{decode_header_lem, header_of}
use quickonnect.Protocol.Stream.{bytes, recv_exact_short}
use quickonnect.Crypto.{Cipher}

-- The header has the size, the magic bytes, the version, a size of the payload within the limit and a
-- known type, and `h` holds its fields.
pub record IsHeader (b : Bytes) (h : Header) : Type 0 where
  pub size : length b ≡ header_size
  pub start : take 4 b ≡ magic
  pub version : number_at 4 2 b ≡ protocol_version
  pub type : Packet.code h.packet_type ≡ number_at 6 2 b
  pub small : number_at 8 4 b ≤ max_payload_size
  pub payload_len : h.payload_len ≡ number_at 8 4 b
  pub nonce : h.nonce ≡ field_bytes 12 12 b
  pub tag : h.tag ≡ field_bytes 24 16 b

typed-IsHeader :
    (b : Bytes) (h : Header)
    → length b ≡ header_size
    → take 4 b ≡ magic
    → number_at 4 2 b ≡ protocol_version
    → number_at 8 4 b ≤ max_payload_size
    → (o : Option Packet.PacketType) → Packet.of_code (number_at 6 2 b) ≡ o
    → with_type o (number_at 8 4 b) (field_bytes 12 12 b) (field_bytes 24 16 b) ≡ some h
    → IsHeader b h
typed-IsHeader b h size start version small none known e = cc e
typed-IsHeader b h size start version small (some t) known e =
    subst (IsHeader b) (ground (arith, e)) (record {
      size = size;
      start = start;
      version = version;
      type = (of_code_iff (number_at 6 2 b) t).0 known;
      small = small;
      payload_len = refl;
      nonce = refl;
      tag = refl;
    })

decode_header_then :
    (b : Bytes)
    → (length b == header_size) ≡ true
    → (take 4 b == magic) ≡ true
    → (number_at 4 2 b == protocol_version) ≡ true
    → ltb max_payload_size (number_at 8 4 b) ≡ false
    → decode_header b
      ≡ with_type
          (Packet.of_code (number_at 6 2 b))
          (number_at 8 4 b)
          (field_bytes 12 12 b)
          (field_bytes 24 16 b)
unfolding decode_header
decode_header_then b s m v l = rw (s, m, v, l) refl

decode_header-IsHeader : (b : Bytes) (h : Header) → decode_header b ≡ some h → IsHeader b h
unfolding decode_header
decode_header-IsHeader b h e = elim (Bool-cases (length b == header_size)) [
  | inr f ↦ ground (arith, e)
  | inl s ↦ elim (Bool-cases (take 4 b == magic)) [
    | inr f ↦ ground (arith, e)
    | inl m ↦ elim (Bool-cases (number_at 4 2 b == protocol_version)) [
      | inr f ↦ ground (arith, e)
      | inl v ↦ elim (Bool-cases (ltb max_payload_size (number_at 8 4 b))) [
        | inl f ↦ ground (arith, e)
        | inr l ↦
            typed-IsHeader b h ((nat_beq_iff _ _).0 s) ((text_beq_iff _ _).0 m)
              ((nat_beq_iff _ _).0 v) (ground (arith, l)) (Packet.of_code (number_at 6 2 b)) refl
              (sym (decode_header_then b s m v l) ∙ e)
      ]
    ]
  ]
]

-- A header is accepted, and read as `h`, exactly when it has every mark of a header with those fields;
-- every other raises.
pub decode_header_iff : (b : Bytes) (h : Header) → (decode_header b ≡ some h) ↔ IsHeader b h
decode_header_iff b h = (
  decode_header-IsHeader b h,
  λ c.
      decode_header_lem b h.packet_type c.size c.start c.version
        ((of_code_iff (number_at 6 2 b) h.packet_type).1 c.type) c.small
      ∙ (ap (λ k. some (header_of h.packet_type k (field_bytes 12 12 b) (field_bytes 24 16 b)))
            (sym c.payload_len)
          ∙ (ap (λ k. some (header_of h.packet_type h.payload_len k (field_bytes 24 16 b)))
                (sym c.nonce)
              ∙ ap (λ k. some (header_of h.packet_type h.payload_len h.nonce k)) (sym c.tag))),
)

-- A stream that ends within a header raises, whatever it holds.
pub read_packet_short :
    (codec : Codec) (cipher : Cipher) (key : Option Bytes) (ps : Pieces)
    → length (bytes ps) < header_size
    → read_packet codec cipher key ps ≡ none
unfolding read_packet
read_packet_short codec cipher key ps h =
    rw (recv_exact_short header_size [] ps h, read_packet) refl
