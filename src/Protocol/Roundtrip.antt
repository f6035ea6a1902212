-- ===== src/Protocol/Roundtrip.antt =====
-- What is sent is read, on a stream that is cut into any pieces and goes on with other bytes.
use mathlib.Core.List.{append_assoc, append-nil}
use quickonnect.Prelude.{
  ℕ, ◌-◌, ◌≤◌, ◌≡◌, ◌≢◌, refl, sym, ap, ◌∙◌, false, Option, none, some, [], ◌∷◌, ◌++◌, nat_eq,
  text_eq, ◌==◌, length, take, drop, arith, inl, inr, Bool-cases, length-append, length-take,
  text_beq_iff, text_beq, length-drop, take-append, drop-append, take-all, drop-all, take++drop,
}
use quickonnect.Stt.{Bytes}
use quickonnect.Json.{Json}
use quickonnect.Packet
use quickonnect.Packet.{PacketType}
use quickonnect.Crypto.{Cipher, IsCipher, aes_encrypt, aes_decrypt}
use quickonnect.Protocol.{
  Codec, IsRead, Pieces, Header, header_size, max_payload_size, recv_exact, decode_header,
  read_packet, read_body, encode_packet, encode_secret, encode_plain, open_payload, parse_payload,
  no_nonce, no_tag, pack_aad, append_to,
}
use quickonnect.Protocol.Stream.{bytes, AllFilled, recv_exact_lem}
use quickonnect.Protocol.Headers.{
  start_of, pack_aad_lem, pack_header_lem, decode_header_packed, header_of,
}

-- The nonce is one that `os.urandom(12)` gives, but for the one that says "not encrypted".
pub record IsNonce (nonce : Bytes) : Type 0 where
  pub size : length nonce ≡ 12
  pub drawn : nonce ≢ no_nonce

pub take_exact : (xs ys : Bytes) (n : ℕ) → length xs ≡ n → take n (xs ++ ys) ≡ xs
take_exact xs ys n e =
    let over : n - length xs ≡ 0 = omega arith in
    take-append n xs ys
    ∙ (ap (λ k. take n xs ++ take k ys) over
        ∙ (append-nil (take n xs) ∙ take-all n xs (omega arith)))

drop_exact : (xs ys : Bytes) (n : ℕ) → length xs ≡ n → drop n (xs ++ ys) ≡ ys
drop_exact xs ys n e =
    let over : n - length xs ≡ 0 = omega arith in
    drop-append n xs ys
    ∙ (ap (λ k. drop n xs ++ drop k ys) over ∙ ap (λ l. l ++ ys) (drop-all n xs (omega arith)))

-- Reading a known beginning of the stream.
recv_known :
    (xs ys : Bytes) (n : ℕ) (ps : Pieces)
    → length xs ≡ n
    → bytes ps ≡ xs ++ ys
    → AllFilled ps
    → (left : Pieces) × (recv_exact n [] ps ≡ some (xs, left)) × (bytes left ≡ ys) × AllFilled left
recv_known xs ys n ps e stream filled =
    let r =
      recv_exact_lem n [] ps (omega (arith, ap (length {A = ℕ}) stream, length-append {0} xs ys))
        filled in
    (
      r.left,
      r.result ∙ ap (λ l. some (l, r.left)) (ap (take n) stream ∙ take_exact xs ys n e),
      r.after ∙ (ap (drop n) stream ∙ drop_exact xs ys n e),
      r.filled,
    )

module _ (codec : Codec) (cipher : Cipher) where
  read_packet-steps :
      (key : Option Bytes) (ps after left : Pieces) (header raw clear : Bytes) (h : Header)
      (p : Json)
      → recv_exact header_size [] ps ≡ some (header, after)
      → decode_header header ≡ some h
      → recv_exact h.payload_len [] after ≡ some (raw, left)
      → open_payload cipher key h raw ≡ some clear
      → parse_payload codec clear ≡ some p
      → read_packet codec cipher key ps
        ≡ some (record { packet_type = h.packet_type; payload = p }, left)
  unfolding read_packet
  read_packet-steps key ps after left header raw clear h p got decoded got' opened parsed =
      rw (got, read_packet) (rw (decoded, got') (rw (opened, read_body) (rw parsed refl)))

  -- A message as its header and its body.
  read_packet_lem :
      (key : Option Bytes) (t : PacketType) (nonce tag body clear rest : Bytes) (p : Json)
      (ps : Pieces)
      → length nonce ≡ 12
      → length tag ≡ 16
      → length body ≤ max_payload_size
      → bytes ps ≡ (start_of (Packet.code t) (length body) ++ (nonce ++ tag)) ++ (body ++ rest)
      → AllFilled ps
      → open_payload cipher key (header_of t (length body) nonce tag) body ≡ some clear
      → parse_payload codec clear ≡ some p
      → (left : Pieces) × (read_packet codec cipher key ps
          ≡ some (record { packet_type = t; payload = p }, left))
        × (bytes left ≡ rest)
        × AllFilled left
  read_packet_lem key t nonce tag body clear rest p ps n g small stream filled opened parsed =
      let header = start_of (Packet.code t) (length body) ++ (nonce ++ tag) in
      let (after, got, stream', filled') =
        recv_known header (body ++ rest) header_size ps (omega (arith, length-append {0} nonce tag))
          stream filled in
      let (left, got', stream'', filled'') =
        recv_known body rest (length body) after refl stream' filled' in
      let decoded = decode_header_packed t (length body) nonce tag small n g in
      (
        left,
        read_packet-steps key ps after left header body clear (header_of t (length body) nonce tag)
            p got decoded got' opened parsed,
        stream'',
        filled'',
      )

  parse_payload-dumps : (p : Json) → IsRead codec p → parse_payload codec (codec.dumps p) ≡ some p
  unfolding parse_payload
  parse_payload-dumps p r = parsed (codec.dumps p) r.nonempty r.reads
    where
      parsed : (b : Bytes) → b ≢ [] → codec.loads b ≡ some p → parse_payload codec b ≡ some p
      parsed [] n e = absurd (n refl)
      parsed (x ∷ b) n e = e

  -- An unencrypted packet: its form, and its reading.
  plain_lem :
      (key : Option Bytes) (t : PacketType) (p : Json) (rest : Bytes) (ps : Pieces) (sent : Bytes)
      → IsRead codec p
      → length (codec.dumps p) ≤ max_payload_size
      → encode_plain t (codec.dumps p) ≡ some sent
      → bytes ps ≡ sent ++ rest
      → AllFilled ps
      → (left : Pieces) × (read_packet codec cipher key ps
          ≡ some (record { packet_type = t; payload = p }, left))
        × (bytes left ≡ rest)
        × AllFilled left
  unfolding encode_plain open_payload text_beq
  plain_lem key t p rest ps sent r small e stream filled =
      let body = codec.dumps p in
      let header = start_of (Packet.code t) (length body) ++ (no_nonce ++ no_tag) in
      let packed =
        pack_header_lem (Packet.code t) (length body) no_nonce no_tag (omega arith) refl refl in
      let form : header ++ body ≡ sent = cc (ap (λ o. append_to o body) packed, e) in
      read_packet_lem key t no_nonce no_tag body body rest p ps refl refl small
        (stream ∙ (ap (λ s. s ++ rest) (sym form) ∙ append_assoc header body rest)) filled refl
        (parse_payload-dumps p r)

  length-aes_encrypt :
      IsCipher cipher
      → (key nonce text aad : Bytes)
      → (length (aes_encrypt cipher key nonce text aad).0 ≡ length text)
        × (length (aes_encrypt cipher key nonce text aad).1 ≡ 16)
  unfolding aes_encrypt
  length-aes_encrypt c key nonce text aad =
      let sealed = cipher.seal key nonce text aad in
      let size = c.tagged key nonce text aad in
      (
        omega (arith, size, length-take {0} (length sealed - 16) sealed),
        omega (arith, size, length-drop {0} (length sealed - 16) sealed),
      )

  aes_decrypt-aes_encrypt :
      IsCipher cipher
      → (key nonce text aad : Bytes)
      → aes_decrypt cipher key nonce
          (aes_encrypt cipher key nonce text aad).0
          (aes_encrypt cipher key nonce text aad).1
          aad
        ≡ some text
  unfolding aes_decrypt aes_encrypt
  aes_decrypt-aes_encrypt c key nonce text aad =
      let sealed = cipher.seal key nonce text aad in
      ap (λ b. cipher.unseal key nonce b aad) (take++drop (length sealed - 16) sealed)
      ∙ c.opens key nonce text aad

  -- The parts of the encrypted form.
  module _ (key nonce body : Bytes) (t : PacketType) where
    abbrev aad_of : Bytes
    aad_of = start_of (Packet.code t) (length body)

    abbrev sealed : Bytes × Bytes
    sealed = aes_encrypt cipher key nonce body aad_of

    encode_secret_lem :
        IsCipher cipher
        → IsNonce nonce
        → length body ≤ max_payload_size
        → encode_secret cipher nonce t body key
          ≡ some ((start_of (Packet.code t) (length sealed.0) ++ (nonce ++ sealed.1)) ++ sealed.0)
    unfolding encode_secret
    encode_secret_lem c n small =
        let sizes = length-aes_encrypt c key nonce body aad_of in
        let packed =
          pack_header_lem (Packet.code t) (length sealed.0) nonce sealed.1 (omega (arith, sizes.0))
            n.size sizes.1 in
        rw (pack_aad_lem (Packet.code t) (length body) (omega arith), encode_secret)
          (ap (λ o. append_to o sealed.0) packed)

    open_secret :
        IsCipher cipher
        → IsNonce nonce
        → length body ≤ max_payload_size
        → open_payload cipher (some key) (header_of t (length sealed.0) nonce sealed.1) sealed.0
          ≡ some body
    unfolding open_payload
    open_secret c n small =
        let sizes = length-aes_encrypt c key nonce body aad_of in
        let drawn : (nonce == no_nonce) ≡ false =
          ground (arith, n.drawn, text_beq_iff nonce no_nonce) in
        let aad : pack_aad (Packet.code t) (length sealed.0) ≡ some aad_of =
          ap (pack_aad (Packet.code t)) sizes.0
          ∙ pack_aad_lem (Packet.code t) (length body) (omega arith) in
        rw (drawn, aad) (aes_decrypt-aes_encrypt c key nonce body aad_of)

  -- An encrypted packet.
  secret_lem :
      IsCipher cipher
      → (key nonce : Bytes) (t : PacketType) (p : Json) (rest : Bytes) (ps : Pieces) (sent : Bytes)
      → IsNonce nonce
      → IsRead codec p
      → length (codec.dumps p) ≤ max_payload_size
      → encode_secret cipher nonce t (codec.dumps p) key ≡ some sent
      → bytes ps ≡ sent ++ rest
      → AllFilled ps
      → (left : Pieces) × (read_packet codec cipher (some key) ps
          ≡ some (record { packet_type = t; payload = p }, left))
        × (bytes left ≡ rest)
        × AllFilled left
  secret_lem c key nonce t p rest ps sent n r small e stream filled =
      let body = codec.dumps p in
      let (text, tag) = sealed key nonce body t in
      let sizes = length-aes_encrypt c key nonce body (aad_of key nonce body t) in
      let header = start_of (Packet.code t) (length text) ++ (nonce ++ tag) in
      let form : header ++ text ≡ sent = cc (encode_secret_lem key nonce body t c n small, e) in
      read_packet_lem (some key) t nonce tag text body rest p ps n.size sizes.1
        (omega (arith, sizes.0))
        (stream ∙ (ap (λ s. s ++ rest) (sym form) ∙ append_assoc header text rest)) filled
        (open_secret key nonce body t c n small) (parse_payload-dumps p r)

  -- A packet that was encoded is read back, its type and its payload, from a stream that starts with it,
  -- however the stream is cut into pieces, and the stream is left at the first byte after it. So it is
  -- with a key and without, where both sides have the same one, the cipher opens what it sealed, the
  -- payload is one that JSON reads back, and its text has at most 16 MiB.
  pub read_packet-encode_packet :
      (key : Option Bytes) (nonce : Bytes) (t : PacketType) (p : Json) (rest : Bytes) (ps : Pieces)
      (sent : Bytes)
      → IsCipher cipher
      → IsNonce nonce
      → IsRead codec p
      → length (codec.dumps p) ≤ max_payload_size
      → encode_packet codec cipher nonce t p key ≡ some sent
      → bytes ps ≡ sent ++ rest
      → AllFilled ps
      → (left : Pieces) × (read_packet codec cipher key ps
          ≡ some (record { packet_type = t; payload = p }, left))
        × (bytes left ≡ rest)
        × AllFilled left
  unfolding encode_packet
  read_packet-encode_packet none nonce t p rest ps sent c n r small e stream filled =
      plain_lem none t p rest ps sent r small e stream filled
  read_packet-encode_packet (some key) nonce t p rest ps sent c n r small e stream filled =
      elim (Bool-cases (Packet.is_plaintext t)) [
        | inl open_type ↦
            plain_lem (some key) t p rest ps sent r small (ground (arith, open_type)) stream filled
        | inr secret ↦
            secret_lem c key nonce t p rest ps sent n r small (ground (arith, secret)) stream filled
      ]
