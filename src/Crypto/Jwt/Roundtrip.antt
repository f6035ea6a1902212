-- ===== src/Crypto/Jwt/Roundtrip.antt =====
-- Tokens that were made are read back, for a day.
use mathlib.Core.List.{append_assoc, append-nil}
use quickonnect.Prelude.{
  ℕ, zero, suc, ◌+◌, ◌-◌, ◌%◌, ◌<◌, ◌≡◌, ◌≢◌, refl, sym, ap, ◌∙◌, true, false, Option, none, some,
  List, [], ◌∷◌, ◌++◌, Text, nat_eq, text_eq, ◌==◌, if◌then◌else◌, ltb, length, replicate, elem,
  arith, inl, inr, Bool-cases, nat_beq_iff, text_beq_iff, ==_refl,
}
use quickonnect.Prelude.Split.{split, split_append, split_whole, elem_miss}
use quickonnect.Stt.{Bytes}
use quickonnect.Json
use quickonnect.Json.{Json, Fields, obj, num}
use quickonnect.Crypto.Jwt.{
  Signing, accepted, refused, raised, rstrip, keep_char, b64url_encode, b64url_decode, padded,
  create_jwt, decode_jwt, decode_parts, jwt_payload, jwt_header, dot, check_signature, check_expiry,
  is_expired, parsed,
}

-- What the documentation says of base64. A base64 text is a multiple of four long, and
-- ends with at most two `=`; neither that sign nor a dot is among its other characters.
pub record IsSigning (sg : Signing) : Type 0 where
  pub body : Bytes → Text
  pub pad : Bytes → ℕ
  pub spells : (b : Bytes) → sg.encode64 b ≡ body b ++ replicate (pad b) b'='
  pub short : (b : Bytes) → pad b < 3
  pub whole : (b : Bytes) → (length (body b) + pad b) % 4 ≡ 0
  pub no_pad : (b : Bytes) → elem b'=' (body b) ≡ false
  pub no_dot : (b : Bytes) → elem dot (body b) ≡ false
  pub opens : (b : Bytes) → sg.decode64 (sg.encode64 b) ≡ some b

rstrip-replicate : (c n : ℕ) → rstrip c (replicate n c) ≡ []
unfolding rstrip
rstrip-replicate c zero = refl
rstrip-replicate c (suc n) = rw (rstrip-replicate c n) (rw (==_refl c) refl)

keep_char_other : (c d : ℕ) (l : Text) → (d == c) ≡ false → keep_char c d l ≡ d ∷ l
keep_char_other c d [] other = rw other refl
keep_char_other c d (e ∷ l) other = refl

rstrip_append : (c n : ℕ) (t : Text) → elem c t ≡ false → rstrip c (t ++ replicate n c) ≡ t
unfolding rstrip
rstrip_append c n [] h = rstrip-replicate c n
rstrip_append c n (d ∷ t) h =
    let miss = elem_miss c d t h in
    ap (keep_char c d) (rstrip_append c n t miss.1)
    ∙ keep_char_other c d t (ground (arith, miss.0, nat_beq_iff c d, nat_beq_iff d c))

padded_lem : (t : Text) (n : ℕ) → n < 3 → (length t + n) % 4 ≡ 0 → padded t ≡ t ++ replicate n b'='
unfolding padded
padded_lem t zero h w =
    let full : (4 - length t % 4 == 4) ≡ true =
      (nat_beq_iff (4 - length t % 4) 4).1 (omega arith) in
    rw full (sym (append-nil t))
padded_lem t (suc n) h w =
    let same : 4 - length t % 4 ≡ suc n = omega arith in
    let part : (4 - length t % 4 == 4) ≡ false =
      ground (arith, same, h, nat_beq_iff (4 - length t % 4) 4) in
    rw part (ap (λ k. t ++ replicate k b'=') same)

module _ (sg : Signing) (law : IsSigning sg) where
  b64url_encode_lem : (b : Bytes) → b64url_encode sg b ≡ law.body b
  unfolding b64url_encode
  b64url_encode_lem b =
      ap (rstrip b'=') (law.spells b) ∙ rstrip_append b'=' (law.pad b) (law.body b) (law.no_pad b)

  b64url_decode-encode : (b : Bytes) → b64url_decode sg (b64url_encode sg b) ≡ some b
  unfolding b64url_decode
  b64url_decode-encode b =
      ap (λ t. sg.decode64 (padded t)) (b64url_encode_lem b)
      ∙ (ap sg.decode64
            (padded_lem (law.body b) (law.pad b) (law.short b) (law.whole b) ∙ sym (law.spells b))
          ∙ law.opens b)

  encoded_no_dot : (b : Bytes) → elem dot (b64url_encode sg b) ≡ false
  encoded_no_dot b = ap (elem dot) (b64url_encode_lem b) ∙ law.no_dot b

  split_token :
      (a b c : Bytes)
      → split dot ((b64url_encode sg a ++ (dot ∷ b64url_encode sg b)) ++ (dot ∷ b64url_encode sg c))
        ≡ b64url_encode sg a ∷ (b64url_encode sg b ∷ (b64url_encode sg c ∷ []))
  split_token a b c =
      let x = b64url_encode sg a in
      let y = b64url_encode sg b in
      let z = b64url_encode sg c in
      ap (split dot) (append_assoc x (dot ∷ y) (dot ∷ z))
      ∙ (split_append dot x (y ++ (dot ∷ z)) (encoded_no_dot a)
          ∙ ap (λ l. x ∷ l)
              (split_append dot y z (encoded_no_dot b)
                ∙ ap (λ l. y ∷ l) (split_whole dot z (encoded_no_dot c))))

  verified :
      (now : ℕ) (secret message payload_b64 : Text)
      → check_signature sg now secret message payload_b64 (some (sg.sign secret message))
        ≡ check_expiry sg now (parsed sg (b64url_decode sg payload_b64))
  unfolding check_signature
  verified now secret message payload_b64 = rw (==_refl (sg.sign secret message)) refl

  expiry :
      (made now user_id : ℕ) (username : Text)
      → check_expiry sg now (some (obj (jwt_payload user_id username made)))
        ≡ (if ltb (made + 86400) now then refused else accepted (jwt_payload user_id username made))
  unfolding is_expired Json.get_or Json.find
  expiry made now user_id username = elim (Bool-cases (ltb (made + 86400) now)) [
    | inl late ↦ rw late refl
    | inr early ↦ rw early refl
  ]

  -- A token is accepted, with the fields that it was made with, until a day after it was made, and is
  -- refused from then on; where JSON reads back those fields as they were written.
  pub decode_jwt-create_jwt :
      (made now user_id : ℕ) (username secret : Text)
      → sg.loads (sg.dumps (obj (jwt_payload user_id username made)))
        ≡ some (obj (jwt_payload user_id username made))
      → decode_jwt sg now (create_jwt sg made user_id username secret) secret
        ≡ (if ltb (made + 86400) now then refused else accepted (jwt_payload user_id username made))
  unfolding decode_jwt create_jwt
  decode_jwt-create_jwt made now user_id username secret reads =
      let fields = jwt_payload user_id username made in
      let message =
        b64url_encode sg (sg.dumps jwt_header)
        ++ (dot ∷ b64url_encode sg (sg.dumps (obj fields))) in
      let signature = sg.sign secret message in
      ap (decode_parts sg now secret)
        (split_token (sg.dumps jwt_header) (sg.dumps (obj fields)) signature)
      ∙ (ap (check_signature sg now secret message (b64url_encode sg (sg.dumps (obj fields))))
            (b64url_decode-encode signature)
          ∙ (verified now secret message (b64url_encode sg (sg.dumps (obj fields)))
              ∙ (ap (λ o. check_expiry sg now (parsed sg o))
                    (b64url_decode-encode (sg.dumps (obj fields)))
                  ∙ (ap (check_expiry sg now) reads ∙ expiry made now user_id username))))

refused_not_accepted : {fields : Fields} → refused ≢ accepted fields
refused_not_accepted e = cc e

raised_not_accepted : {fields : Fields} → raised ≢ accepted fields
raised_not_accepted e = cc e

signature_of :
    (sg : Signing) (now : ℕ) (secret message payload : Text) (o : Option Bytes) (fields : Fields)
    → check_signature sg now secret message payload o ≡ accepted fields
    → o ≡ some (sg.sign secret message)
unfolding check_signature
signature_of sg now secret message payload none fields e = absurd (raised_not_accepted e)
signature_of sg now secret message payload (some actual) fields e =
    elim (Bool-cases (sg.sign secret message == actual)) [
      | inl same ↦ ap some (sym ((text_beq_iff (sg.sign secret message) actual).0 same))
      | inr other ↦ absurd (
          refused_not_accepted (
            sym (
              ap
                (λ b.
                  if b then check_expiry sg now (parsed sg (b64url_decode sg payload)) else refused)
                other)
            ∙ e))
    ]

-- The parts of a token, and what the last of them has to be.
abbrev Signed : Signing → Text → List Text → Type 0
Signed sg secret parts =
    (header : Text) × ((payload : Text) × ((signature : Text) × ((parts
            ≡ header ∷ (payload ∷ (signature ∷ [])))
          × (b64url_decode sg signature ≡ some (sg.sign secret (header ++ (dot ∷ payload)))))))

decode_parts-Signed :
    (sg : Signing) (now : ℕ) (secret : Text) (parts : List Text) (fields : Fields)
    → decode_parts sg now secret parts ≡ accepted fields
    → Signed sg secret parts
decode_parts-Signed sg now secret [] fields e = absurd (refused_not_accepted e)
decode_parts-Signed sg now secret (h ∷ []) fields e = absurd (refused_not_accepted e)
decode_parts-Signed sg now secret (h ∷ p ∷ []) fields e = absurd (refused_not_accepted e)
decode_parts-Signed sg now secret (h ∷ p ∷ s ∷ []) fields e = (
  h,
  (p, (s, (refl, signature_of sg now secret (h ++ (dot ∷ p)) p (b64url_decode sg s) fields e))),
)
decode_parts-Signed sg now secret (h ∷ p ∷ s ∷ t ∷ l) fields e = absurd (refused_not_accepted e)

-- A token is accepted only if it has three parts, the last of which is the signature of the other two.
pub decode_jwt_signed :
    (sg : Signing) (now : ℕ) (token secret : Text) (fields : Fields)
    → decode_jwt sg now token secret ≡ accepted fields
    → (header : Text) × ((payload : Text) × ((signature : Text) × ((split dot token
              ≡ header ∷ (payload ∷ (signature ∷ [])))
            × (b64url_decode sg signature ≡ some (sg.sign secret (header ++ (dot ∷ payload)))))))
unfolding decode_jwt
decode_jwt_signed sg now token secret fields e =
    decode_parts-Signed sg now secret (split dot token) fields e
