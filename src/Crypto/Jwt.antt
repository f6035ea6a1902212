-- ===== src/Crypto/Jwt.antt =====
-- shared/crypto.py: tokens. The hash, base64 and JSON are parameters.
pub mod Roundtrip
use quickonnect.Prelude.{
  ℕ, ◌+◌, ◌-◌, ◌*◌, ◌%◌, ◌≡◌, ◌<◌, Bool, true, false, not, ◌&&◌, Option, none, some, List, [], ◌∷◌,
  ◌++◌, Text, nat_eq, text_eq, ◌==◌, if◌then◌else◌, codes, ltb, length, replicate, elem,
}
use quickonnect.Prelude.Int.{pos, negsuc}
use quickonnect.Prelude.Split.{split}
use quickonnect.Stt.{Bytes}
use quickonnect.Json
use quickonnect.Json.{Json, Fields, dict, num, str, obj, int, bool, float}

-- `hmac.new(secret, message, sha256).digest()`; `urlsafe_b64encode`, and `urlsafe_b64decode`, which
-- gives `none` where it raises; `json.dumps(…).encode()`, and `json.loads`, the same way; and whether
-- the number that a text spells is less than a natural number.
pub record Signing : Type 0 where
  pub sign : Text → Text → Bytes
  pub encode64 : Bytes → Text
  pub decode64 : Text → Option Bytes
  pub dumps : Json → Bytes
  pub loads : Bytes → Option Json
  pub float_less : Text → ℕ → Bool

abbrev pub keep_char : ℕ → ℕ → Text → Text
keep_char c d [] = if d == c then [] else d ∷ []
keep_char c d (e ∷ l) = d ∷ (e ∷ l)

-- `data.rstrip(b"=")`
unfoldable pub rstrip : ℕ → Text → Text
rstrip c [] = []
rstrip c (d ∷ t) = keep_char c d (rstrip c t)

unfoldable pub b64url_encode : Signing → Bytes → Text
unfolding rstrip
b64url_encode sg b = rstrip b'=' (sg.encode64 b)

-- The padding that `_b64url_decode` puts back.
unfoldable pub padded : Text → Text
padded s = let padding = 4 - length s % 4 in if padding == 4 then s else s ++ replicate padding b'='

unfoldable pub b64url_decode : Signing → Text → Option Bytes
unfolding padded
b64url_decode sg s = sg.decode64 (padded s)

abbrev pub jwt_expiry_hours : ℕ
jwt_expiry_hours = 24

abbrev pub jwt_header : Json
jwt_header = dict (("alg", str (codes "HS256")) ∷ ("typ", str (codes "JWT")) ∷ [])

abbrev pub jwt_payload : ℕ → Text → ℕ → Fields
jwt_payload user_id username now = Json.fields (
    ("user_id", num user_id)
    ∷ ("username", str username)
    ∷ ("iat", num now)
    ∷ ("exp", num (now + jwt_expiry_hours * 3600))
    ∷ [])

abbrev pub dot : ℕ
dot = b'.'

unfoldable pub create_jwt : Signing → ℕ → ℕ → Text → Text → Text
unfolding b64url_encode
create_jwt sg now user_id username secret =
    let header_b64 = b64url_encode sg (sg.dumps jwt_header) in
    let payload_b64 = b64url_encode sg (sg.dumps (obj (jwt_payload user_id username now))) in
    let message = header_b64 ++ (dot ∷ payload_b64) in
    message ++ (dot ∷ b64url_encode sg (sg.sign secret message))

-- `payload.get("exp", 0) < now`; `none` raises, for a value that is no number.
unfoldable pub is_expired : Signing → ℕ → Json → Option Bool
is_expired sg now (int (pos n)) = some (ltb n now)
is_expired sg now (int (negsuc n)) = some true
is_expired sg now (bool true) = some (ltb 1 now)
is_expired sg now (bool false) = some (ltb 0 now)
is_expired sg now (float t) = some (sg.float_less t now)
is_expired sg now _ = none

-- The outcome of a function that may raise, and may return `None`.
pub data Outcome : Type 0 where
  raised refused : Outcome
  accepted : Fields → Outcome

abbrev pub unless_expired : Fields → Option Bool → Outcome
unless_expired payload none = raised
unless_expired payload (some true) = refused
unless_expired payload (some false) = accepted payload

-- What follows once the payload was parsed; what is no `dict` has no `get`.
abbrev pub check_expiry : Signing → ℕ → Option Json → Outcome
check_expiry sg now none = refused
check_expiry sg now (some (obj payload)) =
    unless_expired payload (is_expired sg now (Json.get_or "exp" (num 0) payload))
check_expiry sg now (some _) = raised

abbrev pub parsed : Signing → Option Bytes → Option Json
parsed sg none = none
parsed sg (some b) = sg.loads b

-- What follows once the signature was read.
unfoldable pub check_signature : Signing → ℕ → Text → Text → Text → Option Bytes → Outcome
unfolding b64url_decode is_expired
check_signature sg now secret message payload_b64 none = raised
check_signature sg now secret message payload_b64 (some actual_sig) =
    if sg.sign secret message == actual_sig
    then check_expiry sg now (parsed sg (b64url_decode sg payload_b64))
    else refused

abbrev pub decode_parts : Signing → ℕ → Text → List Text → Outcome
decode_parts sg now secret (header_b64 ∷ payload_b64 ∷ sig_b64 ∷ []) =
    check_signature sg now secret (header_b64 ++ (dot ∷ payload_b64)) payload_b64
      (b64url_decode sg sig_b64)
decode_parts sg now secret _ = refused

unfoldable pub decode_jwt : Signing → ℕ → Text → Text → Outcome
unfolding check_signature
decode_jwt sg now token secret = decode_parts sg now secret (split dot token)
