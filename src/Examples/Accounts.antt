-- ===== src/Examples/Accounts.antt =====
-- A user who registers and comes back, with a base64 of four letters for each byte.
use quickonnect.Prelude.{
  ◌⊎◌, inl, inr, ℕ, ◌+◌, ◌-◌, ◌%◌, ◌≡◌, refl, sym, ap, ◌∙◌, arith, true, false, Option, none, some,
  [], ◌∷◌, ◌++◌, Text, codes, length, elem, if◌then◌else◌, ltb, nat_eq, text_eq, text_beq, ◌==◌,
}
use mathlib.Core.List.{append-nil}
use quickonnect.Prelude.Split.{split}
use quickonnect.Prelude.Dict.{get}
use quickonnect.Stt.{Bytes}
use quickonnect.Json.{Fields, str, obj}
use quickonnect.Crypto.Jwt.{
  Signing, create_jwt, decode_jwt, jwt_payload, refused, accepted, dot, b64url_decode,
}
use quickonnect.Crypto.Jwt.Roundtrip.{IsSigning, decode_jwt-create_jwt, decode_jwt_signed}
use quickonnect.Auth.{
  Outside, Accounts, User, register, login, validate_token, grant, failed, invalid_login,
  find_account,
}
use quickonnect.Auth.Login.{IsGood, login-register, validate_token-register}

abbrev letters : Bytes → Text
letters [] = []
letters (x ∷ b) = (100 + x) ∷ (65 ∷ (65 ∷ (65 ∷ letters b)))

abbrev kept : ℕ → Option Bytes → Option Bytes
kept x none = none
kept x (some b) = some (x ∷ b)

abbrev unletter : Text → Option Bytes
unletter (x ∷ _ ∷ _ ∷ _ ∷ t) = kept (x - 100) (unletter t)
unletter [] = some []
unletter _ = none

abbrev payload : Fields
payload = jwt_payload 1 (codes "ann") 1000

abbrev signing : Signing
signing = record {
  sign = λ secret message. 1 ∷ [];
  encode64 = letters;
  decode64 = unletter;
  dumps = λ v. 2 ∷ [];
  loads = λ b. some (obj payload);
  float_less = λ t n. false;
}

letters_whole : (b : Bytes) → (length (letters b) + 0) % 4 ≡ 0
letters_whole [] = refl
letters_whole (x ∷ b) = omega (arith, letters_whole b)

letters_free : (c : ℕ) (b : Bytes) → c ≡ 61 ⊎ c ≡ 46 → elem c (letters b) ≡ false
letters_free c [] h = refl
letters_free c (x ∷ b) h = ground (arith, h, letters_free c b h)

unletter-letters : (b : Bytes) → unletter (letters b) ≡ some b
unletter-letters [] = refl
unletter-letters (x ∷ b) =
    let same : 100 + x - 100 ≡ x = omega arith in
    ap (kept (100 + x - 100)) (unletter-letters b) ∙ ap (λ y. some (y ∷ b)) same

signing-IsSigning : IsSigning signing
signing-IsSigning = record {
  body = letters;
  pad = λ b. 0;
  spells = λ b. sym (append-nil (letters b));
  short = λ b. omega arith;
  whole = letters_whole;
  no_pad = λ b. letters_free 61 b (inl refl);
  no_dot = λ b. letters_free 46 b (inr refl);
  opens = unletter-letters;
}

token_example :
    decode_jwt signing 2000 (create_jwt signing 1000 1 (codes "ann") (codes "key")) (codes "key")
    ≡ (if ltb (1000 + 86400) 2000 then refused else accepted (jwt_payload 1 (codes "ann") 1000))
token_example =
    decode_jwt-create_jwt signing signing-IsSigning 1000 2000 1 (codes "ann") (codes "key") refl

abbrev token : Text
token = create_jwt signing 1000 1 (codes "ann") (codes "key")

before_expiry : decode_jwt signing 2000 token (codes "key") ≡ accepted payload
before_expiry =
    decode_jwt-create_jwt signing signing-IsSigning 1000 2000 1 (codes "ann") (codes "key") refl

signed_example :
    (header : Text) × ((body : Text) × ((signature : Text) × ((split dot token
            ≡ header ∷ (body ∷ (signature ∷ [])))
          × (b64url_decode signing signature
              ≡ some (signing.sign (codes "key") (header ++ (dot ∷ body)))))))
signed_example = decode_jwt_signed signing 2000 token (codes "key") payload before_expiry

abbrev outside : Outside
outside = record {
  signing = signing;
  hash_password = λ p. some p;
  verify_password = λ p h. p == h;
  jwt_secret = codes "key";
  now = 1000;
  fresh_id = 1;
  works = true;
  session_works = true;
}

abbrev nobody : Accounts
nobody = record { users = []; sessions = [] }

abbrev password : Text
password = codes "secret"

ann-IsGood : IsGood outside (codes "ann") password password nobody
unfolding find_account get
ann-IsGood = record {
  long = omega arith;
  short = omega arith;
  enough = omega arith;
  hashed = refl;
  works = refl;
  free = refl;
  fresh = refl;
}

abbrev registered : Accounts
registered = (register outside (str (codes "ann")) (str password) nobody).1

abbrev ann : User
ann = record { id = 1; username = codes "ann" }

login_example :
    (login outside (str (codes "ann")) (str password) registered ≡ grant outside ann registered)
    × (login outside (str (codes "ann")) (str (codes "guess")) registered
        ≡ (failed invalid_login, registered))
unfolding text_beq
login_example =
    login-register outside outside (codes "ann") password password (codes "guess") nobody ann-IsGood
      refl refl refl

validate_example : validate_token (record outside { now = 2000 }) token registered ≡ some (some ann)
validate_example =
    validate_token-register outside (codes "ann") password password nobody 2000 signing-IsSigning
      refl ann-IsGood (omega arith)
