-- ===== src/Auth.antt =====
-- server/services/auth_service.py: registration, login and tokens, on the table of users and the
-- sessions stored. Hashing is a parameter.
pub mod Login
use quickonnect.Prelude.{
  ℕ, Bool, true, false, not, ◌&&◌, ◌||◌, Option, none, some, List, [], ◌∷◌, Text, codes, nat_eq,
  text_eq, string_eq, ◌==◌, if◌then◌else◌, ltb,
}
use quickonnect.Prelude.Dict.{Dict, get, put}
use quickonnect.Prelude.Int.{pos}
use quickonnect.Crypto.Jwt
use quickonnect.Crypto.Jwt.{Signing, create_jwt, decode_jwt}
use quickonnect.Json
use quickonnect.Json.{Json, Fields, str, int, null}
use quickonnect.Handler.Chat.{json_length}

-- shared/models.py: `User`, less its time stamp.
pub record User : Type 0 where
  pub id : ℕ
  pub username : Text

-- A user's name and the hash of the password stand under the id.
pub record Accounts : Type 0 where
  pub users : Dict ℕ (Text × Text)
  pub sessions : List (ℕ × Text)

-- What is outside: bcrypt's `hashpw` (`none` raises) and `checkpw`, the secret, the time, the id that
-- the database gives a new row, and whether its statements raise nothing, the one that stores a
-- session apart.
pub record Outside : Type 0 where
  pub signing : Signing
  pub hash_password : Text → Option Text
  pub verify_password : Text → Text → Bool
  pub jwt_secret : Text
  pub now : ℕ
  pub fresh_id : ℕ
  pub works : Bool
  pub session_works : Bool

-- A user with a token, or a message; `raised` is an exception.
pub data Outcome : Type 0 where
  raised : Outcome
  granted : User → Text → Outcome
  failed : Text → Outcome

abbrev pub bad_username : Text
bad_username = codes "Username must be 3-50 characters"

abbrev pub bad_password : Text
bad_password = codes "Password must be at least 6 characters"

abbrev pub taken : Text
taken = codes "Username already taken"

abbrev pub registration_failed : Text
registration_failed = codes "Registration failed"

abbrev pub login_failed : Text
login_failed = codes "Login failed"

abbrev pub invalid_login : Text
invalid_login = codes "Invalid username or password"

-- `SELECT … FROM users WHERE username = …`
unfoldable pub find_account : Text → Dict ℕ (Text × Text) → Option (ℕ × Text)
find_account username [] = none
find_account username ((id, (name, hash)) ∷ d) =
    let rest = find_account username d in if name == username then some (id, hash) else rest

-- `_store_session`: a failure is logged and forgotten.
unfoldable pub store_session : Outside → ℕ → Text → Accounts → Accounts
store_session o user_id token a =
    if o.session_works then record a { sessions = (user_id, token) ∷ a.sessions } else a

unfoldable pub grant : Outside → User → Accounts → Outcome × Accounts
unfolding store_session
grant o user a =
    let token = create_jwt o.signing o.now user.id user.username o.jwt_secret in
    (granted user token, store_session o user.id token a)

-- The insertion of a new row: names are unique.
unfoldable pub insert_user : Outside → Text → Text → Accounts → Outcome × Accounts
unfolding find_account grant
insert_user o username pw_hash a =
    if not o.works then (failed registration_failed, a) else elim (find_account username a.users) [
      | some other ↦ (failed taken, a)
      | none ↦
          grant o (record { id = o.fresh_id; username = username })
            (record a { users = put o.fresh_id (username, pw_hash) a.users })
    ]

-- The database refuses a name that is no string.
abbrev pub insert_named : Outside → Json → Text → Accounts → Outcome × Accounts
insert_named o (str username) pw_hash a = insert_user o username pw_hash a
insert_named o _ pw_hash a = (failed registration_failed, a)

abbrev pub with_hash : Outside → Json → Option Text → Accounts → Outcome × Accounts
with_hash o username none a = (raised, a)
with_hash o username (some pw_hash) a = insert_named o username pw_hash a

abbrev pub hash_and_insert : Outside → Json → Json → Accounts → Outcome × Accounts
hash_and_insert o username (str password) a = with_hash o username (o.hash_password password) a
hash_and_insert o username _ a = (raised, a)

unfoldable pub check_password : Outside → Json → Json → Accounts → Outcome × Accounts
unfolding insert_user
check_password o username password a =
    if not (Json.truthy password) then (failed bad_password, a) else elim (json_length password) [
      | none ↦ (raised, a)
      | some n ↦ if ltb n 6 then (failed bad_password, a) else hash_and_insert o username password a
    ]

unfoldable pub register : Outside → Json → Json → Accounts → Outcome × Accounts
unfolding check_password
register o username password a =
    if not (Json.truthy username) then (failed bad_username, a) else elim (json_length username) [
      | none ↦ (raised, a)
      | some n ↦
          if ltb n 3 || ltb 50 n
          then (failed bad_username, a)
          else check_password o username password a
    ]

-- The part of `login` once the query has answered; what is no string has no `encode`, and raises.
abbrev pub check_login : Outside → Text → Json → Option (ℕ × Text) → Accounts → Outcome × Accounts
check_login o username password none a = (failed invalid_login, a)
check_login o username (str password) (some (user_id, pw_hash)) a =
    if not (o.verify_password password pw_hash)
    then (failed invalid_login, a)
    else grant o (record { id = user_id; username = username }) a
check_login o username _ (some row) a = (raised, a)

-- No row has the name `None`, and the query with a value of another type raises.
unfoldable pub login : Outside → Json → Json → Accounts → Outcome × Accounts
unfolding find_account grant
login o (str username) password a =
    if not o.works
    then (failed login_failed, a)
    else check_login o username password (find_account username a.users) a
login o null password a = (failed (if o.works then invalid_login else login_failed), a)
login o _ password a = (failed login_failed, a)

-- The row of the user that a token names.
abbrev pub row_of : Json → Accounts → Option User
row_of (int (pos id)) a = elim (get id a.users) [
  | none ↦ none
  | some (username, pw_hash) ↦ some (record { id = id; username = username })
]
row_of _ a = none

abbrev pub is_null : Json → Bool
is_null null = true
is_null _ = false

unfoldable pub user_of : Outside → Fields → Accounts → Option User
user_of o payload a =
    let user_id = Json.get_or "user_id" null payload in
    if is_null user_id || is_null (Json.get_or "username" null payload)
    then none
    else if not o.works
    then none
    else row_of user_id a

-- `validate_token`: `none` raises.
unfoldable pub validate_token : Outside → Text → Accounts → Option (Option User)
unfolding user_of
validate_token o token a = elim (decode_jwt o.signing o.now token o.jwt_secret) [
  | Jwt.raised ↦ none
  | Jwt.refused ↦ some none
  | Jwt.accepted payload ↦ some (user_of o payload a)
]
