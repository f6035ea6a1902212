-- ===== src/Auth/Login.antt =====
-- An account that was registered can be logged in to, and its token names it.
use quickonnect.Prelude.{
  ℕ, ◌+◌, ◌≤◌, true, false, not, ◌||◌, none, some, [], ◌∷◌, Text, nat_eq, text_eq, ◌==◌, ltb,
  length, if◌then◌else◌, ◌≡◌, refl, ap, ◌∙◌, arith, inl, inr, Bool-cases, ==_refl,
}
use quickonnect.Prelude.Dict.{Dict, get, put, get-put}
use quickonnect.Crypto.Jwt.{create_jwt, jwt_payload}
use quickonnect.Crypto.Jwt.Roundtrip.{IsSigning, decode_jwt-create_jwt}
use quickonnect.Json
use quickonnect.Json.{str, obj}
use quickonnect.Handler.Chat.{json_length}
use quickonnect.Auth.{
  Outside, Accounts, User, failed, register, login, validate_token, find_account, grant,
  store_session, insert_user, check_password, invalid_login, user_of, row_of,
}

-- The table after a row was added with an id that no row has.
find_account-put :
    (id : ℕ) (name : Text) (row : Text) (d : Dict ℕ (Text × Text))
    → get id d ≡ none
    → find_account name d ≡ none
    → find_account name (put id (name, row) d) ≡ some (id, row)
unfolding find_account put get
find_account-put id name row [] h g = rw (==_refl name) refl
find_account-put id name row ((j, (other, hash)) ∷ d) h g = elim (Bool-cases (id == j)) [
  | inl here ↦ absurd (ground (arith, h, here))
  | inr apart ↦ elim (Bool-cases (other == name)) [
    | inl same ↦ absurd (ground (arith, g, same))
    | inr different ↦
        let later =
          find_account-put id name row d (ground (arith, h, apart))
            (ground (arith, g, different)) in
        rw apart (rw different later)
  ]
]

-- What a registration with a good name and password comes to.
register_new :
    (o : Outside) (name password hash : Text) (a : Accounts)
    → 3 ≤ length name
    → length name ≤ 50
    → 6 ≤ length password
    → o.hash_password password ≡ some hash
    → o.works ≡ true
    → find_account name a.users ≡ none
    → register o (str name) (str password) a
      ≡ grant o
          (record { id = o.fresh_id; username = name })
          (record a { users = put o.fresh_id (name, hash) a.users })
unfolding register check_password insert_user Json.truthy json_length
register_new o [] password hash a long short enough hashed works free = absurd (omega arith)
register_new o (c ∷ n) [] hash a long short enough hashed works free = absurd (omega arith)
register_new o (c ∷ n) (p ∷ q) hash a long short enough hashed works free =
    let fits : ltb (length (c ∷ n)) 3 || ltb 50 (length (c ∷ n)) ≡ false = ground arith in
    let full : ltb (length (p ∷ q)) 6 ≡ false = ground arith in
    rw fits (rw full (rw hashed (rw works (rw free refl))))

users-grant : (o : Outside) (user : User) (a : Accounts) → (grant o user a).1.users ≡ a.users
unfolding grant store_session
users-grant o user a = elim (Bool-cases o.session_works) [
  | inl works ↦ rw works refl
  | inr fails ↦ rw fails refl
]

login_known :
    (o : Outside) (name password hash : Text) (id : ℕ) (a : Accounts)
    → o.works ≡ true
    → find_account name a.users ≡ some (id, hash)
    → login o (str name) (str password) a ≡ (
        if not (o.verify_password password hash)
        then (failed invalid_login, a)
        else grant o (record { id = id; username = name }) a)
unfolding login
login_known o name password hash id a works known = rw works (rw known refl)

-- Whether a registration with a new name is one that is to succeed: its name and its password are of the
-- sizes asked for, the password is hashed, the database works and gives an id that is new.
pub record IsGood (o : Outside) (name password hash : Text) (a : Accounts) : Type 0 where
  pub long : 3 ≤ length name
  pub short : length name ≤ 50
  pub enough : 6 ≤ length password
  pub hashed : o.hash_password password ≡ some hash
  pub works : o.works ≡ true
  pub free : find_account name a.users ≡ none
  pub fresh : get o.fresh_id a.users ≡ none

users-register :
    (o : Outside) (name password hash : Text) (a : Accounts)
    → IsGood o name password hash a
    → (register o (str name) (str password) a).1.users ≡ put o.fresh_id (name, hash) a.users
users-register o name password hash a g =
    let added = record a { users = put o.fresh_id (name, hash) a.users } in
    ap (λ r. r.1.users)
      (register_new o name password hash a g.long g.short g.enough g.hashed g.works g.free)
    ∙ users-grant o (record { id = o.fresh_id; username = name }) added

-- After a registration that is to succeed, the user can log in with the password, as the user of the new
-- id, and nobody logs in under that name with a password that the hash does not fit; where the database
-- works at the login.
pub login-register :
    (o later : Outside) (name password hash other : Text) (a : Accounts)
    → IsGood o name password hash a
    → later.works ≡ true
    → later.verify_password password hash ≡ true
    → later.verify_password other hash ≡ false
    → let a₁ = (register o (str name) (str password) a).1 in
      (login later (str name) (str password) a₁
        ≡ grant later (record { id = o.fresh_id; username = name }) a₁)
      × (login later (str name) (str other) a₁ ≡ (failed invalid_login, a₁))
login-register o later name password hash other a g works right wrong =
    let a₁ = (register o (str name) (str password) a).1 in
    let known : find_account name a₁.users ≡ some (o.fresh_id, hash) =
      ap (find_account name) (users-register o name password hash a g)
      ∙ find_account-put o.fresh_id name hash a.users g.fresh g.free in
    let user : User = record { id = o.fresh_id; username = name } in
    (
      login_known later name password hash o.fresh_id a₁ works known
          ∙ ap (λ b. if not b then (failed invalid_login, a₁) else grant later user a₁) right,
      login_known later name other hash o.fresh_id a₁ works known
          ∙ ap (λ b. if not b then (failed invalid_login, a₁) else grant later user a₁) wrong,
    )

user_of_lem :
    (o : Outside) (id made : ℕ) (name hash : Text) (a : Accounts)
    → o.works ≡ true
    → get id a.users ≡ some (name, hash)
    → user_of o (jwt_payload id name made) a ≡ some (record { id = id; username = name })
unfolding user_of Json.get_or Json.find
user_of_lem o id made name hash a works there = rw works (rw (there, row_of) refl)

-- The token of a registration that is to succeed names the new user for a day after it, while the
-- database works; base64 being what its documentation says, and JSON reading back the token's fields.
pub validate_token-register :
    (o : Outside) (name password hash : Text) (a : Accounts) (now : ℕ)
    → IsSigning o.signing
    → o.signing.loads (o.signing.dumps (obj (jwt_payload o.fresh_id name o.now)))
      ≡ some (obj (jwt_payload o.fresh_id name o.now))
    → IsGood o name password hash a
    → now ≤ o.now + 86400
    → validate_token
        (record o { now = now })
        (create_jwt o.signing o.now o.fresh_id name o.jwt_secret)
        (register o (str name) (str password) a).1
      ≡ some (some (record { id = o.fresh_id; username = name }))
unfolding validate_token
validate_token-register o name password hash a now law reads g early =
    let a₁ = (register o (str name) (str password) a).1 in
    let in_time : ltb (o.now + 86400) now ≡ false = ground arith in
    let accepted =
      decode_jwt-create_jwt o.signing law o.now now o.fresh_id name o.jwt_secret reads in
    let there : get o.fresh_id a₁.users ≡ some (name, hash) =
      ap (get o.fresh_id) (users-register o name password hash a g)
      ∙ (get-put o.fresh_id o.fresh_id (name, hash) a.users
          ∙ ap (λ b. if b then some (name, hash) else get o.fresh_id a.users)
              (==_refl o.fresh_id)) in
    rw (accepted, validate_token)
      (rw in_time (
        ap some (user_of_lem (record o { now = now }) o.fresh_id o.now name hash a₁ g.works there)))
