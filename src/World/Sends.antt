-- ===== src/World/Sends.antt =====
-- What sending leaves alone, and the order of what is sent.
use mathlib.Core.List.{reverse_aux}
use mathlib.Core.Path.{subst}
use quickonnect.Prelude.{
  ℕ, none, some, List, [], ◌∷◌, map, nat_eq, ◌==◌, ◌≡◌, ◌≢◌, refl, sym, ap, ◌∙◌, arith, ◌⊎◌, inl,
  inr, Bool-cases, Option-cases, All, nat_beq_iff,
}
use quickonnect.Prelude.Dict.{Dict, get, IsDistinct}
use quickonnect.Json.{Json}
use quickonnect.Packet.{PacketType}
use quickonnect.World.{
  Env, World, Session, Proc, Done, ◌>>=◌, ◌>>◌, Call, sent, deliver, deliver_all, without_user,
}

-- A step whose first part is known.
pub bind-some {ℓ κ} :
    {A : Type ℓ} {B : Type κ} (m : Proc A) (f : A → Proc B) (w w' : World) (a : A)
    → m w ≡ (some a, w')
    → (m >>= f) w ≡ f a w'
bind-some m f w w' a e = ap (λ r. ((λ _. r) >>= f) w) e

pub bind-none {ℓ κ} :
    {A : Type ℓ} {B : Type κ} (m : Proc A) (f : A → Proc B) (w w' : World)
    → m w ≡ (none, w')
    → (m >>= f) w ≡ (none, w')
bind-none m f w w' e = ap (λ r. ((λ _. r) >>= f) w) e

-- Two worlds that differ at most in the calls made and the loops stopped.
pub record SameState (v w : World) : Type 0 where
  pub rooms : v.rooms ≡ w.rooms
  pub current_rooms : v.current_rooms ≡ w.current_rooms
  pub clients : v.clients ≡ w.clients

pub SameState-refl : (w : World) → SameState w w
SameState-refl w = record { rooms = refl; current_rooms = refl; clients = refl }

pub SameState-trans : (u v w : World) → SameState u v → SameState v w → SameState u w
SameState-trans u v w a b = record {
  rooms = a.rooms ∙ b.rooms;
  current_rooms = a.current_rooms ∙ b.current_rooms;
  clients = a.clients ∙ b.clients;
}

-- A step that leaves the state alone, after one that left it as `v`.
pub then-SameState :
    (m k : Proc Done) (v w : World)
    → SameState (m w).1 v
    → ((u : World) → SameState (k u).1 u)
    → SameState ((m >> k) w).1 v
then-SameState m k v w first second = elim (Option-cases (m w).0) [
  | inl failed ↦
      subst (λ r. SameState r.1 v)
        (sym (bind-none m (λ d. k) w (m w).1 (ap (λ o. (o, (m w).1)) failed))) first
  | inr (d, worked) ↦
      subst (λ r. SameState r.1 v)
        (sym (bind-some m (λ d. k) w (m w).1 d (ap (λ o. (o, (m w).1)) worked)))
        (SameState-trans (k (m w).1).1 (m w).1 v (second (m w).1) first)
]

pub deliver_all-SameState :
    (env : Env) (l : List Session) (t : PacketType) (p : Json) (w : World)
    → SameState (deliver_all env l t p w) w
unfolding deliver_all
deliver_all-SameState env [] t p w = SameState-refl w
deliver_all-SameState env (s ∷ l) t p w =
    let rest = deliver_all-SameState env l t p (deliver env s.conn t p w) in
    record { rooms = rest.rooms; current_rooms = rest.current_rooms; clients = rest.clients }

-- The calls that reach each of the sessions in turn.
abbrev pub sends : List Session → PacketType → Json → List Call
sends l t p = map (λ s. sent s.conn t p) l

pub log-deliver_all :
    (env : Env) (l : List Session) (t : PacketType) (p : Json) (w : World)
    → (deliver_all env l t p w).log ≡ reverse_aux (sends l t p) w.log
unfolding deliver_all
log-deliver_all env [] t p w = refl
log-deliver_all env (s ∷ l) t p w = log-deliver_all env l t p (deliver env s.conn t p w)

-- Since `old`, only calls of the kind `P` were made.
pub data Added (P : Call → Type 0) (old : List Call) : List Call → Type 0 where
  no_more : Added P old old
  more : {c : Call} {log : List Call} → P c → Added P old log → Added P old (c ∷ log)

pub deliver_all-Added :
    {P : Call → Type 0} {old : List Call} (env : Env) (l : List Session) (t : PacketType) (p : Json)
    (w : World)
    → All (λ s. P (sent s.conn t p)) l
    → Added P old w.log
    → Added P old (deliver_all env l t p w).log
unfolding deliver_all
deliver_all-Added env [] t p w each before = before
deliver_all-Added env (s ∷ l) t p w each before =
    deliver_all-Added env l t p (deliver env s.conn t p w) each.1 (more each.0 before)

pub deliver-Added :
    {P : Call → Type 0} {old : List Call} (env : Env) (conn : ℕ) (t : PacketType) (p : Json)
    (w : World)
    → P (sent conn t p)
    → Added P old w.log
    → Added P old (deliver env conn t p w).log
unfolding deliver
deliver-Added env conn t p w now before = more now before

-- Every session but the user's own is one of the dict.
pub without_user-All :
    {P : Session → Type 0} (u : ℕ) (d : Dict ℕ Session)
    → ((v : ℕ) (s : Session) → v ≢ u → get v d ≡ some s → P s)
    → IsDistinct d
    → All P (without_user u d)
unfolding without_user get
without_user-All u [] each distinct = tt
without_user-All u ((v, s) ∷ d) each distinct =
    let rest =
      without_user-All u d (λ i r n h. each i r n (ground (arith, distinct.0))) distinct.1 in
    elim (Bool-cases (v == u)) [
      | inl own ↦ rw own rest
      | inr other ↦ rw other (each v s (ground (arith, nat_beq_iff v u)) (ground arith), rest)
    ]

-- The call is in the log.
abbrev pub IsLogged : Call → List Call → Type 0
IsLogged c [] = ⊥
IsLogged c (d ∷ log) = (d ≡ c) ⊎ IsLogged c log

pub deliver_all-keeps :
    (env : Env) (l : List Session) (t : PacketType) (p : Json) (c : Call) (w : World)
    → IsLogged c w.log
    → IsLogged c (deliver_all env l t p w).log
unfolding deliver_all
deliver_all-keeps env [] t p c w h = h
deliver_all-keeps env (s ∷ l) t p c w h =
    deliver_all-keeps env l t p c (deliver env s.conn t p w) (inr h)

-- Every other user of the dict is sent the packet.
pub deliver_all-reaches :
    (env : Env) (u v : ℕ) (s : Session) (d : Dict ℕ Session) (t : PacketType) (p : Json) (w : World)
    → v ≢ u
    → get v d ≡ some s
    → IsLogged (sent s.conn t p) (deliver_all env (without_user u d) t p w).log
unfolding deliver deliver_all without_user get
deliver_all-reaches env u v s [] t p w n h = absurd (ground arith)
deliver_all-reaches env u v s ((i, r) ∷ d) t p w n h = elim (Bool-cases (i == u)) [
  | inl own ↦
      rw own
        (deliver_all-reaches env u v s d t p w n (ground (arith, nat_beq_iff i u, nat_beq_iff v i)))
  | inr other ↦ rw other (
      let w' = deliver env r.conn t p w in
      elim (Bool-cases (v == i)) [
        | inl here ↦
            let same : r ≡ s = ground (arith, nat_beq_iff v i) in
            deliver_all-keeps env (without_user u d) t p (sent s.conn t p) w'
              (inl (ap (λ q. sent q.conn t p) same))
        | inr there ↦ deliver_all-reaches env u v s d t p w' n (ground arith)
      ])
]
