-- ===== src/Balancer/Keyed.antt =====
-- Each server stands under its id, from the start of the health checker on.
use quickonnect.Prelude.{
  false, some, List, [], ◌∷◌, Text, text_eq, ◌==◌, ◌≡◌, sym, ap, ◌∙◌, arith, All, inl, inr,
  Bool-cases, text_beq_iff, ==_refl,
}
use quickonnect.Prelude.Dict.{get, put, values, get-put, IsDistinct, put-IsDistinct}
use quickonnect.Handler.{is_empty}
use quickonnect.Balancer.{Entry, ServerInfo, Servers, new_info, init_servers}
use quickonnect.Balancer.Choice.{Among}

-- Every server stands under its id, no id is empty, and none stands twice.
pub record IsKeyed (d : Servers) : Type 0 where
  pub same : (id : Text) (info : ServerInfo) → get id d ≡ some info → info.server_id ≡ id
  pub full : (id : Text) (info : ServerInfo) → get id d ≡ some info → is_empty id ≡ false
  pub distinct : IsDistinct d

get-values :
    (s : ServerInfo) (d : Servers)
    → IsDistinct d
    → Among s (values d)
    → (id : Text) × (get id d ≡ some s)
unfolding get
get-values s [] distinct h = absurd h
get-values s ((id, info) ∷ d) distinct (inl here) = (id, rw (==_refl id) (ap some here))
get-values s ((id, info) ∷ d) distinct (inr there) =
    let (other, found) = get-values s d distinct.1 there in
    (
      other,
      elim (Bool-cases (other == id)) [
        | inl same ↦ absurd (ground (arith, text_beq_iff other id, distinct.0, found, same))
        | inr apart ↦ rw apart found
      ],
    )

-- A server of the table is the one that stands under its id.
pub get-Among :
    (s : ServerInfo) (d : Servers) → IsKeyed d → Among s (values d) → get s.server_id d ≡ some s
get-Among s d keyed among =
    let (id, found) = get-values s d keyed.distinct among in
    ap (λ i. get i d) (keyed.same id s found) ∙ found

put-IsKeyed :
    (e : Entry) (d : Servers)
    → is_empty e.server_id ≡ false
    → IsKeyed d
    → IsKeyed (put e.server_id (new_info e) d)
put-IsKeyed e d full keyed = record {
  same = λ id info h. elim (Bool-cases (id == e.server_id)) [
    | inl here ↦
        let found : some (new_info e) ≡ some info =
          ground (arith, get-put e.server_id id (new_info e) d, here, h) in
        let is_it : new_info e ≡ info = cc found in
        ap (λ i. i.server_id) (sym is_it) ∙ sym ((text_beq_iff id e.server_id).0 here)
    | inr other ↦
        keyed.same id info (ground (arith, get-put e.server_id id (new_info e) d, other, h))
  ];
  full = λ id info h. elim (Bool-cases (id == e.server_id)) [
    | inl here ↦ ap is_empty ((text_beq_iff id e.server_id).0 here) ∙ full
    | inr other ↦
        keyed.full id info (ground (arith, get-put e.server_id id (new_info e) d, other, h))
  ];
  distinct = put-IsDistinct e.server_id (new_info e) d keyed.distinct;
}

-- The health checker's table is keyed by the ids, where none of those configured is empty.
pub init_servers-IsKeyed :
    (l : List Entry) (d : Servers)
    → All (λ e. is_empty e.server_id ≡ false) l
    → IsKeyed d
    → IsKeyed (init_servers l d)
unfolding init_servers
init_servers-IsKeyed [] d full keyed = keyed
init_servers-IsKeyed (e ∷ l) d full keyed =
    init_servers-IsKeyed l (put e.server_id (new_info e) d) full.1 (put-IsKeyed e d full.0 keyed)
