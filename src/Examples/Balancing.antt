-- ===== src/Examples/Balancing.antt =====
-- Two servers, one of which has fewer clients.
use quickonnect.Prelude.{
  ◌≡◌, refl, sym, ap, ◌∙◌, arith, true, false, ◌⊎◌, some, [], ◌∷◌, Text, codes, nat_eq, text_eq,
  text_beq, inl, inr, Bool-cases, text_beq_iff, ◌==◌,
}
use quickonnect.Prelude.Dict.{get, put}
use quickonnect.Rooms.{is_dm_room, starts_with}
use quickonnect.Handler.{is_empty}
use quickonnect.Balancer.{
  ServerInfo, Servers, get_least_loaded, less_loaded, up_servers, sort_servers, insert_server,
}
use quickonnect.Balancer.Router.{
  Network, State, Redis, resolve, pinned, assign, get_room_server, set_room_server,
}
use quickonnect.Balancer.Keyed.{IsKeyed}
use quickonnect.Balancer.Routing.{resolve_again}

abbrev one : ServerInfo
one = record {
  server_id = codes "s1";
  host = codes "127.0.0.1";
  port = 9001;
  connection_count = 5;
  cpu_load = 0;
  is_up = true;
  last_check = 0;
}

abbrev two : ServerInfo
two = record one { server_id = codes "s2"; port = 9002; connection_count = 3 }

abbrev servers : Servers
servers = (codes "s1", one) ∷ ((codes "s2", two) ∷ [])

abbrev state : State
state = record { servers = servers; pins = [] }

abbrev redis : Redis
redis = record { get_works = true; set_works = true }

known :
    (id : Text) (info : ServerInfo)
    → get id servers ≡ some info
    → ((codes "s1" ≡ id) × (one ≡ info)) ⊎ ((codes "s2" ≡ id) × (two ≡ info))
unfolding get
known id info h = elim (Bool-cases (id == codes "s1")) [
  | inl first ↦
      let found : some one ≡ some info = ground (arith, h, first) in
      inl (sym ((text_beq_iff id (codes "s1")).0 first), cc found)
  | inr other ↦ elim (Bool-cases (id == codes "s2")) [
    | inl second ↦
        let found : some two ≡ some info = ground (arith, h, other, second) in
        inr (sym ((text_beq_iff id (codes "s2")).0 second), cc found)
    | inr neither ↦ absurd (ground (arith, h, other, neither))
  ]
]

servers-IsKeyed : IsKeyed servers
unfolding get text_beq is_empty
servers-IsKeyed = record {
  same = λ id info h. elim (known id info h) [
    | inl (at, found) ↦ sym (ap (λ i. i.server_id) found) ∙ at
    | inr (at, found) ↦ sym (ap (λ i. i.server_id) found) ∙ at
  ];
  full = λ id info h. elim (known id info h) [
    | inl (at, found) ↦ sym (ap is_empty at)
    | inr (at, found) ↦ sym (ap is_empty at)
  ];
  distinct = (refl, (refl, tt));
}

-- Now the second server has more clients than the first.
abbrev busy : ServerInfo
busy = record two { connection_count = 9 }

-- The state once the first request was answered, and another room was kept for the first server.
abbrev later : State
later = record {
  servers = (codes "s1", one) ∷ ((codes "s2", busy) ∷ []);
  pins = (codes "LOBBY2", codes "s1") ∷ ((codes "LOBBY1", codes "s2") ∷ []);
}

again_example : (resolve redis (some (codes "LOBBY1")) later).0 ≡ some busy
unfolding resolve get_least_loaded up_servers sort_servers insert_server less_loaded pinned assign
    get put get_room_server set_room_server is_empty is_dm_room starts_with text_beq
again_example =
    resolve_again redis (codes "LOBBY1") state later two busy refl refl refl servers-IsKeyed refl
      refl refl refl

-- Every address counts as a loopback.
abbrev network : Network
network = record { lower = λ t. t; ip = λ t. some (true, false) }
