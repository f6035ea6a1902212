-- ===== src/Balancer/Routing.antt =====
-- Where a client is sent, and where the next one for the same room.
use mathlib.Core.Path.{subst}
use quickonnect.Prelude.{
  true, false, ◌||◌, Option, none, some, [], ◌∷◌, ◌==◌, Text, text_eq, ◌≡◌, refl, sym, ap, ◌∙◌,
  arith, if◌then◌else◌, ◌⊎◌, inl, inr, Bool-cases, Option-cases, All, ==_refl,
}
use quickonnect.Prelude.Dict.{get, values, get-put}
use quickonnect.Rooms.{is_dm_room}
use quickonnect.Handler.{is_empty}
use quickonnect.Balancer.{ServerInfo, Servers, get_least_loaded}
use quickonnect.Balancer.Router.{
  State, Redis, resolve, pinned, running, on_server, assign, get_room_server, set_room_server,
}
use quickonnect.Balancer.Keyed.{IsKeyed, get-Among}
use quickonnect.Balancer.Choice.{Among, get_least_loaded_lem}

running_lem :
    (o : Option ServerInfo) (info : ServerInfo)
    → running o ≡ some info
    → (o ≡ some info) × (info.is_up ≡ true)
running_lem none info e = cc e
running_lem (some found) info e = elim (Bool-cases found.is_up) [
  | inl up ↦
      let same : found ≡ info = ground (arith, e, up) in
      (ap some same, ap (λ i. i.is_up) (sym same) ∙ up)
  | inr down ↦ absurd (ground (arith, e, down))
]

-- The server found for a room is the one of the id kept for it, and is up.
on_server_lem :
    (o : Option Text) (d : Servers) (info : ServerInfo)
    → on_server o d ≡ some info
    → (id : Text) × ((o ≡ some id) × ((get id d ≡ some info) × (info.is_up ≡ true)))
on_server_lem none d info e = cc e
on_server_lem (some id) d info e = elim (Bool-cases (is_empty id)) [
  | inl empty ↦ absurd (ground (arith, e, empty))
  | inr full ↦
      let found =
        running_lem (get id d) info
          (sym (ap (λ b. if b then none else running (get id d)) full) ∙ e) in
      (id, (refl, found))
]

some_inj : {s t : ServerInfo} → some s ≡ some t → s ≡ t
some_inj e = cc e

-- What stands in the table is one of its values.
get-values : (id : Text) (s : ServerInfo) (d : Servers) → get id d ≡ some s → Among s (values d)
unfolding get
get-values id s [] h = absurd (cc h)
get-values id s ((k, info) ∷ d) h = elim (Bool-cases (id == k)) [
  | inl here ↦ inl (some_inj (sym (ap (λ b. if b then some info else get id d) here) ∙ h))
  | inr there ↦
      inr (get-values id s d (sym (ap (λ b. if b then some info else get id d) there) ∙ h))
]

least_is_up :
    (st : State)
    → ((get_least_loaded st.servers ≡ none) × All (λ t. t.is_up ≡ false) (values st.servers))
      ⊎ ((s : ServerInfo) × ((get_least_loaded st.servers ≡ some s)
            × (Among s (values st.servers) × (s.is_up ≡ true))))
least_is_up st = elim (get_least_loaded_lem st.servers) [
  | inl nobody ↦ inl nobody
  | inr (s, (chosen, (member, least))) ↦ inr (s, (chosen, member))
]

assign_is_up :
    (r : Redis) (room_code : Text) (st : State)
    → (((assign r room_code st).0 ≡ none) × All (λ t. t.is_up ≡ false) (values st.servers))
      ⊎ ((s : ServerInfo) × (((assign r room_code st).0 ≡ some s)
            × (Among s (values st.servers) × (s.is_up ≡ true))))
unfolding assign
assign_is_up r room_code st = elim (least_is_up st) [
  | inl (nobody, down) ↦ rw (nobody, assign) (inl (refl, down))
  | inr (s, (chosen, member)) ↦ rw (chosen, assign) (inr (s, (refl, member)))
]

-- Every request is sent to a server of the table that is up, and gets none only where every server is down, whatever
-- Redis answers.
pub resolve_lem :
    (r : Redis) (room_code : Option Text) (st : State)
    → (((resolve r room_code st).0 ≡ none) × All (λ t. t.is_up ≡ false) (values st.servers))
      ⊎ ((s : ServerInfo) × (((resolve r room_code st).0 ≡ some s)
            × (Among s (values st.servers) × (s.is_up ≡ true))))
unfolding resolve pinned
resolve_lem r none st = least_is_up st
resolve_lem r (some room_code) st = elim (Bool-cases (is_empty room_code || is_dm_room room_code)) [
  | inl free ↦ rw free (least_is_up st)
  | inr kept ↦ rw kept (elim (Option-cases (pinned r room_code st)) [
    | inl nowhere ↦ rw nowhere (assign_is_up r room_code st)
    | inr (info, there) ↦
        let (id, (pin, (known, up))) =
          on_server_lem (get_room_server r room_code st) st.servers info there in
        rw there (inr (info, (refl, (get-values id info st.servers known, up))))
  ])
]

pinned_up_lem :
    (r : Redis) (room_code id : Text) (st : State) (s : ServerInfo)
    → r.get_works ≡ true
    → is_empty id ≡ false
    → get room_code st.pins ≡ some id
    → get id st.servers ≡ some s
    → s.is_up ≡ true
    → pinned r room_code st ≡ some s
unfolding pinned get_room_server
pinned_up_lem r room_code id st s works full pin known up =
    rw works (rw pin (rw full (rw known (rw up refl))))

-- A room that has a pin is resolved to the server of that id, while it is up.
resolve_pinned :
    (r : Redis) (room_code id : Text) (st : State) (s : ServerInfo)
    → r.get_works ≡ true
    → (is_empty room_code || is_dm_room room_code) ≡ false
    → is_empty id ≡ false
    → get room_code st.pins ≡ some id
    → get id st.servers ≡ some s
    → s.is_up ≡ true
    → (resolve r (some room_code) st).0 ≡ some s
unfolding resolve
resolve_pinned r room_code id st s works kept full pin known up =
    rw kept (rw (pinned_up_lem r room_code id st s works full pin known up) refl)

resolve_found :
    (r : Redis) (room_code : Text) (st : State) (info : ServerInfo)
    → (is_empty room_code || is_dm_room room_code) ≡ false
    → pinned r room_code st ≡ some info
    → resolve r (some room_code) st ≡ (some info, st)
unfolding resolve
resolve_found r room_code st info kept there = rw kept (rw there refl)

resolve_least :
    (r : Redis) (room_code : Text) (st : State) (t : ServerInfo)
    → (is_empty room_code || is_dm_room room_code) ≡ false
    → pinned r room_code st ≡ none
    → get_least_loaded st.servers ≡ some t
    → resolve r (some room_code) st ≡ (some t, set_room_server r room_code t.server_id st)
unfolding resolve
resolve_least r room_code st t kept nowhere chosen = rw kept (rw nowhere (rw (chosen, assign) refl))

resolve_nobody :
    (r : Redis) (room_code : Text) (st : State)
    → (is_empty room_code || is_dm_room room_code) ≡ false
    → pinned r room_code st ≡ none
    → get_least_loaded st.servers ≡ none
    → resolve r (some room_code) st ≡ (none, st)
unfolding resolve
resolve_nobody r room_code st kept nowhere nobody = rw kept (rw nowhere (rw (nobody, assign) refl))

none_not_some : {s : ServerInfo} → none ≡ some s → ⊥
none_not_some e = cc e

get_room_server_lem :
    (r : Redis) (room_code : Text) (st : State)
    → r.get_works ≡ true
    → get_room_server r room_code st ≡ get room_code st.pins
unfolding get_room_server
get_room_server_lem r room_code st works = rw works refl

found_pin :
    (r : Redis) (room_code : Text) (st : State) (s : ServerInfo)
    → r.get_works ≡ true
    → IsKeyed st.servers
    → pinned r room_code st ≡ some s
    → (get room_code st.pins ≡ some s.server_id) × (get s.server_id st.servers ≡ some s)
unfolding pinned
found_pin r room_code st s works keyed there =
    let (id, (pin, (known, up))) =
      on_server_lem (get_room_server r room_code st) st.servers s there in
    let own : s.server_id ≡ id = keyed.same id s known in
    (
      sym (get_room_server_lem r room_code st works) ∙ (pin ∙ ap some (sym own)),
      ap (λ i. get i st.servers) own ∙ known,
    )

new_pin :
    (r : Redis) (room_code id : Text) (st : State)
    → r.set_works ≡ true
    → get room_code (set_room_server r room_code id st).pins ≡ some id
unfolding set_room_server
new_pin r room_code id st works = rw works (
    get-put room_code room_code id st.pins
    ∙ ap (λ b. if b then some id else get room_code st.pins) (==_refl room_code))

-- The pin of a room after a request for it.
resolve_pins :
    (r : Redis) (room_code : Text) (st : State) (s : ServerInfo)
    → r.get_works ≡ true
    → r.set_works ≡ true
    → (is_empty room_code || is_dm_room room_code) ≡ false
    → IsKeyed st.servers
    → (resolve r (some room_code) st).0 ≡ some s
    → (get room_code (resolve r (some room_code) st).1.pins ≡ some s.server_id)
      × (get s.server_id st.servers ≡ some s)
resolve_pins r room_code st s gets sets kept keyed e = elim (Option-cases (pinned r room_code st)) [
  | inr (info, there) ↦
      let step = resolve_found r room_code st info kept there in
      let same : info ≡ s = some_inj (sym (ap (λ p. p.0) step) ∙ e) in
      subst
        (λ p. (get room_code p.1.pins ≡ some s.server_id) × (get s.server_id st.servers ≡ some s))
        (sym step) (found_pin r room_code st s gets keyed (there ∙ ap some same))
  | inl nowhere ↦ elim (get_least_loaded_lem st.servers) [
    | inl (nobody, down) ↦ absurd (
        none_not_some (sym (ap (λ p. p.0) (resolve_nobody r room_code st kept nowhere nobody)) ∙ e))
    | inr (t, (chosen, ((among, up), least))) ↦
        let step = resolve_least r room_code st t kept nowhere chosen in
        let same : t ≡ s = some_inj (sym (ap (λ p. p.0) step) ∙ e) in
        subst
          (λ p. (get room_code p.1.pins ≡ some s.server_id) × (get s.server_id st.servers ≡ some s))
          (sym step)
          (subst
            (λ u.
              (get room_code (set_room_server r room_code t.server_id st).pins ≡ some u.server_id)
              × (get u.server_id st.servers ≡ some u))
            same (new_pin r room_code t.server_id st sets, get-Among t st.servers keyed among))
  ]
]

-- A later request for the same room, with a code that is neither empty nor one of a direct message, is
-- sent to the same server as long as that is up and no one has changed the room's key in Redis in
-- between (the chat servers delete it once the room is empty), however the loads, the other servers
-- and the keys of other rooms change: where Redis answers, and every server stands under its id.
pub resolve_again :
    (r : Redis) (room_code : Text) (st st' : State) (s later : ServerInfo)
    → r.get_works ≡ true
    → r.set_works ≡ true
    → (is_empty room_code || is_dm_room room_code) ≡ false
    → IsKeyed st.servers
    → (resolve r (some room_code) st).0 ≡ some s
    → get room_code st'.pins ≡ get room_code (resolve r (some room_code) st).1.pins
    → get s.server_id st'.servers ≡ some later
    → later.is_up ≡ true
    → (resolve r (some room_code) st').0 ≡ some later
resolve_again r room_code st st' s later gets sets kept keyed e same known up =
    let pin = resolve_pins r room_code st s gets sets kept keyed e in
    resolve_pinned r room_code s.server_id st' later gets kept (keyed.full s.server_id s pin.1)
      (same ∙ pin.0) known up
