-- ===== src/Examples/Friendships.antt =====
-- Two users, and a request between them.
use quickonnect.Prelude.{List, true, some, [], ◌∷◌, codes, text_eq, ◌≡◌, refl, arith, text_beq}
use quickonnect.Prelude.Dict.{get}
use quickonnect.Friends.{pair_eq, accepted, Tables, find_user, send_request, respond_to_request}
use quickonnect.Friends.History.{Change, request, response, apply_all, apply_all-IsMutual}
use quickonnect.Friends.Mutual.{IsMutual, request-accept}

abbrev strangers : Tables
strangers = record { users = (1, codes "ann") ∷ (2, codes "bob") ∷ []; friendships = [] }

strangers-IsMutual : IsMutual strangers.friendships
unfolding get
strangers-IsMutual = record { back = λ a b h. absurd (ground arith) }

request_accept_example :
    ((send_request true 1 (codes "bob") strangers).0.0 ≡ true)
    × ((respond_to_request true 2 1 true (send_request true 1 (codes "bob") strangers).1).0.0
        ≡ true)
    × (get
          (1, 2)
          (respond_to_request true 2 1 true
            (send_request true 1 (codes "bob") strangers).1).1.friendships
        ≡ some accepted)
    × (get
          (2, 1)
          (respond_to_request true 2 1 true
            (send_request true 1 (codes "bob") strangers).1).1.friendships
        ≡ some accepted)
unfolding find_user text_beq get
request_accept_example = request-accept 1 2 (codes "bob") strangers refl (ground arith) refl

-- Ann asks Bob, who accepts, and then she asks herself.
abbrev changes : List Change
changes = request true 1 (codes "bob") ∷ response true 2 1 true ∷ request true 1 (codes "ann") ∷ []

changes_example : IsMutual (apply_all changes strangers).friendships
changes_example = apply_all-IsMutual changes strangers strangers-IsMutual
