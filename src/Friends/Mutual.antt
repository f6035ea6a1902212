-- ===== src/Friends/Mutual.antt =====
-- Friendship is mutual, and comes only from a request that the other user accepts.
use quickonnect.Prelude.{
  ℕ, Bool, true, false, none, some, [], Text, nat_eq, text_eq, ◌==◌, ◌≡◌, ◌≢◌, refl, arith,
  nat_beq_iff, inl, inr, Option-cases,
}
use quickonnect.Prelude.Dict.{Dict, get, put, get-put, get-erase}
use quickonnect.Friends.{
  Pair, pair_eq, Status, pending, accepted, Tables, find_user, ask, send_request, answer,
  respond_to_request,
}

-- Who is a friend of a user has that user as a friend.
pub record IsMutual (f : Dict Pair Status) : Type 0 where
  pub back : (a b : ℕ) → get (a, b) f ≡ some accepted → get (b, a) f ≡ some accepted

ask-IsMutual : (u v : ℕ) (t : Tables) → IsMutual t.friendships → IsMutual (ask u v t).1.friendships
unfolding ask
ask-IsMutual u v t m = record {
  back = λ a b h. ground (
    arith,
    get-put (u, v) (a, b) pending t.friendships,
    get-put (u, v) (b, a) pending t.friendships,
    m.back a b,
    m.back b a,
  );
}

-- A request, whatever comes of it, leaves a mutual friendship mutual.
pub send_request-IsMutual :
    (works : Bool) (u : ℕ) (name : Text) (t : Tables)
    → IsMutual t.friendships
    → IsMutual (send_request works u name t).1.friendships
unfolding send_request
send_request-IsMutual false u name t m = m
send_request-IsMutual true u name t m = elim (Option-cases (find_user name t.users)) [
  | inl unknown ↦ rw unknown m
  | inr (v, known) ↦ rw known (ask-IsMutual u v t m)
]

answer-IsMutual :
    (u v : ℕ) (accept : Bool) (f : Dict Pair Status)
    → get (v, u) f ≡ some pending
    → IsMutual f
    → IsMutual (answer u v accept f)
answer-IsMutual u v true f h m = record {
  back = λ a b k. ground (
    arith,
    get-put (v, u) (a, b) accepted f,
    get-put (v, u) (b, a) accepted f,
    get-put (u, v) (a, b) accepted (put (v, u) accepted f),
    get-put (u, v) (b, a) accepted (put (v, u) accepted f),
    m.back a b,
  );
}
answer-IsMutual u v false f h m = record {
  back = λ a b k. ground (arith, get-erase (v, u) (a, b) f, get-erase (v, u) (b, a) f, m.back a b);
}

respond_to_request-pending :
    (u v : ℕ) (accept : Bool) (t : Tables)
    → get (v, u) t.friendships ≡ some pending
    → respond_to_request true u v accept t
      ≡ ((true, []), record t { friendships = answer u v accept t.friendships })
unfolding respond_to_request
respond_to_request-pending u v accept t h = rw h refl

-- An answer, to a request or to none, leaves a mutual friendship mutual.
pub respond_to_request-IsMutual :
    (works : Bool) (u v : ℕ) (accept : Bool) (t : Tables)
    → IsMutual t.friendships
    → IsMutual (respond_to_request works u v accept t).1.friendships
unfolding respond_to_request
respond_to_request-IsMutual false u v accept t m = m
respond_to_request-IsMutual true u v accept t m = elim (Option-cases (get (v, u) t.friendships)) [
  | inl no_request ↦ rw no_request m
  | inr (accepted, old) ↦ rw old m
  | inr (pending, asked) ↦ rw asked (answer-IsMutual u v accept t.friendships asked m)
]

send_request-new :
    (u v : ℕ) (name : Text) (t : Tables)
    → find_user name t.users ≡ some v
    → v ≢ u
    → get (u, v) t.friendships ≡ none
    → send_request true u name t
      ≡ ((true, []), record t { friendships = put (u, v) pending t.friendships })
unfolding send_request ask
send_request-new u v name t known other new =
    let different : (v == u) ≡ false = ground (arith, nat_beq_iff v u) in rw (known, different, new)

-- A request to a known user who is not the caller, where none was made before, and then the accepting
-- answer of that user, succeed and make the two friends of each other.
pub request-accept :
    (u v : ℕ) (name : Text) (t : Tables)
    → find_user name t.users ≡ some v
    → v ≢ u
    → get (u, v) t.friendships ≡ none
    → ((send_request true u name t).0.0 ≡ true)
      × ((respond_to_request true v u true (send_request true u name t).1).0.0 ≡ true)
      × (get (u, v) (respond_to_request true v u true (send_request true u name t).1).1.friendships
          ≡ some accepted)
      × (get (v, u) (respond_to_request true v u true (send_request true u name t).1).1.friendships
          ≡ some accepted)
request-accept u v name t known other new =
    let t₁ : Tables = record t { friendships = put (u, v) pending t.friendships } in
    let f = t₁.friendships in
    let sent = send_request-new u v name t known other new in
    let waiting : get (u, v) f ≡ some pending =
      ground (arith, get-put (u, v) (u, v) pending t.friendships) in
    let answered = respond_to_request-pending v u true t₁ waiting in
    let first = get-put (u, v) (u, v) accepted f in
    rw (sent, answered)
      (
        refl,
        refl,
        ground (arith, first, get-put (v, u) (u, v) accepted (put (u, v) accepted f)),
        ground (arith, get-put (v, u) (v, u) accepted (put (u, v) accepted f)),
      )
