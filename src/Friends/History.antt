-- ===== src/Friends/History.antt =====
-- Friendship through any sequence of requests and answers.
use quickonnect.Prelude.{ℕ, Bool, List, [], ◌∷◌, Text}
use quickonnect.Friends.{Tables, send_request, respond_to_request}
use quickonnect.Friends.Mutual.{IsMutual, send_request-IsMutual, respond_to_request-IsMutual}

-- One call of a method of the service that writes, with whether its statements work.
pub data Change : Type 0 where
  request : Bool → ℕ → Text → Change
  response : Bool → ℕ → ℕ → Bool → Change

unfoldable pub apply_change : Change → Tables → Tables
apply_change (request works from_user_id name) t = (send_request works from_user_id name t).1
apply_change (response works user_id from_user_id accept) t =
    (respond_to_request works user_id from_user_id accept t).1

unfoldable pub apply_all : List Change → Tables → Tables
unfolding apply_change
apply_all [] t = t
apply_all (c ∷ cs) t = apply_all cs (apply_change c t)

apply_change-IsMutual :
    (c : Change) (t : Tables) → IsMutual t.friendships → IsMutual (apply_change c t).friendships
unfolding apply_change
apply_change-IsMutual (request works from_user_id name) t m =
    send_request-IsMutual works from_user_id name t m
apply_change-IsMutual (response works user_id from_user_id accept) t m =
    respond_to_request-IsMutual works user_id from_user_id accept t m

-- Any sequence of requests and answers, by any users and whether the database works or not, leaves a mutual
-- friendship mutual: whoever is a friend of another has that other as a friend.
pub apply_all-IsMutual :
    (cs : List Change) (t : Tables) → IsMutual t.friendships → IsMutual (apply_all cs t).friendships
unfolding apply_all
apply_all-IsMutual [] t m = m
apply_all-IsMutual (c ∷ cs) t m =
    apply_all-IsMutual cs (apply_change c t) (apply_change-IsMutual c t m)
