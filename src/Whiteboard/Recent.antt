-- ===== src/Whiteboard/Recent.antt =====
-- How long a client event id stays in the bounded memory of ids.
use mathlib.Core.List.{append_assoc}
use mathlib.Core.Path.{subst}
use quickonnect.Prelude.{
  ℕ, suc, ◌+◌, ◌<◌, ◌≤◌, true, false, Option, none, some, List, [], ◌∷◌, ◌++◌, ◌≡◌, refl, sym, ap,
  ◌∙◌, arith, ==_refl, nat_eq, Text, text_eq, elem, length, length-append, ltb, Bool-cases, inl,
  inr,
}
use quickonnect.Whiteboard.{WhiteboardState, trim, remember, history_limit}

-- The id is in the history, with at most `k` ids after it.
pub record IsRecent (i : Text) (k : ℕ) (history : List Text) : Type 0 where
  pub before : List Text
  pub after : List Text
  pub split : history ≡ before ++ i ∷ after
  pub few : length after ≤ k

elem-append : (i : Text) (l m : List Text) → elem i (l ++ i ∷ m) ≡ true
elem-append i [] m = ground (arith, ==_refl i)
elem-append i (j ∷ l) m = ground (arith, elem-append i l m)

pub IsRecent-elem : (i : Text) (k : ℕ) (l : List Text) → IsRecent i k l → elem i l ≡ true
IsRecent-elem i k l r = ap (elem i) r.split ∙ elem-append i r.before r.after

pub IsRecent-later : {i : Text} {k n : ℕ} {l : List Text} → IsRecent i k l → k ≤ n → IsRecent i n l
IsRecent-later r h = record {
  before = r.before;
  after = r.after;
  split = r.split;
  few = omega (arith, r.few, h);
}

-- A full history loses its oldest id only.
trim_split :
    (i : Text) (k : ℕ) (before after : List Text) (w : WhiteboardState)
    → w.event_id_history ≡ before ++ i ∷ after
    → length after ≤ k
    → k < history_limit
    → IsRecent i k (trim (before ++ i ∷ after) w).event_id_history
unfolding trim
trim_split i k [] after w e few small =
    let short : ltb history_limit (suc (length after)) ≡ false = ground arith in
    rw short (record { before = []; after = after; split = e; few = few })
trim_split i k (j ∷ before) after w e few small =
    elim (Bool-cases (ltb history_limit (suc (length (before ++ i ∷ after))))) [
      | inl long ↦ rw long (record { before = before; after = after; split = refl; few = few })
      | inr short ↦ rw short (record { before = j ∷ before; after = after; split = e; few = few })
    ]

trim-IsRecent :
    (i : Text) (k : ℕ) (l : List Text) (w : WhiteboardState)
    → w.event_id_history ≡ l
    → k < history_limit
    → IsRecent i k l
    → IsRecent i k (trim l w).event_id_history
trim-IsRecent i k l w e small r =
    subst (λ h. IsRecent i k (trim h w).event_id_history) (sym r.split)
      (trim_split i k r.before r.after w (e ∙ r.split) r.few small)

IsRecent-snoc :
    (i j : Text) (k : ℕ) (l : List Text) → IsRecent i k l → IsRecent i (k + 1) (l ++ j ∷ [])
IsRecent-snoc i j k l r = record {
  before = r.before;
  after = r.after ++ j ∷ [];
  split = ap (λ h. h ++ j ∷ []) r.split ∙ append_assoc r.before (i ∷ r.after) (j ∷ []);
  few = omega (arith, r.few, length-append {0} r.after (j ∷ []));
}

pub remember-IsRecent :
    (i : Text) (o : Option Text) (k : ℕ) (w : WhiteboardState)
    → k + 1 < history_limit
    → IsRecent i k w.event_id_history
    → IsRecent i (k + 1) (remember o w).event_id_history
unfolding remember
remember-IsRecent i none k w small r = IsRecent-later r (omega arith)
remember-IsRecent i (some []) k w small r = IsRecent-later r (omega arith)
remember-IsRecent i (some (c ∷ j)) k w small r =
    trim-IsRecent i (k + 1) (w.event_id_history ++ (c ∷ j) ∷ []) _ refl small
      (IsRecent-snoc i (c ∷ j) k w.event_id_history r)

-- The newest id of all.
pub remember-newest :
    (c : ℕ) (i : Text) (w : WhiteboardState)
    → IsRecent (c ∷ i) 0 (remember (some (c ∷ i)) w).event_id_history
unfolding remember
remember-newest c i w =
    trim-IsRecent (c ∷ i) 0 (w.event_id_history ++ (c ∷ i) ∷ []) _ refl (omega arith)
      (record { before = w.event_id_history; after = []; split = refl; few = omega arith })
