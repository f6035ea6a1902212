-- ===== src/Whiteboard/Retry.antt =====
-- An event that a client sends again under its id.
use quickonnect.Prelude.{
  ℕ, ◌+◌, ◌<◌, false, length, Bool-cases, inl, inr, true, Option, none, some, List, [], ◌∷◌, ◌++◌,
  ◌≡◌, refl, sym, arith, ==_refl, nat_eq, Text, text_eq, ◌∙◌, ap,
}
use quickonnect.Prelude.Dict.{Dict}
use quickonnect.Json.{Fields}
use quickonnect.Whiteboard.{
  Event, WhiteboardState, find_seq, add_event, store, remember, is_processed,
  recalculate_undone_seqs, history_limit,
}
use quickonnect.Whiteboard.Events.{put_new, get_above}
use quickonnect.Whiteboard.Valid.{IsValid, add_event-IsValid}
use quickonnect.Whiteboard.Recent.{
  IsRecent, IsRecent-elem, IsRecent-later, remember-IsRecent, remember-newest,
}
use mathlib.Core.Path.{subst}
use quickonnect.Whiteboard.Redo.{add_event-events, stored}

find_seq-snoc :
    (i : Text) (d : Dict ℕ Event) (s : ℕ) (e : Event)
    → find_seq i d ≡ none
    → e.client_event_id ≡ some i
    → find_seq i (d ++ (s, e) ∷ []) ≡ some s
unfolding find_seq
find_seq-snoc i [] s e h q = ground (arith, ==_refl i)
find_seq-snoc i ((k, f) ∷ d) s e h q = ground (arith, find_seq-snoc i d s e)

pub add_event-new :
    (u : ℕ) (t : Text) (p : Fields) (o : Option Text) (w : WhiteboardState)
    → is_processed o w ≡ false
    → add_event u t p o w ≡ (recalculate_undone_seqs (remember o (store u t p o w)), w.last_seq + 1)
unfolding add_event
add_event-new u t p o w n = rw n

add_event-old :
    (u s : ℕ) (t : Text) (p : Fields) (i : Text) (w : WhiteboardState)
    → is_processed (some i) w ≡ true
    → find_seq i w.events ≡ some s
    → add_event u t p (some i) w ≡ (w, s)
unfolding add_event
add_event-old u s t p i w n f = rw (n, f)

find_seq-append :
    (i : Text) (s k : ℕ) (e : Event) (d : Dict ℕ Event)
    → find_seq i d ≡ some s
    → find_seq i (d ++ (k, e) ∷ []) ≡ some s
unfolding find_seq
find_seq-append i s k e [] h = absurd (cc h)
find_seq-append i s k e ((l, f) ∷ d) h = ground (arith, find_seq-append i s k e d)

-- The event of an id is in memory, and its id among the newest.
record IsKnown (i : Text) (s k : ℕ) (w : WhiteboardState) : Type 0 where
  valid : IsValid w
  found : find_seq i w.events ≡ some s
  recent : IsRecent i k w.event_id_history

add_event-repeated :
    (u : ℕ) (t : Text) (p : Fields) (o : Option Text) (w : WhiteboardState)
    → is_processed o w ≡ true
    → (add_event u t p o w).0 ≡ w
unfolding add_event
add_event-repeated u t p o w old = rw old refl

add_event_ids :
    (u : ℕ) (t : Text) (p : Fields) (o : Option Text) (w : WhiteboardState)
    → is_processed o w ≡ false
    → (add_event u t p o w).0.event_id_history ≡ (remember o (store u t p o w)).event_id_history
unfolding recalculate_undone_seqs
add_event_ids u t p o w new = ap (λ r. r.0.event_id_history) (add_event-new u t p o w new)

-- Another event leaves the event known, with at most one more id after its own.
add_event-IsKnown :
    (u : ℕ) (t : Text) (p : Fields) (o : Option Text) (w : WhiteboardState) (i : Text) (s k : ℕ)
    → k + 1 < history_limit
    → IsKnown i s k w
    → IsKnown i s (k + 1) (add_event u t p o w).0
unfolding store
add_event-IsKnown u t p o w i s k small known = elim (Bool-cases (is_processed o w)) [
  | inl old ↦ subst (IsKnown i s (k + 1)) (sym (add_event-repeated u t p o w old)) (record {
    valid = known.valid;
    found = known.found;
    recent = IsRecent-later known.recent (omega arith);
  })
  | inr new ↦
      let e = stored u t p o w in
      let n = w.last_seq + 1 in
      record {
        valid = add_event-IsValid u t p o w known.valid;
        found =
            ap (find_seq i) (
              (add_event-events u t p o w new).0
              ∙ put_new w.events n e
                  (get_above w.events w.last_seq n known.valid.below (omega arith)))
            ∙ find_seq-append i s n e w.events known.found;
        recent =
            subst (IsRecent i (k + 1)) (sym (add_event_ids u t p o w new))
              (remember-IsRecent i o k (store u t p o w) small known.recent);
      }
]

-- Events that are sent: by whom, of which type, with which payload, and under which id.
abbrev pub Sending : Type 0
Sending = ℕ × Text × Fields × Option Text

unfoldable pub add_all : List Sending → WhiteboardState → WhiteboardState
add_all [] w = w
add_all ((u, t, p, o) ∷ es) w = add_all es (add_event u t p o w).0

add_all-IsKnown :
    (es : List Sending) (w : WhiteboardState) (i : Text) (s k : ℕ)
    → k + length es < history_limit
    → IsKnown i s k w
    → IsKnown i s (k + length es) (add_all es w)
unfolding add_all
add_all-IsKnown [] w i s k small known = subst (λ n. IsKnown i s n w) (omega arith) known
add_all-IsKnown ((u, t, p, o) ∷ es) w i s k small known =
    let w' = (add_event u t p o w).0 in
    subst (λ n. IsKnown i s n (add_all es w')) (omega arith)
      (add_all-IsKnown es w' i s (k + 1) (omega (arith, small))
        (add_event-IsKnown u t p o w i s k (omega (arith, small)) known))

-- The event is known once it was added.
add_event-new-IsKnown :
    (u : ℕ) (t : Text) (p : Fields) (c : ℕ) (i : Text) (w : WhiteboardState)
    → IsValid w
    → is_processed (some (c ∷ i)) w ≡ false
    → find_seq (c ∷ i) w.events ≡ none
    → IsKnown (c ∷ i) (w.last_seq + 1) 0 (add_event u t p (some (c ∷ i)) w).0
unfolding store
add_event-new-IsKnown u t p c i w v n f =
    let e = stored u t p (some (c ∷ i)) w in
    record {
      valid = add_event-IsValid u t p (some (c ∷ i)) w v;
      found =
          ap (find_seq (c ∷ i)) (
            (add_event-events u t p (some (c ∷ i)) w n).0
            ∙ put_new w.events (w.last_seq + 1) e
                (get_above w.events w.last_seq (w.last_seq + 1) v.below (omega arith)))
          ∙ find_seq-snoc (c ∷ i) w.events (w.last_seq + 1) e f refl;
      recent =
          subst (IsRecent (c ∷ i) 0) (sym (add_event_ids u t p (some (c ∷ i)) w n))
            (remember-newest c i (store u t p (some (c ∷ i)) w));
    }

IsKnown-is_processed :
    (c : ℕ) (i : Text) (s k : ℕ) (w : WhiteboardState)
    → IsKnown (c ∷ i) s k w
    → is_processed (some (c ∷ i)) w ≡ true
unfolding is_processed
IsKnown-is_processed c i s k w known =
    known.valid.same_ids (c ∷ i) ∙ IsRecent-elem (c ∷ i) k w.event_id_history known.recent

-- In a valid whiteboard, a new event with an id that no event in memory carries gets the next number. Sent
-- again after fewer than 1000 other events, and before a snapshot, by whomever and with whatever
-- content, it changes nothing and gets the same number.
pub add_event-again :
    (u u' : ℕ) (t t' : Text) (p p' : Fields) (c : ℕ) (i : Text) (w : WhiteboardState)
    (es : List Sending)
    → IsValid w
    → is_processed (some (c ∷ i)) w ≡ false
    → find_seq (c ∷ i) w.events ≡ none
    → length es < 1000
    → ((add_event u t p (some (c ∷ i)) w).1 ≡ w.last_seq + 1)
      × (add_event u' t' p' (some (c ∷ i)) (add_all es (add_event u t p (some (c ∷ i)) w).0)
          ≡ (add_all es (add_event u t p (some (c ∷ i)) w).0, w.last_seq + 1))
add_event-again u u' t t' p p' c i w es v n f few =
    let w₁ = (add_event u t p (some (c ∷ i)) w).0 in
    let known =
      add_all-IsKnown es w₁ (c ∷ i) (w.last_seq + 1) 0 (omega (arith, few))
        (add_event-new-IsKnown u t p c i w v n f) in
    (
      ap (λ r. r.1) (add_event-new u t p (some (c ∷ i)) w n),
      add_event-old u' (w.last_seq + 1) t' p' (c ∷ i) (add_all es w₁)
          (IsKnown-is_processed c i (w.last_seq + 1) (0 + length es) (add_all es w₁) known)
          known.found,
    )
