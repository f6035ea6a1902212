-- ===== src/Whiteboard/Ids.antt =====
-- The bounded memory of client event ids, by which a repeated event is recognised.
use quickonnect.Prelude.{
  suc, ◌+◌, ◌≤◌, false, not, ◌&&◌, ◌||◌, Option, none, some, List, [], ◌∷◌, ◌++◌, ◌≡◌, refl, sym,
  arith, ◌==◌, nat_eq, Text, text_eq, text_beq_iff, elem, ◌∙◌, length, length-append, Bool-cases,
  inl, inr, ltb,
}
use quickonnect.Whiteboard.{WhiteboardState, trim, remember, is_processed, discard, history_limit}

-- No id stands twice in the history.
abbrev pub IsNodup : List Text → Type 0
IsNodup [] = Unit
IsNodup (i ∷ l) = (elem i l ≡ false) × IsNodup l

pub elem-snoc : (i j : Text) (l : List Text) → elem i (l ++ j ∷ []) ≡ elem i l || i == j
elem-snoc i j [] = ground arith
elem-snoc i j (k ∷ l) = ground (arith, elem-snoc i j l)

pub IsNodup-snoc : (j : Text) (l : List Text) → IsNodup l → elem j l ≡ false → IsNodup (l ++ j ∷ [])
IsNodup-snoc j [] h e = (refl, tt)
IsNodup-snoc j (k ∷ l) h e = (
  ground (arith, elem-snoc k j l, text_beq_iff k j, text_beq_iff j k),
  IsNodup-snoc j l h.1 (ground arith),
)

pub elem-discard : (i j : Text) (l : List Text) → elem i (discard j l) ≡ elem i l && not (i == j)
unfolding discard
elem-discard i j [] = ground arith
elem-discard i j (k ∷ l) =
    ground (arith, elem-discard i j l, text_beq_iff i j, text_beq_iff j k, text_beq_iff i k)

-- The memory of ids, apart from the rest of the state.
pub record IsMemory (processed history : List Text) : Type 0 where
  pub nodup : IsNodup history
  pub same_ids : (i : Text) → elem i processed ≡ elem i history
  pub bounded : length history ≤ history_limit

pub trim-IsMemory :
    (history : List Text) (w : WhiteboardState)
    → w.event_id_history ≡ history
    → IsNodup history
    → ((i : Text) → elem i w.processed_event_ids ≡ elem i history)
    → length history ≤ history_limit + 1
    → IsMemory (trim history w).processed_event_ids (trim history w).event_id_history
unfolding trim
trim-IsMemory [] w e n s b = record {
  nodup = rw e n;
  same_ids = λ i. ground (arith, s i);
  bounded = rw e (omega arith);
}
trim-IsMemory (j ∷ l) w e n s b = elim (Bool-cases (ltb history_limit (suc (length l)))) [
  | inl long ↦ rw long (record {
    nodup = n.1;
    same_ids =
        λ i. ground (arith, s i, elem-discard i j w.processed_event_ids, text_beq_iff i j, n.0);
    bounded = omega arith;
  })
  | inr short ↦
      rw short
        (record { nodup = rw e n; same_ids = λ i. rw e (s i); bounded = rw e (ground arith) })
]

pub remember-IsMemory :
    (o : Option Text) (w : WhiteboardState)
    → is_processed o w ≡ false
    → IsMemory w.processed_event_ids w.event_id_history
    → IsMemory (remember o w).processed_event_ids (remember o w).event_id_history
unfolding remember is_processed
remember-IsMemory none w p m = m
remember-IsMemory (some []) w p m = m
remember-IsMemory (some (c ∷ t)) w p m = rw p (
    trim-IsMemory (w.event_id_history ++ (c ∷ t) ∷ []) _ refl
      (IsNodup-snoc (c ∷ t) w.event_id_history m.nodup (sym (m.same_ids (c ∷ t)) ∙ p))
      (λ i. ground (arith, m.same_ids i, elem-snoc i (c ∷ t) w.event_id_history))
      (omega (arith, length-append {0} w.event_id_history ((c ∷ t) ∷ []), m.bounded)))

-- Remembering an id touches nothing else.
trim_keeps :
    (l : List Text) (w : WhiteboardState)
    → ((trim l w).events ≡ w.events)
      × ((trim l w).last_seq ≡ w.last_seq)
      × ((trim l w).last_snapshot_seq ≡ w.last_snapshot_seq)
unfolding trim
trim_keeps [] w = (refl, refl, refl)
trim_keeps (j ∷ l) w = ground arith

pub remember_keeps :
    (o : Option Text) (w : WhiteboardState)
    → ((remember o w).events ≡ w.events)
      × ((remember o w).last_seq ≡ w.last_seq)
      × ((remember o w).last_snapshot_seq ≡ w.last_snapshot_seq)
unfolding remember
remember_keeps none w = (refl, refl, refl)
remember_keeps (some []) w = (refl, refl, refl)
remember_keeps (some (c ∷ t)) w = trim_keeps (w.event_id_history ++ (c ∷ t) ∷ []) _
