-- ===== src/Whiteboard/Valid.antt =====
-- The invariant of a whiteboard: sequence numbers ascend within bounds, the undone numbers are up to
-- date, and the memory of client ids is bounded and exact.
use mathlib.Core.Path.{subst}
use quickonnect.Prelude.{
  ℕ, ◌+◌, ◌≤◌, ◌<◌, false, Option, none, some, List, [], ◌∷◌, ◌++◌, reverse, ◌≡◌, refl, sym, arith,
  nat_eq, Text, text_eq, elem, All, ◌∙◌, ap, sorted_id, IsAscending, length, Bool-cases, inl, inr,
  leb,
}
use quickonnect.Prelude.Dict.{Dict, keys}
use quickonnect.Json.{Fields}
use quickonnect.Whiteboard.{
  Event, WhiteboardState, mark_all, recalculate_undone_seqs, add_event, store, remember,
  finish_snapshot, prune, history_limit, is_processed,
}
use quickonnect.Whiteboard.Events.{
  get_above, put_new, keys-put_new, All-snoc, All-map, IsAscending-snoc,
}
use quickonnect.Whiteboard.Ids.{IsNodup, IsMemory, remember-IsMemory, remember_keeps}

-- Every event is stored under its own number.
abbrev pub IsNumbered : Dict ℕ Event → Type 0
IsNumbered [] = Unit
IsNumbered ((s, e) ∷ d) = (e.seq_num ≡ s) × IsNumbered d

pub record IsValid (w : WhiteboardState) : Type 0 where
  pub ascending : IsAscending (keys w.events)
  pub above : All (λ s. w.last_snapshot_seq < s) (keys w.events)
  pub below : All (λ s. s ≤ w.last_seq) (keys w.events)
  pub numbered : IsNumbered w.events
  pub based : w.last_snapshot_seq ≤ w.last_seq
  pub resolved : w.undone_seqs ≡ mark_all w.events (reverse (keys w.events)) []
  pub nodup : IsNodup w.event_id_history
  pub same_ids : (i : Text) → elem i w.processed_event_ids ≡ elem i w.event_id_history
  pub bounded : length w.event_id_history ≤ history_limit

IsNumbered-snoc :
    (d : Dict ℕ Event) (s : ℕ) (e : Event)
    → IsNumbered d
    → e.seq_num ≡ s
    → IsNumbered (d ++ (s, e) ∷ [])
IsNumbered-snoc [] s e h q = (q, tt)
IsNumbered-snoc ((k, f) ∷ d) s e h q = (h.0, IsNumbered-snoc d s e h.1 q)

prune-IsNumbered : (n : ℕ) (d : Dict ℕ Event) → IsNumbered d → IsNumbered (prune n d)
unfolding prune
prune-IsNumbered n [] h = tt
prune-IsNumbered n ((s, e) ∷ d) h = elim (Bool-cases (leb s n)) [
  | inl old ↦ rw old (prune-IsNumbered n d h.1)
  | inr new ↦ rw new (h.0, prune-IsNumbered n d h.1)
]

IsValid-IsMemory :
    {w : WhiteboardState} → IsValid w → IsMemory w.processed_event_ids w.event_id_history
IsValid-IsMemory v = record { nodup = v.nodup; same_ids = v.same_ids; bounded = v.bounded }

is_processed-store :
    (u : ℕ) (t : Text) (p : Fields) (o o' : Option Text) (w : WhiteboardState)
    → is_processed o (store u t p o' w) ≡ is_processed o w
unfolding is_processed store
is_processed-store u t p none o' w = refl
is_processed-store u t p (some []) o' w = refl
is_processed-store u t p (some (c ∷ i)) o' w = refl

-- The invariant of the parts that `remember` leaves alone, and its result.
store-IsValid :
    (u : ℕ) (t : Text) (p : Fields) (o o' : Option Text) (w : WhiteboardState)
    → IsValid w
    → is_processed o w ≡ false
    → IsValid (recalculate_undone_seqs (remember o (store u t p o' w)))
unfolding store recalculate_undone_seqs
store-IsValid u t p o o' w v n =
    let w' = store u t p o' w in
    let kept = remember_keeps o w' in
    let m = remember-IsMemory o w' (is_processed-store u t p o o' w ∙ n) (IsValid-IsMemory v) in
    let ks : keys (remember o w').events ≡ keys w.events ++ (w.last_seq + 1) ∷ [] =
      ap keys kept.0 ∙ keys-put_new w.events w.last_seq (w.last_seq + 1) _ v.below (omega arith) in
    let asc : IsAscending (keys (remember o w').events) = rw ks (
      IsAscending-snoc (keys w.events) w.last_seq (w.last_seq + 1) v.ascending v.below
        (omega arith)) in
    let new = get_above w.events w.last_seq (w.last_seq + 1) v.below (omega arith) in
    let nums : IsNumbered w'.events =
      rw (put_new w.events (w.last_seq + 1) _ new)
        (IsNumbered-snoc w.events (w.last_seq + 1) _ v.numbered refl) in
    let abv : All (λ s. w.last_snapshot_seq < s) (keys (remember o w').events) =
      rw ks (All-snoc _ (keys w.events) (w.last_seq + 1) v.above (omega (arith, v.based))) in
    let bel : All (λ s. s ≤ w.last_seq + 1) (keys (remember o w').events) = rw ks (
      All-snoc _ (keys w.events) (w.last_seq + 1)
        (All-map _ _ (keys w.events) (λ x h. omega arith) v.below) (omega arith)) in
    record {
      ascending = asc;
      above = subst (λ x. All (λ s. x < s) (keys (remember o w').events)) (sym kept.2) abv;
      below = subst (λ x. All (λ s. s ≤ x) (keys (remember o w').events)) (sym kept.1) bel;
      numbered = subst IsNumbered (sym kept.0) nums;
      based = omega (arith, kept.1, kept.2, v.based);
      resolved = rw (sorted_id _ asc);
      nodup = m.nodup;
      same_ids = m.same_ids;
      bounded = m.bounded;
    }

-- A new event, and a repeated one, leave a valid whiteboard valid.
pub add_event-IsValid :
    (u : ℕ) (t : Text) (p : Fields) (o : Option Text) (w : WhiteboardState)
    → IsValid w
    → IsValid (add_event u t p o w).0
unfolding add_event
add_event-IsValid u t p o w v = elim (Bool-cases (is_processed o w)) [
  | inl old ↦ rw old v
  | inr new ↦ rw new (store-IsValid u t p o o w v new)
]

All-prune {ℓ} :
    (P : ℕ → Type ℓ) (n : ℕ) (d : Dict ℕ Event) → All P (keys d) → All P (keys (prune n d))
unfolding prune
All-prune P n [] h = tt
All-prune P n ((s, e) ∷ d) h = elim (Bool-cases (leb s n)) [
  | inl old ↦ rw old (All-prune P n d h.1)
  | inr new ↦ rw new (h.0, All-prune P n d h.1)
]

prune_above : (n : ℕ) (d : Dict ℕ Event) → All (λ s. n < s) (keys (prune n d))
unfolding prune
prune_above n [] = tt
prune_above n ((s, e) ∷ d) = elim (Bool-cases (leb s n)) [
  | inl old ↦ rw old (prune_above n d)
  | inr new ↦ rw new (ground arith, prune_above n d)
]

IsAscending-cons : (x : ℕ) (l : List ℕ) → All (λ y. x < y) l → IsAscending l → IsAscending (x ∷ l)
IsAscending-cons x [] h a = tt
IsAscending-cons x (y ∷ l) h a = (h.0, a)

pub IsAscending-All : (x : ℕ) (l : List ℕ) → IsAscending (x ∷ l) → All (λ y. x < y) l
IsAscending-All x [] a = tt
IsAscending-All x (y ∷ l) a = (a.0, All-map _ _ l (λ z h. omega arith) (IsAscending-All y l a.1))

pub IsAscending-tail : (x : ℕ) (l : List ℕ) → IsAscending (x ∷ l) → IsAscending l
IsAscending-tail x [] a = tt
IsAscending-tail x (y ∷ l) a = a.1

prune-IsAscending :
    (n : ℕ) (d : Dict ℕ Event) → IsAscending (keys d) → IsAscending (keys (prune n d))
unfolding prune
prune-IsAscending n [] a = tt
prune-IsAscending n ((s, e) ∷ d) a = elim (Bool-cases (leb s n)) [
  | inl old ↦ rw old (prune-IsAscending n d (IsAscending-tail s (keys d) a))
  | inr new ↦ rw new (
      IsAscending-cons s _ (All-prune _ n d (IsAscending-All s (keys d) a))
        (prune-IsAscending n d (IsAscending-tail s (keys d) a)))
]

-- A snapshot of what was drawn up to a number that had been given out leaves a valid whiteboard
-- valid.
pub finish_snapshot-IsValid :
    (n : ℕ) (png : List ℕ) (w : WhiteboardState)
    → n ≤ w.last_seq
    → IsValid w
    → IsValid (finish_snapshot n png w)
unfolding finish_snapshot recalculate_undone_seqs
finish_snapshot-IsValid n png w h v =
    let asc = prune-IsAscending n w.events v.ascending in
    record {
      ascending = asc;
      above = prune_above n w.events;
      below = All-prune _ n w.events v.below;
      numbered = prune-IsNumbered n w.events v.numbered;
      based = h;
      resolved = rw (sorted_id _ asc);
      nodup = v.nodup;
      same_ids = v.same_ids;
      bounded = v.bounded;
    }
