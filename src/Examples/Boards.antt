-- ===== src/Examples/Boards.antt =====
-- Concrete whiteboards.
use quickonnect.Prelude.{
  List, true, false, not, some, none, [], ◌∷◌, codes, nat_eq, text_beq, ◌==◌, ◌≡◌, ◌+◌, refl, arith,
  select, elem,
}
use quickonnect.Prelude.Dict.{get, keys, put}
use quickonnect.Prelude.Int.{pos, int_eq}
use quickonnect.Json
use quickonnect.Json.{Fields}
use quickonnect.Whiteboard
use quickonnect.Whiteboard.{
  Event, WhiteboardState, add_event, get_active_events, finish_snapshot, undo,
}
use quickonnect.Whiteboard.Valid.{IsValid, add_event-IsValid, finish_snapshot-IsValid}
use quickonnect.Whiteboard.Undone.{some_undoes}
use quickonnect.Whiteboard.Undo.{active-undo, active-undo_snapshotted, undone_seqs_lem}
use quickonnect.Whiteboard.Redo.{active-undo_again}
use quickonnect.Whiteboard.Retry.{Sending, add_all, add_event-again}

-- One stroke of user 1's.
abbrev stroke : Event
stroke = record {
  seq_num = 1;
  user_id = 1;
  event_type = codes "pen";
  payload = Json.end;
  client_event_id = some (codes "a");
  from_db = false;
}

abbrev drawn : WhiteboardState
drawn = record {
  last_seq = 1;
  last_snapshot_seq = 0;
  snapshot_png_bytes = none;
  events = (1, stroke) ∷ [];
  undone_seqs = [];
  processed_event_ids = codes "a" ∷ [];
  event_id_history = codes "a" ∷ [];
  running = true;
}

drawn-IsValid : IsValid drawn
unfolding Whiteboard.mark_all Whiteboard.mark Whiteboard.is_undo get text_beq
drawn-IsValid = record {
  ascending = tt;
  above = (omega arith, tt);
  below = (omega arith, tt);
  numbered = (refl, tt);
  based = omega arith;
  resolved = refl;
  nodup = (refl, tt);
  same_ids = λ i. refl;
  bounded = omega arith;
}

-- The stroke is in the snapshot already.
abbrev kept : WhiteboardState
kept = record drawn { last_snapshot_seq = 1; snapshot_png_bytes = some (137 ∷ []); events = [] }

kept-IsValid : IsValid kept
unfolding Whiteboard.mark_all
kept-IsValid = record {
  ascending = tt;
  above = tt;
  below = tt;
  numbered = tt;
  based = omega arith;
  resolved = refl;
  nodup = (refl, tt);
  same_ids = λ i. refl;
  bounded = omega arith;
}

abbrev undo_stroke : Fields
undo_stroke = Json.fields (("target_seq", Json.num 1) ∷ [])

abbrev undo_undo : Fields
undo_undo = Json.fields (("target_seq", Json.num 2) ∷ [])

add_event-IsValid_example : IsValid (add_event 2 undo undo_stroke (some (codes "b")) drawn).0
add_event-IsValid_example =
    add_event-IsValid 2 undo undo_stroke (some (codes "b")) drawn drawn-IsValid

finish_snapshot_example : IsValid (finish_snapshot 1 (137 ∷ []) drawn)
finish_snapshot_example = finish_snapshot-IsValid 1 (137 ∷ []) drawn (omega arith) drawn-IsValid

active_undo_example :
    get_active_events none (add_event 2 undo undo_stroke (some (codes "b")) drawn).0
    ≡ select (λ f. not (f.seq_num == 1)) (get_active_events none drawn)
unfolding Whiteboard.is_processed get Whiteboard.is_undo Json.find text_beq
active_undo_example =
    active-undo 2 1 stroke undo_stroke (some (codes "b")) drawn drawn-IsValid refl refl refl refl

active_snapshotted_example :
    get_active_events none (add_event 2 undo undo_stroke (some (codes "b")) kept).0
    ≡ get_active_events none kept
unfolding Whiteboard.is_processed Json.find text_beq
active_snapshotted_example =
    active-undo_snapshotted 2 1 undo_stroke (some (codes "b")) kept kept-IsValid refl (omega arith)
      refl

redo_example :
    get_active_events none
      (add_event 2 undo undo_undo
        (some (codes "c"))
        (add_event 2 undo undo_stroke (some (codes "b")) drawn).0).0
    ≡ get_active_events none drawn
unfolding Whiteboard.is_processed Json.find add_event text_beq
redo_example =
    active-undo_again 2 2 undo_stroke undo_undo (some (codes "b")) (some (codes "c")) drawn
      drawn-IsValid refl refl refl

-- The stroke, and its undo.
abbrev erased : WhiteboardState
erased = (add_event 2 undo undo_stroke (some (codes "b")) drawn).0

undone_example :
    elem (pos 1) erased.undone_seqs
    ≡ some_undoes erased.events erased.undone_seqs (pos 1) (keys erased.events)
unfolding add_event Whiteboard.is_processed Whiteboard.target Whiteboard.is_undo Json.find text_beq
    put Json.as_int
undone_example =
    undone_seqs_lem erased (pos 1)
      (add_event-IsValid 2 undo undo_stroke (some (codes "b")) drawn drawn-IsValid) (tt, (refl, tt))

-- Two users draw on before the event comes again.
abbrev meanwhile : List Sending
meanwhile = (2, codes "pen", Json.end, some (codes "d")) ∷ (3, codes "pen", Json.end, none) ∷ []

retry_example :
    ((add_event 1 (codes "pen") Json.end (some (codes "b")) drawn).1 ≡ drawn.last_seq + 1)
    × (add_event 1
          (codes "pen")
          Json.end
          (some (codes "b"))
          (add_all meanwhile (add_event 1 (codes "pen") Json.end (some (codes "b")) drawn).0)
        ≡ (
          add_all meanwhile (add_event 1 (codes "pen") Json.end (some (codes "b")) drawn).0,
          drawn.last_seq + 1,
        ))
unfolding Whiteboard.is_processed Whiteboard.find_seq text_beq
retry_example =
    add_event-again 1 1 (codes "pen") (codes "pen") Json.end Json.end b'b' [] drawn meanwhile
      drawn-IsValid refl refl (omega arith)
