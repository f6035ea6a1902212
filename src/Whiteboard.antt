-- ===== src/Whiteboard.antt =====
-- server/features/whiteboard.py: the drawing events of a room, their undo, and the snapshots.
pub mod Undone
pub mod Events
pub mod Ids
pub mod Valid
pub mod Redo
pub mod Undo
pub mod Recent
pub mod Retry
use quickonnect.Prelude.{
  ℕ, suc, ◌+◌, Bool, true, false, not, ◌&&◌, ◌||◌, Option, none, some, List, [], ◌∷◌, ◌++◌, reverse,
  Text, text_eq, nat_eq, string_eq, ◌==◌, if◌then◌else◌, leb, ltb, length, sorted, select, elem,
  codes,
}
use quickonnect.Prelude.Dict.{Dict, get, has, put, erase, keys}
use quickonnect.Prelude.Int.{ℤ, pos, int_eq}
use quickonnect.Json
use quickonnect.Json.{Fields, Json}

-- An event's dict; one that was loaded from the database has no key `client_event_id`.
pub record Event : Type 0 where
  pub seq_num : ℕ
  pub user_id : ℕ
  pub event_type : Text
  pub payload : Fields
  pub client_event_id : Option Text
  pub from_db : Bool

-- A set of Python is a list here, and only ever asked for membership.
pub record WhiteboardState : Type 0 where
  pub last_seq : ℕ
  pub last_snapshot_seq : ℕ
  pub snapshot_png_bytes : Option (List ℕ)
  pub events : Dict ℕ Event
  pub undone_seqs : List ℤ
  pub processed_event_ids : List Text
  pub event_id_history : List Text
  pub running : Bool

abbrev pub undo : Text
undo = codes "undo"

abbrev pub history_limit : ℕ
history_limit = 1000

unfoldable pub is_undo : Event → Bool
is_undo e = e.event_type == undo

-- `event["payload"].get("target_seq")`, where it is an integer.
unfoldable pub target : Event → Option ℤ
target e = elim (Json.find "target_seq" e.payload) [ none ↦ none | some v ↦ Json.as_int v ]

abbrev add_target : Option ℤ → List ℤ → List ℤ
add_target none undone = undone
add_target (some t) undone = t ∷ undone

-- What the loop body does with one event, given what later events have undone.
unfoldable pub mark : ℕ → Option Event → List ℤ → List ℤ
unfolding is_undo target
mark seq none undone = undone
mark seq (some e) undone =
    if is_undo e && not (elem (pos seq) undone) then add_target (target e) undone else undone

-- The loop over the sequence numbers, the latest first.
unfoldable pub mark_all : Dict ℕ Event → List ℕ → List ℤ → List ℤ
unfolding mark
mark_all events [] undone = undone
mark_all events (seq ∷ seqs) undone = mark_all events seqs (mark seq (get seq events) undone)

-- `_recalculate_undone_seqs`
unfoldable pub recalculate_undone_seqs : WhiteboardState → WhiteboardState
unfolding mark_all
recalculate_undone_seqs w = record w {
  undone_seqs = mark_all w.events (reverse (sorted (keys w.events))) [];
}

-- The loop that keeps the drawing events that are not undone.
unfoldable pub collect : Dict ℕ Event → List ℤ → List ℕ → List Event
unfolding is_undo
collect events undone [] = []
collect events undone (seq ∷ seqs) =
    let rest = collect events undone seqs in
    elim (get seq events) [
      | none ↦ rest
      | some e ↦ if is_undo e || elem (pos seq) undone then rest else e ∷ rest
    ]

abbrev pub up_to : Option ℕ → List ℕ → List ℕ
up_to none seqs = seqs
up_to (some n) seqs = select (λ s. leb s n) seqs

unfoldable pub get_active_events : Option ℕ → WhiteboardState → List Event
unfolding mark_all collect
get_active_events up_to_seq w =
    let seqs = up_to up_to_seq (sorted (keys w.events)) in
    collect w.events (mark_all w.events (reverse seqs) []) seqs

-- `client_event_id and client_event_id in self._processed_event_ids`
unfoldable pub is_processed : Option Text → WhiteboardState → Bool
is_processed none w = false
is_processed (some []) w = false
is_processed (some (c ∷ t)) w = elem (c ∷ t) w.processed_event_ids

-- The search of the events for an id.
unfoldable pub find_seq : Text → Dict ℕ Event → Option ℕ
find_seq i [] = none
find_seq i ((seq, e) ∷ d) = elim e.client_event_id [
  | none ↦ find_seq i d
  | some j ↦ if j == i then some seq else find_seq i d
]

unfoldable pub discard : Text → List Text → List Text
discard i [] = []
discard i (j ∷ l) = let rest = discard i l in if i == j then rest else j ∷ rest

-- `pop(0)` and `discard` where the history is longer than the limit.
unfoldable pub trim : List Text → WhiteboardState → WhiteboardState
unfolding discard
trim [] w = w
trim (oldest ∷ history) w =
    if ltb history_limit (length (oldest ∷ history))
    then record w {
      processed_event_ids = discard oldest w.processed_event_ids;
      event_id_history = history;
    }
    else w

-- `processed_event_ids.add`, `event_id_history.append` and the limit.
unfoldable pub remember : Option Text → WhiteboardState → WhiteboardState
unfolding trim
remember none w = w
remember (some []) w = w
remember (some (c ∷ t)) w =
    let history = w.event_id_history ++ (c ∷ t) ∷ [] in
    trim history (record w {
      processed_event_ids =
          if elem (c ∷ t) w.processed_event_ids
          then w.processed_event_ids
          else (c ∷ t) ∷ w.processed_event_ids;
      event_id_history = history;
    })

unfoldable pub store : ℕ → Text → Fields → Option Text → WhiteboardState → WhiteboardState
store user_id event_type payload client_event_id w =
    let seq = w.last_seq + 1 in
    record w {
      last_seq = seq;
      events =
          put seq
            (record {
              seq_num = seq;
              user_id = user_id;
              event_type = event_type;
              payload = payload;
              client_event_id = client_event_id;
              from_db = false;
            })
            w.events;
    }

abbrev found_or_last : Option ℕ → ℕ → ℕ
found_or_last none last = last
found_or_last (some seq) last = seq

abbrev id_or_empty : Option Text → Text
id_or_empty none = []
id_or_empty (some i) = i

-- `add_event`: the new state, and the sequence number that is returned. The write to the database
-- leaves the state alone, whether it succeeds or not.
unfoldable pub add_event : ℕ → Text → Fields → Option Text → WhiteboardState → WhiteboardState × ℕ
unfolding is_processed find_seq store remember recalculate_undone_seqs
add_event user_id event_type payload client_event_id w =
    if is_processed client_event_id w
    then (w, found_or_last (find_seq (id_or_empty client_event_id) w.events) w.last_seq)
    else (
      recalculate_undone_seqs
          (remember client_event_id (store user_id event_type payload client_event_id w)),
      w.last_seq + 1,
    )

unfoldable pub stop : WhiteboardState → WhiteboardState
stop w = record w { running = false }

-- What the periodic snapshot does once the image up to `current_last_seq` is stored.
unfoldable pub prune : ℕ → Dict ℕ Event → Dict ℕ Event
prune n [] = []
prune n ((seq, e) ∷ d) = let rest = prune n d in if leb seq n then rest else (seq, e) ∷ rest

unfoldable pub has_new_events : WhiteboardState → Bool
has_new_events w = ltb w.last_snapshot_seq w.last_seq

unfoldable pub finish_snapshot : ℕ → List ℕ → WhiteboardState → WhiteboardState
unfolding prune recalculate_undone_seqs
finish_snapshot current_last_seq png_bytes w = recalculate_undone_seqs (record w {
  events = prune current_last_seq w.events;
  last_snapshot_seq = current_last_seq;
  snapshot_png_bytes = some png_bytes;
})

-- A row of `whiteboard_events`, its payload already a dict, as psycopg gives a JSONB column.
pub record Row : Type 0 where
  pub seq_num : ℕ
  pub user_id : ℕ
  pub event_type : Text
  pub payload : Fields

unfoldable pub load_row : Row → WhiteboardState → WhiteboardState
load_row r w = record w {
  events =
      put r.seq_num
        (record {
          seq_num = r.seq_num;
          user_id = r.user_id;
          event_type = r.event_type;
          payload = r.payload;
          client_event_id = none;
          from_db = true;
        })
        w.events;
  last_seq = if ltb w.last_seq r.seq_num then r.seq_num else w.last_seq;
}

unfoldable pub load_rows : List Row → WhiteboardState → WhiteboardState
unfolding load_row
load_rows [] w = w
load_rows (r ∷ rs) w = load_rows rs (load_row r w)

abbrev load_snapshot : Option (ℕ × List ℕ) → WhiteboardState → WhiteboardState
load_snapshot none w = w
load_snapshot (some (n, png)) w = record w {
  last_snapshot_seq = n;
  snapshot_png_bytes = some png;
  last_seq = n;
}

-- `load_from_db`, given what the two queries return; `none` is an exception. The rows are those that
-- the query selects, in ascending order.
unfoldable pub load_from_db :
    Option (Option (ℕ × List ℕ)) → (ℕ → Option (List Row)) → WhiteboardState → WhiteboardState
unfolding load_rows recalculate_undone_seqs
load_from_db snapshot select_rows w =
    let cleared = record w {
      events = [];
      undone_seqs = [];
      last_seq = 0;
      last_snapshot_seq = 0;
      snapshot_png_bytes = none;
    } in
    elim snapshot [
      | none ↦ cleared
      | some row ↦
          let based = load_snapshot row cleared in
          elim (select_rows based.last_seq) [
            | none ↦ based
            | some rows ↦ recalculate_undone_seqs (load_rows rows based)
          ]
    ]

-- The fields before `load_from_db` runs in the constructor.
abbrev pub blank : Bool → WhiteboardState
blank start_thread = record {
  last_seq = 0;
  last_snapshot_seq = 0;
  snapshot_png_bytes = none;
  events = [];
  undone_seqs = [];
  processed_event_ids = [];
  event_id_history = [];
  running = start_thread;
}
