-- ===== src/Examples/Parts.antt =====
-- The repair queue, the verification flows, the log buffer and the routes on concrete inputs.
use ement_e2ee.Prelude.{
  ℕ, ◌≡◌, ◌≤◌, refl, true, false, not, Option, none, some, [], ◌∷◌, Text, codes, Text-discrete,
  arith, length, retain, if◌then◌else◌,
}
use ement_e2ee.Prelude.Map
use ement_e2ee.Repair.Queue.{
  PendingRepair, RepairQueue, is_ready, has_ready, take_ready, track_id, note_room_keys,
  max_pending,
}
use ement_e2ee.Repair.Laws.{Agree, track_id_bounded}
use ement_e2ee.Repair.Taking.{holds, ready_in_order, take_ready_exact, note_room_keys_wakes}
use ement_e2ee.Logbuf.{LogLine, capacity}
use ement_e2ee.Logbuf.Laws.{push_all, newest, push_all_lem}
use ement_e2ee.Proxy.Routes.{Method, classify_segments}
use ement_e2ee.Proxy.RouteShape.{Shape, classify_segments_sound}
use ement_e2ee.Proxy.RoutePaths.{send_segments}

abbrev repair : Text → Text → PendingRepair ℕ
repair event session = record {
  room_id = codes "!r";
  event_id = event;
  session_id = some session;
  event = 7;
}

-- Two placeholders, of which the second waits for the session whose key has arrived.
abbrev two_pending : RepairQueue ℕ
two_pending = record {
  pending =
      (codes "$1", repair (codes "$1") (codes "s"))
      ∷ (codes "$2", repair (codes "$2") (codes "t"))
      ∷ [];
  order = codes "$1" ∷ codes "$2" ∷ [];
  ready_sessions = codes "t" ∷ [];
  retry_all = false;
  wakes = 0;
}

two_pending-Agree : Agree two_pending.pending two_pending.order
unfolding Map.get Text-discrete
two_pending-Agree = record {
  same = λ k. ground arith;
  once = (refl, (refl, tt));
  keyed = (refl, refl, (refl, refl, tt));
}

take_ready_exact_example :
    ((take_ready two_pending).1 ≡ ready_in_order two_pending two_pending.order)
    × ((k : Text)
        → Map.get Text-discrete k (take_ready two_pending).0.pending ≡ (
            if holds (is_ready two_pending) (Map.get Text-discrete k two_pending.pending)
            then none
            else Map.get Text-discrete k two_pending.pending))
    × ((take_ready two_pending).0.order
        ≡ retain
            (λ x. not (holds (is_ready two_pending) (Map.get Text-discrete x two_pending.pending)))
            two_pending.order)
    × ((take_ready two_pending).0.ready_sessions ≡ [])
    × ((take_ready two_pending).0.retry_all ≡ false)
    × (has_ready (take_ready two_pending).0 ≡ false)
take_ready_exact_example = take_ready_exact two_pending two_pending-Agree

track_id_bounded_example :
    length (track_id (codes "$3") (codes "!r") 9 (some (codes "s")) two_pending).order ≤ max_pending
track_id_bounded_example =
    track_id_bounded (codes "$3") (codes "!r") 9 (some (codes "s")) two_pending (omega arith)

note_room_keys_wakes_example :
    (has_ready (note_room_keys (codes "s" ∷ []) two_pending) ≡ true)
    × ((note_room_keys (codes "s" ∷ []) two_pending).wakes ≡ 1)
    × (is_ready (note_room_keys (codes "s" ∷ []) two_pending) (repair (codes "$1") (codes "s"))
        ≡ true)
unfolding Map.get Text-discrete
note_room_keys_wakes_example =
    note_room_keys_wakes (codes "s" ∷ []) two_pending (codes "$1") (codes "s")
      (repair (codes "$1") (codes "s")) refl refl refl

abbrev line : Text → LogLine
line level = record { time = 5; level = level; target = codes "t"; message = codes "m" }

abbrev parse_level : Text → Option ℕ
parse_level t = some (length t)

push_all_lem_example :
    push_all [] (line (codes "WARN") ∷ line (codes "INFO") ∷ [])
    ≡ newest capacity (line (codes "WARN") ∷ line (codes "INFO") ∷ [])
push_all_lem_example = push_all_lem (line (codes "WARN") ∷ line (codes "INFO") ∷ [])

abbrev same_text : Text → Text
same_text t = t

classify_segments_sound_example :
    Shape same_text Method.put
      (codes "_matrix" ∷ send_segments (codes "v3") (codes "r") (codes "e") (codes "t"))
      (classify_segments same_text Method.put
        (codes "_matrix" ∷ send_segments (codes "v3") (codes "r") (codes "e") (codes "t")))
classify_segments_sound_example =
    classify_segments_sound same_text Method.put
      (codes "_matrix" ∷ send_segments (codes "v3") (codes "r") (codes "e") (codes "t"))
