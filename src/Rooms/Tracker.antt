-- ===== src/Rooms/Tracker.antt =====
-- `RoomTracker` of src/crypto/rooms.rs, the room metadata that the proxy reads off its traffic.
-- Each lock's contents are a field; times are milliseconds. `Vis` is ruma's `HistoryVisibility`,
-- and `V` a JSON value.
use ement_e2ee.Prelude.{
  ℕ, ◌-◌, Bool, Option, none, some, List, [], ◌∷◌, Text, Text-discrete, ltb, if◌then◌else◌, elem,
  remove,
}
use ement_e2ee.Prelude.Map
use ement_e2ee.Prelude.Map.{Map}

-- `MEMBER_CACHE_TTL`, ten minutes.
abbrev pub member_cache_ttl : ℕ
member_cache_ttl = 600000

pub record MemberCache : Type 0 where
  pub at : ℕ
  pub members : List Text

pub record RoomTracker (Vis V : Type 0) : Type 0 where
  pub history_visibility : Map Text Vis
  pub members : Map Text MemberCache
  pub unencrypted : List Text
  pub requested_sessions : List Text
  pub joined : Map Text (Option V)

abbrev pub fresh_members : ℕ → Option MemberCache → Option (List Text)
fresh_members now none = none
fresh_members now (some cache) =
    if ltb (now - cache.at) member_cache_ttl then some cache.members else none

-- `entry(room).or_default()`, then the counts if the sync gave some.
abbrev pub noted {ℓ} : {V : Type ℓ} → Option (Option V) → Option V → Option V
noted last (some unread) = some unread
noted none none = none
noted (some last) none = last

module _ {Vis V : Type 0} where
  abbrev pub default : RoomTracker Vis V
  default = record {
    history_visibility = [];
    members = [];
    unencrypted = [];
    requested_sessions = [];
    joined = [];
  }

  unfoldable pub cached_members : ℕ → Text → RoomTracker Vis V → Option (List Text)
  cached_members now room t = fresh_members now (Map.get Text-discrete room t.members)

  unfoldable pub cache_members : ℕ → Text → List Text → RoomTracker Vis V → RoomTracker Vis V
  cache_members now room members t = record t {
    members = Map.insert Text-discrete room (record { at = now; members = members }) t.members;
  }

  unfoldable pub invalidate_members : Text → RoomTracker Vis V → RoomTracker Vis V
  invalidate_members room t = record t { members = Map.remove Text-discrete room t.members }

  unfoldable pub is_known_unencrypted : Text → RoomTracker Vis V → Bool
  is_known_unencrypted room t = elem Text-discrete room t.unencrypted

  unfoldable pub mark_unencrypted : Text → RoomTracker Vis V → RoomTracker Vis V
  mark_unencrypted room t =
      if elem Text-discrete room t.unencrypted
      then t
      else record t { unencrypted = room ∷ t.unencrypted }

  unfoldable pub mark_encrypted : Text → RoomTracker Vis V → RoomTracker Vis V
  mark_encrypted room t = record t { unencrypted = remove Text-discrete room t.unencrypted }

  unfoldable pub set_history_visibility : Text → Vis → RoomTracker Vis V → RoomTracker Vis V
  set_history_visibility room v t = record t {
    history_visibility = Map.insert Text-discrete room v t.history_visibility;
  }

  unfoldable pub note_joined : Text → Option V → RoomTracker Vis V → RoomTracker Vis V
  note_joined room unread t = record t {
    joined =
        Map.insert Text-discrete room (noted (Map.get Text-discrete room t.joined) unread) t.joined;
  }

  unfoldable pub note_left : Text → RoomTracker Vis V → RoomTracker Vis V
  note_left room t = record t { joined = Map.remove Text-discrete room t.joined }

  unfoldable pub last_unread_notifications : Text → RoomTracker Vis V → Option (Option V)
  last_unread_notifications room t = Map.get Text-discrete room t.joined
