-- ===== src/Sdk.antt =====
-- What the program uses of matrix-sdk-crypto and ruma for rooms. Neither is in the repository, so
-- both are a parameter: the OlmMachine as a state `Olm`, the calls that the program makes of it,
-- and what it relies on. An outer `none` is a store error.
use ement_e2ee.Prelude.{ℕ, ◌≡◌, ◌≢◌, Bool, Option, some, Text}

-- `matrix_sdk_crypto::store::types::RoomSettings`; the period is in milliseconds.
pub record RoomSettings (Algorithm : Type 0) : Type 0 where
  pub algorithm : Algorithm
  pub only_allow_trusted_devices : Bool
  pub session_rotation_period : Option ℕ
  pub session_rotation_period_messages : Option ℕ

pub record Sdk : Type 1 where
  pub Olm : Type 0
  pub Algorithm : Type 0
  pub Visibility : Type 0
  -- `EventEncryptionAlgorithm::from` and `HistoryVisibility::from`
  pub algorithm : Text → Algorithm
  pub visibility : Text → Visibility
  pub shared : Visibility
  pub room_settings : Olm → Text → Option (Option (RoomSettings Algorithm))
  -- `none` where the machine rejects the settings or its store fails, which changes nothing.
  pub set_room_settings : Olm → Text → RoomSettings Algorithm → Option Olm
  pub room_settings-set_room_settings :
      (o o' : Olm) (room : Text) (s : RoomSettings Algorithm)
      → set_room_settings o room s ≡ some o'
      → room_settings o' room ≡ some (some s)
  pub room_settings-set_room_settings_ne :
      (o o' : Olm) (room other : Text) (s : RoomSettings Algorithm)
      → set_room_settings o room s ≡ some o'
      → other ≢ room
      → room_settings o' other ≡ room_settings o other
