-- ===== src/Encrypt/Content.antt =====
-- `encrypt_content` and `encryption_settings` of src/crypto/encrypt.rs. The calls of
-- matrix-sdk-crypto are a parameter, `Megolm`, and so are the requests that src/crypto/machine.rs
-- makes for it. A step may fail, and may have changed the machine where it does.
use ement_e2ee.Prelude.{ℕ, Option, none, some, List, [], ◌∷◌, Text, unwrap_or}
use ement_e2ee.Json.{Json}
use ement_e2ee.Sdk.{Sdk, RoomSettings}
use ement_e2ee.Rooms.Settings.{Rooms}
use ement_e2ee.Rooms.Encryption.{Answer, joined_members, history_visibility_or_fetch}

-- `EncryptionSettings` of matrix-sdk-crypto, as far as the program sets it.
pub record EncryptionSettings (Algorithm Visibility : Type 0) : Type 0 where
  pub algorithm : Algorithm
  pub history_visibility : Visibility
  pub rotation_period : ℕ
  pub rotation_period_msgs : ℕ

-- A result without a value.
pub data Done : Type 0 where
  done : Done

pub record Megolm (S : Sdk) (V : Type 0) : Type 1 where
  pub Claim : Type 0
  pub ToDevice : Type 0
  -- `RoomSettings::default` and `EncryptionSettings::default`
  pub default_settings : RoomSettings (Sdk.Algorithm S)
  pub default_period : ℕ
  pub default_period_msgs : ℕ
  pub update_tracked_users : List Text → Sdk.Olm S → Sdk.Olm S × Option Done
  pub get_missing_sessions : List Text → Sdk.Olm S → Sdk.Olm S × Option (Option Claim)
  pub share_room_key :
      Text
      → List Text
      → EncryptionSettings (Sdk.Algorithm S) (Sdk.Visibility S)
      → Sdk.Olm S
      → Sdk.Olm S × Option (List ToDevice)
  pub encrypt_room_event_raw : Text → Text → V → Sdk.Olm S → Sdk.Olm S × Option V
  -- `machine::pump`, `machine::send_keys_claim` and `machine::send_to_device`
  pub pump : Sdk.Olm S → Sdk.Olm S
  pub send_keys_claim : Claim → Sdk.Olm S → Sdk.Olm S × Option Done
  pub send_to_device : ToDevice → Sdk.Olm S → Sdk.Olm S × Option Done

module _ (J : Json) (S : Sdk) where
  open J use {Value}
  open S use {Olm, Algorithm, Visibility, room_settings}

  -- A step on the account: what it is afterwards, and the result, or `none` for an error.
  abbrev pub Step : Type 0 → Type 0
  Step A = Rooms J S → Rooms J S × Option A

  abbrev pub and_then : {A B : Type 0} → Step A → (A → Step B) → Step B
  and_then m f r =
      let (after, result) = m r in elim result [ none ↦ (after, none) | some a ↦ f a after ]

  abbrev pub on_olm : {A : Type 0} → (Olm → Olm × Option A) → Step A
  on_olm f r = let (olm, result) = f r.olm in (record r { olm = olm }, result)

  abbrev pub answered : {A : Type 0} → Answer A → Option A
  answered (Answer.ok a) = some a
  answered Answer.err = none

  module _ (enc : Text → Text) (respond : Text → Option (ℕ × Value)) (G : Megolm S Value) where
    open G use {
      Claim, ToDevice, default_settings, default_period, default_period_msgs, update_tracked_users,
      get_missing_sessions, share_room_key, encrypt_room_event_raw, pump, send_keys_claim,
      send_to_device,
    }

    unfoldable pub encryption_settings : Text → Step (EncryptionSettings Algorithm Visibility)
    encryption_settings room r = elim (room_settings r.olm room) [
      | none ↦ (r, none)
      | some stored ↦
          let settings = unwrap_or stored default_settings in
          let (after, visibility) = history_visibility_or_fetch J S enc respond room r in
          (
            after,
            some (record {
              algorithm = settings.algorithm;
              history_visibility = visibility;
              rotation_period = unwrap_or settings.session_rotation_period default_period;
              rotation_period_msgs =
                  unwrap_or settings.session_rotation_period_messages default_period_msgs;
            }),
          )
    ]

    unfoldable pub claim_missing : Option Claim → Step Done
    claim_missing none r = (r, some done)
    claim_missing (some request) r = on_olm (send_keys_claim request) r

    unfoldable pub send_shares : List ToDevice → Step Done
    send_shares [] r = (r, some done)
    send_shares (request ∷ requests) r =
        and_then (on_olm (send_to_device request)) (λ _. send_shares requests) r

    -- The members are a step of their own: `joined_members` at the time `now`.
    unfoldable pub members_of : (Text → Option Text) → ℕ → Text → Step (List Text)
    members_of parse_user now room r =
        let (after, answer) = joined_members J S enc respond parse_user now room r in
        (after, answered answer)

    unfoldable pub encrypt_content : (Text → Option Text) → ℕ → Text → Text → Value → Step Value
    unfolding members_of claim_missing encryption_settings send_shares
    encrypt_content parse_user now room event_type content =
        and_then (members_of parse_user now room) (λ members.
          and_then (on_olm (update_tracked_users members)) (λ _.
            and_then (on_olm (λ olm. (pump olm, some done))) (λ _.
              and_then (on_olm (get_missing_sessions members)) (λ missing.
                and_then (claim_missing missing) (λ _.
                  and_then (encryption_settings room) (λ settings.
                    and_then (on_olm (share_room_key room members settings)) (λ requests.
                      and_then (send_shares requests)
                        (λ _. on_olm (encrypt_room_event_raw room event_type content)))))))))
