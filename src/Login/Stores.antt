-- ===== src/Login/Stores.antt =====
-- `names_user` and `device_id_for_login` of src/crypto/device.rs. The file system is a parameter:
-- what `subdirs` finds in the store directory, in the order of `read_dir`, and in it what the
-- program reads.
use ement_e2ee.Prelude.{
  ℕ, ◌+◌, Bool, true, false, not, ◌&&◌, Option, none, some, List, [], ◌∷◌, Text, eqb, leb, ltb,
  if◌then◌else◌, unwrap_or,
}
use ement_e2ee.Prelude.Str.{strip_prefix, split_once, lacks}
use ement_e2ee.Session.Paths.{sanitize_for_path}

pub record LoginRecord : Type 0 where
  pub device_id : Text
  pub requested_device_id : Text

-- A directory in a user's directory. `login` is what `read_login_record` reads, and `used` the
-- time at which the store was written last, or the epoch.
pub record DeviceDir : Type 0 where
  pub has_store : Bool
  pub login : Option LoginRecord
  pub used : ℕ

-- A directory in the store directory. `name` is its name, where that is UTF-8, and `store_at` says
-- whether there is a store in the directory of a name under it.
pub record UserDir : Type 0 where
  pub name : Option Text
  pub store_at : Text → Bool
  pub devices : List DeviceDir

-- `to_ascii_lowercase`
abbrev pub lower_char : ℕ → ℕ
lower_char c = if leb b'A' c && leb c b'Z' then c + 32 else c

unfoldable pub to_ascii_lowercase : Text → Text
to_ascii_lowercase [] = []
to_ascii_lowercase (c ∷ s) = lower_char c ∷ to_ascii_lowercase s

-- `login.strip_prefix('@').unwrap_or(login)`, sanitized and in lower case.
unfoldable pub login_name : Text → Text
unfolding to_ascii_lowercase
login_name login =
    to_ascii_lowercase (sanitize_for_path (unwrap_or (strip_prefix (b'@' ∷ []) login) login))

abbrev pub local_part_is : Text → Option (Text × Text) → Bool
local_part_is login none = false
local_part_is login (some (local_part, _)) = eqb local_part login

-- With a colon the login is a whole user ID, else its local part.
unfoldable pub name_matches : Text → Text → Bool
name_matches name login =
    if not (lacks b':' login) then eqb name login else local_part_is login (split_once b':' name)

unfoldable pub names_user : UserDir → Text → Bool
unfolding login_name name_matches
names_user dir login = elim dir.name [
  | none ↦ false
  | some full ↦ elim (strip_prefix (b'@' ∷ []) full) [
    | none ↦ false
    | some name ↦ name_matches (to_ascii_lowercase name) (login_name login)
  ]
]

-- `newest.is_none_or(|(latest, _)| used > latest)`
unfoldable pub newer : ℕ → Text → Option (ℕ × Text) → Option (ℕ × Text)
newer used device_id none = some (used, device_id)
newer used device_id (some (latest, other)) =
    if ltb latest used then some (used, device_id) else some (latest, other)

unfoldable pub consider : Text → DeviceDir → Option (ℕ × Text) → Option (ℕ × Text)
unfolding newer
consider requested dir newest = elim dir.has_store [
  | false ↦ newest
  | true ↦ elim dir.login [
    | none ↦ newest
    | some login ↦
        if eqb login.requested_device_id requested
        then newer dir.used login.device_id newest
        else newest
  ]
]

unfoldable pub newest_of : Text → List DeviceDir → Option (ℕ × Text) → Option (ℕ × Text)
unfolding consider
newest_of requested [] newest = newest
newest_of requested (dir ∷ dirs) newest = newest_of requested dirs (consider requested dir newest)

abbrev pub device_of : Option (ℕ × Text) → Option Text
device_of none = none
device_of (some (_, device_id)) = some device_id

-- The loop over the users' directories, with the newest device so far.
unfoldable pub search_users : Text → Text → List UserDir → Option (ℕ × Text) → Option Text
unfolding names_user newest_of
search_users user requested [] newest = device_of newest
search_users user requested (dir ∷ dirs) newest = elim (names_user dir user) [
  | false ↦ search_users user requested dirs newest
  | true ↦ elim (dir.store_at (sanitize_for_path requested)) [
    | true ↦ some requested
    | false ↦ search_users user requested dirs (newest_of requested dir.devices newest)
  ]
]

unfoldable pub device_id_for_login : List UserDir → Text → Text → Option Text
unfolding search_users
device_id_for_login dirs user requested = search_users user requested dirs none
