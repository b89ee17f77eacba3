-- ===== src/Config/Load.antt =====
-- `FileConfig::read`, `expand_tilde`, `parse_homeserver`, `passphrase_from_command` and
-- `Config::load` of src/config.rs. A path is its list of components. The file system, toml, the URL
-- crate, the shell and the user's directories are a parameter; `none` is an error.
use ement_e2ee.Prelude.{
  ℕ, Bool, ◌&&◌, ◌||◌, ◌==◌, Option, none, some, List, [], ◌∷◌, ◌++◌, Text, codes, eqb,
  if◌then◌else◌, or_else, unwrap_or, is_some, is_empty, ◌>>=?◌,
}

pub data IpAddr : Type 0 where
  v4 : ℕ → IpAddr
  v6 : ℕ → IpAddr

pub record SocketAddr : Type 0 where
  pub ip : IpAddr
  pub port : ℕ

-- `Ipv4Addr::LOCALHOST`, 127.0.0.1, and `Ipv6Addr::LOCALHOST`, ::1.
abbrev pub v4_localhost : ℕ
v4_localhost = 2130706433

abbrev pub v6_localhost : ℕ
v6_localhost = 1

abbrev pub default_listen : SocketAddr
default_listen = record { ip = v4 v4_localhost; port = 8009 }

abbrev pub PathBuf : Type 0
PathBuf = List Text

pub record FileConfig : Type 0 where
  pub listen : Option SocketAddr
  pub homeserver : Option Text
  pub store_dir : Option PathBuf
  pub log_level : Option Text
  pub store_passphrase : Option Text
  pub store_passphrase_command : Option Text
  pub admin_token : Option Text

abbrev pub empty_config : FileConfig
empty_config = record {
  listen = none;
  homeserver = none;
  store_dir = none;
  log_level = none;
  store_passphrase = none;
  store_passphrase_command = none;
  admin_token = none;
}

pub record ServeArgs : Type 0 where
  pub config : Option PathBuf
  pub homeserver : Option Text
  pub store_dir : Option PathBuf
  pub listen : Option SocketAddr
  pub log_level : Option Text

pub record System : Type 1 where
  pub Url : Type 0
  pub parse_url : Text → Option Url
  pub url_path : Url → Text
  pub set_path : Text → Url → Url
  pub exists : PathBuf → Bool
  pub read_to_string : PathBuf → Option Text
  pub parse_toml : Text → Option FileConfig
  pub config_dir : Option PathBuf
  pub data_dir : Option PathBuf
  pub home_dir : Option PathBuf
  -- Whether the command succeeds, and what it prints where that is UTF-8; `none`: it does not run.
  pub run_command : Text → Option (Bool × Option Text)

pub record Config (Url : Type 0) : Type 0 where
  pub listen : SocketAddr
  pub homeserver : Url
  pub store_dir : PathBuf
  pub log_level : Text
  pub store_passphrase : Option Text
  pub admin_token : Option Text

-- `trim_end_matches`, of all characters that satisfy the test.
unfoldable pub trim_end : (ℕ → Bool) → Text → Text
trim_end p [] = []
trim_end p (c ∷ s) = let rest = trim_end p s in if is_empty rest && p c then [] else c ∷ rest

abbrev pub is_newline : ℕ → Bool
is_newline c = c == 10 || c == 13

module _ (S : System) where
  open S use {
    Url, parse_url, url_path, set_path, exists, read_to_string, parse_toml, config_dir, data_dir,
    home_dir, run_command,
  }

  abbrev pub default_config_path : Option PathBuf
  default_config_path =
      config_dir >>=? λ d. some (d ++ codes "ement-e2ee" ∷ codes "config.toml" ∷ [])

  unfoldable pub read_at : Bool → Option PathBuf → Option FileConfig
  read_at explicit none = some empty_config
  read_at explicit (some p) =
      if exists p
      then read_to_string p >>=? parse_toml
      else if explicit
      then none
      else some empty_config

  unfoldable pub read : Option PathBuf → Option FileConfig
  unfolding read_at
  read explicit = read_at (is_some explicit) (or_else explicit default_config_path)

  -- Only a whole first component `~` is expanded.
  unfoldable pub expand_tilde : PathBuf → PathBuf
  expand_tilde [] = []
  expand_tilde (c ∷ rest) =
      if eqb c (codes "~")
      then (elim home_dir [ none ↦ c ∷ rest | some home ↦ home ++ rest ])
      else c ∷ rest

  unfoldable pub parse_homeserver : Text → Option Url
  parse_homeserver homeserver = parse_url homeserver >>=? λ url.
      if eqb (url_path url) (codes "/") || is_empty (url_path url)
      then some (set_path [] url)
      else none

  -- What the command printed, less the line ends after it.
  abbrev pub printed : Text → Option Text
  printed output =
      let passphrase = trim_end is_newline output in
      if is_empty passphrase then none else some passphrase

  unfoldable pub passphrase_from_command : Text → Option Text
  unfolding trim_end
  passphrase_from_command command =
      run_command command >>=? λ (success, output). if success then (output >>=? printed) else none

  -- The outer `none` is an error: both are set, or the command fails.
  unfoldable pub store_passphrase : Option Text → Option Text → Option (Option Text)
  unfolding passphrase_from_command
  store_passphrase (some passphrase) (some command) = none
  store_passphrase passphrase none = some passphrase
  store_passphrase none (some command) =
      passphrase_from_command command >>=? λ passphrase. some (some passphrase)

  abbrev pub default_store_dir : Option PathBuf
  default_store_dir = data_dir >>=? λ d. some (d ++ codes "ement-e2ee" ∷ [])

  abbrev pub file_store_dir : FileConfig → Option PathBuf
  file_store_dir file = file.store_dir >>=? λ d. some (expand_tilde d)

  unfoldable pub load : ServeArgs → Option (Config Url)
  unfolding read parse_homeserver store_passphrase expand_tilde
  load args = read args.config >>=? λ file.
      or_else args.homeserver file.homeserver >>=? λ homeserver.
      parse_homeserver homeserver >>=? λ url.
      or_else (or_else args.store_dir (file_store_dir file)) default_store_dir >>=? λ store_dir.
      store_passphrase file.store_passphrase file.store_passphrase_command >>=? λ passphrase.
      some (record {
        listen = unwrap_or (or_else args.listen file.listen) default_listen;
        homeserver = url;
        store_dir = store_dir;
        log_level = unwrap_or (or_else args.log_level file.log_level) (codes "info");
        store_passphrase = passphrase;
        admin_token = file.admin_token;
      })
