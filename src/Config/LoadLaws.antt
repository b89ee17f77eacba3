-- ===== src/Config/LoadLaws.antt =====
-- What the configuration (src/config.rs) comes to.
use ement_e2ee.Prelude.{
  ℕ, ◌≡◌, refl, ap, sym, subst, some_inj, and_left, and_right, and_intro, Bool, true, false, ◌&&◌,
  none, some, [], ◌∷◌, ◌++◌, Text, codes, arith, all, is_empty, or_else, unwrap_or, is_some,
  Option-cases, Bool-cases, inl, inr, if◌then◌else◌,
}
use ement_e2ee.Config.Load.{
  System, Config, FileConfig, ServeArgs, SocketAddr, IpAddr, trim_end, is_newline,
  passphrase_from_command, printed, read, store_passphrase, parse_homeserver, default_listen,
  file_store_dir, default_store_dir,
}
use ement_e2ee.Config.Endpoint.{connect_addr, connect_ip, is_unspecified}

-- The last character satisfies the test.
abbrev pub ends_with : (ℕ → Bool) → Text → Bool
ends_with p [] = false
ends_with p (c ∷ []) = p c
ends_with p (c ∷ d ∷ s) = ends_with p (d ∷ s)

empty_eq : (xs : Text) → is_empty xs ≡ true → xs ≡ []
empty_eq [] h = refl
empty_eq (x ∷ xs) h = absurd (ground arith)

trim_end-parts :
    (p : ℕ → Bool) (s : Text) → (cut : Text) × (s ≡ trim_end p s ++ cut) × (all p cut ≡ true)
unfolding trim_end
trim_end-parts p [] = ([], refl, refl)
trim_end-parts p (c ∷ s) =
    let (cut, e, h) = trim_end-parts p s in
    elim (Bool-cases (is_empty (trim_end p s) && p c)) [
      | inl g ↦ (
        c ∷ cut,
        rw g (ap (λ x. c ∷ x) (rw (empty_eq (trim_end p s) (and_left _ _ g)) at e)),
        and_intro (and_right _ _ g) h,
      )
      | inr g ↦ (cut, rw g (ap (λ x. c ∷ x) e), h)
    ]

ends_cons :
    (p : ℕ → Bool) (c : ℕ) (xs : Text)
    → ends_with p xs ≡ false
    → ends_with p (if is_empty xs && p c then [] else c ∷ xs) ≡ false
ends_cons p c [] h = ground arith
ends_cons p c (x ∷ xs) h = h

trim_end-end : (p : ℕ → Bool) (s : Text) → ends_with p (trim_end p s) ≡ false
unfolding trim_end
trim_end-end p [] = refl
trim_end-end p (c ∷ s) = ends_cons p c (trim_end p s) (trim_end-end p s)

connect_ip-specified : (i : IpAddr) → is_unspecified (connect_ip i) ≡ false
unfolding connect_ip
connect_ip-specified (IpAddr.v4 a) = ground arith
connect_ip-specified (IpAddr.v6 a) = ground arith

connect_ip_same : (i : IpAddr) → is_unspecified i ≡ false → connect_ip i ≡ i
unfolding connect_ip
connect_ip_same (IpAddr.v4 a) h = rw h refl
connect_ip_same (IpAddr.v6 a) h = rw h refl

-- The address to connect to is never the wildcard, has the port that the proxy listens on, and is
-- the address that it listens on unless that is the wildcard.
pub connect_addr_lem :
    (listen : SocketAddr)
    → (is_unspecified (connect_addr listen).ip ≡ false)
      × ((connect_addr listen).port ≡ listen.port)
      × (is_unspecified listen.ip ≡ false → connect_addr listen ≡ listen)
unfolding connect_addr connect_ip
connect_addr_lem listen = (
  connect_ip-specified listen.ip,
  refl,
  λ h. ap (λ i. record { ip = i; port = listen.port }) (connect_ip_same listen.ip h),
)

module _ (S : System) where
  open S use {Url, run_command}

  printed-parts :
      (output passphrase : Text)
      → printed S output ≡ some passphrase
      → (passphrase ≡ trim_end is_newline output) × (is_empty passphrase ≡ false)
  printed-parts output passphrase h = elim (Bool-cases (is_empty (trim_end is_newline output))) [
    | inl e ↦ absurd (ground arith)
    | inr e ↦
        let same = some_inj _ _ (rw (printed, e) at h) in
        (sym same, subst (λ p. is_empty p ≡ false) same e)
  ]

  -- A passphrase that a command gives is what the command printed, which succeeded, less the line
  -- ends after it: it does not end with one, and it is not empty.
  pub passphrase_from_command_lem :
      (command passphrase : Text)
      → passphrase_from_command S command ≡ some passphrase
      → (output : Text) × (cut : Text) × (run_command command ≡ some (true, some output))
        × (output ≡ passphrase ++ cut)
        × (all is_newline cut ≡ true)
        × (ends_with is_newline passphrase ≡ false)
        × (is_empty passphrase ≡ false)
  unfolding passphrase_from_command
  passphrase_from_command_lem command passphrase h = elim (Option-cases (run_command command)) [
    | inl e ↦ absurd (ground arith)
    | inr ((false, output), e) ↦ absurd (ground arith)
    | inr ((true, none), e) ↦ absurd (ground arith)
    | inr ((true, some output), e) ↦
        let g = rw (passphrase_from_command, e) at h in
        let (cut, split, lines) = trim_end-parts is_newline output in
        let (same, filled) = printed-parts output passphrase g in
        (
          output,
          cut,
          e,
          subst (λ p. output ≡ p ++ cut) (sym same) split,
          lines,
          subst (λ p. ends_with is_newline p ≡ false) (sym same) (trim_end-end is_newline output),
          filled,
        )
  ]

  -- What a configuration is made of.
  abbrev pub Loaded : ServeArgs → Config Url → Type 0
  Loaded args c =
      (file : FileConfig) × (read S args.config ≡ some file)
      × ((homeserver : Text) × (or_else args.homeserver file.homeserver ≡ some homeserver)
          × (parse_homeserver S homeserver ≡ some c.homeserver))
      × (c.listen ≡ unwrap_or (or_else args.listen file.listen) default_listen)
      × (or_else (or_else args.store_dir (file_store_dir S file)) (default_store_dir S)
          ≡ some c.store_dir)
      × (c.log_level ≡ unwrap_or (or_else args.log_level file.log_level) (codes "info"))
      × (c.admin_token ≡ file.admin_token)
      × (store_passphrase S file.store_passphrase file.store_passphrase_command
          ≡ some c.store_passphrase)
      × ((is_some file.store_passphrase && is_some file.store_passphrase_command) ≡ false)
