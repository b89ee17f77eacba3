-- ===== src/Session/Paths.antt =====
-- `sanitize_for_path` of src/session.rs and `account_store_dir` of src/crypto/machine.rs. A path is
-- its list of components.
use ement_e2ee.Prelude.{
  and_intro, and_left, and_right, not_intro, ◌∙◌, ℕ, ◌≡◌, refl, sym, ap, inl, inr, Bool-cases, Bool,
  true, false, ◌&&◌, ◌||◌, List, [], ◌∷◌, ◌++◌, arith, Text, leb, ◌==◌, if◌then◌else◌, length,
}
use ement_e2ee.Prelude.Str.{lacks}

abbrev in_range : ℕ → ℕ → ℕ → Bool
in_range lo hi c = leb lo c && leb c hi

-- `char::is_ascii_alphanumeric`
abbrev pub is_ascii_alphanumeric : ℕ → Bool
is_ascii_alphanumeric c = in_range b'0' b'9' c || in_range b'A' b'Z' c || in_range b'a' b'z' c

unfoldable pub is_kept : ℕ → Bool
is_kept c =
    is_ascii_alphanumeric c
    || (c == b'.')
    || (c == b'-')
    || (c == b'_')
    || (c == b'@')
    || (c == b':')
    || (c == b'=')
    || (c == b'+')

unfoldable pub sanitize_char : ℕ → ℕ
unfolding is_kept
sanitize_char c = if is_kept c then c else b'_'

unfoldable pub sanitize_for_path : Text → Text
unfolding sanitize_char
sanitize_for_path [] = []
sanitize_for_path (c ∷ s) = sanitize_char c ∷ sanitize_for_path s

unfoldable pub account_store_dir : List Text → Text → Text → List Text
unfolding sanitize_for_path
account_store_dir store_dir user_id device_id =
    store_dir ++ sanitize_for_path user_id ∷ sanitize_for_path device_id ∷ []

abbrev pub all_kept : Text → Bool
all_kept [] = true
all_kept (c ∷ s) = is_kept c && all_kept s

underscore-is_kept : is_kept b'_' ≡ true
unfolding is_kept
underscore-is_kept = refl

slash-is_kept : is_kept b'/' ≡ false
unfolding is_kept
slash-is_kept = refl

sanitize_char-is_kept : (c : ℕ) → is_kept (sanitize_char c) ≡ true
unfolding sanitize_char
sanitize_char-is_kept c = elim (Bool-cases (is_kept c)) [
  | inl kept ↦ rw (kept, kept) refl
  | inr other ↦ rw other underscore-is_kept
]

sanitize_char-of_is_kept : (c : ℕ) → is_kept c ≡ true → sanitize_char c ≡ c
unfolding sanitize_char
sanitize_char-of_is_kept c kept = rw kept refl

is_kept-slash : (c : ℕ) → is_kept c ≡ true → (c == b'/') ≡ false
is_kept-slash c kept = elim (Bool-cases (c == b'/')) [
  | inl slash ↦
      let e : c ≡ b'/' = ground arith in
      absurd (ground (arith, sym (ap is_kept e) ∙ kept, slash-is_kept))
  | inr other ↦ other
]

-- A sanitized ID has the length of the ID, holds no character but the kept ones, so no slash, and
-- an ID of kept characters is its own sanitized form.
pub sanitize_for_path_lem :
    (id : Text)
    → (length (sanitize_for_path id) ≡ length id)
      × (all_kept (sanitize_for_path id) ≡ true)
      × (lacks b'/' (sanitize_for_path id) ≡ true)
      × (all_kept id ≡ true → sanitize_for_path id ≡ id)
unfolding sanitize_for_path
sanitize_for_path_lem [] = (refl, refl, refl, λ h. refl)
sanitize_for_path_lem (c ∷ s) =
    let (len, kept, slash, same) = sanitize_for_path_lem s in
    let here = sanitize_char-is_kept c in
    (
      omega (arith, len),
      and_intro here kept,
      and_intro (not_intro (is_kept-slash (sanitize_char c) here)) slash,
      λ h. cc (
        sanitize_char-of_is_kept c (and_left (is_kept c) (all_kept s) h),
        same (and_right (is_kept c) (all_kept s) h),
      ),
    )
