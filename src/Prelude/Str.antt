-- ===== src/Prelude/Str.antt =====
-- Text as its list of Unicode scalar values: Rust's `str`, with the `str` methods that the program
-- calls.
use Prim.Native.Nat.{ℕ}
use Prim.Native.Char.{code}
use Prim.Native.String.{String}
use mathlib.Core.Path.{◌≡◌, refl}
use mathlib.Core.Bool.{Bool, true, false, ◌&&◌, not}
use mathlib.Core.List.{List, [], ◌∷◌, ◌++◌}
use mathlib.Core.Option.{Option, none, some}
use native.Mathlib.Omega.{arith}
use native.Mathlib.Decide.{ℕ_discrete}
use ement_e2ee.Prelude.Tests.{◌==◌, if◌then◌else◌}

abbrev pub Text : Type 0
Text = List ℕ

-- A literal.
abbrev pub codes : String → Text
codes String.[] = []
codes (String.◌∷◌ c s) = code c ∷ codes s

unfoldable pub Text-discrete : Discrete Text
unfolding ℕ_discrete
Text-discrete = hlevel ℕ_discrete

-- `==` on `str`
abbrev pub eqb : Text → Text → Bool
eqb s t = elim (Text-discrete s t) [ yes _ ↦ true | no _ ↦ false ]

unfoldable pub strip_prefix : Text → Text → Option Text
strip_prefix [] s = some s
strip_prefix (c ∷ p) [] = none
strip_prefix (c ∷ p) (x ∷ s) = if c == x then strip_prefix p s else none

abbrev cons_head : ℕ → List Text → List Text
cons_head x [] = (x ∷ []) ∷ []
cons_head x (s ∷ ss) = (x ∷ s) ∷ ss

-- `split(c)`, which always yields a first piece.
unfoldable pub split : ℕ → Text → List Text
split c [] = [] ∷ []
split c (x ∷ s) = let rest = split c s in if x == c then [] ∷ rest else cons_head x rest

unfoldable pub trim_start_matches : ℕ → Text → Text
trim_start_matches c [] = []
trim_start_matches c (x ∷ s) = if x == c then trim_start_matches c s else x ∷ s

-- `split_once(c)`: before and after the first `c`.
unfoldable pub split_once : ℕ → Text → Option (Text × Text)
split_once c [] = none
split_once c (x ∷ s) =
    if x == c
    then some ([], s)
    else elim (split_once c s) [ none ↦ none | some (a, b) ↦ some (x ∷ a, b) ]

-- `c` stands nowhere in the text.
abbrev pub lacks : ℕ → Text → Bool
lacks c [] = true
lacks c (x ∷ s) = not (x == c) && lacks c s

pub strip_prefix-append : (p s : Text) → strip_prefix p (p ++ s) ≡ some s
unfolding strip_prefix
strip_prefix-append [] s = refl
strip_prefix-append (c ∷ p) s = ground (arith, strip_prefix-append p s)

pub strip_prefix-eq-some : (p s t : Text) → strip_prefix p s ≡ some t → s ≡ p ++ t
unfolding strip_prefix
strip_prefix-eq-some [] s t h = ground arith
strip_prefix-eq-some (c ∷ p) [] t h = ground arith
strip_prefix-eq-some (c ∷ p) (x ∷ s) t h = ground (arith, strip_prefix-eq-some p s t)

pub split_of_lacks : (c : ℕ) (s : Text) → lacks c s ≡ true → split c s ≡ s ∷ []
unfolding split
split_of_lacks c [] h = refl
split_of_lacks c (x ∷ s) h = ground (arith, split_of_lacks c s)

pub split-append : (c : ℕ) (s t : Text) → lacks c s ≡ true → split c (s ++ c ∷ t) ≡ s ∷ split c t
unfolding split
split-append c [] t h = ground arith
split-append c (x ∷ s) t h = ground (arith, split-append c s t)

pub split_once-append :
    (c : ℕ) (s t : Text) → lacks c s ≡ true → split_once c (s ++ c ∷ t) ≡ some (s, t)
unfolding split_once
split_once-append c [] t h = ground arith
split_once-append c (x ∷ s) t h = ground (arith, split_once-append c s t)

pub split_once_of_lacks : (c : ℕ) (s : Text) → lacks c s ≡ true → split_once c s ≡ none
unfolding split_once
split_once_of_lacks c [] h = refl
split_once_of_lacks c (x ∷ s) h = ground (arith, split_once_of_lacks c s)

split_path : split b'/' (codes "a/b//c") ≡ codes "a" ∷ codes "b" ∷ [] ∷ codes "c" ∷ []
unfolding split
split_path = refl

eqb_computes : eqb (codes "abc") (codes "abc") ≡ true
unfolding Text-discrete
eqb_computes = refl
