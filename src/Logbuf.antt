-- ===== src/Logbuf.antt =====
-- `LogBuffer` of src/logbuf.rs. Times are numbers of nanoseconds; `parse_level` is the `FromStr`
-- of tracing's `Level`, whose order puts the more severe level first.
pub mod Laws
pub mod Visitor
use ement_e2ee.Prelude.{
  ℕ, ◌-◌, Bool, true, false, ◌&&◌, Option, none, some, List, [], ◌∷◌, ◌++◌, Text, ltb, leb, ◌==◌,
  if◌then◌else◌, length, take, retain,
}
use mathlib.Core.List.{reverse}

abbrev pub capacity : ℕ
capacity = 500

pub record LogLine : Type 0 where
  pub time : ℕ
  pub level : Text
  pub target : Text
  pub message : Text

-- `pop_front`, whose result the source drops.
abbrev pub pop_front {ℓ} : {A : Type ℓ} → List A → List A
pop_front [] = []
pop_front (x ∷ xs) = xs

unfoldable pub push : LogLine → List LogLine → List LogLine
push line lines = (if length lines == capacity then pop_front lines else lines) ++ line ∷ []

module _ (parse_level : Text → Option ℕ) where
  -- `line.level.parse::<Level>().is_ok_and(|level| level <= min_level)`
  unfoldable pub at_level : ℕ → LogLine → Bool
  at_level min_level line = elim (parse_level line.level) [
    | none ↦ false
    | some level ↦ leb level min_level
  ]

  -- The most recent `limit` lines at `min_level` or above, oldest first.
  unfoldable pub tail : ℕ → ℕ → List LogLine → List LogLine
  unfolding at_level
  tail min_level limit lines = reverse (take limit (retain (at_level min_level) (reverse lines)))

  -- `line.time.elapsed().is_ok_and(|age| age <= window)`, at the time `now`.
  unfoldable pub is_recent : ℕ → ℕ → LogLine → Bool
  is_recent now window line = leb line.time now && leb (now - line.time) window

  unfoldable pub count_since : ℕ → ℕ → ℕ → List LogLine → ℕ
  unfolding at_level is_recent
  count_since now level window lines =
      length (retain (is_recent now window) (retain (at_level level) lines))
