-- ===== src/Sync/Seen.antt =====
-- `SeenToDevice` of src/crypto/sync.rs: the to-device events that were processed lately, by the
-- hash of their JSON. Hashes are the numbers below 2 ^ 64; the hasher itself is std's.
use ement_e2ee.Prelude.{
  ℕ, Bool, true, false, List, [], ◌∷◌, ◌++◌, ℕ_discrete, ltb, if◌then◌else◌, length, elem, remove,
}

abbrev pub seen_to_device_capacity : ℕ
seen_to_device_capacity = 4096

-- The front of the deque is the head of `order`.
pub record SeenToDevice : Type 0 where
  pub order : List ℕ
  pub set : List ℕ

unfoldable pub default : SeenToDevice
default = record { order = []; set = [] }

-- `pop_front`, and the removal of what it returned.
unfoldable pub pop_oldest : SeenToDevice → List ℕ → SeenToDevice
pop_oldest s [] = s
pop_oldest s (oldest ∷ rest) = record { order = rest; set = remove ℕ_discrete oldest s.set }

-- Remember an event; false if it was already seen.
unfoldable pub insert : ℕ → SeenToDevice → SeenToDevice × Bool
unfolding pop_oldest
insert key s =
    if elem ℕ_discrete key s.set
    then (s, false)
    else let pushed : SeenToDevice = record { order = s.order ++ key ∷ []; set = key ∷ s.set } in
      if ltb seen_to_device_capacity (length pushed.order)
      then (pop_oldest pushed pushed.order, true)
      else (pushed, true)

unfoldable pub forget : ℕ → SeenToDevice → SeenToDevice
forget key s =
    if elem ℕ_discrete key s.set
    then record { order = remove ℕ_discrete key s.order; set = remove ℕ_discrete key s.set }
    else s

-- `for_each(|key| seen.forget(*key))`
unfoldable pub forget_all : List ℕ → SeenToDevice → SeenToDevice
forget_all [] s = s
forget_all (key ∷ keys) s = forget_all keys (forget key s)
