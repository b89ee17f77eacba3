-- ===== src/Sync/SeenLaws.antt =====
-- What `SeenToDevice` of src/crypto/sync.rs keeps true: its deque and its set hold the same keys,
-- each once, and no more than the capacity.
use ement_e2ee.Prelude.{
  ℕ, ◌+◌, ◌≤◌, ◌<◌, ◌≡◌, refl, sym, ◌∙◌, inl, inr, false, not, List, [], ◌∷◌, ◌++◌, arith,
  ℕ_discrete, ltb, length, elem, Distinct, length-append, elem-concat, elem-remove, Distinct-concat,
  Distinct-remove, length-remove, Bool-cases,
}
use ement_e2ee.Sync.Seen.{
  SeenToDevice, seen_to_device_capacity, default, pop_oldest, insert, forget,
}

pub record IsValid (s : SeenToDevice) : Type 0 where
  pub same : (k : ℕ) → elem ℕ_discrete k s.set ≡ elem ℕ_discrete k s.order
  pub order_once : Distinct ℕ_discrete s.order
  pub set_once : Distinct ℕ_discrete s.set
  pub sizes : length s.set ≡ length s.order
  pub bounded : length s.order ≤ seen_to_device_capacity

pub default-IsValid : IsValid default
unfolding default
default-IsValid = record {
  same = λ k. refl;
  order_once = tt;
  set_once = tt;
  sizes = refl;
  bounded = omega arith;
}

-- All of validity but the bound, between `push_back` and `pop_front`.
record IsPushed (s : SeenToDevice) : Type 0 where
  same : (k : ℕ) → elem ℕ_discrete k s.set ≡ elem ℕ_discrete k s.order
  order_once : Distinct ℕ_discrete s.order
  set_once : Distinct ℕ_discrete s.set
  sizes : length s.set ≡ length s.order
  bounded : length s.order ≤ seen_to_device_capacity + 1

pop_oldest-IsValid :
    (s : SeenToDevice) (order : List ℕ)
    → s.order ≡ order
    → 0 < length order
    → IsPushed s
    → IsValid (pop_oldest s order)
unfolding pop_oldest
pop_oldest-IsValid s [] e h v = absurd (omega arith)
pop_oldest-IsValid s (x ∷ xs) e h v = record {
  same = λ k. ground (arith, elem-remove ℕ_discrete k x s.set, v.same k);
  order_once = ground arith;
  set_once = Distinct-remove ℕ_discrete x s.set v.set_once;
  sizes = ground (arith, length-remove ℕ_discrete x s.set v.set_once, v.same x, v.sizes);
  bounded = ground (arith, v.bounded);
}

push-IsPushed :
    (k : ℕ) (s : SeenToDevice)
    → IsValid s
    → elem ℕ_discrete k s.set ≡ false
    → IsPushed (record { order = s.order ++ k ∷ []; set = k ∷ s.set })
push-IsPushed k s v h = record {
  same = λ j. ground (arith, elem-concat ℕ_discrete j k s.order, v.same j);
  order_once = Distinct-concat ℕ_discrete k s.order (ground (arith, v.same k)) v.order_once;
  set_once = (h, v.set_once);
  sizes = omega (arith, length-append s.order (k ∷ []), v.sizes);
  bounded = omega (arith, length-append s.order (k ∷ []), v.bounded);
}

-- Inserting a key, new or repeated, keeps the memory well-formed: deque and set hold the same
-- keys, each once, at most 4096.
pub insert-IsValid : (k : ℕ) (s : SeenToDevice) → IsValid s → IsValid (insert k s).0
unfolding insert
insert-IsValid k s v = elim (Bool-cases (elem ℕ_discrete k s.set)) [
  | inl old ↦ rw old v
  | inr new ↦ rw new (elim (Bool-cases (ltb 4096 (length (s.order ++ k ∷ [])))) [
    | inl full ↦ rw full (pop_oldest-IsValid _ _ refl (ground arith) (push-IsPushed k s v new))
    | inr room ↦ rw room (
        let p = push-IsPushed k s v new in
        record {
          same = p.same;
          order_once = p.order_once;
          set_once = p.set_once;
          sizes = p.sizes;
          bounded = ground arith;
        })
  ])
]

-- `insert` answers whether the key was new.
pub insert_is_new : (k : ℕ) (s : SeenToDevice) → (insert k s).1 ≡ not (elem ℕ_discrete k s.set)
unfolding insert
insert_is_new k s = ground arith

-- Forgetting a key, present or not, keeps the memory well-formed.
pub forget-IsValid : (k : ℕ) (s : SeenToDevice) → IsValid s → IsValid (forget k s)
unfolding forget
forget-IsValid k s v = elim (Bool-cases (elem ℕ_discrete k s.set)) [
  | inl old ↦ rw old (record {
    same = λ j.
        ground
          (arith, elem-remove ℕ_discrete j k s.set, elem-remove ℕ_discrete j k s.order, v.same j);
    order_once = Distinct-remove ℕ_discrete k s.order v.order_once;
    set_once = Distinct-remove ℕ_discrete k s.set v.set_once;
    sizes = omega (
      arith,
      length-remove ℕ_discrete k s.set v.set_once old,
      length-remove ℕ_discrete k s.order v.order_once (sym (v.same k) ∙ old),
      v.sizes,
    );
    bounded =
        omega (
          arith,
          length-remove ℕ_discrete k s.order v.order_once (sym (v.same k) ∙ old),
          v.bounded,
        );
  })
  | inr new ↦ rw new v
]
