-- ===== src/Logbuf/Laws.antt =====
-- The log buffer of src/logbuf.rs against the whole history of lines.
use ement_e2ee.Prelude.{
  ℕ, zero, suc, ◌-◌, ◌≤◌, ◌≡◌, refl, sym, ap, ◌∙◌, Bool, Option, List, [], ◌∷◌, ◌++◌, arith, Text,
  length, take, drop, retain, length-append, retain-append, ==_iff, dec_le,
}
use mathlib.Core.List.{reverse, reverse-cons, reverse-reverse, append-nil, append_assoc}
use ement_e2ee.Logbuf.{LogLine, capacity, push, pop_front, at_level, tail, count_since}

module _ {ℓ} {A : Type ℓ} where
  length-reverse : (xs : List A) → length (reverse xs) ≡ length xs
  length-reverse [] = refl
  length-reverse (x ∷ xs) =
      omega (
        arith,
        ap length (reverse-cons x xs),
        length-append (reverse xs) (x ∷ []),
        length-reverse xs,
      )

  drop_all : (n : ℕ) (xs : List A) → length xs ≤ n → drop n xs ≡ []
  drop_all zero [] h = refl
  drop_all zero (x ∷ xs) h = absurd (omega arith)
  drop_all (suc n) [] h = refl
  drop_all (suc n) (x ∷ xs) h = drop_all n xs (omega arith)

  drop_lt_append : (n : ℕ) (xs ys : List A) → n ≤ length xs → drop n (xs ++ ys) ≡ drop n xs ++ ys
  drop_lt_append zero xs ys h = refl
  drop_lt_append (suc n) [] ys h = absurd (omega arith)
  drop_lt_append (suc n) (x ∷ xs) ys h = drop_lt_append n xs ys (omega arith)

  length-drop : (n : ℕ) (xs : List A) → length (drop n xs) ≡ length xs - n
  length-drop zero xs = omega arith
  length-drop (suc n) [] = omega arith
  length-drop (suc n) (x ∷ xs) = omega (arith, length-drop n xs)

  pop_front-drop : (n : ℕ) (xs : List A) → pop_front (drop n xs) ≡ drop (suc n) xs
  pop_front-drop zero [] = refl
  pop_front-drop zero (x ∷ xs) = refl
  pop_front-drop (suc n) [] = refl
  pop_front-drop (suc n) (x ∷ xs) = pop_front-drop n xs

  take_all : (n : ℕ) (xs : List A) → length xs ≤ n → take n xs ≡ xs
  take_all zero [] h = refl
  take_all zero (x ∷ xs) h = absurd (omega arith)
  take_all (suc n) [] h = refl
  take_all (suc n) (x ∷ xs) h = ap (◌∷◌ x) (take_all n xs (omega arith))

  take_le_append : (n : ℕ) (xs ys : List A) → n ≤ length xs → take n (xs ++ ys) ≡ take n xs
  take_le_append zero xs ys h = refl
  take_le_append (suc n) [] ys h = absurd (omega arith)
  take_le_append (suc n) (x ∷ xs) ys h = ap (◌∷◌ x) (take_le_append n xs ys (omega arith))

  -- The last `n` elements.
  abbrev pub newest : ℕ → List A → List A
  newest n xs = drop (length xs - n) xs

  retain-reverse : (p : A → Bool) (xs : List A) → retain p (reverse xs) ≡ reverse (retain p xs)
  retain-reverse p [] = refl
  retain-reverse p (x ∷ xs) = ground (
    arith,
    ap (retain p) (reverse-cons x xs),
    retain-append p (reverse xs) (x ∷ []),
    retain-reverse p xs,
    reverse-cons x (retain p xs),
    append-nil (reverse (retain p xs)),
  )

  drop_congr : {j k : ℕ} (xs : List A) → j ≡ k → drop j xs ≡ drop k xs
  drop_congr xs e = ap (λ n. drop n xs) e

  newest_fits : (n : ℕ) (x : A) (xs : List A) → n ≤ length xs → newest n (x ∷ xs) ≡ newest n xs
  newest_fits n x xs h =
      drop_congr {j = suc (length xs) - n} {k = suc (length xs - n)} (x ∷ xs) (omega arith)

  newest_over : (n : ℕ) (xs : List A) → length xs ≤ n → newest n xs ≡ xs
  newest_over n xs h = drop_congr {j = length xs - n} {k = 0} xs (omega arith)

  reverse-take-reverse : (n : ℕ) (xs : List A) → reverse (take n (reverse xs)) ≡ newest n xs
  reverse-take-reverse n [] =
      ap reverse (take_all n (reverse []) (omega arith)) ∙ sym (newest_over n [] (omega arith))
  reverse-take-reverse n (x ∷ xs) = elim (dec_le n (length xs)) [
    | yes fits ↦
        ap (λ ys. reverse (take n ys)) (reverse-cons x xs)
        ∙ ap reverse (take_le_append n (reverse xs) (x ∷ []) (omega (arith, length-reverse xs)))
        ∙ reverse-take-reverse n xs
        ∙ sym (newest_fits n x xs fits)
    | no over ↦
        ap reverse (take_all n (reverse (x ∷ xs)) (omega (arith, length-reverse (x ∷ xs))))
        ∙ reverse-reverse (x ∷ xs)
        ∙ sym (newest_over n (x ∷ xs) (omega arith))
  ]

-- `push`, for every line of a history in turn.
unfoldable pub push_all : List LogLine → List LogLine → List LogLine
push_all lines [] = lines
push_all lines (l ∷ ls) = push_all (push l lines) ls

push-newest :
    (g : List LogLine) (l : LogLine) → push l (newest capacity g) ≡ newest capacity (g ++ l ∷ [])
unfolding push
push-newest g l = elim (dec_le capacity (length g)) [
  | yes full ↦
      rw
        ((==_iff (length (newest capacity g)) 500).1
          (omega (arith, length-drop (length g - 500) g)))
        (ap (λ ys. ys ++ l ∷ []) (pop_front-drop (length g - 500) g)
          ∙ sym (
              drop_congr {k = suc (length g - 500)} (g ++ l ∷ [])
                (omega (arith, length-append g (l ∷ [])))
              ∙ drop_lt_append (suc (length g - 500)) g (l ∷ []) (omega arith)))
  | no room ↦ ground (
    arith,
    newest_over capacity g (omega arith),
    newest_over capacity (g ++ l ∷ []) (omega (arith, length-append g (l ∷ []))),
  )
]

push_all-newest : (g h : List LogLine) → push_all (newest capacity g) h ≡ newest capacity (g ++ h)
unfolding push_all
push_all-newest g [] = ap (newest capacity) (sym (append-nil g))
push_all-newest g (l ∷ ls) =
    ap (λ ys. push_all ys ls) (push-newest g l)
    ∙ push_all-newest (g ++ l ∷ []) ls
    ∙ ap (newest capacity) (append_assoc g (l ∷ []) ls)

-- After any history of lines the buffer holds the last 500 of them, in order.
pub push_all_lem : (h : List LogLine) → push_all [] h ≡ newest capacity h
push_all_lem h = push_all-newest [] h

-- `tail` returns, of the lines at the level, the newest that the limit allows, oldest first.
pub tail-newest :
    (parse_level : Text → Option ℕ) (min_level limit : ℕ) (lines : List LogLine)
    → tail parse_level min_level limit lines
      ≡ newest limit (retain (at_level parse_level min_level) lines)
unfolding tail
tail-newest parse_level min_level limit lines =
    ap (λ ys. reverse (take limit ys)) (retain-reverse (at_level parse_level min_level) lines)
    ∙ reverse-take-reverse limit (retain (at_level parse_level min_level) lines)

-- What the log check counts at a more severe level it counts at a less severe one too.
pub count_since_mono :
    (parse_level : Text → Option ℕ) (now window a b : ℕ) (lines : List LogLine)
    → a ≤ b
    → count_since parse_level now a window lines ≤ count_since parse_level now b window lines
unfolding count_since
count_since_mono parse_level now window a b [] h = omega arith
count_since_mono parse_level now window a b (l ∷ lines) h =
    ground (arith, count_since_mono parse_level now window a b lines h)
