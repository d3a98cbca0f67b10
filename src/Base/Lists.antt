-- ===== src/Base/Lists.antt =====
-- Lists measured and indexed by native numbers, Python's slices, and filters by a Boolean test.
use Prim.Native.Nat.{ℕ, zero, suc, ◌+◌, ◌-◌, min}
use mathlib.Core.Path.{◌≡◌, refl, ap, sym, ◌∙◌}
use mathlib.Core.Bool.{Bool, true, false}
use mathlib.Core.List.{List, [], ◌∷◌, ◌++◌, map}
use mathlib.Core.Option.{Option, none, some}
use native.Mathlib.Omega.{arith}
use pymesh.Base.Tests.{if◌then◌else◌}

module _ {ℓ} {A : Type ℓ} where
  abbrev pub length : List A → ℕ
  length [] = 0
  length (x ∷ xs) = suc (length xs)

  abbrev pub get_elem? : List A → ℕ → Option A
  get_elem? [] i = none
  get_elem? (x ∷ xs) zero = some x
  get_elem? (x ∷ xs) (suc i) = get_elem? xs i

  abbrev pub take : ℕ → List A → List A
  take zero xs = []
  take (suc n) [] = []
  take (suc n) (x ∷ xs) = x ∷ take n xs

  abbrev pub drop : ℕ → List A → List A
  drop zero xs = xs
  drop (suc n) [] = []
  drop (suc n) (x ∷ xs) = drop n xs

  abbrev pub replicate : ℕ → A → List A
  replicate zero a = []
  replicate (suc n) a = a ∷ replicate n a

  -- `xs[i:j]`, which is shorter where the list ends early
  abbrev pub slice : List A → ℕ → ℕ → List A
  slice xs i j = take (j - i) (drop i xs)

  -- `[x for x in xs if p(x)]`
  unfoldable pub filter : (A → Bool) → List A → List A
  filter p [] = []
  filter p (x ∷ xs) = let rest = filter p xs in if p x then x ∷ rest else rest

  -- the first row that meets a test
  unfoldable pub find? : (A → Bool) → List A → Option A
  find? p [] = none
  find? p (x ∷ xs) = let rest = find? p xs in if p x then some x else rest

  unfoldable pub any : (A → Bool) → List A → Bool
  any p [] = false
  any p (x ∷ xs) = let rest = any p xs in if p x then true else rest

  abbrev pub is_empty : List A → Bool
  is_empty [] = true
  is_empty (x ∷ xs) = false

  pub length-append : (xs ys : List A) → length (xs ++ ys) ≡ length xs + length ys
  length-append [] ys = omega arith
  length-append (x ∷ xs) ys = omega (arith, length-append xs ys)

module _ {ℓ} {A : Type ℓ} where
  pub take-append : (xs ys : List A) → take (length xs) (xs ++ ys) ≡ xs
  take-append [] ys = refl
  take-append (x ∷ xs) ys = ap (λ l. x ∷ l) (take-append xs ys)

  pub drop-append : (xs ys : List A) → drop (length xs) (xs ++ ys) ≡ ys
  drop-append [] ys = refl
  drop-append (x ∷ xs) ys = drop-append xs ys

  pub length-take : (n : ℕ) (xs : List A) → length (take n xs) ≡ min n (length xs)
  length-take zero xs = omega arith
  length-take (suc n) [] = omega arith
  length-take (suc n) (x ∷ xs) = omega (arith, length-take n xs)

  pub length-drop : (n : ℕ) (xs : List A) → length (drop n xs) ≡ length xs - n
  length-drop zero xs = omega arith
  length-drop (suc n) [] = omega arith
  length-drop (suc n) (x ∷ xs) = omega (arith, length-drop n xs)

  pub length-replicate : (n : ℕ) (a : A) → length (replicate n a) ≡ n
  length-replicate zero a = refl
  length-replicate (suc n) a = ap suc (length-replicate n a)

  pub length-map {κ} : {B : Type κ} (xs : List A) (f : A → B) → length (map f xs) ≡ length xs
  length-map [] f = refl
  length-map (x ∷ xs) f = ap suc (length-map xs f)

  -- Every member meets `P`.
  abbrev pub All {κ} : (A → Type κ) → List A → Type κ
  All P [] = Unit
  All P (x ∷ xs) = P x × All P xs

module _ {ℓ} {A : Type ℓ} (p : A → Bool) where
  -- What is found meets the test.
  pub find?-holds : (xs : List A) (a : A) → find? p xs ≡ some a → p a ≡ true
  unfolding find?
  find?-holds [] a h = cc
  find?-holds (x ∷ xs) a h = ground (arith, find?-holds xs a)

module _ {ℓ κ} {A : Type ℓ} (P : A → Type κ) where
  pub All-snoc : (xs : List A) (a : A) → All P xs → P a → All P (xs ++ a ∷ [])
  All-snoc [] a ps p = (p, tt)
  All-snoc (x ∷ xs) a (px, ps) p = (px, All-snoc xs a ps p)

  pub All-filter : (test : A → Bool) (xs : List A) → All P xs → All P (filter test xs)
  unfolding filter
  All-filter test [] ps = tt
  All-filter test (x ∷ xs) (px, ps) = keep (test x) (All-filter test xs ps)
    where
      keep :
          (b : Bool)
          → All P (filter test xs)
          → All P (if b then x ∷ filter test xs else filter test xs)
      keep true rest = (px, rest)
      keep false rest = rest

module _ {ℓ} {A : Type ℓ} where
  drop-nil : (n : ℕ) → drop {A = A} n [] ≡ []
  drop-nil zero = refl
  drop-nil (suc n) = refl

  pub drop-add : (bytes : List A) (i n : ℕ) → drop (i + n) bytes ≡ drop n (drop i bytes)
  drop-add bytes zero n = ap (λ k. drop k bytes) (omega arith)
  drop-add [] (suc i) n = drop-nil (suc i + n) ∙ sym (drop-nil n)
  drop-add (b ∷ bytes) (suc i) n =
      let e : suc i + n ≡ suc (i + n) = omega arith in rw e (drop-add bytes i n)

  pub take-exact : (n : ℕ) (xs ys : List A) → n ≡ length xs → take n (xs ++ ys) ≡ xs
  take-exact n xs ys h = rw h (take-append xs ys)

  pub drop-exact : (n : ℕ) (xs ys : List A) → n ≡ length xs → drop n (xs ++ ys) ≡ ys
  drop-exact n xs ys h = rw h (drop-append xs ys)

  -- A slice of known length, where the list goes on with that many elements.
  pub slice_at :
      (l : List A) (i j : ℕ) (xs ys : List A)
      → drop i l ≡ xs ++ ys
      → j ≡ i + length xs
      → (slice l i j ≡ xs) × (drop j l ≡ ys)
  slice_at l i j xs ys h e =
      let n : j - i ≡ length xs = omega arith in
      (
        ap (take (j - i)) h ∙ take-exact (j - i) xs ys n,
        rw e (drop-add l i (length xs) ∙ ap (drop (length xs)) h ∙ drop-append xs ys),
      )

  -- Where something is left, the list is as long as what was dropped and what is left.
  pub length-of_drop :
      (l : List A) (i : ℕ) (x : A) (r : List A) → drop i l ≡ x ∷ r → length l ≡ i + suc (length r)
  length-of_drop l i x r h =
      let e : length (drop i l) ≡ suc (length r) = ap length h in omega (arith, length-drop i l)
