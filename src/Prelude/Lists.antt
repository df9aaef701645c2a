-- ===== src/Prelude/Lists.antt =====
-- Lists measured by native numbers: lengths, and sums of a weight, which count a list's items of a
-- kind without regard to their order.
use Prim.Native.Nat.{ℕ, zero, suc, ◌+◌, min}
use mathlib.Core.Path.{◌≡◌, refl}
use mathlib.Core.List.{List, [], ◌∷◌, ◌++◌}
use native.Mathlib.Omega.{arith}

module _ {ℓ} {A : Type ℓ} where
  abbrev pub length : List A → ℕ
  length [] = 0
  length (x ∷ xs) = suc (length xs)

  abbrev pub take : ℕ → List A → List A
  take zero xs = []
  take (suc n) [] = []
  take (suc n) (x ∷ xs) = x ∷ take n xs

  abbrev pub drop : ℕ → List A → List A
  drop zero xs = xs
  drop (suc n) [] = []
  drop (suc n) (x ∷ xs) = drop n xs

  abbrev pub weigh : (A → ℕ) → List A → ℕ
  weigh f [] = 0
  weigh f (x ∷ xs) = f x + weigh f xs

  pub length-append : (xs ys : List A) → length (xs ++ ys) ≡ length xs + length ys
  length-append [] ys = omega arith
  length-append (x ∷ xs) ys = omega (arith, length-append xs ys)

  pub weigh-append : (f : A → ℕ) (xs ys : List A) → weigh f (xs ++ ys) ≡ weigh f xs + weigh f ys
  weigh-append f [] ys = omega arith
  weigh-append f (x ∷ xs) ys = omega (arith, weigh-append f xs ys)

  pub length-middle :
      (before after : List A) (x : A)
      → length (before ++ x ∷ after) ≡ suc (length (before ++ after))
  length-middle [] after x = refl
  length-middle (y ∷ before) after x = omega (arith, length-middle before after x)

  pub weigh-middle :
      (f : A → ℕ) (before after : List A) (x : A)
      → weigh f (before ++ x ∷ after) ≡ f x + weigh f (before ++ after)
  weigh-middle f [] after x = refl
  weigh-middle f (y ∷ before) after x = omega (arith, weigh-middle f before after x)

  pub weigh-take-drop :
      (f : A → ℕ) (n : ℕ) (xs : List A) → weigh f (take n xs) + weigh f (drop n xs) ≡ weigh f xs
  weigh-take-drop f zero xs = omega arith
  weigh-take-drop f (suc n) [] = omega arith
  weigh-take-drop f (suc n) (x ∷ xs) = omega (arith, weigh-take-drop f n xs)

  pub length-take : (n : ℕ) (xs : List A) → length (take n xs) ≡ min n (length xs)
  length-take zero xs = omega arith
  length-take (suc n) [] = omega arith
  length-take (suc n) (x ∷ xs) = omega (arith, length-take n xs)

-- Every item has the property.
abbrev pub All {ℓ} : {A : Type ℓ} → (A → Type 0) → List A → Type 0
All P [] = Unit
All P (x ∷ xs) = P x × All P xs

pub All-append {ℓ} :
    {A : Type ℓ} (P : A → Type 0) (xs ys : List A) → All P xs → All P ys → All P (xs ++ ys)
All-append P [] ys hx hy = hy
All-append P (x ∷ xs) ys hx hy = (hx.0, All-append P xs ys hx.1 hy)
