-- ===== src/Table/First.antt =====
-- The first row that passes a test, under an UPDATE.
use wa_rs.Common.{
  ◌≡◌, refl, Bool, true, Option, none, some, List, [], ◌∷◌, arith, if◌then◌else◌, any,
}
use wa_rs.Table.{update_where, first_where}

abbrev pub changed {ℓ} : {A : Type ℓ} → (A → Bool) → (A → A) → Option A → Option A
changed p f none = none
changed p f (some x) = some (if p x then f x else x)

module _ {ℓ} {A : Type ℓ} where
  -- An UPDATE that leaves the test alone.
  pub first_where-update :
      (q p : A → Bool) (f : A → A)
      → ((x : A) → q (f x) ≡ q x)
      → (xs : List A) → first_where q (update_where p f xs) ≡ changed p f (first_where q xs)
  unfolding first_where update_where
  first_where-update q p f same [] = refl
  first_where-update q p f same (x ∷ xs) = ground (arith, same x, first_where-update q p f same xs)

  pub first_where-passes :
      (q : A → Bool) (xs : List A) (x : A) → first_where q xs ≡ some x → q x ≡ true
  unfolding first_where
  first_where-passes q [] x e = cc
  first_where-passes q (y ∷ ys) x e = ground (arith, first_where-passes q ys x)

  pub first_where-any :
      (q p : A → Bool) (xs : List A) (x : A)
      → first_where q xs ≡ some x
      → p x ≡ true
      → any p xs ≡ true
  unfolding first_where
  first_where-any q p [] x e h = cc
  first_where-any q p (y ∷ ys) x e h = ground (arith, first_where-any q p ys x)
