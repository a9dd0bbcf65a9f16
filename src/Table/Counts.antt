-- ===== src/Table/Counts.antt =====
-- How an UPDATE and an INSERT change the number of the rows that pass a test.
use wa_rs.Common.{
  ℕ, ◌+◌, ◌≤◌, ◌≡◌, refl, Bool, true, false, ◌&&◌, List, [], ◌∷◌, ◌++◌, any, count, length, arith,
  keep, take, zero, suc, if◌then◌else◌,
}
use wa_rs.Table.{update_where, insert_by, sort_by}

module _ {ℓ} {A : Type ℓ} where
  pub count-update_same :
      (q p : A → Bool) (f : A → A)
      → ((x : A) → p x ≡ true → q (f x) ≡ q x)
      → (xs : List A) → count q (update_where p f xs) ≡ count q xs
  unfolding update_where
  count-update_same q p f h [] = refl
  count-update_same q p f h (x ∷ xs) = ground (arith, count-update_same q p f h xs, h x)

  pub count-update_le :
      (q p : A → Bool) (f : A → A)
      → ((x : A) → p x ≡ true → q (f x) ≡ true → q x ≡ true)
      → (xs : List A) → count q (update_where p f xs) ≤ count q xs
  unfolding update_where
  count-update_le q p f h [] = omega arith
  count-update_le q p f h (x ∷ xs) = ground (arith, count-update_le q p f h xs, h x)

  -- The rows that an UPDATE takes out of a test that they all passed.
  pub count-update_out :
      (q p : A → Bool) (f : A → A)
      → ((x : A) → p x ≡ true → q x ≡ true)
      → ((x : A) → p x ≡ true → q (f x) ≡ false)
      → (xs : List A) → count q (update_where p f xs) + count p xs ≡ count q xs
  unfolding update_where
  count-update_out q p f before after [] = refl
  count-update_out q p f before after (x ∷ xs) =
      ground (arith, count-update_out q p f before after xs, before x, after x)

  -- The rows that an UPDATE brings under a test that none of them passed.
  pub count-update_in :
      (q p : A → Bool) (f : A → A)
      → ((x : A) → p x ≡ true → q x ≡ false)
      → ((x : A) → p x ≡ true → q (f x) ≡ true)
      → (xs : List A) → count q (update_where p f xs) ≡ count q xs + count p xs
  unfolding update_where
  count-update_in q p f before after [] = refl
  count-update_in q p f before after (x ∷ xs) =
      ground (arith, count-update_in q p f before after xs, before x, after x)

  pub count-append_one :
      (q : A → Bool) (xs : List A) (y : A)
      → count q (xs ++ y ∷ []) ≡ count q xs + (if q y then 1 else 0)
  count-append_one q [] y = omega arith
  count-append_one q (x ∷ xs) y = omega (arith, count-append_one q xs y)

  pub count-any : (q : A → Bool) (xs : List A) → any q xs ≡ false → count q xs ≡ 0
  count-any q [] h = refl
  count-any q (x ∷ xs) h = ground (arith, count-any q xs)

  pub count_implied :
      (p q : A → Bool)
      → ((x : A) → p x ≡ true → q x ≡ true)
      → (xs : List A) → count p xs ≤ count q xs
  count_implied p q h [] = omega arith
  count_implied p q h (x ∷ xs) = ground (arith, count_implied p q h xs, h x)

  -- The rows that an UPDATE takes out of a test.
  pub count-update_lost :
      (q p : A → Bool) (f : A → A)
      → ((x : A) → p x ≡ true → q (f x) ≡ false)
      → (xs : List A) → count q (update_where p f xs) + count (λ x. p x && q x) xs ≡ count q xs
  unfolding update_where
  count-update_lost q p f h [] = refl
  count-update_lost q p f h (x ∷ xs) = ground (arith, count-update_lost q p f h xs, h x)

  -- The rows that an UPDATE brings under a test.
  pub count-update_won :
      (q p : A → Bool) (f : A → A)
      → ((x : A) → p x ≡ true → q (f x) ≡ true)
      → (xs : List A)
      → count q (update_where p f xs) + count (λ x. p x && q x) xs ≡ count q xs + count p xs
  unfolding update_where
  count-update_won q p f h [] = refl
  count-update_won q p f h (x ∷ xs) = ground (arith, count-update_won q p f h xs, h x)

  -- Two tests that exclude each other.
  pub count_disjoint :
      (p q r : A → Bool)
      → ((x : A) → p x ≡ true → r x ≡ true)
      → ((x : A) → q x ≡ true → r x ≡ true)
      → ((x : A) → p x ≡ true → q x ≡ false)
      → (xs : List A) → count p xs + count q xs ≤ count r xs
  count_disjoint p q r hp hq hd [] = omega arith
  count_disjoint p q r hp hq hd (x ∷ xs) =
      ground (arith, count_disjoint p q r hp hq hd xs, hp x, hq x, hd x)

  pub count-keep : (p q : A → Bool) (xs : List A) → count p (keep q xs) ≡ count (λ x. q x && p x) xs
  count-keep p q [] = refl
  count-keep p q (x ∷ xs) = ground (arith, count-keep p q xs)

  pub count-take : (p : A → Bool) (n : ℕ) (xs : List A) → count p (take n xs) ≤ count p xs
  count-take p zero xs = omega arith
  count-take p (suc n) [] = omega arith
  count-take p (suc n) (x ∷ xs) = omega (arith, count-take p n xs)

  pub count-insert_by :
      (p : A → Bool) (key : A → ℕ) (x : A) (xs : List A)
      → count p (insert_by key x xs) ≡ count p (x ∷ xs)
  count-insert_by p key x [] = refl
  count-insert_by p key x (y ∷ ys) = ground (arith, count-insert_by p key x ys)

  pub count-sort_by :
      (p : A → Bool) (key : A → ℕ) (xs : List A) → count p (sort_by key xs) ≡ count p xs
  count-sort_by p key [] = refl
  count-sort_by p key (x ∷ xs) =
      omega (arith, count-insert_by p key x (sort_by key xs), count-sort_by p key xs)

  pub length-insert_by :
      (key : A → ℕ) (x : A) (xs : List A) → length (insert_by key x xs) ≡ suc (length xs)
  length-insert_by key x [] = refl
  length-insert_by key x (y ∷ ys) = ground (arith, length-insert_by key x ys)

  pub length-sort_by : (key : A → ℕ) (xs : List A) → length (sort_by key xs) ≡ length xs
  length-sort_by key [] = refl
  length-sort_by key (x ∷ xs) =
      omega (arith, length-insert_by key x (sort_by key xs), length-sort_by key xs)
