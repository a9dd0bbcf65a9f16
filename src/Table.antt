-- ===== src/Table.antt =====
-- The statements that run on any table, as functions on its rows.
pub mod Counts
pub mod First
use wa_rs.Common.{
  ℕ, Bool, true, String, Option, none, some, List, [], ◌∷◌, ◌==◌, leb, if◌then◌else◌,
}

-- `UPDATE t SET f WHERE p`.
unfoldable pub update_where {ℓ} : {A : Type ℓ} → (A → Bool) → (A → A) → List A → List A
update_where p f [] = []
update_where p f (x ∷ xs) = (if p x then f x else x) ∷ update_where p f xs

-- The first row of a SELECT.
unfoldable pub first_where {ℓ} : {A : Type ℓ} → (A → Bool) → List A → Option A
first_where p [] = none
first_where p (x ∷ xs) = if p x then some x else first_where p xs

-- `ORDER BY key ASC LIMIT 1`, rows of one key in table order.
unfoldable pub oldest {ℓ} : {A : Type ℓ} → (A → ℕ) → List A → Option A
oldest key [] = none
oldest key (x ∷ xs) = elim (oldest key xs) [
  | none ↦ some x
  | some y ↦ if leb (key x) (key y) then some x else some y
]

-- An absent filter accepts every text.
abbrev pub accepts : Option String → String → Bool
accepts none s = true
accepts (some f) s = s == f

abbrev pub insert_by {ℓ} : {A : Type ℓ} → (A → ℕ) → A → List A → List A
insert_by key x [] = x ∷ []
insert_by key x (y ∷ ys) =
    let rest = insert_by key x ys in if leb (key x) (key y) then x ∷ y ∷ ys else y ∷ rest

-- `ORDER BY key ASC`, rows of one key in table order.
abbrev pub sort_by {ℓ} : {A : Type ℓ} → (A → ℕ) → List A → List A
sort_by key [] = []
sort_by key (x ∷ xs) = insert_by key x (sort_by key xs)

abbrev pub insert_newest_by {ℓ} : {A : Type ℓ} → (A → ℕ) → A → List A → List A
insert_newest_by key x [] = x ∷ []
insert_newest_by key x (y ∷ ys) =
    let rest = insert_newest_by key x ys in if leb (key y) (key x) then x ∷ y ∷ ys else y ∷ rest

-- `ORDER BY key DESC`, rows of one key in table order.
abbrev pub newest_by {ℓ} : {A : Type ℓ} → (A → ℕ) → List A → List A
newest_by key [] = []
newest_by key (x ∷ xs) = insert_newest_by key x (newest_by key xs)
