-- ===== src/Auth/Middleware/Compare.antt =====
-- The comparison of tokens against equality.
use Prim.Native.Nat.{bit_or, bit_xor}
use wa_rs.Common.{
  ℕ, zero, suc, ◌<◌, ◌≡◌, ◌↔◌, refl, sym, Bool, true, ◌&&◌, ◌||◌, not, List, [], ◌∷◌, nat_eq, ltb,
  length, All, arith, Bool-cases, inl, inr,
}
use wa_rs.Auth.Middleware.Bytes.{differences, constant_time_eq}

all_below : ℕ → (ℕ → Bool) → Bool
all_below zero p = true
all_below (suc n) p = p n && all_below n p

at_below : (n : ℕ) (p : ℕ → Bool) (x : ℕ) → all_below n p ≡ true → x < n → p x ≡ true
unfolding all_below
at_below zero p x h lt = absurd (omega arith)
at_below (suc n) p x h lt = ground (arith, at_below n p x)

-- The laws of the two operations at a pair of bytes.
abbrev laws : ℕ → ℕ → Bool
laws x y =
    (not (nat_eq (bit_xor x y) 0) || nat_eq x y)
    && nat_eq (bit_xor x x) 0
    && ltb (bit_xor x y) 256
    && (not (nat_eq (bit_or x y) 0) || (nat_eq x 0 && nat_eq y 0))
    && ltb (bit_or x y) 256

table : all_below 256 (λ x. all_below 256 (laws x)) ≡ true
unfolding all_below
table = refl

at_bytes : (x y : ℕ) → x < 256 → y < 256 → laws x y ≡ true
at_bytes x y hx hy =
    at_below 256 (laws x) y (at_below 256 (λ x. all_below 256 (laws x)) x table hx) hy

abbrev pub IsBytes : List ℕ → Type 0
IsBytes = All (λ x. x < 256)

xor_byte : (x y : ℕ) → x < 256 → y < 256 → bit_xor x y < 256
xor_byte x y hx hy = ground (arith, at_bytes x y hx hy)

or_byte : (x y : ℕ) → x < 256 → y < 256 → bit_or x y < 256
or_byte x y hx hy = ground (arith, at_bytes x y hx hy)

xor_zero : (x y : ℕ) → x < 256 → y < 256 → bit_xor x y ≡ 0 → x ≡ y
xor_zero x y hx hy e = ground (arith, at_bytes x y hx hy)

xor_self : (x : ℕ) → x < 256 → bit_xor x x ≡ 0
xor_self x hx = ground (arith, at_bytes x x hx hx)

or_zero : (x y : ℕ) → x < 256 → y < 256 → bit_or x y ≡ 0 → (x ≡ 0) × (y ≡ 0)
or_zero x y hx hy e = (ground (arith, at_bytes x y hx hy), ground (arith, at_bytes x y hx hy))

-- Texts of one length have no difference only if they are equal.
no_difference :
    (acc : ℕ) (xs ys : List ℕ)
    → acc < 256
    → All (λ x. x < 256) xs
    → All (λ y. y < 256) ys
    → length xs ≡ length ys
    → nat_eq (differences acc xs ys) 0 ≡ true
    → (acc ≡ 0) × (xs ≡ ys)
unfolding differences
no_difference acc [] [] h hx hy e z = (ground arith, refl)
no_difference acc [] (y ∷ ys) h hx hy e z = absurd (omega arith)
no_difference acc (x ∷ xs) [] h hx hy e z = absurd (omega arith)
no_difference acc (x ∷ xs) (y ∷ ys) h (hx, hxs) (hy, hys) e z =
    let d = xor_byte x y hx hy in
    let (o, t) =
      no_difference (bit_or acc (bit_xor x y)) xs ys (or_byte acc (bit_xor x y) h d) hxs hys
        (omega (arith, e)) z in
    let (a, b) = or_zero acc (bit_xor x y) h d o in (a, rw (xor_zero x y hx hy b, t) refl)

same_text : (xs : List ℕ) → IsBytes xs → differences 0 xs xs ≡ 0
unfolding differences
same_text [] h = refl
same_text (x ∷ xs) (hx, h) = rw (xor_self x hx) (same_text xs h)

-- On bytes, the comparison that walks the whole length answers as equality does.
pub constant_time_eq-equal :
    (a b : List ℕ) → IsBytes a → IsBytes b → (constant_time_eq a b ≡ true) ↔ (a ≡ b)
unfolding constant_time_eq
constant_time_eq-equal a b ha hb = (there, back)
  where
    there : constant_time_eq a b ≡ true → a ≡ b
    there h = elim (Bool-cases (nat_eq (length a) (length b))) [
      | inl same ↦ (no_difference 0 a b (omega arith) ha hb (ground arith) (rw same at h)).1
      | inr other ↦ cc
    ]

    back : a ≡ b → constant_time_eq a b ≡ true
    back e = rw (sym e) (ground (arith, same_text a ha))
