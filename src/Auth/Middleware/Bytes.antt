-- ===== src/Auth/Middleware/Bytes.antt =====
-- The bytes of a text, and `constant_time_eq` of middleware/jwt.rs on them.
use Prim.Native.Char.{code}
use Prim.Native.Nat.{bit_or, bit_xor}
use wa_rs.Common.{
  ℕ, ◌+◌, ◌/◌, ◌%◌, Bool, false, String, List, [], ◌∷◌, ◌++◌, nat_eq, ltb, length, if◌then◌else◌,
}

-- The UTF-8 of a code point.
unfoldable pub utf8 : ℕ → List ℕ
utf8 n =
    if ltb n 0x80
    then n ∷ []
    else if ltb n 0x800
    then (0xc0 + n / 64) ∷ (0x80 + n % 64) ∷ []
    else if ltb n 0x10000
    then (0xe0 + n / 4096) ∷ (0x80 + (n / 64) % 64) ∷ (0x80 + n % 64) ∷ []
    else (0xf0 + n / 262144)
      ∷ (0x80 + (n / 4096) % 64)
      ∷ (0x80 + (n / 64) % 64)
      ∷ (0x80 + n % 64)
      ∷ []

-- `str::as_bytes`.
unfoldable pub as_bytes : String → List ℕ
as_bytes String.[] = []
as_bytes (String.◌∷◌ c s) = utf8 (code c) ++ as_bytes s

-- The fold over the zipped bytes.
unfoldable pub differences : ℕ → List ℕ → List ℕ → ℕ
differences acc [] ys = acc
differences acc (x ∷ xs) [] = acc
differences acc (x ∷ xs) (y ∷ ys) = differences (bit_or acc (bit_xor x y)) xs ys

unfoldable pub constant_time_eq : List ℕ → List ℕ → Bool
constant_time_eq a b = if nat_eq (length a) (length b) then nat_eq (differences 0 a b) 0 else false
