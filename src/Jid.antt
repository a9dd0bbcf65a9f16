-- ===== src/Jid.antt =====
-- Recipient addresses: `parse_jid` of handlers/messages.rs. The `Jid` type, its parser and its
-- printer belong to the WhatsApp client library and are parameters.
use Prim.Native.Char.{Char, code}
use Prim.Native.String.{String, [], ◌∷◌}
use mathlib.Core.List.{List, reverse}
use wa_rs.Common.{
  Bool, true, false, ◌&&◌, ◌||◌, Option, Result, ok, err, ok_or, leb, nat_eq, if◌then◌else◌, any,
  keep,
}
use wa_rs.ApiError.{ApiError, invalid_jid}

-- What the client library gives.
pub record JidLibrary : Type 1 where
  pub Jid : Type 0
  pub parse : String → Option Jid
  pub pn : String → Jid
  pub to_string : Jid → String

abbrev chars : String → List Char
chars [] = List.[]
chars (c ∷ s) = List.◌∷◌ c (chars s)

abbrev text : List Char → String
text List.[] = []
text (List.◌∷◌ c s) = c ∷ text s

-- `char::is_whitespace`.
is_whitespace : Char → Bool
is_whitespace c =
    (leb 9 (code c) && leb (code c) 13)
    || nat_eq (code c) 32
    || nat_eq (code c) 0x85
    || nat_eq (code c) 0xa0
    || nat_eq (code c) 0x1680
    || (leb 0x2000 (code c) && leb (code c) 0x200a)
    || nat_eq (code c) 0x2028
    || nat_eq (code c) 0x2029
    || nat_eq (code c) 0x202f
    || nat_eq (code c) 0x205f
    || nat_eq (code c) 0x3000

-- `char::is_ascii_digit`.
is_ascii_digit : Char → Bool
is_ascii_digit c = leb b'0' (code c) && leb (code c) b'9'

drop_space : List Char → List Char
drop_space List.[] = List.[]
drop_space (List.◌∷◌ c s) = if is_whitespace c then drop_space s else (List.◌∷◌ c s)

-- `str::trim`.
unfoldable pub trim : String → String
unfolding drop_space is_whitespace
trim s = text (reverse (drop_space (reverse (drop_space (chars s)))))

abbrev is_empty : String → Bool
is_empty [] = true
is_empty (_ ∷ _) = false

module _ (lib : JidLibrary) where
  unfoldable pub parse_jid : String → Result ApiError lib.Jid
  unfolding trim is_ascii_digit
  parse_jid jid_str =
      let trimmed = trim jid_str in
      let digits = text (keep is_ascii_digit (chars trimmed)) in
      if is_empty trimmed
      then err (invalid_jid jid_str)
      else if any (λ c. nat_eq (code c) b'@') (chars trimmed)
      then ok_or (lib.parse trimmed) (invalid_jid trimmed)
      else if is_empty digits
      then err (invalid_jid trimmed)
      else ok (lib.pn digits)
