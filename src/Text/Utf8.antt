-- ===== src/Text/Utf8.antt =====
-- `str::from_utf8`: bytes to Unicode scalar values, or nothing where they encode none.
pub mod Steps
pub mod Pieces
use nhop.Common.{
  ℕ, ◌+◌, ◌-◌, ◌*◌, ◌^◌, Bool, ◌&&◌, ◌||◌, Option, none, some, List, [], ◌∷◌, ltb, leb,
  if◌then◌else◌,
}
use nhop.Text.{Text}

abbrev pub Bytes : Type 0
Bytes = List ℕ

-- A byte 10xxxxxx.
abbrev pub continues : ℕ → Bool
continues b = leb 0x80 b && leb b 0xbf

abbrev pub two : ℕ → ℕ → ℕ
two a b = (a - 0xc0) * 2 ^ 6 + (b - 0x80)

abbrev pub three : ℕ → ℕ → ℕ → ℕ
three a b c = (a - 0xe0) * 2 ^ 12 + (b - 0x80) * 2 ^ 6 + (c - 0x80)

abbrev pub four : ℕ → ℕ → ℕ → ℕ → ℕ
four a b c d = (a - 0xf0) * 2 ^ 18 + (b - 0x80) * 2 ^ 12 + (c - 0x80) * 2 ^ 6 + (d - 0x80)

-- A scalar of three bytes: none that two would encode, and no surrogate.
abbrev pub is_three : ℕ → Bool
is_three s = leb 0x800 s && (ltb s 0xd800 || ltb 0xdfff s)

abbrev pub is_four : ℕ → Bool
is_four s = leb 0x10000 s && leb s 0x10ffff

abbrev pub and_then : ℕ → Option Text → Option Text
and_then s none = none
and_then s (some rest) = some (s ∷ rest)

unfoldable pub from_utf8 : Bytes → Option Text
from_utf8 [] = some []
from_utf8 (a ∷ []) = if ltb a 0x80 then some (a ∷ []) else none
from_utf8 (a ∷ b ∷ []) =
    let after_one = from_utf8 (b ∷ []) in
    if ltb a 0x80
    then and_then a after_one
    else if leb 0xc2 a && leb a 0xdf && continues b
    then some (two a b ∷ [])
    else none
from_utf8 (a ∷ b ∷ c ∷ []) =
    let after_one = from_utf8 (b ∷ c ∷ []) in
    let after_two = from_utf8 (c ∷ []) in
    if ltb a 0x80
    then and_then a after_one
    else if leb 0xc2 a && leb a 0xdf && continues b
    then and_then (two a b) after_two
    else if leb 0xe0 a && leb a 0xef && continues b && continues c && is_three (three a b c)
    then some (three a b c ∷ [])
    else none
from_utf8 (a ∷ b ∷ c ∷ d ∷ rest) =
    let after_one = from_utf8 (b ∷ c ∷ d ∷ rest) in
    let after_two = from_utf8 (c ∷ d ∷ rest) in
    let after_three = from_utf8 (d ∷ rest) in
    let after_four = from_utf8 rest in
    if ltb a 0x80
    then and_then a after_one
    else if leb 0xc2 a && leb a 0xdf && continues b
    then and_then (two a b) after_two
    else if leb 0xe0 a && leb a 0xef && continues b && continues c && is_three (three a b c)
    then and_then (three a b c) after_three
    else if leb 0xf0 a
        && leb a 0xf4
        && continues b
        && continues c
        && continues d
        && is_four (four a b c d)
    then and_then (four a b c d) after_four
    else none

-- The bytes of a scalar value, and of a text: `char::len_utf8` and `str::len`.
abbrev pub char_len : ℕ → ℕ
char_len c = if ltb c 0x80 then 1 else if ltb c 0x800 then 2 else if ltb c 0x10000 then 3 else 4

abbrev pub byte_len : Text → ℕ
byte_len [] = 0
byte_len (c ∷ s) = char_len c + byte_len s
