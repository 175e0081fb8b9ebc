-- ===== src/Http/Utf8.antt =====
-- The parts of Rust's `str` that webtor/src/http.rs uses on the size line of a chunk. A character is
-- its code point.
use webtor_rs.Base.{
  ℕ, ◌+◌, ◌-◌, ◌*◌, ◌^◌, Bool, ◌&&◌, ◌||◌, List, [], ◌∷◌, Option, none, some, leb, ltb, ◌==◌,
  if◌then◌else◌,
}
use mathlib.Core.List.{reverse}

-- The first number that is no `usize` in a browser.
abbrev pub usize_limit : ℕ
usize_limit = 2 ^ 32

abbrev between : ℕ → ℕ → ℕ → Bool
between lo hi b = leb lo b && leb b hi

abbrev consed : ℕ → Option (List ℕ) → Option (List ℕ)
consed c none = none
consed c (some cs) = some (c ∷ cs)

-- The second byte after a lead byte of three or four, which has a narrower range for some.
abbrev second : ℕ → ℕ → Bool
second a b =
    if a == 0xe0
    then between 0xa0 0xbf b
    else if a == 0xed
    then between 0x80 0x9f b
    else if a == 0xf0
    then between 0x90 0xbf b
    else if a == 0xf4
    then between 0x80 0x8f b
    else between 0x80 0xbf b

-- `std::str::from_utf8`
unfoldable pub from_utf8 : List ℕ → Option (List ℕ)
from_utf8 [] = some []
from_utf8 (a ∷ []) = if ltb a 0x80 then some (a ∷ []) else none
from_utf8 (a ∷ b ∷ []) =
    let rest = from_utf8 (b ∷ []) in
    if ltb a 0x80
    then consed a rest
    else if between 0xc2 0xdf a && between 0x80 0xbf b
    then some (((a - 0xc0) * 64 + (b - 0x80)) ∷ [])
    else none
from_utf8 (a ∷ b ∷ c ∷ []) =
    let rest = from_utf8 (b ∷ c ∷ []) in
    let rest' = from_utf8 (c ∷ []) in
    if ltb a 0x80
    then consed a rest
    else if between 0xc2 0xdf a && between 0x80 0xbf b
    then consed ((a - 0xc0) * 64 + (b - 0x80)) rest'
    else if between 0xe0 0xef a && (second a b && between 0x80 0xbf c)
    then some (((a - 0xe0) * 4096 + (b - 0x80) * 64 + (c - 0x80)) ∷ [])
    else none
from_utf8 (a ∷ b ∷ c ∷ d ∷ bytes) =
    let rest = from_utf8 (b ∷ c ∷ d ∷ bytes) in
    let rest' = from_utf8 (c ∷ d ∷ bytes) in
    let rest'' = from_utf8 (d ∷ bytes) in
    let rest''' = from_utf8 bytes in
    if ltb a 0x80
    then consed a rest
    else if between 0xc2 0xdf a && between 0x80 0xbf b
    then consed ((a - 0xc0) * 64 + (b - 0x80)) rest'
    else if between 0xe0 0xef a && (second a b && between 0x80 0xbf c)
    then consed ((a - 0xe0) * 4096 + (b - 0x80) * 64 + (c - 0x80)) rest''
    else if between 0xf0 0xf4 a && (second a b && (between 0x80 0xbf c && between 0x80 0xbf d))
    then consed ((a - 0xf0) * 262144 + (b - 0x80) * 4096 + (c - 0x80) * 64 + (d - 0x80)) rest'''
    else none

-- `char::is_whitespace`
abbrev is_whitespace : ℕ → Bool
is_whitespace c =
    between 0x9 0xd c
    || (c == 0x20)
    || (c == 0x85)
    || (c == 0xa0)
    || (c == 0x1680)
    || between 0x2000 0x200a c
    || (c == 0x2028)
    || (c == 0x2029)
    || (c == 0x202f)
    || (c == 0x205f)
    || (c == 0x3000)

unfoldable pub trim_start : List ℕ → List ℕ
trim_start [] = []
trim_start (c ∷ cs) = if is_whitespace c then trim_start cs else c ∷ cs

-- `str::trim`
unfoldable pub trim : List ℕ → List ℕ
trim cs = reverse (trim_start (reverse (trim_start cs)))

-- `s.split(';').next()`
unfoldable pub before_semicolon : List ℕ → List ℕ
before_semicolon [] = []
before_semicolon (c ∷ cs) = if c == 59 then [] else c ∷ before_semicolon cs

abbrev pub hex_digit : ℕ → Option ℕ
hex_digit c =
    if between 48 57 c
    then some (c - 48)
    else if between 97 102 c
    then some (c - 87)
    else if between 65 70 c
    then some (c - 55)
    else none

-- The digits after `n`; a value that is no usize is an error.
unfoldable pub hex_digits : ℕ → List ℕ → Option ℕ
hex_digits n [] = some n
hex_digits n (c ∷ cs) = elim (hex_digit c) [
  | none ↦ none
  | some d ↦
      let rest = hex_digits (n * 16 + d) cs in if ltb (n * 16 + d) usize_limit then rest else none
]

-- `usize::from_str_radix(s, 16)`: a sign `+`, then a digit at least.
unfoldable pub from_str_radix : List ℕ → Option ℕ
from_str_radix [] = none
from_str_radix (c ∷ []) = hex_digits 0 (c ∷ [])
from_str_radix (c ∷ d ∷ cs) = if c == 43 then hex_digits 0 (d ∷ cs) else hex_digits 0 (c ∷ d ∷ cs)
