-- ===== src/Text/Split.antt =====
-- `split("\r\n")`, `split_once` of a character, `ends_with` and `String::from_utf8`.
use desktop_mdm.Prelude.{
  zero, suc, ℕ, ◌+◌, ◌-◌, ◌*◌, Bool, true, false, ◌&&◌, Option, none, some, List, [], ◌∷◌, reverse,
  leb, if◌then◌else◌, ◌==◌, ℕ_eq, suc, length, map,
}
use desktop_mdm.Text.{Text, starts_with}

-- Puts a character before the first piece.
unfoldable pub push_first : ℕ → List Text → List Text
push_first c [] = (c ∷ []) ∷ []
push_first c (first ∷ rest) = (c ∷ first) ∷ rest

-- The pieces between the line ends, at least one.
unfoldable pub split_crlf : Text → List Text
unfolding push_first
split_crlf [] = [] ∷ []
split_crlf (c ∷ []) = (c ∷ []) ∷ []
split_crlf (c ∷ d ∷ s) = elim (c == 13 && d == 10) [
  | true ↦ [] ∷ split_crlf s
  | false ↦ push_first c (split_crlf (d ∷ s))
]

-- The pieces between line feeds; nothing follows the last one.
unfoldable pub split_lf : Text → List Text
unfolding push_first
split_lf [] = []
split_lf (c ∷ s) = let rest = split_lf s in if c == 10 then [] ∷ rest else push_first c rest

unfoldable pub strip_cr : Text → Text
strip_cr [] = []
strip_cr (c ∷ []) = if c == 13 then [] else c ∷ []
strip_cr (c ∷ d ∷ s) = c ∷ strip_cr (d ∷ s)

-- `str::lines`.
unfoldable pub lines : Text → List Text
unfolding split_lf strip_cr
lines s = map strip_cr (split_lf s)

unfoldable pub split_once : ℕ → Text → Option (Text × Text)
split_once separator [] = none
split_once separator (c ∷ s) =
    let rest = split_once separator s in
    if c == separator
    then some ([], s)
    else elim rest [ none ↦ none | some (before, after) ↦ some (c ∷ before, after) ]

unfoldable pub ends_with : List ℕ → List ℕ → Bool
ends_with suffix bytes = starts_with (reverse suffix) (reverse bytes)

unfoldable pub is_between : ℕ → ℕ → ℕ → Bool
is_between low high b = leb low b && leb b high

unfoldable pub is_continuation : ℕ → Bool
unfolding is_between
is_continuation b = is_between 0x80 0xbf b

-- Whether a second byte may follow this lead byte of three bytes: no shorter form and no surrogate.
unfoldable pub is_second_of_three : ℕ → ℕ → Bool
unfolding is_between is_continuation
is_second_of_three lead b =
    if lead == 0xe0
    then is_between 0xa0 0xbf b
    else if lead == 0xed
    then is_between 0x80 0x9f b
    else is_continuation b

unfoldable pub is_second_of_four : ℕ → ℕ → Bool
unfolding is_between is_continuation
is_second_of_four lead b =
    if lead == 0xf0
    then is_between 0x90 0xbf b
    else if lead == 0xf4
    then is_between 0x80 0x8f b
    else is_continuation b

-- The first scalar value of bytes that are not empty, and what follows it.
unfoldable pub next_char : List ℕ → Option (ℕ × List ℕ)
unfolding is_between is_continuation is_second_of_three is_second_of_four
next_char [] = none
next_char (a ∷ []) = if leb a 0x7f then some (a, []) else none
next_char (a ∷ b ∷ []) =
    if leb a 0x7f
    then some (a, b ∷ [])
    else if is_between 0xc2 0xdf a && is_continuation b
    then some ((a - 0xc0) * 64 + (b - 0x80), [])
    else none
next_char (a ∷ b ∷ c ∷ []) =
    if leb a 0x7f
    then some (a, b ∷ c ∷ [])
    else if is_between 0xc2 0xdf a && is_continuation b
    then some ((a - 0xc0) * 64 + (b - 0x80), c ∷ [])
    else if is_between 0xe0 0xef a && is_second_of_three a b && is_continuation c
    then some ((a - 0xe0) * 4096 + (b - 0x80) * 64 + (c - 0x80), [])
    else none
next_char (a ∷ b ∷ c ∷ d ∷ r) =
    if leb a 0x7f
    then some (a, b ∷ c ∷ d ∷ r)
    else if is_between 0xc2 0xdf a && is_continuation b
    then some ((a - 0xc0) * 64 + (b - 0x80), c ∷ d ∷ r)
    else if is_between 0xe0 0xef a && is_second_of_three a b && is_continuation c
    then some ((a - 0xe0) * 4096 + (b - 0x80) * 64 + (c - 0x80), d ∷ r)
    else if is_between 0xf0 0xf4 a
        && is_second_of_four a b
        && is_continuation c
        && is_continuation d
    then some ((a - 0xf0) * 262144 + (b - 0x80) * 4096 + (c - 0x80) * 64 + (d - 0x80), r)
    else none

-- Every character takes a byte, so the number of bytes is fuel enough.
unfoldable pub decode_chars : ℕ → List ℕ → Option Text
unfolding next_char
decode_chars fuel [] = some []
decode_chars zero (a ∷ r) = none
decode_chars (suc fuel) (a ∷ r) = elim (next_char (a ∷ r)) [
  | none ↦ none
  | some (c, rest) ↦ elim (decode_chars fuel rest) [ none ↦ none | some s ↦ some (c ∷ s) ]
]

unfoldable pub from_utf8 : List ℕ → Option Text
unfolding decode_chars
from_utf8 bytes = decode_chars (length bytes) bytes
