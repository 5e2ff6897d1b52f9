-- ===== src/Sql/Literal.antt =====
-- src/sql/function.cpp: `GetCorrectString`, which takes the quotes off a string literal and replaces the
-- escapes inside.
pub mod Roundtrip
use mosito.Base.{
  ℕ, zero, suc, ◌+◌, ◌-◌, List, [], ◌∷◌, if◌then◌else◌, ◌==◌, ltb, not, ◌&&◌, length, get_or, Bool,
}

-- Is there an escape at `i`, and the character that it stands for? An escaped quote must not be the
-- closing one.
unfoldable pub escape : List ℕ → ℕ → ℕ
escape src i =
    if get_or src (i + 1) 0 == b'n'
    then 10
    else (if get_or src (i + 1) 0 == b't'
        then 9
        else (if get_or src (i + 1) 0 == 39 && not (i + 1 == length src - 1)
            then 39
            else (if get_or src (i + 1) 0 == 34 && not (i + 1 == length src - 1) then 34 else 0)))

-- The loop from position `i` on; the fuel is the number of characters that are left.
unfoldable pub correct_from : ℕ → List ℕ → ℕ → List ℕ
unfolding escape
correct_from zero src i = []
correct_from (suc fuel) src i =
    let skip = escape src i ∷ correct_from fuel src (i + 2) in
    let copy = get_or src i 0 ∷ correct_from fuel src (i + 1) in
    if ltb i (length src - 1)
    then (if get_or src i 0 == 92 then (if escape src i == 0 then copy else skip) else copy)
    else []

-- `strlen(src) - 1` wraps at the empty text; a literal has its two quotes. The list is the text up to
-- its end, so that no character in it is 0.
unfoldable pub get_correct_string : List ℕ → List ℕ
unfolding correct_from
get_correct_string src = correct_from (length src) src 1
