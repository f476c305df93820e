-- ===== src/Vfs/PragmaText.antt =====
-- The texts of pragmas as jFileControl reads them (src/MemoryWriteAheadVFS.ts): toLowerCase before a
-- comparison, parseInt to the base 10, and the test for powers of two.
use Prim.Native.Char.{code}
use Prim.Native.String.{String, [], ◌∷◌}
use memory_write_ahead_vfs.Base.{
  ℕ, zero, suc, ◌+◌, ◌-◌, ◌*◌, ◌/◌, ◌%◌, Bool, true, false, ◌&&◌, ◌||◌, Option, none, some, ℤ, pos,
  neg, ◌==◌, leb, if◌then◌else◌,
}

-- The lower case of a code. The Kelvin sign is the one letter beyond ASCII with its lower case in ASCII.
abbrev pub lower_code : ℕ → ℕ
lower_code c = if leb 65 c && leb c 90 then c + 32 else if c == 8490 then 107 else c

-- `text.toLowerCase() === word`, for a `word` in ASCII.
unfoldable pub is_word : String → String → Bool
is_word [] [] = true
is_word [] (d ∷ word) = false
is_word (c ∷ text) [] = false
is_word (c ∷ text) (d ∷ word) = lower_code (code c) == code d && is_word text word

abbrev pub is_space : ℕ → Bool
is_space c =
    leb 9 c && leb c 13
    || (c == 32
        || (c == 160
            || (c == 5760
                || (leb 8192 c && leb c 8202
                    || (c == 8232
                        || (c == 8233
                            || (c == 8239 || (c == 8287 || (c == 12288 || c == 65279)))))))))

abbrev pub is_digit : ℕ → Bool
is_digit c = leb 48 c && leb c 57

-- The digits at the start of a text, after the number `n`; numbers are exact here.
unfoldable pub digits : ℕ → String → ℕ
digits n [] = n
digits n (c ∷ text) =
    let rest = digits (n * 10 + (code c - 48)) text in if is_digit (code c) then rest else n

abbrev pub parse_digits : String → Option ℕ
parse_digits [] = none
parse_digits (c ∷ text) = if is_digit (code c) then some (digits 0 (c ∷ text)) else none

abbrev pub as_pos : Option ℕ → Option ℤ
as_pos none = none
as_pos (some n) = some (pos n)

abbrev pub as_neg : Option ℕ → Option ℤ
as_neg none = none
as_neg (some n) = some (neg (pos n))

abbrev pub parse_signed : String → Option ℤ
parse_signed [] = none
parse_signed (c ∷ text) =
    if code c == 45
    then as_neg (parse_digits text)
    else if code c == 43
    then as_pos (parse_digits text)
    else as_pos (parse_digits (c ∷ text))

-- `parseInt(text, 10)`; NaN is none.
unfoldable pub parse_int : String → Option ℤ
unfolding digits
parse_int [] = none
parse_int (c ∷ text) =
    let rest = parse_int text in if is_space (code c) then rest else parse_signed (c ∷ text)

-- `a & b`, of the lowest `width` bits.
unfoldable pub bit_and : ℕ → ℕ → ℕ → ℕ
bit_and zero a b = 0
bit_and (suc width) a b = a % 2 * (b % 2) + 2 * bit_and width (a / 2) (b / 2)

-- The page size that a parsed number asks for, if it is accepted.
unfoldable pub accepted_page_size : ℕ → Option ℕ
unfolding bit_and
accepted_page_size parsed =
    if parsed == 1 || (leb 512 parsed && (leb parsed 32768 && bit_and 16 parsed (parsed - 1) == 0))
    then some (if parsed == 1 then 65536 else parsed)
    else none
