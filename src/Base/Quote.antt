-- ===== src/Base/Quote.antt =====
-- strconv.Quote. The table of printable runes (strconv.IsPrint) is a parameter.
use Prim.Native.Nat.{◌-◌}
use sub2api_account_schedule.Base.{
  ℕ, ◌+◌, ◌/◌, ◌%◌, Bool, [], ◌∷◌, ◌++◌, Text, codes, ltb, leb, ◌==◌, ◌&&◌, ◌||◌, if◌then◌else◌,
  ◌≡◌, refl,
}

hex_digit : ℕ → ℕ
hex_digit d = if ltb d 10 then b'0' + d else b'a' + (d - 10)

hex2 : ℕ → Text → Text
unfolding hex_digit
hex2 n rest = hex_digit (n / 16 % 16) ∷ hex_digit (n % 16) ∷ rest

hex4 : ℕ → Text → Text
unfolding hex2
hex4 n rest = hex2 (n / 256) (hex2 n rest)

-- A rune that is not printable and not a quote or a backslash, escaped in front of a text.
escape_rune : ℕ → Text → Text
unfolding hex4
escape_rune c rest =
    if c == 7
    then codes "\\a" ++ rest
    else if c == 8
    then codes "\\b" ++ rest
    else if c == 12
    then codes "\\f" ++ rest
    else if c == 10
    then codes "\\n" ++ rest
    else if c == 13
    then codes "\\r" ++ rest
    else if c == 9
    then codes "\\t" ++ rest
    else if c == 11
    then codes "\\v" ++ rest
    else if ltb c 32 || c == 127
    then codes "\\x" ++ hex2 c rest
    else if ltb c 0x10000
    then codes "\\u" ++ hex4 c rest
    else codes "\\U" ++ hex4 (c / 0x10000) (hex4 c rest)

quote_body : (ℕ → Bool) → Text → Text
unfolding escape_rune
quote_body is_print [] = b'"' ∷ []
quote_body is_print (c ∷ s) =
    let rest = quote_body is_print s in
    if c == b'"' || c == b'\\'
    then b'\\' ∷ c ∷ rest
    else if is_print c
    then c ∷ rest
    else escape_rune c rest

unfoldable pub quote : (ℕ → Bool) → Text → Text
unfolding quote_body
quote is_print s = b'"' ∷ quote_body is_print s

-- The printable runes of ASCII.
abbrev pub is_print_ascii : ℕ → Bool
is_print_ascii c = leb 32 c && ltb c 127

quote_run : quote is_print_ascii (codes "a\"b") ≡ b'"' ∷ codes "a\\\"b\""
unfolding quote
quote_run = refl
