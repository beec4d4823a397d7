-- ===== src/Regex/Classes.antt =====
-- The character classes of the program's patterns.
use llm_agent_control_plane.Base.{◌-◌, Char, code, Bool, true, ◌&&◌, ◌||◌, not, leb, eqb, is_space}

unfoldable pub same_char : Char → Char → Bool
same_char c d = eqb (code c) (code d)

-- Equality under IGNORECASE with a letter in lower case: its capital too, and the four letters
-- beyond ASCII that the Unicode rules add (U+0130 and U+0131 to i, U+017F to s, U+212A to k).
unfoldable pub same_char_ci : Char → Char → Bool
same_char_ci c d =
    let n = code c in
    let m = code d in
    eqb n m
    || (leb b'a' m && leb m b'z' && eqb n (m - 32))
    || (eqb m b'i' && (eqb n 0x130 || eqb n 0x131))
    || (eqb m b's' && eqb n 0x17f)
    || (eqb m b'k' && eqb n 0x212a)

unfoldable pub is_alnum : Char → Bool
is_alnum c =
    let n = code c in
    (leb b'a' n && leb n b'z') || (leb b'A' n && leb n b'Z') || (leb b'0' n && leb n b'9')

-- `[a-zA-Z0-9_-]`
unfoldable pub is_token_char : Char → Bool
unfolding is_alnum
is_token_char c = is_alnum c || eqb (code c) b'_' || eqb (code c) b'-'

-- `[a-zA-Z0-9_-]` under IGNORECASE
unfoldable pub is_token_char_ci : Char → Bool
unfolding is_token_char
is_token_char_ci c =
    is_token_char c
    || eqb (code c) 0x130
    || eqb (code c) 0x131
    || eqb (code c) 0x17f
    || eqb (code c) 0x212a

-- `[A-Za-z0-9+/]`, `[^A-Za-z0-9+/]`, `[^A-Za-z0-9+/=]`
unfoldable pub is_base64_char : Char → Bool
unfolding is_alnum
is_base64_char c = is_alnum c || eqb (code c) b'+' || eqb (code c) b'/'

unfoldable pub is_not_base64 : Char → Bool
unfolding is_base64_char
is_not_base64 c = not (is_base64_char c)

unfoldable pub is_not_base64_or_pad : Char → Bool
unfolding is_base64_char
is_not_base64_or_pad c = not (is_base64_char c || eqb (code c) b'=')

-- `\S`, `[\s\S]`, `[_-]`, `[:=]`, `=`
unfoldable pub is_not_space : Char → Bool
unfolding is_space
is_not_space c = not (is_space c)

unfoldable pub any_char : Char → Bool
any_char c = true

unfoldable pub is_dash : Char → Bool
is_dash c = eqb (code c) b'_' || eqb (code c) b'-'

unfoldable pub is_assign : Char → Bool
is_assign c = eqb (code c) b':' || eqb (code c) b'='

unfoldable pub is_digit : Char → Bool
is_digit c = leb b'0' (code c) && leb (code c) b'9'
