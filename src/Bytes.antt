-- ===== src/Bytes.antt =====
-- Rust's `String` and `&str` as their UTF-8 bytes, which is what `len`, `==`, `find` and the ASCII
-- operations of the program work on.
use Prim.Native.Char.{code}
use Prim.Native.String.{String}
use eggreplay.Prelude.{
  ℕ, zero, suc, ◌+◌, ◌≡◌, refl, Bool, false, ◌&&◌, ◌||◌, List, [], ◌∷◌, ◌++◌, map, Option, none,
  some, arith, ltb, leb, ◌==◌, nat_eq, list_eq, if◌then◌else◌, true, is_empty, option_eq, pair_eq,
  ◌%◌, ◌/◌, all, not, ◌*◌, ◌-◌, ◌^◌,
}

abbrev pub Bytes : Type 0
Bytes = List ℕ

-- A literal of the source. All literals used are ASCII, so their code points are their bytes.
abbrev pub codes : String → Bytes
codes String.[] = []
codes (String.◌∷◌ c s) = code c ∷ codes s

abbrev pub is_digit : ℕ → Bool
is_digit c = leb b'0' c && leb c b'9'

abbrev pub is_upper : ℕ → Bool
is_upper c = leb b'A' c && leb c b'Z'

-- `is_ascii_alphanumeric`
abbrev pub is_alphanumeric : ℕ → Bool
is_alphanumeric c = is_digit c || is_upper c || (leb b'a' c && leb c b'z')

unfoldable pub to_lower : ℕ → ℕ
to_lower c = if is_upper c then c + 32 else c

-- `to_ascii_lowercase`
unfoldable pub lowercase : Bytes → Bytes
unfolding to_lower
lowercase = map to_lower

-- `eq_ignore_ascii_case`
unfoldable pub eq_ignore_case : Bytes → Bytes → Bool
unfolding lowercase
eq_ignore_case a b = lowercase a == lowercase b

to_lower_idem : (c : ℕ) → to_lower (to_lower c) ≡ to_lower c
unfolding to_lower
to_lower_idem c = ground arith

pub lowercase_idem : (s : Bytes) → lowercase (lowercase s) ≡ lowercase s
unfolding lowercase
lowercase_idem [] = refl
lowercase_idem (c ∷ s) = cc (to_lower_idem c, lowercase_idem s)

-- `strip_prefix`
unfoldable pub strip_prefix : Bytes → Bytes → Option Bytes
strip_prefix [] s = some s
strip_prefix (c ∷ p) [] = none
strip_prefix (c ∷ p) (d ∷ s) = let rest = strip_prefix p s in if c == d then rest else none

pub strip_prefix-append : (p s : Bytes) → strip_prefix p (p ++ s) ≡ some s
unfolding strip_prefix
strip_prefix-append [] s = refl
strip_prefix-append (c ∷ p) s = ground (arith, strip_prefix-append p s)

pub strip_prefix-eq-some : (p s r : Bytes) → strip_prefix p s ≡ some r → s ≡ p ++ r
unfolding strip_prefix
strip_prefix-eq-some [] s r h = ground arith
strip_prefix-eq-some (c ∷ p) [] r h = cc
strip_prefix-eq-some (c ∷ p) (d ∷ s) r h = ground (arith, strip_prefix-eq-some p s r)

-- `starts_with('/')` and the like
unfoldable pub starts_with_byte : ℕ → Bytes → Bool
starts_with_byte b [] = false
starts_with_byte b (c ∷ s) = c == b

-- `contains('=')` and the like, for an ASCII character
unfoldable pub contains_byte : ℕ → Bytes → Bool
contains_byte b [] = false
contains_byte b (c ∷ s) = c == b || contains_byte b s

-- The white space of three bytes: U+1680, U+2000 to U+200A, U+2028, U+2029, U+202F, U+205F, U+3000.
is_wide : ℕ → Bytes → Bool
is_wide c (d ∷ e ∷ s) =
    (c == 0xe1 && d == 0x9a && e == 0x80)
    || (c == 0xe2
        && ((d == 0x80 && (leb 0x80 e && leb e 0x8a || e == 0xa8 || e == 0xa9 || e == 0xaf))
            || (d == 0x81 && e == 0x9f)))
    || (c == 0xe3 && d == 0x80 && e == 0x80)
is_wide c _ = false

-- The number of bytes of the white space character (`char::is_whitespace`) that a text begins with,
-- or zero.
white_len : Bytes → ℕ
white_len [] = 0
white_len (c ∷ s) =
    if c == b' ' || (leb 9 c && leb c 13)
    then 1
    else if c == 0xc2 && (starts_with_byte 0x85 s || starts_with_byte 0xa0 s)
    then 2
    else if is_wide c s
    then 3
    else 0

-- Drops the given number of bytes and then all leading white space.
trim_from : ℕ → Bytes → Bytes
trim_from skip [] = []
trim_from (suc skip) (c ∷ s) = trim_from skip s
trim_from zero (c ∷ s) = elim (white_len (c ∷ s)) [ zero ↦ c ∷ s | suc skip ↦ trim_from skip s ]

unfoldable pub trim_start : Bytes → Bytes
unfolding trim_from white_len is_wide starts_with_byte
trim_start = trim_from 0

unfoldable pub trim_end : Bytes → Bytes
unfolding trim_start
trim_end [] = []
trim_end (c ∷ s) = if is_empty (trim_start (c ∷ s)) then [] else c ∷ trim_end s

unfoldable pub trim : Bytes → Bytes
unfolding trim_end
trim s = trim_end (trim_start s)

-- What a leading byte announces: whether it is one, the continuation bytes due, and the range of the
-- first of them.
unfoldable pub utf8_lead : ℕ → Bool × ℕ × ℕ × ℕ
utf8_lead c =
    if ltb c 0x80
    then (true, 0, 0x80, 0xbf)
    else if ltb c 0xc2
    then (false, 0, 0x80, 0xbf)
    else if ltb c 0xe0
    then (true, 1, 0x80, 0xbf)
    else if c == 0xe0
    then (true, 2, 0xa0, 0xbf)
    else if c == 0xed
    then (true, 2, 0x80, 0x9f)
    else if ltb c 0xf0
    then (true, 2, 0x80, 0xbf)
    else if c == 0xf0
    then (true, 3, 0x90, 0xbf)
    else if ltb c 0xf4
    then (true, 3, 0x80, 0xbf)
    else if c == 0xf4
    then (true, 3, 0x80, 0x8f)
    else (false, 0, 0x80, 0xbf)

-- `std::str::from_utf8(…).is_ok()`: how many continuation bytes are due, and the range that the next
-- one has to be in.
unfoldable pub utf8_run : ℕ → ℕ → ℕ → Bytes → Bool
utf8_run zero lo hi [] = true
utf8_run (suc due) lo hi [] = false
utf8_run zero lo hi (c ∷ s) =
    let (valid, due, lo', hi') = utf8_lead c in valid && utf8_run due lo' hi' s
utf8_run (suc due) lo hi (c ∷ s) = leb lo c && leb c hi && utf8_run due 0x80 0xbf s

unfoldable pub is_utf8 : Bytes → Bool
unfolding utf8_run utf8_lead
is_utf8 = utf8_run 0 0x80 0xbf

shout : lowercase (codes "Content-Type") ≡ codes "content-type"
unfolding lowercase
shout = refl

trim_text : trim (codes " \t ok ") ≡ codes "ok"
unfolding trim
trim_text = refl

-- Decimal digits, as `to_string` and `format!` print an unsigned integer. The fuel is enough, since
-- each round divides by ten.
digits_of : ℕ → ℕ → Bytes
digits_of zero n = []
digits_of (suc fuel) n =
    let rest = digits_of fuel (n / 10) in
    if ltb n 10 then (b'0' + n) ∷ [] else rest ++ (b'0' + n % 10) ∷ []

unfoldable pub decimal : ℕ → Bytes
unfolding digits_of
decimal n = digits_of (suc n) n

decimal_text : decimal 1074 ≡ codes "1074"
unfolding decimal
decimal_text = refl

-- `rsplit_once` at an ASCII character: what stands before and after the last one.
unfoldable pub rsplit_byte : ℕ → Bytes → Option (Bytes × Bytes)
rsplit_byte b [] = none
rsplit_byte b (c ∷ s) = elim (rsplit_byte b s) [
  | some (before, after) ↦ some (c ∷ before, after)
  | none ↦ if c == b then some ([], s) else none
]

-- `split_once` at an ASCII character.
unfoldable pub split_once : ℕ → Bytes → Option (Bytes × Bytes)
split_once b [] = none
split_once b (c ∷ s) =
    let rest = split_once b s in
    if c == b
    then some ([], s)
    else elim rest [ none ↦ none | some (before, after) ↦ some (c ∷ before, after) ]

grow : ℕ → List Bytes → List Bytes
grow c [] = (c ∷ []) ∷ []
grow c (part ∷ parts) = (c ∷ part) ∷ parts

-- `split` at an ASCII character: the parts between its occurrences, one more than they are.
unfoldable pub split_byte : ℕ → Bytes → List Bytes
unfolding grow
split_byte b [] = [] ∷ []
split_byte b (c ∷ s) = let parts = split_byte b s in if c == b then [] ∷ parts else grow c parts

-- `strip_suffix` for an ASCII character.
unfoldable pub strip_suffix_byte : ℕ → Bytes → Option Bytes
strip_suffix_byte b [] = none
strip_suffix_byte b (c ∷ []) = if c == b then some [] else none
strip_suffix_byte b (c ∷ d ∷ s) = elim (strip_suffix_byte b (d ∷ s)) [
  | none ↦ none
  | some r ↦ some (c ∷ r)
]

-- `ends_with`
unfoldable pub ends_with : Bytes → Bytes → Bool
ends_with p [] = is_empty p
ends_with p (c ∷ s) = p == c ∷ s || ends_with p s

-- `contains(char::is_whitespace)`: no byte within a character looks like the start of one.
unfoldable pub contains_white : Bytes → Bool
unfolding white_len is_wide starts_with_byte
contains_white [] = false
contains_white (c ∷ s) = ltb 0 (white_len (c ∷ s)) || contains_white s

decimal_value : ℕ → Bytes → ℕ
decimal_value n [] = n
decimal_value n (c ∷ s) = decimal_value (n * 10 + (c - b'0')) s

strip_plus : Bytes → Bytes
strip_plus [] = []
strip_plus (c ∷ s) = if c == b'+' then s else c ∷ s

-- `str::parse` for an unsigned integer of the given number of bits: an optional plus sign, then at
-- least one digit, and a value in range.
unfoldable pub parse_unsigned : ℕ → Bytes → Option ℕ
unfolding decimal_value strip_plus
parse_unsigned bits s =
    let digits = strip_plus s in
    let n = decimal_value 0 digits in
    if not (is_empty digits) && all is_digit digits && ltb n (2 ^ bits) then some n else none
