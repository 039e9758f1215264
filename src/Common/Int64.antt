-- ===== src/Common/Int64.antt =====
-- i64 as its 64-bit pattern, with the parsing and printing of the standard library.
use Prim.Native.Nat.{ℕ, zero, suc, ◌+◌, ◌-◌, ◌*◌, ◌/◌, ◌%◌, ◌^◌}
use yacht_sql.Prelude.{◌≡◌, refl, ◌&&◌, [], ◌∷◌, Option, none, some, ltb, leb, ◌==◌, if◌then◌else◌}
use yacht_sql.Prelude.Text.{Text, codes}

-- The digits behind the sign, most significant first.
unfoldable pub parse_digits : ℕ → Text → Option ℕ
parse_digits n [] = some n
parse_digits n (c ∷ s) =
    let rest = parse_digits (n * 10 + (c - b'0')) s in
    if leb b'0' c && leb c b'9' then rest else none

abbrev pub below : ℕ → Option ℕ → Option ℕ
below limit none = none
below limit (some n) = if leb n limit then some n else none

-- The bit pattern of -n.
abbrev pub negate : ℕ → ℕ
negate n = (2 ^ 64 - n) % 2 ^ 64

abbrev pub map_negate : Option ℕ → Option ℕ
map_negate none = none
map_negate (some n) = some (negate n)

-- Digits, of which there must be one.
unfoldable pub parse_magnitude : ℕ → Text → Option ℕ
unfolding parse_digits
parse_magnitude limit [] = none
parse_magnitude limit (c ∷ s) = below limit (parse_digits 0 (c ∷ s))

-- s.parse::<i64>().ok()
unfoldable pub parse_i64 : Text → Option ℕ
unfolding parse_magnitude
parse_i64 [] = none
parse_i64 (c ∷ s) =
    if c == b'-'
    then map_negate (parse_magnitude (2 ^ 63) s)
    else if c == b'+'
    then parse_magnitude (2 ^ 63 - 1) s
    else parse_magnitude (2 ^ 63 - 1) (c ∷ s)

-- The decimal digits of n in front of a text. Twenty digits are enough for 64 bits.
unfoldable pub show_digits : ℕ → ℕ → Text → Text
show_digits zero n rest = rest
show_digits (suc fuel) n rest =
    let s = (b'0' + n % 10) ∷ rest in
    let more = show_digits fuel (n / 10) s in if n / 10 == 0 then s else more

-- v.to_string()
unfoldable pub show_i64 : ℕ → Text
unfolding show_digits
show_i64 v = if ltb v (2 ^ 63) then show_digits 20 v [] else b'-' ∷ show_digits 20 (2 ^ 64 - v) []

-- The same for an i32 pattern.
unfoldable pub show_i32 : ℕ → Text
unfolding show_digits
show_i32 v = if ltb v (2 ^ 31) then show_digits 10 v [] else b'-' ∷ show_digits 10 (2 ^ 32 - v) []

parse_examples :
    (parse_i64 (codes "-9223372036854775808") ≡ some (2 ^ 63))
    × (parse_i64 (codes "9223372036854775808") ≡ none)
    × (parse_i64 (codes "+12") ≡ some 12)
    × (parse_i64 (codes "-") ≡ none)
    × (parse_i64 (codes "1 ") ≡ none)
unfolding parse_i64
parse_examples = (refl, refl, refl, refl, refl)

show_examples : (show_i64 (2 ^ 63) ≡ codes "-9223372036854775808") × (show_i64 120 ≡ codes "120")
unfolding show_i64
show_examples = (refl, refl)
