-- ===== src/Pattern/Printf.antt =====
-- sprintf of one int, as the rule `expr` of jab_simul/namespace_pars.y calls it: the format is `%`
-- and the text behind the colon. Read here: the flag 0, a width, and the conversions d, i and u.
use jab_simul.Shared.{
  ℕ, suc, ◌+◌, ◌-◌, ◌*◌, ◌^◌, Bool, true, false, ◌&&◌, ◌||◌, Option, none, some, [], ◌∷◌, ◌++◌,
  Text, length, replicate, leb, ◌==◌, if◌then◌else◌,
}
use jab_simul.Shared.Int.{ℤ, pos, negsuc}
use jab_simul.Ids.{print_unsigned}

abbrev pub is_digit : ℕ → Bool
is_digit c = leb b'0' c && leb c b'9'

-- A width and what follows it.
unfoldable pub read_width : ℕ → Text → ℕ × Text
read_width n [] = (n, [])
read_width n (c ∷ s) =
    let more = read_width (n * 10 + (c - 48)) s in if is_digit c then more else (n, c ∷ s)

unfoldable pub has_percent : Text → Bool
has_percent [] = false
has_percent (c ∷ s) = c == b'%' || has_percent s

-- A sign and digits, filled up to the width: zeros go behind the sign, spaces before it.
unfoldable pub padded : Bool → ℕ → Text → Text → Text
padded zeros width sign digits =
    let missing = width - length (sign ++ digits) in
    if zeros
    then sign ++ replicate missing b'0' ++ digits
    else replicate missing b' ' ++ sign ++ digits

-- `%d` and `%i` print the int, `%u` its bits as an unsigned int.
unfoldable pub signed : Bool → ℕ → ℤ → Text
unfolding padded
signed zeros width (pos n) = padded zeros width [] (print_unsigned n)
signed zeros width (negsuc n) = padded zeros width (b'-' ∷ []) (print_unsigned (suc n))

unfoldable pub unsigned : Bool → ℕ → ℤ → Text
unfolding padded
unsigned zeros width (pos n) = padded zeros width [] (print_unsigned n)
unsigned zeros width (negsuc n) = padded zeros width [] (print_unsigned (2 ^ 32 - suc n))

unfoldable pub convert : Bool → ℕ → Text → ℤ → Option Text
unfolding has_percent signed unsigned
convert zeros width [] v = none
convert zeros width (c ∷ rest) v =
    if has_percent rest
    then none
    else if c == b'u'
    then some (unsigned zeros width v ++ rest)
    else if c == b'd' || c == b'i'
    then some (signed zeros width v ++ rest)
    else none

-- Behind the flag, if it is there.
unfoldable pub read_flag : Text → Bool × Text
read_flag [] = (false, [])
read_flag (c ∷ s) = if c == b'0' then (true, s) else (false, c ∷ s)

unfoldable pub printf_int : Text → ℤ → Option Text
unfolding read_flag read_width convert
printf_int fmt v =
    let (zeros, sized) = read_flag fmt in
    let (width, rest) = read_width 0 sized in convert zeros width rest v
