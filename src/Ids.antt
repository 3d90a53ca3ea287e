-- ===== src/Ids.antt =====
-- Identifiers of requests: makeJCOM_ID of jab_simul/jab_simul-user.c.
pub mod Range
use jab_simul.Shared.{
  ℕ, zero, suc, ◌+◌, ◌/◌, ◌%◌, List, [], ◌∷◌, ◌++◌, Text, codes, take, ltb, if◌then◌else◌,
}

-- The digits of a number, for snprintf's `%u`. An `unsigned int` has at most ten.
unfoldable pub digits_of : ℕ → ℕ → Text
digits_of zero n = []
digits_of (suc fuel) n =
    let more = digits_of fuel (n / 10) in
    if ltb n 10 then (48 + n) ∷ [] else more ++ (48 + n % 10) ∷ []

unfoldable pub print_unsigned : ℕ → Text
print_unsigned n = digits_of 10 n

-- snprintf into a buffer of `size` bytes, above 0: one is kept for the final 0.
abbrev pub fit : ℕ → Text → Text
fit zero t = []
fit (suc size) t = take size t

-- The callers' buffers have ten bytes.
unfoldable pub make_jcom_id : ℕ → Text
make_jcom_id tmpid = fit 10 (codes "JCOM_" ++ print_unsigned tmpid)
