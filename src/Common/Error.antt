-- ===== src/Common/Error.antt =====
-- `Error` and `Result` of crates/common/src/error.rs.
use yacht_sql.Prelude.{◌++◌, ◌≡◌, refl, ◌⊎◌, inl, inr}
use yacht_sql.Prelude.Text.{Text, codes}

-- The constructors are also the functions `Error::parse_error` and its like.
pub data Error : Type 0 where
  parse_error invalid_query raised_exception table_not_found function_not_found : Text → Error
  column_not_found : Text → Error
  type_mismatch_with : Text → Text → Error
  schema_mismatch unsupported internal : Text → Error
  division_by_zero overflow : Error

-- `Error::type_mismatch` puts its message in both places.
abbrev pub type_mismatch : Text → Error
type_mismatch msg = type_mismatch_with msg msg

-- `Result<T>` of this crate, whose errors are those above.
pub data Result {ℓ} (T : Type ℓ) : Type ℓ where
  err : Error → Result T
  ok : T → Result T

-- `result?`, and the rest of the function as what takes the value.
infixl 5 ◌>>=◌
abbrev pub ◌>>=◌ {ℓ κ} : {T : Type ℓ} {U : Type κ} → Result T → (T → Result U) → Result U
(err e) >>= rest = err e
(ok value) >>= rest = rest value

-- To split on a computed result and keep the equation.
pub Result-cases {ℓ} :
    {T : Type ℓ} (result : Result T)
    → ((value : T) × (result ≡ ok value)) ⊎ ((e : Error) × (result ≡ err e))
Result-cases (err e) = inr (e, refl)
Result-cases (ok value) = inl (value, refl)

-- The parts of a chain that succeeds.
pub >>=-eq-ok {ℓ κ} :
    {T : Type ℓ} {U : Type κ} (m : Result T) (rest : T → Result U) {b : U}
    → (m >>= rest) ≡ ok b
    → (a : T) × (m ≡ ok a) × (rest a ≡ ok b)
>>=-eq-ok (ok a) rest h = (a, refl, h)
>>=-eq-ok (err e) rest h = cc

-- `impl Display for Error`.
unfoldable pub display : Error → Text
display (parse_error msg) = codes "Parse error: " ++ msg
display (invalid_query msg) = codes "Invalid query: " ++ msg
display (raised_exception msg) = msg
display (table_not_found name) = codes "Table not found: " ++ name
display (function_not_found name) = codes "Function not found: " ++ name
display (column_not_found name) = codes "Column not found: " ++ name
display (type_mismatch_with expected actual) =
    codes "Type mismatch: expected " ++ (expected ++ (codes ", got " ++ actual))
display (schema_mismatch msg) = codes "Schema mismatch: " ++ msg
display (unsupported msg) = codes "Unsupported feature: " ++ msg
display division_by_zero = codes "Division by zero"
display overflow = codes "Numeric overflow"
display (internal msg) = codes "Internal error: " ++ msg
