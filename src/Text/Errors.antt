-- ===== src/Text/Errors.antt =====
-- The formatters of error_define/error_struct.h, and the comparison of errors.
use Prim.Native.Char.{code}
use Prim.Native.String.{String}
use new_rpc.Base.{ℕ, ◌-◌, ◌^◌, Bool, List, [], ◌∷◌, ◌++◌, ltb, ◌==◌, if◌then◌else◌}
use new_rpc.Error.{msg}
use new_rpc.Serialization.Types.{Expected, value, unexpected}
use new_rpc.Text.Number.{ℤ, pos, negsuc, integer_text}

-- The bytes of a text in ASCII.
abbrev pub codes : String → List ℕ
codes String.[] = []
codes (String.◌∷◌ c s) = code c ∷ codes s

-- `Error::operator==`
unfoldable pub error_eq : (error_no rhs : ℕ) → Bool
error_eq error_no rhs = error_no == rhs

-- The number that a pattern of an int32_t stands for.
abbrev pub int32 : ℕ → ℤ
int32 n = if ltb n (2 ^ 31) then pos n else negsuc (2 ^ 32 - 1 - n)

-- `std::formatter<Error>::format`: `error:{}, message:{}`.
unfoldable pub error_text : (error_no : ℕ) → List ℕ
unfolding msg integer_text
error_text error_no =
    codes "error:"
    ++ (integer_text (int32 error_no) ++ (codes ", message:" ++ codes (msg error_no)))

-- `std::formatter<Expected<T>>::format`; `f` is the formatter of `T`.
unfoldable pub expected_text {ℓ} : {A : Type ℓ} → (A → List ℕ) → Expected A → List ℕ
unfolding error_text
expected_text f (value x) = f x
expected_text f (unexpected error_no) = error_text error_no
