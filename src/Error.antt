-- ===== src/Error.antt =====
-- error_define/error_struct.h: the error numbers, as patterns of an int32_t, and their messages.
use Prim.Native.String.{String}
use new_rpc.Base.{ℕ, ◌-◌, ◌^◌, List, [], ◌∷◌, if◌then◌else◌, ◌==◌}

-- The entries of `__DEF_ERROR__`.
pub data Error : Type 0 where
  rpc_timeout has_been_stopped function_not_reflected : Error

-- An int32_t -n is the pattern 2 ^ 32 - n.
unfoldable pub error_no : Error → ℕ
error_no rpc_timeout = 2 ^ 32 - 1001
error_no has_been_stopped = 2 ^ 32 - 1002
error_no function_not_reflected = 2 ^ 32 - 1003

-- `Error::ERR_MAP_` after `Error::init`.
unfoldable pub err_map : List (ℕ × String)
unfolding error_no
err_map =
    (error_no rpc_timeout, "rpc response not returned at specified time span.")
    ∷ (error_no has_been_stopped, "module has been stopped.")
    ∷ (error_no function_not_reflected, "deserialize meet not reflected function.")
    ∷ []

unfoldable pub find_message : ℕ → List (ℕ × String) → String
find_message k [] = "unknown error"
find_message k ((j, s) ∷ m) = if j == k then s else find_message k m

-- `Error::msg`.
unfoldable pub msg : ℕ → String
unfolding find_message err_map
msg k = find_message k err_map
