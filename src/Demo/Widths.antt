-- ===== src/Demo/Widths.antt =====
-- The sizes and widths of the arguments and results of the functions that are called from afar.
use new_rpc.Base.{ℕ, ◌^◌, ◌≤◌, ◌<◌, ◌≡◌, refl, List, [], ◌∷◌, ◌++◌, length, arith}
use new_rpc.Serialization.Memory.{ok}
use new_rpc.Serialization.Types.{reflected, Vals, Val}
use new_rpc.Serialization.Serialize.{get_serialize_size, get_serialize_sizes}
use new_rpc.Serialization.Encoding.{encode, encode_members, Fits}
use new_rpc.Serialization.Output.{IsSized, AreSized, length-sized}
use new_rpc.Serialization.Input.{IsReadable}
use new_rpc.Net.Mapper.{
  Function, example_add, example_echo, example_add_point, function_id, args_tuple, return_type,
  ResponseInfo,
}
use new_rpc.Net.Wire.{HeaderFits, request_header}
use new_rpc.Net.Response.{response_header}
use new_rpc.Demo.Functions.{Run, add_int64, call_function}
use new_rpc.Demo.RemoteCall.{newest}

pub newest-append {ℓ} : {A : Type ℓ} (xs : List A) (x : A) → newest (xs ++ (x ∷ [])) ≡ ok x
unfolding newest
newest-append [] x = refl
newest-append (y ∷ []) x = refl
newest-append (y ∷ z ∷ xs) x = newest-append (z ∷ xs) x

pub args-AreSized : (f : Function) (vs : Vals (args_tuple f)) → AreSized (args_tuple f) vs
args-AreSized example_add vs = (tt, (tt, tt))
args-AreSized example_echo vs = tt
args-AreSized example_add_point vs = ((tt, (tt, tt)), ((tt, (tt, tt)), tt))

args_counted :
    (f : Function) (vs : Vals (args_tuple f))
    → (n : ℕ) × (get_serialize_sizes (args_tuple f) vs ≡ ok n) × n ≤ 32
unfolding get_serialize_size
args_counted example_add vs = (16, refl, omega arith)
args_counted example_echo vs = (0, refl, omega arith)
args_counted example_add_point vs = (32, refl, omega arith)

-- Arguments take at most 32 bytes.
pub length-args :
    (f : Function) (vs : Vals (args_tuple f)) → length (encode_members (args_tuple f) vs) ≤ 32
unfolding get_serialize_size encode
length-args f vs =
    let (n, counted, small) = args_counted f vs in
    let same = length-sized (reflected (args_tuple f)) vs n (args-AreSized f vs) counted in
    omega (arith, same)

result_counted :
    (f : Function) (v : Val (return_type f))
    → (n : ℕ) × (get_serialize_size (return_type f) v ≡ ok n) × n ≤ 32
unfolding get_serialize_size
result_counted example_add v = (8, refl, omega arith)
result_counted example_echo v = (8, refl, omega arith)
result_counted example_add_point v = (16, refl, omega arith)

pub result-IsSized : (f : Function) (v : Val (return_type f)) → IsSized (return_type f) v
result-IsSized example_add v = tt
result-IsSized example_echo v = tt
result-IsSized example_add_point v = (tt, (tt, tt))

pub length-result :
    (f : Function) (v : Val (return_type f)) → length (encode (return_type f) v) ≤ 32
length-result f v =
    let (n, counted, small) = result_counted f v in
    omega (arith, length-sized (return_type f) v n (result-IsSized f v) counted)

pub result-IsReadable : (f : Function) (v : Val (return_type f)) → IsReadable (return_type f) v
result-IsReadable example_add v = tt
result-IsReadable example_echo v = tt
result-IsReadable example_add_point v = (tt, (tt, tt))

-- A sum on int64_t fits 64 bits.
add_int64-lt : (a b : ℕ) {c : ℕ} → add_int64 a b ≡ ok c → c < 256 ^ 8
unfolding add_int64
add_int64-lt a b h = ground arith

pub result-Fits :
    (f : Function) (vs : Vals (args_tuple f)) (rand : ℕ) {r : Run (Val (return_type f))}
    → call_function f vs rand ≡ ok r
    → Fits (return_type f) r.result
unfolding call_function
result-Fits example_add (a, (b, _)) rand h = ground arith
result-Fits example_echo vs rand h = ground arith
result-Fits example_add_point ((ax, (ay, _)), ((bx, (by, _)), _)) rand h =
    (ground arith, (ground arith, tt))

pub function_id-lt : (f : Function) → function_id f < 256 ^ 2
function_id-lt example_add = omega arith
function_id-lt example_echo = omega arith
function_id-lt example_add_point = omega arith

pub request_header-HeaderFits :
    (f : Function) (coro_id port n : ℕ)
    → coro_id < 256 ^ 8
    → port < 256 ^ 2
    → n ≤ 32
    → HeaderFits (request_header (function_id f) coro_id port n)
request_header-HeaderFits f coro_id port n hc hp hn = (
  omega arith,
  (
    omega arith,
    (
      omega arith,
      (
        omega arith,
        (omega arith, (omega arith, (function_id-lt f, (omega arith, (omega arith, tt))))),
      ),
    ),
  ),
)

pub response_header-HeaderFits :
    (info : ResponseInfo) (port n : ℕ)
    → info.response_to_coro_id < 256 ^ 8
    → info.response_rpc_type < 256 ^ 2
    → port < 256 ^ 2
    → n ≤ 32
    → HeaderFits (response_header info port n)
response_header-HeaderFits info port n hc hr hp hn = (
  omega arith,
  (
    omega arith,
    (
      omega arith,
      (omega arith, (omega arith, (omega arith, (omega arith, (omega arith, (omega arith, tt)))))),
    ),
  ),
)
