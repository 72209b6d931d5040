-- ===== src/Net/Mapper.antt =====
-- net_module/rpc_register.h, rpc_mapper.h and rpc_mapper.cpp: the functions that can be called from
-- afar, and the call of one by its number. `ResponseInfo` is that of local_var.h.
use new_rpc.Base.{ℕ, Bool, List, length, ◌==◌, if◌then◌else◌, Option, none, some}
use new_rpc.Error.{Error, has_been_stopped, function_not_reflected}
use new_rpc.Serialization.Memory.{Result, ok, ◌>>=◌, Endian, cursor}
use new_rpc.Serialization.Types.{
  Ty, Members, fundamental, reflected, no_members, member, Vals, default_vals,
}
use new_rpc.Serialization.Deserialize.{deserialize_members}
use new_rpc.Net.EndPoint.{EndPoint, set_port}
use new_rpc.Net.Header.{PackageHeader}

-- The rows of `__RPC_REGISTER__`.
pub data Function : Type 0 where
  example_add example_echo example_add_point : Function

-- `FunctionToID<FUNC>::value`.
abbrev pub function_id : Function → ℕ
function_id example_add = 1
function_id example_echo = 2
function_id example_add_point = 3

-- demo/point.h and its reflection.
abbrev pub point_type : Ty
point_type = reflected (member (fundamental 8) (member (fundamental 8) no_members))

-- `FunctionTraits::args_tuple` and the `return_type` of the coroutine.
abbrev pub args_tuple : Function → Members
args_tuple example_add = member (fundamental 8) (member (fundamental 8) no_members)
args_tuple example_echo = no_members
args_tuple example_add_point = member point_type (member point_type no_members)

abbrev pub return_type : Function → Ty
return_type example_add = fundamental 8
return_type example_echo = fundamental 8
return_type example_add_point = point_type

-- `IDToFunction`, the cases of the `switch`.
unfoldable pub function_of_id : ℕ → Option Function
function_of_id n =
    if n == 1
    then some example_add
    else if n == 2
    then some example_echo
    else if n == 3
    then some example_add_point
    else none

pub record ResponseInfo : Type 0 where
  pub response_to_end_point : EndPoint
  pub response_to_coro_id : ℕ
  pub response_rpc_type : ℕ

-- A coroutine that was created for a request and given to the scheduler.
pub record Task : Type 0 where
  pub function : Function
  pub args : Vals (args_tuple function)
  pub response_info : ResponseInfo

-- `Expected<void>`, with the task that was committed.
pub data Commit : Type 0 where
  committed : Task → Commit
  refused : Error → Commit

unfoldable pub make_task : (f : Function) → Vals (args_tuple f) → PackageHeader → EndPoint → Task
make_task f args header endpoint = record {
  function = f;
  args = args;
  response_info = record {
    response_to_end_point = set_port endpoint header.server_port;
    response_to_coro_id = header.rpc_id;
    response_rpc_type = header.rpc_type;
  };
}

-- One case of the `switch`: the arguments, the task and its commit. `stopped` is the scheduler's
-- `stop_flag_`.
unfoldable pub commit_function :
    Endian → (stopped : Bool) → Function → PackageHeader → EndPoint → List ℕ → Result Commit
commit_function e stopped f header endpoint serialized = do
  (args, c) ←
      deserialize_members e (args_tuple f) (default_vals (args_tuple f)) (length serialized)
        (cursor serialized 0)
  ok (if stopped then refused has_been_stopped else committed (make_task f args header endpoint))

unfoldable pub reflect_commit_function :
    Endian → (stopped : Bool) → PackageHeader → EndPoint → List ℕ → Result Commit
unfolding commit_function function_of_id
reflect_commit_function e stopped header endpoint serialized =
    elim (function_of_id header.rpc_type) [
      | none ↦ ok (refused function_not_reflected)
      | some f ↦ commit_function e stopped f header endpoint serialized
    ]
