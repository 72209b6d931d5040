-- ===== src/Net/Sending.antt =====
-- How a package leaves: `RpcBase::await_suspend` whole, its setters and its move, and `send_` and
-- `send_response` of net_module/net_service.cpp. The calls on a socket are listed in order; how they
-- end is the environment's.
use new_rpc.Base.{ℕ, Bool, List, [], ◌∷◌, none, some, if◌then◌else◌}
use new_rpc.Serialization.Memory.{Result, ok, undefined, ◌>>=◌, Endian}
use new_rpc.Serialization.Types.{Val}
use new_rpc.Coroutine.Frame.{Frames, sync_release}
use new_rpc.Net.EndPoint.{EndPoint}
use new_rpc.Net.Address.{to_asio_endpoint}
use new_rpc.Net.Rpc.{RpcBase, prepare_request}
use new_rpc.Net.Service.{Service, update, commit_send_request_task}

-- `RpcBase::timeout` and `on_each_result`.
unfoldable pub set_timeout : RpcBase → (timeout : ℕ) → RpcBase
set_timeout r timeout = record r { timeout = timeout }

unfoldable pub set_on_each :
    (r : RpcBase) → (EndPoint → Val r.ret → Bool → Val r.ret × Bool) → RpcBase
set_on_each r func = record r { on_each_function = some func }

-- `RpcBase(RpcBase &&)`: the new object, and what is left of the old one: its vectors, its function
-- and its buffer are empty.
unfoldable pub move_rpc : RpcBase → RpcBase × RpcBase
move_rpc rhs = (
  rhs,
  record rhs { endpoints = []; send_buffer = []; received_results = []; on_each_function = none },
)

-- `await_suspend` of the coroutine `self`, whose awaitable is at the address `callback`: the request
-- is made, the coroutine's writes are released, and the request goes to the network module.
unfoldable pub await_suspend :
    Endian → Frames → Service → (callback self : ℕ) → Result (Frames × Service)
unfolding sync_release commit_send_request_task
await_suspend e fr s callback self = elim ((fr self).coro_local_var) [
  | none ↦ undefined
  | some locals ↦
      prepare_request e (s.callbacks callback) locals.coro_id s.listen_port self >>= λ r. ok (
        sync_release fr self,
        commit_send_request_task (record s { callbacks = update s.callbacks callback r })
            locals.coro_id r.endpoints r.send_buffer r.timeout self callback,
      )
]

pub data SocketCall : Type 0 where
  connect : (address : List ℕ) (port : ℕ) → SocketCall
  write : (bytes : List ℕ) → SocketCall
  shutdown_send close : SocketCall

-- Whether `async_connect` and `async_write` come back without an exception, and whether the socket is
-- open when the handler asks.
pub record Outcome : Type 0 where
  pub connects : Bool
  pub writes : Bool
  pub is_open : Bool

-- The handler.
unfoldable pub close_if_open : Outcome → List SocketCall
close_if_open o = if o.is_open then close ∷ [] else []

-- `send_`. The errors of `shutdown` and `close` are only printed.
unfoldable pub send_ : Outcome → EndPoint → List ℕ → Result (List SocketCall)
unfolding close_if_open
send_ o endpoint bytes = to_asio_endpoint endpoint >>= λ (address, port).
    let sent = write bytes ∷ (if o.writes then shutdown_send ∷ (close ∷ []) else close_if_open o) in
    ok (connect address port ∷ (if o.connects then sent else close_if_open o))

-- `send_response`: the buffer that it owns is sent.
unfoldable pub send_response : Outcome → EndPoint → List ℕ → Result (List SocketCall)
unfolding send_
send_response o endpoint bytes = send_ o endpoint bytes

-- `NetService::get_listen_port`.
unfoldable pub get_listen_port : Service → ℕ
get_listen_port s = s.listen_port

-- `NetService(port)`; the memory of the callbacks is the environment's.
unfoldable pub make_net_service : (port : ℕ) → (callbacks : ℕ → RpcBase) → Service
make_net_service port callbacks = record {
  listen_port = port;
  waiting = [];
  callbacks = callbacks;
  timers = [];
  outbox = [];
  ready = [];
  tasks = [];
}
