-- ===== src/Demo/RemoteCall.antt =====
-- A call of a function on another host, from `co_rpc` to `await_resume`: the steps of both hosts in the
-- order in which they happen when nothing else does. The network is a parameter: how it cuts what it
-- carries into chunks, and its delay. A package for another address than that of the host that is to
-- have it does not get there, and what becomes of the call then is left open. The call's timer runs
-- out first unless the answer is there before.
use new_rpc.Base.{
  ℕ, ◌+◌, ◌≡◌, ◌==◌, ◌&&◌, ltb, false, if◌then◌else◌, List, [], ◌∷◌, Option, none, some,
}
use new_rpc.Serialization.Memory.{Result, ok, undefined, ◌>>=◌, ◌>>◌, Endian}
use new_rpc.Serialization.Types.{Vals}
use new_rpc.Net.EndPoint.{EndPoint, set_port, bytes_eq}
use new_rpc.Net.Mapper.{Function, function_id, args_tuple, return_type}
use new_rpc.Net.CoRpc.{co_rpc, call_with_args, call_on_one}
use new_rpc.Net.Service.{Service, update, receive, fire}
use new_rpc.Net.Sending.{await_suspend}
use new_rpc.Net.Delivery.{stream}
use new_rpc.Coroutine.Frame.{Frames}
use new_rpc.Demo.Functions.{call_function, run_task}

-- The host that calls: the coroutine `self` awaits at the address `callback`.
pub record Caller : Type 0 where
  pub endian : Endian
  pub frames : Frames
  pub service : Service
  pub address : EndPoint
  pub self : ℕ
  pub callback : ℕ

-- The host that is called: the coroutine of the task stands at the address `self`.
pub record Callee : Type 0 where
  pub endian : Endian
  pub frames : Frames
  pub service : Service
  pub address : EndPoint
  pub self : ℕ
  pub coro_id : ℕ
  pub rand : ℕ
  pub running : ℕ

-- How the request and the response are cut, and how long they take together.
pub record Network : Type 0 where
  pub delay : ℕ
  pub request_chunks : List ℕ → List (List ℕ)
  pub response_chunks : List ℕ → List (List ℕ)

-- A stream of TCP: no byte is lost, and they stay in order.
pub record IsReliable (n : Network) : Type 0 where
  pub request_whole : (bytes : List ℕ) → stream (n.request_chunks bytes) ≡ bytes
  pub response_whole : (bytes : List ℕ) → stream (n.response_chunks bytes) ≡ bytes

-- What was put behind a list last.
unfoldable pub newest {ℓ} : {A : Type ℓ} → List A → Result A
newest [] = undefined
newest (x ∷ []) = ok x
newest (x ∷ y ∷ xs) = newest (y ∷ xs)

abbrev pub package_of {ℓ} : {A : Type ℓ} → Option A → Result A
package_of none = undefined
package_of (some x) = ok x

-- The caller's service when it waits, and the call.
unfoldable pub begin_call :
    Caller → EndPoint → (f : Function) → Vals (args_tuple f) → Result (Frames × Service)
begin_call a server f vs = do
  built ← call_with_args a.endian (co_rpc (return_type f) (function_id f)) (args_tuple f) vs
  let called = call_on_one built server
  let service = record a.service {
    callbacks = update a.service.callbacks a.callback called.rpc_base;
  }
  await_suspend a.endian a.frames service a.callback a.self

-- The address that a host listens at, given the one that its peer sees.
abbrev pub listens_at : EndPoint → Service → EndPoint
listens_at address service = set_port address service.listen_port

-- A package for `to` gets to the host that listens at `at`.
unfoldable pub arrives : (to at : EndPoint) → Result (Unit {0})
arrives to at =
    if bytes_eq to.ip at.ip && to.port == at.port && to.flags == at.flags then ok tt else undefined

unfoldable pub total : List ℕ → ℕ
total [] = 0
total (x ∷ xs) = x + total xs

-- What the server does with a request: where the answer goes, its bytes, and how long the function
-- sleeps.
unfoldable pub serve :
    Network → Callee → (client : EndPoint) → List ℕ → Result (EndPoint × List ℕ × ℕ)
unfolding total
serve n b client request = do
  served ← receive b.endian false b.service client (n.request_chunks request)
  task ← newest served.tasks
  called ← call_function task.function task.args b.rand
  finished ← run_task b.endian b.service.listen_port task b.frames b.self b.coro_id b.rand b.running
  (back, response) ← package_of finished.sent
  ok (back, response, total called.sleeps)

abbrev pub first_timer : Service → Result (ℕ × ℕ)
first_timer s = elim s.timers [ [] ↦ undefined | t ∷ ts ↦ ok t ]

-- The caller's service when the coroutine is to go on.
unfoldable pub remote_call :
    Network → Caller → Callee → (f : Function) → Vals (args_tuple f) → Result Service
unfolding arrives
remote_call n a b f vs = do
  (frames, waiting) ← begin_call a b.address f vs
  (id, timeout) ← first_timer waiting
  (to, request) ← newest waiting.outbox
  arrives to (listens_at b.address b.service)
  (back, response, slept) ← serve n b a.address request
  arrives back (listens_at a.address a.service)
  if ltb (slept + n.delay) timeout
      then receive a.endian false waiting b.address (n.response_chunks response)
      else fire waiting id
