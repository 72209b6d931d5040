-- ===== src/Net/Defined.antt =====
-- The parts of `receive` on whatever bytes a peer sends: none is undefined.
use new_rpc.Base.{
  ℕ, zero, suc, ◌-◌, ◌≤◌, ◌≡◌, ◌⊎◌, refl, inl, inr, Bool, true, false, Bool-cases, ◌==◌, leb,
  if◌then◌else◌, none, some, List, [], ◌∷◌, ◌++◌, arith, length, length-append, All,
}
use new_rpc.Serialization.Memory.{
  Result, ok, thrown, undefined, aborted, ◌>>=◌, check, Endian, Cursor, cursor, new_bytes,
}
use new_rpc.Serialization.Types.{Val, default_val, default_vals, value}
use new_rpc.Serialization.Serialize.{get_serialize_size}
use new_rpc.Serialization.Deserialize.{deserialize, deserialize_members, deserialize_from_start}
use new_rpc.Serialization.Encoding.{FitMembers}
use new_rpc.Serialization.Bytes.{AreBytes, AreBytes-append}
use new_rpc.Serialization.Safety.{
  IsPlain, ArePlain, InBounds, deserialize-InBounds, deserialize_members_stay,
}
use new_rpc.Serialization.Yielding.{Gives, AreBytes-take, AreBytes-drop, length-take_le}
use new_rpc.Serialization.Typed.{AreTyped, deserialize_members-Yields}
use new_rpc.Error.{has_been_stopped, function_not_reflected}
use new_rpc.Net.EndPoint.{EndPoint, FinishCondition, invalid, when_any, when_all, when_majority}
use new_rpc.Net.Header.{
  PackageHeader, empty_header, header_type, header_vals, header_of_vals, magic_number,
}
use new_rpc.Net.Mapper.{
  Function, example_add, example_echo, example_add_point, args_tuple, Task, Commit, committed,
  refused, function_of_id, make_task, commit_function, reflect_commit_function,
}
use new_rpc.Net.Rpc.{RpcBase, accept_result, is_finished, call_on_each, process_buffer_cb}
use new_rpc.Net.Receive.{read_exact, receive_package, buffer_size}
use new_rpc.Net.Service.{Service, add_task}

-- A call that has defined behaviour: it throws, ends the process by an `assert` or `std::abort`, or
-- returns what fulfils `P`.
abbrev pub IsDefined {ℓ} : {A : Type ℓ} → (A → Type 0) → Result A → Type 0
IsDefined P (ok a) = P a
IsDefined P (thrown x) = Unit {0}
IsDefined P undefined = ⊥
IsDefined P aborted = Unit {0}

pub then-IsDefined {ℓ κ} :
    {A : Type ℓ} {B : Type κ} (P : A → Type 0) (Q : B → Type 0) (o : Result A) (f : A → Result B)
    → ((a : A) → P a → IsDefined Q (f a))
    → IsDefined P o
    → IsDefined Q (o >>= f)
then-IsDefined P Q (ok a) f h d = h a d
then-IsDefined P Q (thrown x) f h d = tt
then-IsDefined P Q undefined f h d = d
then-IsDefined P Q aborted f h d = tt

pub check-IsDefined : (b : Bool) → IsDefined (λ (u : Unit {0}). Unit {0}) (check b)
check-IsDefined true = tt
check-IsDefined false = tt

-- Reading from the socket gives as many bytes as were asked for, or throws.
read_exact-IsDefined :
    (n : ℕ) (chunks : List (List ℕ))
    → All AreBytes chunks
    → IsDefined
        (λ (bs, rest). (length bs ≡ n) × AreBytes bs × All AreBytes rest)
        (read_exact n chunks)
unfolding read_exact
read_exact-IsDefined zero chunks h = (refl, tt, h)
read_exact-IsDefined (suc n) [] h = tt
read_exact-IsDefined (suc n) (chunk ∷ chunks) h = elim (Bool-cases (leb (length chunk) (suc n))) [
  | inl less ↦
      let short : length chunk ≤ suc n = ground (arith, less) in
      rw less (
        then-IsDefined
          (λ (bs, rest). (length bs ≡ suc n - length chunk) × AreBytes bs × All AreBytes rest)
          (λ (bs, rest). (length bs ≡ suc n) × AreBytes bs × All AreBytes rest)
          (read_exact (suc n - length chunk) chunks) (λ (bs, rest). ok (chunk ++ bs, rest))
          (λ (bs, rest) g. (
            omega (arith, length-append chunk bs, g.0, short),
            AreBytes-append chunk bs h.0 g.1,
            g.2,
          ))
          (read_exact-IsDefined (suc n - length chunk) chunks h.1))
  | inr more ↦
      let long : suc n ≤ length chunk = ground (arith, more) in
      rw more (
        length-take_le (suc n) chunk long,
        AreBytes-take (suc n) chunk h.0,
        (AreBytes-drop (suc n) chunk h.0, h.1),
      )
]

InBounds-IsDefined {ℓ} :
    {A : Type ℓ} (P : A → Type 0) (o : Result (A × Cursor)) (m : List ℕ) (p buffer_len : ℕ)
    → InBounds m p buffer_len o
    → Gives P m o
    → IsDefined (λ (a, c). P a) o
InBounds-IsDefined P (ok (a, c)) m p buffer_len b g = g.0
InBounds-IsDefined P (thrown x) m p buffer_len b g = tt
InBounds-IsDefined P undefined m p buffer_len b g = b
InBounds-IsDefined P aborted m p buffer_len b g = tt

InBounds-any {ℓ} :
    {A : Type ℓ} (o : Result (A × Cursor)) (m : List ℕ) (p buffer_len : ℕ)
    → InBounds m p buffer_len o
    → IsDefined (λ (x : A × Cursor). Unit {0}) o
InBounds-any (ok (a, c)) m p buffer_len b = tt
InBounds-any (thrown x) m p buffer_len b = tt
InBounds-any undefined m p buffer_len b = b
InBounds-any aborted m p buffer_len b = tt

pub receive_package-IsDefined :
    (e : Endian) (chunks : List (List ℕ))
    → All AreBytes chunks
    → IsDefined (λ (header, pos, payload). AreBytes payload) (receive_package e chunks)
unfolding receive_package get_serialize_size
receive_package-IsDefined e chunks h =
    let size : ℕ = 32 in
    then-IsDefined (λ (bs, rest). (length bs ≡ size) × AreBytes bs × All AreBytes rest) _
      (read_exact size chunks) _
      (λ (head, rest) g.
        let buffer = head ++ new_bytes (buffer_size - size) in
        then-IsDefined (λ (x : Val header_type × Cursor). Unit {0}) _
          (deserialize e header_type (header_vals empty_header) size (cursor buffer 0)) _
          (λ (vals, c) u.
            then-IsDefined (λ (v : Unit {0}). Unit {0}) _
              (check ((header_of_vals vals).checksum == magic_number)) _
              (λ v t.
                then-IsDefined
                  (λ (bs, left).
                    (length bs ≡ (header_of_vals vals).payload_len)
                    × AreBytes bs
                    × All AreBytes left)
                  (λ (header, pos, payload). AreBytes payload)
                  (read_exact (header_of_vals vals).payload_len rest)
                  (λ (payload, left). ok (header_of_vals vals, c.pos, payload))
                  (λ (payload, left) k. k.1)
                  (read_exact-IsDefined (header_of_vals vals).payload_len rest g.2))
              (check-IsDefined ((header_of_vals vals).checksum == magic_number)))
          (InBounds-any
            (deserialize e header_type (header_vals empty_header) size (cursor buffer 0)) buffer 0
            size
            (deserialize-InBounds e header_type (header_vals empty_header) header-IsPlain buffer 0
              size (omega arith)
              (omega (arith, g.0, length-append head (new_bytes (buffer_size - size)))))))
      (read_exact-IsDefined size chunks h)
  where
    header-IsPlain : IsPlain header_type
    header-IsPlain = (tt, (tt, (tt, (tt, (tt, (tt, (tt, (tt, (tt, tt)))))))))

-- What a package may do to the service: add one task, whose arguments are values of their types, or
-- change nothing in the tasks.
abbrev pub AddsTask : Service → Service → Type 0
AddsTask s s' =
    ((t : Task) × (s' ≡ record s { tasks = s.tasks ++ (t ∷ []) })
      × FitMembers (args_tuple t.function) t.args)
    ⊎ (s'.tasks ≡ s.tasks)

args-IsPlain : (f : Function) → ArePlain (args_tuple f)
args-IsPlain example_add = (tt, (tt, tt))
args-IsPlain example_echo = tt
args-IsPlain example_add_point = ((tt, (tt, tt)), ((tt, (tt, tt)), tt))

-- A task that is committed has arguments that fit.
abbrev pub CommitFits : Commit → Type 0
CommitFits (committed t) = FitMembers (args_tuple t.function) t.args
CommitFits (refused error) = Unit {0}

commit_function-IsDefined :
    (e : Endian) (stopped : Bool) (f : Function) (header : PackageHeader) (endpoint : EndPoint)
    (serialized : List ℕ)
    → AreBytes serialized
    → IsDefined CommitFits (commit_function e stopped f header endpoint serialized)
unfolding commit_function make_task
commit_function-IsDefined e stopped f header endpoint serialized bytes =
    let read =
      deserialize_members e (args_tuple f) (default_vals (args_tuple f)) (length serialized)
        (cursor serialized 0) in
    then-IsDefined (λ (args, c). AreTyped (args_tuple f) args) CommitFits read
      (λ (args, c). ok (
        if stopped then refused has_been_stopped else committed (make_task f args header endpoint)))
      (λ (args, c) g. elim (Bool-cases stopped) [ inl h ↦ rw h tt | inr h ↦ rw h g.0 ])
      (InBounds-IsDefined (AreTyped (args_tuple f)) read serialized 0 (length serialized)
        (deserialize_members_stay e (args_tuple f) (default_vals (args_tuple f)) (args-IsPlain f)
          serialized 0 (length serialized) (omega arith) (omega arith))
        (deserialize_members-Yields e (args_tuple f) serialized 0 (length serialized) bytes))

pub reflect_commit_function-IsDefined :
    (e : Endian) (stopped : Bool) (header : PackageHeader) (endpoint : EndPoint)
    (serialized : List ℕ)
    → AreBytes serialized
    → IsDefined CommitFits (reflect_commit_function e stopped header endpoint serialized)
unfolding reflect_commit_function
reflect_commit_function-IsDefined e stopped header endpoint serialized bytes =
    elim (function_of_id header.rpc_type)
      as (λ o. IsDefined CommitFits (elim o as (λ _. Result Commit) [
        | none ↦ ok (refused function_not_reflected)
        | some f ↦ commit_function e stopped f header endpoint serialized
      ])) [
        | none ↦ tt
        | some f ↦ commit_function-IsDefined e stopped f header endpoint serialized bytes
      ]

pub add_task-IsDefined :
    (s : Service) (o : Commit) → CommitFits o → IsDefined (AddsTask s) (add_task s o)
unfolding add_task
add_task-IsDefined s (committed t) h = inl (t, refl, h)
add_task-IsDefined s (refused error) h = tt

is_finished-IsDefined :
    (condition : FinishCondition) (size total : ℕ)
    → IsDefined (λ (b : Bool). Unit {0}) (is_finished condition size total)
unfolding is_finished
is_finished-IsDefined invalid size total = tt
is_finished-IsDefined when_any size total = tt
is_finished-IsDefined when_all size total = tt
is_finished-IsDefined when_majority size total = tt

pub process_buffer_cb-IsDefined :
    (e : Endian) (r : RpcBase) (peer : EndPoint) (buffer : List ℕ)
    → IsPlain r.ret
    → IsDefined (λ (x : RpcBase × Bool). Unit {0}) (process_buffer_cb e r peer buffer)
unfolding process_buffer_cb accept_result deserialize_from_start
process_buffer_cb-IsDefined e r peer buffer plain =
    let read = deserialize e r.ret (default_val r.ret) (length buffer) (cursor buffer 0) in
    then-IsDefined (λ (v : Val r.ret). Unit {0}) _ (read >>= λ (v, c). ok v) _
      (λ v u.
        let (v', asked) = call_on_each r.on_each_function peer v false in
        let received = r.received_results ++ ((peer, value v') ∷ []) in
        then-IsDefined (λ (b : Bool). Unit {0}) _
          (is_finished r.finish_condition (length received) (length r.endpoints)) _ (λ b t. tt)
          (is_finished-IsDefined r.finish_condition (length received) (length r.endpoints)))
      (then-IsDefined (λ (x : Val r.ret × Cursor). Unit {0}) (λ (v : Val r.ret). Unit {0}) read
        (λ (v, c). ok v) (λ x u. tt)
        (InBounds-any read buffer 0 (length buffer) (
          deserialize-InBounds e r.ret (default_val r.ret) plain buffer 0 (length buffer)
            (omega arith) (omega arith))))
