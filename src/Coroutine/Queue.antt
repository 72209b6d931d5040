-- ===== src/Coroutine/Queue.antt =====
-- `CoroutineQueue` of coroutine_framework/queue.h and queue.ipp: an intrusive list of frames.
use new_rpc.Base.{ℕ, zero, suc, ◌+◌, ◌-◌, ◌%◌, ◌^◌, Bool, Option, none, some, ◌==◌, if◌then◌else◌}
use new_rpc.Serialization.Memory.{Result, ok, undefined, ◌>>=◌, ◌>>◌, check}
use new_rpc.Coroutine.Frame.{LinkedCoroutine, Frames, set_link}

pub record CoroutineQueue : Type 0 where
  pub head : ℕ
  pub tail : ℕ
  pub size : ℕ

-- `CoroutineQueue()`.
abbrev pub empty_queue : CoroutineQueue
empty_queue = record { head = 0; tail = 0; size = 0 }

unfoldable pub is_empty : CoroutineQueue → Bool
is_empty q = q.size == 0

-- A pointer that is dereferenced.
abbrev pub not_null : ℕ → Result (Unit {0})
not_null p = if p == 0 then undefined else ok tt

-- `size_--` on a uint64_t.
abbrev pub decrement : ℕ → ℕ
decrement n = (n + 2 ^ 64 - 1) % 2 ^ 64

unfoldable pub append_to_tail : Frames → CoroutineQueue → ℕ → Result (Frames × CoroutineQueue)
unfolding is_empty set_link
append_to_tail fr q p = do
  not_null p
  check ((fr p).in_queue_link_next == 0)
  let size = (q.size + 1) % 2 ^ 64
  if is_empty q
      then ok (fr, record { head = p; tail = p; size = size })
      else (not_null q.tail >> ok (set_link fr q.tail p, record q { tail = p; size = size }))

unfoldable pub pop_from_head : Frames → CoroutineQueue → Result (Frames × CoroutineQueue × ℕ)
unfolding set_link
pop_from_head fr q = do
  not_null q.head
  let popped = set_link fr q.head 0
  let rest = (fr q.head).in_queue_link_next
  if q.head == q.tail
      then (check (rest == 0)
          >> ok (popped, record { head = 0; tail = 0; size = decrement q.size }, q.head))
      else ok (popped, record q { head = rest; size = decrement q.size }, q.head)

-- Where `last_node_next_ptr_` points: to `head_`, or to the link of a frame.
pub data Slot : Type 0 where
  at_head : Slot
  at_link : ℕ → Slot

unfoldable pub assign_slot : Frames → CoroutineQueue → Slot → ℕ → Frames × CoroutineQueue
unfolding set_link
assign_slot fr q at_head v = (fr, record q { head = v })
assign_slot fr q (at_link p) v = (set_link fr p v, q)

-- `if (target_queue) target_queue->append_to_tail(iter)`.
unfoldable pub append_to_target :
    Frames → Option CoroutineQueue → ℕ → Result (Frames × Option CoroutineQueue)
unfolding append_to_tail
append_to_target fr none p = ok (fr, none)
append_to_target fr (some target) p =
    append_to_tail fr target p >>= λ (fr', target'). ok (fr', some target')

-- The branch of the loop in which the condition holds: the frame leaves the queue.
unfoldable pub take_node :
    Frames
    → CoroutineQueue
    → Option CoroutineQueue
    → Slot
    → (iter : ℕ) → Result (Frames × CoroutineQueue × Option CoroutineQueue)
unfolding assign_slot append_to_target
take_node fr q target last iter =
    let (fr1, q1) = assign_slot fr q last (fr iter).in_queue_link_next in
    append_to_target (set_link fr1 iter 0) target iter >>= λ (fr2, target').
    ok (fr2, record q1 { size = decrement q1.size }, target')

-- The loop of `fetch_nodes`. With no fuel left it is shown as undefined: a chain that does not end.
unfoldable pub fetch_loop :
    (condition : LinkedCoroutine → Bool)
    → (fuel : ℕ) → Frames
    → CoroutineQueue
    → Option CoroutineQueue
    → Slot
    → (iter : ℕ) → Result (Frames × CoroutineQueue × Option CoroutineQueue)
unfolding take_node
fetch_loop condition zero fr q target last iter =
    if iter == 0 then ok (fr, q, target) else undefined
fetch_loop condition (suc fuel) fr q target last iter =
    let next = (fr iter).in_queue_link_next in
    let taken = take_node fr q target last iter >>= λ (fr', q', target').
    fetch_loop condition fuel fr' q' target' last next in
    let kept = fetch_loop condition fuel fr q target (at_link iter) next in
    if iter == 0 then ok (fr, q, target) else if condition (fr iter) then taken else kept

-- `fetch_nodes`: `tail_` is written only if nothing is left. A chain is not longer than `size_`.
unfoldable pub fetch_nodes :
    (condition : LinkedCoroutine → Bool)
    → Frames
    → CoroutineQueue
    → Option CoroutineQueue
    → Result (Frames × CoroutineQueue × Option CoroutineQueue)
unfolding fetch_loop is_empty
fetch_nodes condition fr q target = do
  (fr', q', target') ← fetch_loop condition q.size fr q target at_head q.head
  ok (fr', (if is_empty q' then record q' { head = 0; tail = 0 } else q'), target')
