-- ===== src/Coroutine/Fifo.antt =====
-- A queue that is used through `append_to_tail` and `pop_from_head` is first in, first out.
use new_rpc.Base.{
  ℕ, suc, ◌+◌, ◌%◌, ◌^◌, ◌<◌, ◌≡◌, ◌≢◌, refl, sym, ap, ◌∙◌, true, false, ◌==◌, ==_iff, List, [],
  ◌∷◌, ◌++◌, arith, length, length-append,
}
use new_rpc.Serialization.Memory.{ok}
use new_rpc.Coroutine.Frame.{Frames, set_link}
use new_rpc.Coroutine.Queue.{CoroutineQueue, append_to_tail, pop_from_head, decrement, empty_queue}
use new_rpc.Coroutine.Chain.{
  Fresh, IsQueue, last_of, link-set_link, Chain-set_link, last_of-ne_null, last_of-Fresh,
  Chain-snoc, Distinct-snoc, last_of-snoc,
}

-- The frames after a frame has been put behind those of a queue.
abbrev pub append_frames : Frames → List ℕ → ℕ → Frames
append_frames fr [] a = fr
append_frames fr (x ∷ xs) a = set_link fr (last_of x xs) a

pub append_to_tail_lem :
    (fr : Frames) (q : CoroutineQueue) (xs : List ℕ) (a : ℕ)
    → IsQueue fr q xs
    → Fresh a xs
    → a ≢ 0
    → (fr a).in_queue_link_next ≡ 0
    → length xs + 1 < 2 ^ 64
    → (q' : CoroutineQueue) × (append_to_tail fr q a ≡ ok (append_frames fr xs a, q'))
      × IsQueue (append_frames fr xs a) q' (xs ++ (a ∷ []))
unfolding append_to_tail
append_to_tail_lem fr q [] a v f h e room =
    let empty : (q.size == 0) ≡ true = ground (arith, v.size) in
    let nonnull : (a == 0) ≡ false = ground (arith, h) in
    let free : ((fr a).in_queue_link_next == 0) ≡ true = ground (arith, e) in
    let one : (q.size + 1) % 2 ^ 64 ≡ 1 = omega (arith, v.size) in
    (
      record { head = a; tail = a; size = 1 },
      rw (nonnull, free, empty, one),
      record {
        chain = (refl, h, e);
        tail = refl;
        size = refl;
        distinct = (tt, tt);
        bounded = omega arith;
      },
    )
append_to_tail_lem fr q (x ∷ xs) a v f h e room =
    let filled : (q.size == 0) ≡ false = ground (arith, v.size) in
    let nonnull : (a == 0) ≡ false = ground (arith, h) in
    let free : ((fr a).in_queue_link_next == 0) ≡ true = ground (arith, e) in
    let end : (q.tail == 0) ≡ false =
      ground (arith, v.tail, last_of-ne_null fr q.head x xs v.chain) in
    let more : (q.size + 1) % 2 ^ 64 ≡ length xs + 2 = omega (arith, v.size) in
    (
      record { head = q.head; tail = a; size = length xs + 2 },
      rw (nonnull, free, filled, end, more)
          (ap (λ t. ok (set_link fr t a, record { head = q.head; tail = a; size = length xs + 2 }))
            v.tail),
      record {
        chain = Chain-snoc fr q.head x xs a v.chain v.distinct f h e;
        tail = sym (last_of-snoc x xs a);
        size = omega (arith, length-append xs (a ∷ []));
        distinct = Distinct-snoc (x ∷ xs) a v.distinct f;
        bounded = omega (arith, length-append xs (a ∷ []));
      },
    )

-- A frame that is in no queue goes behind those of the queue: the call does not abort, and the queue
-- then holds the old frames and the new one. The frame is not null and not among them, its link is
-- null, and there are fewer than 2 ^ 64 - 1 frames.
pub append_to_tail-IsQueue :
    (fr : Frames) (q : CoroutineQueue) (xs : List ℕ) (a : ℕ)
    → IsQueue fr q xs
    → Fresh a xs
    → a ≢ 0
    → (fr a).in_queue_link_next ≡ 0
    → length xs + 1 < 2 ^ 64
    → (fr' : Frames) × (q' : CoroutineQueue) × (append_to_tail fr q a ≡ ok (fr', q'))
      × IsQueue fr' q' (xs ++ (a ∷ []))
append_to_tail-IsQueue fr q xs a v f h e room =
    let (q', done, longer) = append_to_tail_lem fr q xs a v f h e room in
    (append_frames fr xs a, q', done, longer)

pub pop_from_head_lem :
    (fr : Frames) (q : CoroutineQueue) (x : ℕ) (xs : List ℕ)
    → IsQueue fr q (x ∷ xs)
    → (q' : CoroutineQueue) × (pop_from_head fr q ≡ ok (set_link fr x 0, q', x))
      × IsQueue (set_link fr x 0) q' xs
unfolding pop_from_head
pop_from_head_lem fr q x [] v =
    let nonnull : (q.head == 0) ≡ false = ground (arith, v.chain.0, v.chain.1) in
    let same : (q.head == q.tail) ≡ true = ground (arith, v.chain.0, v.tail) in
    let last : ((fr q.head).in_queue_link_next == 0) ≡ true =
      (==_iff _ 0).1 (ap (λ p. (fr p).in_queue_link_next) v.chain.0 ∙ v.chain.2) in
    let none_left : decrement q.size ≡ 0 = omega (arith, v.size) in
    (
      record { head = 0; tail = 0; size = 0 },
      rw (nonnull, same, last, none_left)
          (ap (λ p. ok (set_link fr p 0, empty_queue, p)) v.chain.0),
      record { chain = refl; tail = refl; size = refl; distinct = tt; bounded = omega arith },
    )
pop_from_head_lem fr q x (y ∷ ys) v =
    let nonnull : (q.head == 0) ≡ false = ground (arith, v.chain.0, v.chain.1) in
    let apart : (q.head == q.tail) ≡ false =
      ground (arith, v.chain.0, v.tail, last_of-Fresh x y ys v.distinct.0) in
    let rest : (fr q.head).in_queue_link_next ≡ y =
      ap (λ p. (fr p).in_queue_link_next) v.chain.0 ∙ v.chain.2.0 in
    let fewer : decrement q.size ≡ suc (length ys) = omega (arith, v.size, v.bounded) in
    (
      record { head = y; tail = q.tail; size = suc (length ys) },
      rw (nonnull, apart, rest, fewer)
          (ap
            (λ p.
              ok (set_link fr p 0, record { head = y; tail = q.tail; size = suc (length ys) }, p))
            v.chain.0),
      record {
        chain = Chain-set_link fr x 0 y (y ∷ ys) v.distinct.0 (refl, v.chain.2.1, v.chain.2.2);
        tail = v.tail;
        size = refl;
        distinct = v.distinct.1;
        bounded = omega (arith, v.bounded);
      },
    )

-- The oldest frame comes off, with a null link, and the queue then holds the others.
pop_from_head-IsQueue :
    (fr : Frames) (q : CoroutineQueue) (x : ℕ) (xs : List ℕ)
    → IsQueue fr q (x ∷ xs)
    → (fr' : Frames) × (q' : CoroutineQueue) × (pop_from_head fr q ≡ ok (fr', q', x))
      × IsQueue fr' q' xs
      × ((fr' x).in_queue_link_next ≡ 0)
pop_from_head-IsQueue fr q x xs v =
    let (q', popped, rest) = pop_from_head_lem fr q x xs v in
    (set_link fr x 0, q', popped, rest, ground (arith, link-set_link fr x 0 x))
