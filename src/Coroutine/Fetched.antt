-- ===== src/Coroutine/Fetched.antt =====
-- `fetch_nodes` as a whole.
use new_rpc.Base.{
  ℕ, ◌+◌, ◌^◌, ◌<◌, ◌≡◌, refl, ap, ◌∙◌, inl, inr, Bool, true, false, Bool-cases, ◌==◌, ==_iff,
  if◌then◌else◌, Option, some, List, [], ◌∷◌, arith, length,
}
use new_rpc.Serialization.Memory.{Result, ok, ◌>>=◌}
use new_rpc.Coroutine.Frame.{LinkedCoroutine, Frames}
use new_rpc.Coroutine.Queue.{
  CoroutineQueue, empty_queue, is_empty, at_head, fetch_loop, fetch_nodes,
}
use new_rpc.Coroutine.Chain.{Distinct, Chain, IsQueue}
use new_rpc.Coroutine.Fetching.{select, IgnoresLink, KeepsLinks, KeepsAllButLinks}
use new_rpc.Coroutine.FetchLoop.{IsFetched, fetch_loop_lem}

-- What `fetch_nodes` does behind its loop.
abbrev finish :
    Frames × CoroutineQueue × Option CoroutineQueue
    → Result (Frames × CoroutineQueue × Option CoroutineQueue)
finish (fr, q, t) = ok (fr, (if is_empty q then record q { head = 0; tail = 0 } else q), t)

fetch_nodes_done :
    (condition : LinkedCoroutine → Bool) (n : ℕ) (fr fr' : Frames) (q q' t t' : CoroutineQueue)
    → q.size ≡ n
    → fetch_loop condition n fr q (some t) at_head q.head ≡ ok (fr', q', some t')
    → fetch_nodes condition fr q (some t) ≡ finish (fr', q', some t')
unfolding fetch_nodes
fetch_nodes_done condition n fr fr' q q' t t' size done =
    ap (λ k. fetch_loop condition k fr q (some t) at_head q.head >>= finish) size
    ∙ ap (λ o. o >>= finish) done

Chain-nil : (fr : Frames) (xs : List ℕ) → length xs ≡ 0 → Chain fr 0 xs
Chain-nil fr [] h = refl
Chain-nil fr (x ∷ xs) h = absurd (omega arith)

-- `fetch_nodes` on a chain of frames, whatever `tail_` is.
pub fetch_nodes_lem :
    (condition : LinkedCoroutine → Bool) (fr : Frames) (q : CoroutineQueue) (xs : List ℕ)
    → IgnoresLink condition
    → Chain fr q.head xs
    → q.size ≡ length xs
    → Distinct xs
    → length xs + 1 < 2 ^ 64
    → (fr' : Frames) × (q' : CoroutineQueue) × (t' : CoroutineQueue) × (fetch_nodes condition fr q
          (some empty_queue)
        ≡ ok (fr', q', some t'))
      × IsFetched fr' q' t'
          (select (λ p. condition (fr p)) false xs)
          (select (λ p. condition (fr p)) true xs)
          (if length (select (λ p. condition (fr p)) false xs) == 0 then 0 else q.tail)
      × KeepsLinks fr fr' xs []
      × KeepsAllButLinks fr fr'
unfolding is_empty
fetch_nodes_lem condition fr q xs i chain size distinct room =
    let c = λ (p : ℕ). condition (fr p) in
    let (fr', q', t', done, end, kept, unchanged) =
      fetch_loop_lem condition c i xs fr q empty_queue [] [] q.head (λ p. refl)
        (record {
          chain = chain;
          rest = chain;
          size = size;
          distinct = distinct;
          apart = tt;
          target = record {
            chain = refl;
            tail = refl;
            size = refl;
            distinct = tt;
            bounded = omega arith;
          };
          room = omega (arith, room);
        }) in
    let all = fetch_nodes_done condition (length xs) fr fr' q q' empty_queue t' size done in
    elim (Bool-cases (length (select c false xs) == 0)) [
      | inl empty ↦ (
        fr',
        record { head = 0; tail = 0; size = q'.size },
        t',
        all ∙ rw (end.size, empty) refl,
        record {
          chain = Chain-nil fr' (select c false xs) ((==_iff _ 0).0 empty);
          size = end.size;
          kept_tail = rw empty refl;
          target = end.target;
        },
        kept,
        unchanged,
      )
      | inr some_left ↦ (
        fr',
        q',
        t',
        all ∙ rw (end.size, some_left) refl,
        record {
          chain = end.chain;
          size = end.size;
          kept_tail = rw some_left end.kept_tail;
          target = end.target;
        },
        kept,
        unchanged,
      )
    ]

-- `fetch_nodes` takes the frames that fulfil the condition and puts them into the target queue in the
-- order in which they stood; the others stay, in order and counted right, and `tail_` stays as it
-- was, unless none is left: then both ends are null. Frames that are not in the queue keep their
-- links, and nothing but links changes. It does not abort and its loop ends within the fuel. The condition does not read a frame's link, and the queue holds fewer than 2 ^ 64 - 1 frames.
pub fetch_nodes-IsFetched :
    (condition : LinkedCoroutine → Bool) (fr : Frames) (q : CoroutineQueue) (xs : List ℕ)
    → IgnoresLink condition
    → IsQueue fr q xs
    → length xs + 1 < 2 ^ 64
    → (fr' : Frames) × (q' : CoroutineQueue) × (t' : CoroutineQueue) × (fetch_nodes condition fr q
          (some empty_queue)
        ≡ ok (fr', q', some t'))
      × IsFetched fr' q' t'
          (select (λ p. condition (fr p)) false xs)
          (select (λ p. condition (fr p)) true xs)
          (if length (select (λ p. condition (fr p)) false xs) == 0 then 0 else q.tail)
      × KeepsLinks fr fr' xs []
      × KeepsAllButLinks fr fr'
fetch_nodes-IsFetched condition fr q xs i v room =
    fetch_nodes_lem condition fr q xs i v.chain v.size v.distinct room
