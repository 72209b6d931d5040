-- ===== src/Coroutine/Tail.antt =====
-- What `append_to_tail` does when the tail is no longer in the queue.
use new_rpc.Base.{
  ℕ, zero, suc, ◌+◌, ◌%◌, ◌^◌, ◌<◌, ◌≡◌, ◌≢◌, refl, sym, ◌∙◌, true, false, ◌==◌, ==_iff, List, [],
  ◌∷◌, if◌then◌else◌, arith, length,
}
use new_rpc.Serialization.Memory.{ok}
use new_rpc.Coroutine.Frame.{Frames, set_link}
use new_rpc.Coroutine.Queue.{CoroutineQueue, is_empty, append_to_tail}
use new_rpc.Coroutine.Chain.{Fresh, Chain, Chain-set_link}

-- The pointer after `k` steps from `p` along the links.
abbrev pub follow : Frames → (k p : ℕ) → ℕ
follow fr zero p = p
follow fr (suc k) p = if p == 0 then 0 else follow fr k (fr p).in_queue_link_next

follow-Chain :
    (fr : Frames) (a k p : ℕ) (xs : List ℕ) → Chain fr p xs → Fresh a xs → a ≢ 0 → follow fr k p ≢ a
follow-Chain fr a zero p [] c f h = λ e. h (sym e ∙ c)
follow-Chain fr a zero p (x ∷ xs) c f h = λ e. f.0 (sym e ∙ c.0)
follow-Chain fr a (suc k) p [] c f h = rw ((==_iff p 0).1 c) (λ e. h (sym e))
follow-Chain fr a (suc k) p (x ∷ xs) c f h =
    let inside : (p == 0) ≡ false = ground (arith, c.0, c.1) in
    rw (inside, c.0) (follow-Chain fr a k (fr x).in_queue_link_next xs c.2 f.1 h)

-- If `fetch_nodes` has taken the last frame and left others, `tail_` is a frame that is not in the
-- queue. A frame that is then put behind the tail is lost: the call does not abort and counts it, but
-- no number of steps along the links from the head comes to it, and the frames that can be reached
-- are the same as before. The new frame is not null and not in the queue, and its link is null.
pub append_to_tail-lost :
    (fr : Frames) (q : CoroutineQueue) (ks : List ℕ) (a : ℕ)
    → Chain fr q.head ks
    → q.size ≡ length ks
    → 0 < length ks
    → length ks + 1 < 2 ^ 64
    → Fresh q.tail ks
    → Fresh a ks
    → q.tail ≢ 0
    → a ≢ 0
    → (fr a).in_queue_link_next ≡ 0
    → (fr' : Frames) × (q' : CoroutineQueue) × (append_to_tail fr q a ≡ ok (fr', q'))
      × ((k : ℕ) → follow fr' k q'.head ≢ a)
      × Chain fr' q'.head ks
      × (q'.size ≡ length ks + 1)
unfolding append_to_tail is_empty
append_to_tail-lost fr q ks a c size some_left room off new t h e =
    let filled : (q.size == 0) ≡ false = ground arith in
    let nonnull : (a == 0) ≡ false = ground (arith, h) in
    let end : (q.tail == 0) ≡ false = ground (arith, t) in
    let free : ((fr a).in_queue_link_next == 0) ≡ true = (==_iff _ 0).1 e in
    let more : (q.size + 1) % 2 ^ 64 ≡ length ks + 1 = omega (arith, size) in
    let same = Chain-set_link fr q.tail a q.head ks off c in
    (
      set_link fr q.tail a,
      record { head = q.head; tail = a; size = length ks + 1 },
      rw (nonnull, free, filled, end, more),
      (λ k. follow-Chain (set_link fr q.tail a) a k q.head ks same new h),
      same,
      refl,
    )
