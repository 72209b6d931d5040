-- ===== src/Time/Wakeup.antt =====
-- The scan of a bucket wakes exactly the frames whose time has come.
use new_rpc.Base.{
  ℕ, suc, ◌+◌, ◌^◌, ◌<◌, ◌≡◌, ◌≢◌, refl, ap, ◌∙◌, Bool, true, false, ==_iff, some, List, [], ◌∷◌,
  ◌++◌, append-nil, append_assoc, arith, length, length-append,
}
use new_rpc.Serialization.Memory.{Result, ok, ◌>>=◌}
use new_rpc.Coroutine.Frame.{Frames, set_link}
use new_rpc.Coroutine.Queue.{CoroutineQueue, empty_queue, pop_from_head, fetch_nodes}
use new_rpc.Coroutine.Chain.{Distinct, IsQueue, Chain, Fresh-snoc, link-set_link}
use new_rpc.Coroutine.Fifo.{append_frames, append_to_tail_lem, pop_from_head_lem}
use new_rpc.Coroutine.Unlink.{Apart}
use new_rpc.Coroutine.Rounds.{IsQueue-set_link}
use new_rpc.Coroutine.Fetching.{
  select, IgnoresLink, KeepsLinks, KeepsAllButLinks, KeepsAllButLinks-set_link,
  KeepsAllButLinks-append_frames, link-append_frames, set_link_other,
}
use new_rpc.Coroutine.Fetched.{fetch_nodes_lem}
use new_rpc.Coroutine.Parting.{
  Fresh-select, Chain-KeepsLinks, Apart-sym, Apart-snoc_right, select-Apart, Apart-select,
  length-select-le, IsQueue-KeepsLinks, IsQueue-append_frames,
}
use new_rpc.Time.Wheel.{World, put_bucket, commit, commit_all, is_due, wakeup_frame_on_bucket}

-- One round of the loop that commits.
commit_all_step :
    (n : ℕ) (w : World) (q q1 q2 : CoroutineQueue) (fr1 fr2 : Frames) (x : ℕ)
    → pop_from_head w.frames q ≡ ok (fr1, q1, x)
    → commit (record w { frames = fr1 }) x ≡ ok (record w { frames = fr2; ready = q2 })
    → commit_all (suc n) w q ≡ commit_all n (record w { frames = fr2; ready = q2 }) q1
unfolding commit_all
commit_all_step n w q q1 q2 fr1 fr2 x popped committed =
    ap
      (λ (o : Result (Frames × CoroutineQueue × ℕ)). o >>= λ (fr, q', frame).
        commit (record w { frames = fr }) frame >>= λ w'. commit_all n w' q')
      popped
    ∙ ap (λ (o : Result World). o >>= λ w'. commit_all n w' q1) committed

-- The frames `ts` go from their queue to the end of the ready ones; other frames keep their links.
commit_all_lem :
    (ts : List ℕ) (w : World) (q : CoroutineQueue) (ys : List ℕ)
    → IsQueue w.frames q ts
    → IsQueue w.frames w.ready ys
    → Apart ts ys
    → length ts + length ys + 1 < 2 ^ 64
    → (w' : World) × (commit_all (length ts) w q ≡ ok w')
      × IsQueue w'.frames w'.ready (ys ++ ts)
      × (w'.service ≡ w.service)
      × KeepsLinks w.frames w'.frames ts ys
      × KeepsAllButLinks w.frames w'.frames
unfolding commit commit_all
commit_all_lem [] w q ys v r a room =
    (w, refl, rw (append-nil ys) r, refl, (λ p f g. refl), λ p. refl)
commit_all_lem (x ∷ ts) w q ys v r a room =
    let (q1, popped, rest) = pop_from_head_lem w.frames q x ts v in
    let fr1 = set_link w.frames x 0 in
    let null_link : (fr1 x).in_queue_link_next ≡ 0 = ground (arith, link-set_link w.frames x 0 x) in
    let (q2, appended, longer) =
      append_to_tail_lem fr1 w.ready ys x (IsQueue-set_link w.frames w.ready x 0 ys a.0 r) a.0
        v.chain.1 null_link (omega arith) in
    let fr2 = append_frames fr1 ys x in
    let committed : commit (record w { frames = fr1 }) x
        ≡ ok (record w { frames = fr2; ready = q2 }) =
      ap
        (λ (o : Result (Frames × CoroutineQueue)).
          o >>= λ (fr, q'). ok (record w { frames = fr; ready = q' }))
        appended in
    let (w', done, ready, same, kept, unchanged) =
      commit_all_lem ts (record w { frames = fr2; ready = q2 }) q1 (ys ++ (x ∷ []))
        (IsQueue-append_frames fr1 ys x q1 ts (Apart-sym ts ys a.1) rest) longer
        (Apart-snoc_right x ts ys v.distinct.0 a.1) (omega (arith, length-append ys (x ∷ []))) in
    (
      w',
      commit_all_step (length ts) w q q1 q2 fr1 fr2 x popped committed ∙ done,
      rw (append_assoc ys (x ∷ []) ts) at ready,
      same,
      λ p f g.
          kept p f.1 (Fresh-snoc p ys x g f.0)
          ∙ link-append_frames fr1 ys x p g
          ∙ set_link_other w.frames x 0 p f.0,
      λ p.
          unchanged p
          ∙ KeepsAllButLinks-append_frames fr1 ys x p
          ∙ KeepsAllButLinks-set_link w.frames x 0 p,
    )

-- The bucket after `fetch_nodes`.
abbrev scanned : World → (idx now : ℕ) → Frames → CoroutineQueue → World
scanned w idx now fr waiting =
    put_bucket (record w { frames = fr }) idx
      (record { scan_over_ts = now; waiting_queue = waiting })

wakeup_fetched :
    (w : World) (idx now : ℕ) (force_awake : Bool) (fr : Frames) (q t : CoroutineQueue)
    → fetch_nodes
        (is_due now force_awake)
        w.frames
        (w.service.buckets idx).waiting_queue
        (some empty_queue)
      ≡ ok (fr, q, some t)
    → wakeup_frame_on_bucket w idx now force_awake ≡ commit_all t.size (scanned w idx now fr q) t
unfolding wakeup_frame_on_bucket
wakeup_fetched w idx now force_awake fr q t done = rw done refl

is_due_ignores : (now : ℕ) (force_awake : Bool) → IgnoresLink (is_due now force_awake)
unfolding is_due
is_due_ignores now force_awake x v = refl

-- What a scan of a bucket leaves: `due` are the frames that are to be woken.
pub record IsScanned (w w' : World) (idx now : ℕ) (due : ℕ → Bool) (xs ys : List ℕ) : Type 0 where
  pub ready : IsQueue w'.frames w'.ready (ys ++ select due true xs)
  pub chain : Chain w'.frames (w'.service.buckets idx).waiting_queue.head (select due false xs)
  pub size : (w'.service.buckets idx).waiting_queue.size ≡ length (select due false xs)
  pub time : (w'.service.buckets idx).scan_over_ts ≡ now
  pub others : (i : ℕ) → idx ≢ i → w'.service.buckets i ≡ w.service.buckets i
  pub kept : KeepsLinks w.frames w'.frames xs ys
  pub unchanged : KeepsAllButLinks w.frames w'.frames

-- The scan of a bucket, whatever its `tail_` is.
pub wakeup_frame_on_bucket-IsScanned :
    (w : World) (idx now : ℕ) (force_awake : Bool) (xs ys : List ℕ)
    → Chain w.frames (w.service.buckets idx).waiting_queue.head xs
    → (w.service.buckets idx).waiting_queue.size ≡ length xs
    → Distinct xs
    → IsQueue w.frames w.ready ys
    → Apart xs ys
    → length xs + length ys + 1 < 2 ^ 64
    → (w' : World) × (wakeup_frame_on_bucket w idx now force_awake ≡ ok w')
      × IsScanned w w' idx now (λ p. is_due now force_awake (w.frames p)) xs ys
wakeup_frame_on_bucket-IsScanned w idx now force_awake xs ys c s d r a room =
    let due = λ (p : ℕ). is_due now force_awake (w.frames p) in
    let bucket = (w.service.buckets idx).waiting_queue in
    let (fr, q, t, done, end, kept, unchanged) =
      fetch_nodes_lem (is_due now force_awake) w.frames bucket xs (is_due_ignores now force_awake) c
        s d (omega arith) in
    let back = Apart-sym xs ys a in
    let w1 = scanned w idx now fr q in
    let (w', woken, ready, same, kept', unchanged') =
      commit_all_lem (select due true xs) w1 t ys end.target
        (IsQueue-KeepsLinks w.frames fr xs w.ready ys kept back r)
        (Apart-sym ys (select due true xs) (Apart-select due true ys xs back))
        (omega (arith, length-select-le due xs)) in
    let here : (w'.service.buckets idx) ≡ record { scan_over_ts = now; waiting_queue = q } =
      ap (λ s. s.buckets idx) same ∙ ground (arith, (==_iff idx idx).1 refl) in
    let left = select due false xs in
    (
      w',
      wakeup_fetched w idx now force_awake fr q t done
          ∙ ap (λ n. commit_all n w1 t) end.target.size
          ∙ woken,
      record {
        ready = ready;
        chain = rw here (
            Chain-KeepsLinks fr w'.frames (select due true xs) ys q.head left kept'
              (Apart-sym (select due true xs) left (select-Apart due xs d))
              (Apart-sym ys left (Apart-select due false ys xs back)) end.chain);
        size = rw here end.size;
        time = rw here refl;
        others = λ i h. ap (λ s. s.buckets i) same ∙ ground (arith, h);
        kept = λ p f g. kept' p (Fresh-select p due true xs f) g ∙ kept p f tt;
        unchanged = λ p. unchanged' p ∙ unchanged p;
      },
    )

-- A scan of a bucket at the time `now` gives the frames in it that are due to the scheduler, behind
-- those that are ready and in the order in which they stood; the others stay in the bucket's chain, in
-- order and counted right; and the time of the scan is noted. The call does not abort. A frame is due
-- if its time has come, or in any case if all are to be woken. The frames in the bucket and those that
-- are ready are different ones, and there are fewer than 2 ^ 64 - 1 of them.
pub wakeup_frame_on_bucket-IsQueue :
    (w : World) (idx now : ℕ) (force_awake : Bool) (xs ys : List ℕ)
    → IsQueue w.frames (w.service.buckets idx).waiting_queue xs
    → IsQueue w.frames w.ready ys
    → Apart xs ys
    → length xs + length ys + 1 < 2 ^ 64
    → let due = λ (p : ℕ). is_due now force_awake (w.frames p) in
      (w' : World) × (wakeup_frame_on_bucket w idx now force_awake ≡ ok w')
      × IsQueue w'.frames w'.ready (ys ++ select due true xs)
      × Chain w'.frames (w'.service.buckets idx).waiting_queue.head (select due false xs)
      × ((w'.service.buckets idx).waiting_queue.size ≡ length (select due false xs))
      × ((w'.service.buckets idx).scan_over_ts ≡ now)
wakeup_frame_on_bucket-IsQueue w idx now force_awake xs ys v r a room =
    let (w', woken, end) =
      wakeup_frame_on_bucket-IsScanned w idx now force_awake xs ys v.chain v.size v.distinct r a
        room in
    (w', woken, end.ready, end.chain, end.size, end.time)
