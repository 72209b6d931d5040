-- ===== src/Coroutine/CallChain.antt =====
-- The chain of calls of a coroutine: a ring from the root through its callees.
use new_rpc.Base.{
  ℕ, ◌≡◌, ◌≢◌, sym, ◌∙◌, false, none, some, ◌==◌, if◌then◌else◌, List, [], ◌∷◌, ◌++◌, arith,
}
use new_rpc.Serialization.Memory.{ok, Endian}
use new_rpc.Serialization.Types.{Ty, Val}
use new_rpc.Coroutine.Frame.{Frames}
use new_rpc.Coroutine.Chain.{Fresh, Distinct, last_of, last_of-Fresh, Distinct-snoc}
use new_rpc.Coroutine.Task.{remove_self, is_alone, await_transform, final_suspend}

-- From `x` on, the chain goes through `xs` and back to the root, in both directions.
abbrev pub Linked : Frames → (root x : ℕ) → List ℕ → Type 0
Linked fr root x [] = ((fr x).next ≡ root) × ((fr root).prev ≡ x)
Linked fr root x (y ∷ ys) = ((fr x).next ≡ y) × ((fr y).prev ≡ x) × Linked fr root y ys

-- The frames of one chain of calls: the root, and the coroutines `xs` that were called, the last of
-- which is running.
pub record IsCallChain (fr : Frames) (root : ℕ) (xs : List ℕ) : Type 0 where
  pub linked : Linked fr root root xs
  pub distinct : Distinct (root ∷ xs)

next-await_transform :
    (fr : Frames) (self callee p : ℕ)
    → self ≢ callee
    → (await_transform fr self callee p).next
      ≡ (if callee == p then (fr self).next else if self == p then callee else (fr p).next)
unfolding await_transform
next-await_transform fr self callee p h = ground arith

prev-await_transform :
    (fr : Frames) (self callee p : ℕ)
    → callee ≢ (fr self).next
    → (await_transform fr self callee p).prev
      ≡ (if (fr self).next == p then callee else if callee == p then self else (fr p).prev)
unfolding await_transform
prev-await_transform fr self callee p h = ground arith

next-remove_self :
    (fr : Frames) (self p : ℕ)
    → is_alone fr self ≡ false
    → (remove_self fr self p).next
      ≡ (if self == p then 0 else if (fr self).prev == p then (fr self).next else (fr p).next)
unfolding remove_self
next-remove_self fr self p h = ground arith

prev-remove_self :
    (fr : Frames) (self p : ℕ)
    → is_alone fr self ≡ false
    → (remove_self fr self p).prev
      ≡ (if self == p then 0 else if (fr self).next == p then (fr self).prev else (fr p).prev)
unfolding remove_self
prev-remove_self fr self p h = ground arith

next-last_of :
    (fr : Frames) (root x : ℕ) (xs : List ℕ) → Linked fr root x xs → (fr (last_of x xs)).next ≡ root
next-last_of fr root x [] l = l.0
next-last_of fr root x (y ∷ ys) l = next-last_of fr root y ys l.2

await-Linked :
    (fr : Frames) (root x : ℕ) (xs : List ℕ) (callee : ℕ)
    → Linked fr root x xs
    → Distinct (x ∷ xs)
    → Fresh root xs
    → Fresh callee (root ∷ x ∷ xs)
    → Linked (await_transform fr (last_of x xs) callee) root x (xs ++ (callee ∷ []))
await-Linked fr root x [] callee l d r f =
    let apart : x ≢ callee = λ e. f.1.0 (sym e) in
    let off : callee ≢ (fr x).next = λ e. f.0 (e ∙ l.0) in
    let nx = next-await_transform fr x callee in
    let pv = prev-await_transform fr x callee in
    (
      ground (arith, nx x apart, l.0, f.1.0),
      ground (arith, pv callee off, l.0, f.0),
      (ground (arith, nx callee apart, l.0), ground (arith, pv root off, l.0)),
    )
await-Linked fr root x (y ∷ ys) callee l d r f =
    let top = last_of y ys in
    let next = next-last_of fr root y ys l.2 in
    let apart : top ≢ callee = λ e. last_of-Fresh callee y ys f.1.1 (sym e) in
    let off : callee ≢ (fr top).next = λ e. f.0 (e ∙ next) in
    (
      ground
          (arith, next-await_transform fr top callee x apart, l.0, f.1.0, last_of-Fresh x y ys d.0),
      ground (arith, prev-await_transform fr top callee y off, l.1, f.1.1, r.0, next),
      await-Linked fr root y ys callee l.2 d.1 r.1 (f.0, f.1.1),
    )

-- When the running coroutine of a chain awaits another one that is in no chain of these frames, the
-- callee joins the chain as its last frame, whatever its own links were.
pub await_transform-IsCallChain :
    (fr : Frames) (root : ℕ) (xs : List ℕ) (callee : ℕ)
    → IsCallChain fr root xs
    → Fresh callee (root ∷ xs)
    → IsCallChain (await_transform fr (last_of root xs) callee) root (xs ++ (callee ∷ []))
await_transform-IsCallChain fr root xs callee c f = record {
  linked = await-Linked fr root root xs callee c.linked c.distinct c.distinct.0 (f.0, f);
  distinct = Distinct-snoc (root ∷ xs) callee c.distinct f;
}

-- The two ends of the last frame's links.
prev-callee :
    (fr : Frames) (root x : ℕ) (xs : List ℕ) (callee : ℕ)
    → Linked fr root x (xs ++ (callee ∷ []))
    → ((fr callee).prev ≡ last_of x xs) × ((fr callee).next ≡ root)
prev-callee fr root x [] callee l = (l.1, l.2.0)
prev-callee fr root x (y ∷ ys) callee l = prev-callee fr root y ys callee l.2

Fresh-unsnoc : (b : ℕ) (xs : List ℕ) (a : ℕ) → Fresh b (xs ++ (a ∷ [])) → Fresh b xs × (b ≢ a)
Fresh-unsnoc b [] a f = (tt, f.0)
Fresh-unsnoc b (x ∷ xs) a f = ((f.0, (Fresh-unsnoc b xs a f.1).0), (Fresh-unsnoc b xs a f.1).1)

Distinct-unsnoc : (xs : List ℕ) (a : ℕ) → Distinct (xs ++ (a ∷ [])) → Distinct xs × Fresh a xs
Distinct-unsnoc [] a d = (tt, tt)
Distinct-unsnoc (x ∷ xs) a d =
    let (f, apart) = Fresh-unsnoc x xs a d.0 in
    let (d', f') = Distinct-unsnoc xs a d.1 in ((f, d'), (λ e. apart (sym e), f'))

remove-Linked :
    (fr : Frames) (root x : ℕ) (xs : List ℕ) (callee : ℕ)
    → Linked fr root x (xs ++ (callee ∷ []))
    → is_alone fr callee ≡ false
    → Distinct (x ∷ xs)
    → Fresh root xs
    → Fresh callee (root ∷ x ∷ xs)
    → Linked (remove_self fr callee) root x xs
remove-Linked fr root x [] callee l alone d r f = (
  ground (arith, next-remove_self fr callee x alone, l.1, l.2.0, f.1.0),
  ground (arith, prev-remove_self fr callee root alone, l.1, l.2.0, f.0),
)
remove-Linked fr root x (y ∷ ys) callee l alone d r f =
    let ends = prev-callee fr root y ys callee l.2 in
    (
      ground
          (arith, next-remove_self fr callee x alone, l.0, ends, f.1.0, last_of-Fresh x y ys d.0),
      ground (arith, prev-remove_self fr callee y alone, l.1, ends, f.1.1, r.0),
      remove-Linked fr root y ys callee l.2 alone d.1 r.1 (f.0, f.1.1),
    )

final_suspend-callee :
    (e : Endian) (port : ℕ) (t : Ty) (v : Val t) (fr : Frames) (self running : ℕ)
    → is_alone fr self ≡ false
    → final_suspend e port t v fr self running
      ≡ ok (record {
        frames = remove_self fr self;
        resumed = some (fr self).prev;
        sent = none;
        notified = false;
        running = running;
        destroyed = false;
      })
unfolding final_suspend
final_suspend-callee e port t v fr self running alone = rw alone

-- Calls return in the order of a stack: when the last coroutine of a chain finishes, the thread goes
-- to its caller, the chain is that of the frames before it, nothing is sent or notified, no frame is
-- destroyed, and the scheduler's count of running roots stays.
pub final_suspend-IsCallChain :
    (e : Endian) (port : ℕ) (t : Ty) (v : Val t) (fr : Frames) (root : ℕ) (xs : List ℕ)
    (callee running : ℕ)
    → IsCallChain fr root (xs ++ (callee ∷ []))
    → (fr' : Frames) × (final_suspend e port t v fr callee running
        ≡ ok (record {
          frames = fr';
          resumed = some (last_of root xs);
          sent = none;
          notified = false;
          running = running;
          destroyed = false;
        }))
      × IsCallChain fr' root xs
final_suspend-IsCallChain e port t v fr root xs callee running c =
    let (d, f) = Distinct-unsnoc (root ∷ xs) callee c.distinct in
    let ends = prev-callee fr root root xs callee c.linked in
    let alone : is_alone fr callee ≡ false =
      unfold is_alone in ground (arith, ends.0, last_of-Fresh callee root xs f) in
    (
      remove_self fr callee,
      rw (ends.0) at (final_suspend-callee e port t v fr callee running alone),
      record {
        linked = remove-Linked fr root root xs callee c.linked alone d d.0 (f.0, f);
        distinct = d;
      },
    )
