-- ===== src/Kernel/Ipc/Chain.antt =====
-- The list of the processes that wait at a port: what `blocked_list_head`, `blocked_list_tail` and
-- the `next_blocked` fields spell out, and what `add_to_send_blocked_list` and `receive` do to it.
use tos_sfsu_fall.Base.{
  ◌≡◌, ◌≢◌, refl, List, [], ◌∷◌, ◌++◌, arith, ◌==◌, if◌then◌else◌, ◌∈◌, ◌∉◌, Distinct, ==_iff,
  ==_ne,
}
use tos_sfsu_fall.Kernel.State.{Ptr, null, Kernel}
use tos_sfsu_fall.Kernel.Ipc.{block_on, unblock_first}
use tos_sfsu_fall.Kernel.Dispatch.Ring.{last, last-mem}
use tos_sfsu_fall.Kernel.Dispatch.Inv.{next, prev, state, priority}

abbrev pub next_blocked : Kernel → Ptr → Ptr
next_blocked k p = (k.pcb p).next_blocked

abbrev pub head_of : Kernel → Ptr → Ptr
head_of k t = (k.port t).blocked_list_head

abbrev pub tail_of : Kernel → Ptr → Ptr
tail_of k t = (k.port t).blocked_list_tail

abbrev pub Chain : (nb : Ptr → Ptr) → Ptr → List Ptr → Type 0
Chain nb h [] = h ≡ null
Chain nb h (x ∷ xs) = (h ≡ x) × Chain nb (nb x) xs

-- The tail pointer, where the list is not empty.
abbrev pub IsTail : Ptr → List Ptr → Type 0
IsTail t [] = Unit
IsTail t (x ∷ xs) = t ≡ last x xs

-- The processes `xs` wait at port `t`, in this order.
pub record IsWaitList (k : Kernel) (t : Ptr) (xs : List Ptr) : Type 0 where
  pub chain : Chain (next_blocked k) (head_of k t) xs
  pub tail : IsTail (tail_of k t) xs

pub Chain-frame :
    (nb nb' : Ptr → Ptr) (h : Ptr) (xs : List Ptr)
    → Chain nb h xs
    → ((q : Ptr) → q ∈ xs → nb' q ≡ nb q)
    → Chain nb' h xs
Chain-frame nb nb' h [] c same = c
Chain-frame nb nb' h (x ∷ xs) c same = (
  c.0,
  Chain-frame nb nb' (nb' x) xs (rw (same x (ground arith)) c.1) λ q m. same q (ground arith),
)

-- A new last process `p`: the field of the old last one is turned to `p`.
Chain-push :
    (nb nb' : Ptr → Ptr) (x p : Ptr) (xs : List Ptr)
    → Chain nb (nb x) xs
    → Distinct (x ∷ xs)
    → p ∉ (x ∷ xs)
    → nb' p ≡ null
    → ((q : Ptr) → q ∈ (x ∷ xs) → nb' q ≡ (if q == last x xs then p else nb q))
    → Chain nb' (nb' x) (xs ++ (p ∷ []))
Chain-push nb nb' x p [] c d out e same = (ground (arith, same x), e)
Chain-push nb nb' x p (y ∷ xs) c d out e same = (
  ground (arith, same x, last-mem y xs),
  Chain-push nb nb' y p xs c.1 d.1 (ground arith) e λ q m. same q (ground arith),
)

-- What `block_on` leaves alone.
pub block_on-fields :
    (k : Kernel) (t p a : Ptr)
    → (state (block_on k t p) a ≡ state k a)
      × (priority (block_on k t p) a ≡ priority k a)
      × (next (block_on k t p) a ≡ next k a)
      × (prev (block_on k t p) a ≡ prev k a)
      × (((block_on k t p).pcb a).magic ≡ (k.pcb a).magic)
      × (((block_on k t p).pcb a).used ≡ (k.pcb a).used)
unfolding block_on
block_on-fields k t p a = ground arith

pub block_on-globals :
    (k : Kernel) (t p : Ptr)
    → ((block_on k t p).ready_queue ≡ k.ready_queue)
      × ((block_on k t p).ready_procs ≡ k.ready_procs)
      × ((block_on k t p).active_proc ≡ k.active_proc)
unfolding block_on
block_on-globals k t p = ground arith

block_on-chain :
    (k : Kernel) (t p a : Ptr)
    → (next_blocked (block_on k t p) a ≡ (
        if a == p
        then null
        else if a == tail_of k t
        then (if head_of k t == null then next_blocked k a else p)
        else next_blocked k a))
      × (head_of (block_on k t p) a
          ≡ (if a == t then (if head_of k t == null then p else head_of k t) else head_of k a))
      × (tail_of (block_on k t p) a ≡ (if a == t then p else tail_of k a))
unfolding block_on
block_on-chain k t p a = ground arith

last-push : (x p : Ptr) (xs : List Ptr) → last x (xs ++ (p ∷ [])) ≡ p
last-push x p [] = refl
last-push x p (y ∷ xs) = last-push y p xs

-- Where the list of the port is well formed and duplicate-free, the writes of
-- `add_to_send_blocked_list` keep it so and put a process that is not in it behind all who wait
-- there.
pub block_on-IsWaitList :
    (k : Kernel) (t p : Ptr) (xs : List Ptr)
    → IsWaitList k t xs
    → Distinct xs
    → p ∉ xs
    → p ≢ null
    → null ∉ xs
    → IsWaitList (block_on k t p) t (xs ++ (p ∷ []))
block_on-IsWaitList k t p [] w d out ne nulls = record {
  chain = (
    ground (arith, w.chain, block_on-chain k t p t),
    ground (arith, w.chain, block_on-chain k t p p),
  );
  tail = ground (arith, block_on-chain k t p t);
}
block_on-IsWaitList k t p (x ∷ xs) w d out ne nulls = record {
  chain = (
    ground (arith, w.chain.0, block_on-chain k t p t),
    Chain-push (next_blocked k) (next_blocked (block_on k t p)) x p xs w.chain.1 d out
        (ground (arith, block_on-chain k t p p))
        (λ a m. ground (arith, block_on-chain k t p a, w.chain.0, w.tail, ==_iff a p)),
  );
  tail = ground (arith, block_on-chain k t p t, last-push x p xs);
}

-- The lists of the other ports stay.
pub block_on-IsWaitList_other :
    (k : Kernel) (t p u : Ptr) (xs ys : List Ptr)
    → IsWaitList k t xs
    → IsWaitList k u ys
    → u ≢ t
    → p ∉ ys
    → ((a : Ptr) → a ∈ ys → a ∉ xs)
    → IsWaitList (block_on k t p) u ys
block_on-IsWaitList_other k t p u xs ys w v ne out apart = record {
  chain = rw (same_head) (
      Chain-frame (next_blocked k) (next_blocked (block_on k t p)) (head_of k u) ys v.chain
        λ a m. same xs w a (ground (arith, ==_iff a p)) (apart a m));
  tail = rw same_tail v.tail;
}
  where
    same_head : head_of (block_on k t p) u ≡ head_of k u
    same_head = ground (arith, block_on-chain k t p u)

    same_tail : tail_of (block_on k t p) u ≡ tail_of k u
    same_tail = ground (arith, block_on-chain k t p u)

    same :
        (zs : List Ptr)
        → IsWaitList k t zs
        → (a : Ptr) → a ≢ p
        → a ∉ zs
        → next_blocked (block_on k t p) a ≡ next_blocked k a
    same [] z a a_ne free = ground (arith, block_on-chain k t p a, z.chain)
    same (x ∷ zs) z a a_ne free =
        ground
          (arith, block_on-chain k t p a, z.chain.0, z.tail, last-mem x zs, ==_iff a (tail_of k t))

pub unblock_first-globals :
    (k : Kernel) (t : Ptr)
    → ((unblock_first k t).pcb ≡ k.pcb)
      × ((unblock_first k t).ready_queue ≡ k.ready_queue)
      × ((unblock_first k t).ready_procs ≡ k.ready_procs)
      × ((unblock_first k t).active_proc ≡ k.active_proc)
unfolding unblock_first
unblock_first-globals k t = (refl, refl, refl, refl)

-- Where the list of the port is well formed and not empty, `receive` takes its first process off
-- and keeps it well formed.
pub unblock_first-IsWaitList :
    (k : Kernel) (t x : Ptr) (xs : List Ptr)
    → IsWaitList k t (x ∷ xs)
    → null ∉ (x ∷ xs)
    → IsWaitList (unblock_first k t) t xs
unfolding unblock_first
unblock_first-IsWaitList k t x [] w nulls = record { chain = ground (arith, w.chain); tail = tt }
unblock_first-IsWaitList k t x (y ∷ xs) w nulls = record {
  chain = (ground (arith, w.chain.0, w.chain.1.0), w.chain.1.1);
  tail = ground (arith, w.chain.0, w.chain.1.0, w.tail);
}

pub unblock_first-IsWaitList_other :
    (k : Kernel) (t u : Ptr) (ys : List Ptr)
    → IsWaitList k u ys
    → u ≢ t
    → IsWaitList (unblock_first k t) u ys
unfolding unblock_first
unblock_first-IsWaitList_other k t u ys v ne = record {
  chain = rw (==_ne u t ne, head_of) v.chain;
  tail = rw (==_ne u t ne, tail_of) v.tail;
}
