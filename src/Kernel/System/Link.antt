-- ===== src/Kernel/System/Link.antt =====
-- What the writes of the kernel operations do to the queues and lists as data structures.
use tos_sfsu_fall.Base.{
  ℕ, ◌≡◌, ◌≢◌, refl, ◌∙◌, List, ◌∷◌, arith, ◌==◌, if◌then◌else◌, subst, sym, ◌∈◌, ◌∉◌, Distinct,
  Bool-cases, ==_iff, inl, inr,
}
use tos_sfsu_fall.Kernel.State.{Ptr, null, Kernel, ProcState, update}
use tos_sfsu_fall.Kernel.Dispatch.{link_alone, link_last, enqueue, dequeue}
use tos_sfsu_fall.Kernel.Dispatch.Inv.{next, prev, state, priority, Levels}
use tos_sfsu_fall.Kernel.Dispatch.Enqueue.{enqueue-fields, enqueue-IsReady}
use tos_sfsu_fall.Kernel.Dispatch.Dequeue.{dequeue-fields, dequeue-IsReady}
use tos_sfsu_fall.Kernel.Ipc.{block_on, unblock_first, set_state, set_data, deliver}
use tos_sfsu_fall.Kernel.Ipc.Chain.{
  next_blocked, head_of, IsWaitList, Chain-frame, block_on-fields, block_on-globals,
  block_on-IsWaitList, block_on-IsWaitList_other, unblock_first-globals, unblock_first-IsWaitList,
  unblock_first-IsWaitList_other,
}
use tos_sfsu_fall.Kernel.System.{
  Waits, used, IsProc, IsLinked, IsReady-frame, enter, leave, wait_at,
}

-- The fields of a process that only messages use.
abbrev pub first_port : Kernel → Ptr → Ptr
first_port k p = (k.pcb p).first_port

abbrev pub param_proc : Kernel → Ptr → Ptr
param_proc k p = (k.pcb p).param_proc

abbrev pub param_data : Kernel → Ptr → ℕ
param_data k p = (k.pcb p).param_data

link_last-rest :
    (k : Kernel) (p x a : Ptr)
    → (used (link_last k p x) a ≡ used k a)
      × (next_blocked (link_last k p x) a ≡ next_blocked k a)
      × (param_proc (link_last k p x) a ≡ param_proc k a)
      × (param_data (link_last k p x) a ≡ param_data k a)
      × (first_port (link_last k p x) a ≡ first_port k a)
unfolding link_last
link_last-rest k p x a = ground arith

pub enqueue-rest :
    (k : Kernel) (p a : Ptr)
    → (used (enqueue k p) a ≡ used k a)
      × (next_blocked (enqueue k p) a ≡ next_blocked k a)
      × (param_proc (enqueue k p) a ≡ param_proc k a)
      × (param_data (enqueue k p) a ≡ param_data k a)
      × (first_port (enqueue k p) a ≡ first_port k a)
unfolding enqueue link_alone
enqueue-rest k p a = ground (
  arith,
  link_last-rest k p (k.ready_queue (priority k p)) a,
  link_last-rest k p (k.ready_queue (priority k p)) p,
)

pub enqueue-globals :
    (k : Kernel) (p : Ptr)
    → ((enqueue k p).port ≡ k.port) × ((enqueue k p).active_proc ≡ k.active_proc)
unfolding enqueue link_alone link_last
enqueue-globals k p = ground arith

pub dequeue-rest :
    (k : Kernel) (p a : Ptr)
    → (used (dequeue k p) a ≡ used k a)
      × (next_blocked (dequeue k p) a ≡ next_blocked k a)
      × (param_proc (dequeue k p) a ≡ param_proc k a)
      × (param_data (dequeue k p) a ≡ param_data k a)
      × (first_port (dequeue k p) a ≡ first_port k a)
unfolding dequeue
dequeue-rest k p a = ground arith

pub dequeue-globals :
    (k : Kernel) (p : Ptr)
    → ((dequeue k p).port ≡ k.port) × ((dequeue k p).active_proc ≡ k.active_proc)
unfolding dequeue
dequeue-globals k p = ground arith

IsWaitList-frame :
    (k k' : Kernel) (t : Ptr) (xs : List Ptr)
    → IsWaitList k t xs
    → k'.port ≡ k.port
    → ((a : Ptr) → next_blocked k' a ≡ next_blocked k a)
    → IsWaitList k' t xs
IsWaitList-frame k k' t xs w ports same = record {
  chain =
      rw ports
        (Chain-frame (next_blocked k) (next_blocked k') (head_of k t) xs w.chain λ a m. same a);
  tail = rw ports w.tail;
}

-- Two kernels with the same links, lists and processes; states and messages may differ.
pub record SameLinks (k k' : Kernel) : Type 0 where
  pub heads : k'.ready_queue ≡ k.ready_queue
  pub bits : k'.ready_procs ≡ k.ready_procs
  pub ports : k'.port ≡ k.port
  pub links : (a : Ptr) → (next k' a ≡ next k a) × (prev k' a ≡ prev k a)
  pub waits : (a : Ptr) → next_blocked k' a ≡ next_blocked k a
  pub fixed :
      (a : Ptr)
      → (priority k' a ≡ priority k a)
        × ((k'.pcb a).magic ≡ (k.pcb a).magic)
        × (used k' a ≡ used k a)

pub SameLinks-refl : (k : Kernel) → SameLinks k k
SameLinks-refl k = record {
  heads = refl;
  bits = refl;
  ports = refl;
  links = λ a. (refl, refl);
  waits = λ a. refl;
  fixed = λ a. (refl, refl, refl);
}

module _ (k : Kernel) (q : Levels) (b : Waits) (s : IsLinked k q b) where
  open s use {queues, lists, procs}

  pub IsLinked-same : (k' : Kernel) → SameLinks k k' → IsLinked k' q b
  IsLinked-same k' e = record {
    queues =
        IsReady-frame k k' q queues e.heads e.bits
          λ a. ((e.links a).0, (e.links a).1, (e.fixed a).0, (e.fixed a).1);
    lists = λ t. IsWaitList-frame k k' t (b t) (lists t) e.ports e.waits;
    procs = λ p u. ground (arith, e.fixed p, procs p);
  }

  pub IsLinked-enqueue :
      (p : Ptr)
      → IsProc k p
      → p ∉ q (priority k p)
      → IsLinked (enqueue k p) (enter q (priority k p) p) b
  IsLinked-enqueue p proc out = record {
    queues = enqueue-IsReady k q queues p proc.small proc.ne_null proc.has_magic out;
    lists = λ t.
        IsWaitList-frame k (enqueue k p) t (b t) (lists t) (enqueue-globals k p).0
          λ a. (enqueue-rest k p a).1;
    procs = λ a u. ground (arith, enqueue-fields k p a, enqueue-rest k p a, procs a);
  }

  pub IsLinked-dequeue :
      (p : Ptr) → p ∈ q (priority k p) → IsLinked (dequeue k p) (leave q (priority k p) p) b
  IsLinked-dequeue p mem = record {
    queues = dequeue-IsReady k q queues p mem;
    lists = λ t.
        IsWaitList-frame k (dequeue k p) t (b t) (lists t) (dequeue-globals k p).0
          λ a. (dequeue-rest k p a).1;
    procs = λ a u. ground (arith, dequeue-fields k p a, dequeue-rest k p a, procs a);
  }

  pub IsLinked-block_on :
      (p t : Ptr)
      → p ≢ null
      → ((u : Ptr) → (p ∉ b u) × (null ∉ b u) × Distinct (b u))
      → ((u v a : Ptr) → a ∈ b u → a ∈ b v → u ≡ v)
      → IsLinked (block_on k t p) q (wait_at b t p)
  IsLinked-block_on p t ne free apart = record {
    queues =
        IsReady-frame k (block_on k t p) q queues (block_on-globals k t p).0
          (block_on-globals k t p).1 λ a. ground (arith, block_on-fields k t p a);
    lists = λ u. elim (Bool-cases (u == t)) [
      | inl e ↦
          rw (e, (==_iff u t).0 e)
            (block_on-IsWaitList k t p (b t) (lists t) (free t).2 (free t).0 ne (free t).1)
      | inr e ↦ rw e (
          block_on-IsWaitList_other k t p u (b t) (b u) (lists t) (lists u) (ground arith)
            (free u).0 λ a m. ground (arith, apart u t a))
    ];
    procs = λ a u. ground (arith, block_on-fields k t p a, procs a);
  }

  pub IsLinked-unblock_first :
      (t x : Ptr) (xs : List Ptr)
      → b t ≡ x ∷ xs
      → null ∉ (x ∷ xs)
      → IsLinked (unblock_first k t) q (update b t xs)
  IsLinked-unblock_first t x xs e nulls = record {
    queues =
        IsReady-frame k (unblock_first k t) q queues (unblock_first-globals k t).1
          (unblock_first-globals k t).2
          λ a. rw (unblock_first-globals k t).0 (refl, refl, refl, refl);
    lists = λ u. elim (Bool-cases (u == t)) [
      | inl same ↦
          rw (same, (==_iff u t).0 same)
            (unblock_first-IsWaitList k t x xs (subst (IsWaitList k t) e (lists t)) nulls)
      | inr other ↦ rw other (unblock_first-IsWaitList_other k t u (b u) (lists u) (ground arith))
    ];
    procs = λ a u. ground (arith, unblock_first-globals k t, procs a);
  }

  -- The same with the level given.
  pub IsLinked-enqueue_at :
      (p i : ℕ) → priority k p ≡ i → IsProc k p → p ∉ q i → IsLinked (enqueue k p) (enter q i p) b
  IsLinked-enqueue_at p i e proc out =
      subst (λ j. IsLinked (enqueue k p) (enter q j p) b) e
        (IsLinked-enqueue p proc (subst (λ j. p ∉ q j) (sym e) out))

  pub IsLinked-dequeue_at :
      (p i : ℕ) → priority k p ≡ i → p ∈ q i → IsLinked (dequeue k p) (leave q i p) b
  IsLinked-dequeue_at p i e mem =
      subst (λ j. IsLinked (dequeue k p) (leave q j p) b) e
        (IsLinked-dequeue p (subst (λ j. p ∈ q j) (sym e) mem))

-- The writes of states and messages touch no link.
pub SameLinks-set_state : (k : Kernel) (p : Ptr) (s : ProcState) → SameLinks k (set_state k p s)
unfolding set_state
SameLinks-set_state k p s = record {
  heads = refl;
  bits = refl;
  ports = refl;
  links = λ a. ground arith;
  waits = λ a. ground arith;
  fixed = λ a. ground arith;
}

pub SameLinks-set_data : (k : Kernel) (p : Ptr) (d : ℕ) → SameLinks k (set_data k p d)
unfolding set_data
SameLinks-set_data k p d = record {
  heads = refl;
  bits = refl;
  ports = refl;
  links = λ a. ground arith;
  waits = λ a. ground arith;
  fixed = λ a. ground arith;
}

pub SameLinks-deliver : (k : Kernel) (p : Ptr) (d : ℕ) → SameLinks k (deliver k p d)
unfolding deliver
SameLinks-deliver k p d = record {
  heads = refl;
  bits = refl;
  ports = refl;
  links = λ a. ground arith;
  waits = λ a. ground arith;
  fixed = λ a. ground arith;
}

pub set_state-fields :
    (k : Kernel) (p : Ptr) (s : ProcState) (a : Ptr)
    → (state (set_state k p s) a ≡ (if a == p then s else state k a))
      × (param_proc (set_state k p s) a ≡ param_proc k a)
      × (param_data (set_state k p s) a ≡ param_data k a)
      × ((set_state k p s).active_proc ≡ k.active_proc)
unfolding set_state
set_state-fields k p s a = ground arith

pub set_data-fields :
    (k : Kernel) (p : Ptr) (d a : ℕ)
    → (state (set_data k p d) a ≡ state k a)
      × (param_proc (set_data k p d) a ≡ param_proc k a)
      × (param_data (set_data k p d) a ≡ (if a == p then d else param_data k a))
      × ((set_data k p d).active_proc ≡ k.active_proc)
unfolding set_data
set_data-fields k p d a = ground arith

pub deliver-fields :
    (k : Kernel) (p : Ptr) (d a : ℕ)
    → (state (deliver k p d) a ≡ state k a)
      × (param_proc (deliver k p d) a ≡ (if a == p then k.active_proc else param_proc k a))
      × (param_data (deliver k p d) a ≡ (if a == p then d else param_data k a))
      × ((deliver k p d).active_proc ≡ k.active_proc)
unfolding deliver
deliver-fields k p d a = ground arith

pub SameLinks-trans : {k l m : Kernel} → SameLinks k l → SameLinks l m → SameLinks k m
SameLinks-trans e f = record {
  heads = f.heads ∙ e.heads;
  bits = f.bits ∙ e.bits;
  ports = f.ports ∙ e.ports;
  links = λ a. ((f.links a).0 ∙ (e.links a).0, (f.links a).1 ∙ (e.links a).1);
  waits = λ a. f.waits a ∙ e.waits a;
  fixed = λ a.
      ((f.fixed a).0 ∙ (e.fixed a).0, (f.fixed a).1 ∙ (e.fixed a).1, (f.fixed a).2 ∙ (e.fixed a).2);
}
