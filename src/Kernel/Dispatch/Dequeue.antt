-- ===== src/Kernel/Dispatch/Dequeue.antt =====
-- `remove_ready_queue` of kernel/dispatch.c takes a process out of its level, and the process that
-- came after it becomes the first.
use tos_sfsu_fall.Base.{
  ℕ, ◌≡◌, ◌≢◌, ◌<◌, ◌-◌, true, ◌||◌, ◌&&◌, not, List, [], ◌∷◌, arith, ◌==◌, if◌then◌else◌, bit,
  bit_and, ◌^◌, ◌∈◌, ◌∉◌, Distinct, Bool-cases, ==_iff, ==_ne, inl, inr,
}
use tos_sfsu_fall.Kernel.State.{Ptr, null, Kernel, update}
use tos_sfsu_fall.Kernel.Dispatch.{dequeue}
use tos_sfsu_fall.Kernel.Dispatch.Table.{bit-bit_and}
use tos_sfsu_fall.Kernel.Dispatch.Ring.{
  Ring, Ring-frame, Ring-rotate, Linked, last, last-mem, prev-last, Linked-retarget, around,
  has-around, Distinct-around,
}
use tos_sfsu_fall.Kernel.Dispatch.Inv.{next, prev, state, priority, is_cons, Levels, IsReady}

pub dequeue-fields :
    (k : Kernel) (p a : Ptr)
    → (state (dequeue k p) a ≡ state k a)
      × (priority (dequeue k p) a ≡ priority k a)
      × (((dequeue k p).pcb a).magic ≡ (k.pcb a).magic)
unfolding dequeue
dequeue-fields k p a = ground arith

dequeue-links :
    (k : Kernel) (p s t a : Ptr)
    → next k p ≡ s
    → prev k p ≡ t
    → s ≢ p
    → (next (dequeue k p) a ≡ (if a == t then s else next k a))
      × (prev (dequeue k p) a ≡ (if a == s then t else prev k a))
unfolding dequeue
dequeue-links k p s t a e f ne = ground arith

dequeue-links_alone :
    (k : Kernel) (p a : Ptr)
    → next k p ≡ p
    → (next (dequeue k p) a ≡ next k a) × (prev (dequeue k p) a ≡ prev k a)
unfolding dequeue
dequeue-links_alone k p a e = ground arith

dequeue-heads :
    (k : Kernel) (p : Ptr) (i : ℕ)
    → (dequeue k p).ready_queue i
      ≡ (if i == priority k p then (if next k p == p then null else next k p) else k.ready_queue i)
unfolding dequeue
dequeue-heads k p i = ground arith

dequeue-procs :
    (k : Kernel) (p : Ptr)
    → (dequeue k p).ready_procs ≡ (
        if next k p == p
        then bit_and k.ready_procs (2 ^ 32 - 1 - 2 ^ priority k p)
        else k.ready_procs)
unfolding dequeue
dequeue-procs k p = ground arith

-- The ring of the level itself, and the field by which the process still points into it.
Ring-dequeue :
    (k : Kernel) (p : Ptr) (xs : List Ptr)
    → Linked (next k) (prev k) p xs p
    → Distinct (p ∷ xs)
    → Ring (next (dequeue k p)) (prev (dequeue k p)) ((dequeue k p).ready_queue (priority k p)) xs
      × (is_cons xs ≡ true → next (dequeue k p) p ≡ (dequeue k p).ready_queue (priority k p))
Ring-dequeue k p [] l d = (ground (arith, dequeue-heads k p (priority k p)), λ c. ground arith)
Ring-dequeue k p (z ∷ zs) l d = (
  (
    ground (arith, dequeue-heads k p (priority k p)),
    Linked-retarget (next k) (prev k) z p z zs l.2 d.1 (ground arith)
        (λ a m. ground (arith, links a)) (λ a m. ground (arith, links a)),
  ),
  λ c. ground (arith, links p, last-mem z zs, dequeue-heads k p (priority k p)),
)
  where
    links :
        (a : Ptr)
        → (next (dequeue k p) a ≡ (if a == last z zs then z else next k a))
          × (prev (dequeue k p) a ≡ (if a == z then last z zs else prev k a))
    links a =
        dequeue-links k p z (last z zs) a l.0 (prev-last (next k) (prev k) z p zs l.2)
          (ground arith)

dequeue-links_other :
    (k : Kernel) (p a : Ptr) (xs : List Ptr)
    → Linked (next k) (prev k) p xs p
    → Distinct (p ∷ xs)
    → a ≢ p
    → a ∉ xs
    → (next (dequeue k p) a ≡ next k a) × (prev (dequeue k p) a ≡ prev k a)
dequeue-links_other k p a [] l d ne out = dequeue-links_alone k p a l.0
dequeue-links_other k p a (z ∷ zs) l d ne out = ground (
  arith,
  dequeue-links k p z (last z zs) a l.0 (prev-last (next k) (prev k) z p zs l.2) (ground arith),
  last-mem z zs,
  ==_iff a (last z zs),
)

dequeue-bits :
    (k : Kernel) (p : Ptr) (xs : List Ptr) (i : ℕ)
    → Linked (next k) (prev k) p xs p
    → Distinct (p ∷ xs)
    → k.ready_procs < 256
    → priority k p < 8
    → i < 8
    → ((dequeue k p).ready_procs < 256)
      × (bit (dequeue k p).ready_procs i
          ≡ ((is_cons xs || not (i == priority k p)) && bit k.ready_procs i))
dequeue-bits k p [] i l d byte small hi =
    ground (arith, dequeue-procs k p, bit-bit_and k.ready_procs (priority k p) i)
dequeue-bits k p (z ∷ zs) i l d byte small hi = ground (arith, dequeue-procs k p)

module _ (k : Kernel) (q : Levels) (r : IsReady k q) (p : Ptr) (mem : p ∈ q (priority k p)) where
  open r use {rings, bits, byte, members, distinct}

  abbrev here : List Ptr
  here = q (priority k p)

  rotated : Linked (next k) (prev k) p (around p here) p
  rotated =
      Ring-rotate (next k) (prev k) p (k.ready_queue (priority k p)) here (rings (priority k p)) mem

  rotated-Distinct : Distinct (p ∷ around p here)
  rotated-Distinct = Distinct-around p here (distinct (priority k p))

  -- The process still points to the first of those that stay.
  pub next-dequeue :
      is_cons (around p here) ≡ true
      → next (dequeue k p) p ≡ (dequeue k p).ready_queue (priority k p)
  next-dequeue = (Ring-dequeue k p (around p here) rotated rotated-Distinct).1

  dequeue-Ring_other :
      (i : ℕ)
      → i ≢ priority k p
      → Ring (next (dequeue k p)) (prev (dequeue k p)) ((dequeue k p).ready_queue i) (q i)
  dequeue-Ring_other i ne =
      rw (dequeue-heads k p i, ==_ne i (priority k p) ne)
        (Ring-frame (next k) (prev k) _ _ (k.ready_queue i) (q i) (rings i) λ a m.
          dequeue-links_other k p a (around p here) rotated rotated-Distinct
            (ground (arith, members i a))
            (ground (arith, has-around p a here mem, members i a, members (priority k p) a)))

  -- Where the ready queues are well formed, the writes of `remove_ready_queue` for a queued
  -- process keep them so; its level is left with the others, in the round that starts behind it,
  -- and the other levels stay.
  pub dequeue-IsReady : IsReady (dequeue k p) (update q (priority k p) (around p here))
  dequeue-IsReady = record {
    rings = λ i. elim (Bool-cases (i == priority k p)) [
      | inl e ↦
          rw (e, (==_iff i (priority k p)).0 e)
            (Ring-dequeue k p (around p here) rotated rotated-Distinct).0
      | inr e ↦ rw e (dequeue-Ring_other i (ground arith))
    ];
    bits = λ i hi. ground (
      arith,
      dequeue-bits k p (around p here) i rotated rotated-Distinct byte,
      members (priority k p) p,
      bits i hi,
    );
    byte = ground (
      arith,
      dequeue-bits k p (around p here) 0 rotated rotated-Distinct byte,
      members (priority k p) p,
    );
    members = λ i a m. ground (arith, dequeue-fields k p a, members i a, has-around p a here mem);
    distinct = λ i. elim (Bool-cases (i == priority k p)) [
      | inl e ↦ rw e rotated-Distinct.1
      | inr e ↦ rw e (distinct i)
    ];
  }
