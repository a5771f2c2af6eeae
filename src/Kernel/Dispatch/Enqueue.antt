-- ===== src/Kernel/Dispatch/Enqueue.antt =====
-- `add_ready_queue` of kernel/dispatch.c puts a process behind all others of its level.
use tos_sfsu_fall.Base.{
  ℕ, ◌≡◌, ◌≢◌, ◌<◌, refl, true, ◌||◌, ◌&&◌, List, [], ◌∷◌, ◌++◌, arith, ◌==◌, if◌then◌else◌, bit,
  bit_or, ◌^◌, has-append, ◌∉◌, Distinct, Distinct-append, Bool-cases, ==_iff, ==_ne, inl, inr,
}
use tos_sfsu_fall.Kernel.State.{Ptr, null, Kernel, ready, magic_pcb, update}
use tos_sfsu_fall.Kernel.Dispatch.{link_alone, link_last, enqueue}
use tos_sfsu_fall.Kernel.Dispatch.Table.{bit-bit_or}
use tos_sfsu_fall.Kernel.Dispatch.Ring.{
  Ring, Ring-frame, last, last-mem, prev-last, Linked-append, Linked-retarget,
}
use tos_sfsu_fall.Kernel.Dispatch.Inv.{next, prev, state, priority, is_cons, Levels, IsReady}

-- What the two ways of linking leave alone.
link_last-fields :
    (k : Kernel) (p x a : Ptr)
    → (state (link_last k p x) a ≡ state k a)
      × (priority (link_last k p x) a ≡ priority k a)
      × (((link_last k p x).pcb a).magic ≡ (k.pcb a).magic)
unfolding link_last
link_last-fields k p x a = ground arith

link_alone-fields :
    (k : Kernel) (p a : Ptr) (i : ℕ)
    → (state (link_alone k p i) a ≡ state k a)
      × (priority (link_alone k p i) a ≡ priority k a)
      × (((link_alone k p i).pcb a).magic ≡ (k.pcb a).magic)
unfolding link_alone
link_alone-fields k p a i = ground arith

-- What the whole operation leaves alone, and `state`.
pub enqueue-fields :
    (k : Kernel) (p a : Ptr)
    → (state (enqueue k p) a ≡ (if a == p then ready else state k a))
      × (priority (enqueue k p) a ≡ priority k a)
      × (((enqueue k p).pcb a).magic ≡ (k.pcb a).magic)
unfolding enqueue
enqueue-fields k p a = ground (
  arith,
  link_last-fields k p (k.ready_queue (priority k p)) a,
  link_alone-fields k p a (priority k p),
  link_last-fields k p (k.ready_queue (priority k p)) p,
  link_alone-fields k p p (priority k p),
)

-- The links on a level that holds others.
link_last-links :
    (k : Kernel) (p x t a : Ptr)
    → prev k x ≡ t
    → p ≢ x
    → p ≢ t
    → (next (link_last k p x) a ≡ (if a == t then p else if a == p then x else next k a))
      × (prev (link_last k p x) a ≡ (if a == x then p else if a == p then t else prev k a))
unfolding link_last
link_last-links k p x t a e px pt = ground arith

enqueue-links :
    (k : Kernel) (p x t : Ptr)
    → k.ready_queue (priority k p) ≡ x
    → x ≢ null
    → prev k x ≡ t
    → p ≢ x
    → p ≢ t
    → (a : Ptr)
    → (next (enqueue k p) a ≡ (if a == t then p else if a == p then x else next k a))
      × (prev (enqueue k p) a ≡ (if a == x then p else if a == p then t else prev k a))
unfolding enqueue
enqueue-links k p x t h ne e px pt a =
    ground (arith, link_last-links k p x t a e px pt, link_last-links k p x t p e px pt)

enqueue-links_alone :
    (k : Kernel) (p : Ptr)
    → k.ready_queue (priority k p) ≡ null
    → (a : Ptr)
    → (next (enqueue k p) a ≡ (if a == p then p else next k a))
      × (prev (enqueue k p) a ≡ (if a == p then p else prev k a))
unfolding enqueue link_alone
enqueue-links_alone k p h a = ground arith

enqueue-heads :
    (k : Kernel) (p : Ptr) (i : ℕ)
    → (enqueue k p).ready_queue i
      ≡ (if i == priority k p && k.ready_queue i == null then p else k.ready_queue i)
unfolding enqueue link_alone link_last
enqueue-heads k p i = ground arith

enqueue-procs :
    (k : Kernel) (p : Ptr)
    → (enqueue k p).ready_procs ≡ (
        if k.ready_queue (priority k p) == null
        then bit_or k.ready_procs (2 ^ priority k p)
        else k.ready_procs)
unfolding enqueue link_alone link_last
enqueue-procs k p = ground arith

-- The ring of the level itself.
Ring-enqueue :
    (k : Kernel) (p : Ptr) (xs : List Ptr)
    → Ring (next k) (prev k) (k.ready_queue (priority k p)) xs
    → Distinct xs
    → p ∉ xs
    → null ∉ xs
    → Ring
        (next (enqueue k p))
        (prev (enqueue k p))
        ((enqueue k p).ready_queue (priority k p))
        (xs ++ (p ∷ []))
Ring-enqueue k p [] r d out some_null =
    let links = enqueue-links_alone k p r p in
    (ground (arith, enqueue-heads k p (priority k p)), (ground arith, ground arith))
Ring-enqueue k p (x ∷ xs) r d out nulls = (
  ground (arith, enqueue-heads k p (priority k p)),
  Linked-append (next (enqueue k p)) (prev (enqueue k p)) x p x xs []
      (Linked-retarget (next k) (prev k) x x p xs r.1 d (ground arith)
        (λ a m. ground (arith, links a)) (λ a m. ground (arith, links a)))
      (ground (arith, links p, last-mem x xs), ground (arith, links x)),
)
  where
    links :
        (a : Ptr)
        → (next (enqueue k p) a ≡ (if a == last x xs then p else if a == p then x else next k a))
          × (prev (enqueue k p) a ≡ (if a == x then p else if a == p then last x xs else prev k a))
    links =
        enqueue-links k p x (last x xs) r.0 (ground arith) (prev-last (next k) (prev k) x x xs r.1)
          (ground arith) (ground (arith, last-mem x xs))

-- Processes of other levels keep their links.
enqueue-links_other :
    (k : Kernel) (p a : Ptr) (xs : List Ptr)
    → Ring (next k) (prev k) (k.ready_queue (priority k p)) xs
    → p ∉ xs
    → null ∉ xs
    → a ≢ p
    → a ∉ xs
    → (next (enqueue k p) a ≡ next k a) × (prev (enqueue k p) a ≡ prev k a)
enqueue-links_other k p a [] r out nulls ne other = ground (arith, enqueue-links_alone k p r a)
enqueue-links_other k p a (x ∷ xs) r out nulls ne other =
    ground (arith, links, last-mem x xs, ==_iff a (last x xs))
  where
    links :
        (next (enqueue k p) a ≡ (if a == last x xs then p else if a == p then x else next k a))
        × (prev (enqueue k p) a ≡ (if a == x then p else if a == p then last x xs else prev k a))
    links =
        enqueue-links k p x (last x xs) r.0 (ground arith) (prev-last (next k) (prev k) x x xs r.1)
          (ground arith) (ground (arith, last-mem x xs)) a

enqueue-bits :
    (k : Kernel) (p : Ptr) (xs : List Ptr) (i : ℕ)
    → Ring (next k) (prev k) (k.ready_queue (priority k p)) xs
    → null ∉ xs
    → k.ready_procs < 256
    → priority k p < 8
    → i < 8
    → bit k.ready_procs (priority k p) ≡ is_cons xs
    → ((enqueue k p).ready_procs < 256)
      × (bit (enqueue k p).ready_procs i ≡ ((i == priority k p) || bit k.ready_procs i))
enqueue-bits k p [] i r nulls byte small hi b =
    ground (arith, enqueue-procs k p, bit-bit_or k.ready_procs (priority k p) i)
enqueue-bits k p (x ∷ xs) i r nulls byte small hi b =
    ground (arith, enqueue-procs k p, ==_iff i (priority k p))

is_cons-append : (xs : List Ptr) (p : Ptr) → is_cons (xs ++ (p ∷ [])) ≡ true
is_cons-append [] p = refl
is_cons-append (x ∷ xs) p = refl

module _ (k : Kernel) (q : Levels) (r : IsReady k q) (p : Ptr) where
  open r use {rings, bits, byte, members, distinct}

  null-not-mem : (i : ℕ) → null ∉ q i
  null-not-mem i = ground (arith, members i null)

  -- A process is queued at its own level only.
  pub not-mem_other : p ∉ q (priority k p) → (i : ℕ) → p ∉ q i
  not-mem_other out i = ground (arith, members i p)

  enqueue-Ring_other :
      (i : ℕ)
      → i ≢ priority k p
      → p ∉ q (priority k p)
      → Ring (next (enqueue k p)) (prev (enqueue k p)) ((enqueue k p).ready_queue i) (q i)
  enqueue-Ring_other i ne out =
      rw (enqueue-heads k p i, ==_ne i (priority k p) ne)
        (Ring-frame (next k) (prev k) _ _ (k.ready_queue i) (q i) (rings i) λ a m.
          enqueue-links_other k p a (q (priority k p)) (rings (priority k p)) out
            (null-not-mem (priority k p)) (ground (arith, not-mem_other out i))
            (ground (arith, members i a, members (priority k p) a)))

  -- Where the ready queues are well formed, the writes of `add_ready_queue` for a real process of
  -- a priority below 8 that is not in the queue of its level keep them so and put it behind the
  -- others of its level; the other levels stay.
  pub enqueue-IsReady :
      priority k p < 8
      → p ≢ null
      → (k.pcb p).magic ≡ magic_pcb
      → p ∉ q (priority k p)
      → IsReady (enqueue k p) (update q (priority k p) (q (priority k p) ++ (p ∷ [])))
  enqueue-IsReady small ne magic out = record {
    rings = λ i. elim (Bool-cases (i == priority k p)) [
      | inl e ↦
          rw (e, (==_iff i (priority k p)).0 e)
            (Ring-enqueue k p (q (priority k p)) (rings (priority k p)) (distinct (priority k p))
              out (null-not-mem (priority k p)))
      | inr e ↦ rw e (enqueue-Ring_other i (ground arith) out)
    ];
    bits = λ i hi. ground (
      arith,
      enqueue-bits k p (q (priority k p)) i (rings (priority k p)) (null-not-mem (priority k p))
          byte small hi (bits (priority k p) small),
      bits i hi,
      is_cons-append (q (priority k p)) p,
    );
    byte =
        (enqueue-bits k p (q (priority k p)) 0 (rings (priority k p)) (null-not-mem (priority k p))
          byte small (omega arith) (bits (priority k p) small)).0;
    members = λ i a m.
        ground (arith, enqueue-fields k p a, members i a, has-append a (q (priority k p)) (p ∷ []));
    distinct = λ i. elim (Bool-cases (i == priority k p)) [
      | inl e ↦ rw e (
          Distinct-append (q (priority k p)) (p ∷ []) (distinct (priority k p)) (refl, tt)
            λ a m. ground arith)
      | inr e ↦ rw e (distinct i)
    ];
  }
