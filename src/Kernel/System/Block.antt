-- ===== src/Kernel/System/Block.antt =====
-- The running process is blocked: it leaves its queue, and waits at a port or for an event.
use tos_sfsu_fall.Base.{
  ℕ, ◌≡◌, ◌≢◌, sym, ◌∙◌, subst, true, false, List, [], ◌∷◌, arith, ◌∈◌, ◌∉◌, Distinct,
}
use tos_sfsu_fall.Kernel.State.{Ptr, null, Kernel, ProcState, magic_pcb, update, done}
use tos_sfsu_fall.Kernel.Dispatch.{dequeue, remove_ready_queue, resign}
use tos_sfsu_fall.Kernel.Dispatch.Ring.{Ring, around, has-around}
use tos_sfsu_fall.Kernel.Dispatch.Inv.{next, prev, state, priority, is_cons, Levels, IsReady}
use tos_sfsu_fall.Kernel.Dispatch.Dequeue.{dequeue-fields, next-dequeue}
use tos_sfsu_fall.Kernel.Dispatch.Choice.{Follows}
use tos_sfsu_fall.Kernel.Ipc.{block_on}
use tos_sfsu_fall.Kernel.Ipc.Chain.{block_on-fields}
use tos_sfsu_fall.Kernel.System.{
  Waits, used, is_ready, is_waiting, IsPlaced, IsLinked, IsSystem, IsRunning, leave, wait_at,
}
use tos_sfsu_fall.Kernel.System.Place.{
  IsPlaced-cong, IsPlaced-block, IsPlaced-wait, not-waiting_of_mem,
}
use tos_sfsu_fall.Kernel.System.Link.{
  IsLinked-same, IsLinked-dequeue, IsLinked-dequeue_at, IsLinked-block_on, SameLinks, dequeue-rest,
  dequeue-globals,
}
use tos_sfsu_fall.Kernel.System.Switch.{gone, Returns, resign-Returns, is_cons_of_mem}

pub IsSystem-same :
    (k k' : Kernel) (q : Levels) (b : Waits)
    → IsSystem k q b
    → SameLinks k k'
    → ((a : Ptr) → state k' a ≡ state k a)
    → IsSystem k' q b
IsSystem-same k k' q b s e same = record {
  linked = IsLinked-same k q b s.linked k' e;
  placed =
      IsPlaced-cong (used k) (priority k) (state k) q b s.placed (used k') (priority k') (state k')
        λ a. ground (arith, e.fixed a, same a);
}

pub IsRunning-same :
    (k k' : Kernel) (q : Levels)
    → IsRunning k q
    → SameLinks k k'
    → k'.active_proc ≡ k.active_proc
    → IsRunning k' q
IsRunning-same k k' q run e same = rw same (rw ((e.fixed k.active_proc).0) run)

head-mem : (n p : Ptr → Ptr) (h : Ptr) (xs : List Ptr) → Ring n p h xs → is_cons xs ≡ true → h ∈ xs
head-mem n p h [] r c = ground arith
head-mem n p h (x ∷ xs) r c = ground arith

-- The process that was taken out of its queue still points into it.
pub Follows-dequeue :
    (k k' : Kernel) (q : Levels) (p : Ptr)
    → IsReady k q
    → p ∈ q (priority k p)
    → IsReady k' (leave q (priority k p) p)
    → SameLinks (dequeue k p) k'
    → k'.active_proc ≡ p
    → Follows k' (leave q (priority k p) p)
Follows-dequeue k k' q p r mem r' e run held =
    let i = priority k p in
    let level : priority k' k'.active_proc ≡ i =
      rw run (ground (arith, e.fixed p, dequeue-fields k p p)) in
    let stays : is_cons (leave q i p i) ≡ true =
      subst (λ j. is_cons (leave q i p j) ≡ true) level held in
    let rest : is_cons (around p (q i)) ≡ true = ground arith in
    subst (λ j. next k' k'.active_proc ∈ leave q i p j) (sym level)
      (rw (run, (e.links p).0, next-dequeue k q r p mem rest, ← e.heads)
        (head-mem (next k') (prev k') (k'.ready_queue i) (leave q i p i) (r'.rings i) stays))

module _ (k : Kernel) (q : Levels) (b : Waits) (s : IsSystem k q b) (p : Ptr)
    (mem : p ∈ q (priority k p)) where
  pub block-IsSystem :
      (k' : Kernel) (st : ProcState)
      → is_ready st ≡ false
      → is_waiting st ≡ false
      → SameLinks (dequeue k p) k'
      → ((a : Ptr) → state k' a ≡ update (state k) p st a)
      → IsSystem k' (leave q (priority k p) p) b
  block-IsSystem k' st nr nw e states = record {
    linked =
        IsLinked-same (dequeue k p) (leave q (priority k p) p) b
          (IsLinked-dequeue k q b s.linked p mem) k' e;
    placed =
        IsPlaced-cong (used k) (priority k) (update (state k) p st) (leave q (priority k p) p) b
          (IsPlaced-block (used k) (priority k) (state k) q b s.placed p st mem (gone k q b s p) nr
            nw)
          (used k') (priority k') (state k')
          λ a. ground (arith, e.fixed a, states a, dequeue-fields k p a, dequeue-rest k p a);
  }

  nowhere : (u : Ptr) → (p ∉ b u) × (null ∉ b u) × Distinct (b u)
  nowhere u = (
    not-waiting_of_mem (used k) (priority k) (state k) q b s.placed (priority k p) p mem u,
    ground
        (arith, s.placed.waiting_of_mem u null, s.placed.used_of_blocked null, s.linked.procs null),
    s.placed.distinct u,
  )

  pub wait-IsLinked : (t : Ptr) → IsLinked (block_on k t p) q (wait_at b t p)
  wait-IsLinked t =
      IsLinked-block_on k q b s.linked p t
        (s.linked.procs p (s.placed.used_of_mem (priority k p) p mem)).ne_null nowhere
        s.placed.apart

  pub wait-IsSystem :
      (k' : Kernel) (t : Ptr) (st : ProcState)
      → is_waiting st ≡ true
      → SameLinks (dequeue (block_on k t p) p) k'
      → ((a : Ptr) → state k' a ≡ update (state k) p st a)
      → IsSystem k' (leave q (priority k p) p) (wait_at b t p)
  wait-IsSystem k' t st wt e states = record {
    linked =
        IsLinked-same (dequeue (block_on k t p) p) (leave q (priority k p) p) (wait_at b t p)
          (subst (λ i. IsLinked (dequeue (block_on k t p) p) (leave q i p) (wait_at b t p))
            same_level
            (IsLinked-dequeue (block_on k t p) q (wait_at b t p) (wait-IsLinked t) p
              (subst (λ i. p ∈ q i) (sym same_level) mem)))
          k' e;
    placed =
        IsPlaced-cong (used k) (priority k) (update (state k) p st) (leave q (priority k p) p)
          (wait_at b t p)
          (IsPlaced-wait (used k) (priority k) (state k) q b s.placed p t st mem (gone k q b s p)
            wt)
          (used k') (priority k') (state k')
          λ a. ground (
            arith,
            e.fixed a,
            states a,
            dequeue-fields (block_on k t p) p a,
            dequeue-rest (block_on k t p) p a,
            block_on-fields k t p a,
          );
  }
    where
      same_level : priority (block_on k t p) p ≡ priority k p
      same_level = (block_on-fields k t p p).1

pub remove_ready_queue_lem :
    (k : Kernel) (p : Ptr)
    → (k.pcb p).magic ≡ magic_pcb
    → remove_ready_queue k p ≡ done (dequeue k p)
unfolding remove_ready_queue
remove_ready_queue_lem k p e = rw e

-- The last steps of an operation that blocks the running process `p`: it leaves its queue, some
-- fields that no queue uses are written by `f`, and another process runs.
pub suspend-Returns :
    (k : Kernel) (q : Levels) (b : Waits) (P : Kernel → Type 0) (f : Kernel → Kernel) (p i : ℕ)
    → IsLinked k q b
    → (k.active_proc ≡ p) × (priority k p ≡ i) × (p ∈ q i)
    → SameLinks (dequeue k p) (f (dequeue k p))
    → (f (dequeue k p)).active_proc ≡ (dequeue k p).active_proc
    → IsPlaced
        (used (f (dequeue k p)))
        (priority (f (dequeue k p)))
        (state (f (dequeue k p)))
        (leave q i p)
        b
    → (j a : ℕ) → a ∈ q j
    → a ≢ p
    → ((c : Ptr) → P (record (f (dequeue k p)) { active_proc = c }))
    → Returns (leave q i p) b P (resign (f (dequeue k p)))
suspend-Returns k q b P f p i l (run, level, mem) e same placed j a other ne post =
    let k' = f (dequeue k p) in
    let l' =
      IsLinked-same (dequeue k p) (leave q i p) b (IsLinked-dequeue_at k q b l p i level mem) k'
        e in
    (resign-Returns k' (leave q i p) b P (record { linked = l'; placed = placed })
      (subst (λ h. Follows k' (leave q h p)) level
        (Follows-dequeue k k' q p l.queues (subst (λ h. p ∈ q h) (sym level) mem)
          (subst (λ h. IsReady k' (leave q h p)) (sym level) l'.queues) e
          (same ∙ (dequeue-globals k p).1 ∙ run)))
      j (is_cons_of_mem a (leave q i p j) (ground (arith, has-around p a (q i) mem))) post)
