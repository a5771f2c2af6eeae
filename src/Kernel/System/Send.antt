-- ===== src/Kernel/System/Send.antt =====
-- `send` of kernel/ipc.c to a process that waits in `receive`.
use tos_sfsu_fall.Base.{
  ℕ, ◌≡◌, refl, ◌∙◌, true, false, [], ◌∷◌, arith, ◌==◌, if◌then◌else◌, ◌∈◌, ◌∉◌, has-append,
}
use tos_sfsu_fall.Kernel.State.{Ptr, Kernel, ready, reply_blocked, update, done}
use tos_sfsu_fall.Kernel.Dispatch.{enqueue, dequeue, add_ready_queue, remove_ready_queue}
use tos_sfsu_fall.Kernel.Dispatch.Ring.{Distinct-around}
use tos_sfsu_fall.Kernel.Dispatch.Inv.{state, priority, Levels}
use tos_sfsu_fall.Kernel.Dispatch.Enqueue.{enqueue-fields}
use tos_sfsu_fall.Kernel.Dispatch.Dequeue.{dequeue-fields}
use tos_sfsu_fall.Kernel.Ipc.{can_deliver, deliver, set_state, set_data, send}
use tos_sfsu_fall.Kernel.System.{
  Waits, used, is_ready, is_waiting, IsProc, IsPlaced, IsLinked, IsSystem, IsRunning, IsPort, enter,
  leave,
}
use tos_sfsu_fall.Kernel.System.Place.{IsPlaced-cong, IsPlaced-wake, IsPlaced-block}
use tos_sfsu_fall.Kernel.System.Link.{
  IsLinked-same, IsLinked-enqueue_at, SameLinks, SameLinks-refl, enqueue-rest, enqueue-globals,
  dequeue-rest, param_proc, param_data, SameLinks-deliver, SameLinks-set_state, SameLinks-set_data,
  SameLinks-trans, deliver-fields, set_state-fields, set_data-fields,
}
use tos_sfsu_fall.Kernel.System.Switch.{Returns, mem-enter, add_ready_queue_lem}
use tos_sfsu_fall.Kernel.System.Block.{suspend-Returns, remove_ready_queue_lem}
use tos_sfsu_fall.Kernel.System.Reply.{Got}

module _ (k : Kernel) (q : Levels) (b : Waits) (s : IsSystem k q b) (run : IsRunning k q) where
  -- The kernel in which `send` puts the receiver into its queue, and that from which it takes the
  -- sender out.
  abbrev sent : Ptr → ℕ → Kernel
  sent dest d = set_state (deliver k dest d) k.active_proc reply_blocked

  abbrev answered : Ptr → ℕ → Kernel
  answered dest d = set_data (enqueue (sent dest d) dest) k.active_proc d

  SameLinks-sent : (dest : Ptr) (d : ℕ) → SameLinks k (sent dest d)
  SameLinks-sent dest d =
      SameLinks-trans (SameLinks-deliver k dest d)
        (SameLinks-set_state (deliver k dest d) k.active_proc reply_blocked)

  sent-fields :
      (dest : Ptr) (d a : ℕ)
      → (state (sent dest d) a ≡ (if a == k.active_proc then reply_blocked else state k a))
        × (param_proc (sent dest d) a ≡ (if a == dest then k.active_proc else param_proc k a))
        × (param_data (sent dest d) a ≡ (if a == dest then d else param_data k a))
        × ((sent dest d).active_proc ≡ k.active_proc)
  sent-fields dest d a = ground (
    arith,
    set_state-fields (deliver k dest d) k.active_proc reply_blocked a,
    deliver-fields k dest d a,
  )

  answered-fields :
      (dest : Ptr) (d a : ℕ)
      → (state (answered dest d) a ≡ (if a == dest then ready else state (sent dest d) a))
        × (param_proc (answered dest d) a ≡ param_proc (sent dest d) a)
        × (param_data (answered dest d) a
            ≡ (if a == k.active_proc then d else param_data (sent dest d) a))
        × ((answered dest d).active_proc ≡ k.active_proc)
        × (((answered dest d).pcb a).magic ≡ (k.pcb a).magic)
        × (priority (answered dest d) a ≡ priority k a)
        × (used (answered dest d) a ≡ used k a)
  answered-fields dest d a = ground (
    arith,
    set_data-fields (enqueue (sent dest d) dest) k.active_proc d a,
    (SameLinks-set_data (enqueue (sent dest d) dest) k.active_proc d).fixed a,
    enqueue-globals (sent dest d) dest,
    sent-fields dest d a,
    enqueue-fields (sent dest d) dest a,
    enqueue-rest (sent dest d) dest a,
    (SameLinks-sent dest d).fixed a,
  )

  -- The sender waits for the reply; the receiver got the message.
  abbrev pub Sent : Ptr → ℕ → Kernel → Type 0
  Sent dest d k' = (state k' k.active_proc ≡ reply_blocked) × Got k q b s run dest d k'

  -- Where the kernel keeps the invariant and the running process is ready, `send` to an open port
  -- whose owner waits in `receive` returns and keeps the invariant: the owner has the sender and
  -- its message and is ready, at the end of its level; the sender left its level and waits for the
  -- reply; a ready process of the highest level runs.
  pub send-delivers :
      (t : Ptr) (d : ℕ)
      → IsPort k t
      → can_deliver k t ≡ true
      → Returns
          (leave
            (enter q (priority k (k.port t).owner) (k.port t).owner)
            (priority k k.active_proc)
            k.active_proc)
          b
          (Sent (k.port t).owner d)
          (send k t d)
  unfolding send
  send-delivers t d port can =
      rw (port.has_magic, port.owner_magic, can, adds, removes)
        (suspend-Returns (answered dest d) (enter q (priority k dest) dest) b (Sent dest d)
          (λ k₁. k₁) k.active_proc (priority k k.active_proc) linked
          (
            ground (arith, answered-fields dest d k.active_proc),
            ground (arith, answered-fields dest d k.active_proc),
            stays,
          )
          (SameLinks-refl (dequeue (answered dest d) k.active_proc)) refl placed (priority k dest)
          dest (ground (arith, has-append dest (q (priority k dest)) (dest ∷ [])))
          (ground (arith, s.placed.ready_of_mem (priority k k.active_proc) k.active_proc run))
          λ c. ground (
            arith,
            answered-fields dest d dest,
            answered-fields dest d k.active_proc,
            sent-fields dest d dest,
            sent-fields dest d k.active_proc,
            dequeue-fields (answered dest d) k.active_proc dest,
            dequeue-fields (answered dest d) k.active_proc k.active_proc,
            dequeue-rest (answered dest d) k.active_proc dest,
            s.placed.ready_of_mem (priority k k.active_proc) k.active_proc run,
          ))
    where
      dest : Ptr
      dest = (k.port t).owner

      receives : (is_ready (state k dest) ≡ false) × (is_waiting (state k dest) ≡ false)
      receives = ground (arith, can)

      out : dest ∉ q (priority k dest)
      out = ground (arith, receives, s.placed.ready_of_mem (priority k dest) dest)

      before : IsLinked (sent dest d) q b
      before = IsLinked-same k q b s.linked (sent dest d) (SameLinks-sent dest d)

      proc : IsProc (sent dest d) dest
      proc =
          before.procs dest
            ((((SameLinks-sent dest d).fixed dest).2) ∙ s.placed.used_of_blocked dest receives.0)

      adds : add_ready_queue (sent dest d) dest ≡ done (enqueue (sent dest d) dest)
      adds = add_ready_queue_lem (sent dest d) dest proc.has_magic

      removes :
          remove_ready_queue (answered dest d) k.active_proc
          ≡ done (dequeue (answered dest d) k.active_proc)
      removes = remove_ready_queue_lem (answered dest d) k.active_proc (
          ground (
            arith,
            answered-fields dest d k.active_proc,
            s.placed.used_of_mem (priority k k.active_proc) k.active_proc run,
            s.linked.procs k.active_proc,
          ))

      stays : k.active_proc ∈ enter q (priority k dest) dest (priority k k.active_proc)
      stays = mem-enter k q b s dest k.active_proc (priority k k.active_proc) (priority k dest) run

      entered : IsLinked (enqueue (sent dest d) dest) (enter q (priority k dest) dest) b
      entered =
          IsLinked-enqueue_at (sent dest d) q b before dest (priority k dest)
            (((SameLinks-sent dest d).fixed dest).0) proc out

      linked : IsLinked (answered dest d) (enter q (priority k dest) dest) b
      linked =
          IsLinked-same (enqueue (sent dest d) dest) (enter q (priority k dest) dest) b entered
            (answered dest d) (SameLinks-set_data (enqueue (sent dest d) dest) k.active_proc d)

      woken :
          IsPlaced
            (used k)
            (priority k)
            (update (state k) dest ready)
            (enter q (priority k dest) dest)
            b
      woken = IsPlaced-wake (used k) (priority k) (state k) q b s.placed dest receives.0 receives.1

      placed :
          IsPlaced
            (used (dequeue (answered dest d) k.active_proc))
            (priority (dequeue (answered dest d) k.active_proc))
            (state (dequeue (answered dest d) k.active_proc))
            (leave (enter q (priority k dest) dest) (priority k k.active_proc) k.active_proc)
            b
      placed =
          IsPlaced-cong (used k) (priority k)
            (update (update (state k) dest ready) k.active_proc reply_blocked)
            (leave (enter q (priority k dest) dest) (priority k k.active_proc) k.active_proc) b
            (IsPlaced-block (used k) (priority k) (update (state k) dest ready)
              (enter q (priority k dest) dest) b woken k.active_proc reply_blocked stays
              (Distinct-around k.active_proc _
                (linked.queues.distinct (priority k k.active_proc))).0
              refl refl)
            (used (dequeue (answered dest d) k.active_proc))
            (priority (dequeue (answered dest d) k.active_proc))
            (state (dequeue (answered dest d) k.active_proc))
            λ a. ground (
              arith,
              answered-fields dest d a,
              sent-fields dest d a,
              dequeue-fields (answered dest d) k.active_proc a,
              dequeue-rest (answered dest d) k.active_proc a,
              s.placed.ready_of_mem (priority k k.active_proc) k.active_proc run,
              receives,
            )
