-- ===== src/Kernel/System/Wait.antt =====
-- `send` and `message` of kernel/ipc.c to a port that is closed or whose owner is busy.
use tos_sfsu_fall.Base.{ℕ, ◌≡◌, ◌≢◌, refl, ◌∙◌, true, false, arith, ◌∈◌}
use tos_sfsu_fall.Kernel.State.{
  Ptr, Kernel, ProcState, send_blocked, message_blocked, magic_pcb, magic_port, update, done,
}
use tos_sfsu_fall.Kernel.Dispatch.{dequeue, remove_ready_queue}
use tos_sfsu_fall.Kernel.Dispatch.Inv.{state, priority, Levels}
use tos_sfsu_fall.Kernel.Dispatch.Dequeue.{dequeue-fields}
use tos_sfsu_fall.Kernel.Ipc.{
  can_deliver, block_on, add_to_send_blocked_list, set_state, set_data, send, message,
}
use tos_sfsu_fall.Kernel.Ipc.Chain.{block_on-fields, block_on-globals}
use tos_sfsu_fall.Kernel.System.{
  Waits, used, is_waiting, IsPlaced, IsSystem, IsRunning, IsPort, leave, wait_at,
}
use tos_sfsu_fall.Kernel.System.Place.{IsPlaced-cong, IsPlaced-wait}
use tos_sfsu_fall.Kernel.System.Link.{
  IsLinked-same, SameLinks, SameLinks-refl, SameLinks-trans, SameLinks-set_state,
  SameLinks-set_data, set_state-fields, set_data-fields, dequeue-rest, param_data,
}
use tos_sfsu_fall.Kernel.System.Switch.{Returns, gone}
use tos_sfsu_fall.Kernel.System.Block.{wait-IsLinked, suspend-Returns, remove_ready_queue_lem}

add_to_send_blocked_list_lem :
    (k : Kernel) (t p : Ptr)
    → (k.port t).magic ≡ magic_port
    → (k.pcb p).magic ≡ magic_pcb
    → add_to_send_blocked_list k t p ≡ done (block_on k t p)
unfolding add_to_send_blocked_list
add_to_send_blocked_list_lem k t p e f = rw (e, f)

-- A process and its message, blocked in state `st`, wait at the end of the port's list.
abbrev pub Waiting : Ptr → ProcState → ℕ → Kernel → Type 0
Waiting p st d k' = (state k' p ≡ st) × (param_data k' p ≡ d)

module _ (k : Kernel) (q : Levels) (b : Waits) (s : IsSystem k q b) (run : IsRunning k q) (j a : ℕ)
    (other : a ∈ q j) (ne : a ≢ k.active_proc) where
  abbrev me : Ptr
  me = k.active_proc

  magic_me : (k.pcb me).magic ≡ magic_pcb
  magic_me = (s.linked.procs me (s.placed.used_of_mem (priority k me) me run)).has_magic

  -- Where the process stands at last, whatever the order of the writes.
  IsPlaced-of :
      (k' : Kernel) (t : Ptr) (st : ProcState)
      → is_waiting st ≡ true
      → SameLinks (dequeue (block_on k t me) me) k'
      → ((c : Ptr) → state k' c ≡ update (state k) me st c)
      → IsPlaced (used k') (priority k') (state k') (leave q (priority k me) me) (wait_at b t me)
  IsPlaced-of k' t st wt e states =
      IsPlaced-cong (used k) (priority k) (update (state k) me st) (leave q (priority k me) me)
        (wait_at b t me)
        (IsPlaced-wait (used k) (priority k) (state k) q b s.placed me t st run (gone k q b s me)
          wt)
        (used k') (priority k') (state k')
        λ c. ground (
          arith,
          e.fixed c,
          states c,
          dequeue-fields (block_on k t me) me c,
          dequeue-rest (block_on k t me) me c,
          block_on-fields k t me c,
        )

  blocked_lem :
      (t : Ptr)
      → ((block_on k t me).active_proc ≡ me)
        × (priority (block_on k t me) me ≡ priority k me)
        × (me ∈ q (priority k me))
  blocked_lem t = ((block_on-globals k t me).2, (block_on-fields k t me me).1, run)

  removes :
      (k' : Kernel)
      → ((c : Ptr) → (k'.pcb c).magic ≡ (k.pcb c).magic)
      → remove_ready_queue k' me ≡ done (dequeue k' me)
  removes k' same = remove_ready_queue_lem k' me (same me ∙ magic_me)

  -- The last writes of `message`, after the sender has left its queue.
  abbrev hushed : Ptr → ℕ → Kernel
  hushed t d = set_data (set_state (dequeue (block_on k t me) me) me message_blocked) me d

  hushed-fields :
      (t d c : ℕ)
      → (state (hushed t d) c ≡ update (state k) me message_blocked c)
        × (param_data (hushed t d) me ≡ d)
        × ((hushed t d).active_proc ≡ (dequeue (block_on k t me) me).active_proc)
  hushed-fields t d c = ground (
    arith,
    set_data-fields (set_state (dequeue (block_on k t me) me) me message_blocked) me d c,
    set_data-fields (set_state (dequeue (block_on k t me) me) me message_blocked) me d me,
    set_state-fields (dequeue (block_on k t me) me) me message_blocked c,
    dequeue-fields (block_on k t me) me c,
    block_on-fields k t me c,
  )

  hushed-links : (t d : ℕ) → SameLinks (dequeue (block_on k t me) me) (hushed t d)
  hushed-links t d =
      SameLinks-trans (SameLinks-set_state (dequeue (block_on k t me) me) me message_blocked)
        (SameLinks-set_data (set_state (dequeue (block_on k t me) me) me message_blocked) me d)

  -- Where the kernel keeps the invariant, the running process is ready and so is some other one:
  -- `message` to a port that is closed or whose owner does not wait in `receive` returns and keeps
  -- the invariant; the sender left its queue and stands last in the list of the port, blocked in
  -- `message`, with its message, and a ready process of the highest level runs.
  pub message-waits :
      (t d : ℕ)
      → IsPort k t
      → can_deliver k t ≡ false
      → Returns
          (leave q (priority k me) me)
          (wait_at b t me)
          (Waiting me message_blocked d)
          (message k t d)
  unfolding message
  message-waits t d port busy =
      rw
        (
          port.has_magic,
          port.owner_magic,
          busy,
          add_to_send_blocked_list_lem k t me port.has_magic magic_me,
          removes (block_on k t me) (λ c. (block_on-fields k t me c).4),
        )
        (suspend-Returns (block_on k t me) q (wait_at b t me) (Waiting me message_blocked d)
          (λ k₁. set_data (set_state k₁ me message_blocked) me d) me (priority k me)
          (wait-IsLinked k q b s me run t) (blocked_lem t) (hushed-links t d)
          (hushed-fields t d me).2
          (IsPlaced-of (hushed t d) t message_blocked refl (hushed-links t d)
            λ c. (hushed-fields t d c).0)
          j a other ne λ c. ground (arith, hushed-fields t d me))

  -- The kernel from which `send` takes the sender out.
  abbrev parked : Ptr → ℕ → Kernel
  parked t d = set_data (set_data (set_state (block_on k t me) me send_blocked) me d) me d

  parked-links : (t d : ℕ) → SameLinks (block_on k t me) (parked t d)
  parked-links t d = SameLinks-trans (SameLinks-set_state (block_on k t me) me send_blocked) (
      SameLinks-trans (SameLinks-set_data (set_state (block_on k t me) me send_blocked) me d)
        (SameLinks-set_data (set_data (set_state (block_on k t me) me send_blocked) me d) me d))

  parked-fields :
      (t d c : ℕ)
      → (state (parked t d) c ≡ update (state k) me send_blocked c)
        × (param_data (parked t d) me ≡ d)
        × ((parked t d).active_proc ≡ me)
        × (priority (parked t d) c ≡ priority k c)
        × (((parked t d).pcb c).magic ≡ (k.pcb c).magic)
        × (used (parked t d) c ≡ used k c)
  parked-fields t d c = ground (
    arith,
    set_data-fields (set_data (set_state (block_on k t me) me send_blocked) me d) me d c,
    set_data-fields (set_data (set_state (block_on k t me) me send_blocked) me d) me d me,
    set_data-fields (set_state (block_on k t me) me send_blocked) me d c,
    set_state-fields (block_on k t me) me send_blocked c,
    block_on-fields k t me c,
    block_on-globals k t me,
    (parked-links t d).fixed c,
  )

  parked-IsPlaced :
      (t d : ℕ)
      → IsPlaced
          (used (dequeue (parked t d) me))
          (priority (dequeue (parked t d) me))
          (state (dequeue (parked t d) me))
          (leave q (priority k me) me)
          (wait_at b t me)
  parked-IsPlaced t d =
      IsPlaced-cong (used k) (priority k) (update (state k) me send_blocked)
        (leave q (priority k me) me) (wait_at b t me)
        (IsPlaced-wait (used k) (priority k) (state k) q b s.placed me t send_blocked run
          (gone k q b s me) refl)
        (used (dequeue (parked t d) me)) (priority (dequeue (parked t d) me))
        (state (dequeue (parked t d) me))
        λ c. ground (
          arith,
          parked-fields t d c,
          dequeue-fields (parked t d) me c,
          dequeue-rest (parked t d) me c,
        )

  -- Where the kernel keeps the invariant, the running process is ready and so is some other one:
  -- `send` to a port that is closed or whose owner does not wait in `receive` returns and keeps
  -- the invariant; the sender left its queue and stands last in the list of the port, blocked,
  -- with its message, and a ready process of the highest level runs.
  pub send-waits :
      (t d : ℕ)
      → IsPort k t
      → can_deliver k t ≡ false
      → Returns
          (leave q (priority k me) me)
          (wait_at b t me)
          (Waiting me send_blocked d)
          (send k t d)
  unfolding send
  send-waits t d port busy =
      rw
        (
          port.has_magic,
          port.owner_magic,
          busy,
          add_to_send_blocked_list_lem k t me port.has_magic magic_me,
          removes (parked t d) (λ c. (parked-fields t d c).4),
        )
        (suspend-Returns (parked t d) q (wait_at b t me) (Waiting me send_blocked d) (λ k₁. k₁) me
          (priority k me)
          (IsLinked-same (block_on k t me) q (wait_at b t me) (wait-IsLinked k q b s me run t)
            (parked t d) (parked-links t d))
          ((parked-fields t d me).2, (parked-fields t d me).3, run)
          (SameLinks-refl (dequeue (parked t d) me)) refl (parked-IsPlaced t d) j a other ne
          λ c. ground (
            arith,
            parked-fields t d me,
            dequeue-fields (parked t d) me me,
            dequeue-rest (parked t d) me me,
          ))
