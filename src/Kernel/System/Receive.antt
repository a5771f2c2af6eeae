-- ===== src/Kernel/System/Receive.antt =====
-- `receive` of kernel/ipc.c on all its branches.
use tos_sfsu_fall.Base.{ℕ, ◌≡◌, ◌≢◌, refl, ◌∙◌, ap, subst, true, List, ◌∷◌, arith, ◌∈◌, ◌∉◌, ==_ne}
use tos_sfsu_fall.Kernel.State.{
  Ptr, null, Kernel, Pcb, message_blocked, receive_blocked, reply_blocked, send_blocked, magic_pcb,
  update, done, ready,
}
use tos_sfsu_fall.Kernel.Dispatch.{enqueue, dequeue, resign}
use tos_sfsu_fall.Kernel.Dispatch.Inv.{state, priority, Levels}
use tos_sfsu_fall.Kernel.Dispatch.Dequeue.{dequeue-fields}
use tos_sfsu_fall.Kernel.Dispatch.Enqueue.{enqueue-fields}
use tos_sfsu_fall.Kernel.Ipc.{
  unblock_first, set_state, set_data, receive, receive_block, receive_from, delivered, blocked,
}
use tos_sfsu_fall.Kernel.Ipc.Chain.{head_of, IsWaitList, unblock_first-globals}
use tos_sfsu_fall.Kernel.Ipc.Ports.{IsPortList, first_ready, find_port-first}
use tos_sfsu_fall.Kernel.System.{
  Waits, used, is_waiting, IsProc, IsPlaced, IsLinked, IsSystem, IsRunning, leave, enter,
}
use tos_sfsu_fall.Kernel.System.Place.{IsPlaced-cong, IsPlaced-unwait, IsPlaced-wake}
use tos_sfsu_fall.Kernel.System.Link.{
  IsLinked-same, IsLinked-unblock_first, IsLinked-enqueue_at, enqueue-rest, enqueue-globals,
  SameLinks, SameLinks-trans, SameLinks-set_state, SameLinks-set_data, set_state-fields,
  set_data-fields, param_data, first_port,
}
use tos_sfsu_fall.Kernel.System.Switch.{Returns, add_ready_queue_lem, mem-enter}
use tos_sfsu_fall.Kernel.System.Block.{suspend-Returns, remove_ready_queue_lem, block-IsSystem}

module _ (k : Kernel) (q : Levels) (b : Waits) (s : IsSystem k q b) (run : IsRunning k q) where
  abbrev me : Ptr
  me = k.active_proc

  magic_me : (k.pcb me).magic ≡ magic_pcb
  magic_me = (s.linked.procs me (s.placed.used_of_mem (priority k me) me run)).has_magic

  abbrev dozing : ℕ → Kernel
  dozing d = set_state (set_data (dequeue k me) me d) me receive_blocked

  dozing-fields :
      (d c : ℕ)
      → (state (dozing d) c ≡ update (state k) me receive_blocked c)
        × ((dozing d).active_proc ≡ (dequeue k me).active_proc)
  dozing-fields d c = ground (
    arith,
    set_data-fields (dequeue k me) me d c,
    set_state-fields (set_data (dequeue k me) me d) me receive_blocked c,
    dequeue-fields k me c,
  )

  dozing-links : (d : ℕ) → SameLinks (dequeue k me) (dozing d)
  dozing-links d =
      SameLinks-trans (SameLinks-set_data (dequeue k me) me d)
        (SameLinks-set_state (set_data (dequeue k me) me d) me receive_blocked)

  dozing-Returns :
      (d j a : ℕ)
      → a ∈ q j
      → a ≢ me
      → Returns
          (leave q (priority k me) me)
          b
          (λ k'. state k' me ≡ receive_blocked)
          (resign (dozing d))
  dozing-Returns d j a other ne =
      suspend-Returns k q b (λ k'. state k' me ≡ receive_blocked)
        (λ k₁. set_state (set_data k₁ me d) me receive_blocked) me (priority k me) s.linked
        (refl, refl, run) (dozing-links d) (dozing-fields d me).1
        (block-IsSystem k q b s me run (dozing d) receive_blocked refl refl (dozing-links d)
          λ c. (dozing-fields d c).0).placed
        j a other ne λ c. ground (arith, dozing-fields d me)

  -- Where the kernel keeps the invariant, the running process is ready and so is some other one,
  -- and nobody waits at an open port of the running process, which owns a port: `receive` blocks
  -- it, outside every queue, keeps the invariant, and a ready process runs.
  pub receive-blocks :
      (ps : List Ptr) (j a : ℕ)
      → IsPortList k (first_port k me) ps
      → first_port k me ≢ null
      → first_ready k ps ≡ null
      → a ∈ q j
      → a ≢ me
      → (k' : Kernel) × (receive k ≡ done (blocked, k'))
        × IsSystem k' (leave q (priority k me) me) b
        × IsRunning k' (leave q (priority k me) me)
        × (state k' me ≡ receive_blocked)
  unfolding receive receive_block
  receive-blocks ps j a l ne none_ready other apart =
      let r = dozing-Returns 0 j a other apart in
      (
        r.to,
        rw (
          ==_ne (first_port k me) null ne,
          find_port-first k (first_port k me) ps l,
          none_ready,
          remove_ready_queue_lem k me magic_me,
          r.returns,
        ),
        r.system,
        r.running,
        r.post,
      )

  -- The states and links after the first process of port `t` left the list.
  module _ (t x : Ptr) (xs : List Ptr) (e : b t ≡ x ∷ xs) where
    first_waits : is_waiting (state k x) ≡ true
    first_waits = s.placed.waiting_of_mem t x (rw e (ground arith))

    proc : IsProc k x
    proc = s.linked.procs x (s.placed.used_of_blocked x (ground (arith, first_waits)))

    nulls : null ∉ (x ∷ xs)
    nulls =
        subst (λ l. null ∉ l) e
          (ground (
            arith,
            s.placed.waiting_of_mem t null,
            s.placed.used_of_blocked null,
            s.linked.procs null,
          ))

    unlinked : IsLinked (unblock_first k t) q (update b t xs)
    unlinked = IsLinked-unblock_first k q b s.linked t x xs e nulls

    unplaced : IsPlaced (used k) (priority k) (update (state k) x reply_blocked) q (update b t xs)
    unplaced =
        IsPlaced-unwait (used k) (priority k) (state k) q b s.placed t x xs reply_blocked e refl
          refl

    head_eq : head_of k t ≡ x
    head_eq = (subst (IsWaitList k t) e (s.linked.lists t)).chain.0

    unblocked : (c : Ptr) → (unblock_first k t).pcb c ≡ k.pcb c
    unblocked c = ap (λ f. f c) (unblock_first-globals k t).0

    unblocked-fields :
        (c : Ptr)
        → (state (unblock_first k t) c ≡ state k c)
          × (priority (unblock_first k t) c ≡ priority k c)
          × (used (unblock_first k t) c ≡ used k c)
    unblocked-fields c =
        (ap Pcb.state (unblocked c), ap Pcb.priority (unblocked c), ap Pcb.used (unblocked c))

    -- What `receive` does with a process that waits in `send`.
    receive_from-send :
        state k x ≡ send_blocked
        → receive_from k t
          ≡ done (delivered x (param_data k x), set_state (unblock_first k t) x reply_blocked)
    unfolding receive_from
    receive_from-send st = rw (head_eq, proc.has_magic, unblocked x, st)

    -- And with one that waits in `message`.
    receive_from-message :
        state k x ≡ message_blocked
        → receive_from k t ≡ done (delivered x (param_data k x), enqueue (unblock_first k t) x)
    unfolding receive_from
    receive_from-message st = rw (
      head_eq,
      proc.has_magic,
      unblocked x,
      st,
      add_ready_queue_lem (unblock_first k t) x (ap Pcb.magic (unblocked x) ∙ proc.has_magic),
    )

    -- The call up to that point.
    receive_lem :
        (ps : List Ptr)
        → IsPortList k (first_port k me) ps
        → first_port k me ≢ null
        → first_ready k ps ≡ t
        → t ≢ null
        → receive k ≡ receive_from k t
    unfolding receive
    receive_lem ps l ne found real = rw (
      ==_ne (first_port k me) null ne,
      find_port-first k (first_port k me) ps l,
      found,
      ==_ne t null real,
    )

    -- Where the kernel keeps the invariant, the running process is ready and owns a list of ports,
    -- and the first of them that is open and has a waiting process is `t`, at which `x` waits
    -- first, in `send`: `receive` returns `x` and its message and keeps the invariant, `x` leaves
    -- the list of the port and waits for the reply, and the caller goes on.
    pub receive-send :
        (ps : List Ptr)
        → IsPortList k (first_port k me) ps
        → first_port k me ≢ null
        → first_ready k ps ≡ t
        → t ≢ null
        → state k x ≡ send_blocked
        → (k' : Kernel) × (receive k ≡ done (delivered x (param_data k x), k'))
          × IsSystem k' q (update b t xs)
          × IsRunning k' q
          × (k'.active_proc ≡ me)
          × (state k' x ≡ reply_blocked)
    receive-send ps l ne found real st = (
      set_state (unblock_first k t) x reply_blocked,
      receive_lem ps l ne found real ∙ receive_from-send st,
      record {
        linked =
            IsLinked-same (unblock_first k t) q (update b t xs) unlinked
              (set_state (unblock_first k t) x reply_blocked) links;
        placed =
            IsPlaced-cong (used k) (priority k) (update (state k) x reply_blocked) q (update b t xs)
              unplaced (used (set_state (unblock_first k t) x reply_blocked))
              (priority (set_state (unblock_first k t) x reply_blocked))
              (state (set_state (unblock_first k t) x reply_blocked))
              λ c. ground (
                arith,
                set_state-fields (unblock_first k t) x reply_blocked c,
                links.fixed c,
                unblocked-fields c,
              );
      },
      rw same_me (rw (links.fixed me).0 (rw (unblocked-fields me).1 run)),
      same_me,
      ground (arith, set_state-fields (unblock_first k t) x reply_blocked x),
    )
      where
        links : SameLinks (unblock_first k t) (set_state (unblock_first k t) x reply_blocked)
        links = SameLinks-set_state (unblock_first k t) x reply_blocked

        same_me : (set_state (unblock_first k t) x reply_blocked).active_proc ≡ me
        same_me =
            (set_state-fields (unblock_first k t) x reply_blocked x).3
            ∙ (unblock_first-globals k t).3

    -- Where the kernel keeps the invariant, the running process is ready and owns a list of ports,
    -- and the first of them that is open and has a waiting process is `t`, at which `x` waits
    -- first, in `message`: `receive` returns `x` and its message and keeps the invariant, `x`
    -- leaves the list of the port and is ready, at the end of its level, and the caller goes on.
    pub receive-message :
        (ps : List Ptr)
        → IsPortList k (first_port k me) ps
        → first_port k me ≢ null
        → first_ready k ps ≡ t
        → t ≢ null
        → state k x ≡ message_blocked
        → (k' : Kernel) × (receive k ≡ done (delivered x (param_data k x), k'))
          × IsSystem k' (enter q (priority k x) x) (update b t xs)
          × IsRunning k' (enter q (priority k x) x)
          × (k'.active_proc ≡ me)
          × (state k' x ≡ ready)
    receive-message ps l ne found real st = (
      enqueue (unblock_first k t) x,
      receive_lem ps l ne found real ∙ receive_from-message st,
      record { linked = linked; placed = placed },
      rw same_me (
          rw (enqueue-fields (unblock_first k t) x me).1 (
            rw (unblocked-fields me).1
              (mem-enter k q b s x me (priority k me) (priority k x) run))),
      same_me,
      ground (arith, enqueue-fields (unblock_first k t) x x),
    )
      where
        same_me : (enqueue (unblock_first k t) x).active_proc ≡ me
        same_me = (enqueue-globals (unblock_first k t) x).1 ∙ (unblock_first-globals k t).3

        linked : IsLinked (enqueue (unblock_first k t) x) (enter q (priority k x) x) (update b t xs)
        linked =
            IsLinked-enqueue_at (unblock_first k t) q (update b t xs) unlinked x (priority k x)
              (unblocked-fields x).1 (unlinked.procs x (ground (arith, unblocked-fields x, proc)))
              (ground (arith, first_waits, s.placed.ready_of_mem (priority k x) x))

        placed :
            IsPlaced
              (used (enqueue (unblock_first k t) x))
              (priority (enqueue (unblock_first k t) x))
              (state (enqueue (unblock_first k t) x))
              (enter q (priority k x) x)
              (update b t xs)
        placed =
            IsPlaced-cong (used k) (priority k) (update (update (state k) x reply_blocked) x ready)
              (enter q (priority k x) x) (update b t xs)
              (IsPlaced-wake (used k) (priority k) (update (state k) x reply_blocked) q
                (update b t xs) unplaced x (ground arith) (ground arith))
              (used (enqueue (unblock_first k t) x)) (priority (enqueue (unblock_first k t) x))
              (state (enqueue (unblock_first k t) x))
              λ c. ground (
                arith,
                enqueue-fields (unblock_first k t) x c,
                enqueue-rest (unblock_first k t) x c,
                unblocked-fields c,
              )
