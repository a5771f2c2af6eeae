-- ===== src/Kernel/Process/Create.antt =====
-- `create_process` of kernel/process.c and the invariant of the kernel.
use tos_sfsu_fall.Base.{
  ℕ, ◌≡◌, ◌≢◌, ◌<◌, refl, ◌∙◌, Bool, true, false, [], ◌∷◌, arith, ◌==◌, if◌then◌else◌, leb,
  has-append, ◌∈◌, Bool-cases, ==_iff, ==_ne, inl, inr,
}
use Prim.Native.String.{String}
use tos_sfsu_fall.Kernel.State.{
  Ptr, null, Kernel, ready, magic_pcb, max_ready_queues, update, done, ProcState,
}
use tos_sfsu_fall.Kernel.Dispatch.{enqueue}
use tos_sfsu_fall.Kernel.Dispatch.Ring.{Ring-frame}
use tos_sfsu_fall.Kernel.Dispatch.Inv.{next, prev, state, priority, Levels, IsReady}
use tos_sfsu_fall.Kernel.Dispatch.Enqueue.{enqueue-fields}
use tos_sfsu_fall.Kernel.Ipc.{take_port, create_new_port}
use tos_sfsu_fall.Kernel.Ipc.Chain.{next_blocked, head_of, tail_of, IsWaitList, Chain-frame}
use tos_sfsu_fall.Kernel.Process.{take_pcb, write_stack, create_process}
use tos_sfsu_fall.Kernel.System.{Waits, used, IsPlaced, IsLinked, IsSystem, enter}
use tos_sfsu_fall.Kernel.System.Place.{IsPlaced-cong}
use tos_sfsu_fall.Kernel.System.Link.{
  IsLinked-enqueue_at, enqueue-rest, enqueue-globals, first_port,
}
use tos_sfsu_fall.Kernel.System.Switch.{add_ready_queue_lem}

take_pcb-fields :
    (k : Kernel) (prio : ℕ) (name : String) (a : Ptr)
    → (used (take_pcb k prio name) a ≡ (if a == k.next_free_pcb then true else used k a))
      × (priority (take_pcb k prio name) a ≡ (if a == k.next_free_pcb then prio else priority k a))
      × (state (take_pcb k prio name) a ≡ (if a == k.next_free_pcb then ready else state k a))
      × (((take_pcb k prio name).pcb a).magic
          ≡ (if a == k.next_free_pcb then magic_pcb else (k.pcb a).magic))
      × (next (take_pcb k prio name) a ≡ next k a)
      × (prev (take_pcb k prio name) a ≡ prev k a)
      × (next_blocked (take_pcb k prio name) a ≡ next_blocked k a)
unfolding take_pcb
take_pcb-fields k prio name a = ground arith

pub take_port-fields :
    (k : Kernel) (t owner a : Ptr)
    → (used (take_port k t owner) a ≡ used k a)
      × (priority (take_port k t owner) a ≡ priority k a)
      × (state (take_port k t owner) a ≡ state k a)
      × (((take_port k t owner).pcb a).magic ≡ (k.pcb a).magic)
      × (next (take_port k t owner) a ≡ next k a)
      × (prev (take_port k t owner) a ≡ prev k a)
      × (next_blocked (take_port k t owner) a ≡ next_blocked k a)
unfolding take_port
take_port-fields k t owner a = ground arith

pub take_port-port :
    (k : Kernel) (t owner u : Ptr)
    → (head_of (take_port k t owner) u ≡ (if u == t then null else head_of k u))
      × (tail_of (take_port k t owner) u ≡ (if u == t then null else tail_of k u))
unfolding take_port
take_port-port k t owner u = ground arith

write_stack-fields :
    (k : Kernel) (p entry param a : ℕ)
    → (used (write_stack k p entry param) a ≡ used k a)
      × (priority (write_stack k p entry param) a ≡ priority k a)
      × (state (write_stack k p entry param) a ≡ state k a)
      × (((write_stack k p entry param).pcb a).magic ≡ (k.pcb a).magic)
      × (next (write_stack k p entry param) a ≡ next k a)
      × (prev (write_stack k p entry param) a ≡ prev k a)
      × (next_blocked (write_stack k p entry param) a ≡ next_blocked k a)
      × (first_port (write_stack k p entry param) a ≡ first_port k a)
unfolding write_stack
write_stack-fields k p entry param a = ground arith

write_stack-port : (k : Kernel) (p entry param : ℕ) → (write_stack k p entry param).port ≡ k.port
unfolding write_stack
write_stack-port k p entry param = refl

-- The queues depend on the fields of the queued processes only.
IsReady-frame_members :
    (k k' : Kernel) (q : Levels)
    → IsReady k q
    → k'.ready_queue ≡ k.ready_queue
    → k'.ready_procs ≡ k.ready_procs
    → ((i a : Ptr)
        → a ∈ q i
        → (next k' a ≡ next k a)
          × (prev k' a ≡ prev k a)
          × (priority k' a ≡ priority k a)
          × ((k'.pcb a).magic ≡ (k.pcb a).magic))
    → IsReady k' q
IsReady-frame_members k k' q r heads procs same = record {
  rings = λ i. rw heads (
      Ring-frame (next k) (prev k) (next k') (prev k') (k.ready_queue i) (q i) (r.rings i)
        λ a m. ((same i a m).0, (same i a m).1));
  bits = λ i h. rw procs (r.bits i h);
  byte = rw procs r.byte;
  members = λ i p m. record {
    level = ground (arith, same i p m, (r.members i p m).level);
    small = (r.members i p m).small;
    ne_null = (r.members i p m).ne_null;
    has_magic = (same i p m).3 ∙ (r.members i p m).has_magic;
  };
  distinct = r.distinct;
}

-- A new ready process: where everybody stands.
IsPlaced-create :
    (us : Ptr → Bool) (pr : Ptr → ℕ) (st : Ptr → ProcState) (q : Levels) (b : Waits) (p i : ℕ)
    → IsPlaced us pr st q b
    → us p ≡ false
    → IsPlaced (update us p true) (update pr p i) (update st p ready) (enter q i p) b
IsPlaced-create us pr st q b p i w free = record {
  ready_of_mem = λ j a m. ground (arith, w.ready_of_mem j a, has-append a (q i) (p ∷ []));
  level_of_mem =
      λ j a m. ground (arith, w.level_of_mem j a, has-append a (q i) (p ∷ []), w.used_of_mem j a);
  used_of_mem = λ j a m. ground (arith, w.used_of_mem j a, has-append a (q i) (p ∷ []));
  mem_of_ready = λ a u r. ground (arith, w.mem_of_ready a, has-append a (q i) (p ∷ []));
  waiting_of_mem = λ t a m. ground (arith, w.waiting_of_mem t a m, w.used_of_blocked a);
  mem_of_waiting = λ a m. w.mem_of_waiting a (ground (arith));
  apart = w.apart;
  distinct = w.distinct;
  used_of_blocked = λ a r. ground (arith, w.used_of_blocked a);
}

-- A PCB and a port are free: the PCB is not used, and nobody waits at the port.
pub record IsFree (k : Kernel) (b : Waits) : Type 0 where
  pub pcb_ne_null : k.next_free_pcb ≢ null
  pub pcb_unused : used k k.next_free_pcb ≡ false
  pub port_ne_null : k.next_free_port ≢ null
  pub port_empty : b k.next_free_port ≡ []

module _ (k : Kernel) (q : Levels) (b : Waits) (s : IsSystem k q b) (free : IsFree k b)
    (entry prio param : ℕ) (name : String) where
  abbrev p : Ptr
  p = k.next_free_pcb

  abbrev t : Ptr
  t = k.next_free_port

  -- The kernel before the new process enters its queue.
  abbrev owned : Kernel
  owned = take_port (take_pcb k prio name) t p

  abbrev born : Kernel
  born = write_stack owned p entry param

  born-fields :
      (a : Ptr)
      → (used born a ≡ (if a == p then true else used k a))
        × (priority born a ≡ (if a == p then prio else priority k a))
        × (state born a ≡ (if a == p then ready else state k a))
        × ((born.pcb a).magic ≡ (if a == p then magic_pcb else (k.pcb a).magic))
        × (next born a ≡ next k a)
        × (prev born a ≡ prev k a)
        × (next_blocked born a ≡ next_blocked k a)
  born-fields a = ground (
    arith,
    write_stack-fields owned p entry param a,
    take_port-fields (take_pcb k prio name) t p a,
    take_pcb-fields k prio name a,
  )

  born-globals :
      (born.ready_queue ≡ k.ready_queue)
      × (born.ready_procs ≡ k.ready_procs)
      × (born.active_proc ≡ k.active_proc)
      × ((u : Ptr)
          → (head_of born u ≡ (if u == t then null else head_of k u))
            × (tail_of born u ≡ (if u == t then null else tail_of k u)))
  unfolding write_stack take_port take_pcb
  born-globals = (refl, refl, refl, λ u. ground arith)

  not_queued : (i a : ℕ) → a ∈ q i → (a == p) ≡ false
  not_queued i a m = ground (arith, s.placed.used_of_mem i a m, free.pcb_unused, ==_iff a p)

  born-lists : (u : Ptr) → IsWaitList born u (b u)
  born-lists u = elim (Bool-cases (u == t)) [
    | inl e ↦
        rw ((==_iff u t).0 e, free.port_empty)
          (record { chain = ground (arith, born-globals.3 t); tail = tt })
    | inr e ↦ record {
      chain =
          rw ((born-globals.3 u).0, e)
            (Chain-frame (next_blocked k) (next_blocked born) (head_of k u) (b u)
              (s.linked.lists u).chain λ a m. (born-fields a).6);
      tail = rw ((born-globals.3 u).1, e) (s.linked.lists u).tail;
    }
  ]

  born-IsLinked : prio < 8 → IsLinked born q b
  born-IsLinked small = record {
    queues =
        IsReady-frame_members k born q s.linked.queues born-globals.0 born-globals.1
          λ i a m. ground (arith, born-fields a, not_queued i a m);
    lists = born-lists;
    procs = λ a u. record {
      ne_null = ground (arith, born-fields a, s.linked.procs a, free.pcb_ne_null);
      has_magic = ground (arith, born-fields a, s.linked.procs a);
      small = ground (arith, born-fields a, s.linked.procs a);
      is_used = u;
    };
  }

  kept : (take_pcb k prio name).next_free_port ≡ t
  unfolding take_pcb
  kept = refl

  new_port : create_new_port (take_pcb k prio name) p ≡ done (t, owned)
  unfolding create_new_port
  new_port = rw (magic_of, kept, ==_ne t null free.port_ne_null)
    where
      magic_of : ((take_pcb k prio name).pcb p).magic ≡ magic_pcb
      magic_of = ground (arith, take_pcb-fields k prio name p)

  born-port : (first_port born p ≡ t) × ((born.port t).owner ≡ p)
  unfolding take_port
  born-port =
      rw ((write_stack-fields owned p entry param p).7, write_stack-port owned p entry param)
        (ground arith, ground arith)

  create_lem : prio < 8 → create_process k entry prio param name ≡ done (t, enqueue born p)
  unfolding create_process
  create_lem small = rw (
    not_leb,
    ==_ne p null free.pcb_ne_null,
    new_port,
    add_ready_queue_lem born p (ground (arith, born-fields p)),
  )
    where
      not_leb : leb max_ready_queues prio ≡ false
      not_leb = ground arith

  -- Where the kernel keeps the invariant, a PCB and a port are free, nobody waits at that port,
  -- and the priority is below 8: `create_process` returns the port and keeps the invariant; the
  -- new process owns the port and stands last in the queue of its priority, and the caller goes
  -- on.
  pub create_process-IsSystem :
      prio < 8
      → (k' : Kernel) × (create_process k entry prio param name ≡ done (t, k'))
        × IsSystem k' (enter q prio p) b
        × (used k' p ≡ true)
        × (first_port k' p ≡ t)
        × ((k'.port t).owner ≡ p)
        × (k'.active_proc ≡ k.active_proc)
  create_process-IsSystem small = (
    enqueue born p,
    create_lem small,
    record {
      linked =
          IsLinked-enqueue_at born q b (born-IsLinked small) p prio (ground (arith, born-fields p))
            ((born-IsLinked small).procs p (ground (arith, born-fields p)))
            (ground (arith, not_queued prio p));
      placed =
          IsPlaced-cong (update (used k) p true) (update (priority k) p prio)
            (update (state k) p ready) (enter q prio p) b
            (IsPlaced-create (used k) (priority k) (state k) q b p prio s.placed free.pcb_unused)
            (used (enqueue born p)) (priority (enqueue born p)) (state (enqueue born p))
            λ a. ground (arith, enqueue-fields born p a, enqueue-rest born p a, born-fields a);
    },
    ground (arith, enqueue-rest born p p, born-fields p),
    (enqueue-rest born p p).4 ∙ born-port.0,
    rw (enqueue-globals born p).0 born-port.1,
    (enqueue-globals born p).1 ∙ born-globals.2,
  )
