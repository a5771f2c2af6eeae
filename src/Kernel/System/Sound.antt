-- ===== src/Kernel/System/Sound.antt =====
-- Each system call of a process, and the interrupt of the timer, in a kernel that keeps the invariant.
use Prim.Native.String.{String}
use tos_sfsu_fall.Base.{
  ℕ, ◌≡◌, ◌≢◌, ◌<◌, refl, sym, ap, ◌∙◌, subst, true, false, List, [], ◌∷◌, arith, ◌==◌, Bool-cases,
  inl, inr, ◌∈◌, ◌⊎◌, ==_iff, has-append,
}
use tos_sfsu_fall.Kernel.State.{
  Ptr, null, Kernel, ProcState, ready, send_blocked, reply_blocked, receive_blocked,
  message_blocked, intr_blocked, is_intr_blocked, Outcome, done,
}
use tos_sfsu_fall.Kernel.Dispatch.Inv.{state, priority, Levels}
use tos_sfsu_fall.Kernel.Ipc.{send, message, receive, reply, can_deliver, Receipt}
use tos_sfsu_fall.Kernel.Ipc.Chain.{head_of}
use tos_sfsu_fall.Kernel.Ipc.Ports.{IsPortList, first_ready, first_ready-has_message}
use tos_sfsu_fall.Kernel.Intr.{wait_for_interrupt, isr_timer_0, isr_keyb_0, timer_irq, keyb_irq}
use tos_sfsu_fall.Kernel.Intr.Wake.{
  wait_for_interrupt-blocks, isr_keyb_0-wakes, isr_timer_0-wakes, isr_timer_0-idle,
}
use tos_sfsu_fall.Kernel.Process.{create_process}
use tos_sfsu_fall.Kernel.Process.Create.{IsFree, create_process-IsSystem}
use tos_sfsu_fall.Kernel.System.{
  Waits, used, is_ready, is_waiting, enter, IsSystem, IsRunning, IsPort,
}
use tos_sfsu_fall.Kernel.System.Link.{first_port}
use tos_sfsu_fall.Kernel.System.Switch.{Returns}
use tos_sfsu_fall.Kernel.System.Reply.{reply-wakes, message-delivers}
use tos_sfsu_fall.Kernel.System.Send.{send-delivers}
use tos_sfsu_fall.Kernel.System.Wait.{send-waits, message-waits}
use tos_sfsu_fall.Kernel.System.Receive.{receive-blocks, receive-send, receive-message}

-- The invariant holds for some queues and lists, and the running process is ready.
pub record IsSound (k : Kernel) : Type 0 where
  pub queues : Levels
  pub lists : Waits
  pub system : IsSystem k queues lists
  pub running : IsRunning k queues

-- Some other process is ready, as the idle process of the system is.
pub record HasOther (k : Kernel) : Type 0 where
  pub process : Ptr
  pub apart : process ≢ k.active_proc
  pub is_used : used k process ≡ true
  pub ready : is_ready (state k process) ≡ true

-- An operation returns, to a sound kernel.
abbrev pub Goes : Outcome Kernel → Type 0
Goes r = (k' : Kernel) × (r ≡ done k') × IsSound k'

goes_of :
    (q : Levels) (b : Waits) (P : Kernel → Type 0) (r : Outcome Kernel) → Returns q b P r → Goes r
goes_of q b P r x =
    (x.to, x.returns, record { queues = q; lists = b; system = x.system; running = x.running })

-- The level of the other process.
other-mem :
    (k : Kernel) (s : IsSound k) (o : HasOther k) → o.process ∈ s.queues (priority k o.process)
other-mem k s o = s.system.placed.mem_of_ready o.process o.is_used o.ready

pub send-Goes : (k : Kernel) (t d : ℕ) → IsSound k → IsPort k t → HasOther k → Goes (send k t d)
send-Goes k t d s port o = elim (Bool-cases (can_deliver k t)) [
  | inl e ↦ goes_of _ _ _ _ (send-delivers k s.queues s.lists s.system s.running t d port e)
  | inr e ↦ goes_of _ _ _ _ (
      send-waits k s.queues s.lists s.system s.running (priority k o.process) o.process
        (other-mem k s o) o.apart t d port e)
]

pub message-Goes :
    (k : Kernel) (t d : ℕ) → IsSound k → IsPort k t → HasOther k → Goes (message k t d)
message-Goes k t d s port o = elim (Bool-cases (can_deliver k t)) [
  | inl e ↦ goes_of _ _ _ _ (message-delivers k s.queues s.lists s.system s.running t d port e)
  | inr e ↦ goes_of _ _ _ _ (
      message-waits k s.queues s.lists s.system s.running (priority k o.process) o.process
        (other-mem k s o) o.apart t d port e)
]

-- A process that is not ready is a real one.
blocked-real : (k : Kernel) (s : IsSound k) (p : Ptr) → is_ready (state k p) ≡ false → p ≢ null
blocked-real k s p h = (s.system.linked.procs p (s.system.placed.used_of_blocked p h)).ne_null

-- The interrupt of the keyboard, where a process waits for it.
pub key-Goes :
    (k : Kernel)
    → IsSound k
    → state k (k.interrupt_table keyb_irq) ≡ intr_blocked
    → Goes (isr_keyb_0 k)
key-Goes k s e = goes_of _ _ _ _ (
    isr_keyb_0-wakes k s.queues s.lists s.system s.running (k.interrupt_table keyb_irq) refl
      (blocked-real k s (k.interrupt_table keyb_irq) (ap is_ready e)) e)

pub reply-Goes : (k : Kernel) (p : Ptr) → IsSound k → state k p ≡ reply_blocked → Goes (reply k p)
reply-Goes k p s e = goes_of _ _ _ _ (reply-wakes k s.queues s.lists s.system s.running p e)

pub wait-Goes :
    (k : Kernel) (n : ℕ)
    → IsSound k
    → k.interrupt_table n ≡ null
    → HasOther k
    → Goes (wait_for_interrupt k n)
wait-Goes k n s e o = goes_of _ _ _ _ (
    wait_for_interrupt-blocks k s.queues s.lists s.system s.running n (priority k o.process)
      o.process e (other-mem k s o) o.apart)

is_intr_blocked-eq : (st : ProcState) → is_intr_blocked st ≡ true → st ≡ intr_blocked
is_intr_blocked-eq intr_blocked h = refl
is_intr_blocked-eq ready h = absurd (ground (arith, h))
is_intr_blocked-eq send_blocked h = absurd (ground (arith, h))
is_intr_blocked-eq reply_blocked h = absurd (ground (arith, h))
is_intr_blocked-eq receive_blocked h = absurd (ground (arith, h))
is_intr_blocked-eq message_blocked h = absurd (ground (arith, h))

pub tick-Goes : (k : Kernel) → IsSound k → Goes (isr_timer_0 k)
tick-Goes k s = elim (Bool-cases (is_intr_blocked (state k (k.interrupt_table timer_irq)))) [
  | inl e ↦
      let st = is_intr_blocked-eq _ e in
      goes_of _ _ _ _ (
        isr_timer_0-wakes k s.queues s.lists s.system s.running (k.interrupt_table timer_irq) refl
          (blocked-real k s (k.interrupt_table timer_irq) (ap is_ready st)) st)
  | inr e ↦ goes_of _ _ _ _ (isr_timer_0-idle k s.queues s.lists s.system s.running e)
]

-- `receive` returns what it received, and a sound kernel.
abbrev pub Receives : Outcome (Receipt × Kernel) → Type 0
Receives r = (got : Receipt) × (k' : Kernel) × (r ≡ done (got, k')) × IsSound k'

waiting-cases :
    (st : ProcState) → is_waiting st ≡ true → (st ≡ send_blocked) ⊎ (st ≡ message_blocked)
waiting-cases send_blocked h = inl refl
waiting-cases message_blocked h = inr refl
waiting-cases ready h = absurd (ground (arith, h))
waiting-cases reply_blocked h = absurd (ground (arith, h))
waiting-cases receive_blocked h = absurd (ground (arith, h))
waiting-cases intr_blocked h = absurd (ground (arith, h))

pub List-cases : (xs : List ℕ) → (xs ≡ []) ⊎ ((x : ℕ) × (ys : List ℕ) × (xs ≡ x ∷ ys))
List-cases [] = inl refl
List-cases (x ∷ ys) = inr (x, ys, refl)

pub receive-Receives :
    (k : Kernel) (ps : List Ptr)
    → IsSound k
    → IsPortList k (first_port k k.active_proc) ps
    → first_port k k.active_proc ≢ null
    → HasOther k
    → Receives (receive k)
receive-Receives k ps s l ne o = elim (Bool-cases (first_ready k ps == null)) [
  | inl none_ready ↦
      let (k', e, system, running, st) =
        receive-blocks k s.queues s.lists s.system s.running ps (priority k o.process) o.process l
          ne ((==_iff _ _).0 none_ready) (other-mem k s o) o.apart in
      (_, k', e, record { queues = _; lists = _; system = system; running = running })
  | inr found ↦
      let t = first_ready k ps in
      let real : t ≢ null = λ e. ground (arith, found, e) in
      elim (List-cases (s.lists t)) [
        | inl empty ↦ absurd (nobody t real empty)
        | inr (x, xs, e) ↦
            elim (waiting-cases (state k x)
              (s.system.placed.waiting_of_mem t x (rw e (ground arith)))) [
                | inl st ↦
                    let (k', r, system, running, same, after) =
                      receive-send k s.queues s.lists s.system s.running t x xs e ps l ne refl real
                        st in
                    (_, k', r, record { queues = _; lists = _; system = system; running = running })
                | inr st ↦
                    let (k', r, system, running, same, after) =
                      receive-message k s.queues s.lists s.system s.running t x xs e ps l ne refl
                        real st in
                    (_, k', r, record { queues = _; lists = _; system = system; running = running })
              ]
      ]
]
  where
    nobody : (t : Ptr) → first_ready k ps ≢ null → s.lists (first_ready k ps) ≡ [] → ⊥
    nobody t real empty = ground (
      arith,
      first_ready-has_message k ps real,
      rw empty at (s.system.linked.lists (first_ready k ps)).chain,
    )

-- A PCB and a port are free, and nobody waits at that port.
pub record HasRoom (k : Kernel) : Type 0 where
  pub pcb_ne_null : k.next_free_pcb ≢ null
  pub pcb_unused : used k k.next_free_pcb ≡ false
  pub port_ne_null : k.next_free_port ≢ null
  pub port_empty : head_of k k.next_free_port ≡ null

-- The list of a port with no first process is empty.
pub no_waiting : (k : Kernel) (s : IsSound k) (t : Ptr) → head_of k t ≡ null → s.lists t ≡ []
no_waiting k s t free = elim (List-cases (s.lists t)) [
  | inl e ↦ e
  | inr (x, xs, e) ↦
      let waits = s.system.placed.waiting_of_mem t x (rw e (ground arith)) in
      absurd (
        blocked-real k s x (ground (arith, waits))
          (sym ((rw e at (s.system.linked.lists t).chain).0) ∙ free))
]

room-IsFree : (k : Kernel) (s : IsSound k) → HasRoom k → IsFree k s.lists
room-IsFree k s h = record {
  pcb_ne_null = h.pcb_ne_null;
  pcb_unused = h.pcb_unused;
  port_ne_null = h.port_ne_null;
  port_empty = no_waiting k s k.next_free_port h.port_empty;
}

pub create-Goes :
    (k : Kernel) (entry prio param : ℕ) (name : String)
    → IsSound k
    → HasRoom k
    → prio < 8
    → (t : Ptr) × (k' : Kernel) × (create_process k entry prio param name ≡ done (t, k'))
      × IsSound k'
create-Goes k entry prio param name s h small =
    let (k', e, system, u, first, owner, same) =
      create_process-IsSystem k s.queues s.lists s.system (room-IsFree k s h) entry prio param name
        small in
    let stays = kept prio k.next_free_pcb in
    let level = system.placed.level_of_mem (priority k k.active_proc) k.active_proc stays in
    (
      _,
      k',
      e,
      record {
        queues = _;
        lists = _;
        system = system;
        running =
            subst (λ a. a ∈ enter s.queues prio k.next_free_pcb (priority k' a)) (sym same)
              (subst (λ i. k.active_proc ∈ enter s.queues prio k.next_free_pcb i) (sym level)
                stays);
      },
    )
  where
    kept : (i p : ℕ) → k.active_proc ∈ enter s.queues i p (priority k k.active_proc)
    kept i p = ground (
      arith,
      has-append k.active_proc (s.queues i) (p ∷ []),
      s.running,
      ==_iff (priority k k.active_proc) i,
    )
