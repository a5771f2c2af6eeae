-- ===== src/Kernel/System/Reach.antt =====
-- Sequences of system calls and interrupts: the invariant holds in every kernel that they reach.
use Prim.Native.String.{String}
use tos_sfsu_fall.Base.{ℕ, ◌≡◌, ◌≢◌, ◌<◌, sym, ap, ◌∙◌, subst, List}
use tos_sfsu_fall.Kernel.State.{
  Ptr, null, Kernel, reply_blocked, intr_blocked, magic_port, Outcome, done, halt,
}
use tos_sfsu_fall.Kernel.Dispatch.Inv.{state}
use tos_sfsu_fall.Kernel.Ipc.{
  send, message, receive, reply, Receipt, create_port, open_port, close_port,
}
use tos_sfsu_fall.Kernel.Ipc.Chain.{head_of}
use tos_sfsu_fall.Kernel.Ipc.Ports.{IsPortList}
use tos_sfsu_fall.Kernel.Intr.{
  wait_for_interrupt, interrupt_resume, isr_timer_0, isr_keyb_0, keyb_irq,
}
use tos_sfsu_fall.Kernel.Process.{create_process, boot}
use tos_sfsu_fall.Kernel.Process.Boot.{IsZeroed, boot_levels, no_waits, boot-IsSystem}
use tos_sfsu_fall.Kernel.System.Sound.{
  IsSound, HasOther, HasRoom, send-Goes, message-Goes, reply-Goes, wait-Goes, tick-Goes, key-Goes,
  receive-Receives, create-Goes,
}
use tos_sfsu_fall.Kernel.System.{IsPort}
use tos_sfsu_fall.Kernel.System.PortCalls.{resume-IsSound, open-Goes, close-Goes, create_port-Goes}
use tos_sfsu_fall.Kernel.System.Link.{first_port}

-- A system call of the running process, or an interrupt of the timer or of the keyboard. A call of
-- `wait_for_interrupt` is two steps: `resumes` is its end, when its process runs again.
pub data Step (k : Kernel) : Kernel → Type 0 where
  sends : (t d : ℕ) (k' : Kernel) → IsPort k t → HasOther k → send k t d ≡ done k' → Step k k'
  messages : (t d : ℕ) (k' : Kernel) → IsPort k t → HasOther k → message k t d ≡ done k' → Step k k'
  receives :
      (ps : List Ptr) (got : Receipt) (k' : Kernel)
      → IsPortList k (first_port k k.active_proc) ps
      → first_port k k.active_proc ≢ null
      → HasOther k
      → receive k ≡ done (got, k')
      → Step k k'
  replies : (p : Ptr) (k' : Kernel) → state k p ≡ reply_blocked → reply k p ≡ done k' → Step k k'
  creates :
      (entry prio param : ℕ) (name : String) (t : Ptr) (k' : Kernel)
      → HasRoom k
      → prio < 8
      → create_process k entry prio param name ≡ done (t, k')
      → Step k k'
  waits :
      (n : ℕ) (k' : Kernel)
      → k.interrupt_table n ≡ null
      → HasOther k
      → wait_for_interrupt k n ≡ done k'
      → Step k k'
  resumes : (n : ℕ) → k.interrupt_table n ≡ k.active_proc → Step k (interrupt_resume k n)
  ports :
      (t : Ptr) (k' : Kernel)
      → k.next_free_port ≢ null
      → head_of k k.next_free_port ≡ null
      → create_port k ≡ done (t, k')
      → Step k k'
  opens :
      (t : Ptr) (k' : Kernel) → (k.port t).magic ≡ magic_port → open_port k t ≡ done k' → Step k k'
  closes :
      (t : Ptr) (k' : Kernel) → (k.port t).magic ≡ magic_port → close_port k t ≡ done k' → Step k k'
  keys :
      (k' : Kernel)
      → state k (k.interrupt_table keyb_irq) ≡ intr_blocked
      → isr_keyb_0 k ≡ done k'
      → Step k k'
  ticks : (k' : Kernel) → isr_timer_0 k ≡ done k' → Step k k'

abbrev result {ℓ} : {A : Type ℓ} → A → Outcome A → A
result d (done a) = a
result d (halt h) = d

same-IsSound :
    (k₁ k₂ : Kernel) (r : Outcome Kernel) → r ≡ done k₁ → r ≡ done k₂ → IsSound k₁ → IsSound k₂
same-IsSound k₁ k₂ r e f s = subst IsSound (ap (result k₁) (sym e ∙ f)) s

same_pair-IsSound :
    {A : Type 0} (a₁ a₂ : A) (k₁ k₂ : Kernel) (r : Outcome (A × Kernel))
    → r ≡ done (a₁, k₁)
    → r ≡ done (a₂, k₂)
    → IsSound k₁
    → IsSound k₂
same_pair-IsSound {A = A} a₁ a₂ k₁ k₂ r e f s =
    subst IsSound
      (ap (λ (o : Outcome (A × Kernel)). (result {A = A × Kernel} (a₁, k₁) o).1) (sym e ∙ f)) s

Step-IsSound : (k k' : Kernel) → Step k k' → IsSound k → IsSound k'
Step-IsSound k _ (sends t d k' port o e) s =
    let (k₁, f, s₁) = send-Goes k t d s port o in same-IsSound k₁ k' _ f e s₁
Step-IsSound k _ (messages t d k' port o e) s =
    let (k₁, f, s₁) = message-Goes k t d s port o in same-IsSound k₁ k' _ f e s₁
Step-IsSound k _ (receives ps got k' l ne o e) s =
    let (got₁, k₁, f, s₁) = receive-Receives k ps s l ne o in
    same_pair-IsSound got₁ got k₁ k' _ f e s₁
Step-IsSound k _ (replies p k' st e) s =
    let (k₁, f, s₁) = reply-Goes k p s st in same-IsSound k₁ k' _ f e s₁
Step-IsSound k _ (creates entry prio param name t k' room small e) s =
    let (t₁, k₁, f, s₁) = create-Goes k entry prio param name s room small in
    same_pair-IsSound t₁ t k₁ k' _ f e s₁
Step-IsSound k _ (waits n k' free o e) s =
    let (k₁, f, s₁) = wait-Goes k n s free o in same-IsSound k₁ k' _ f e s₁
Step-IsSound k _ (resumes n e) s = resume-IsSound k n s
Step-IsSound k _ (ports t k' ne nobody e) s =
    let (t₁, k₁, f, s₁) = create_port-Goes k s ne nobody in same_pair-IsSound t₁ t k₁ k' _ f e s₁
Step-IsSound k _ (opens t k' m e) s =
    let (k₁, f, s₁) = open-Goes k t s m in same-IsSound k₁ k' _ f e s₁
Step-IsSound k _ (closes t k' m e) s =
    let (k₁, f, s₁) = close-Goes k t s m in same-IsSound k₁ k' _ f e s₁
Step-IsSound k _ (keys k' st e) s = let (k₁, f, s₁) = key-Goes k s st in same-IsSound k₁ k' _ f e s₁
Step-IsSound k _ (ticks k' e) s = let (k₁, f, s₁) = tick-Goes k s in same-IsSound k₁ k' _ f e s₁

-- The kernels that steps reach.
pub data Reach (k : Kernel) : Kernel → Type 0 where
  start : Reach k k
  more : (k₁ k₂ : Kernel) → Reach k k₁ → Step k₁ k₂ → Reach k k₂

-- Where the kernel keeps the invariant and the running process is ready, so it is in every kernel
-- that sequences of system calls and interrupts reach.
pub Reach-IsSound : (k k' : Kernel) → Reach k k' → IsSound k → IsSound k'
Reach-IsSound k _ start s = s
Reach-IsSound k _ (more k₁ k₂ r x) s = Step-IsSound k₁ k₂ x (Reach-IsSound k k₁ r s)

-- From zeroed globals: in every kernel that sequences of system calls and of interrupts of the
-- timer and the keyboard reach from the kernel that the first three calls of `kernel_main` return,
-- the queues and the lists of blocked processes are well formed and agree with the states of the
-- processes, and the running process is ready, in its queue. The system calls are `send`,
-- `message`, `receive`, `reply`, `create_process`, `create_port`, `open_port`, `close_port` and
-- `wait_for_interrupt`, whose end is a step of its own, taken when the process runs that is noted
-- for the interrupt. The calls return and keep to these conditions: `send` and `message` go to a
-- port of a process, `receive` comes from a process that owns a list of ports, `reply` goes to a
-- process blocked on a reply, `create_process` and `create_port` find free entries and a free port
-- at which nobody waits, `create_process` gets a priority below 8, `open_port` and `close_port`
-- name a port, `wait_for_interrupt` names an interrupt that nobody waits for, a process is blocked
-- for the interrupt of the keyboard when it comes, and at each call that may block some other
-- process is ready.
pub boot-Reach : (k k₀ k' : Kernel) → IsZeroed k → boot k ≡ done k₀ → Reach k₀ k' → IsSound k'
boot-Reach k k₀ k' z e r =
    let (k₁, f, system, running) = boot-IsSystem k z in
    Reach-IsSound k₀ k' r (
      same-IsSound k₁ k₀ (boot k) f e
        (record { queues = boot_levels; lists = no_waits; system = system; running = running }))
