-- ===== src/Kernel/Intr/Wake.antt =====
-- The interrupts of kernel/intr.c and the invariant of the kernel.
use tos_sfsu_fall.Base.{
  ℕ, ◌≡◌, ◌≢◌, refl, ap, fun_ext, sym, ◌∙◌, subst, Bool, true, false, not, ◌&&◌, arith, ◌==◌,
  if◌then◌else◌, ◌∈◌, ==_ne,
}
use tos_sfsu_fall.Kernel.State.{
  Ptr, null, Kernel, ready, intr_blocked, is_intr_blocked, update, Outcome, halt, panic, ◌>>=◌,
}
use tos_sfsu_fall.Kernel.Dispatch.{dequeue, add_ready_queue, resign}
use tos_sfsu_fall.Kernel.Dispatch.Inv.{state, priority, Levels}
use tos_sfsu_fall.Kernel.Dispatch.Enqueue.{enqueue-fields}
use tos_sfsu_fall.Kernel.Dispatch.Dequeue.{dequeue-fields}
use tos_sfsu_fall.Kernel.Dispatch.Choice.{Follows-of_mem}
use tos_sfsu_fall.Kernel.Ipc.{set_state}
use tos_sfsu_fall.Kernel.Intr.{
  set_interrupt, wait_for_interrupt, dispatch, serve, isr_timer_0, isr_keyb_0, timer_irq, keyb_irq,
}
use tos_sfsu_fall.Kernel.System.{Waits, IsSystem, IsRunning, enter, leave}
use tos_sfsu_fall.Kernel.System.Link.{SameLinks, SameLinks-set_state, set_state-fields}
use tos_sfsu_fall.Kernel.System.Switch.{Returns, resign-Returns, wake-resign, is_cons_of_mem}
use tos_sfsu_fall.Kernel.System.Block.{
  suspend-Returns, remove_ready_queue_lem, IsSystem-same, block-IsSystem,
}

-- The assignment from `dispatcher` is what `resign` does.
dispatch-resign : (k : Kernel) → dispatch k ≡ resign k
unfolding dispatch resign
dispatch-resign k = refl

and_false : (a : Bool) → (a && false) ≡ false
and_false true = refl
and_false false = refl

-- Process `p` became ready, and no other state changed.
abbrev pub OnlyReady : Kernel → Ptr → Kernel → Type 0
OnlyReady k p k' = (a : Ptr) → state k' a ≡ (if a == p then ready else state k a)

module _ (k : Kernel) (q : Levels) (b : Waits) (s : IsSystem k q b) (run : IsRunning k q) where
  -- The last steps of every service routine that finds a process.
  wake-dispatch :
      (p : Ptr)
      → state k p ≡ intr_blocked
      → Returns (enter q (priority k p) p) b (OnlyReady k p) (add_ready_queue k p >>= dispatch)
  wake-dispatch p e =
      subst
        (λ (f : Kernel → Outcome Kernel).
          Returns (enter q (priority k p) p) b (OnlyReady k p) (add_ready_queue k p >>= f))
        (fun_ext λ l. sym (dispatch-resign l))
        (wake-resign k q b s (OnlyReady k p) p run (rw e) (rw e) λ c a. (enqueue-fields k p a).0)

  -- Where the kernel keeps the invariant, the running process is ready, and a process is blocked
  -- for the keyboard interrupt: the service routine returns and keeps the invariant; that process
  -- is ready, at the end of its level, no other state changes, and a ready process of the highest
  -- level runs.
  pub isr_keyb_0-wakes :
      (p : Ptr)
      → k.interrupt_table keyb_irq ≡ p
      → p ≢ null
      → state k p ≡ intr_blocked
      → Returns (enter q (priority k p) p) b (OnlyReady k p) (isr_keyb_0 k)
  unfolding isr_keyb_0 serve
  isr_keyb_0-wakes p e ne st = rw (e, ==_ne p null ne, st) (wake-dispatch p st)

  -- Where the kernel keeps the invariant, the running process is ready, and a process is blocked
  -- for the timer interrupt: the service routine returns and keeps the invariant; that process is
  -- ready, at the end of its level, no other state changes, and a ready process of the highest
  -- level runs.
  pub isr_timer_0-wakes :
      (p : Ptr)
      → k.interrupt_table timer_irq ≡ p
      → p ≢ null
      → state k p ≡ intr_blocked
      → Returns (enter q (priority k p) p) b (OnlyReady k p) (isr_timer_0 k)
  unfolding isr_timer_0
  isr_timer_0-wakes p e ne st = rw (e, ==_ne p null ne, st) (wake-dispatch p st)

  -- Where the kernel keeps the invariant, the running process is ready, and the process noted for
  -- the timer interrupt is not blocked for an interrupt: the service routine returns and keeps the
  -- invariant and every state, and a ready process of the highest level runs.
  pub isr_timer_0-idle :
      is_intr_blocked (state k (k.interrupt_table timer_irq)) ≡ false
      → Returns q b (λ k'. (a : Ptr) → state k' a ≡ state k a) (isr_timer_0 k)
  unfolding isr_timer_0
  isr_timer_0-idle e =
      rw (e, and_false (not (k.interrupt_table timer_irq == null)), dispatch-resign k)
        (resign-Returns k q b (λ k'. (a : Ptr) → state k' a ≡ state k a) s
          (Follows-of_mem k q s.linked.queues run) (priority k k.active_proc)
          (is_cons_of_mem k.active_proc (q (priority k k.active_proc)) run) λ p a. refl)

  -- A keyboard interrupt that finds a process in the table which is not blocked for an interrupt
  -- stops the machine.
  pub isr_keyb_0-panics :
      k.interrupt_table keyb_irq ≢ null
      → is_intr_blocked (state k (k.interrupt_table keyb_irq)) ≡ false
      → isr_keyb_0 k ≡ halt (panic "service_intr_0x61: No process waiting")
  unfolding isr_keyb_0 serve
  isr_keyb_0-panics ne e = rw (==_ne (k.interrupt_table keyb_irq) null ne, e)

  abbrev me : Ptr
  me = k.active_proc

  abbrev noted : ℕ → Kernel
  noted n = set_interrupt k n me

  SameLinks-noted : (n : ℕ) → SameLinks k (noted n)
  unfolding set_interrupt
  SameLinks-noted n = record {
    heads = refl;
    bits = refl;
    ports = refl;
    links = λ a. (refl, refl);
    waits = λ a. refl;
    fixed = λ a. (refl, refl, refl);
  }

  noted-fields :
      (n : ℕ)
      → ((noted n).active_proc ≡ me) × ((noted n).interrupt_table n ≡ me) × ((noted n).pcb ≡ k.pcb)
  unfolding set_interrupt
  noted-fields n = (refl, ground arith, refl)

  abbrev slept : ℕ → Kernel
  slept n = set_state (dequeue (noted n) me) me intr_blocked

  slept-table : (n : ℕ) → (slept n).interrupt_table ≡ (noted n).interrupt_table
  unfolding set_state dequeue
  slept-table n = ground arith

  slept-fields :
      (n a : ℕ)
      → (state (slept n) a ≡ update (state k) me intr_blocked a)
        × ((slept n).active_proc ≡ (dequeue (noted n) me).active_proc)
  slept-fields n a = ground (
    arith,
    set_state-fields (dequeue (noted n) me) me intr_blocked a,
    dequeue-fields (noted n) me a,
    ap (λ f. (f a).state) (noted-fields n).2,
  )

  noted-IsSystem : (n : ℕ) → IsSystem (noted n) q b
  unfolding set_interrupt
  noted-IsSystem n = IsSystem-same k (noted n) q b s (SameLinks-noted n) λ a. refl

  -- Where the kernel keeps the invariant, the running process is ready and so is some other one:
  -- `wait_for_interrupt` on an interrupt that nobody waits for returns and keeps the invariant;
  -- the caller is noted in the table, left its queue and is blocked, and a ready process of the
  -- highest level runs.
  pub wait_for_interrupt-blocks :
      (n j a : ℕ)
      → k.interrupt_table n ≡ null
      → a ∈ q j
      → a ≢ me
      → Returns
          (leave q (priority k me) me)
          b
          (λ k'. (state k' me ≡ intr_blocked) × (k'.interrupt_table n ≡ me))
          (wait_for_interrupt k n)
  unfolding wait_for_interrupt set_interrupt
  wait_for_interrupt-blocks n j a free other ne =
      let magic_me = (s.linked.procs me (s.placed.used_of_mem (priority k me) me run)).has_magic in
      rw (free, remove_ready_queue_lem (noted n) me magic_me)
        (suspend-Returns (noted n) q b
          (λ k'. (state k' me ≡ intr_blocked) × (k'.interrupt_table n ≡ me))
          (λ k₁. set_state k₁ me intr_blocked) me (priority k me) (noted-IsSystem n).linked
          (refl, refl, run) (SameLinks-set_state (dequeue (noted n) me) me intr_blocked)
          (slept-fields n me).1
          (block-IsSystem (noted n) q b (noted-IsSystem n) me run (slept n) intr_blocked refl refl
            (SameLinks-set_state (dequeue (noted n) me) me intr_blocked)
            λ c. (slept-fields n c).0).placed
          j a other ne
          λ c.
            (ground (arith, slept-fields n me), ap (λ f. f n) (slept-table n) ∙ (noted-fields n).1))
