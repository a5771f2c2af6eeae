-- ===== src/Kernel/Intr.antt =====
-- kernel/intr.c: waiting for an interrupt, and the service routines.
--
-- A service routine runs on the stack of the process that it interrupts; saving and restoring the
-- registers is assembler code and not modelled. What `wait_for_interrupt` does when its process runs
-- again is `interrupt_resume`.
pub mod Wake
use tos_sfsu_fall.Base.{ℕ, Bool, not, ◌&&◌, ◌==◌, if◌then◌else◌}
use Prim.Native.String.{String}
use tos_sfsu_fall.Kernel.State.{
  Ptr, null, Kernel, intr_blocked, is_intr_blocked, update, Outcome, done, halt, panic, ◌>>=◌,
}
use tos_sfsu_fall.Kernel.Dispatch.{add_ready_queue, remove_ready_queue, dispatcher, resign}
use tos_sfsu_fall.Kernel.Ipc.{set_state}

abbrev pub timer_irq : ℕ
timer_irq = 0x60

abbrev pub keyb_irq : ℕ
keyb_irq = 0x61

abbrev pub com1_irq : ℕ
com1_irq = 0x64

abbrev pub ne2k_irq : ℕ
ne2k_irq = 0x6a

-- `interrupt_table[intr_no] = p`
unfoldable pub set_interrupt : Kernel → ℕ → Ptr → Kernel
set_interrupt k intr_no p = record k { interrupt_table = update k.interrupt_table intr_no p }

unfoldable pub wait_for_interrupt : Kernel → ℕ → Outcome Kernel
wait_for_interrupt k intr_no =
    if not (k.interrupt_table intr_no == null)
    then halt (panic "wait_for_interrupt(): ISR busy")
    else do
      k₁ ← remove_ready_queue (set_interrupt k intr_no k.active_proc) k.active_proc
      resign (set_state k₁ k.active_proc intr_blocked)

unfoldable pub interrupt_resume : Kernel → ℕ → Kernel
interrupt_resume k intr_no = set_interrupt k intr_no null

-- `active_proc = dispatcher();`
unfoldable pub dispatch : Kernel → Outcome Kernel
dispatch k = do p ← dispatcher k; done (record k { active_proc = p })

unfoldable pub isr_timer_0 : Kernel → Outcome Kernel
isr_timer_0 k = do
  let p = k.interrupt_table timer_irq
  k₁ ← if not (p == null) && is_intr_blocked (k.pcb p).state then add_ready_queue k p else done k
  dispatch k₁

-- The body that `isr_com1` and `isr_keyb_0` share but for their messages.
unfoldable pub serve : Kernel → ℕ → (spurious nobody : String) → Outcome Kernel
serve k irq spurious nobody = do
  let p = k.interrupt_table irq
  if p == null
      then halt (panic spurious)
      else if not (is_intr_blocked (k.pcb p).state)
      then halt (panic nobody)
      else do k₁ ← add_ready_queue k p; dispatch k₁

unfoldable pub isr_com1 : Kernel → Outcome Kernel
isr_com1 k =
    serve k com1_irq "service_intr_0x64: Spurious interrupt" "service_intr_0x64: No process waiting"

unfoldable pub isr_keyb_0 : Kernel → Outcome Kernel
isr_keyb_0 k =
    serve k keyb_irq "service_intr_0x61: Spurious interrupt" "service_intr_0x61: No process waiting"

unfoldable pub isr_ne2k_driver_0 : Kernel → Outcome Kernel
isr_ne2k_driver_0 k = do
  let p = k.interrupt_table ne2k_irq
  if p == null
      then dispatch k
      else if not (is_intr_blocked (k.pcb p).state)
      then halt (panic "service_intr_0xA: No process waiting")
      else do k₁ ← add_ready_queue k p; dispatch k₁
