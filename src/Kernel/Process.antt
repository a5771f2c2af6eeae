-- ===== src/Kernel/Process.antt =====
-- kernel/process.c: the creation of processes, and the first process.
--
-- The pointers that `create_process` pushes are the numbers of the model. `prio` is an `int` in the
-- source, and no caller passes a negative one.
pub mod Stack
pub mod Create
pub mod Boot
use tos_sfsu_fall.Base.{
  ℕ, ◌+◌, ◌-◌, ◌*◌, Bool, true, false, not, ◌&&◌, ◌||◌, List, [], ◌∷◌, ltb, leb, ◌==◌,
  if◌then◌else◌,
}
use Prim.Native.String.{String}
use tos_sfsu_fall.Kernel.State.{
  Ptr, null, Kernel, Pcb, ready, max_procs, max_ready_queues, magic_pcb, set_pcb, Outcome, done,
  halt, panic, ◌>>=◌,
}
use tos_sfsu_fall.Kernel.Memory.{Memory, poke_l}
use tos_sfsu_fall.Kernel.Dispatch.{add_ready_queue, init_dispatcher}
use tos_sfsu_fall.Kernel.Ipc.{create_new_port, init_ipc}

abbrev pub code_selector : ℕ
code_selector = 0x8

-- `PUSH`: the memory and `esp` after each value of a list is pushed in turn.
unfoldable pub push_all : Memory → ℕ → List ℕ → Memory × ℕ
push_all m esp [] = (m, esp)
push_all m esp (x ∷ xs) = push_all (poke_l m (esp - 4) x) (esp - 4) xs

-- What `create_process` pushes, in this order.
abbrev pub initial_stack : Bool → (entry param : ℕ) → Ptr → List ℕ
initial_stack interrupts entry param proc =
    param
    ∷ proc
    ∷ 0
    ∷ (if interrupts then 512 else 0)
    ∷ code_selector
    ∷ entry
    ∷ 0
    ∷ 0
    ∷ 0
    ∷ 0
    ∷ 0
    ∷ 0
    ∷ 0
    ∷ []

-- The top of the stack of process `p`.
abbrev pub stack_top : Ptr → ℕ
stack_top p = 640 * 1024 - (p - 1) * 16 * 1024

-- The first writes of `create_process`: a PCB is taken off the free list and filled in.
unfoldable pub take_pcb : Kernel → ℕ → String → Kernel
take_pcb k prio name =
    let p = k.next_free_pcb in
    let k₁ : Kernel = record k { next_free_pcb = (k.pcb p).next } in
    set_pcb k₁ p (record (k₁.pcb p) {
      used = true;
      magic = magic_pcb;
      state = ready;
      priority = prio;
      first_port = null;
      name = name;
    })

-- The stack is written, and its pointer saved.
unfoldable pub write_stack : Kernel → Ptr → (entry param : ℕ) → Kernel
write_stack k p entry param =
    let (m, esp) =
      push_all k.memory (stack_top p) (initial_stack k.interrupts_initialized entry param p) in
    let k₁ : Kernel = record k { memory = m } in set_pcb k₁ p (record (k₁.pcb p) { esp = esp })

unfoldable pub create_process : Kernel → (entry prio param : ℕ) → String → Outcome (Ptr × Kernel)
create_process k entry prio param name =
    if leb max_ready_queues prio
    then halt (panic "create(): Bad priority")
    else if k.next_free_pcb == null
    then halt (panic "create(): PCB full")
    else do
      (new_port, k₁) ← create_new_port (take_pcb k prio name) k.next_free_pcb
      k₂ ← add_ready_queue (write_stack k₁ k.next_free_pcb entry param) k.next_free_pcb
      done (new_port, k₂)

-- `init_process`: the PCBs behind the first are free; the first is the boot process.
unfoldable pub clear_pcb : Pcb → Ptr → Pcb
clear_pcb d p =
    if p == 1
    then record d {
      state = ready;
      magic = magic_pcb;
      used = true;
      priority = 1;
      first_port = null;
      name = "Boot process";
    }
    else if leb 2 p && leb p max_procs
    then record d { magic = 0; used = false; next = if p == max_procs then null else p + 1 }
    else d

unfoldable pub init_process : Kernel → Kernel
init_process k = record k { pcb = λ p. clear_pcb (k.pcb p) p; next_free_pcb = 2; active_proc = 1 }

-- The start of `kernel_main`: the calls that set up processes, ready queues and ports.
unfoldable pub boot : Kernel → Outcome Kernel
boot k = do k₁ ← init_dispatcher (init_process k); done (init_ipc k₁)
