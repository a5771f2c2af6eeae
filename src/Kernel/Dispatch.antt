-- ===== src/Kernel/Dispatch.antt =====
-- kernel/dispatch.c and kernel/disptable.c: the ready queues and the choice of the next process.
pub mod Table
pub mod Ring
pub mod Inv
pub mod Enqueue
pub mod Dequeue
pub mod Choice
use tos_sfsu_fall.Base.{ℕ, ◌-◌, ◌^◌, Bool, true, false, ◌==◌, not, if◌then◌else◌, bit_and, bit_or}
use tos_sfsu_fall.Kernel.State.{
  Ptr, null, Kernel, Pcb, ready, max_ready_queues, magic_pcb, set_pcb, update, Outcome, done, ◌>>=◌,
  ◌>>◌, assert,
}
use tos_sfsu_fall.Kernel.Dispatch.Table.{table, no_entry}

-- `add_ready_queue`: the only process on this priority level.
unfoldable pub link_alone : Kernel → Ptr → ℕ → Kernel
link_alone k proc prio =
    record (set_pcb k proc (record (k.pcb proc) { next = proc; prev = proc })) {
      ready_queue = update k.ready_queue prio proc;
      ready_procs = bit_or k.ready_procs (2 ^ prio);
    }

-- `add_ready_queue`: some other processes on this priority level, the first of them `head`.
unfoldable pub link_last : Kernel → Ptr → Ptr → Kernel
link_last k proc head =
    let k₁ : Kernel =
      set_pcb k proc (record (k.pcb proc) { next = head; prev = (k.pcb head).prev }) in
    let tail = (k₁.pcb head).prev in
    let k₂ : Kernel = set_pcb k₁ tail (record (k₁.pcb tail) { next = proc }) in
    set_pcb k₂ head (record (k₂.pcb head) { prev = proc })

-- All writes of `add_ready_queue`.
unfoldable pub enqueue : Kernel → Ptr → Kernel
enqueue k proc =
    let prio = (k.pcb proc).priority in
    let head = k.ready_queue prio in
    let linked : Kernel = if head == null then link_alone k proc prio else link_last k proc head in
    set_pcb linked proc (record (linked.pcb proc) { state = ready })

unfoldable pub add_ready_queue : Kernel → Ptr → Outcome Kernel
add_ready_queue k proc = do assert ((k.pcb proc).magic == magic_pcb); done (enqueue k proc)

-- The writes of `remove_ready_queue`. The complement is that of a 32-bit word.
unfoldable pub dequeue : Kernel → Ptr → Kernel
dequeue k proc =
    let prio = (k.pcb proc).priority in
    let succ = (k.pcb proc).next in
    let pred = (k.pcb proc).prev in
    if succ == proc
    then record k {
      ready_queue = update k.ready_queue prio null;
      ready_procs = bit_and k.ready_procs (2 ^ 32 - 1 - 2 ^ prio);
    }
    else (let k₁ : Kernel = record k { ready_queue = update k.ready_queue prio succ } in
        let k₂ : Kernel = set_pcb k₁ succ (record (k₁.pcb succ) { prev = pred }) in
        set_pcb k₂ pred (record (k₂.pcb pred) { next = succ }))

unfoldable pub remove_ready_queue : Kernel → Ptr → Outcome Kernel
remove_ready_queue k proc = do assert ((k.pcb proc).magic == magic_pcb); done (dequeue k proc)

-- The process to run next: the rest of `dispatcher`, for the level `i` found in the table.
unfoldable pub pick : Kernel → ℕ → Ptr
pick k i =
    if i == (k.pcb k.active_proc).priority then (k.pcb k.active_proc).next else k.ready_queue i

unfoldable pub dispatcher : Kernel → Outcome Ptr
dispatcher k = do let i = table k.ready_procs; assert (not (i == no_entry)); done (pick k i)

-- `resign` saves the stack pointer of the old process and loads that of the new one; in the model
-- what a process does next is up to the caller of the operation.
unfoldable pub resign : Kernel → Outcome Kernel
resign k = do p ← dispatcher k; done (record k { active_proc = p })

-- `init_dispatcher`
unfoldable pub init_dispatcher : Kernel → Outcome Kernel
init_dispatcher k =
    add_ready_queue (record k { ready_queue = λ _. null; ready_procs = 0 }) k.active_proc
