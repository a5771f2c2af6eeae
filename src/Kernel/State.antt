-- ===== src/Kernel/State.antt =====
-- The kernel's data of include/kernel.h, and the global variables of kernel/dispatch.c,
-- kernel/process.c, kernel/ipc.c and kernel/intr.c in one record.
--
-- A pointer is a number: 0 is NULL, and `i + 1` is the address of element `i` of `pcb[]` or of
-- `port[]`. There is no paging, so that a read through NULL reads some cell and does not trap.
use Prim.Native.String.{String}
use tos_sfsu_fall.Base.{ℕ, Bool, true, false, ◌==◌, if◌then◌else◌}

abbrev pub Ptr : Type 0
Ptr = ℕ

abbrev pub null : Ptr
null = 0

abbrev pub max_procs : ℕ
max_procs = 20

abbrev pub max_ready_queues : ℕ
max_ready_queues = 8

abbrev pub max_ports : ℕ
max_ports = 40

abbrev pub magic_pcb : ℕ
magic_pcb = 0x4321dcba

abbrev pub magic_port : ℕ
magic_port = 0x1234abcd

-- STATE_READY and the other values of the field `state`.
pub data ProcState : Type 0 where
  ready send_blocked reply_blocked receive_blocked message_blocked intr_blocked : ProcState

abbrev pub is_receive_blocked : ProcState → Bool
is_receive_blocked receive_blocked = true
is_receive_blocked _ = false

abbrev pub is_reply_blocked : ProcState → Bool
is_reply_blocked reply_blocked = true
is_reply_blocked _ = false

abbrev pub is_message_blocked : ProcState → Bool
is_message_blocked message_blocked = true
is_message_blocked _ = false

abbrev pub is_send_blocked : ProcState → Bool
is_send_blocked send_blocked = true
is_send_blocked _ = false

abbrev pub is_intr_blocked : ProcState → Bool
is_intr_blocked intr_blocked = true
is_intr_blocked _ = false

pub record Pcb : Type 0 where
  pub magic : ℕ
  pub used : Bool
  pub priority : ℕ
  pub state : ProcState
  pub esp : ℕ
  pub param_proc : Ptr
  pub param_data : ℕ
  pub first_port : Ptr
  pub next_blocked : Ptr
  pub next : Ptr
  pub prev : Ptr
  pub name : String

pub record PortDef : Type 0 where
  pub magic : ℕ
  pub used : Bool
  pub opened : Bool
  pub owner : Ptr
  pub blocked_list_head : Ptr
  pub blocked_list_tail : Ptr
  pub next : Ptr

pub record Kernel : Type 0 where
  pub pcb : Ptr → Pcb
  pub next_free_pcb : Ptr
  pub active_proc : Ptr
  pub ready_queue : ℕ → Ptr
  pub ready_procs : ℕ
  pub port : Ptr → PortDef
  pub next_free_port : Ptr
  pub interrupt_table : ℕ → Ptr
  pub memory : ℕ → ℕ
  pub interrupts_initialized : Bool

-- `f[p] = v`
abbrev pub update {ℓ} : {A : Type ℓ} → (ℕ → A) → ℕ → A → ℕ → A
update f p v q = if q == p then v else f q

abbrev pub set_pcb : Kernel → Ptr → Pcb → Kernel
set_pcb k p r = record k { pcb = update k.pcb p r }

abbrev pub set_port : Kernel → Ptr → PortDef → Kernel
set_port k p r = record k { port = update k.port p r }

-- `assert` and `panic` of include/assert.h stop the machine.
pub data Halt : Type 0 where
  failed_assertion : Halt
  -- Of the model only: a loop ran longer than its bound.
  out_of_fuel : Halt
  -- Of the model only: C says nothing about what happens.
  undefined : Halt
  panic : String → Halt

pub data Outcome {ℓ} (A : Type ℓ) : Type ℓ where
  done : A → Outcome A
  halt : Halt → Outcome A

infixl 5 ◌>>=◌ ◌>>◌
abbrev pub ◌>>=◌ {ℓ κ} : {A : Type ℓ} {B : Type κ} → Outcome A → (A → Outcome B) → Outcome B
done a >>= f = f a
halt h >>= f = halt h

abbrev pub ◌>>◌ {ℓ} : {B : Type ℓ} → Outcome (Unit {0}) → Outcome B → Outcome B
m >> n = m >>= λ _. n

abbrev pub assert : Bool → Outcome (Unit {0})
assert true = done tt
assert false = halt failed_assertion
