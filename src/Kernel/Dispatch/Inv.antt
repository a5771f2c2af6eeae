-- ===== src/Kernel/Dispatch/Inv.antt =====
-- What the ready queues of kernel/dispatch.c hold: one list of processes for each level.
use tos_sfsu_fall.Base.{ℕ, ◌≡◌, ◌≢◌, ◌<◌, Bool, true, false, List, [], ◌∷◌, bit, ◌∈◌, Distinct}
use tos_sfsu_fall.Kernel.State.{Ptr, null, Kernel, ProcState, magic_pcb}
use tos_sfsu_fall.Kernel.Dispatch.Ring.{Ring}

abbrev pub next : Kernel → Ptr → Ptr
next k p = (k.pcb p).next

abbrev pub prev : Kernel → Ptr → Ptr
prev k p = (k.pcb p).prev

abbrev pub state : Kernel → Ptr → ProcState
state k p = (k.pcb p).state

abbrev pub priority : Kernel → Ptr → ℕ
priority k p = (k.pcb p).priority

abbrev pub is_cons {ℓ} : {A : Type ℓ} → List A → Bool
is_cons [] = false
is_cons (_ ∷ _) = true

-- The processes that wait at each level, head first.
abbrev pub Levels : Type 0
Levels = ℕ → List Ptr

-- What is known of a process in the queue of level `i`.
pub record IsQueued (k : Kernel) (i : ℕ) (p : Ptr) : Type 0 where
  pub level : priority k p ≡ i
  pub small : i < 8
  pub ne_null : p ≢ null
  pub has_magic : (k.pcb p).magic ≡ magic_pcb

-- The queues stand for `q`: linked both ways, duplicate-free, with one bit for each level.
pub record IsReady (k : Kernel) (q : Levels) : Type 0 where
  pub rings : (i : ℕ) → Ring (next k) (prev k) (k.ready_queue i) (q i)
  pub bits : (i : ℕ) → i < 8 → bit k.ready_procs i ≡ is_cons (q i)
  pub byte : k.ready_procs < 256
  pub members : (i p : ℕ) → p ∈ q i → IsQueued k i p
  pub distinct : (i : ℕ) → Distinct (q i)
