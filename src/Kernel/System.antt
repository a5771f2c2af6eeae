-- ===== src/Kernel/System.antt =====
-- The invariant of kernel/dispatch.c and kernel/ipc.c together: where every process stands.
pub mod Place
pub mod Link
pub mod Switch
pub mod Block
pub mod Reply
pub mod Send
pub mod Wait
pub mod Receive
pub mod Sound
pub mod PortCalls
pub mod Reach
use tos_sfsu_fall.Base.{
  ℕ, ◌≡◌, ◌≢◌, ◌<◌, refl, Bool, true, false, List, [], ◌∷◌, ◌++◌, arith, ◌∈◌, ◌∉◌, Distinct,
}
use tos_sfsu_fall.Kernel.State.{
  Ptr, null, Kernel, ProcState, ready, send_blocked, message_blocked, magic_pcb, magic_port, update,
}
use tos_sfsu_fall.Kernel.Dispatch.Ring.{Ring-frame, around}
use tos_sfsu_fall.Kernel.Dispatch.Inv.{next, prev, state, priority, Levels, IsReady}
use tos_sfsu_fall.Kernel.Ipc.Chain.{IsWaitList}

-- The processes that wait at each port to be received from, first come first.
abbrev pub Waits : Type 0
Waits = Ptr → List Ptr

abbrev pub is_waiting : ProcState → Bool
is_waiting send_blocked = true
is_waiting message_blocked = true
is_waiting _ = false

abbrev pub is_ready : ProcState → Bool
is_ready ready = true
is_ready _ = false

abbrev pub used : Kernel → Ptr → Bool
used k p = (k.pcb p).used

-- A process that was created.
pub record IsProc (k : Kernel) (p : Ptr) : Type 0 where
  pub ne_null : p ≢ null
  pub has_magic : (k.pcb p).magic ≡ magic_pcb
  pub small : priority k p < 8
  pub is_used : used k p ≡ true

-- Where processes stand, by their states: a used process that is ready stands in the queue of its
-- level and nowhere else, and one that waits to be received from stands in the list of one port.
pub record IsPlaced (us : Ptr → Bool) (pr : Ptr → ℕ) (st : Ptr → ProcState) (q : Levels) (b : Waits)
    : Type 0 where
  pub ready_of_mem : (i p : ℕ) → p ∈ q i → is_ready (st p) ≡ true
  pub level_of_mem : (i p : ℕ) → p ∈ q i → pr p ≡ i
  pub used_of_mem : (i p : ℕ) → p ∈ q i → us p ≡ true
  pub mem_of_ready : (p : Ptr) → us p ≡ true → is_ready (st p) ≡ true → p ∈ q (pr p)
  pub waiting_of_mem : (t p : Ptr) → p ∈ b t → is_waiting (st p) ≡ true
  pub mem_of_waiting : (p : Ptr) → is_waiting (st p) ≡ true → (t : Ptr) × (p ∈ b t)
  pub apart : (t u p : Ptr) → p ∈ b t → p ∈ b u → t ≡ u
  pub distinct : (t : Ptr) → Distinct (b t)
  pub used_of_blocked : (p : Ptr) → is_ready (st p) ≡ false → us p ≡ true

-- The queues and the lists as data structures, and the processes that may stand in them.
pub record IsLinked (k : Kernel) (q : Levels) (b : Waits) : Type 0 where
  pub queues : IsReady k q
  pub lists : (t : Ptr) → IsWaitList k t (b t)
  pub procs : (p : Ptr) → used k p ≡ true → IsProc k p

pub record IsSystem (k : Kernel) (q : Levels) (b : Waits) : Type 0 where
  pub linked : IsLinked k q b
  pub placed : IsPlaced (used k) (priority k) (state k) q b

-- The running process is ready.
abbrev pub IsRunning : Kernel → Levels → Type 0
IsRunning k q = k.active_proc ∈ q (priority k k.active_proc)

-- Process `p` at the end of level `i`; out of level `i`, whose round starts behind it; at the end
-- of the list of port `t`.
abbrev pub enter : Levels → ℕ → Ptr → Levels
enter q i p = update q i (q i ++ (p ∷ []))

abbrev pub leave : Levels → ℕ → Ptr → Levels
leave q i p = update q i (around p (q i))

abbrev pub wait_at : Waits → Ptr → Ptr → Waits
wait_at b t p = update b t (b t ++ (p ∷ []))

-- A port that a process owns.
pub record IsPort (k : Kernel) (t : Ptr) : Type 0 where
  pub has_magic : (k.port t).magic ≡ magic_port
  pub owner_magic : (k.pcb (k.port t).owner).magic ≡ magic_pcb

-- The queues do not depend on the fields that they do not use.
pub IsReady-frame :
    (k k' : Kernel) (q : Levels)
    → IsReady k q
    → k'.ready_queue ≡ k.ready_queue
    → k'.ready_procs ≡ k.ready_procs
    → ((a : Ptr)
        → (next k' a ≡ next k a)
          × (prev k' a ≡ prev k a)
          × (priority k' a ≡ priority k a)
          × ((k'.pcb a).magic ≡ (k.pcb a).magic))
    → IsReady k' q
IsReady-frame k k' q r heads procs same = record {
  rings = λ i. rw heads (
      Ring-frame (next k) (prev k) (next k') (prev k') (k.ready_queue i) (q i) (r.rings i)
        λ a m. ((same a).0, (same a).1));
  bits = λ i h. rw procs (r.bits i h);
  byte = rw procs r.byte;
  members = λ i p m. ground (arith, same p, r.members i p);
  distinct = r.distinct;
}
