-- ===== src/Kernel/Process/Boot.antt =====
-- The start of kernel/main.c: the calls of init_process, init_dispatcher and init_ipc.
use tos_sfsu_fall.Base.{
  ℕ, zero, suc, ◌+◌, ◌≡◌, ◌<◌, ◌≤◌, refl, false, List, [], ◌∷◌, arith, ◌==◌, if◌then◌else◌, subst,
  ◌∈◌, bit, agree, agree-eq, every_below, every_below-at,
}
use tos_sfsu_fall.Kernel.State.{Ptr, null, Kernel, ready, magic_pcb, done}
use tos_sfsu_fall.Kernel.Dispatch.{enqueue, link_alone, add_ready_queue, init_dispatcher}
use tos_sfsu_fall.Kernel.Dispatch.Inv.{next, state, priority, Levels, IsReady}
use tos_sfsu_fall.Kernel.Dispatch.Enqueue.{enqueue-IsReady, enqueue-fields}
use tos_sfsu_fall.Kernel.Ipc.{init_ipc}
use tos_sfsu_fall.Kernel.Ipc.Chain.{Chain, head_of}
use tos_sfsu_fall.Kernel.Process.{boot, init_process, clear_pcb}
use tos_sfsu_fall.Kernel.System.{Waits, used, IsPlaced, IsSystem, IsRunning, IsReady-frame, enter}
use tos_sfsu_fall.Kernel.System.Link.{enqueue-rest, enqueue-globals}

-- The global variables of a C program start as zero: no PCB is used, every state is STATE_READY,
-- and no port has a list.
pub record IsZeroed (k : Kernel) : Type 0 where
  pub unused : (p : Ptr) → used k p ≡ false
  pub states : (p : Ptr) → state k p ≡ ready
  pub empty : (t : Ptr) → head_of k t ≡ null

abbrev pub no_levels : Levels
no_levels i = []

abbrev pub no_waits : Waits
no_waits t = []

-- Only the boot process is ready.
abbrev pub boot_levels : Levels
boot_levels = enter no_levels 1 1

-- `n` numbers from `i` on.
abbrev pub count_up : ℕ → ℕ → List ℕ
count_up zero i = []
count_up (suc n) i = i ∷ count_up n (i + 1)

Chain-count_up :
    (f : Ptr → Ptr) (n i : ℕ)
    → ((j : ℕ) → i ≤ j → j ≤ i + n → f j ≡ (if j == i + n then null else j + 1))
    → Chain f i (count_up (suc n) i)
Chain-count_up f zero i h = (refl, ground (arith, h i))
Chain-count_up f (suc n) i h =
    (refl, (ground (arith, h i), (Chain-count_up f n (i + 1) λ j a b. ground (arith, h j)).1))

pub has-count_up : (a n i : ℕ) → a ∈ count_up n i → (i ≤ a) × (a < i + n)
has-count_up a zero i m = ground arith
has-count_up a (suc n) i m = ground (arith, has-count_up a n (i + 1))

module _ (k : Kernel) (z : IsZeroed k) where
  -- `init_dispatcher` before the boot process enters its queue.
  abbrev cleared : Kernel
  cleared = record (init_process k) { ready_queue = λ _. null; ready_procs = 0 }

  cleared-fields :
      (p : Ptr)
      → (used cleared p ≡ (p == 1))
        × (state cleared p ≡ ready)
        × (priority cleared 1 ≡ 1)
        × ((cleared.pcb 1).magic ≡ magic_pcb)
        × (cleared.active_proc ≡ 1)
        × ((t : Ptr) → head_of cleared t ≡ null)
  unfolding init_process clear_pcb
  cleared-fields p =
      (ground (arith, z.unused p), ground (arith, z.states p), refl, refl, refl, z.empty)

  cleared-IsReady : IsReady cleared no_levels
  unfolding every_below
  cleared-IsReady = record {
    rings = λ i. refl;
    bits = λ i lt. agree-eq _ _ (every_below-at 8 (λ j. agree (bit 0 j) false) i refl lt);
    byte = ground arith;
    members = λ i p m. ground arith;
    distinct = λ i. tt;
  }

  init_ipc-fields :
      (l : Kernel) (a : Ptr)
      → ((init_ipc l).pcb ≡ l.pcb)
        × ((init_ipc l).ready_queue ≡ l.ready_queue)
        × ((init_ipc l).ready_procs ≡ l.ready_procs)
        × ((init_ipc l).active_proc ≡ l.active_proc)
        × (head_of (init_ipc l) a ≡ head_of l a)
  unfolding init_ipc
  init_ipc-fields l a = (refl, refl, refl, refl, ground arith)

  abbrev started : Kernel
  started = init_ipc (enqueue cleared 1)

  started-fields :
      (a : Ptr)
      → (used started a ≡ (a == 1))
        × (state started a ≡ ready)
        × (priority started a ≡ priority cleared a)
        × ((started.pcb a).magic ≡ (cleared.pcb a).magic)
        × (head_of started a ≡ null)
        × (started.active_proc ≡ 1)
  started-fields a = ground (
    arith,
    init_ipc-fields (enqueue cleared 1) a,
    enqueue-fields cleared 1 a,
    enqueue-rest cleared 1 a,
    enqueue-globals cleared 1,
    cleared-fields a,
    (cleared-fields a).5 a,
  )

  started-IsReady : IsReady started boot_levels
  started-IsReady =
      IsReady-frame (enqueue cleared 1) started boot_levels
        (subst (λ i. IsReady (enqueue cleared 1) (enter no_levels i 1)) (cleared-fields 1).2
          (enqueue-IsReady cleared no_levels cleared-IsReady 1 (ground (arith, cleared-fields 1))
            (ground arith) (cleared-fields 1).3 refl))
        (init_ipc-fields (enqueue cleared 1) 0).1 (init_ipc-fields (enqueue cleared 1) 0).2
        λ a. rw (init_ipc-fields (enqueue cleared 1) 0).0 (refl, refl, refl, refl)

  started-IsPlaced : IsPlaced (used started) (priority started) (state started) boot_levels no_waits
  started-IsPlaced = record {
    ready_of_mem = λ i p m. ground (arith, started-fields p);
    level_of_mem = λ i p m. ground (arith, started-fields p, cleared-fields p);
    used_of_mem = λ i p m. ground (arith, started-fields p);
    mem_of_ready = λ p u r. ground (arith, started-fields p, cleared-fields p);
    waiting_of_mem = λ t p m. ground arith;
    mem_of_waiting = λ p w. ground (arith, started-fields p);
    apart = λ t u p m n. ground arith;
    distinct = λ t. tt;
    used_of_blocked = λ p r. ground (arith, started-fields p);
  }

  boot_lem : boot k ≡ done started
  unfolding boot init_dispatcher add_ready_queue init_process clear_pcb
  boot_lem = refl

  -- From zeroed globals the first three calls of `kernel_main` return a kernel that keeps the
  -- invariant, with the boot process alone in the queues, running, and nobody waiting at a port.
  pub boot-IsSystem :
      (k' : Kernel) × (boot k ≡ done k')
      × IsSystem k' boot_levels no_waits
      × IsRunning k' boot_levels
  boot-IsSystem = (
    started,
    boot_lem,
    record {
      linked = record {
        queues = started-IsReady;
        lists = λ t. record { chain = (started-fields t).4; tail = tt };
        procs = λ p u. record {
          ne_null = ground (arith, started-fields p);
          has_magic = ground (arith, started-fields p, cleared-fields p);
          small = ground (arith, started-fields p, cleared-fields p);
          is_used = u;
        };
      };
      placed = started-IsPlaced;
    },
    rw (started-fields 1).5 (ground (arith, started-fields 1, cleared-fields 1)),
  )

  pcb-next : (p : Ptr) → 2 ≤ p → p ≤ 20 → next started p ≡ (if p == 20 then null else p + 1)
  unfolding init_process clear_pcb init_ipc enqueue link_alone
  pcb-next p low high = ground arith

  port-next : (t : Ptr) → 1 ≤ t → t ≤ 40 → (started.port t).next ≡ (if t == 40 then null else t + 1)
  unfolding init_ipc
  port-next t low high = ground arith
