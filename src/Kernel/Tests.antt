-- ===== src/Kernel/Tests.antt =====
-- A small system, and each theorem about the kernel applied to it.
use tos_sfsu_fall.Base.{
  ℕ, ◌≡◌, refl, true, false, [], ◌∷◌, arith, ◌==◌, if◌then◌else◌, bit, ◌∈◌, agree, agree-eq,
  every_below, every_below-at,
}
use tos_sfsu_fall.Kernel.State.{
  Ptr, null, Kernel, Pcb, PortDef, done, update, ProcState, ready, send_blocked, reply_blocked,
  receive_blocked, message_blocked, intr_blocked, magic_pcb, magic_port,
}
use tos_sfsu_fall.Kernel.Dispatch.Inv.{state, priority, is_cons, Levels, IsQueued, IsReady}
use tos_sfsu_fall.Kernel.Dispatch.{dispatcher}
use tos_sfsu_fall.Kernel.Dispatch.Ring.{around}
use tos_sfsu_fall.Kernel.Dispatch.Choice.{IsHighest, head_or, dispatcher-round_robin}
use tos_sfsu_fall.Kernel.Ipc.{delivered, blocked, send, message, receive, reply}
use tos_sfsu_fall.Kernel.Ipc.Ports.{IsPortList}
use tos_sfsu_fall.Kernel.Intr.{isr_timer_0}
use tos_sfsu_fall.Kernel.Memory.{longs}
use tos_sfsu_fall.Kernel.Process.{create_process, write_stack, boot}
use tos_sfsu_fall.Kernel.Process.Stack.{write_stack-longs}
use tos_sfsu_fall.Kernel.Process.Create.{IsFree, create_process-IsSystem}
use tos_sfsu_fall.Kernel.Process.Boot.{no_levels, boot_levels, no_waits, IsZeroed, boot-IsSystem}
use tos_sfsu_fall.Kernel.System.Sound.{IsSound, Goes, tick-Goes}
use tos_sfsu_fall.Kernel.System.Reach.{more, start, ticks, boot-Reach}
use tos_sfsu_fall.Kernel.System.Link.{first_port}
use tos_sfsu_fall.Kernel.System.Switch.{Returns}
use tos_sfsu_fall.Kernel.System.Block.{IsSystem-same}
use tos_sfsu_fall.Kernel.System.Reply.{Got, reply-wakes, message-delivers}
use tos_sfsu_fall.Kernel.System.Send.{Sent, send-delivers}
use tos_sfsu_fall.Kernel.System.Wait.{Waiting, send-waits}
use tos_sfsu_fall.Kernel.System.Receive.{receive-blocks, receive-send, receive-message}
use tos_sfsu_fall.Kernel.System.{
  used, enter, leave, wait_at, Waits, IsPlaced, IsLinked, IsSystem, IsRunning, IsPort,
}

abbrev proc : ℕ → ProcState → Ptr → Ptr → Ptr → ℕ → Pcb
proc prio st first next_ prev_ datum = record {
  magic = magic_pcb;
  used = true;
  priority = prio;
  state = st;
  esp = 0;
  param_proc = null;
  param_data = datum;
  first_port = first;
  next_blocked = null;
  next = next_;
  prev = prev_;
  name = "";
}

abbrev unused : Pcb
unused = record {
  magic = 0;
  used = false;
  priority = 0;
  state = ready;
  esp = 0;
  param_proc = null;
  param_data = 0;
  first_port = null;
  next_blocked = null;
  next = null;
  prev = null;
  name = "";
}

abbrev port_of : Ptr → Ptr → PortDef
port_of owner_ waiting = record {
  magic = magic_port;
  used = true;
  opened = true;
  owner = owner_;
  blocked_list_head = waiting;
  blocked_list_tail = waiting;
  next = null;
}

-- Processes 1, which runs, and 2 are ready on level 1; 3 waits in `receive` at port 2; 4 waits in
-- `send` at port 1 and 6 in `message` at port 3; 5 waits for a reply, and 8 for
-- the timer and the keyboard. Process 1 owns the list of
-- ports that starts with `first`.
abbrev pub world : Ptr → Kernel
world first = record {
  pcb = λ p.
      if p == 1
      then proc 1 ready first 2 2 0
      else if p == 2
      then proc 1 ready null 1 1 0
      else if p == 3
      then proc 2 receive_blocked 2 null null 0
      else if p == 4
      then proc 1 send_blocked null null null 44
      else if p == 5
      then proc 3 reply_blocked null null null 55
      else if p == 6
      then proc 0 message_blocked null null null 66
      else if p == 8
      then proc 7 intr_blocked null null null 0
      else unused;
  next_free_pcb = 7;
  active_proc = 1;
  ready_queue = λ i. if i == 1 then 1 else null;
  ready_procs = 2;
  port = λ t.
      if t == 1
      then port_of 1 4
      else if t == 2
      then port_of 3 null
      else if t == 3
      then port_of 1 6
      else port_of null null;
  next_free_port = 4;
  interrupt_table = λ i. if i == 0x60 then 8 else if i == 0x61 then 8 else null;
  memory = λ a. 0;
  interrupts_initialized = false;
}

abbrev levels : Levels
levels i = if i == 1 then 1 ∷ 2 ∷ [] else []

abbrev waits : Waits
waits t = if t == 1 then 4 ∷ [] else if t == 3 then 6 ∷ [] else []

world-IsQueued : (first i p : ℕ) → p ∈ levels i → IsQueued (world first) i p
world-IsQueued first i p m = record {
  level = ground arith;
  small = ground arith;
  ne_null = ground arith;
  has_magic = ground arith;
}

world-IsReady : (first : Ptr) → IsReady (world first) levels
unfolding every_below
world-IsReady first = record {
  rings = λ i. ground arith;
  bits =
      λ i lt. agree-eq _ _ (every_below-at 8 (λ j. agree (bit 2 j) (is_cons (levels j))) i refl lt);
  byte = ground arith;
  members = world-IsQueued first;
  distinct = λ i. ground arith;
}

world-IsPlaced :
    (first : Ptr)
    → IsPlaced
        (λ p. ((world first).pcb p).used)
        (priority (world first))
        (state (world first))
        levels
        waits
world-IsPlaced first = record {
  ready_of_mem = λ i p m. ground arith;
  level_of_mem = λ i p m. ground arith;
  used_of_mem = λ i p m. ground arith;
  mem_of_ready = λ p u r. ground arith;
  waiting_of_mem = λ t p m. ground arith;
  mem_of_waiting = λ p w. (if p == 4 then 1 else 3, ground arith);
  apart = λ t u p m n. ground arith;
  distinct = λ t. ground arith;
  used_of_blocked = λ p r. ground arith;
}

world-IsLinked : (first : Ptr) → IsLinked (world first) levels waits
world-IsLinked first = record {
  queues = world-IsReady first;
  lists = λ t. record { chain = ground arith; tail = ground arith };
  procs = λ p u. record {
    ne_null = ground arith;
    has_magic = ground arith;
    small = ground arith;
    is_used = u;
  };
}

world-IsSystem : (first : Ptr) → IsSystem (world first) levels waits
world-IsSystem first = record { linked = world-IsLinked first; placed = world-IsPlaced first }

world-IsPort : (first t : Ptr) → t ∈ (1 ∷ 2 ∷ 3 ∷ []) → IsPort (world first) t
world-IsPort first t m = record { has_magic = ground arith; owner_magic = ground arith }

-- Its list of ports is the one port `first`.
world-IsPortList :
    (first : Ptr) → first ∈ (1 ∷ 2 ∷ 3 ∷ []) → IsPortList (world first) first (first ∷ [])
world-IsPortList first m = record {
  chain = (refl, ground arith);
  nulls = ground arith;
  magics = λ t n. ground arith;
  few = ground arith;
}

send-delivers_example :
    Returns
      (leave (enter levels 2 3) 1 1)
      waits
      (Sent (world 1) levels waits (world-IsSystem 1) refl 3 99)
      (send (world 1) 2 99)
send-delivers_example =
    send-delivers (world 1) levels waits (world-IsSystem 1) refl 2 99 (world-IsPort 1 2 refl) refl

message-delivers_example :
    Returns
      (enter levels 2 3)
      waits
      (Got (world 1) levels waits (world-IsSystem 1) refl 3 99)
      (message (world 1) 2 99)
message-delivers_example =
    message-delivers (world 1) levels waits (world-IsSystem 1) refl 2 99 (world-IsPort 1 2 refl)
      refl

send-waits_example :
    Returns (leave levels 1 1) (wait_at waits 1 1) (Waiting 1 send_blocked 99) (send (world 1) 1 99)
send-waits_example =
    send-waits (world 1) levels waits (world-IsSystem 1) refl 1 2 refl (ground arith) 1 99
      (world-IsPort 1 1 refl) refl

reply-wakes_example :
    Returns
      (enter levels 3 5)
      waits
      (λ k'. (a : Ptr) → state k' a ≡ (if a == 5 then ready else state (world 1) a))
      (reply (world 1) 5)
reply-wakes_example = reply-wakes (world 1) levels waits (world-IsSystem 1) refl 5 refl

receive-send_example :
    (k' : Kernel) × (receive (world 1) ≡ done (delivered 4 44, k'))
    × IsSystem k' levels (update waits 1 [])
    × IsRunning k' levels
    × (k'.active_proc ≡ 1)
    × (state k' 4 ≡ reply_blocked)
receive-send_example =
    receive-send (world 1) levels waits (world-IsSystem 1) refl 1 4 [] refl (1 ∷ [])
      (world-IsPortList 1 refl) (ground arith) refl (ground arith) refl

receive-message_example :
    (k' : Kernel) × (receive (world 3) ≡ done (delivered 6 66, k'))
    × IsSystem k' (enter levels 0 6) (update waits 3 [])
    × IsRunning k' (enter levels 0 6)
    × (k'.active_proc ≡ 1)
    × (state k' 6 ≡ ready)
receive-message_example =
    receive-message (world 3) levels waits (world-IsSystem 3) refl 3 6 [] refl (3 ∷ [])
      (world-IsPortList 3 refl) (ground arith) refl (ground arith) refl

receive-blocks_example :
    (k' : Kernel) × (receive (world 2) ≡ done (blocked, k'))
    × IsSystem k' (leave levels 1 1) waits
    × IsRunning k' (leave levels 1 1)
    × (state k' 1 ≡ receive_blocked)
receive-blocks_example =
    receive-blocks (world 2) levels waits (world-IsSystem 2) refl (2 ∷ []) 1 2
      (world-IsPortList 2 refl) (ground arith) refl refl (ground arith)

dispatcher-round_robin_example :
    (i : ℕ) × IsHighest levels i
    × (dispatcher (world 1)
        ≡ done (if i == 1 then head_or 1 (around 1 (levels i)) else head_or null (levels i)))
dispatcher-round_robin_example = dispatcher-round_robin (world 1) levels (world-IsReady 1) refl

world-IsFree : (first : Ptr) → IsFree (world first) waits
world-IsFree first = record {
  pcb_ne_null = ground arith;
  pcb_unused = refl;
  port_ne_null = ground arith;
  port_empty = refl;
}

create_process-IsSystem_example :
    (k' : Kernel) × (create_process (world 1) 4096 5 17 "Shell" ≡ done (4, k'))
    × IsSystem k' (enter levels 5 7) waits
    × (used k' 7 ≡ true)
    × (first_port k' 7 ≡ 4)
    × ((k'.port 4).owner ≡ 7)
    × (k'.active_proc ≡ 1)
create_process-IsSystem_example =
    create_process-IsSystem (world 1) levels waits (world-IsSystem 1) (world-IsFree 1) 4096 5 17
      "Shell" (ground arith)

write_stack-longs_example :
    (longs 13 (write_stack (world 1) 7 4096 17).memory ((write_stack (world 1) 7 4096 17).pcb 7).esp
      ≡ 0 ∷ 0 ∷ 0 ∷ 0 ∷ 0 ∷ 0 ∷ 0 ∷ 4096 ∷ 8 ∷ 0 ∷ 0 ∷ 7 ∷ 17 ∷ [])
    × (((write_stack (world 1) 7 4096 17).pcb 7).esp ≡ 557004)
write_stack-longs_example =
    write_stack-longs (world 1) 7 4096 17 (ground arith) (ground arith) (ground arith)

-- All globals are zero.
abbrev blank : Kernel
blank = record {
  pcb = λ p. unused;
  next_free_pcb = null;
  active_proc = null;
  ready_queue = λ i. null;
  ready_procs = 0;
  port = λ t. record {
    magic = 0;
    used = false;
    opened = false;
    owner = null;
    blocked_list_head = null;
    blocked_list_tail = null;
    next = null;
  };
  next_free_port = null;
  interrupt_table = λ i. null;
  memory = λ a. 0;
  interrupts_initialized = false;
}

blank-IsZeroed : IsZeroed blank
blank-IsZeroed = record { unused = λ p. refl; states = λ p. refl; empty = λ t. refl }

-- The kernel after the start, and a timer interrupt in it.
abbrev booted :
    (k' : Kernel) × (boot blank ≡ done k')
    × IsSystem k' boot_levels no_waits
    × IsRunning k' boot_levels
booted = boot-IsSystem blank blank-IsZeroed

booted-IsSound : IsSound booted.0
booted-IsSound = record {
  queues = boot_levels;
  lists = no_waits;
  system = booted.2;
  running = booted.3;
}

abbrev ticked : Goes (isr_timer_0 booted.0)
ticked = tick-Goes booted.0 booted-IsSound

boot-Reach_example : IsSound ticked.0
boot-Reach_example =
    boot-Reach blank booted.0 ticked.0 blank-IsZeroed booted.1
      (more booted.0 ticked.0 start (ticks ticked.0 ticked.1))

blank-IsReady : IsReady blank no_levels
unfolding every_below
blank-IsReady = record {
  rings = λ i. refl;
  bits = λ i lt. agree-eq _ _ (every_below-at 8 (λ j. agree (bit 0 j) false) i refl lt);
  byte = ground arith;
  members = λ i p m. ground arith;
  distinct = λ i. tt;
}

-- The same system with process 2 in the interrupt table, which is ready.
abbrev early : Kernel
early = record (world 1) { interrupt_table = λ i. 2 }

early-IsSystem : IsSystem early levels waits
early-IsSystem =
    IsSystem-same (world 1) early levels waits (world-IsSystem 1)
      (record {
        heads = refl;
        bits = refl;
        ports = refl;
        links = λ a. (refl, refl);
        waits = λ a. refl;
        fixed = λ a. (refl, refl, refl);
      })
      λ a. refl
