-- ===== src/Kernel/Ipc.antt =====
-- kernel/ipc.c: ports, and the four operations by which processes exchange messages.
--
-- An operation that ends in `resign` returns the kernel in which the next process runs. What
-- `receive` does when its process runs again is `receive_resume`. Up to `resign` the global
-- `active_proc` is that of the kernel at the call.
pub mod Chain
pub mod Ports
use tos_sfsu_fall.Base.{
  ℕ, zero, suc, ◌+◌, Bool, true, false, not, ◌&&◌, ◌||◌, ltb, ◌==◌, if◌then◌else◌,
}
use tos_sfsu_fall.Kernel.State.{
  Ptr, null, Kernel, ProcState, Pcb, PortDef, ready, send_blocked, reply_blocked, receive_blocked,
  message_blocked, is_receive_blocked, is_reply_blocked, is_message_blocked, is_send_blocked,
  max_ports, magic_pcb, magic_port, set_pcb, set_port, update, Outcome, done, halt, panic,
  out_of_fuel, ◌>>=◌, ◌>>◌, assert,
}
use tos_sfsu_fall.Kernel.Dispatch.{add_ready_queue, remove_ready_queue, resign}

-- The writes of `create_new_port` to the free port `p` and its new owner.
unfoldable pub take_port : Kernel → Ptr → Ptr → Kernel
take_port k p owner =
    let first = (k.pcb owner).first_port in
    let k₁ : Kernel = record k { next_free_port = (k.port p).next } in
    let k₂ : Kernel = set_port k₁ p (record (k₁.port p) {
      used = true;
      magic = magic_port;
      owner = owner;
      blocked_list_head = null;
      blocked_list_tail = null;
      opened = true;
      next = if first == null then null else first;
    }) in
    set_pcb k₂ owner (record (k₂.pcb owner) { first_port = p })

unfoldable pub create_new_port : Kernel → Ptr → Outcome (Ptr × Kernel)
create_new_port k owner = do
  assert ((k.pcb owner).magic == magic_pcb)
  if k.next_free_port == null
      then halt (panic "create_new_port(): PORT full")
      else done (k.next_free_port, take_port k k.next_free_port owner)

unfoldable pub create_port : Kernel → Outcome (Ptr × Kernel)
create_port k = create_new_port k k.active_proc

-- The writes of `add_to_send_blocked_list`.
unfoldable pub block_on : Kernel → Ptr → Ptr → Kernel
block_on k port proc =
    let d = k.port port in
    let k₁ : Kernel =
      if d.blocked_list_head == null
      then set_port k port (record d { blocked_list_head = proc })
      else set_pcb k d.blocked_list_tail
          (record (k.pcb d.blocked_list_tail) { next_blocked = proc }) in
    let k₂ : Kernel = set_port k₁ port (record (k₁.port port) { blocked_list_tail = proc }) in
    set_pcb k₂ proc (record (k₂.pcb proc) { next_blocked = null })

unfoldable pub add_to_send_blocked_list : Kernel → Ptr → Ptr → Outcome Kernel
add_to_send_blocked_list k port proc = do
  assert ((k.port port).magic == magic_port)
  assert ((k.pcb proc).magic == magic_pcb)
  done (block_on k port proc)

unfoldable pub open_port : Kernel → Ptr → Outcome Kernel
open_port k p = do
  assert ((k.port p).magic == magic_port)
  done (set_port k p (record (k.port p) { opened = true }))

unfoldable pub close_port : Kernel → Ptr → Outcome Kernel
close_port k p = do
  assert ((k.port p).magic == magic_port)
  done (set_port k p (record (k.port p) { opened = false }))

-- The test of `send` and `message`: the port is open and its owner waits in `receive`.
abbrev pub can_deliver : Kernel → Ptr → Bool
can_deliver k dest_port =
    (k.port dest_port).opened && is_receive_blocked (k.pcb (k.port dest_port).owner).state

-- `dest->param_proc = active_proc; dest->param_data = data;`
unfoldable pub deliver : Kernel → Ptr → ℕ → Kernel
deliver k dest data' =
    set_pcb k dest (record (k.pcb dest) { param_proc = k.active_proc; param_data = data' })

-- `p->state = …`
unfoldable pub set_state : Kernel → Ptr → ProcState → Kernel
set_state k p s = set_pcb k p (record (k.pcb p) { state = s })

-- `p->param_data = data`
unfoldable pub set_data : Kernel → Ptr → ℕ → Kernel
set_data k p data' = set_pcb k p (record (k.pcb p) { param_data = data' })

unfoldable pub send : Kernel → Ptr → ℕ → Outcome Kernel
send k dest_port data' = do
  assert ((k.port dest_port).magic == magic_port)
  let dest = (k.port dest_port).owner
  assert ((k.pcb dest).magic == magic_pcb)
  k₁ ←
      if can_deliver k dest_port
      then add_ready_queue (set_state (deliver k dest data') k.active_proc reply_blocked) dest
      else do
        k₁ ← add_to_send_blocked_list k dest_port k.active_proc
        done (set_data (set_state k₁ k.active_proc send_blocked) k.active_proc data')
  let k₂ = set_data k₁ k.active_proc data'
  k₃ ← remove_ready_queue k₂ k.active_proc
  resign k₃

unfoldable pub message : Kernel → Ptr → ℕ → Outcome Kernel
message k dest_port data' = do
  assert ((k.port dest_port).magic == magic_port)
  let dest = (k.port dest_port).owner
  assert ((k.pcb dest).magic == magic_pcb)
  k₁ ← if can_deliver k dest_port then add_ready_queue (deliver k dest data') dest else do
    k₁ ← add_to_send_blocked_list k dest_port k.active_proc
    k₂ ← remove_ready_queue k₁ k.active_proc
    done (set_data (set_state k₂ k.active_proc message_blocked) k.active_proc data')
  resign k₁

-- The loop of `receive`: the first port of the list that is open and has a blocked process.
unfoldable pub find_port : ℕ → Kernel → Ptr → Outcome Ptr
find_port zero k p = halt out_of_fuel
find_port (suc fuel) k p =
    let rest = find_port fuel k (k.port p).next in
    if p == null then done null else do
      assert ((k.port p).magic == magic_port)
      if (k.port p).opened && not ((k.port p).blocked_list_head == null) then done p else rest

-- What a call of `receive` gives: the sender and its message, or nothing yet.
pub data Receipt : Type 0 where
  delivered : (sender : Ptr) (datum : ℕ) → Receipt
  blocked : Receipt

-- `port->blocked_list_head = port->blocked_list_head->next_blocked; …`
unfoldable pub unblock_first : Kernel → Ptr → Kernel
unblock_first k p =
    let d = k.port p in
    let second = (k.pcb d.blocked_list_head).next_blocked in
    set_port k p (record d {
      blocked_list_head = second;
      blocked_list_tail = if second == null then null else d.blocked_list_tail;
    })

-- "No messages pending": the end of `receive`.
unfoldable pub receive_block : Kernel → ℕ → Outcome (Receipt × Kernel)
receive_block k data' = do
  k₁ ← remove_ready_queue k k.active_proc
  k₂ ← resign (set_state (set_data k₁ k.active_proc data') k.active_proc receive_blocked)
  done (blocked, k₂)

unfoldable pub receive_from : Kernel → Ptr → Outcome (Receipt × Kernel)
receive_from k p = do
  let sender = (k.port p).blocked_list_head
  assert ((k.pcb sender).magic == magic_pcb)
  let datum = (k.pcb sender).param_data
  let k₁ : Kernel = unblock_first k p
  if is_message_blocked (k₁.pcb sender).state
      then (do k₂ ← add_ready_queue k₁ sender; done (delivered sender datum, k₂))
      else if is_send_blocked (k₁.pcb sender).state
      then done (delivered sender datum, set_state k₁ sender reply_blocked)
      else receive_block k₁ datum

unfoldable pub receive : Kernel → Outcome (Receipt × Kernel)
receive k =
    let first = (k.pcb k.active_proc).first_port in
    if first == null then halt (panic "receive(): no port created for this process") else do
      p ← find_port (max_ports + 1) k first
      if p == null then receive_block k 0 else receive_from k p

-- The end of `receive` after a block: `*sender = active_proc->param_proc`, and the data.
unfoldable pub receive_resume : Kernel → Ptr × ℕ
receive_resume k = ((k.pcb k.active_proc).param_proc, (k.pcb k.active_proc).param_data)

unfoldable pub reply : Kernel → Ptr → Outcome Kernel
reply k sender =
    if not (is_reply_blocked (k.pcb sender).state)
    then halt (panic "reply(): Not reply blocked")
    else do k₁ ← add_ready_queue k sender; resign k₁

-- `init_ipc`: every port is on the free list.
unfoldable pub init_ipc : Kernel → Kernel
init_ipc k = record k {
  next_free_port = 1;
  port = λ p. if p == null || ltb max_ports p then k.port p else record (k.port p) {
    used = false;
    magic = magic_port;
    next = if p == max_ports then null else p + 1;
  };
}
