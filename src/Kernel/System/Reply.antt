-- ===== src/Kernel/System/Reply.antt =====
-- `reply` of kernel/ipc.c, and `message` to a process that waits in `receive`.
use tos_sfsu_fall.Base.{ℕ, ◌≡◌, true, false, arith, ◌==◌, if◌then◌else◌}
use tos_sfsu_fall.Kernel.State.{Ptr, Kernel, ready, reply_blocked, is_reply_blocked, halt, panic}
use tos_sfsu_fall.Kernel.Dispatch.Inv.{state, priority, Levels}
use tos_sfsu_fall.Kernel.Dispatch.Enqueue.{enqueue-fields}
use tos_sfsu_fall.Kernel.Ipc.{can_deliver, deliver, message, reply}
use tos_sfsu_fall.Kernel.System.{Waits, is_ready, IsSystem, IsRunning, IsPort, enter}
use tos_sfsu_fall.Kernel.System.Link.{
  enqueue-rest, param_proc, param_data, SameLinks-deliver, deliver-fields,
}
use tos_sfsu_fall.Kernel.System.Switch.{Returns, wake-resign, wake-resign_at}
use tos_sfsu_fall.Kernel.System.Block.{IsSystem-same, IsRunning-same}

module _ (k : Kernel) (q : Levels) (b : Waits) (s : IsSystem k q b) (run : IsRunning k q) where
  -- Where the kernel keeps the invariant and the running process is ready, `reply` to a process
  -- that waits for a reply returns and keeps the invariant: that process is ready, at the end of
  -- its level, no other state changes, and a ready process of the highest level runs.
  pub reply-wakes :
      (p : Ptr)
      → state k p ≡ reply_blocked
      → Returns
          (enter q (priority k p) p)
          b
          (λ k'. (a : Ptr) → state k' a ≡ (if a == p then ready else state k a))
          (reply k p)
  unfolding reply
  reply-wakes p e = rw e (
      wake-resign k q b s (λ k'. (a : Ptr) → state k' a ≡ (if a == p then ready else state k a)) p
        run (rw e) (rw e) λ c a. (enqueue-fields k p a).0)

  -- `reply` to a process that does not wait for a reply stops the machine.
  pub reply-panics :
      (p : Ptr)
      → is_reply_blocked (state k p) ≡ false
      → reply k p ≡ halt (panic "reply(): Not reply blocked")
  unfolding reply
  reply-panics p e = rw e

  -- What a receiver finds: who sent, and what.
  abbrev pub Got : Ptr → ℕ → Kernel → Type 0
  Got dest d k' =
      (param_proc k' dest ≡ k.active_proc)
      × (param_data k' dest ≡ d)
      × (is_ready (state k' dest) ≡ true)

  -- Where the kernel keeps the invariant and the running process is ready, `message` to an open
  -- port whose owner waits in `receive` returns and keeps the invariant: the owner has the sender
  -- and the message and is ready, at the end of its level; the sender stays in its queue, and a
  -- ready process of the highest level runs.
  pub message-delivers :
      (t : Ptr) (d : ℕ)
      → IsPort k t
      → can_deliver k t ≡ true
      → Returns
          (enter q (priority k (k.port t).owner) (k.port t).owner)
          b
          (Got (k.port t).owner d)
          (message k t d)
  unfolding message
  message-delivers t d port can =
      rw (port.has_magic, port.owner_magic, can)
        (wake-resign_at (deliver k dest d) q b
          (IsSystem-same k (deliver k dest d) q b s (SameLinks-deliver k dest d)
            λ a. (deliver-fields k dest d a).0)
          (Got dest d) dest (priority k dest) ((SameLinks-deliver k dest d).fixed dest).0
          (IsRunning-same k (deliver k dest d) q run (SameLinks-deliver k dest d)
            (deliver-fields k dest d 0).3)
          (ground (arith, deliver-fields k dest d dest))
          (ground (arith, deliver-fields k dest d dest))
          λ c. ground (
            arith,
            enqueue-rest (deliver k dest d) dest dest,
            deliver-fields k dest d dest,
            enqueue-fields (deliver k dest d) dest dest,
          ))
    where
      dest : Ptr
      dest = (k.port t).owner
