-- ===== src/Kernel/System/PortCalls.antt =====
-- `create_port`, `open_port` and `close_port` of kernel/ipc.c, and the end of `wait_for_interrupt` of
-- kernel/intr.c, in a kernel that keeps the invariant.
use tos_sfsu_fall.Base.{
  ℕ, ◌≡◌, ◌≢◌, refl, ◌∙◌, subst, true, false, ap, List, [], arith, ◌==◌, Bool-cases, ==_iff, ==_ne,
  inl, inr, ◌∈◌, Bool, sym,
}
use tos_sfsu_fall.Kernel.State.{Ptr, null, Kernel, magic_port, set_port, done}
use tos_sfsu_fall.Kernel.Dispatch.Inv.{next, prev, state, priority, Levels}
use tos_sfsu_fall.Kernel.Ipc.{take_port, create_new_port, create_port, open_port, close_port}
use tos_sfsu_fall.Kernel.Ipc.Chain.{next_blocked, head_of, tail_of, IsWaitList, Chain-frame}
use tos_sfsu_fall.Kernel.Intr.{set_interrupt, interrupt_resume}
use tos_sfsu_fall.Kernel.Process.Create.{take_port-fields, take_port-port}
use tos_sfsu_fall.Kernel.System.{Waits, used, IsSystem, IsReady-frame}
use tos_sfsu_fall.Kernel.System.Place.{IsPlaced-cong}
use tos_sfsu_fall.Kernel.System.Sound.{IsSound, Goes, no_waiting}

-- What the queues and the states of the processes are made of is the same.
record SameProcs (k k' : Kernel) : Type 0 where
  heads : k'.ready_queue ≡ k.ready_queue
  procs : k'.ready_procs ≡ k.ready_procs
  active : k'.active_proc ≡ k.active_proc
  fields :
      (a : Ptr)
      → (used k' a ≡ used k a)
        × (priority k' a ≡ priority k a)
        × (state k' a ≡ state k a)
        × ((k'.pcb a).magic ≡ (k.pcb a).magic)
        × (next k' a ≡ next k a)
        × (prev k' a ≡ prev k a)
        × (next_blocked k' a ≡ next_blocked k a)

IsSystem-frame :
    (k k' : Kernel) (q : Levels) (b : Waits)
    → SameProcs k k'
    → ((u : Ptr) → IsWaitList k' u (b u))
    → IsSystem k q b
    → IsSystem k' q b
IsSystem-frame k k' q b same lists s = record {
  linked = record {
    queues =
        IsReady-frame k k' q s.linked.queues same.heads same.procs
          λ a. ground (arith, same.fields a);
    lists = lists;
    procs = λ a u. record {
      ne_null = ground (arith, same.fields a, s.linked.procs a);
      has_magic = ground (arith, same.fields a, s.linked.procs a);
      small = ground (arith, same.fields a, s.linked.procs a);
      is_used = u;
    };
  };
  placed =
      IsPlaced-cong (used k) (priority k) (state k) q b s.placed (used k') (priority k') (state k')
        λ a. ground (arith, same.fields a);
}

IsWaitList-frame :
    (k k' : Kernel) (u : Ptr) (ps : List Ptr)
    → SameProcs k k'
    → head_of k' u ≡ head_of k u
    → tail_of k' u ≡ tail_of k u
    → IsWaitList k u ps
    → IsWaitList k' u ps
IsWaitList-frame k k' u ps same head tail l = record {
  chain = rw head (
      Chain-frame (next_blocked k) (next_blocked k') (head_of k u) ps l.chain
        λ a m. (same.fields a).6);
  tail = rw tail l.tail;
}

IsSound-frame :
    (k k' : Kernel) (s : IsSound k)
    → SameProcs k k'
    → ((u : Ptr) → IsWaitList k' u (s.lists u))
    → IsSound k'
IsSound-frame k k' s same lists = record {
  queues = s.queues;
  lists = s.lists;
  system = IsSystem-frame k k' s.queues s.lists same lists s.system;
  running =
      subst (λ a. a ∈ s.queues (priority k' a)) (sym same.active)
        (subst (λ i. k.active_proc ∈ s.queues i) (sym (same.fields k.active_proc).1) s.running);
}

-- The end of `wait_for_interrupt`.
pub resume-IsSound : (k : Kernel) (n : ℕ) → IsSound k → IsSound (interrupt_resume k n)
unfolding interrupt_resume set_interrupt
resume-IsSound k n s =
    let same : SameProcs k (interrupt_resume k n) = record {
      heads = refl;
      procs = refl;
      active = refl;
      fields = λ a. (refl, refl, refl, refl, refl, refl, refl);
    } in
    IsSound-frame k (interrupt_resume k n) s same λ u.
      IsWaitList-frame k (interrupt_resume k n) u (s.lists u) same refl refl
        (s.system.linked.lists u)

-- A port with another flag.
abbrev flagged : Kernel → Ptr → Bool → Kernel
flagged k t opened = set_port k t (record (k.port t) { opened = opened })

flagged-IsSound : (k : Kernel) (t : Ptr) (opened : Bool) → IsSound k → IsSound (flagged k t opened)
flagged-IsSound k t opened s =
    let same : SameProcs k (flagged k t opened) = record {
      heads = refl;
      procs = refl;
      active = refl;
      fields = λ a. (refl, refl, refl, refl, refl, refl, refl);
    } in
    IsSound-frame k (flagged k t opened) s same λ u.
      IsWaitList-frame k (flagged k t opened) u (s.lists u) same (ground (arith, ==_iff u t))
        (ground (arith, ==_iff u t)) (s.system.linked.lists u)

pub open-Goes :
    (k : Kernel) (t : Ptr) → IsSound k → (k.port t).magic ≡ magic_port → Goes (open_port k t)
unfolding open_port
open-Goes k t s m = (flagged k t true, rw m, flagged-IsSound k t true s)

pub close-Goes :
    (k : Kernel) (t : Ptr) → IsSound k → (k.port t).magic ≡ magic_port → Goes (close_port k t)
unfolding close_port
close-Goes k t s m = (flagged k t false, rw m, flagged-IsSound k t false s)

-- The port that is taken: nobody waits there.
pub create_port-Goes :
    (k : Kernel)
    → IsSound k
    → k.next_free_port ≢ null
    → head_of k k.next_free_port ≡ null
    → (t : Ptr) × (k' : Kernel) × (create_port k ≡ done (t, k')) × IsSound k'
unfolding create_port create_new_port
create_port-Goes k s ne nobody =
    let t = k.next_free_port in
    let p = k.active_proc in
    let k' = take_port k t p in
    let same : SameProcs k k' = record {
      heads = unfold take_port in refl;
      procs = unfold take_port in refl;
      active = unfold take_port in refl;
      fields = take_port-fields k t p;
    } in
    let proc = s.system.linked.procs p (s.system.placed.used_of_mem (priority k p) p s.running) in
    (
      t,
      k',
      rw (proc.has_magic, ==_ne t null ne),
      IsSound-frame k k' s same λ u. elim (Bool-cases (u == t)) [
        | inl e ↦
            let empty : s.lists u ≡ [] = ap s.lists ((==_iff u t).0 e) ∙ no_waiting k s t nobody in
            rw empty (record { chain = ground (arith, take_port-port k t p u, e); tail = tt })
        | inr e ↦
            IsWaitList-frame k k' u (s.lists u) same (ground (arith, take_port-port k t p u, e))
              (ground (arith, take_port-port k t p u, e)) (s.system.linked.lists u)
      ],
    )
