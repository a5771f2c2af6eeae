-- ===== src/Kernel/System/Switch.antt =====
-- The last call of each operation, `resign`, and the rules by which the operations are composed.
use tos_sfsu_fall.Base.{
  ℕ, ◌≡◌, ◌≤◌, refl, true, false, List, [], ◌∷◌, arith, has-append, subst, ◌∈◌, ◌∉◌,
}
use tos_sfsu_fall.Kernel.State.{Ptr, Kernel, ready, magic_pcb, update, Outcome, done, ◌>>=◌}
use tos_sfsu_fall.Kernel.Dispatch.{enqueue, add_ready_queue, resign}
use tos_sfsu_fall.Kernel.Dispatch.Ring.{around, Distinct-around}
use tos_sfsu_fall.Kernel.Dispatch.Inv.{state, priority, is_cons, Levels}
use tos_sfsu_fall.Kernel.Dispatch.Enqueue.{enqueue-fields}
use tos_sfsu_fall.Kernel.Dispatch.Choice.{Follows, Follows-of_mem, resign_lem}
use tos_sfsu_fall.Kernel.System.{Waits, used, is_ready, is_waiting, IsSystem, IsRunning, enter}
use tos_sfsu_fall.Kernel.System.Place.{IsPlaced-cong, IsPlaced-wake}
use tos_sfsu_fall.Kernel.System.Link.{
  IsLinked-same, IsLinked-enqueue, enqueue-rest, enqueue-globals,
}

-- An operation returns: the machine does not stop, the invariant holds again, the process that now
-- runs is ready, no ready process has a higher priority, and `P` holds.
pub record Returns (q : Levels) (b : Waits) (P : Kernel → Type 0) (r : Outcome Kernel)
    : Type 0 where
  pub to : Kernel
  pub returns : r ≡ done to
  pub system : IsSystem to q b
  pub running : IsRunning to q
  pub highest : (i a : ℕ) → a ∈ q i → i ≤ priority to to.active_proc
  pub post : P to

-- Only who runs changes.
IsSystem-active :
    (k : Kernel) (q : Levels) (b : Waits) (p : Ptr)
    → IsSystem k q b
    → IsSystem (record k { active_proc = p }) q b
IsSystem-active k q b p s = record {
  linked =
      IsLinked-same k q b s.linked (record k { active_proc = p })
        (record {
          heads = refl;
          bits = refl;
          ports = refl;
          links = λ a. (refl, refl);
          waits = λ a. refl;
          fixed = λ a. (refl, refl, refl);
        });
  placed = s.placed;
}

pub resign-Returns :
    (k : Kernel) (q : Levels) (b : Waits) (P : Kernel → Type 0)
    → IsSystem k q b
    → Follows k q
    → (j : ℕ) → is_cons (q j) ≡ true
    → ((p : Ptr) → P (record k { active_proc = p }))
    → Returns q b P (resign k)
resign-Returns k q b P s follows j held post =
    let (p, e, mem, high) = resign_lem k q s.linked.queues follows j held in
    record {
      to = record k { active_proc = p };
      returns = e;
      system = IsSystem-active k q b p s;
      running = mem;
      highest = high;
      post = post p;
    }

pub add_ready_queue_lem :
    (k : Kernel) (p : Ptr) → (k.pcb p).magic ≡ magic_pcb → add_ready_queue k p ≡ done (enqueue k p)
unfolding add_ready_queue
add_ready_queue_lem k p e = rw e

pub is_cons_of_mem : (a : Ptr) (xs : List Ptr) → a ∈ xs → is_cons xs ≡ true
is_cons_of_mem a [] m = ground arith
is_cons_of_mem a (x ∷ xs) m = refl

module _ (k : Kernel) (q : Levels) (b : Waits) (s : IsSystem k q b) where
  -- A process that is not ready can be made so.
  pub wake-IsSystem :
      (p : Ptr)
      → is_ready (state k p) ≡ false
      → is_waiting (state k p) ≡ false
      → (add_ready_queue k p ≡ done (enqueue k p))
        × IsSystem (enqueue k p) (enter q (priority k p) p) b
  unfolding add_ready_queue
  wake-IsSystem p nr nw =
      let proc = s.linked.procs p (s.placed.used_of_blocked p nr) in
      (
        ground (arith, proc),
        record {
          linked =
              IsLinked-enqueue k q b s.linked p proc
                (ground (arith, s.placed.ready_of_mem (priority k p) p));
          placed =
              IsPlaced-cong (used k) (priority k) (update (state k) p ready)
                (enter q (priority k p) p) b
                (IsPlaced-wake (used k) (priority k) (state k) q b s.placed p nr nw)
                (used (enqueue k p)) (priority (enqueue k p)) (state (enqueue k p))
                λ a. ground (arith, enqueue-fields k p a, enqueue-rest k p a);
        },
      )

  pub gone : (p : Ptr) → p ∉ around p (q (priority k p))
  gone p = (Distinct-around p (q (priority k p)) (s.linked.queues.distinct (priority k p))).0

  pub mem-enter : (p a : Ptr) (i j : ℕ) → a ∈ q i → a ∈ enter q j p i
  mem-enter p a i j m = ground (arith, has-append a (q j) (p ∷ []))

  -- `reply` of ipc.c ends so: a process becomes ready, and the dispatcher chooses.
  pub wake-resign :
      (P : Kernel → Type 0) (p : Ptr)
      → IsRunning k q
      → is_ready (state k p) ≡ false
      → is_waiting (state k p) ≡ false
      → ((a : Ptr) → P (record (enqueue k p) { active_proc = a }))
      → Returns (enter q (priority k p) p) b P (add_ready_queue k p >>= resign)
  wake-resign P p run nr nw post =
      let (e, s') = wake-IsSystem p nr nw in
      let still : IsRunning (enqueue k p) (enter q (priority k p) p) = rw (enqueue-globals k p).1 (
        rw (enqueue-fields k p k.active_proc).1
          (mem-enter p k.active_proc (priority k k.active_proc) (priority k p) run)) in
      rw e (
        resign-Returns (enqueue k p) (enter q (priority k p) p) b P s'
          (Follows-of_mem (enqueue k p) (enter q (priority k p) p) s'.linked.queues still)
          (priority (enqueue k p) (enqueue k p).active_proc)
          (is_cons_of_mem (enqueue k p).active_proc _ still) post)

  -- The same with the level given.
  pub wake-resign_at :
      (P : Kernel → Type 0) (p i : ℕ)
      → priority k p ≡ i
      → IsRunning k q
      → is_ready (state k p) ≡ false
      → is_waiting (state k p) ≡ false
      → ((a : Ptr) → P (record (enqueue k p) { active_proc = a }))
      → Returns (enter q i p) b P (add_ready_queue k p >>= resign)
  wake-resign_at P p i e run nr nw post =
      subst (λ j. Returns (enter q j p) b P (add_ready_queue k p >>= resign)) e
        (wake-resign P p run nr nw post)
