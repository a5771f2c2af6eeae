-- ===== src/Drivers/Events/Listeners.antt =====
-- The listeners of kernel/em.c as lists of registered processes, and the focus of the keyboard.
use tos_sfsu_fall.Base.{
  ℕ, zero, suc, ◌+◌, ◌-◌, ◌%◌, ◌≤◌, ◌<◌, ◌≡◌, refl, sym, ◌∙◌, ap, Bool, true, false, not, ◌&&◌, ltb,
  ◌==◌, if◌then◌else◌, List, [], ◌∷◌, ◌++◌, set, length, length-append, arith,
}
use native.Mathlib.Nat.{mod-lt, mod-eq_of_lt, mod-add-mod}
use tos_sfsu_fall.Kernel.State.{Kernel, Ptr, null, Outcome, done, ◌>>=◌}
use tos_sfsu_fall.Drivers.Events.{
  Events, EventListener, key_stroke, udp_packet_received, no_listeners, max_listeners, listener,
  em_register_udp_listener, udp_ports, to_all, em_process, key_tab,
}

-- Every registered process is a real one.
abbrev pub all_real : List EventListener → Bool
all_real [] = true
all_real (l ∷ ls) = not (l.process == null) && all_real ls

-- The array holds the registered listeners, in order, and then free entries.
pub record IsListed (regs : List EventListener) (e : Events) : Type 0 where
  pub array : e.udp_listeners ≡ regs ++ no_listeners (max_listeners - length regs)
  pub count : e.nbr_of_udp_listeners ≡ length regs
  pub bound : length regs ≤ max_listeners
  pub real : all_real regs ≡ true

set-next :
    (regs : List EventListener) (l : EventListener) (m : ℕ)
    → set (regs ++ no_listeners (suc m)) (length regs) l ≡ (regs ++ (l ∷ [])) ++ no_listeners m
set-next [] l m = refl
set-next (r ∷ regs) l m = ap (λ ls. r ∷ ls) (set-next regs l m)

all_real-snoc :
    (regs : List EventListener) (l : EventListener)
    → all_real regs ≡ true
    → (l.process == null) ≡ false
    → all_real (regs ++ (l ∷ [])) ≡ true
all_real-snoc [] l h r = ground (arith, r)
all_real-snoc (x ∷ regs) l h r = ground (arith, h, all_real-snoc regs l, r)

-- Registering for a UDP port adds the running process, with its first port, behind the others, while
-- there are fewer than 20.
pub em_register_udp_listener-IsListed :
    (k : Kernel) (port : ℕ) (regs : List EventListener) (e : Events)
    → IsListed regs e
    → (k.active_proc == null) ≡ false
    → length regs < max_listeners
    → IsListed (regs ++ (listener k port ∷ [])) (em_register_udp_listener k port e).0
      × ((em_register_udp_listener k port e).1 ≡ true)
unfolding em_register_udp_listener
em_register_udp_listener-IsListed k port regs e i real room =
    let more : length (regs ++ (listener k port ∷ [])) ≡ suc (length regs) =
      length-append regs (listener k port ∷ []) ∙ omega arith in
    let free : ltb 19 e.nbr_of_udp_listeners ≡ false = ground (arith, i.count, room) in
    let left : 20 - length regs ≡ suc (19 - length regs) = omega (arith, room) in
    rw free (
      record {
        array =
            ap (λ ls. set ls e.nbr_of_udp_listeners (listener k port)) i.array
            ∙ ap (λ n. set (regs ++ no_listeners (20 - length regs)) n (listener k port)) i.count
            ∙ ap (λ m. set (regs ++ no_listeners m) (length regs) (listener k port)) left
            ∙ set-next regs (listener k port) (19 - length regs)
            ∙ ap (λ m. (regs ++ (listener k port ∷ [])) ++ no_listeners m) {x = 19 - length regs}
                {y = 20 - length (regs ++ (listener k port ∷ []))} (omega (arith, more, room));
        count = omega (arith, more, i.count);
        bound = omega (arith, more, room);
        real = all_real-snoc regs (listener k port) i.real real;
      },
      refl,
    )

-- The ports of those registered for a UDP port.
abbrev pub interested : ℕ → List EventListener → List Ptr
interested port [] = []
interested port (l ∷ ls) =
    if l.udp_port == port then l.proc_port ∷ interested port ls else interested port ls

udp_ports-registered :
    (port m : ℕ) (regs : List EventListener)
    → all_real regs ≡ true
    → udp_ports port (regs ++ no_listeners m) ≡ interested port regs
unfolding udp_ports
udp_ports-registered port zero [] h = refl
udp_ports-registered port (suc m) [] h = refl
udp_ports-registered port m (l ∷ regs) h = ground (arith, h, udp_ports-registered port m regs)

-- A UDP packet is sent to exactly the processes that are registered for its port, in the order in
-- which they registered, and nothing else changes.
pub em_process-udp :
    (port datum : ℕ) (regs : List EventListener) (e : Events)
    → IsListed regs e
    → em_process e (udp_packet_received port datum)
      ≡ done (e, to_all (udp_packet_received port datum) (interested port regs))
unfolding em_process
em_process-udp port datum regs e i =
    rw (i.array, udp_ports-registered port (20 - length regs) regs i.real) refl

same : (f m : ℕ) → f < m → (f + 0) % m ≡ f
same f m h = ap (λ k. k % m) {x = f + 0} {y = f} (omega arith) ∙ mod-eq_of_lt h

around : (f m n : ℕ) → ((f + 1) % m + n) % m ≡ (f + suc n) % m
around f m n = mod-add-mod (f + 1) m n ∙ ap (λ k. k % m) (omega arith)

-- A number of key strokes of the tabulator.
unfoldable pub tabs : ℕ → Events → Outcome Events
tabs zero e = done e
tabs (suc n) e = em_process e (key_stroke key_tab) >>= λ r. tabs n r.0

-- While somebody listens to the keyboard, the tabulator moves the focus to the next listener, around
-- the table: after `n` of them it is `n` listeners on.
pub tabs-focus :
    (n : ℕ) (e : Events)
    → 0 < e.nbr_of_key_listeners
    → e.kboard_focus < e.nbr_of_key_listeners
    → tabs n e ≡ done (record e { kboard_focus = (e.kboard_focus + n) % e.nbr_of_key_listeners })
unfolding tabs em_process
tabs-focus zero e some_ at =
    ap (λ f. done (record e { kboard_focus = f }))
      (sym (same e.kboard_focus e.nbr_of_key_listeners at))
tabs-focus (suc n) e some_ at =
    let next = (e.kboard_focus + 1) % e.nbr_of_key_listeners in
    let rest =
      tabs-focus n (record e { kboard_focus = next }) some_ (mod-lt (e.kboard_focus + 1) some_) in
    rw (nobody) (
      rest
      ∙ ap (λ f. done (record e { kboard_focus = f }))
          (around e.kboard_focus e.nbr_of_key_listeners n))
  where
    nobody : (e.nbr_of_key_listeners == 0) ≡ false
    nobody = ground (arith, some_)
