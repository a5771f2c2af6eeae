-- ===== src/Kernel/System/Place.antt =====
-- The four ways in which the kernel moves a process: it wakes it, blocks it, puts it on the list of
-- a port, or takes it off that list. Each keeps `IsPlaced`.
use tos_sfsu_fall.Base.{
  ℕ, ◌≡◌, refl, Bool, true, false, List, [], ◌∷◌, arith, ◌==◌, has, subst, has-append, ◌∈◌, ◌∉◌,
  Distinct, Distinct-append, Bool-cases, inl, inr, ◌||◌,
}
use tos_sfsu_fall.Kernel.State.{Ptr, ProcState, ready, update}
use tos_sfsu_fall.Kernel.Dispatch.Ring.{around, has-around}
use tos_sfsu_fall.Kernel.Dispatch.Inv.{Levels}
use tos_sfsu_fall.Kernel.System.{Waits, is_waiting, is_ready, IsPlaced, enter, leave, wait_at}

module _ (us : Ptr → Bool) (pr : Ptr → ℕ) (st : Ptr → ProcState) (q : Levels) (b : Waits)
    (w : IsPlaced us pr st q b) where
  open w use {
    ready_of_mem, level_of_mem, used_of_mem, mem_of_ready, waiting_of_mem, mem_of_waiting, apart,
    distinct, used_of_blocked,
  }

  pub IsPlaced-cong :
      (us' : Ptr → Bool) (pr' : Ptr → ℕ) (st' : Ptr → ProcState)
      → ((a : Ptr) → (us' a ≡ us a) × (pr' a ≡ pr a) × (st' a ≡ st a))
      → IsPlaced us' pr' st' q b
  IsPlaced-cong us' pr' st' same = record {
    ready_of_mem = λ i p m. ground (arith, same p, ready_of_mem i p m);
    level_of_mem = λ i p m. ground (arith, same p, level_of_mem i p m);
    used_of_mem = λ i p m. ground (arith, same p, used_of_mem i p m);
    mem_of_ready = λ p u r. ground (arith, same p, mem_of_ready p);
    waiting_of_mem = λ t p m. ground (arith, same p, waiting_of_mem t p m);
    mem_of_waiting = λ p m. mem_of_waiting p (ground (arith, same p));
    apart = apart;
    distinct = distinct;
    used_of_blocked = λ p r. ground (arith, same p, used_of_blocked p);
  }

  -- A process that is neither ready nor waiting becomes ready.
  pub IsPlaced-wake :
      (p : Ptr)
      → is_ready (st p) ≡ false
      → is_waiting (st p) ≡ false
      → IsPlaced us pr (update st p ready) (enter q (pr p) p) b
  IsPlaced-wake p nr nw = record {
    ready_of_mem = λ i a m. ground (arith, ready_of_mem i a, has-append a (q (pr p)) (p ∷ []));
    level_of_mem = λ i a m. ground (arith, level_of_mem i a, has-append a (q (pr p)) (p ∷ []));
    used_of_mem = λ i a m.
        ground (arith, used_of_mem i a, has-append a (q (pr p)) (p ∷ []), used_of_blocked p nr);
    mem_of_ready = λ a u r. ground (arith, mem_of_ready a, has-append a (q (pr p)) (p ∷ []));
    waiting_of_mem = λ t a m. ground (arith, waiting_of_mem t a m);
    mem_of_waiting = λ a m. mem_of_waiting a (ground arith);
    apart = apart;
    distinct = distinct;
    used_of_blocked = λ a r. ground (arith, used_of_blocked a);
  }

  -- A ready process is blocked, and waits at no port.
  pub IsPlaced-block :
      (p : Ptr) (s : ProcState)
      → p ∈ q (pr p)
      → p ∉ around p (q (pr p))
      → is_ready s ≡ false
      → is_waiting s ≡ false
      → IsPlaced us pr (update st p s) (leave q (pr p) p) b
  IsPlaced-block p s mem gone nr nw = record {
    ready_of_mem =
        λ i a m. ground (arith, ready_of_mem i a, has-around p a (q (pr p)) mem, level_of_mem i a);
    level_of_mem = λ i a m. ground (arith, level_of_mem i a, has-around p a (q (pr p)) mem);
    used_of_mem = λ i a m. ground (arith, used_of_mem i a, has-around p a (q (pr p)) mem);
    mem_of_ready = λ a u r. ground (arith, mem_of_ready a, has-around p a (q (pr p)) mem);
    waiting_of_mem = λ t a m. ground (arith, waiting_of_mem t a m, ready_of_mem (pr p) p mem);
    mem_of_waiting = λ a m. mem_of_waiting a (ground arith);
    apart = apart;
    distinct = distinct;
    used_of_blocked = λ a r. ground (arith, used_of_blocked a, used_of_mem (pr p) p mem);
  }

  pub not-waiting_of_mem : (i p : ℕ) → p ∈ q i → (t : Ptr) → p ∉ b t
  not-waiting_of_mem i p m t = ground (arith, ready_of_mem i p m, waiting_of_mem t p)

  -- A ready process is blocked, and waits at port `t` behind the others.
  pub IsPlaced-wait :
      (p t : Ptr) (s : ProcState)
      → p ∈ q (pr p)
      → p ∉ around p (q (pr p))
      → is_waiting s ≡ true
      → IsPlaced us pr (update st p s) (leave q (pr p) p) (wait_at b t p)
  IsPlaced-wait p t s mem gone wt = record {
    ready_of_mem =
        λ i a m. ground (arith, ready_of_mem i a, has-around p a (q (pr p)) mem, level_of_mem i a);
    level_of_mem = λ i a m. ground (arith, level_of_mem i a, has-around p a (q (pr p)) mem);
    used_of_mem = λ i a m. ground (arith, used_of_mem i a, has-around p a (q (pr p)) mem);
    mem_of_ready = λ a u r. ground (arith, mem_of_ready a, has-around p a (q (pr p)) mem);
    waiting_of_mem = λ u a m. ground (arith, waiting_of_mem u a, has-append a (b t) (p ∷ []));
    mem_of_waiting = λ a m. elim (Bool-cases (a == p)) [
      | inl e ↦ (t, ground (arith, has-append a (b t) (p ∷ [])))
      | inr e ↦
          let (u, old) = mem_of_waiting a (ground arith) in
          (u, ground (arith, has-append a (b t) (p ∷ [])))
    ];
    apart = λ u v a m n. ground (
      arith,
      apart u v a,
      has-append a (b t) (p ∷ []),
      not-waiting_of_mem (pr p) p mem u,
      not-waiting_of_mem (pr p) p mem v,
    );
    distinct = λ u. elim (Bool-cases (u == t)) [
      | inl e ↦ rw e (
          Distinct-append (b t) (p ∷ []) (distinct t) (refl, tt)
            λ a m. ground (arith, not-waiting_of_mem (pr p) p mem t))
      | inr e ↦ rw e (distinct u)
    ];
    used_of_blocked = λ a r. ground (arith, used_of_blocked a, used_of_mem (pr p) p mem);
  }

  -- The first process that waits at port `t` leaves the list, and is blocked otherwise.
  pub IsPlaced-unwait :
      (t x : Ptr) (xs : List Ptr) (s : ProcState)
      → b t ≡ x ∷ xs
      → is_ready s ≡ false
      → is_waiting s ≡ false
      → IsPlaced us pr (update st x s) q (update b t xs)
  IsPlaced-unwait t x xs s e nr nw = record {
    ready_of_mem = λ i a m. ground (arith, ready_of_mem i a, first_waits);
    level_of_mem = level_of_mem;
    used_of_mem = used_of_mem;
    mem_of_ready = λ a u r. ground (arith, mem_of_ready a);
    waiting_of_mem = λ u a m.
        ground
          (arith, waiting_of_mem u a, waiting_of_mem t a, apart u t a, rest_Distinct, in_rest a);
    mem_of_waiting =
        λ a m. let (u, old) = mem_of_waiting a (ground arith) in (u, ground (arith, in_rest a));
    apart = λ u v a m n. ground (arith, apart u v a, in_rest a);
    distinct = λ u. elim (Bool-cases (u == t)) [
      | inl same ↦ rw same rest_Distinct.1
      | inr other ↦ rw other (distinct u)
    ];
    used_of_blocked = λ a r. ground (arith, used_of_blocked a, used_of_blocked x, first_waits);
  }
    where
      in_rest : (a : Ptr) → has a (b t) ≡ ((a == x) || has a xs)
      in_rest a = rw e

      rest_Distinct : Distinct (x ∷ xs)
      rest_Distinct = subst Distinct e (distinct t)

      first_waits : (is_waiting (st x) ≡ true) × (is_ready (st x) ≡ false)
      first_waits = ground (arith, waiting_of_mem t x, in_rest x)
