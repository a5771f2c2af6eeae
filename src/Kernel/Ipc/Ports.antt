-- ===== src/Kernel/Ipc/Ports.antt =====
-- The loop of `receive` in kernel/ipc.c over the ports of the running process.
use tos_sfsu_fall.Base.{
  ℕ, zero, suc, ◌≡◌, ◌≢◌, ◌≤◌, ◌<◌, refl, Bool, true, not, ◌&&◌, List, [], ◌∷◌, arith, ◌==◌,
  if◌then◌else◌, ◌∈◌, ◌∉◌, length, Bool-cases, inl, inr,
}
use tos_sfsu_fall.Kernel.State.{Ptr, null, Kernel, max_ports, magic_port, done}
use tos_sfsu_fall.Kernel.Ipc.{find_port}
use tos_sfsu_fall.Kernel.Ipc.Chain.{Chain, head_of}

-- The ports of a list, in the order of the `next` fields: real ports, and no more than there are.
pub record IsPortList (k : Kernel) (p : Ptr) (ps : List Ptr) : Type 0 where
  pub chain : Chain (λ t. (k.port t).next) p ps
  pub nulls : null ∉ ps
  pub magics : (t : Ptr) → t ∈ ps → (k.port t).magic ≡ magic_port
  pub few : length ps ≤ max_ports

-- The port is open and somebody waits at it.
abbrev pub has_message : Kernel → Ptr → Bool
has_message k t = (k.port t).opened && not (head_of k t == null)

-- The first such port of a list, or NULL.
abbrev pub first_ready : Kernel → List Ptr → Ptr
first_ready k [] = null
first_ready k (t ∷ ts) = if has_message k t then t else first_ready k ts

find_port-first_fuel :
    (k : Kernel) (fuel : ℕ) (p : Ptr) (ps : List Ptr)
    → Chain (λ t. (k.port t).next) p ps
    → null ∉ ps
    → ((t : Ptr) → t ∈ ps → (k.port t).magic ≡ magic_port)
    → length ps < fuel
    → find_port fuel k p ≡ done (first_ready k ps)
unfolding find_port
find_port-first_fuel k zero p ps c nulls magics few = absurd (omega arith)
find_port-first_fuel k (suc fuel) p [] c nulls magics few = rw c
find_port-first_fuel k (suc fuel) p (t ∷ ts) c nulls magics few = ground (
  arith,
  c.0,
  magics t,
  find_port-first_fuel k fuel (k.port t).next ts c.1 (ground arith) (λ u m. magics u (ground arith))
      (omega arith),
)

-- On a list of at most 40 ports that ends in NULL the loop of `receive` ends, and finds the first
-- port that is open and at which somebody waits, or NULL.
pub find_port-first :
    (k : Kernel) (p : Ptr) (ps : List Ptr)
    → IsPortList k p ps
    → find_port (suc max_ports) k p ≡ done (first_ready k ps)
find_port-first k p ps l =
    find_port-first_fuel k (suc max_ports) p ps l.chain l.nulls l.magics (ground (arith, l.few))

pub first_ready-has_message :
    (k : Kernel) (ps : List Ptr) → first_ready k ps ≢ null → has_message k (first_ready k ps) ≡ true
first_ready-has_message k [] ne = absurd (ne refl)
first_ready-has_message k (t ∷ ts) ne = elim (Bool-cases (has_message k t)) [
  | inl e ↦ rw e e
  | inr e ↦ rw e (first_ready-has_message k ts (rw e at ne))
]
