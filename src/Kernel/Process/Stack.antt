-- ===== src/Kernel/Process/Stack.antt =====
-- The stack that `create_process` of kernel/process.c lays out for a new process.
use tos_sfsu_fall.Base.{
  ℕ, suc, ◌+◌, ◌-◌, ◌*◌, ◌^◌, ◌≡◌, ◌<◌, ◌≤◌, refl, ◌∙◌, Bool, true, List, [], ◌∷◌, length, arith,
  if◌then◌else◌, ltb, ◌&&◌, ap, ==_refl,
}
use tos_sfsu_fall.Kernel.State.{Kernel, max_procs, update}
use tos_sfsu_fall.Kernel.Memory.{Memory, poke_l, longs, peek_l-poke_l, longs-poke_l_above}
use tos_sfsu_fall.Kernel.Process.{push_all, initial_stack, write_stack, stack_top, code_selector}

abbrev pub pushed : List ℕ → List ℕ → List ℕ
pushed [] acc = acc
pushed (x ∷ xs) acc = pushed xs (x ∷ acc)

-- Every value fits a machine word.
abbrev pub all_longs : List ℕ → Bool
all_longs [] = true
all_longs (x ∷ xs) = ltb x (2 ^ 32) && all_longs xs

-- The number of longs above the stack pointer, after the values are pushed on `n` longs.
abbrev pushes : List ℕ → ℕ → ℕ
pushes [] n = n
pushes (x ∷ xs) n = pushes xs (suc n)

top_long :
    (m : Memory) (esp n x : ℕ)
    → x < 2 ^ 32
    → 4 ≤ esp
    → longs (suc n) (poke_l m (esp - 4) x) (esp - 4) ≡ x ∷ longs n m esp
top_long m esp n x h fits = rw (
  peek_l-poke_l m (esp - 4) x h,
  back,
  longs-poke_l_above n m (esp - 4) esp x (omega (arith, back)),
)
  where
    back : esp - 4 + 4 ≡ esp
    back = omega (arith, fits)

push_all-longs :
    (m : Memory) (esp n : ℕ) (xs : List ℕ)
    → all_longs xs ≡ true
    → 4 * length xs ≤ esp
    → longs (pushes xs n) (push_all m esp xs).0 (push_all m esp xs).1 ≡ pushed xs (longs n m esp)
unfolding push_all
push_all-longs m esp n [] h fits = refl
push_all-longs m esp n (x ∷ xs) h fits =
    push_all-longs (poke_l m (esp - 4) x) (esp - 4) (suc n) xs (ground (arith, h)) (omega arith)
    ∙ ap (pushed xs) (top_long m esp n x (ground (arith, h)) (omega arith))

push_all-esp : (m : Memory) (esp : ℕ) (xs : List ℕ) → (push_all m esp xs).1 ≡ esp - 4 * length xs
unfolding push_all
push_all-esp m esp [] = omega arith
push_all-esp m esp (x ∷ xs) = push_all-esp (poke_l m (esp - 4) x) (esp - 4) xs ∙ omega arith

abbrev stack_of : Kernel → (p entry param : ℕ) → Memory × ℕ
stack_of k p entry param =
    push_all k.memory (stack_top p) (initial_stack k.interrupts_initialized entry param p)

write_stack-stack :
    (k : Kernel) (p entry param : ℕ)
    → ((write_stack k p entry param).memory ≡ (stack_of k p entry param).0)
      × (((write_stack k p entry param).pcb p).esp ≡ (stack_of k p entry param).1)
unfolding write_stack
write_stack-stack k p entry param = (refl, rw (update, ==_refl p))

-- For one of the 20 PCBs, and an entry point and a parameter of 32 bits, the saved stack pointer
-- of the new process is 52 below the top of its stack and points at seven registers, all zero,
-- then at the entry point, the code selector, the flags, a return address of zero, the process
-- itself and its parameter.
pub write_stack-longs :
    (k : Kernel) (p entry param : ℕ)
    → p ≤ max_procs
    → entry < 2 ^ 32
    → param < 2 ^ 32
    → (longs 13 (write_stack k p entry param).memory ((write_stack k p entry param).pcb p).esp
        ≡ 0
          ∷ 0
          ∷ 0
          ∷ 0
          ∷ 0
          ∷ 0
          ∷ 0
          ∷ entry
          ∷ code_selector
          ∷ (if k.interrupts_initialized then 512 else 0)
          ∷ 0
          ∷ p
          ∷ param
          ∷ [])
      × (((write_stack k p entry param).pcb p).esp ≡ stack_top p - 52)
write_stack-longs k p entry param few e_small p_small = (
  rw ((write_stack-stack k p entry param).0, (write_stack-stack k p entry param).1)
      (push_all-longs k.memory (stack_top p) 0
        (initial_stack k.interrupts_initialized entry param p) small (omega arith)),
  (write_stack-stack k p entry param).1 ∙ push_all-esp k.memory (stack_top p) _,
)
  where
    small : all_longs (initial_stack k.interrupts_initialized entry param p) ≡ true
    small = ground arith
