-- ===== src/Kernel/Dispatch/Choice.antt =====
-- `dispatcher` and `resign` of kernel/dispatch.c: the choice of the process that runs next.
use tos_sfsu_fall.Base.{
  ℕ, ◌≡◌, ◌≢◌, ◌<◌, ◌≤◌, refl, ap, ◌∙◌, true, false, List, [], ◌∷◌, arith, ◌==◌, if◌then◌else◌, bit,
  ◌∈◌, Bool-cases, ==_iff, inl, inr,
}
use tos_sfsu_fall.Kernel.State.{Ptr, null, Kernel, done, halt, failed_assertion}
use tos_sfsu_fall.Kernel.Dispatch.{dispatcher, pick, resign}
use tos_sfsu_fall.Kernel.Dispatch.Table.{table, table-highest, table-zero}
use tos_sfsu_fall.Kernel.Dispatch.Ring.{Ring, Ring-rotate, around, has-around, Linked}
use tos_sfsu_fall.Kernel.Dispatch.Inv.{next, prev, priority, is_cons, Levels, IsReady}

abbrev pub head_or : Ptr → List Ptr → Ptr
head_or d [] = d
head_or d (x ∷ xs) = x

-- Level `i` holds a process, and no level above it does.
pub record IsHighest (q : Levels) (i : ℕ) : Type 0 where
  pub small : i < 8
  pub held : is_cons (q i) ≡ true
  pub above : (j : ℕ) → i < j → q j ≡ []

-- The running process, queued or just taken out, points to a queued one of its level, if there is
-- one.
abbrev pub Follows : Kernel → Levels → Type 0
Follows k q =
    is_cons (q (priority k k.active_proc)) ≡ true
    → next k k.active_proc ∈ q (priority k k.active_proc)

head-mem : (n p : Ptr → Ptr) (h : Ptr) (xs : List Ptr) → Ring n p h xs → is_cons xs ≡ true → h ∈ xs
head-mem n p h [] r c = ground arith
head-mem n p h (x ∷ xs) r c = ground arith

nil_of : (xs : List Ptr) → is_cons xs ≡ false → xs ≡ []
nil_of [] h = refl
nil_of (x ∷ xs) h = ground arith

is_cons_of_mem : (a : Ptr) (xs : List Ptr) → a ∈ xs → is_cons xs ≡ true
is_cons_of_mem a [] m = ground arith
is_cons_of_mem a (x ∷ xs) m = refl

mem_of_is_cons : (xs : List Ptr) → is_cons xs ≡ true → head_or null xs ∈ xs
mem_of_is_cons [] h = ground arith
mem_of_is_cons (x ∷ xs) h = ground arith

next-head_or :
    (n p : Ptr → Ptr) (a b : Ptr) (xs : List Ptr) → Linked n p a xs b → n a ≡ head_or b xs
next-head_or n p a b [] l = l.0
next-head_or n p a b (x ∷ xs) l = l.0

Ring-head : (n p : Ptr → Ptr) (h : Ptr) (xs : List Ptr) → Ring n p h xs → h ≡ head_or null xs
Ring-head n p h [] r = r
Ring-head n p h (x ∷ xs) r = r.0

head_or-mem : (a : Ptr) (xs : List Ptr) → head_or a xs ∈ (a ∷ xs)
head_or-mem a [] = ground arith
head_or-mem a (x ∷ xs) = ground arith

module _ (k : Kernel) (q : Levels) (r : IsReady k q) where
  open r use {rings, bits, byte, members, distinct}

  abbrev level : ℕ
  level = table k.ready_procs

  small_of_held : (j : ℕ) → is_cons (q j) ≡ true → j < 8
  small_of_held j h = (members j (head_or null (q j)) (mem_of_is_cons (q j) h)).small

  zero-bit : (i : ℕ) → i < 8 → bit 0 i ≡ false
  zero-bit i h = ground arith

  nonzero : (j : ℕ) → is_cons (q j) ≡ true → k.ready_procs ≢ 0
  nonzero j held e =
      ground (arith, bits j (small_of_held j held), zero-bit j (small_of_held j held))

  -- Where some level holds a process, the table gives the highest such level.
  pub table-IsHighest : (j : ℕ) → is_cons (q j) ≡ true → IsHighest q level
  table-IsHighest j held =
      let (small, set, clear) = table-highest k.ready_procs byte (nonzero j held) in
      record {
        small = small;
        held = ground (arith, bits level small);
        above = λ i lt. nil_of (q i) (none_above i lt (clear i lt));
      }
    where
      none_above :
          (i : ℕ) → level < i → (i < 8 → bit k.ready_procs i ≡ false) → is_cons (q i) ≡ false
      none_above i lt clear = elim (Bool-cases (is_cons (q i))) [
        | inl c ↦ ground (arith, bits i (small_of_held i c), clear (small_of_held i c))
        | inr c ↦ c
      ]

  -- Where the ready queues are well formed and all empty, the assertion of `dispatcher` fails.
  pub dispatcher-empty : ((j : ℕ) → q j ≡ []) → dispatcher k ≡ halt failed_assertion
  unfolding dispatcher
  dispatcher-empty none_held = elim (Bool-cases (k.ready_procs == 0)) [
    | inl e ↦ rw ((==_iff k.ready_procs 0).0 e, table-zero)
    | inr e ↦
        let (small, set, clear) = table-highest k.ready_procs byte (ground arith) in
        ground (arith, bits level small, none_held level)
  ]

  pick-mem : Follows k q → (i : ℕ) → is_cons (q i) ≡ true → pick k i ∈ q i
  unfolding pick
  pick-mem follows i held =
      ground (arith, head-mem (next k) (prev k) (k.ready_queue i) (q i) (rings i) held)

  -- Where some level holds a process, the dispatcher picks at the highest such level.
  pub dispatcher-pick : (j : ℕ) → is_cons (q j) ≡ true → dispatcher k ≡ done (pick k level)
  unfolding dispatcher
  dispatcher-pick j held = ground (arith, (table-IsHighest j held).small)

  -- `resign` gives the processor to a queued process, and no queued process stands at a higher
  -- level than the one chosen.
  pub resign_lem :
      Follows k q
      → (j : ℕ) → is_cons (q j) ≡ true
      → (p : Ptr) × (resign k ≡ done (record k { active_proc = p }))
        × (p ∈ q (priority k p))
        × ((i a : ℕ) → a ∈ q i → i ≤ priority k p)
  unfolding resign
  resign_lem follows j held =
      let high = table-IsHighest j held in
      let mem = pick-mem follows level high.held in
      (
        pick k level,
        rw (dispatcher-pick j held),
        rw (members level (pick k level) mem).level mem,
        λ i a m. ground (arith, members level (pick k level) mem, high.above i),
      )

  next-active :
      k.active_proc ∈ q (priority k k.active_proc)
      → next k k.active_proc
        ≡ head_or k.active_proc (around k.active_proc (q (priority k k.active_proc)))
  next-active m = next-head_or (next k) (prev k) _ _ _ (
      Ring-rotate (next k) (prev k) k.active_proc _ (q (priority k k.active_proc))
        (rings (priority k k.active_proc)) m)

  -- The running process is queued: it follows the rule.
  pub Follows-of_mem : k.active_proc ∈ q (priority k k.active_proc) → Follows k q
  Follows-of_mem m held = ground (
    arith,
    next-active m,
    head_or-mem k.active_proc (around k.active_proc (q (priority k k.active_proc))),
    has-around k.active_proc (next k k.active_proc) (q (priority k k.active_proc)) m,
  )

  -- Round robin, where the ready queues are well formed and the running process is queued: there
  -- is a highest level that holds a process, and the dispatcher gives, if it is the level of the
  -- running process, the process behind it in the round (itself if it is alone), and otherwise the
  -- first process of that level.
  pub dispatcher-round_robin :
      k.active_proc ∈ q (priority k k.active_proc)
      → (i : ℕ) × IsHighest q i
        × (dispatcher k
            ≡ done (
                if i == priority k k.active_proc
                then head_or k.active_proc (around k.active_proc (q i))
                else head_or null (q i)))
  unfolding pick
  dispatcher-round_robin m =
      let held = is_cons_of_mem k.active_proc (q (priority k k.active_proc)) m in
      (
        level,
        table-IsHighest (priority k k.active_proc) held,
        dispatcher-pick (priority k k.active_proc) held
            ∙ ap done (
                ground (
                  arith,
                  next-active m,
                  Ring-head (next k) (prev k) (k.ready_queue level) (q level) (rings level),
                  ==_iff level (priority k k.active_proc),
                )),
      )
