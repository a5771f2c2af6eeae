-- ===== src/Drivers/Timer.antt =====
-- kernel/timer.c: the countdown table of the timer process, and the moment at which it wakes a client.
--
-- A process is its index in `pcb[]`, and a count is a word of 32 bits. The replies of a round are the
-- list of processes that it wakes.
use tos_sfsu_fall.Base.{
  ℕ, zero, suc, ◌+◌, ◌-◌, ◌<◌, ◌≡◌, refl, ◌∙◌, ap, Bool, true, false, not, ◌&&◌, ltb, leb, ◌==◌,
  if◌then◌else◌, List, [], ◌∷◌, ◌++◌, get_or, set, has, has-append, length, arith,
}
use tos_sfsu_fall.Kernel.State.{max_procs}

-- What `timer_process` receives: the message of the notifier, or a request of a client.
pub data TimerMessage : Type 0 where
  tick : TimerMessage
  request : (sender num_of_ticks : ℕ) → TimerMessage

-- `ticks_left` at the start.
abbrev pub no_ticks : ℕ → List ℕ
no_ticks zero = []
no_ticks (suc n) = 0 ∷ no_ticks n

abbrev pub ticks_left₀ : List ℕ
ticks_left₀ = no_ticks max_procs

-- The loop over `ticks_left` from index `i` on: the counts behind it, and the replies.
unfoldable pub count_down : (i : ℕ) → List ℕ → List ℕ × List ℕ
count_down i [] = ([], [])
count_down i (left ∷ ticks_left) =
    let (others, woken) = count_down (suc i) ticks_left in
    if left == 0
    then (left ∷ others, woken)
    else if left - 1 == 0
    then ((left - 1) ∷ others, i ∷ woken)
    else ((left - 1) ∷ others, woken)

unfoldable pub timer_process : List ℕ → TimerMessage → List ℕ × List ℕ
timer_process ticks_left tick = count_down 0 ticks_left
timer_process ticks_left (request sender num_of_ticks) = (set ticks_left sender num_of_ticks, [])

-- The rounds of `timer_process`, and all its replies.
unfoldable pub timer_rounds : List ℕ → List TimerMessage → List ℕ × List ℕ
timer_rounds ticks_left [] = (ticks_left, [])
timer_rounds ticks_left (msg ∷ msgs) =
    let (ticks_left₁, woken) = timer_process ticks_left msg in
    let (ticks_left₂, more) = timer_rounds ticks_left₁ msgs in (ticks_left₂, woken ++ more)

later : (i j : ℕ) (ts : List ℕ) → i < j → has i (count_down j ts).1 ≡ false
unfolding count_down
later i j [] h = refl
later i j (t ∷ ts) h = ground (arith, later i (suc j) ts (omega arith), h)

count_down-left : (j i : ℕ) (ts : List ℕ) → get_or (count_down j ts).0 i 0 ≡ get_or ts i 0 - 1
unfolding count_down
count_down-left j i [] = omega arith
count_down-left j zero (t ∷ ts) = ground arith
count_down-left j (suc i) (t ∷ ts) = ground (arith, count_down-left (suc j) i ts)

count_down-wakes : (j i : ℕ) (ts : List ℕ) → has (j + i) (count_down j ts).1 ≡ (get_or ts i 0 == 1)
unfolding count_down
count_down-wakes j i [] = refl
count_down-wakes j zero (t ∷ ts) = ground (arith, later (j + 0) (suc j) ts (omega arith))
count_down-wakes j (suc i) (t ∷ ts) = ground (arith, count_down-wakes (suc j) i ts)

-- The ticks among the messages.
abbrev pub ticks : List TimerMessage → ℕ
ticks [] = 0
ticks (tick ∷ msgs) = suc (ticks msgs)
ticks (request sender n ∷ msgs) = ticks msgs

-- A process is in `sleep`: none of the messages is a request of it.
abbrev pub sleeps : ℕ → List TimerMessage → Bool
sleeps i [] = true
sleeps i (tick ∷ msgs) = sleeps i msgs
sleeps i (request sender n ∷ msgs) = not (sender == i) && sleeps i msgs

set-other : (ts : List ℕ) (j i v : ℕ) → (j == i) ≡ false → get_or (set ts j v) i 0 ≡ get_or ts i 0
set-other [] j i v h = refl
set-other (t ∷ ts) zero zero v h = absurd (ground (arith, h))
set-other (t ∷ ts) zero (suc i) v h = refl
set-other (t ∷ ts) (suc j) zero v h = refl
set-other (t ∷ ts) (suc j) (suc i) v h = set-other ts j i v (ground (arith, h))

set-same : (ts : List ℕ) (i v : ℕ) → i < length ts → get_or (set ts i v) i 0 ≡ v
set-same [] i v h = absurd (omega (arith, h))
set-same (t ∷ ts) zero v h = refl
set-same (t ∷ ts) (suc i) v h = set-same ts i v (omega (arith, h))

timer_rounds-wakes :
    (ts : List ℕ) (i : ℕ) (msgs : List TimerMessage)
    → sleeps i msgs ≡ true
    → has i (timer_rounds ts msgs).1 ≡ (ltb 0 (get_or ts i 0) && leb (get_or ts i 0) (ticks msgs))
unfolding timer_rounds timer_process
timer_rounds-wakes ts i [] s = ground arith
timer_rounds-wakes ts i (tick ∷ msgs) s = ground (
  arith,
  has-append i (count_down 0 ts).1 (timer_rounds (count_down 0 ts).0 msgs).1,
  count_down-wakes 0 i ts,
  count_down-left 0 i ts,
  timer_rounds-wakes (count_down 0 ts).0 i msgs s,
)
timer_rounds-wakes ts i (request sender n ∷ msgs) s =
    let other : (sender == i) ≡ false = ground (arith, s) in
    let rest : sleeps i msgs ≡ true = ground (arith, s) in
    timer_rounds-wakes (set ts sender n) i msgs rest
    ∙ ap (λ v. ltb 0 v && leb v (ticks msgs)) (set-other ts sender i n other)

-- A process of the table that asks for a number of ticks is woken, while it sleeps and whatever the
-- others ask for, once that many ticks have come and not before, if the number is not 0; with 0 it is
-- never woken.
pub timer-wakes :
    (ts : List ℕ) (i n : ℕ) (msgs : List TimerMessage)
    → i < length ts
    → sleeps i msgs ≡ true
    → has i (timer_rounds ts (request i n ∷ msgs)).1 ≡ (ltb 0 n && leb n (ticks msgs))
unfolding timer_rounds timer_process
timer-wakes ts i n msgs h s =
    timer_rounds-wakes (set ts i n) i msgs s
    ∙ ap (λ v. ltb 0 v && leb v (ticks msgs)) (set-same ts i n h)
