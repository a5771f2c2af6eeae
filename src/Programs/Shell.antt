-- ===== src/Programs/Shell.antt =====
-- kernel/shell.c: the line that is edited, and the command that is chosen.
--
-- The buffer is a list of 80 bytes, with what an earlier command left behind the 0. What a command
-- then does is a value of `Action`; that is a call of another part of the system.
pub mod Edit
pub mod Command
use tos_sfsu_fall.Base.{
  ℕ, zero, suc, ◌+◌, ◌-◌, Bool, true, false, not, ◌&&◌, ltb, ◌==◌, if◌then◌else◌, List, [], ◌∷◌,
  ◌++◌, set, drop, codes,
}
use tos_sfsu_fall.Drivers.Events.{
  EmMessage, key_stroke, udp_packet_received, focus_in, focus_out, other,
}

-- The text of a buffer, up to the 0.
abbrev pub text_of : List ℕ → List ℕ
text_of [] = []
text_of (c ∷ s) = if c == 0 then [] else c ∷ text_of s

-- Whether the buffer `s1` starts with the word `s2`.
unfoldable pub is_command : (s1 s2 : List ℕ) → Bool
is_command s1 [] = true
is_command [] (c ∷ s2) = false
is_command (a ∷ s1) (c ∷ s2) = let more = is_command s1 s2 in if a == c then more else false

pub data Action : Type 0 where
  print_all_processes clear_window run_pacman run_train : Action
  pacman_running train_running : Action
  set_train_speed : List ℕ → Action
  ne_send_udp ne_config init_pong : List ℕ → Action
  ne_test_transmit start_fireworks pong_usage init_chat test_vga about help syntax_error : Action

-- The variables `already_run` of the two functions that start a program.
pub record Started : Type 0 where
  pub pacman : Bool
  pub train : Bool

unfoldable pub run_train_app : Started → Started × Action
run_train_app s = if s.train then (s, train_running) else (record s { train = true }, run_train)

unfoldable pub run_pacman_app : Started → Started × Action
run_pacman_app s =
    if s.pacman then (s, pacman_running) else (record s { pacman = true }, run_pacman)

-- The tests of `process_command`, in their order. The second test for `clear` is never reached.
unfoldable pub process_command : Started → (command : List ℕ) → Started × Action
process_command s command =
    if is_command command (codes "ps")
    then (s, print_all_processes)
    else if is_command command (codes "clear")
    then (s, clear_window)
    else if is_command command (codes "pacman")
    then run_pacman_app s
    else if is_command command (codes "train")
    then run_train_app s
    else if is_command command (codes "go")
    then (s, set_train_speed (codes "4"))
    else if is_command command (codes "stop")
    then (s, set_train_speed (codes "0"))
    else if is_command command (codes "rev")
    then (s, set_train_speed (codes "D"))
    else if is_command command (codes "sendudp")
    then (s, ne_send_udp (text_of (drop 8 command)))
    else if is_command command (codes "send")
    then (s, ne_test_transmit)
    else if is_command command (codes "ne")
    then (s, ne_config (text_of (drop 3 command)))
    else if is_command command (codes "fireworks")
    then (s, start_fireworks)
    else if is_command command (codes "pong ")
    then (s, init_pong (text_of (drop 5 command)))
    else if is_command command (codes "pong")
    then (s, pong_usage)
    else if is_command command (codes "chat")
    then (s, init_chat)
    else if is_command command (codes "vga")
    then (s, test_vga)
    else if is_command command (codes "clear")
    then (s, clear_window)
    else if is_command command (codes "about")
    then (s, about)
    else if is_command command (codes "help")
    then (s, help)
    else (s, syntax_error)

-- The variables of `shell_process` while a line is read.
pub record Line : Type 0 where
  pub buffer : List ℕ
  pub i : ℕ
  pub process_input : Bool

-- The width of `shell_wnd`.
abbrev pub shell_width : ℕ
shell_width = 40

-- What a message makes the shell show: characters, or another cursor.
pub data Shown : Type 0 where
  echo : List ℕ → Shown
  active inactive : Shown

-- `case EM_EVENT_KEY_STROKE` of the loop of `shell_process`.
unfoldable pub shell_key : Line → (ch : ℕ) → Line × List Shown
shell_key l ch =
    if ch == 8
    then if l.i == 0 then (l, []) else (record l { i = l.i - 1 }, echo (8 ∷ []) ∷ [])
    else if ch == 13
    then (record l { buffer = set l.buffer l.i 0; process_input = false }, echo (codes "\n") ∷ [])
    else if l.i == shell_width
    then (l, echo (ch ∷ []) ∷ [])
    else (record l { buffer = set l.buffer l.i ch; i = l.i + 1 }, echo (ch ∷ []) ∷ [])

-- One round of the inner loop.
unfoldable pub shell_message : Line → EmMessage → Line × List Shown
shell_message l focus_in = (l, active ∷ [])
shell_message l focus_out = (l, inactive ∷ [])
shell_message l (key_stroke ch) = shell_key l ch
shell_message l (udp_packet_received port datum) = (l, [])
shell_message l (other event_type) = (l, [])

-- The inner loop, for the messages that come: the line, what is shown, and the messages left.
unfoldable pub read_line : Line → List EmMessage → Line × List Shown × List EmMessage
read_line l [] = (l, [], [])
read_line l (m ∷ ms) =
    let (l₁, out) = shell_message l m in
    let (l₂, more, left) = read_line l₁ ms in
    if l.process_input then (l₂, out ++ more, left) else (l, [], m ∷ ms)
