-- ===== src/Drivers/Tests.antt =====
-- Codes, ticks and events, and each theorem about kernel/keyb.c, kernel/timer.c and kernel/em.c
-- applied to them.
use tos_sfsu_fall.Base.{◌≡◌, refl, true, [], ◌∷◌, List, some, arith, has}
use tos_sfsu_fall.Kernel.State.{done}
use tos_sfsu_fall.Drivers.Keyboard.Typing.{strokes, all_typed, rounds-strokes}
use tos_sfsu_fall.Drivers.Keyboard.Locks.{IsKeys, Ends, keyb_notifier-IsKeys}
use tos_sfsu_fall.Drivers.Keyboard.Alt.{IsAltDown, no_keys, rounds-IsAltDown}
use tos_sfsu_fall.Drivers.Keyboard.{
  Keys, Effect, key, keys₀, keyb_notifier, rounds, locks, pressed, released, new_keystroke,
  get_keycode, small, shfted, capped,
}
use tos_sfsu_fall.Drivers.Timer.{tick, request, ticks_left₀, timer_rounds, timer-wakes}
use tos_sfsu_fall.Drivers.Events.Listeners.{IsListed, interested, em_process-udp}
use tos_sfsu_fall.Drivers.Events.{
  Events, EventListener, events₀, no_listeners, udp_packet_received, to_all, em_process,
}

-- The codes of the keys T, O and S.
tos_typed :
    rounds keys₀ (strokes (0x14 ∷ 0x18 ∷ 0x1f ∷ []))
    ≡ some (keys₀, key b't' ∷ key b'o' ∷ key b's' ∷ [])
unfolding rounds keyb_notifier locks pressed released new_keystroke get_keycode small
tos_typed = refl

-- With Shift down.
tos_shifted :
    rounds (record keys₀ { shift = 1 }) (strokes (0x14 ∷ 0x02 ∷ []))
    ≡ some (record keys₀ { shift = 1 }, key b'T' ∷ key b'!' ∷ [])
unfolding rounds keyb_notifier locks pressed released new_keystroke get_keycode shfted
tos_shifted = refl

-- A cursor key is sent as the character 0.
cursor_up : rounds keys₀ (0xe0 ∷ 0x48 ∷ []) ≡ some (keys₀, key 0 ∷ [])
unfolding rounds keyb_notifier locks pressed released new_keystroke get_keycode
cursor_up = refl

-- With CapsLock on, the key of the apostrophe sends nothing.
capped_apostrophe :
    rounds (record keys₀ { capslock = 1 }) (0x28 ∷ []) ≡ some (record keys₀ { capslock = 1 }, [])
unfolding rounds keyb_notifier locks pressed released new_keystroke get_keycode capped
capped_apostrophe = refl

rounds-strokes_example :
    rounds keys₀ (strokes (0x14 ∷ 0x18 ∷ [])) ≡ some (keys₀, all_typed keys₀ (0x14 ∷ 0x18 ∷ []))
rounds-strokes_example = rounds-strokes keys₀ (0x14 ∷ 0x18 ∷ []) (refl, refl, refl, refl) refl

keys₀-IsKeys : IsKeys keys₀
keys₀-IsKeys = ground arith

keyb_notifier-IsKeys_example : Ends (keyb_notifier keys₀ 0xe1)
keyb_notifier-IsKeys_example =
    keyb_notifier-IsKeys keys₀ 0xe1 keys₀-IsKeys (omega arith) (omega arith)

-- Alt is pressed and released, and then a key is pressed.
rounds-IsAltDown_example :
    (k₁ : Keys) × (out : List Effect) × (rounds (record keys₀ { alt = 1 }) (0xb8 ∷ 0x14 ∷ [])
      ≡ some (k₁, out))
    × IsAltDown k₁
    × (no_keys out ≡ true)
rounds-IsAltDown_example =
    rounds-IsAltDown (record keys₀ { alt = 1 }) (0xb8 ∷ 0x14 ∷ []) (refl, refl, refl) refl

-- Process 3 sleeps for two ticks, while process 5 asks for one.
timer-wakes_example :
    has 3 (timer_rounds ticks_left₀ (request 3 2 ∷ tick ∷ request 5 1 ∷ tick ∷ [])).1 ≡ true
timer-wakes_example =
    timer-wakes ticks_left₀ 3 2 (tick ∷ request 5 1 ∷ tick ∷ []) (omega arith) refl

abbrev pong : EventListener
pong = record { process = 4; proc_port = 6; udp_port = 8080 }

abbrev one_listener : Events
one_listener = record events₀ {
  udp_listeners = pong ∷ no_listeners 19;
  nbr_of_udp_listeners = 1;
  nbr_of_key_listeners = 3;
}

one_listener-IsListed : IsListed (pong ∷ []) one_listener
one_listener-IsListed = record { array = refl; count = refl; bound = omega arith; real = refl }

em_process-udp_example :
    em_process one_listener (udp_packet_received 8080 7)
    ≡ done (one_listener, to_all (udp_packet_received 8080 7) (interested 8080 (pong ∷ [])))
em_process-udp_example = em_process-udp 8080 7 (pong ∷ []) one_listener one_listener-IsListed
