-- ===== src/Drivers/Events.antt =====
-- kernel/em.c: the listeners, and the process that hands events to them.
--
-- An event that is handed on is the port and the message. Where no process listens to the keyboard,
-- the change of the focus divides by zero: exception 0, whose handler stops the machine.
pub mod Listeners
use tos_sfsu_fall.Base.{
  ℕ, zero, suc, ◌+◌, ◌-◌, ◌%◌, ◌≤◌, ◌<◌, ◌≡◌, refl, ◌∙◌, ap, Bool, true, false, not, ◌&&◌, ◌||◌,
  ltb, leb, ◌==◌, if◌then◌else◌, List, [], ◌∷◌, ◌++◌, get_or, set, length, length-set, arith,
  Bool-cases, inl, inr,
}
use tos_sfsu_fall.Kernel.State.{Kernel, Ptr, null, Outcome, done, halt, panic, ◌>>=◌}

abbrev pub max_listeners : ℕ
max_listeners = 20

-- The fields that are used. The port that a keyboard listener leaves unset is 0.
pub record EventListener : Type 0 where
  pub process : Ptr
  pub proc_port : Ptr
  pub udp_port : ℕ

-- `EM_Message`, by its type. The constructor `other` stands for every other type.
pub data EmMessage : Type 0 where
  key_stroke : (key : ℕ) → EmMessage
  udp_packet_received : (port datum : ℕ) → EmMessage
  focus_in focus_out : EmMessage
  other : (event_type : ℕ) → EmMessage

-- The arrays with their counters, and the variable `kboard_focus` of `em_process`.
pub record Events : Type 0 where
  pub udp_listeners : List EventListener
  pub nbr_of_udp_listeners : ℕ
  pub key_listeners : List EventListener
  pub nbr_of_key_listeners : ℕ
  pub kboard_focus : ℕ

abbrev pub no_listener : EventListener
no_listener = record { process = null; proc_port = null; udp_port = 0 }

abbrev pub no_listeners : ℕ → List EventListener
no_listeners zero = []
no_listeners (suc n) = no_listener ∷ no_listeners n

abbrev pub events₀ : Events
events₀ = record {
  udp_listeners = no_listeners max_listeners;
  nbr_of_udp_listeners = 0;
  key_listeners = no_listeners max_listeners;
  nbr_of_key_listeners = 0;
  kboard_focus = 0;
}

-- The entry for the running process.
abbrev pub listener : Kernel → ℕ → EventListener
listener k udp_port = record {
  process = k.active_proc;
  proc_port = (k.pcb k.active_proc).first_port;
  udp_port = udp_port;
}

unfoldable pub em_register_udp_listener : Kernel → ℕ → Events → Events × Bool
em_register_udp_listener k udp_port e =
    if ltb (max_listeners - 1) e.nbr_of_udp_listeners then (e, false) else (
      record e {
        udp_listeners = set e.udp_listeners e.nbr_of_udp_listeners (listener k udp_port);
        nbr_of_udp_listeners = e.nbr_of_udp_listeners + 1;
      },
      true,
    )

unfoldable pub em_register_kboard_listener : Kernel → Events → Events × Bool
em_register_kboard_listener k e =
    if ltb (max_listeners - 1) e.nbr_of_key_listeners then (e, false) else (
      record e {
        key_listeners = set e.key_listeners e.nbr_of_key_listeners (listener k 0);
        nbr_of_key_listeners = e.nbr_of_key_listeners + 1;
      },
      true,
    )

-- The loop over the listeners of UDP ports, up to the first free entry.
unfoldable pub udp_ports : ℕ → List EventListener → List Ptr
udp_ports port [] = []
udp_ports port (l ∷ ls) =
    let others = udp_ports port ls in
    if l.process == null then [] else if l.udp_port == port then l.proc_port ∷ others else others

abbrev pub focused : Events → ℕ → Ptr
focused e i = (get_or e.key_listeners i no_listener).proc_port

abbrev pub key_tab : ℕ
key_tab = 9

abbrev pub to_all : EmMessage → List Ptr → List (Ptr × EmMessage)
to_all m [] = []
to_all m (p ∷ ps) = (p, m) ∷ to_all m ps

-- A round of `em_process`: the messages that it sends, in order.
unfoldable pub em_process : Events → EmMessage → Outcome (Events × List (Ptr × EmMessage))
em_process e (key_stroke key) =
    if key == key_tab
    then if e.nbr_of_key_listeners == 0
      then halt (panic "Fatal exception 0")
      else (let next = (e.kboard_focus + 1) % e.nbr_of_key_listeners in
          done (
            record e { kboard_focus = next },
            (focused e e.kboard_focus, focus_out) ∷ (focused e next, focus_in) ∷ [],
          ))
    else done (e, (focused e e.kboard_focus, key_stroke key) ∷ [])
em_process e (udp_packet_received port datum) =
    done (e, to_all (udp_packet_received port datum) (udp_ports port e.udp_listeners))
em_process e focus_in = halt (panic "UNKNOWN EVENT TYPE")
em_process e focus_out = halt (panic "UNKNOWN EVENT TYPE")
em_process e (other event_type) = halt (panic "UNKNOWN EVENT TYPE")
