-- ===== src/AgenticLoop/Scheduler.antt =====
-- `start` and `stop` of lib/loop/agentic-loop.ts, with what they install outside the module: interval
-- timers, and `wakeup` listeners on the process-wide emitter.
use one_crew.Common.{
  ℕ, ◌+◌, ◌-◌, ◌≡◌, refl, Bool, true, false, ◌||◌, Option, none, some, List, [], ◌∷◌, arith,
  if◌then◌else◌,
}

-- `AI_AUTO_TICK` and `AI_AGENT_INTERVAL_MS`.
pub record LoopEnv : Type 0 where
  pub auto_tick : Bool
  pub interval_ms : ℕ

-- The module's `timer` (the interval it runs at) and `wakeupListener` (whether one is held), and how
-- many timers and listeners of the module are alive in the process.
pub record Scheduler : Type 0 where
  pub timer : Option ℕ
  pub holds_listener : Bool
  pub intervals : ℕ
  pub listeners : ℕ

abbrev pub is_some : Option ℕ → Bool
is_some none = false
is_some (some _) = true

clear_timer : Scheduler → Scheduler
clear_timer s =
    if is_some s.timer then record s { timer = none; intervals = s.intervals - 1 } else s

detach_listener : Scheduler → Scheduler
detach_listener s =
    if s.holds_listener then record s { holds_listener = false; listeners = s.listeners - 1 } else s

unfoldable pub stop : Scheduler → Scheduler
unfolding clear_timer detach_listener
stop s = detach_listener (clear_timer s)

install_timer : LoopEnv → Scheduler → Scheduler
install_timer env s =
    if env.auto_tick
    then record s { timer = some env.interval_ms; intervals = s.intervals + 1 }
    else s

attach_listener : Scheduler → Scheduler
attach_listener s = record s { holds_listener = true; listeners = s.listeners + 1 }

unfoldable pub start : LoopEnv → Scheduler → Scheduler
unfolding install_timer attach_listener stop
start env s =
    let s' = if is_some s.timer || s.holds_listener then stop s else s in
    attach_listener (install_timer env s')

pub data Command : Type 0 where
  starts : LoopEnv → Command
  stops : Command

unfoldable pub obey : Scheduler → List Command → Scheduler
obey s [] = s
obey s (starts env ∷ cs) = obey (start env s) cs
obey s (stops ∷ cs) = obey (stop s) cs

-- What is alive in the process is what the module holds on to.
pub record IsTidy (s : Scheduler) : Type 0 where
  pub timers_held : s.intervals ≡ (if is_some s.timer then 1 else 0)
  pub listeners_held : s.listeners ≡ (if s.holds_listener then 1 else 0)

start-IsTidy : (env : LoopEnv) (s : Scheduler) → IsTidy s → IsTidy (start env s)
unfolding start
start-IsTidy env s h = ground arith

stop-IsTidy : (s : Scheduler) → IsTidy s → IsTidy (stop s)
unfolding stop
stop-IsTidy s h = ground arith

obey-IsTidy : (s : Scheduler) (cs : List Command) → IsTidy s → IsTidy (obey s cs)
unfolding obey
obey-IsTidy s [] h = h
obey-IsTidy s (starts env ∷ cs) h = obey-IsTidy (start env s) cs (start-IsTidy env s h)
obey-IsTidy s (stops ∷ cs) h = obey-IsTidy (stop s) cs (stop-IsTidy s h)

abbrev pub unloaded : Scheduler
unloaded = record { timer = none; holds_listener = false; intervals = 0; listeners = 0 }

-- After any sequence of starts and stops, a start leaves exactly one listener alive, and one timer if
-- ticking is on and none otherwise; a stop leaves neither.
pub one_listener_alive :
    (cs : List Command) (env : LoopEnv)
    → ((start env (obey unloaded cs)).listeners ≡ 1)
      × ((start env (obey unloaded cs)).intervals ≡ (if env.auto_tick then 1 else 0))
      × ((stop (obey unloaded cs)).listeners ≡ 0)
      × ((stop (obey unloaded cs)).intervals ≡ 0)
unfolding start stop
one_listener_alive cs env =
    let tidy = obey-IsTidy unloaded cs (record { timers_held = refl; listeners_held = refl }) in
    ground arith
