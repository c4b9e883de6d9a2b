-- ===== src/Session/Stall.antt =====
-- stallWatchdog of internal/uploader/stall.go: the counters that the transfers move, and the rounds of the
-- monitor. Times are nanoseconds.
pub mod Fires
use easy_sftp.Prelude.{
  ℕ, suc, ◌+◌, ◌-◌, ◌/◌, ◌==◌, ltb, leb, max, Bool, true, false, not, ◌||◌, if◌then◌else◌,
}

-- The counters that the transfers share with the monitor, what the monitor remembers, and the time.
pub record Watchdog : Type 0 where
  pub active : ℕ
  pub ticks : ℕ
  pub fired : Bool
  pub last : ℕ
  pub last_change : ℕ
  pub now : ℕ

-- The interval of the monitor's ticker.
abbrev pub interval : ℕ → ℕ
interval timeout = if ltb (timeout / 4) 100000000 then 100000000 else timeout / 4

-- startStallWatchdog, at the given time.
unfoldable pub start_stall_watchdog : ℕ → Watchdog
start_stall_watchdog time = record {
  active = 0;
  ticks = 0;
  fired = false;
  last = 0;
  last_change = time;
  now = time;
}

-- tick
unfoldable pub tick : Watchdog → Watchdog
tick w = record w { ticks = suc w.ticks }

-- begin
unfoldable pub begin : Watchdog → Watchdog
unfolding tick
begin w = let w' = tick w in record w' { active = suc w'.active }

-- end
unfoldable pub end : Watchdog → Watchdog
end w = record w { active = w.active - 1 }

-- One round, by the tests that it makes: whether the monitor has fired and so returned, whether a transfer
-- has moved or none is active, and whether the silence is as long as the timeout.
abbrev pub watch : Bool → Bool → Bool → Watchdog → Watchdog
watch true moving long w = w
watch false true long w = record w { last = w.ticks; last_change = w.now }
watch false false true w = record w { fired = true }
watch false false false w = w

-- One round of monitor, when its ticker fires.
unfoldable pub monitor : ℕ → Watchdog → Watchdog
monitor timeout w =
    watch w.fired (w.active == 0 || not (w.ticks == w.last)) (leb timeout (w.now - w.last_change)) w

-- The time passes.
unfoldable pub pass : ℕ → Watchdog → Watchdog
pass time w = record w { now = w.now + time }
