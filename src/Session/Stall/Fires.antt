-- ===== src/Session/Stall/Fires.antt =====
-- When the watchdog fires: not before the timeout has passed in silence, and not much later.
use easy_sftp.Prelude.{
  ℕ, zero, suc, ◌+◌, ◌-◌, ◌≤◌, ◌<◌, ◌==◌, leb, ◌≡◌, ◌≢◌, sym, subst, ◌⊎◌, inl, inr, refl, Bool,
  true, false, arith, Bool-cases,
}
use easy_sftp.Session.Stall.{
  Watchdog, interval, start_stall_watchdog, tick, begin, end, watch, monitor, pass,
}

-- The transfers, the clock and the monitor, in any order; the number is the time of the last tick, and
-- starts with the time at which the watchdog does.
pub data Runs (timeout time : ℕ) : Watchdog → ℕ → Type 0 where
  starts : Runs timeout time (start_stall_watchdog time) time
  ticks : {w : Watchdog} {seen : ℕ} → Runs timeout time w seen → Runs timeout time (tick w) w.now
  begins : {w : Watchdog} {seen : ℕ} → Runs timeout time w seen → Runs timeout time (begin w) w.now
  ends : {w : Watchdog} {seen : ℕ} → Runs timeout time w seen → Runs timeout time (end w) seen
  passes :
      {w : Watchdog} {seen : ℕ} (d : ℕ)
      → Runs timeout time w seen
      → Runs timeout time (pass d w) seen
  watches :
      {w : Watchdog} {seen : ℕ}
      → Runs timeout time w seen
      → Runs timeout time (monitor timeout w) seen

-- The monitor has seen the last tick, or the counter shows it that it has not.
record Inv (w : Watchdog) (seen : ℕ) : Type 0 where
  counted : w.last ≤ w.ticks
  noticed : (w.last < w.ticks) ⊎ (seen ≤ w.last_change)
  clock : (seen ≤ w.now) × (w.last_change ≤ w.now)

start-Inv : (time : ℕ) → Inv (start_stall_watchdog time) time
unfolding start_stall_watchdog
start-Inv time = record { counted = omega arith; noticed = inr (omega arith); clock = omega arith }

tick-Inv : {seen : ℕ} (w : Watchdog) → Inv w seen → Inv (tick w) w.now
unfolding tick
tick-Inv w v = record {
  counted = omega (arith, v.counted);
  noticed = inl (omega (arith, v.counted));
  clock = (omega arith, v.clock.1);
}

begin-Inv : {seen : ℕ} (w : Watchdog) → Inv w seen → Inv (begin w) w.now
unfolding begin tick
begin-Inv w v = record {
  counted = omega (arith, v.counted);
  noticed = inl (omega (arith, v.counted));
  clock = (omega arith, v.clock.1);
}

end-Inv : {seen : ℕ} (w : Watchdog) → Inv w seen → Inv (end w) seen
unfolding end
end-Inv w v = record { counted = v.counted; noticed = v.noticed; clock = v.clock }

pass-Inv : {seen : ℕ} (d : ℕ) (w : Watchdog) → Inv w seen → Inv (pass d w) seen
unfolding pass
pass-Inv d w v = record { counted = v.counted; noticed = v.noticed; clock = omega (arith, v.clock) }

watch-Inv :
    {seen : ℕ} (fired moving long : Bool) (w : Watchdog)
    → Inv w seen
    → Inv (watch fired moving long w) seen
watch-Inv true moving long w v = v
watch-Inv false true long w v = record {
  counted = omega arith;
  noticed = inr v.clock.0;
  clock = (v.clock.0, omega arith);
}
watch-Inv false false true w v = record {
  counted = v.counted;
  noticed = v.noticed;
  clock = v.clock;
}
watch-Inv false false false w v = v

monitor-Inv : {seen : ℕ} (timeout : ℕ) (w : Watchdog) → Inv w seen → Inv (monitor timeout w) seen
unfolding monitor
monitor-Inv timeout w v = watch-Inv _ _ _ w v

Runs-Inv : {timeout time seen : ℕ} {w : Watchdog} → Runs timeout time w seen → Inv w seen
Runs-Inv {time} starts = start-Inv time
Runs-Inv (ticks {w} r) = tick-Inv w (Runs-Inv r)
Runs-Inv (begins {w} r) = begin-Inv w (Runs-Inv r)
Runs-Inv (ends {w} r) = end-Inv w (Runs-Inv r)
Runs-Inv (passes {w} d r) = pass-Inv d w (Runs-Inv r)
Runs-Inv {timeout} (watches {w} r) = monitor-Inv timeout w (Runs-Inv r)

-- In every run of the watchdog, if a round of the monitor fires, some transfer is active and the full
-- timeout has gone by since the last progress or the start.
pub monitor_silence :
    (timeout time seen : ℕ) (w : Watchdog)
    → Runs timeout time w seen
    → w.fired ≡ false
    → (monitor timeout w).fired ≡ true
    → (seen + timeout ≤ w.now) × (0 < w.active)
unfolding monitor
monitor_silence timeout time seen w r quiet fires =
    let v = Runs-Inv r in
    elim v.noticed [ inl unseen ↦ ground (arith, v.counted) | inr known ↦ ground (arith, v.clock) ]

-- `rounds` rounds of the monitor in which no transfer moves.
unfoldable pub silence : ℕ → ℕ → Watchdog → Watchdog
silence timeout zero w = w
silence timeout (suc rounds) w =
    silence timeout rounds (monitor timeout (pass (interval timeout) w))

silence-fired :
    (timeout rounds : ℕ) (w : Watchdog) → w.fired ≡ true → (silence timeout rounds w).fired ≡ true
unfolding silence monitor pass
silence-fired timeout zero w h = h
silence-fired timeout (suc rounds) w h =
    silence-fired timeout rounds (monitor timeout (pass (interval timeout) w)) (rw h refl)

-- What a round does, by the flag of the watchdog after it.
round_cases :
    (timeout : ℕ) (w : Watchdog)
    → 0 < w.active
    → ((monitor timeout w).fired ≡ true)
      ⊎ ((monitor timeout w ≡ record w { last = w.ticks; last_change = w.now })
          × (w.ticks ≢ w.last))
      ⊎ ((monitor timeout w ≡ w) × (w.ticks ≡ w.last) × (w.now - w.last_change < timeout))
unfolding monitor
round_cases timeout w active = elim (Bool-cases w.fired) [
  | inl fired ↦ inl (ground arith)
  | inr quiet ↦ elim (Bool-cases (w.ticks == w.last)) [
    | inr moved ↦ inr (inl (ground arith, ground arith))
    | inl same ↦ elim (Bool-cases (leb timeout (w.now - w.last_change))) [
      | inl long ↦ inl (ground arith)
      | inr short ↦ inr (inr (ground arith, ground arith, ground arith))
    ]
  ]
]

-- `rounds` intervals together.
abbrev total : ℕ → ℕ → ℕ
total zero i = 0
total (suc rounds) i = i + total rounds i

-- Once the last tick is noticed, the rounds that fill the timeout fire.
silence_noticed :
    (timeout rounds : ℕ) (w : Watchdog)
    → 0 < w.active
    → w.ticks ≡ w.last
    → w.last_change ≤ w.now
    → w.now - w.last_change < timeout
    → timeout ≤ (w.now - w.last_change) + total rounds (interval timeout)
    → (silence timeout rounds w).fired ≡ true
unfolding silence pass
silence_noticed timeout zero w active same clock short enough = absurd (omega arith)
silence_noticed timeout (suc rounds) w active same clock short enough =
    let i = interval timeout in
    let next = pass i w in
    elim (round_cases timeout next active) [
      | inl fires ↦ silence-fired timeout rounds (monitor timeout next) fires
      | inr (inl (moves, ticked)) ↦ absurd (ticked same)
      | inr (inr (stays, noticed, still)) ↦
          subst (λ (u : Watchdog). (silence timeout rounds u).fired ≡ true) (sym stays)
            (silence_noticed timeout rounds next active same (omega arith) still (omega arith))
    ]

interval_bound : (timeout : ℕ) → timeout ≤ total 5 (interval timeout)
interval_bound timeout = ground arith

-- With a positive timeout and an active transfer that makes no progress, six rounds of the monitor at
-- its interval fire the watchdog.
pub silence_fires :
    (timeout : ℕ) (w : Watchdog)
    → 0 < timeout
    → 0 < w.active
    → w.last_change ≤ w.now
    → (silence timeout 6 w).fired ≡ true
unfolding silence pass
silence_fires timeout w positive active clock =
    let next = pass (interval timeout) w in
    elim (round_cases timeout next active) [
      | inl fires ↦ silence-fired timeout 5 (monitor timeout next) fires
      | inr (inl (moves, ticked)) ↦
          subst (λ (u : Watchdog). (silence timeout 5 u).fired ≡ true) (sym moves)
            (silence_noticed timeout 5 (record next { last = next.ticks; last_change = next.now })
              active refl (omega arith) (omega arith) (omega (arith, interval_bound timeout)))
      | inr (inr (stays, noticed, still)) ↦
          subst (λ (u : Watchdog). (silence timeout 5 u).fired ≡ true) (sym stays)
            (silence_noticed timeout 5 next active noticed (omega arith) still
              (omega (arith, interval_bound timeout)))
    ]
