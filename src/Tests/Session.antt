-- ===== src/Tests/Session.antt =====
-- Runs of the pool of connections, the loop around an operation, the backoff and the watchdog.
use easy_sftp.Prelude.{
  ℕ, zero, suc, ◌+◌, ◌*◌, ◌≤◌, ◌<◌, ◌≡◌, ◌↔◌, refl, Bool, true, false, List, [], ◌∷◌, none, some,
  Result, ok, err, arith, length, get_elem?, Bytes, codes, eq_bytes_refl,
}
use Prim.Native.Nat.{◌^◌}
use easy_sftp.Strings.{sort_strings, split, join_parts}
use easy_sftp.SlashPath.{dir}
use easy_sftp.Remote.Dirs.{contains, leaf_dirs}
use easy_sftp.Remote.Delete.{Answer, done, conn_error, not_exist, permission, failure}
use easy_sftp.Remote.Create.{Maker, create_remote_dirs, make_leaves, make_leaf}
use easy_sftp.Remote.Create.Made.{MakerPromises, create_remote_dirs-makes}
use easy_sftp.Session.Do.{Line, do_op}
use easy_sftp.Session.Do.Outlasts.{do_op-outlasts}
use easy_sftp.Session.Pool.{
  Pool, Tuning, connected, dial_failed, serves, clamp_connections, new_pool, set_spread, is_seen,
  acquire, land, open_slots, each_conn, see,
}
use easy_sftp.Session.Pool.Steps.{spreads, claims, lands, here, next}
use easy_sftp.Session.Pool.Invariant.{Inv}
use easy_sftp.Session.Pool.Budget.{new_pool-Steps-Inv, acquire-no_dial}
use easy_sftp.Session.Pool.Visits.{AllDistinct}
use easy_sftp.Session.Pool.Closed.{each_conn_iff}
use easy_sftp.Session.Backoff.{backoff_base, retry_backoff, second, retry_backoff_bounds}
use easy_sftp.Session.Stall.{Watchdog, start_stall_watchdog, begin, tick, monitor, pass}
use easy_sftp.Session.Stall.Fires.{
  starts, begins, passes, watches, monitor_silence, silence, silence_fires,
}

abbrev automatic : Tuning
automatic = record { fixed_connections = 0; ceiling = 0 }

-- Four slots, a spread of three, and the second slot is being dialed.
abbrev claimed : Pool
claimed = (acquire 1 (set_spread automatic 3 (new_pool 3))).0

claimed_busy : get_elem? claimed.dialing 1 ≡ some true
unfolding acquire set_spread clamp_connections new_pool
claimed_busy = refl

new_pool-Steps-Inv_example : Inv 2 automatic (land automatic 1 dial_failed claimed)
new_pool-Steps-Inv_example =
    new_pool-Steps-Inv 3 (land automatic 1 dial_failed claimed)
      (next (next (next here (spreads 3)) (claims 1)) (lands 1 dial_failed claimed_busy))

each_conn_iff_example :
    ((is_seen (each_conn (land automatic 1 connected claimed)) 1 ≡ true)
      ↔ (1 < length (land automatic 1 connected claimed).heap))
    × AllDistinct (each_conn (land automatic 1 connected claimed))
each_conn_iff_example =
    each_conn_iff {retries = 2} 3 (land automatic 1 connected claimed) 1
      (next (next (next here (spreads 3)) (claims 1)) (lands 1 connected claimed_busy))

-- After the server refused the second connection of an automatic count.
abbrev refused_pool : Pool
refused_pool = record {
  heap = record { gen = 1; redialing = false } ∷ [];
  conns = some 0 ∷ some 0 ∷ none ∷ [];
  dialing = false ∷ false ∷ false ∷ [];
  spread = 1;
  refused = true;
  reconnects = 1;
}

refused_pool-Inv : Inv 2 automatic refused_pool
unfolding open_slots see
refused_pool-Inv = record {
  first = refl;
  fits = tt;
  held = omega arith;
  spread_pos = omega arith;
  spread_within = omega arith;
  budget = omega arith;
  budget_within = omega arith;
  pulled_in = λ r a. omega arith;
}

acquire-no_dial_example :
    (c : ℕ) × (acquire 2 refused_pool ≡ (refused_pool, serves c)) × (c < length refused_pool.heap)
acquire-no_dial_example =
    acquire-no_dial {retries = 2} {tuning = automatic} 2 refused_pool refused_pool-Inv refl refl

-- A connection that is lost as often as the state says.
abbrev flaky : ℕ → ℕ × Result Answer (Unit {0})
flaky zero = (0, err not_exist)
flaky (suc n) = (n, err conn_error)

abbrev lost : Answer → Bool
lost done = false
lost conn_error = true
lost not_exist = false
lost permission = false
lost failure = false

abbrev redialed : Line ℕ
redialed = record { has_fired = λ s. false; redial = λ s. (s, true) }

flaky_loses : (s : ℕ) (e : Answer) → (flaky s).1 ≡ err e → lost e ≡ true → (flaky s).0 < s
flaky_loses zero done h l = cc
flaky_loses zero conn_error h l = cc
flaky_loses zero not_exist h l = cc
flaky_loses zero permission h l = cc
flaky_loses zero failure h l = cc
flaky_loses (suc n) e h l = omega arith

do_op-outlasts_example : lost not_exist ≡ false
unfolding do_op
do_op-outlasts_example =
    do_op-outlasts lost redialed flaky (λ s. s) flaky_loses (λ s. (refl, omega arith)) (λ s. refl) 3
      2 (omega arith) refl

retry_backoff_bounds_example :
    (d : ℕ) × (d' : ℕ) × (retry_backoff (λ n. 0) 2 ≡ some d)
    × (retry_backoff (λ n. 0) 3 ≡ some d')
    × (2 ^ 1 * second ≤ d)
    × (d * 4 ≤ 2 ^ 1 * second * 5)
    × (d < d')
retry_backoff_bounds_example = retry_backoff_bounds (λ n. 0) 1 (λ n h. h) (omega arith)

-- A base that wraps to a negative duration ends in the panic of rand.Int64N.
backoff_overflows : retry_backoff (λ n. 0) 35 ≡ none
unfolding retry_backoff backoff_base
backoff_overflows = refl

-- A transfer that begins and then moves nothing for two seconds, with a timeout of one.
abbrev silent : Watchdog
silent = pass 2000000000 (monitor 1000000000 (pass 100000000 (begin (start_stall_watchdog 0))))

monitor_silence_example : (0 + 1000000000 ≤ silent.now) × (0 < silent.active)
unfolding start_stall_watchdog begin tick pass monitor
monitor_silence_example =
    monitor_silence 1000000000 0 0 silent
      (passes 2000000000 (watches (passes 100000000 (begins starts)))) refl refl

silence_fires_example : (silence 1000000000 6 (begin (start_stall_watchdog 0))).fired ≡ true
unfolding start_stall_watchdog begin tick
silence_fires_example =
    silence_fires 1000000000 (begin (start_stall_watchdog 0)) (omega arith) (omega arith)
      (omega arith)

-- A server that makes every directory.
abbrev dir_maker : Maker (List Bytes)
dir_maker = record {
  mkdir_all = λ d s. (d ∷ s, done);
  stat = λ d s. (s, ok (contains s d));
  chmod = λ d mode s. (s, done);
}

abbrev dir_line : Line (List Bytes)
dir_line = record { has_fired = λ s. false; redial = λ s. (s, true) }

dir_maker-MakerPromises : MakerPromises dir_maker dir_line (λ s d. contains s d ≡ true)
dir_maker-MakerPromises = record {
  makes = λ d s h. rw (eq_bytes_refl d) refl;
  sees = λ d s h. ok_same h;
  mkdir_keeps = λ p d s h. ground arith;
  stat_keeps = λ p d s h. h;
  chmod_keeps = λ p d mode s h. h;
  redial_keeps = λ p s h. h;
}
  where
    ok_same : {a b : Bool} → Path (Result Answer Bool) (ok a) (ok b) → a ≡ b
    ok_same h = cc

abbrev two_dirs : List Bytes
two_dirs = codes "/w" ∷ codes "/w/a" ∷ codes "/w/b" ∷ []

create_remote_dirs-makes_example :
    contains (create_remote_dirs dir_maker dir_line two_dirs (some 493) 2 []).0 (codes "/w/a")
    ≡ true
unfolding create_remote_dirs make_leaves make_leaf leaf_dirs sort_strings do_op dir split join_parts
create_remote_dirs-makes_example =
    create_remote_dirs-makes dir_maker dir_line (λ s d. contains s d ≡ true) dir_maker-MakerPromises
      two_dirs (some 493) 2 [] (codes "/w/a") refl refl ((λ e. cc), ((λ e. cc), ((λ e. cc), tt)))
