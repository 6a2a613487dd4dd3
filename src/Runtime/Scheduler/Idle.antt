-- ===== src/Runtime/Scheduler/Idle.antt =====
-- src/runtime/scheduler.rs: what `run_until_stalled` leaves.
use vim_script.Prelude.{
  ℕ, zero, suc, ◌≡◌, ◌≢◌, refl, ◌∙◌, ap, sym, Bool, false, List, [], ◌∷◌, arith, get, count,
}
use vim_script.Runtime.Error.{ok, err, panic}
use vim_script.Runtime.Scheduler.State.{Engine, Scheduler}
use vim_script.Runtime.Scheduler.Tick.{Outcome, progressed, run_next, after_polling, tick}
use vim_script.Runtime.Scheduler.Drive.{returned, run_until_stalled}
use vim_script.Runtime.Scheduler.Sane.{queued_task, Sane}
use vim_script.Runtime.Scheduler.Sane.Tick.{tick-Fine}

module _ {H Fut : Type 0} (e : Engine H Fut) where
  progressed-ne-false : (r : Outcome H Fut (Unit {0})) → (progressed r).0 ≢ ok false
  unfolding progressed
  progressed-ne-false (ok u, s) q = cc
  progressed-ne-false (err x, s) q = cc
  progressed-ne-false (panic, s) q = cc

  run_next-idle :
      (polled : Bool) (queue : List ℕ) (s : Scheduler H Fut)
      → s.ready_queue ≡ queue
      → (run_next e polled queue s).0 ≡ ok false
      → (run_next e polled queue s).1.ready_queue ≡ []
  unfolding run_next
  run_next-idle polled [] s same q = same
  run_next-idle polled (id ∷ rest) s same q = absurd (progressed-ne-false _ q)

  after_polling-idle :
      (r : Outcome H Fut Bool)
      → (after_polling e r).0 ≡ ok false
      → (after_polling e r).1.ready_queue ≡ []
  unfolding after_polling
  after_polling-idle (ok polled, s) q = run_next-idle polled s.ready_queue s refl q
  after_polling-idle (err x, s) q = cc
  after_polling-idle (panic, s) q = cc

  tick-idle : (s : Scheduler H Fut) → (tick e s).0 ≡ ok false → (tick e s).1.ready_queue ≡ []
  unfolding tick
  tick-idle s q = after_polling-idle _ q

  run_until_stalled-empty :
      (fuel : ℕ) (s : Scheduler H Fut)
      → Sane s
      → (run_until_stalled e fuel s).0 ≡ returned (ok tt)
      → Sane (run_until_stalled e fuel s).1 × ((run_until_stalled e fuel s).1.ready_queue ≡ [])
  unfolding run_until_stalled
  run_until_stalled-empty zero s sane q = ground arith
  run_until_stalled-empty (suc fuel) s sane q = ground (
    arith,
    tick-idle s,
    (tick-Fine e s sane).sane,
    run_until_stalled-empty fuel (tick e s).1 (tick-Fine e s sane).sane,
  )

  -- When `run_until_stalled` returns without an error, from tables that are right, no task is ready.
  run_until_stalled-idle :
      (fuel : ℕ) (s : Scheduler H Fut)
      → Sane s
      → (run_until_stalled e fuel s).0 ≡ returned (ok tt)
      → (id : ℕ) → queued_task (get id (run_until_stalled e fuel s).1.tasks) ≡ 0
  unfolding count
  run_until_stalled-idle fuel s sane q id =
      let (after, none_queued) = run_until_stalled-empty fuel s sane q in
      sym (after.queue id) ∙ ap (count id) none_queued
