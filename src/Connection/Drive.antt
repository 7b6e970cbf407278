-- ===== src/Connection/Drive.antt =====
-- `step`, `drive`, `fail` and `failure` of src/connection.rs.
use cobs_io_async_rs.Connection.Deadline.{poll_timer}
use cobs_io_async_rs.Connection.Input.{poll_input}
use cobs_io_async_rs.Connection.Output.{poll_output}
use cobs_io_async_rs.Connection.State.{
  Work, blocked, progress, yield, max_work, Health, health_ok, health_failed, reported, Reliable,
  Outcome, is_ok,
}
use cobs_io_async_rs.Connection.Waiters.{wake_by_ref}
use cobs_io_async_rs.Error.{ConnectionError, failed}
use cobs_io_async_rs.Prelude.Exec.{Exec, ret, panic, ◌>>=◌}
use cobs_io_async_rs.Prelude.{ℕ, zero, suc, ◌+◌, not, Option, none, some, ok, err, if◌then◌else◌}
use cobs_io_async_rs.Transport.{Waker, Transport, Timer}

module _ {T C E : Type 0} where
  -- `fail`: the first failure is the one that is kept.
  unfoldable pub fail : ConnectionError E → Reliable T C E → Reliable T C E
  fail error c = record c {
    final_input = none;
    health = if is_ok c.health then health_failed error else c.health;
  }

  unfoldable pub report : Health E → Reliable T C E → Reliable T C E × Option (ConnectionError E)
  report health_ok c = (record c { health = health_ok }, none)
  report (health_failed error) c = (record c { health = reported }, some error)
  report reported c = (record c { health = reported }, some failed)

  unfoldable pub failure : Reliable T C E → Reliable T C E × Option (ConnectionError E)
  unfolding report
  failure c = report c.health c

module _ {T C E : Type 0} (link : Transport T E) (clock : Timer C) (capacity : ℕ) where
  -- `Ok(output.max(input).max(timer))`; `?` on an error returns at once.
  unfoldable pub after_timer : Work → Work → Outcome T C E → Outcome T C E
  after_timer output input (c, err e) = (c, err e)
  after_timer output input (c, ok timer) = (c, ok (max_work (max_work output input) timer))

  unfoldable pub after_input : Waker → Work → Outcome T C E → Outcome T C E
  after_input cx output (c, err e) = (c, err e)
  after_input cx output (c, ok input) =
      after_timer output input (poll_timer clock capacity cx input c)

  unfoldable pub after_output : Waker → ℕ → Outcome T C E → Exec (ℕ × Outcome T C E)
  after_output cx budget (c, err e) = ret (budget, (c, err e))
  after_output cx budget (c, ok output) = do
    (budget, outcome) ← poll_input capacity link cx budget c
    ret (budget, after_input cx output outcome)

  unfoldable pub step : Waker → ℕ → Reliable T C E → Exec (ℕ × Outcome T C E)
  step cx budget c = do
    (budget, outcome) ← poll_output link clock cx budget c
    after_output cx budget outcome

  -- The match on the outcome of a step: what `drive` returns, or `none` to go round again.
  unfoldable pub settle : Waker → Outcome T C E → Reliable T C E × Option Work
  settle cx (c, ok progress) = (c, none)
  settle cx (c, ok blocked) = (c, some blocked)
  settle cx (c, ok yield) = (wake_by_ref cx c, some yield)
  settle cx (c, err e) = (fail e c, some blocked)

  -- The loop, on fuel; to run out counts as a panic.
  unfoldable pub drive_loop : ℕ → Waker → ℕ → Reliable T C E → Exec (ℕ × Reliable T C E × Work)
  drive_loop zero cx budget c = panic
  drive_loop (suc fuel) cx budget c = do
    (budget, outcome) ← step cx budget c
    let (c, done) = settle cx outcome
    elim done [ none ↦ drive_loop fuel cx budget c | some work ↦ ret (budget, c, work) ]

  -- Each round that goes on spends at least one of the budget.
  unfoldable pub drive : Waker → ℕ → Reliable T C E → Exec (ℕ × Reliable T C E × Work)
  drive cx budget c =
      if not (is_ok c.health) then ret (budget, c, blocked) else drive_loop (budget + 1) cx budget c
