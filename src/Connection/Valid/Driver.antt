-- ===== src/Connection/Valid/Driver.antt =====
-- `step` and `drive` against the invariant and the budget.
use cobs_io_async_rs.Connection.Drive.{
  fail, after_timer, after_input, after_output, step, settle, drive_loop, drive,
}
use cobs_io_async_rs.Connection.Deadline.{poll_timer}
use cobs_io_async_rs.Connection.Input.{poll_input}
use cobs_io_async_rs.Connection.Output.{poll_output}
use cobs_io_async_rs.Connection.State.{
  Work, blocked, progress, yield, max_work, Reliable, Outcome, is_ok,
}
use cobs_io_async_rs.Connection.Valid.Driving.{Used, Input, Kept, poll_input-Input, poll_timer-Kept}
use cobs_io_async_rs.Connection.Valid.Written.{After, Spent, poll_output-After}
use cobs_io_async_rs.Connection.Valid.{IsValid}
use cobs_io_async_rs.Connection.Waiters.{wake_by_ref}
use cobs_io_async_rs.Error.{ConnectionError}
use cobs_io_async_rs.Prelude.Exec.Holds.{Holds, bind-Holds, map-Holds, if-Holds}
use cobs_io_async_rs.Prelude.Exec.{ret}
use cobs_io_async_rs.Prelude.{ℕ, zero, suc, ◌+◌, ◌≤◌, ◌<◌, not, none, some, Result, ok, err, arith}
use cobs_io_async_rs.Transport.{Waker, Transport, Timer, KeepsLength}

module _ (E : Type 0) where
  Spent-lt : (w : Work) (budget left : ℕ) → left < budget → Spent {E = E} budget left (ok w)
  Spent-lt blocked budget left h = tt
  Spent-lt progress budget left h = h
  Spent-lt yield budget left h = tt

  -- A step's work, from that of the input.
  Spent-max :
      (output input timer : Work) (budget left : ℕ)
      → Used {E = E} budget left (ok input)
      → Spent {E = E} budget left (ok (max_work (max_work output input) timer))
  Spent-max output blocked timer budget left h =
      Spent-lt (max_work (max_work output blocked) timer) budget left h
  Spent-max output progress timer budget left h =
      Spent-lt (max_work (max_work output progress) timer) budget left h
  Spent-max blocked yield timer budget left h = tt
  Spent-max progress yield timer budget left h = tt
  Spent-max yield yield timer budget left h = tt

module _ {T C E : Type 0} (link : Transport T E) (clock : Timer C) (capacity : ℕ) where
  abbrev Stepped : ℕ → ℕ × Outcome T C E → Type 0
  Stepped budget (left, (c, r)) = IsValid capacity c × (left ≤ budget) × Spent budget left r

  after_timer-Stepped :
      (output input : Work) (budget left : ℕ) (o : Outcome T C E)
      → Kept link clock capacity o
      → left ≤ budget
      → Used {E = E} budget left (ok input)
      → Stepped budget (left, after_timer link clock capacity output input o)
  unfolding after_timer
  after_timer-Stepped output input budget left (c, err e) v h u = (v, h, tt)
  after_timer-Stepped output input budget left (c, ok timer) v h u =
      (v, h, Spent-max E output input timer budget left u)

  after_input-Stepped :
      (cx : Waker) (output : Work) (budget left : ℕ) (o : Outcome T C E)
      → Kept link clock capacity o
      → left ≤ budget
      → Used budget left o.1
      → Stepped budget (left, after_input link clock capacity cx output o)
  unfolding after_input
  after_input-Stepped cx output budget left (c, err e) v h u = (v, h, tt)
  after_input-Stepped cx output budget left (c, ok input) v h u =
      after_timer-Stepped output input budget left (poll_timer clock capacity cx input c)
        (poll_timer-Kept link clock capacity cx input c v) h u

  Used-le :
      (budget mid left : ℕ) (r : Result Work (ConnectionError E))
      → mid ≤ budget
      → Used mid left r
      → Used budget left r
  Used-le budget mid left (ok blocked) h u = omega arith
  Used-le budget mid left (ok progress) h u = omega arith
  Used-le budget mid left (ok yield) h u = tt
  Used-le budget mid left (err e) h u = tt

  step-Stepped :
      KeepsLength link
      → (cx : Waker) (budget : ℕ) (c : Reliable T C E) → IsValid capacity c
      → Holds (Stepped budget) (step link clock capacity cx budget c)
  unfolding step after_output
  step-Stepped keeps cx budget c v =
      bind-Holds (After link clock capacity budget) (Stepped budget)
        (poll_output link clock cx budget c) _ (poll_output-After link clock capacity cx budget c v)
        (λ o k. next o.0 o.1 k.0 k.1)
    where
      next :
          (mid : ℕ) (o : Outcome T C E)
          → IsValid capacity o.0
          → mid ≤ budget
          → Holds (Stepped budget) (after_output link clock capacity cx mid o)
      next mid (c', err e) w h = (w, h, tt)
      next mid (c', ok output) w h =
          bind-Holds (Input link clock capacity mid) (Stepped budget)
            (poll_input capacity link cx mid c') _
            (poll_input-Input link clock capacity keeps cx mid c' w)
            (λ i k.
              after_input-Stepped cx output budget i.0 i.1 k.0 (omega (arith, k.1))
                (Used-le budget mid i.0 i.1.1 h k.2))

  -- What the driver leaves.
  abbrev pub Driven : ℕ → ℕ × Reliable T C E × Work → Type 0
  Driven budget (left, c, work) = IsValid capacity c × (left ≤ budget)

  settled-Driven :
      (fuel : ℕ) (cx : Waker) (budget left : ℕ) (o : Outcome T C E)
      → budget < suc fuel
      → Stepped budget (left, o)
      → ((left' : ℕ) (c : Reliable T C E)
          → left' < fuel
          → IsValid capacity c
          → Holds (Driven left') (drive_loop link clock capacity fuel cx left' c))
      → let s = settle link clock capacity cx o in
        Holds (Driven budget) (elim s.1 [
          | none ↦ drive_loop link clock capacity fuel cx left s.0
          | some work ↦ ret (left, s.0, work)
        ])
  unfolding settle fail wake_by_ref
  settled-Driven fuel cx budget left (c, ok progress) enough (v, h, u) next =
      map-Holds (Driven left) (Driven budget) (drive_loop link clock capacity fuel cx left c)
        (next left c (omega arith) v) (λ d k. (k.0, omega (arith, k.1)))
  settled-Driven fuel cx budget left (c, ok blocked) enough (v, h, u) next = (v, h)
  settled-Driven fuel cx budget left (c, ok yield) enough (v, h, u) next = (v, h)
  settled-Driven fuel cx budget left (c, err e) enough (v, h, u) next = (v, h)

  drive_loop-Driven :
      KeepsLength link
      → (fuel : ℕ) (cx : Waker) (budget : ℕ) (c : Reliable T C E) → budget < fuel
      → IsValid capacity c
      → Holds (Driven budget) (drive_loop link clock capacity fuel cx budget c)
  unfolding drive_loop
  drive_loop-Driven keeps zero cx budget c enough v = absurd (omega arith)
  drive_loop-Driven keeps (suc fuel) cx budget c enough v =
      bind-Holds (Stepped budget) (Driven budget) (step link clock capacity cx budget c) _
        (step-Stepped keeps cx budget c v)
        (λ o k.
          settled-Driven fuel cx budget o.0 o.1 enough k
            (λ left c' h w. drive_loop-Driven keeps fuel cx left c' h w))

  pub drive-Driven :
      KeepsLength link
      → (cx : Waker) (budget : ℕ) (c : Reliable T C E) → IsValid capacity c
      → Holds (Driven budget) (drive link clock capacity cx budget c)
  unfolding drive
  drive-Driven keeps cx budget c v =
      if-Holds (Holds (Driven budget)) (not (is_ok c.health)) (λ e. (v, omega arith))
        (λ e. drive_loop-Driven keeps (budget + 1) cx budget c (omega arith) v)
