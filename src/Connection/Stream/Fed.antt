-- ===== src/Connection/Stream/Fed.antt =====
-- The input buffer against the bytes that the link has given.
use cobs_io_async_rs.Connection.Input.{keep_partial, remove_frame}
use cobs_io_async_rs.Connection.State.{Reliable}
use cobs_io_async_rs.Connection.Stream.Assembly.{onward, assemble, contents}
use cobs_io_async_rs.Connection.Stream.Zeros.{kept_of, feed_held, Zeroless}
use cobs_io_async_rs.Connection.Stream.{Logged}
use cobs_io_async_rs.Prelude.Exec.Ensures.{
  Ensures, bind-Ensures, both-Ensures, slice_to-Ensures, slice_from-Ensures, copy_at-Ensures,
  length-copy_at,
}
use cobs_io_async_rs.Prelude.Exec.Holds.{if-Holds}
use cobs_io_async_rs.Prelude.Exec.{slice_to, slice_from, copy_at}
use cobs_io_async_rs.Prelude.{
  ℕ, ◌+◌, ◌-◌, ◌≤◌, ◌<◌, ◌≡◌, sym, ap, ◌∙◌, Bool, ◌||◌, ◌++◌, List, Bytes, length, length-take,
  length-drop, take, drop, take-append, ◌==◌, arith,
}

-- The bytes `held` are still to be fed. What was decoded is what the frames before them hold.
pub record IsFed (capacity : ℕ) (rx_buf : Bytes) (rx_len : ℕ) (discarding : Bool)
    (seen : List Bytes) (scratch stream held : Bytes) : Type 0 where
  pub frames : List Bytes
  pub room : 0 < capacity
  pub sized : length rx_buf ≡ capacity
  pub within : rx_len ≤ capacity
  pub space : length scratch ≡ capacity
  pub fed : assemble capacity stream ≡ onward capacity frames discarding held
  pub shown : seen ≡ contents capacity frames

-- Nothing is left to be fed: the buffer holds what lies behind the latest zero.
pub record IsShown (capacity : ℕ) (rx_buf : Bytes) (rx_len : ℕ) (discarding : Bool)
    (seen : List Bytes) (scratch stream : Bytes) : Type 0 where
  pub sized : length rx_buf ≡ capacity
  pub short : rx_len < capacity
  pub space : length scratch ≡ capacity
  pub frames : List Bytes
  pub whole :
      assemble capacity stream
      ≡ record { partial = take rx_len rx_buf; discarding = discarding; frames = frames }
  pub shown : seen ≡ contents capacity frames

module _ {T C E : Type 0} (capacity : ℕ) where
  abbrev pub Fed : Bytes → Reliable (Logged T) C E → Type 0
  Fed held c =
      IsFed capacity c.rx_buf c.rx_len c.rx_discarding c.seen c.scratch c.transport.received held

  abbrev pub Held : Reliable (Logged T) C E → Type 0
  Held c = Fed (take c.rx_len c.rx_buf) c

  abbrev pub Shown : Reliable (Logged T) C E → Type 0
  Shown c = IsShown capacity c.rx_buf c.rx_len c.rx_discarding c.seen c.scratch c.transport.received

  pub keep_partial-Shown :
      (c : Reliable (Logged T) C E)
      → Held c
      → Zeroless (take c.rx_len c.rx_buf)
      → Shown (keep_partial capacity c)
  unfolding keep_partial
  keep_partial-Shown c f z =
      let held = take c.rx_len c.rx_buf in
      let size : length held ≡ c.rx_len =
        omega (arith, length-take c.rx_len c.rx_buf, f.sized, f.within) in
      let rest =
        f.fed
        ∙ feed_held capacity held c.rx_discarding f.frames z f.room (omega (arith, f.within))
        ∙ ap (λ n. kept_of f.frames held c.rx_discarding (c.rx_discarding || n == capacity)) size in
      if-Holds Shown (c.rx_discarding || c.rx_len == capacity)
        (λ e. record {
          sized = f.sized;
          short = f.room;
          space = f.space;
          frames = f.frames;
          whole = rest ∙ ap (kept_of f.frames held c.rx_discarding) e;
          shown = f.shown;
        })
        (λ e. record {
          sized = f.sized;
          short = ground (arith, f.within);
          space = f.space;
          frames = f.frames;
          whole = rest ∙ ap (kept_of f.frames held c.rx_discarding) e;
          shown = f.shown;
        })

  pub remove_frame-Held :
      (end_idx : ℕ) (c : Reliable (Logged T) C E)
      → Fed (drop (end_idx + 1) (take c.rx_len c.rx_buf)) c
      → Ensures Held (remove_frame capacity end_idx c)
  unfolding remove_frame
  remove_frame-Held end_idx c f =
      bind-Ensures (λ b. b ≡ take c.rx_len c.rx_buf) Held (slice_to c.rx_buf c.rx_len) _
        (slice_to-Ensures c.rx_buf c.rx_len)
        (λ b e.
          bind-Ensures (λ r. r ≡ drop (end_idx + 1) b) Held (slice_from b (end_idx + 1)) _
            (slice_from-Ensures b (end_idx + 1))
            (λ rest g.
              bind-Ensures
                (λ x. (length x ≡ length c.rx_buf) × (x ≡ rest ++ drop (0 + length rest) c.rx_buf))
                Held (copy_at c.rx_buf 0 rest) _
                (both-Ensures (λ x. length x ≡ length c.rx_buf) _ (copy_at c.rx_buf 0 rest)
                  (length-copy_at c.rx_buf 0 rest) (copy_at-Ensures c.rx_buf 0 rest))
                (λ x (same, h).
                  let left : rest ≡ drop (end_idx + 1) (take c.rx_len c.rx_buf) =
                    g ∙ ap (drop (end_idx + 1)) e in
                  let size : c.rx_len - (end_idx + 1) ≡ length rest = omega (
                    arith,
                    ap length left,
                    length-drop (end_idx + 1) (take c.rx_len c.rx_buf),
                    length-take c.rx_len c.rx_buf,
                    f.sized,
                    f.within,
                  ) in
                  record {
                    frames = f.frames;
                    room = f.room;
                    sized = same ∙ f.sized;
                    within = omega (arith, f.within);
                    space = f.space;
                    shown = f.shown;
                    fed =
                        f.fed
                        ∙ ap (onward capacity f.frames c.rx_discarding) (
                            sym left
                            ∙ sym (take-append rest (drop (0 + length rest) c.rx_buf) size)
                            ∙ ap (take (c.rx_len - (end_idx + 1))) (sym h));
                  })))
