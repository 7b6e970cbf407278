-- ===== src/Connection/State.antt =====
-- The data types of src/connection.rs and the fields of `Reliable`.
use cobs_io_async_rs.Error.{ConnectionError}
use cobs_io_async_rs.Prelude.{ℕ, Bool, true, false, List, Bytes, Option, none, some, Result}
use cobs_io_async_rs.Transport.{Waker}

pub record Config : Type 0 where
  pub session : ℕ
  pub retransmit_timeout : ℕ
  pub max_retries : ℕ

-- `Config::new`.
abbrev pub new_config : ℕ → Config
new_config session = record { session = session; retransmit_timeout = 1000; max_retries = 8 }

pub data Tx : Type 0 where
  idle queued sending waiting : Tx

pub data Frame : Type 0 where
  ack data_frame : Frame

pub data Out : Type 0 where
  out_idle : Out
  writing : Frame → ℕ → Out
  flushing : Frame → Out

pub data Work : Type 0 where
  blocked progress yield : Work

-- `max` of the derived order, in which the constructors ascend.
abbrev pub max_work : Work → Work → Work
max_work blocked w = w
max_work progress blocked = progress
max_work progress w = w
max_work yield w = yield

abbrev pub step_budget : ℕ
step_budget = 16

pub data PendingOperation : Type 0 where
  pending_read pending_write pending_flush pending_progress : PendingOperation

pub data Op : Type 0 where
  op_read op_write op_flush op_progress : Op

-- `[Option<Waker>; 4]`, a field for each index `op as usize`.
pub record Waiters : Type 0 where
  pub read : Option Waker
  pub write : Option Waker
  pub flush : Option Waker
  pub progress : Option Waker

pub data Health (E : Type 0) : Type 0 where
  health_ok : Health E
  health_failed : ConnectionError E → Health E
  reported : Health E

-- The last three fields are not the source's, and nothing depends on them. They record the past, the
-- latest last: the wakers that were woken, the decoded frames that were handed to `parse`, and the
-- frames whose output was begun.
pub record Reliable (T C E : Type 0) : Type 0 where
  pub transport : T
  pub timer : C
  pub config : Config
  pub health : Health E
  pub tx : Tx
  pub tx_frame : Bytes
  pub tx_len : ℕ
  pub tx_next : ℕ
  pub tx_deadline : ℕ
  pub tx_retries : ℕ
  pub final_input : Option ℕ
  pub out : Out
  pub ack_pending : Option ℕ
  pub ack_frame : Bytes
  pub ack_len : ℕ
  pub rx_buf : Bytes
  pub rx_len : ℕ
  pub rx_discarding : Bool
  pub rx_payload : Bytes
  pub rx_start : ℕ
  pub rx_end : ℕ
  pub rx_next : ℕ
  pub scratch : Bytes
  pub waiters : Waiters
  pub woken : List Waker
  pub seen : List Bytes
  pub begun : List Bytes

abbrev pub is_idle : Tx → Bool
is_idle idle = true
is_idle _ = false

abbrev pub is_queued : Tx → Bool
is_queued queued = true
is_queued _ = false

abbrev pub is_sending : Tx → Bool
is_sending sending = true
is_sending _ = false

abbrev pub is_waiting : Tx → Bool
is_waiting waiting = true
is_waiting _ = false

abbrev pub is_none : Option ℕ → Bool
is_none none = true
is_none (some n) = false

abbrev pub is_ok : {E : Type 0} → Health E → Bool
is_ok health_ok = true
is_ok _ = false

-- What a step of the driver returns, with the connection after it.
abbrev pub Outcome : Type 0 → Type 0 → Type 0 → Type 0
Outcome T C E = Reliable T C E × Result Work (ConnectionError E)
