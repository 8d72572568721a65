-- ===== src/Net/Mqtt/Client.antt =====
-- The client of net/mqtt.c: its state, and what it stands on. The sockets, the event loop, the
-- resolver and TLS are operations on a state of their own, `env`; the two callbacks are functions on
-- the whole client, since they may call back into it.
pub mod Failing
pub mod Sending
pub mod Packets
pub mod Reading
pub mod Connecting
pub mod Calls
pub mod Invariant
pub mod InvariantSending
pub mod InvariantPackets
pub mod InvariantReading
pub mod InvariantConnecting
pub mod InvariantAttempt
pub mod InvariantCalls
pub mod InvariantTick
pub mod Steps
pub mod Releasing
pub mod Recovery
mod Tests
use inkwell.Prelude.{ℕ, ◌%◌, Bool, Option, none, some, List, [], Bytes, ltb, ◌==◌, if◌then◌else◌}
use inkwell.Net.Reason.{NetErrno, Reason, net_ok, ResolveOutcome}
use inkwell.Net.Mqtt.Queue.{Queue, Answer}

pub data ClientState : Type 0 where
  off resolving connecting securing greeting ready waiting : ClientState

abbrev pub state_code : ClientState → ℕ
state_code off = 0
state_code resolving = 1
state_code connecting = 2
state_code securing = 3
state_code greeting = 4
state_code ready = 5
state_code waiting = 6

abbrev pub is_state : ClientState → ClientState → Bool
is_state a b = state_code a == state_code b

pub data Refusal : Type 0 where
  refusal_none bad_address no_tls protocol bad_login not_allowed broker_busy other_refusal : Refusal

-- The `int` beside a reason.
pub data Detail : Type 0 where
  no_detail : Detail
  of_errno : NetErrno → Detail
  of_code : ℕ → Detail

pub record Failure : Type 0 where
  pub reason : Reason
  pub detail : Detail
  pub refusal : Refusal
  pub code : ℕ

abbrev pub no_failure : Failure
no_failure = record { reason = net_ok; detail = no_detail; refusal = refusal_none; code = 0 }

pub record Config : Type 0 where
  pub address : Bytes
  pub username : Bytes
  pub password : Bytes
  pub client_id : Bytes
  pub tls_enabled : Bool

pub record Stats : Type 0 where
  pub published : ℕ
  pub received : ℕ
  pub dropped : ℕ
  pub skipped : ℕ
  pub connections : ℕ

-- `struct inkwell_mqtt_client`. A socket has a registration with the loop as long as it is open.
pub record Proxy (Env : Type 0) : Type 0 where
  pub env : Env
  pub state : ClientState
  pub config : Config
  pub host : Bytes
  pub port : ℕ
  pub ca_bundle : Bytes
  pub has_socket : Bool
  pub want_write : Bool
  pub generation : ℕ
  pub buffered : Bytes
  pub skip_remaining : ℕ
  pub more_to_read : Bool
  pub read_wants_write : Bool
  pub queue : Queue
  pub filters : List Bytes
  pub filter_sent : ℕ
  pub subscribe_id : ℕ
  pub now_ms : ℕ
  pub deadline_ms : ℕ
  pub next_ping_ms : ℕ
  pub last_heard_ms : ℕ
  pub retry_at_ms : ℕ
  pub failures : ℕ
  pub stats : Stats
  pub failure : Failure

-- What a plain send returns: a count, -EINTR, -EAGAIN or -EWOULDBLOCK, another errno.
pub data Sent : Type 0 where
  sent : ℕ → Sent
  send_interrupted send_would_block : Sent
  send_failed : ℕ → Sent

-- What a read returns: the bytes, of which a plain socket has none at its end, or an errno.
pub data Read : Type 0 where
  got : Bytes → Read
  read_failed : NetErrno → Read

pub data Handshake : Type 0 where
  shaken handshake_waits handshake_failed : Handshake

pub data TlsStart : Type 0 where
  tls_started tls_unsupported tls_start_failed : TlsStart

-- What the client calls and what calls it back. An `Option` errno is `none` for success. A lookup
-- completes in the resolver's tick, or behind the events of its own descriptor, `resolve_output`.
pub record Host : Type 1 where
  pub Env : Type 0
  pub Address : Type 0
  pub socket_open : Env → Address → Option NetErrno × Env
  pub watch_socket : Env → Option NetErrno × Env
  pub socket_connect : Env → Address → Option NetErrno × Env
  pub socket_close : Env → Env
  pub pending_error : Env → Option NetErrno × Env
  pub socket_send : Env → Bytes → Sent × Env
  pub socket_recv : Env → ℕ → Read × Env
  pub update_watch : Env → Bool → Env
  pub remove_watch : Env → Env
  pub tls_active : Env → Bool
  pub tls_wants_write : Env → Bool
  pub tls_more_to_read : Env → Bool
  pub tls_start : Env → Bytes → Bytes → TlsStart × Env
  pub tls_handshake : Env → Handshake × Env
  pub tls_read : Env → ℕ → Read × Env
  pub tls_write : Env → Bytes → Answer × Env
  pub tls_stop : Env → Env
  pub tls_reason : Env → Reason
  pub tls_code : Env → ℕ
  pub resolve_init : Env → Env
  pub resolve_shutdown : Env → Env
  pub resolve_literal : Bytes → ℕ → Option Address
  pub resolve_start : Env → Bytes → ℕ → ℕ → Option ℕ × Env
  pub resolve_cancel : Env → Env
  pub resolve_tick : Env → ℕ → Option (ResolveOutcome × Address × ℕ) × Env
  pub resolve_output : Env → ℕ → Option (ResolveOutcome × Address × ℕ) × Env
  pub on_state : ClientState → Proxy Env → Proxy Env
  pub on_message : Option (Bytes → Bytes → Proxy Env → Proxy Env)

abbrev pub ping_interval_ms : ℕ
ping_interval_ms = 30000

abbrev pub silence_timeout_ms : ℕ
silence_timeout_ms = 90000

abbrev pub connect_timeout_ms : ℕ
connect_timeout_ms = 10000

abbrev pub handshake_timeout_ms : ℕ
handshake_timeout_ms = 15000

abbrev pub backoff_base_ms : ℕ
backoff_base_ms = 5000

abbrev pub backoff_max_ms : ℕ
backoff_max_ms = 300000

abbrev pub backoff_shift_max : ℕ
backoff_shift_max = 6

abbrev pub empty_queue : Queue
empty_queue = record { out = []; out_sent = 0; out_pending = 0 }
