-- ===== src/Net/Mqtt/Client/Reading.antt =====
-- What the client of net/mqtt.c does with what it reads.
use inkwell.Prelude.{
  ℕ, zero, suc, ◌+◌, ◌-◌, Bool, true, false, ◌&&◌, Bytes, [], ◌++◌, u32, length, leb, ◌==◌,
  if◌then◌else◌, ◌⊎◌, inl, inr,
}
use inkwell.Net.Reason.{
  NetErrno, eagain, eintr, ewouldblock, enotconn, econnreset, closed, reason_from_errno,
}
use inkwell.Net.Mqtt.Inbound.{packet_max, Handled, going, gone, Client, Inbound, consume}
use inkwell.Net.Mqtt.Client.{protocol, no_detail, of_errno, Proxy, Read, got, read_failed, Host}
use inkwell.Net.Mqtt.Client.Failing.{fail_net, fail_own, fail_tls}
use inkwell.Net.Mqtt.Client.Sending.{arm}
use inkwell.Net.Mqtt.Client.Packets.{handle_packet}

abbrev pub reads_per_turn : ℕ
reads_per_turn = 8

-- A plain socket's answer: its end is -ENOTCONN, and an interrupted call is a would-block.
pub socket_read : Read → Read
socket_read (got []) = read_failed enotconn
socket_read (got bytes) = got bytes
socket_read (read_failed eintr) = read_failed eagain
socket_read (read_failed ewouldblock) = read_failed eagain
socket_read (read_failed errno) = read_failed errno

module _ (h : Host) where
  pub raw_read : h.Env → ℕ → Read × h.Env
  unfolding socket_read
  raw_read env cap =
      if h.tls_active env
      then h.tls_read env cap
      else let (answer, env') = h.socket_recv env cap in (socket_read answer, env')

  -- The tests behind the handler: it may have ended this connection, or begun another.
  abbrev pub still_here : ℕ → Bool × Proxy h.Env → Handled (Proxy h.Env)
  still_here generation (false, p) = gone p
  still_here generation (true, p) =
      if p.generation == generation && p.has_socket then going p else gone p

  abbrev pub packets : Client
  packets = record {
    State = Proxy h.Env;
    handle = λ p header body. still_here p.generation (handle_packet h p header body);
    fail_protocol = λ p. fail_own h p protocol 0;
    count_skipped =
        λ p. record p { stats = record p.stats { skipped = u32 (p.stats.skipped + 1) } };
  }

  abbrev pub inbound_of : Proxy h.Env → Inbound (Proxy h.Env)
  inbound_of p = record { buffered = p.buffered; skip_remaining = p.skip_remaining; client = p }

  -- Where the connection is kept, the rest of the buffer is; otherwise the handler has reset it.
  abbrev pub after_consume : Inbound (Proxy h.Env) ⊎ Proxy h.Env → Bool × Proxy h.Env
  after_consume (inl i) =
      (true, record i.client { buffered = i.buffered; skip_remaining = i.skip_remaining })
  after_consume (inr p) = (false, p)

  unfoldable pub consume_packets : Proxy h.Env → Bool × Proxy h.Env
  consume_packets p = after_consume (consume packets (inbound_of p))

  -- A read that would block.
  unfoldable pub read_blocked : Proxy h.Env → Proxy h.Env
  read_blocked p =
      if h.tls_active p.env && h.tls_more_to_read p.env
      then record p { more_to_read = true }
      else arm h (record p { read_wants_write = h.tls_active p.env && h.tls_wants_write p.env })

  unfoldable pub read_error : Proxy h.Env → NetErrno → Proxy h.Env
  unfolding read_blocked
  read_error p eagain = read_blocked p
  read_error p enotconn = fail_net h p closed no_detail
  read_error p econnreset = fail_net h p closed no_detail
  read_error p errno =
      if h.tls_active p.env
      then fail_tls h p
      else fail_net h p (reason_from_errno errno) (of_errno errno)

  abbrev pub after_packets : (Proxy h.Env → Proxy h.Env) → Bool × Proxy h.Env → Proxy h.Env
  after_packets rest (true, p) = rest p
  after_packets rest (false, p) = p

  abbrev pub heard : Proxy h.Env → Bytes → Proxy h.Env
  heard p bytes = record p { buffered = p.buffered ++ bytes; last_heard_ms = p.now_ms }

  unfoldable pub after_read : (Proxy h.Env → Proxy h.Env) → Proxy h.Env → Read × h.Env → Proxy h.Env
  unfolding consume_packets read_error
  after_read rest p (got bytes, env) =
      after_packets rest (consume_packets (heard (record p { env = env }) bytes))
  after_read rest p (read_failed errno, env) = read_error (record p { env = env }) errno

  unfoldable pub read_loop : ℕ → Proxy h.Env → Proxy h.Env
  unfolding after_read raw_read
  read_loop zero p = record p { more_to_read = true }
  read_loop (suc turns) p =
      if leb packet_max (length p.buffered)
      then record p { more_to_read = true }
      else after_read (read_loop turns) p (raw_read p.env (packet_max - length p.buffered))

  unfoldable pub read_ready : Proxy h.Env → Proxy h.Env
  unfolding read_loop
  read_ready p =
      read_loop reads_per_turn (record p { more_to_read = false; read_wants_write = false })
