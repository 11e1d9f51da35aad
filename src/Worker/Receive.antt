-- ===== src/Worker/Receive.antt =====
-- The events of a worker's clients: `worker_loop`, `handle_client_event` and
-- `process_client_data` of src/ThreadPool.cpp.
use redis_c.Prelude.{ℕ, ◌+◌, ◌%◌, ◌^◌, Bool, List, [], ◌∷◌, ◌++◌, ltb, ◌==◌, if◌then◌else◌, Bytes}
use redis_c.Prelude.Run.{Run, done, dangling, endless, ◌>>=◌}
use redis_c.Cache.State.{Env}
use redis_c.Store.Codec.{Zlib}
use redis_c.Resp.Context.{ParseContext}
use redis_c.Commands.State.{CommandHandler}
use redis_c.Worker.Send.{SendResult, Delivery, delivered, removed, waiting, send_response}
use redis_c.Worker.Batch.{process_chunk}
use redis_c.Worker.Clients.{WorkerThread, has_client, remove_client}

-- The fields of `ClientInfo` that the code uses: the size of `read_buffer`, the parser, and the
-- time of the last chunk.
pub record ClientInfo : Type 0 where
  pub read_size : ℕ
  pub parser : ParseContext
  pub last_active : ℕ

-- A worker with what `clients_` holds for each descriptor, the handler, and the bytes that went
-- out.
pub record Service : Type 0 where
  pub worker : WorkerThread
  pub infos : ℕ → ClientInfo
  pub handler : CommandHandler
  pub wire : Bytes

abbrev pub set_info : ℕ → ClientInfo → (ℕ → ClientInfo) → ℕ → ClientInfo
set_info fd info infos c = if fd == c then info else infos c

-- What one call of `recv` returns: bytes, 0, `EAGAIN` or `EWOULDBLOCK`, or another error.
pub data Received : Type 0 where
  chunk : Bytes → Received
  closed nothing_yet broken : Received

-- One round of the loop: what `recv` and the calls of `send` return, the clock and the execution
-- times of the commands, and the time at its end.
pub record Reading : Type 0 where
  pub received : Received
  pub sends : List SendResult
  pub clock : ℕ → ℕ → ℕ
  pub times : ℕ → ℕ
  pub now : ℕ

-- The buffer has 8 KB at least when the loop starts, and 64 KB at most in each round.
unfoldable pub initial_size : ℕ → ℕ
initial_size size = if ltb size 8192 then 8192 else size

unfoldable pub round_size : ℕ → ℕ
round_size size = if ltb 65536 size then 65536 else size

abbrev pub resized : (ℕ → ℕ) → ℕ → Service → Service
resized f fd s = record s {
  infos = set_info fd (record (s.infos fd) { read_size = f (s.infos fd).read_size }) s.infos;
}

abbrev pub forget_client : ℕ → Service → Service
forget_client fd s = record s { worker = remove_client fd s.worker }

-- `processed_commands_ += valid_count`
abbrev pub counted : ℕ → Service → Service
counted n s = record s {
  worker = record s.worker { processed_commands = (s.worker.processed_commands + n) % 2 ^ 64 };
}

abbrev pub touched : ℕ → ℕ → Service → Service
touched fd now s = record s {
  infos = set_info fd (record (s.infos fd) { last_active = now }) s.infos;
}

-- `client.last_active = now`, through the reference to the `ClientInfo` of the descriptor, which
-- lives as long as `clients_` has it.
unfoldable pub touch : ℕ → ℕ → Service → Run Service
touch fd now s = if has_client fd s.worker.clients then done (touched fd now s) else dangling

-- `send_response`, unless there is nothing to send.
unfoldable pub send_batch : List SendResult → Bytes → Delivery × Bytes
send_batch sends [] = (delivered, [])
send_batch sends (c ∷ response) = send_response sends (c ∷ response)

-- The end of a round; `send_response` may have removed the client.
unfoldable pub after_send : ℕ → ℕ → ℕ → Delivery × Bytes → Service → Run Service
unfolding touch
after_send fd now valid_count (delivered, out) s =
    touch fd now (counted valid_count (record s { wire = s.wire ++ out }))
after_send fd now valid_count (removed, out) s =
    touch fd now (counted valid_count (forget_client fd (record s { wire = s.wire ++ out })))
after_send fd now valid_count (waiting, out) s = endless

-- An event of `epoll_wait`, with what reading from its client meets.
pub record Event : Type 0 where
  pub fd : ℕ
  pub hung_up : Bool
  pub readable : Bool
  pub readings : List Reading

-- What `epoll_wait` returns while `running_` is set: events, `EINTR`, or another error.
pub data Wait : Type 0 where
  events : List Event → Wait
  woken failing : Wait

-- What a round makes of the commands that were handled.
unfoldable pub after_chunk :
    ℕ → Reading → Service → ParseContext × CommandHandler × Bytes × ℕ → Run Service
unfolding after_send send_batch
after_chunk fd r s (parser, handler, batch_response, valid_count) =
    after_send fd r.now valid_count (send_batch r.sends batch_response) (record s {
      infos = set_info fd (record (s.infos fd) { parser = parser }) s.infos;
      handler = handler;
    })

module _ (env : Env) (std_hash : Bytes → ℕ) (z : Zlib) (f : ℕ) (average : ℕ → ℕ → Bytes)
    (memory : Bool) where
  -- A round that got a chunk.
  unfoldable pub handle_chunk : ℕ → Bytes → Reading → Service → Run Service
  unfolding after_chunk
  handle_chunk fd data_ r s =
      process_chunk env std_hash z f average memory r.clock r.times data_ (s.infos fd).parser
        s.handler
      >>= after_chunk fd r s

  -- The loop, with what its rounds meet.
  unfoldable pub receive_loop : ℕ → List Reading → Service → Run Service
  unfolding handle_chunk
  receive_loop fd [] s = endless
  receive_loop fd (r ∷ rest) s = elim r.received [
    | nothing_yet ↦ done (resized round_size fd s)
    | closed ↦ done (forget_client fd s)
    | broken ↦ done (forget_client fd s)
    | chunk data_ ↦
        handle_chunk fd data_ r (resized round_size fd s) >>= (λ s'. receive_loop fd rest s')
  ]

  -- `WorkerThread::process_client_data`
  unfoldable pub process_client_data : ℕ → List Reading → Service → Run Service
  unfolding receive_loop
  process_client_data fd readings s =
      if has_client fd s.worker.clients
      then receive_loop fd readings (resized initial_size fd s)
      else done s

  -- `WorkerThread::handle_client_event`
  unfoldable pub handle_client_event : Event → Service → Run Service
  unfolding process_client_data
  handle_client_event e s =
      if e.hung_up
      then done (forget_client e.fd s)
      else if e.readable
      then process_client_data e.fd e.readings s
      else done s

  unfoldable pub handle_events : List Event → Service → Run Service
  unfolding handle_client_event
  handle_events [] s = done s
  handle_events (e ∷ rest) s = do s' ← handle_client_event e s; handle_events rest s'

  -- `WorkerThread::worker_loop`; it ends with the list as `running_` is cleared.
  unfoldable pub worker_loop : List Wait → Service → Run Service
  unfolding handle_events
  worker_loop [] s = done s
  worker_loop (events ready ∷ rest) s = do s' ← handle_events ready s; worker_loop rest s'
  worker_loop (woken ∷ rest) s = worker_loop rest s
  worker_loop (failing ∷ rest) s = done s
