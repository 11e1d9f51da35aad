-- ===== src/Worker/Answers.antt =====
-- What a client gets over many chunks: `process_client_data` of src/ThreadPool.cpp, from the
-- bytes that come in to the bytes that go out.
use redis_c.Prelude.{
  ℕ, ◌+◌, ◌%◌, ◌^◌, ◌≤◌, ◌≡◌, refl, sym, ap, ◌∙◌, Bool, true, false, List, [], ◌∷◌, ◌++◌,
  append_assoc, append-nil, arith, Bytes, length,
}
use redis_c.Prelude.Run.{done, dangling, ◌>>=◌}
use redis_c.Cache.State.{Env}
use redis_c.Store.Codec.{Zlib, ZlibLaw}
use redis_c.Resp.Context.{fresh}
use redis_c.Resp.Encode.{pipeline, AllRequests}
use redis_c.Commands.Spec.{Map}
use redis_c.Commands.Serves.{Serves, Serves-le}
use redis_c.Worker.Send.{removed, send_response, NoError, sends}
use redis_c.Worker.Batch.{
  process_chunk, Named, words_of, AllNamed, effects, answers, growths, Written,
  process_chunk-answers,
}
use redis_c.Worker.Clients.{WorkerThread, has_client, remove_client}
use redis_c.Worker.Count.{erased}
use redis_c.Worker.Receive.{
  Service, set_info, chunk, nothing_yet, Reading, initial_size, round_size, resized, counted,
  touched, touch, after_send, after_chunk, handle_chunk, receive_loop, process_client_data,
}
use redis_c.Worker.Bursts.{
  Burst, readings, requests_of, effects-append, answers-append, growths-append, length-named,
  same_fd, send_batch_delivers, send_batch-removed,
}

module _ (env : Env) (std_hash : Bytes → ℕ) (z : Zlib) (law : ZlibLaw z) (f : ℕ)
    (average : ℕ → ℕ → Bytes) (compression : Bool) (deletable : Bytes → Bool) where
  -- What is asked of the bursts, where the store serves `m` before them: well formed requests
  -- with values that the compressor accepts, and calls of `send` that take the answers.
  abbrev pub AllReady : Map → List Burst → Type 0
  AllReady m [] = Unit
  AllReady m (b ∷ rest) =
      AllRequests (words_of b.requests)
      × AllNamed b.requests
      × Written env std_hash z law f average compression deletable b.requests
      × NoError b.sending
      × (length (answers m b.requests) ≤ sends b.sending)
      × AllReady (effects b.requests m) rest

  -- A client at a boundary of requests, of a worker whose store serves a map.
  pub record IsServing (fd : ℕ) (m : Map) (n : ℕ) (s : Service) : Type 0 where
    pub boundary : (s.infos fd).parser ≡ fresh
    pub serves : Serves env std_hash z law f average compression deletable m n s.handler.store

  -- What a run of the loop adds.
  pub record IsAnswered (fd : ℕ) (m : Map) (n : ℕ) (reqs : List Named) (s t : Service)
      : Type 0 where
    pub serving : IsServing fd (effects reqs m) n t
    pub wire : t.wire ≡ s.wire ++ answers m reqs
    pub commands :
        t.worker.processed_commands % 2 ^ 64 ≡ (s.worker.processed_commands + length reqs) % 2 ^ 64
    pub clients : t.worker.clients ≡ s.worker.clients

  resized-IsServing :
      (g : ℕ → ℕ) (fd : ℕ) (m : Map) (n : ℕ) (s : Service)
      → IsServing fd m n s
      → IsServing fd m n (resized g fd s)
  resized-IsServing g fd m n s v = record {
    boundary = rw (same_fd fd) v.boundary;
    serves = v.serves;
  }

  abbrev pub reading_of : Burst → Reading
  reading_of b = record {
    received = chunk (pipeline (words_of b.requests) []);
    sends = b.sending;
    clock = b.clock;
    times = b.times;
    now = b.now;
  }

  handle_chunk-IsAnswered :
      (fd : ℕ) (m : Map) (n : ℕ) (b : Burst) (s : Service)
      → AllRequests (words_of b.requests)
      → AllNamed b.requests
      → Written env std_hash z law f average compression deletable b.requests
      → NoError b.sending
      → length (answers m b.requests) ≤ sends b.sending
      → has_client fd s.worker.clients ≡ true
      → IsServing fd m (growths b.requests + n) s
      → (t : Service) × (handle_chunk env std_hash z f average true fd
            (pipeline (words_of b.requests) [])
            (reading_of b)
            s
          ≡ done t)
        × IsAnswered fd m n b.requests s t
  unfolding handle_chunk after_chunk after_send touch
  handle_chunk-IsAnswered fd m n b s q a w ok fits there v =
      let (h', run, v') =
        process_chunk-answers env std_hash z law f average compression deletable b.clock b.times
          b.requests m n s.handler q a w v.serves in
      let end = record s {
        infos = set_info fd (record (s.infos fd) { parser = fresh }) s.infos;
        handler = h';
      } in
      let t =
        touched fd b.now
          (counted (length b.requests) (record end { wire = s.wire ++ answers m b.requests })) in
      (
        t,
        ap
              (λ p.
                process_chunk env std_hash z f average true b.clock b.times
                  (pipeline (words_of b.requests) []) p s.handler
                >>= after_chunk fd (reading_of b) s)
              v.boundary
            ∙ ap (λ r. r >>= after_chunk fd (reading_of b) s) run
            ∙ ap (λ d. after_send fd b.now (length b.requests) d end)
                (send_batch_delivers b.sending (answers m b.requests) ok fits)
            ∙ rw there refl,
        record {
          serving = record { boundary = rw (same_fd fd) refl; serves = v' };
          wire = refl;
          commands = grind arith;
          clients = refl;
        },
      )

  receive_loop-IsAnswered :
      (fd : ℕ) (m : Map) (n : ℕ) (bursts : List Burst) (last : Reading) (s : Service)
      → last.received ≡ nothing_yet
      → AllReady m bursts
      → has_client fd s.worker.clients ≡ true
      → IsServing fd m (growths (requests_of bursts) + n) s
      → (t : Service) × (receive_loop env std_hash z f average true fd (readings last bursts) s
          ≡ done t)
        × IsAnswered fd m n (requests_of bursts) s t
  unfolding receive_loop readings requests_of
  receive_loop-IsAnswered fd m n [] last s e ready there v = (
    resized round_size fd s,
    rw e refl,
    record {
      serving = resized-IsServing round_size fd m n s (record {
        boundary = v.boundary;
        serves =
            Serves-le env std_hash z law f average compression deletable m (0 + n) n s.handler.store
              (omega arith) v.serves;
      });
      wire = sym (append-nil s.wire);
      commands = grind arith;
      clients = refl;
    },
  )
  receive_loop-IsAnswered fd m n (b ∷ rest) last s e (q, a, w, ok, fits, ready) there v =
      let k = growths (requests_of rest) + n in
      let room : growths b.requests + k ≡ growths (b.requests ++ requests_of rest) + n =
        omega (arith, growths-append b.requests (requests_of rest)) in
      let s0 = resized round_size fd s in
      let (s1, run1, v1) = handle_chunk-IsAnswered fd m k b s0 q a w ok fits there (
        resized-IsServing round_size fd m (growths b.requests + k) s (record {
          boundary = v.boundary;
          serves =
              Serves-le env std_hash z law f average compression deletable m
                (growths (b.requests ++ requests_of rest) + n) (growths b.requests + k)
                s.handler.store (omega (arith, room)) v.serves;
        })) in
      let (t, run2, v2) =
        receive_loop-IsAnswered fd (effects b.requests m) n rest last s1 e ready
          (ap (has_client fd) v1.clients ∙ there) v1.serving in
      (
        t,
        ap
              (λ r.
                r >>= (λ s'. receive_loop env std_hash z f average true fd (readings last rest) s'))
              run1
            ∙ run2,
        record {
          serving = rw (effects-append b.requests (requests_of rest) m) v2.serving;
          wire =
              v2.wire
              ∙ ap (λ x. x ++ answers (effects b.requests m) (requests_of rest)) v1.wire
              ∙ append_assoc s.wire (answers m b.requests)
                  (answers (effects b.requests m) (requests_of rest))
              ∙ ap (◌++◌ s.wire) (sym (answers-append m b.requests (requests_of rest)));
          commands =
              grind (arith, v1.commands, v2.commands, length-named b.requests (requests_of rest));
          clients = v2.clients ∙ v1.clients;
        },
      )

  -- Where a client of the worker is at a boundary of requests, and the store serves a map and has
  -- room for the keys: chunks of whole well formed requests, however the requests are spread over
  -- the chunks, with values that the compressor accepts, `del` for other keys than the rest, which
  -- the cache does not hold, and calls of `send` that take the answers, until `recv` has nothing
  -- more. What goes out are the answers of the map to all requests in order, the requests are
  -- counted, the client stays, at a boundary again, and the store serves the map as the requests
  -- change it.
  pub process_client_data-answers :
      (fd : ℕ) (m : Map) (n : ℕ) (bursts : List Burst) (last : Reading) (s : Service)
      → has_client fd s.worker.clients ≡ true
      → last.received ≡ nothing_yet
      → AllReady m bursts
      → IsServing fd m (growths (requests_of bursts) + n) s
      → (t : Service) × (process_client_data env std_hash z f average true fd
            (readings last bursts)
            s
          ≡ done t)
        × IsAnswered fd m n (requests_of bursts) s t
  unfolding process_client_data
  process_client_data-answers fd m n bursts last s there e ready v =
      let (t, run, a) =
        receive_loop-IsAnswered fd m n bursts last (resized initial_size fd s) e ready there
          (resized-IsServing initial_size fd m (growths (requests_of bursts) + n) s v) in
      (
        t,
        rw there run,
        record { serving = a.serving; wire = a.wire; commands = a.commands; clients = a.clients },
      )

  removed_client :
      (fd : ℕ) (w : WorkerThread)
      → has_client fd w.clients ≡ true
      → has_client fd (remove_client fd w).clients ≡ false
  unfolding remove_client
  removed_client fd w there = rw there (erased fd w.clients)

  -- Where a client of the worker is at a boundary of requests, the first chunk has whole well
  -- formed requests, and `send` fails for their answers, so that `send_response` removes the
  -- client: the worker goes on to use the `ClientInfo` that is gone, whatever comes next.
  pub process_client_data_dangling :
      (fd : ℕ) (m : Map) (n : ℕ) (b : Burst) (rest : List Reading) (s : Service) (out : Bytes)
      → has_client fd s.worker.clients ≡ true
      → AllRequests (words_of b.requests)
      → AllNamed b.requests
      → Written env std_hash z law f average compression deletable b.requests
      → IsServing fd m (growths b.requests + n) s
      → send_response b.sending (answers m b.requests) ≡ (removed, out)
      → process_client_data env std_hash z f average true fd (reading_of b ∷ rest) s ≡ dangling
  unfolding process_client_data receive_loop handle_chunk after_chunk after_send touch
  process_client_data_dangling fd m n b rest s out there q a w v fails =
      let (h', run, v') =
        process_chunk-answers env std_hash z law f average compression deletable b.clock b.times
          b.requests m n s.handler q a w v.serves in
      let s0 = resized round_size fd (resized initial_size fd s) in
      let end = record s0 {
        infos = set_info fd (record (s0.infos fd) { parser = fresh }) s0.infos;
        handler = h';
      } in
      let gone : after_send fd b.now (length b.requests) (removed, out) end ≡ dangling =
        rw (removed_client fd s.worker there) refl in
      let at =
        resized-IsServing round_size fd m (growths b.requests + n) (resized initial_size fd s)
          (resized-IsServing initial_size fd m (growths b.requests + n) s v) in
      rw there (
        ap (λ r. r >>= (λ s'. receive_loop env std_hash z f average true fd rest s'))
          (ap
              (λ p.
                process_chunk env std_hash z f average true b.clock b.times
                  (pipeline (words_of b.requests) []) p s.handler
                >>= after_chunk fd (reading_of b) s0)
              at.boundary
            ∙ ap (λ r. r >>= after_chunk fd (reading_of b) s0) run
            ∙ ap (λ d. after_send fd b.now (length b.requests) d end)
                (send_batch-removed b.sending (answers m b.requests) out fails)
            ∙ gone))
