-- ===== src/Worker/Batch.antt =====
-- The commands of one chunk: `WorkerThread::process_client_data` of src/ThreadPool.cpp between
-- `recv` and `send_response`.
use redis_c.Prelude.{
  ℕ, suc, ◌+◌, ◌≡◌, refl, ap, ◌∙◌, Bool, true, List, [], ◌∷◌, ◌++◌, arith, Bytes, length,
}
use redis_c.Prelude.Run.{Run, done, runtime_error, endless, ◌>>=◌}
use redis_c.Cache.State.{Env}
use redis_c.Store.Codec.{Zlib, ZlibLaw}
use redis_c.Resp.Parser.{Outcome, parsed, incomplete, thrown, out_of_fuel}
use redis_c.Resp.Context.{ParseContext, fresh, parse}
use redis_c.Resp.Encode.{pipeline, AllRequests}
use redis_c.Resp.RoundTrip.{parse-pipeline}
use redis_c.Commands.State.{CommandHandler, to_lower}
use redis_c.Commands.Handle.{handle}
use redis_c.Commands.Spec.{Map, Request, name_of, arguments, effect, answer, growth}
use redis_c.Commands.Serves.{Serves, Serves-le, Fits}
use redis_c.Commands.Refine.{handle-answer}

module _ (env : Env) (std_hash : Bytes → ℕ) (z : Zlib) (f : ℕ) (average : ℕ → ℕ → Bytes)
    (memory : Bool) where
  -- The loop over `commands`: the handler, `batch_response` and `valid_count`. `clock j` and
  -- `times j` are the clock and the execution time of the `j`-th command.
  unfoldable pub handle_all :
      (ℕ → ℕ → ℕ) → (ℕ → ℕ) → List (List Bytes) → CommandHandler → Run (CommandHandler × Bytes × ℕ)
  handle_all clock times [] h = done (h, [], 0)
  handle_all clock times ([] ∷ rest) h = handle_all clock times rest h
  handle_all clock times ((name ∷ args) ∷ rest) h = do
    (h', response) ← handle env std_hash z f average memory (clock 0) (times 0) (name ∷ args) h
    (h'', batch_response, valid_count) ←
        handle_all (λ j. clock (suc j)) (λ j. times (suc j)) rest h'
    done (h'', response ++ batch_response, suc valid_count)

  -- A chunk that `recv` gave. What `parse` throws leaves the thread's function, as
  -- `runtime_error` stands for.
  unfoldable pub after_parse :
      (ℕ → ℕ → ℕ)
      → (ℕ → ℕ)
      → CommandHandler
      → Outcome (List (List Bytes)) × ParseContext
      → Run (ParseContext × CommandHandler × Bytes × ℕ)
  unfolding handle_all
  after_parse clock times h (parsed commands, parser) = do
    (h', batch_response, valid_count) ← handle_all clock times commands h
    done (parser, h', batch_response, valid_count)
  after_parse clock times h (thrown, parser) = runtime_error
  after_parse clock times h (incomplete, parser) = done (parser, h, [], 0)
  after_parse clock times h (out_of_fuel, parser) = endless

  unfoldable pub process_chunk :
      (ℕ → ℕ → ℕ)
      → (ℕ → ℕ)
      → Bytes
      → ParseContext
      → CommandHandler
      → Run (ParseContext × CommandHandler × Bytes × ℕ)
  unfolding after_parse
  process_chunk clock times chunk parser h = after_parse clock times h (parse parser chunk)

-- Requests as a client writes them: the name in any letter case.
abbrev pub Named : Type 0
Named = Bytes × Request

abbrev pub words_of : List Named → List (List Bytes)
words_of [] = []
words_of ((name, r) ∷ rest) = (name ∷ arguments r) ∷ words_of rest

abbrev pub AllNamed : List Named → Type 0
AllNamed [] = Unit
AllNamed ((name, r) ∷ rest) = (to_lower name ≡ name_of r) × AllNamed rest

abbrev pub effects : List Named → Map → Map
effects [] m = m
effects ((name, r) ∷ rest) m = effects rest (effect r m)

abbrev pub answers : Map → List Named → Bytes
answers m [] = []
answers m ((name, r) ∷ rest) = answer m r ++ answers (effect r m) rest

abbrev pub growths : List Named → ℕ
growths [] = 0
growths ((name, r) ∷ rest) = growth r + growths rest

module _ (env : Env) (std_hash : Bytes → ℕ) (z : Zlib) (law : ZlibLaw z) (f : ℕ)
    (average : ℕ → ℕ → Bytes) (compression : Bool) (deletable : Bytes → Bool) where
  abbrev pub Written : List Named → Type 0
  Written [] = Unit
  Written ((name, r) ∷ rest) =
      Fits env std_hash z law f average compression deletable r × Written rest

  handle_all-answers :
      (clock : ℕ → ℕ → ℕ) (times : ℕ → ℕ) (reqs : List Named) (m : Map) (n : ℕ) (h : CommandHandler)
      → AllNamed reqs
      → Written reqs
      → Serves env std_hash z law f average compression deletable m (growths reqs + n) h.store
      → (h' : CommandHandler) × (handle_all env std_hash z f average true clock times
            (words_of reqs)
            h
          ≡ done (h', answers m reqs, length reqs))
        × Serves env std_hash z law f average compression deletable (effects reqs m) n h'.store
  unfolding handle_all
  handle_all-answers clock times [] m n h a w v = (
    h,
    refl,
    Serves-le env std_hash z law f average compression deletable m (0 + n) n h.store (omega arith)
        v,
  )
  handle_all-answers clock times ((name, r) ∷ rest) m n h a w v =
      let (h1, run1, v1, stats) =
        handle-answer env std_hash z law f average compression deletable (clock 0) m
          (growths rest + n) name r h (times 0) a.0
          (Serves-le env std_hash z law f average compression deletable m
            (growth r + growths rest + n) (growth r + (growths rest + n)) h.store (omega arith) v)
          w.0 in
      let (h2, run2, v2) =
        handle_all-answers (λ j. clock (suc j)) (λ j. times (suc j)) rest (effect r m) n h1 a.1 w.1
          v1 in
      (
        h2,
        ap
              (λ q. q >>= (λ (h', response).
                handle_all env std_hash z f average true (λ j. clock (suc j)) (λ j. times (suc j))
                  (words_of rest) h'
                >>= (λ (h'', batch_response, valid_count).
                    done (h'', response ++ batch_response, suc valid_count))))
              run1
            ∙ ap
                (λ q. q >>= (λ (h'', batch_response, valid_count).
                  done (h'', answer m r ++ batch_response, suc valid_count)))
                run2,
        v2,
      )

  -- A pipeline of well formed requests that a parser with nothing pending gets in one chunk,
  -- whose values the compressor accepts, for a store that serves a map and has room for their
  -- keys, is answered as the map says, request by request and in order. The parser then has
  -- nothing pending, and the store serves the map as the requests change it.
  pub process_chunk-answers :
      (clock : ℕ → ℕ → ℕ) (times : ℕ → ℕ) (reqs : List Named) (m : Map) (n : ℕ) (h : CommandHandler)
      → AllRequests (words_of reqs)
      → AllNamed reqs
      → Written reqs
      → Serves env std_hash z law f average compression deletable m (growths reqs + n) h.store
      → (h' : CommandHandler) × (process_chunk env std_hash z f average true clock times
            (pipeline (words_of reqs) [])
            fresh
            h
          ≡ done (fresh, h', answers m reqs, length reqs))
        × Serves env std_hash z law f average compression deletable (effects reqs m) n h'.store
  unfolding process_chunk after_parse
  process_chunk-answers clock times reqs m n h q a w v =
      let (h', run, v') = handle_all-answers clock times reqs m n h a w v in
      (
        h',
        ap (after_parse env std_hash z f average true clock times h)
              (parse-pipeline (words_of reqs) q)
            ∙ ap
                (λ r. r >>= (λ (h', batch_response, valid_count).
                  done (fresh, h', batch_response, valid_count)))
                run,
        v',
      )
