-- ===== src/Commands/Refine.antt =====
-- `handle` does to the store, and answers, what the abstract map does.
use redis_c.Prelude.{
  ℕ, suc, ◌+◌, ◌%◌, ◌≡◌, refl, ap, ◌∙◌, Bool, true, false, some, List, [], ◌∷◌, ◌++◌, arith, ltb,
  ◌==◌, if◌then◌else◌, Bytes, beq, length,
}
use redis_c.Prelude.Assoc.{lookup}
use redis_c.Prelude.Decimal.{to_string}
use redis_c.Prelude.Run.{done, ◌>>=◌}
use redis_c.Cache.State.{Env}
use redis_c.Cache.Laws.{is_some}
use redis_c.Store.Codec.{Zlib, ZlibLaw}
use redis_c.Store.State.{DataStore}
use redis_c.Prelude.Text.{text, line}
use redis_c.Commands.State.{
  CommandFunc, handle_set, handle_get, handle_del, handle_mset, handle_mget, cmd_handlers,
  CommandHandler, to_lower, update_command_stats,
}
use redis_c.Commands.Handle.{
  value_reply, pairs, set_all, run_set, run_get, run_del, run_mset, run_mget, call, dispatch,
  handle,
}
use redis_c.Commands.Spec.{
  Map, Request, set, get, del, mset, mget, name_of, arguments, flat, effect, answer, growth,
}
use redis_c.Commands.Serves.{
  Serves, Serves-le, Fits, set-Serves, get-Serves, del-Serves, set_all-Serves, get_all-Serves,
}

abbrev func_of : Request → CommandFunc
func_of (set key value) = handle_set
func_of (get key) = handle_get
func_of (del key) = handle_del
func_of (mset pair rest) = handle_mset
func_of (mget key keys) = handle_mget

lookup-cmd_handlers : (r : Request) → lookup (name_of r) cmd_handlers ≡ some (func_of r)
unfolding lookup cmd_handlers beq
lookup-cmd_handlers (set key value) = refl
lookup-cmd_handlers (get key) = refl
lookup-cmd_handlers (del key) = refl
lookup-cmd_handlers (mset pair rest) = refl
lookup-cmd_handlers (mget key keys) = refl

del_reply :
    (b : Bool)
    → text ":" ++ to_string (if b then 1 else 0) ++ (13 ∷ 10 ∷ [])
      ≡ (if b then line ":1" else line ":0")
unfolding to_string
del_reply true = refl
del_reply false = refl

pairs-flat : (l : List (Bytes × Bytes)) → pairs (flat l) ≡ l
unfolding pairs
pairs-flat [] = refl
pairs-flat ((key, value) ∷ l) = ap (λ rest. (key, value) ∷ rest) (pairs-flat l)

length-flat : (l : List (Bytes × Bytes)) → length (flat l) ≡ length l + length l
length-flat [] = omega arith
length-flat (p ∷ l) = omega (arith, length-flat l)

module _ (env : Env) (std_hash : Bytes → ℕ) (z : Zlib) (law : ZlibLaw z) (f : ℕ)
    (average : ℕ → ℕ → Bytes) (compression : Bool) (deletable : Bytes → Bool) (clock : ℕ → ℕ) where
  abbrev Served : Map → ℕ → DataStore → Type 0
  Served = Serves env std_hash z law f average compression deletable

  module _ (m : Map) (n : ℕ) (name : Bytes) where
    run_mset-pairs :
        (pair : Bytes × Bytes) (rest : List (Bytes × Bytes)) (d : DataStore)
        → run_mset env std_hash z f average true clock (name ∷ flat (pair ∷ rest)) d ≡ (
            set_all env std_hash z f average true clock (pair ∷ rest) d
            >>= (λ d'. done (d', line "+OK")))
    unfolding run_mset
    run_mset-pairs pair rest d =
        let long : ltb (length (name ∷ flat (pair ∷ rest))) 3 ≡ false =
          ground (arith, length-flat (pair ∷ rest)) in
        let odd : (length (name ∷ flat (pair ∷ rest)) % 2 == 1) ≡ true =
          ground (arith, length-flat (pair ∷ rest)) in
        rw (long, odd)
          (ap
            (λ l. set_all env std_hash z f average true clock l d >>= (λ d'. done (d', line "+OK")))
            (pairs-flat (pair ∷ rest)))

    call-answer :
        (r : Request) (h : CommandHandler)
        → Served m (growth r + n) h.store
        → Fits env std_hash z law f average compression deletable r
        → (d' : DataStore) × (call env std_hash z f average true
              (func_of r)
              clock
              (name ∷ arguments r)
              h
            ≡ done (d', answer m r))
          × Served (effect r m) n d'
    unfolding call run_set run_get run_del run_mget
    call-answer (set key value) h v w =
        let (d', run, v') =
          set-Serves env std_hash z law f average compression deletable m n h.store (clock 0) key
            value
            (Serves-le env std_hash z law f average compression deletable m (1 + n) (suc n) h.store
              (omega arith) v)
            (w.0, w.1) in
        (d', ap (λ r. r >>= (λ d'. done (d', line "+OK"))) run, v')
    call-answer (get key) h v w =
        let (d', run, v') =
          get-Serves env std_hash z law f average compression deletable m n h.store (clock 0) key
            w.0
            (Serves-le env std_hash z law f average compression deletable m (1 + n) (suc n) h.store
              (omega arith) v) in
        (d', ap (λ r. r >>= (λ (d', value). done (d', value_reply value))) run, v')
    call-answer (del key) h v w =
        let (d', run, v') =
          del-Serves env std_hash z law f average compression deletable m n h.store key w (
            Serves-le env std_hash z law f average compression deletable m (0 + n) n h.store
              (omega arith) v) in
        (
          d',
          ap
                (λ r. r >>= (λ (d', success).
                  done (d', text ":" ++ to_string (if success then 1 else 0) ++ (13 ∷ 10 ∷ []))))
                run
              ∙ ap (λ b. done (d', b)) (del_reply (is_some (m key))),
          v',
        )
    call-answer (mset pair rest) h v w =
        let (d', run, v') =
          set_all-Serves env std_hash z law f average compression deletable clock (pair ∷ rest) m n
            h.store v w in
        (
          d',
          run_mset-pairs pair rest h.store ∙ ap (λ r. r >>= (λ d'. done (d', line "+OK"))) run,
          v',
        )
    call-answer (mget key keys) h v w =
        let (d', run, v') =
          get_all-Serves env std_hash z law f average compression deletable clock (key ∷ keys) m n
            h.store w v in
        (
          d',
          ap
              (λ r. r >>= (λ (d', response).
                done
                  (d', text "*" ++ to_string (length (key ∷ keys)) ++ (13 ∷ 10 ∷ []) ++ response)))
              run,
          v',
        )

    -- A well formed request, its name in any letter case, whose values the compressor accepts, to
    -- a store that serves a map and has room for its keys, is answered as the map says: `del` is
    -- for the keys that are deletable, which the cache does not hold, and all else for other keys.
    -- The store then serves the map as the request changes it, and the command is counted once in
    -- the statistics.
    pub handle-answer :
        (r : Request) (h : CommandHandler) (execution_time : ℕ)
        → to_lower name ≡ name_of r
        → Served m (growth r + n) h.store
        → Fits env std_hash z law f average compression deletable r
        → (h' : CommandHandler) × (handle env std_hash z f average true clock execution_time
              (name ∷ arguments r)
              h
            ≡ done (h', answer m r))
          × Served (effect r m) n h'.store
          × (h'.cmd_stats ≡ (update_command_stats (name_of r) execution_time h).cmd_stats)
    unfolding handle dispatch update_command_stats
    handle-answer r h execution_time same v w =
        let (d', run, v') = call-answer r h v w in
        (
          update_command_stats (name_of r) execution_time (record h { store = d' }),
          rw same (
              ap
                (dispatch env std_hash z f average true clock execution_time (name_of r)
                  (name ∷ arguments r) h)
                (lookup-cmd_handlers r)
              ∙ ap
                  (λ q. q >>= (λ (d, result). done (
                    update_command_stats (name_of r) execution_time (record h { store = d }),
                    result,
                  )))
                  run),
          v',
          refl,
        )
