-- ===== src/Commands/Tests.antt =====
-- Runs of the command handler.
use redis_c.Prelude.{ℕ, ◌≡◌, refl, true, [], ◌∷◌, arith, Bytes, Bool, beq}
use redis_c.Prelude.Run.{done, dangling}
use redis_c.Prelude.Text.{text, line}
use redis_c.Commands.State.{CommandHandler, to_lower, update_command_stats}
use redis_c.Commands.Handle.{handle}
use redis_c.Commands.Spec.{Request, mset, effect}
use redis_c.Commands.Serves.{Serves}
use redis_c.Commands.Refine.{handle-answer}
use redis_c.Store.State.{store_value}
use redis_c.Commands.Deleted.{handle-del_dangling}
use redis_c.Commands.Reject.{IsOneOf, handle-IsOneOf}
use redis_c.Demo.{
  demo_env, demo_hash, demo_zlib, demo_law, demo_store, demo_encode, demo_store-IsCoherent,
  demo_map, demo_Serves,
}

abbrev no_average : ℕ → ℕ → Bytes
no_average total calls = []

abbrev deletable : Bytes → Bool
deletable k = beq (text "d") k

abbrev handler : CommandHandler
handler = record { store = demo_store 5 (text "k") (text "v"); cmd_stats = [] }

abbrev two_pairs : Request
two_pairs = mset (text "a", text "1") ((text "b", text "2") ∷ [])

handle-answer_example :
    (h' : CommandHandler) × (handle demo_env demo_hash demo_zlib 9 no_average true
        (λ n. n)
        3
        (text "MSet" ∷ text "a" ∷ text "1" ∷ text "b" ∷ text "2" ∷ [])
        handler
      ≡ done (h', line "+OK"))
    × Serves demo_env demo_hash demo_zlib demo_law 9 no_average true deletable
        (effect two_pairs (demo_map (text "k") (text "v")))
        1
        h'.store
    × (h'.cmd_stats ≡ (update_command_stats (text "mset") 3 handler).cmd_stats)
unfolding to_lower beq
handle-answer_example =
    handle-answer demo_env demo_hash demo_zlib demo_law 9 no_average true deletable (λ n. n)
      (demo_map (text "k") (text "v")) 1 (text "MSet") two_pairs handler 3 refl
      (demo_Serves no_average deletable 9 5 3 (text "k") (text "v")
        (omega arith, omega arith, omega arith) refl (omega arith) (omega arith))
      (
        refl,
        (
          120 ∷ text "1",
          demo_encode (text "1") (omega arith),
          (omega arith, omega arith, omega arith),
        ),
        (
          refl,
          (
            120 ∷ text "2",
            demo_encode (text "2") (omega arith),
            (omega arith, omega arith, omega arith),
          ),
          tt,
        ),
      )

handle-del_dangling_example :
    (h' : CommandHandler) × (handle demo_env demo_hash demo_zlib 9 no_average true
        (λ n. n)
        3
        (text "Set" ∷ text "a" ∷ text "1" ∷ [])
        handler
      ≡ done (h', line "+OK"))
    × (handle demo_env demo_hash demo_zlib 9 no_average true
          (λ n. n)
          4
          (text "DEL" ∷ text "a" ∷ [])
          h'
        ≡ dangling)
unfolding to_lower store_value
handle-del_dangling_example =
    handle-del_dangling demo_env demo_hash demo_zlib demo_law 9 no_average (λ n. n) handler
      (text "Set") (text "DEL") (text "a") (text "1") (120 ∷ text "1") 3 4 refl refl
      (demo_store-IsCoherent 9 5 (text "k") (text "v") (omega arith, omega arith, omega arith)
        (omega arith) (omega arith))
      (demo_encode (text "1") (omega arith)) (omega arith, omega arith, omega arith)
      (λ h. omega arith)

-- Three words behind `mset`.
handle-IsOneOf_example :
    IsOneOf demo_env demo_hash demo_zlib 9 no_average true
      (λ n. n)
      3
      handler
      (text "mset" ∷ text "a" ∷ text "1" ∷ text "b" ∷ [])
handle-IsOneOf_example =
    handle-IsOneOf demo_env demo_hash demo_zlib 9 no_average true (λ n. n) 3 handler
      (text "mset" ∷ text "a" ∷ text "1" ∷ text "b" ∷ [])
