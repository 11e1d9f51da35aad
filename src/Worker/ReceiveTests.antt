-- ===== src/Worker/ReceiveTests.antt =====
-- A client's chunks on concrete inputs.
use redis_c.Prelude.{Bool, ℕ, zero, suc, ◌≡◌, refl, true, List, [], ◌∷◌, arith, Bytes, beq}
use redis_c.Prelude.Run.{done, dangling}
use redis_c.Prelude.Text.{text}
use redis_c.Resp.Context.{fresh}
use redis_c.Commands.State.{to_lower}
use redis_c.Commands.Handle.{value_reply}
use redis_c.Prelude.Decimal.{to_string}
use redis_c.Commands.Spec.{set, get, del}
use redis_c.Worker.Send.{SendResult, sent, would_block, failed, send_response, NoError}
use redis_c.Worker.Batch.{Named}
use redis_c.Worker.Clients.{has_client}
use redis_c.Worker.Receive.{Service, Reading, nothing_yet, process_client_data}
use redis_c.Worker.Bursts.{Burst, readings, requests_of}
use redis_c.Worker.Answers.{
  IsServing, IsAnswered, reading_of, process_client_data-answers, process_client_data_dangling,
}
use redis_c.Demo.{
  demo_env, demo_hash, demo_zlib, demo_law, demo_store, demo_encode, demo_map, demo_Serves,
}

abbrev no_average : ℕ → ℕ → Bytes
no_average total calls = []

abbrev deletable : Bytes → Bool
deletable k = beq (text "d") k

abbrev service : Service
service = record {
  worker = record { clients = 7 ∷ []; client_count = 1; processed_commands = 0 };
  infos = λ fd. record { read_size = 8192; parser = fresh; last_active = 0 };
  handler = record { store = demo_store 5 (text "k") (text "v"); cmd_stats = [] };
  wire = [];
}

-- One byte in each call of `send`.
abbrev bytewise : ℕ → List SendResult
bytewise zero = []
bytewise (suc n) = would_block ∷ sent 1 ∷ bytewise n

bytewise-NoError : (n : ℕ) → NoError (bytewise n)
bytewise-NoError zero = tt
bytewise-NoError (suc n) = (omega arith, bytewise-NoError n)

abbrev burst : List Named → List SendResult → Burst
burst requests sending = record {
  requests = requests;
  sending = sending;
  clock = λ j n. j;
  times = λ j. 3;
  now = 1;
}

abbrev one : List Named
one = (text "SET", set (text "a") (text "1")) ∷ []

abbrev two : List Named
two = (text "Get", get (text "k")) ∷ (text "del", del (text "d")) ∷ []

abbrev bursts : List Burst
bursts = burst one (bytewise 5) ∷ burst two (bytewise 11) ∷ []

abbrev last : Reading
last = record { received = nothing_yet; sends = []; clock = λ j n. j; times = λ j. 3; now = 2 }

service-IsServing :
    IsServing demo_env demo_hash demo_zlib demo_law 9 no_average true deletable 7
      (demo_map (text "k") (text "v"))
      3
      service
unfolding beq
service-IsServing = record {
  boundary = refl;
  serves =
      demo_Serves no_average deletable 9 5 3 (text "k") (text "v")
        (omega arith, omega arith, omega arith) refl (omega arith) (omega arith);
}

process_client_data-answers_example :
    (t : Service) × (process_client_data demo_env demo_hash demo_zlib 9 no_average true 7
        (readings last bursts)
        service
      ≡ done t)
    × IsAnswered demo_env demo_hash demo_zlib demo_law 9 no_average true deletable 7
        (demo_map (text "k") (text "v"))
        1
        (requests_of bursts)
        service
        t
unfolding to_lower has_client requests_of beq value_reply to_string
process_client_data-answers_example =
    process_client_data-answers demo_env demo_hash demo_zlib demo_law 9 no_average true deletable 7
      (demo_map (text "k") (text "v")) 1 bursts last service refl refl
      (
        (omega arith),
        (refl, tt),
        (
          (
            refl,
            (
              120 ∷ text "1",
              demo_encode (text "1") (omega arith),
              (omega arith, omega arith, omega arith),
            ),
            tt,
          ),
          tt,
        ),
        bytewise-NoError 5,
        omega arith,
        (
          omega arith,
          (refl, (refl, tt)),
          ((refl, tt), (refl, tt)),
          bytewise-NoError 11,
          omega arith,
          tt,
        ),
      )
      service-IsServing

process_client_data_dangling_example :
    process_client_data demo_env demo_hash demo_zlib 9 no_average true 7
      (reading_of demo_env demo_hash demo_zlib demo_law 9 no_average true deletable
          (burst one (sent 2 ∷ failed ∷ []))
        ∷ [])
      service
    ≡ dangling
unfolding to_lower has_client send_response beq
process_client_data_dangling_example =
    process_client_data_dangling demo_env demo_hash demo_zlib demo_law 9 no_average true deletable 7
      (demo_map (text "k") (text "v")) 2 (burst one (sent 2 ∷ failed ∷ [])) [] service
      (43 ∷ 79 ∷ []) refl (omega arith) (refl, tt)
      (
        (
          refl,
          (
            120 ∷ text "1",
            demo_encode (text "1") (omega arith),
            (omega arith, omega arith, omega arith),
          ),
          tt,
        ),
        tt,
      )
      service-IsServing refl
