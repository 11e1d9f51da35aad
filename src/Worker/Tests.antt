-- ===== src/Worker/Tests.antt =====
-- Runs of a worker.
use redis_c.Prelude.{ℕ, ◌≡◌, refl, List, [], ◌∷◌, arith, Bytes}
use redis_c.Prelude.Text.{text, line}
use redis_c.Resp.Encode.{AllRequests}
use redis_c.Commands.State.{CommandHandler}
use redis_c.Commands.Spec.{set, get, del}
use redis_c.Worker.Send.{
  sent, would_block, delivered, send_response-delivered, send_response, send_response_delivers,
}
use redis_c.Worker.Batch.{Named, words_of}
use redis_c.Demo.{demo_store}

send_response_delivers_example :
    send_response
      (sent 2 ∷ would_block ∷ sent 1 ∷ sent 2 ∷ would_block ∷ sent 9 ∷ sent 1 ∷ [])
      (line "+OK")
    ≡ (delivered, line "+OK")
send_response_delivers_example =
    send_response_delivers
      (sent 2 ∷ would_block ∷ sent 1 ∷ sent 2 ∷ would_block ∷ sent 9 ∷ sent 1 ∷ []) (line "+OK")
      (omega arith) (omega arith)

send_response-delivered_example :
    (send_response (sent 2 ∷ would_block ∷ sent 3 ∷ []) (line "+OK")).1 ≡ line "+OK"
unfolding send_response
send_response-delivered_example =
    send_response-delivered (sent 2 ∷ would_block ∷ sent 3 ∷ []) (line "+OK") refl

abbrev no_average : ℕ → ℕ → Bytes
no_average total calls = []

abbrev handler : CommandHandler
handler = record { store = demo_store 5 (text "k") (text "v"); cmd_stats = [] }

abbrev session : List Named
session =
    (text "SET", set (text "a") (text "1"))
    ∷ (text "Get", get (text "k"))
    ∷ (text "del", del (text "k"))
    ∷ []

session-AllRequests : AllRequests (words_of session)
session-AllRequests = omega arith
