-- ===== src/Worker/Bursts.antt =====
-- Chunks of whole requests, and what the answers to many requests come to: for
-- `process_client_data` of src/ThreadPool.cpp.
use redis_c.Prelude.{
  ℕ, ◌+◌, ◌≤◌, ◌≡◌, refl, sym, ap, ◌∙◌, true, List, [], ◌∷◌, ◌++◌, append_assoc, arith, ◌==◌, Bytes,
  length,
}
use redis_c.Resp.Encode.{pipeline}
use redis_c.Commands.Spec.{Map, effect, answer}
use redis_c.Worker.Send.{
  SendResult, Delivery, delivered, removed, sent, would_block, failed, send_loop, send_response,
  NoError, sends, send_response_delivers,
}
use redis_c.Worker.Batch.{Named, words_of, effects, answers, growths}
use redis_c.Worker.Receive.{chunk, Reading, send_batch}

-- A chunk of whole requests, and the circumstances of its round.
pub record Burst : Type 0 where
  pub requests : List Named
  pub sending : List SendResult
  pub clock : ℕ → ℕ → ℕ
  pub times : ℕ → ℕ
  pub now : ℕ

unfoldable pub readings : Reading → List Burst → List Reading
readings last [] = last ∷ []
readings last (b ∷ rest) =
    record {
      received = chunk (pipeline (words_of b.requests) []);
      sends = b.sending;
      clock = b.clock;
      times = b.times;
      now = b.now;
    }
    ∷ readings last rest

-- All requests of the bursts, in order.
unfoldable pub requests_of : List Burst → List Named
requests_of [] = []
requests_of (b ∷ rest) = b.requests ++ requests_of rest

pub effects-append : (a b : List Named) (m : Map) → effects (a ++ b) m ≡ effects b (effects a m)
effects-append [] b m = refl
effects-append ((name, r) ∷ a) b m = effects-append a b (effect r m)

pub answers-append :
    (m : Map) (a b : List Named) → answers m (a ++ b) ≡ answers m a ++ answers (effects a m) b
answers-append m [] b = refl
answers-append m ((name, r) ∷ a) b =
    ap (◌++◌ (answer m r)) (answers-append (effect r m) a b)
    ∙ sym (append_assoc (answer m r) (answers (effect r m) a) (answers (effects a (effect r m)) b))

pub growths-append : (a b : List Named) → growths (a ++ b) ≡ growths a + growths b
growths-append [] b = omega arith
growths-append ((name, r) ∷ a) b = omega (arith, growths-append a b)

pub length-named : (a b : List Named) → length (a ++ b) ≡ length a + length b
length-named [] b = omega arith
length-named (r ∷ a) b = omega (arith, length-named a b)

pub same_fd : (fd : ℕ) → (fd == fd) ≡ true
same_fd fd = ground arith

pub send_batch_delivers :
    (calls : List SendResult) (data_ : Bytes)
    → NoError calls
    → length data_ ≤ sends calls
    → send_batch calls data_ ≡ (delivered, data_)
unfolding send_batch
send_batch_delivers calls [] ok h = refl
send_batch_delivers calls (c ∷ data_) ok h = send_response_delivers calls (c ∷ data_) ok h

pub send_response-nil : (calls : List SendResult) → (send_response calls []).0 ≡ delivered
unfolding send_response send_loop
send_response-nil [] = refl
send_response-nil (sent n ∷ calls) = refl
send_response-nil (would_block ∷ calls) = refl
send_response-nil (failed ∷ calls) = refl

pub send_batch-removed :
    (calls : List SendResult) (data_ out : Bytes)
    → send_response calls data_ ≡ (removed, out)
    → send_batch calls data_ ≡ (removed, out)
unfolding send_batch
send_batch-removed calls [] out h =
    let e : removed ≡ delivered =
      sym (ap (λ (d : Delivery × Bytes). d.0) h) ∙ send_response-nil calls in
    absurd (ground arith)
send_batch-removed calls (c ∷ data_) out h = h
