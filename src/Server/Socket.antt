-- ===== src/Server/Socket.antt =====
-- The options that `RedisServer::optimize_socket` of src/RedisServer.cpp sets.
use redis_c.Prelude.{
  ℕ, ◌-◌, ◌*◌, ◌%◌, ◌^◌, ◌<◌, ◌≡◌, refl, true, List, [], ◌∷◌, arith, ltb, if◌then◌else◌,
}
use redis_c.Prelude.Decimal.{ℤ, pos, negsuc}
use redis_c.Config.Load.{Config}

-- The levels and names of the options.
pub data SocketOption : Type 0 where
  reuse_addr reuse_port tcp_nodelay rcvbuf sndbuf : SocketOption

-- `int x = n` for a `size_t n`.
unfoldable pub to_int : ℕ → ℤ
to_int n = if ltb (n % 2 ^ 32) (2 ^ 31) then pos (n % 2 ^ 32) else negsuc (2 ^ 32 - 1 - n % 2 ^ 32)

-- `optimize_socket`: the calls of `setsockopt`, whose results are not read, in their order.
unfoldable pub optimize_socket : Config → List (SocketOption × ℤ)
unfolding to_int
optimize_socket config =
    let buf_size = to_int (config.buffer_size * 2 % 2 ^ 64) in
    (reuse_addr, pos 1)
    ∷ (reuse_port, pos 1)
    ∷ (tcp_nodelay, pos 1)
    ∷ (rcvbuf, buf_size)
    ∷ (sndbuf, buf_size)
    ∷ []

-- A buffer below 2 ^ 30 bytes is asked for twice, as it is meant.
to_int_fits : (n : ℕ) → n < 2 ^ 30 → to_int (n * 2 % 2 ^ 64) ≡ pos (n * 2)
unfolding to_int
to_int_fits n h =
    let wraps : n * 2 % 2 ^ 64 ≡ n * 2 = omega (arith, h) in
    let fits : n * 2 % 2 ^ 32 ≡ n * 2 = omega (arith, h) in
    let small : ltb (n * 2) (2 ^ 31) ≡ true = ground (arith, h) in rw (wraps, fits, small) refl

-- A buffer of 2 ^ 30 bytes makes it negative.
to_int_negative : to_int (2 ^ 30 * 2 % 2 ^ 64) ≡ negsuc (2 ^ 31 - 1)
unfolding to_int
to_int_negative = refl
