-- ===== src/Store/Codec.antt =====
-- `compress` and `decompress` of src/DataStore.cpp, over zlib.
use redis_c.Prelude.{
  ℕ, zero, suc, ◌+◌, ◌-◌, ◌*◌, ◌%◌, ◌^◌, ◌≤◌, ◌<◌, ◌≡◌, Bool, true, false, Option, none, some, [],
  ◌∷◌, take, ◌++◌, leb, if◌then◌else◌, Bytes, length, ◌⊎◌, inl, inr, ap, ◌∙◌, refl, arith,
  length-append, append_assoc, Bool-cases, Option-cases,
}
use redis_c.Prelude.Run.{Run, done, runtime_error, endless}

-- What `inflate` returns, as far as the code tells it apart: `Z_STREAM_END`, one of the three
-- errors that it tests for, or anything else (`Z_OK`, `Z_BUF_ERROR`, …).
pub data Status : Type 0 where
  stream_end failed other : Status

-- zlib: a decompression stream, `inflate` with the room that it may fill, which tells the status
-- and the bytes that it wrote, and `deflate(Z_FINISH)`, which tells the output if the stream ended
-- within the room.
pub record Zlib : Type 1 where
  pub Stream : Type 0
  pub inflate_init : Bytes → Option Stream
  pub inflate : ℕ → Stream → Status × Bytes × Stream
  pub deflate_init : Bool
  pub deflate : Bytes → ℕ → Option Bytes

-- `if (zs.total_out >= decompressed.size())`: the buffer is doubled when it is full.
unfoldable pub grow : ℕ → ℕ → ℕ
grow total_out buffer = if leb buffer total_out then buffer * 2 else buffer

module _ (z : Zlib) where
  open z use {Stream, inflate_init, inflate, deflate_init, deflate}

  -- `compress`
  unfoldable pub deflated : Option Bytes → Run Bytes
  deflated none = runtime_error
  deflated (some out) = done out

  unfoldable pub compress : Bytes → Run Bytes
  unfolding deflated
  compress data_ =
      if deflate_init
      then deflated (deflate (take (length data_ % 2 ^ 32) data_) ((length data_ + 128) % 2 ^ 32))
      else runtime_error

  -- The end of a round of `decompress`, with the next round: `out` is what was written before.
  unfoldable pub after_inflate :
      (Bytes → Stream → Run Bytes) → Bytes → Status × Bytes × Stream → Run Bytes
  after_inflate again out (stream_end, written, s) = done (out ++ written)
  after_inflate again out (failed, written, s) = runtime_error
  after_inflate again out (other, written, s) = again (out ++ written) s

  -- The `do … while` of `decompress`: `out` is what was written, `buffer` the buffer's size.
  unfoldable pub inflate_loop : ℕ → Bytes → ℕ → Stream → Run Bytes
  unfolding grow after_inflate
  inflate_loop zero out buffer s = endless
  inflate_loop (suc f) out buffer s =
      let room = grow (length out) buffer in
      after_inflate (λ out' s'. inflate_loop f out' room s') out
        (inflate ((room - length out) % 2 ^ 32) s)

  -- `decompress`, for `f` rounds of its loop at most.
  unfoldable pub decompress : ℕ → Bytes → Run Bytes
  unfolding inflate_loop
  decompress f data_ = elim (inflate_init (take (length data_ % 2 ^ 32) data_)) [
    | none ↦ runtime_error
    | some s ↦ inflate_loop f [] (length data_ * 2) s
  ]

  -- The text of `set` and `get` under `enable_compression_`.
  unfoldable pub encode : Bool → Bytes → Run Bytes
  unfolding compress
  encode enable_compression value = if enable_compression then compress value else done value

  unfoldable pub decode : ℕ → Bool → Bytes → Run Bytes
  unfolding decompress
  decode f enable_compression stored =
      if enable_compression then decompress f stored else done stored

-- What zlib promises, with `Yields s v` for "the rest of the output of the stream `s` is `v`".
-- What `deflate` wrote is not empty and inflates to what it was made of. Given room, `inflate`
-- either ends the stream with the rest of the output, or writes a part of it that is not empty.
pub record ZlibLaw (z : Zlib) : Type 1 where
  pub Yields : z.Stream → Bytes → Type 0
  pub deflated_yields :
      (v : Bytes) (room : ℕ) (data_ : Bytes)
      → z.deflate v room ≡ some data_
      → (0 < length data_) × (s : z.Stream) × (z.inflate_init data_ ≡ some s) × Yields s v
  pub inflate_yields :
      (room : ℕ) (s : z.Stream) (v : Bytes)
      → Yields s v
      → 0 < room
      → ((s' : z.Stream) × (z.inflate room s ≡ (stream_end, v, s')))
        ⊎ ((out : Bytes) × (rest : Bytes) × (s' : z.Stream) × (z.inflate room s ≡ (other, out, s'))
            × (v ≡ out ++ rest)
            × (0 < length out)
            × (length out ≤ room)
            × Yields s' rest)

-- A value that is shorter than the fuel, and small enough, as what it is stored as is, for the
-- 32 bits of `uInt`.
abbrev pub IsCoded : ℕ → Bytes → Bytes → Type 0
IsCoded f value s = (length value < f) × (length value < 2 ^ 31) × (length s < 2 ^ 31)

take_all : (n : ℕ) (s : Bytes) → length s ≤ n → take n s ≡ s
take_all zero [] h = refl
take_all zero (c ∷ s) h = absurd (omega arith)
take_all (suc n) [] h = refl
take_all (suc n) (c ∷ s) h = ap (◌∷◌ c) (take_all n s (omega arith))

-- A size of 32 bits is kept.
pub take_u32 : (s : Bytes) → length s < 2 ^ 31 → take (length s % 2 ^ 32) s ≡ s
take_u32 s h = take_all (length s % 2 ^ 32) s (omega arith)

module _ (z : Zlib) (law : ZlibLaw z) where
  inflate_loop_lem :
      (f : ℕ) (out : Bytes) (buffer : ℕ) (s : z.Stream) (v : Bytes)
      → law.Yields s v
      → length v < f
      → 0 < buffer
      → length out ≤ buffer
      → buffer < 2 ^ 32
      → length out + length v < 2 ^ 31
      → inflate_loop z f out buffer s ≡ done (out ++ v)
  unfolding inflate_loop grow
  inflate_loop_lem zero out buffer s v y h p le b32 v31 = absurd (omega arith)
  inflate_loop_lem (suc f) out buffer s v y h p le b32 v31 =
      let room = grow (length out) buffer in
      let more : length out < room = ground arith in
      let small : room < 2 ^ 32 = ground arith in
      let fits_u32 : (room - length out) % 2 ^ 32 ≡ room - length out = omega arith in
      rw fits_u32 (elim (law.inflate_yields (room - length out) s v y (omega arith)) [
        | inl (s', e) ↦ ap (after_inflate z (λ out' s'. inflate_loop z f out' room s') out) e
        | inr (w, rest, s', e, split, some_out, fits, y') ↦
            ap (after_inflate z (λ out' s'. inflate_loop z f out' room s') out) e
            ∙ rw split (
                inflate_loop_lem f (out ++ w) room s' rest y'
                  (omega (arith, ap (length {A = ℕ}) split, length-append w rest)) (omega arith)
                  (omega (arith, length-append out w)) small
                  (omega
                    (arith, ap (length {A = ℕ}) split, length-append w rest, length-append out w))
                ∙ ap done (append_assoc out w rest))
      ])

  -- Over a zlib that keeps its promise, what `compress` made of a value, or the value itself
  -- without compression, is read back by `get` within more rounds than the value has bytes, where
  -- both are shorter than 2 ^ 31.
  pub decode-encode :
      (f : ℕ) (enable_compression : Bool) (v data_ : Bytes)
      → encode z enable_compression v ≡ done data_
      → IsCoded f v data_
      → decode z f enable_compression data_ ≡ done v
  unfolding encode decode compress deflated decompress
  decode-encode f false v data_ h le = ground arith
  decode-encode f true v data_ h (le, v31, s31) =
      let room : (length v + 128) % 2 ^ 32 ≡ length v + 128 = omega arith in
      elim (Bool-cases z.deflate_init) [
        | inl ok ↦ elim (Option-cases (z.deflate v (length v + 128))) [
          | inl e ↦ absurd (ground (arith, ok, e, h, room, take_u32 v v31))
          | inr (w, e) ↦
              let same : w ≡ data_ = ground (arith, ok, e, h, room, take_u32 v v31) in
              let (pos, s, start, y) =
                law.deflated_yields v (length v + 128) data_ (cc (e, same)) in
              rw (decode, decompress, take_u32 data_ s31, start)
                (inflate_loop_lem f [] (length data_ * 2) s v y le (omega arith) (omega arith)
                  (omega arith) (omega arith))
        ]
        | inr bad ↦ absurd (ground (arith, bad, h))
      ]

-- Where `inflate` has nothing to read and no room, the buffer of size 0 is doubled for ever.
module _ (z : Zlib) (s : z.Stream) (stuck : z.inflate 0 s ≡ (other, [], s)) where
  inflate_loop_endless : (f : ℕ) → inflate_loop z f [] 0 s ≡ endless
  unfolding inflate_loop grow
  inflate_loop_endless zero = refl
  inflate_loop_endless (suc f) =
      ap (after_inflate z (λ out' s'. inflate_loop z f out' 0 s') []) stuck ∙ inflate_loop_endless f

  -- Where `inflate` has nothing to read and makes no progress without room, `decompress` of an
  -- empty stored value does not end within any number of rounds.
  pub decompress-nil : z.inflate_init [] ≡ some s → (f : ℕ) → decompress z f [] ≡ endless
  unfolding decompress
  decompress-nil start f = rw (decompress, start) (inflate_loop_endless f)
