-- ===== src/Store/Holds.antt =====
-- What an operation of the cache that returns did, for the threads of src/DataStore.cpp.
use redis_c.Prelude.{
  ℕ, ◌≡◌, Bool, true, Option, none, some, arith, inl, inr, if◌then◌else◌, Bytes, beq, Option-cases,
  dec_lt,
}
use mathlib.Core.Path.{subst}
use redis_c.Prelude.Run.{done}
use redis_c.Cache.State.{Env, Cache}
use redis_c.Cache.Ops
use redis_c.Cache.Valid.{IsValid, cached}
use redis_c.Cache.Laws.{Sets, get-Sets, remove-absent, remove-held, absent-Sets}
use redis_c.Cache.Put.{put-Sets, put_dangling}

-- What an operation of the cache that returns does to what it holds.
pub record Holds (env : Env) (c c' : Cache) (key : Bytes) (x : Option Bytes) : Type 0 where
  pub valid : IsValid c'
  pub holds : (k : Bytes) → cached env c' k ≡ (if beq key k then x else cached env c k)

module _ (env : Env) (c : Cache) (v : IsValid c) (key : Bytes) where
  Sets-Holds :
      (c' : Cache) (x : Option Bytes) (n : ℕ) → Sets env c c' key x n → Holds env c c' key x
  Sets-Holds c' x n s = record { valid = s.valid; holds = s.holds }

  pub put-Holds :
      (now : ℕ) (value : Bytes) (c' : Cache)
      → Ops.put env true now key value c ≡ done c'
      → Holds env c c' key (some value)
  put-Holds now value c' run = elim (dec_lt c.size c.capacity) [
    | yes room ↦
        let (d, run', s) = put-Sets env c now key value v (λ e. room) in
        let same : d ≡ c' = ground (arith, run, run') in
        subst (λ x. Holds env c x key (some value)) same (Sets-Holds d (some value) 1 s)
    | no full ↦ elim (Option-cases (cached env c key)) [
      | inl none_held ↦
          let stuck = put_dangling env c now key value v true none_held (omega arith) in
          absurd (ground (arith, run, stuck))
      | inr (w, e) ↦
          let (d, run', s) = put-Sets env c now key value v (λ n. absurd (ground arith)) in
          let same : d ≡ c' = ground (arith, run, run') in
          subst (λ x. Holds env c x key (some value)) same (Sets-Holds d (some value) 1 s)
    ]
  ]

  pub get-Holds :
      (now : ℕ) (c' : Cache) (o : Option Bytes)
      → Ops.get env now key c ≡ done (c', o)
      → Holds env c c' key (cached env c key) × (o ≡ cached env c key)
  get-Holds now c' o run =
      let (d, run', size, s) = get-Sets env c v key now in
      let same : d ≡ c' = ground (arith, run, run') in
      (
        subst (λ x. Holds env c x key (cached env c key)) same
            (Sets-Holds d (cached env c key) 0 s),
        ground (arith, run, run'),
      )

  pub remove-Holds :
      (c' : Cache) (b : Bool) → Ops.remove env key c ≡ done (c', b) → Holds env c c' key none
  remove-Holds c' b run = elim (Option-cases (cached env c key)) [
    | inl e ↦
        let run' = remove-absent env c v key e in
        let same : c ≡ c' = ground (arith, run, run') in
        subst (λ x. Holds env c x key none) same (Sets-Holds c none 0 (absent-Sets env c v key e))
    | inr (w, e) ↦ let stuck = remove-held env c v key w e in absurd (ground (arith, run, stuck))
  ]
