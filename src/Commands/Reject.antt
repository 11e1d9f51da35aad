-- ===== src/Commands/Reject.antt =====
-- Every other command is answered with an error and changes nothing: `handle` and the argument
-- checks of src/CommandHandler.cpp.
use redis_c.Prelude.{
  ℕ, ◌%◌, ◌≡◌, refl, ap, ◌∙◌, Bool, false, some, List, [], ◌∷◌, ◌++◌, arith, ltb, ◌==◌, Bytes,
  beq_iff, length, Bool-cases, Option-cases, inl, inr, ◌⊎◌,
}
use redis_c.Prelude.Assoc.{lookup}
use redis_c.Prelude.Run.{done, ◌>>=◌}
use redis_c.Prelude.Text.{text, line}
use redis_c.Cache.State.{Env}
use redis_c.Store.Codec.{Zlib}
use redis_c.Commands.State.{
  CommandFunc, handle_set, handle_get, handle_del, handle_mset, handle_mget, handle_info,
  cmd_handlers, CommandHandler, to_lower, update_command_stats,
}
use redis_c.Commands.Handle.{run_set, run_get, run_del, run_mset, run_mget, call, dispatch, handle}
use redis_c.Commands.Spec.{Request, set, get, del, mset, mget, name_of, arguments, flat}

abbrev key_of : CommandFunc → Bytes
key_of handle_set = text "set"
key_of handle_get = text "get"
key_of handle_del = text "del"
key_of handle_mset = text "mset"
key_of handle_mget = text "mget"
key_of handle_info = text "info"

key_of-cmd_handlers :
    (k : Bytes) (func : CommandFunc) → lookup k cmd_handlers ≡ some func → k ≡ key_of func
unfolding lookup cmd_handlers
key_of-cmd_handlers k func h = ground (
  arith,
  beq_iff (text "set") k,
  beq_iff (text "get") k,
  beq_iff (text "del") k,
  beq_iff (text "mset") k,
  beq_iff (text "mget") k,
  beq_iff (text "info") k,
  h,
)

-- The words of a well formed request, the name in any letter case.
abbrev pub IsWellFormed : List Bytes → Type 0
IsWellFormed cmd =
    (name : Bytes) × (r : Request) × (cmd ≡ name ∷ arguments r) × (to_lower name ≡ name_of r)

abbrev pub IsInfo : List Bytes → Type 0
IsInfo cmd =
    (name : Bytes) × (args : List Bytes) × (cmd ≡ name ∷ args) × (to_lower name ≡ text "info")

-- Words in pairs, or an odd number of them.
in_pairs : (l : List Bytes) → ((ps : List (Bytes × Bytes)) × (l ≡ flat ps)) ⊎ (length l % 2 ≡ 1)
in_pairs [] = inl ([], refl)
in_pairs (k ∷ []) = inr refl
in_pairs (k ∷ v ∷ rest) = elim (in_pairs rest) [
  | inl (ps, e) ↦ inl ((k, v) ∷ ps, ap (λ l. k ∷ v ∷ l) e)
  | inr odd ↦ inr (omega (arith, odd))
]

module _ (env : Env) (std_hash : Bytes → ℕ) (z : Zlib) (f : ℕ) (average : ℕ → ℕ → Bytes)
    (memory : Bool) (clock : ℕ → ℕ) (execution_time : ℕ) (h : CommandHandler) where
  -- The reply is an error, and the store is as it was.
  abbrev pub IsRejected : List Bytes → Type 0
  IsRejected cmd =
      (message : Bytes) × (h' : CommandHandler) × (handle env std_hash z f average memory clock
          execution_time cmd h
        ≡ done (h', text "-ERR " ++ message))
      × (h'.store ≡ h.store)

  abbrev pub IsOneOf : List Bytes → Type 0
  IsOneOf cmd = IsWellFormed cmd ⊎ (IsInfo cmd ⊎ IsRejected cmd)

  refused :
      (name : Bytes) (args : List Bytes) (func : CommandFunc) (message : Bytes)
      → lookup (to_lower name) cmd_handlers ≡ some func
      → call env std_hash z f average memory func clock (name ∷ args) h
        ≡ done (h.store, text "-ERR " ++ message)
      → IsRejected (name ∷ args)
  unfolding handle dispatch update_command_stats
  refused name args func message found run = (
    message,
    update_command_stats (to_lower name) execution_time h,
    ap
          (dispatch env std_hash z f average memory clock execution_time (to_lower name)
            (name ∷ args) h)
          found
        ∙ ap
            (λ r. r >>= (λ (d, result). done (
              update_command_stats (to_lower name) execution_time (record h { store = d }),
              result,
            )))
            run,
    refl,
  )

  wrong : Bytes → Bytes
  wrong name = text "wrong number of arguments for '" ++ name ++ line "' command"

  mset-IsOneOf :
      (name : Bytes) (args : List Bytes)
      → lookup (to_lower name) cmd_handlers ≡ some handle_mset
      → to_lower name ≡ text "mset"
      → ((ps : List (Bytes × Bytes)) × (args ≡ flat ps)) ⊎ (length args % 2 ≡ 1)
      → IsOneOf (name ∷ args)
  unfolding call run_mset wrong
  mset-IsOneOf name args found e (inl (p ∷ ps, shape)) =
      inl (name, mset p ps, ap (λ l. name ∷ l) shape, e)
  mset-IsOneOf name args found e (inl ([], shape)) =
      inr (inr (refused name args handle_mset (wrong (text "mset")) found (rw shape refl)))
  mset-IsOneOf name args found e (inr odd) =
      let even : (length (name ∷ args) % 2 == 1) ≡ false = ground (arith, odd) in
      inr (
        inr (
          refused name args handle_mset (wrong (text "mset")) found
            (elim (Bool-cases (ltb (length (name ∷ args)) 3)) [
              | inl short ↦ rw (run_mset, short) refl
              | inr long ↦ rw (run_mset, long, even) refl
            ])))

  func-IsOneOf :
      (name : Bytes) (args : List Bytes) (func : CommandFunc)
      → lookup (to_lower name) cmd_handlers ≡ some func
      → to_lower name ≡ key_of func
      → IsOneOf (name ∷ args)
  unfolding call run_set run_get run_del run_mget wrong
  func-IsOneOf name (k ∷ v ∷ []) handle_set found e = inl (name, set k v, refl, e)
  func-IsOneOf name [] handle_set found e =
      inr (inr (refused name [] handle_set (wrong (text "set")) found refl))
  func-IsOneOf name (k ∷ []) handle_set found e =
      inr (inr (refused name (k ∷ []) handle_set (wrong (text "set")) found refl))
  func-IsOneOf name (k ∷ v ∷ x ∷ rest) handle_set found e =
      inr (inr (refused name (k ∷ v ∷ x ∷ rest) handle_set (wrong (text "set")) found refl))
  func-IsOneOf name (k ∷ []) handle_get found e = inl (name, get k, refl, e)
  func-IsOneOf name [] handle_get found e =
      inr (inr (refused name [] handle_get (wrong (text "get")) found refl))
  func-IsOneOf name (k ∷ x ∷ rest) handle_get found e =
      inr (inr (refused name (k ∷ x ∷ rest) handle_get (wrong (text "get")) found refl))
  func-IsOneOf name (k ∷ []) handle_del found e = inl (name, del k, refl, e)
  func-IsOneOf name [] handle_del found e =
      inr (inr (refused name [] handle_del (wrong (text "del")) found refl))
  func-IsOneOf name (k ∷ x ∷ rest) handle_del found e =
      inr (inr (refused name (k ∷ x ∷ rest) handle_del (wrong (text "del")) found refl))
  func-IsOneOf name args handle_mset found e = mset-IsOneOf name args found e (in_pairs args)
  func-IsOneOf name (k ∷ keys) handle_mget found e = inl (name, mget k keys, refl, e)
  func-IsOneOf name [] handle_mget found e =
      inr (inr (refused name [] handle_mget (wrong (text "mget")) found refl))
  func-IsOneOf name args handle_info found e = inr (inl (name, args, refl, e))

  -- A command is a well formed request, or `info`, or it is rejected: the reply is an error that
  -- begins with `-ERR `, and the store is as it was.
  pub handle-IsOneOf : (cmd : List Bytes) → IsOneOf cmd
  unfolding handle dispatch
  handle-IsOneOf [] = inr (inr (line "empty command", h, refl, refl))
  handle-IsOneOf (name ∷ args) = elim (Option-cases (lookup (to_lower name) cmd_handlers)) [
    | inr (func, found) ↦
        func-IsOneOf name args func found (key_of-cmd_handlers (to_lower name) func found)
    | inl unknown ↦ inr (
        inr (
          text "unknown command '" ++ to_lower name ++ line "'",
          h,
          ap
              (dispatch env std_hash z f average memory clock execution_time (to_lower name)
                (name ∷ args) h)
              unknown,
          refl,
        ))
  ]
