-- ===== src/Commands/Deleted.antt =====
-- `handle_set` and then `handle_del` of src/CommandHandler.cpp, for the same key.
use redis_c.Prelude.{ℕ, ◌≡◌, refl, ap, ◌∙◌, true, some, [], ◌∷◌, ◌++◌, if◌then◌else◌, Bytes, beq}
use redis_c.Prelude.Assoc.{lookup}
use redis_c.Prelude.Decimal.{to_string}
use redis_c.Prelude.Run.{done, dangling, ◌>>=◌}
use redis_c.Prelude.Text.{text, line}
use redis_c.Cache.State.{Env}
use redis_c.Store.Codec.{Zlib, ZlibLaw, IsCoded, encode}
use redis_c.Store.Contents.{IsCoherent, HasRoom}
use redis_c.Store.Deleted.{set-del_dangling}
use redis_c.Commands.State.{
  CommandHandler, handle_set, handle_del, cmd_handlers, to_lower, update_command_stats,
}
use redis_c.Commands.Handle.{run_set, run_del, call, dispatch, handle}

in_table_set : lookup (text "set") cmd_handlers ≡ some handle_set
unfolding lookup cmd_handlers beq
in_table_set = refl

in_table_del : lookup (text "del") cmd_handlers ≡ some handle_del
unfolding lookup cmd_handlers beq
in_table_del = refl

module _ (env : Env) (std_hash : Bytes → ℕ) (z : Zlib) (law : ZlibLaw z) (f : ℕ)
    (average : ℕ → ℕ → Bytes) (clock : ℕ → ℕ) where
  -- On a coherent store with room in its cache, the command `set`, its name in any letter case,
  -- with a value that the compressor accepts and sizes that fit, answers `+OK`, and a command
  -- `del` of the same key that follows is undefined.
  pub handle-del_dangling :
      (h : CommandHandler) (set_name del_name key value s : Bytes) (t u : ℕ)
      → to_lower set_name ≡ text "set"
      → to_lower del_name ≡ text "del"
      → IsCoherent env std_hash z f h.store
      → encode z h.store.enable_compression value ≡ done s
      → IsCoded f value s
      → HasRoom env std_hash z f h.store key
      → (h' : CommandHandler) × (handle env std_hash z f average true clock t
            (set_name ∷ key ∷ value ∷ [])
            h
          ≡ done (h', line "+OK"))
        × (handle env std_hash z f average true clock u (del_name ∷ key ∷ []) h' ≡ dangling)
  unfolding handle dispatch call run_set run_del update_command_stats
  handle-del_dangling h set_name del_name key value s t u is_set is_del v e coded room =
      let (d', run, undefined) =
        set-del_dangling env std_hash z f h.store v key law (clock 0) value s e coded room in
      let h' = update_command_stats (text "set") t (record h { store = d' }) in
      (
        h',
        rw is_set (
            ap
              (dispatch env std_hash z f average true clock t (text "set")
                (set_name ∷ key ∷ value ∷ []) h)
              in_table_set
            ∙ ap
                (λ q. q >>= (λ d'. done (d', line "+OK")) >>= (λ (d, result).
                  done (update_command_stats (text "set") t (record h { store = d }), result)))
                run),
        rw is_del (
            ap
              (dispatch env std_hash z f average true clock u (text "del") (del_name ∷ key ∷ []) h')
              in_table_del
            ∙ ap
                (λ q.
                  q
                  >>= (λ (d', success).
                      done (d', text ":" ++ to_string (if success then 1 else 0) ++ (13 ∷ 10 ∷ [])))
                  >>= (λ (d, result).
                      done (update_command_stats (text "del") u (record h' { store = d }), result)))
                undefined),
      )
