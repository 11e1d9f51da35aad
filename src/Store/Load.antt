-- ===== src/Store/Load.antt =====
-- `load_shard` of src/DataStore.cpp returns, whatever the file holds.
use redis_c.Prelude.{
  ℕ, zero, suc, ◌+◌, ◌<◌, ◌≡◌, refl, ap, ◌∙◌, ◌&&◌, Option, none, some, [], ◌∷◌, arith, leb, Bytes,
  length, drop, length-drop, Bool-cases, Option-cases, inl, inr,
}
use redis_c.Prelude.Run.{done}
use redis_c.Cache.State.{Env}
use redis_c.Store.State.{DataStore}
use redis_c.Store.Persist.{read_u32, read_sizes, fill, place, load_record, load_loop, load_shard}

length-read_sizes :
    (s s' : Bytes) (a b : ℕ) → read_sizes s ≡ some (a, b, s') → length s' + 8 ≡ length s
unfolding read_sizes read_u32
length-read_sizes (a ∷ b ∷ c ∷ d ∷ e ∷ f ∷ g ∷ h ∷ s) s' x y p = ground arith
length-read_sizes [] s' x y p = absurd (ground arith)
length-read_sizes (a ∷ []) s' x y p = absurd (ground arith)
length-read_sizes (a ∷ b ∷ []) s' x y p = absurd (ground arith)
length-read_sizes (a ∷ b ∷ c ∷ []) s' x y p = absurd (ground arith)
length-read_sizes (a ∷ b ∷ c ∷ d ∷ []) s' x y p = absurd (ground arith)
length-read_sizes (a ∷ b ∷ c ∷ d ∷ e ∷ []) s' x y p = absurd (ground arith)
length-read_sizes (a ∷ b ∷ c ∷ d ∷ e ∷ f ∷ []) s' x y p = absurd (ground arith)
length-read_sizes (a ∷ b ∷ c ∷ d ∷ e ∷ f ∷ g ∷ []) s' x y p = absurd (ground arith)

module _ (env : Env) (std_hash : Bytes → ℕ) where
  load_loop_total :
      (f i : ℕ) (file : Bytes) (d : DataStore)
      → length file < f
      → (d' : DataStore) × (load_loop env std_hash f i file d ≡ done d')
  unfolding load_loop
  load_loop_total zero i file d h = absurd (omega arith)
  load_loop_total (suc f) i file d h = elim (Option-cases (read_sizes file)) [
    | inl e ↦ (
      d,
      ap (load_record env std_hash (load_loop env std_hash f i) i d) e ∙ unfold load_record in refl,
    )
    | inr ((a, b, rest), e) ↦
        let d1 = place env std_hash i (fill a rest) (fill b (drop a rest)) d in
        let shorter = length-read_sizes file rest a b e in
        let open_ : load_loop env std_hash (suc f) i file d
            ≡ load_record env std_hash (load_loop env std_hash f i) i d (some (a, b, rest)) =
          ap (load_record env std_hash (load_loop env std_hash f i) i d) e in
        elim (Bool-cases (leb a (length rest) && leb b (length (drop a rest)))) [
          | inl whole ↦
              let (d', run) =
                load_loop_total f i (drop b (drop a rest)) d1
                  (omega (arith, shorter, length-drop b (drop a rest), length-drop a rest)) in
              (d', open_ ∙ unfold load_record in rw whole run)
          | inr cut ↦ (d1, open_ ∙ unfold load_record in rw cut refl)
        ]
  ]

  -- `load_shard` returns for every file, also one that is cut off or is no file of this program.
  pub load_shard_total :
      (i : ℕ) (file : Option Bytes) (d : DataStore)
      → (d' : DataStore) × (load_shard env std_hash i file d ≡ done d')
  unfolding load_shard
  load_shard_total i none d = (d, refl)
  load_shard_total i (some file) d = load_loop_total (suc (length file)) i file d (omega arith)
