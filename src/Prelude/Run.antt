-- ===== src/Prelude/Run.antt =====
-- The outcome of a method that may raise, or never return.

-- `blocked`: the thread waits for ever. `bad_alloc` and `runtime_error` are the exceptions.
-- `dangling` is undefined behaviour: the use of an iterator or a reference whose object is gone, a
-- mutex that is locked twice by one thread, an index out of range, a division by zero. `endless`
-- is a loop that was still running when the model's fuel was used up.
pub data Run {ℓ} (A : Type ℓ) : Type ℓ where
  done : A → Run A
  blocked bad_alloc dangling runtime_error endless : Run A

infixl 5 ◌>>=◌
abbrev pub ◌>>=◌ {ℓ κ} : {A : Type ℓ} {B : Type κ} → Run A → (A → Run B) → Run B
done a >>= f = f a
blocked >>= f = blocked
bad_alloc >>= f = bad_alloc
dangling >>= f = dangling
runtime_error >>= f = runtime_error
endless >>= f = endless
