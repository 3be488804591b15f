-- ===== src/Store/RootKey/Settled.antt =====
-- The root key file of internal/store/store.go stands apart from the state.
use gpuardian.Base.{ok, err, String, arith}
use gpuardian.Model.{State}
use gpuardian.Store.Errors.{Fallible}
use gpuardian.Store.Persist.{Io, Store}
use gpuardian.Store.Persist.Transact.{IsSettled}
use gpuardian.Store.RootKey.{read_or_create_root_key, after_root_key, with_root_key}

module _ (P : State → Type 0) where
  root_key-IsSettled :
      (io : Io) (s : Store) → IsSettled P s → IsSettled P (read_or_create_root_key io s).0
  unfolding read_or_create_root_key
  root_key-IsSettled io s h = ground arith

  after_root_key-IsSettled :
      {A : Type 0} (rest : Store → Store × Fallible A) (r : Store × Fallible (Unit {0}))
      → ((s : Store) → IsSettled P s → IsSettled P (rest s).0)
      → IsSettled P r.0
      → IsSettled P (after_root_key rest r).0
  unfolding after_root_key
  after_root_key-IsSettled rest (s, err e) k h = h
  after_root_key-IsSettled rest (s, ok _) k h = k s h

  -- The root key check comes before the operation and leaves the state alone.
  pub with_root_key-IsSettled :
      {A : Type 0} (io : Io) (candidate : String) (rest : Store → Store × Fallible A) (s : Store)
      → ((s : Store) → IsSettled P s → IsSettled P (rest s).0)
      → IsSettled P s
      → IsSettled P (with_root_key io candidate rest s).0
  unfolding with_root_key
  with_root_key-IsSettled io candidate rest s k h =
      after_root_key-IsSettled rest _ k (root_key-IsSettled io s h)
