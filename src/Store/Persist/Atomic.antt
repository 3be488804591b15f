-- ===== src/Store/Persist/Atomic.antt =====
-- What a failed critical section of internal/store/store.go leaves behind.
use gpuardian.Base.{
  ◌≡◌, refl, sym, ap, subst, ◌∙◌, ◌⊎◌, inl, inr, some, ok, err, arith, String, true,
}
use gpuardian.Model.{State}
use gpuardian.Store.Errors.{Error, Fallible}
use gpuardian.Store.Persist.{
  Platform, Io, Store, Plan, keep, write, clone_state, encode_state, write_state, write_encoded,
  roll_back, save_locked, finish, carry_out, transact,
}
use gpuardian.Store.Persist.Transact.{clone_state_lem, transact_loaded}

-- Nothing happened: memory is back at the committed copy, and the file is the old one.
pub record IsUndone (s t : Store) : Type 0 where
  pub loaded : t.loaded ≡ s.loaded
  pub state : t.state ≡ s.committed
  pub committed : t.committed ≡ s.committed
  pub file : t.file ≡ s.file
  pub root_file : t.root_file ≡ s.root_file

-- The rename was done, and only the directory could not be synced: the change stands everywhere.
pub record IsDone (io : Io) (e : Error) (planned : State) (s t : Store) : Type 0 where
  pub fault : io.sync_fault ≡ some e
  pub root_file : t.root_file ≡ s.root_file
  pub state : t.state ≡ planned
  pub committed : t.committed ≡ planned

write_state_err :
    (io : Io) (s : Store) (text : String) (e : Error)
    → (roll_back (write_state io s text)).1 ≡ err e
    → IsUndone s (roll_back (write_state io s text)).0
      ⊎ IsDone io e s.state s (roll_back (write_state io s text)).0
unfolding write_state roll_back
write_state_err io s text e h = ground (
  arith,
  clone_state_lem s.state,
  clone_state_lem s.committed,
  clone_state_lem (clone_state s.state),
)

write_encoded_err :
    (io : Io) (s : Store) (r : Fallible String) (e : Error)
    → (roll_back (write_encoded io s r)).1 ≡ err e
    → IsUndone s (roll_back (write_encoded io s r)).0
      ⊎ IsDone io e s.state s (roll_back (write_encoded io s r)).0
unfolding write_encoded
write_encoded_err io s (ok text) e h = write_state_err io s text e h
write_encoded_err io s (err x) e h = inl (
    unfold roll_back in
    record {
      state = clone_state_lem s.committed;
      committed = refl;
      file = refl;
      root_file = refl;
      loaded = refl;
    })

save_locked_err :
    (u : Platform) (io : Io) (s : Store) (e : Error)
    → (save_locked u io s).1 ≡ err e
    → IsUndone s (save_locked u io s).0 ⊎ IsDone io e s.state s (save_locked u io s).0
unfolding save_locked
save_locked_err u io s e h = write_encoded_err io s (encode_state u io s.state) e h

finish_err :
    {A : Type 0} (r : Store × Fallible (Unit {0})) (a : A) (e : Error)
    → (finish r a).1 ≡ err e
    → (r.1 ≡ err e) × ((finish r a).0 ≡ r.0)
unfolding finish
finish_err (s, ok _) a e h = cc
finish_err (s, err x) a e h = ground arith

-- A plan that failed, on a store whose memory equals its committed copy: either nothing happened, or
-- the planned state is in memory and committed and only the sync of the directory failed.
abbrev pub Failed : {A : Type 0} → Io → Error → Store → Fallible (Plan A) → Store → Type 0
Failed {A} io e s plan t =
    IsUndone s t ⊎ ((state : State) × (a : A) × (plan ≡ ok (write state a)) × IsDone io e state s t)

carry_out_err :
    {A : Type 0} (u : Platform) (io : Io) (s : Store) (plan : Fallible (Plan A)) (e : Error)
    → s.state ≡ s.committed
    → (carry_out u io s plan).1 ≡ err e
    → Failed io e s plan (carry_out u io s plan).0
unfolding carry_out
carry_out_err u io s (err x) e same h =
    inl (record { state = same; committed = refl; file = refl; root_file = refl; loaded = refl })
carry_out_err u io s (ok (keep a)) e same h = cc
carry_out_err u io s (ok (write state a)) e same h =
    let t = record s { state = state } in
    let (failed, left) = finish_err (save_locked u io t) a e h in
    elim (save_locked_err u io t e failed) [
      | inl v ↦ inl (
          subst (IsUndone s) (sym left) (record {
            state = v.state;
            committed = v.committed;
            file = v.file;
            root_file = v.root_file;
            loaded = v.loaded;
          }))
      | inr v ↦ inr (
        state,
        a,
        refl,
        subst (IsDone io e state s) (sym left) (record {
          fault = v.fault;
          root_file = v.root_file;
          state = v.state;
          committed = v.committed;
        }),
      )
    ]

-- The critical section of an operation, which loads, runs the operation's body and saves: on a store
-- at rest, where it returns an error, memory, the committed copy, the state file and the root key file
-- are as they were, except that where the directory could not be synced behind the rename the change
-- that the body planned is in force in memory and committed, and the root key file is as it was. A
-- root key that is checked or made before the critical section is not part of it.
pub transact-Failed :
    {A : Type 0} (u : Platform) (io : Io) (body : State → Fallible (Plan A)) (s : Store) (e : Error)
    → s.loaded ≡ true
    → s.state ≡ s.committed
    → (transact u io body s).1 ≡ err e
    → Failed io e s (body s.state) (transact u io body s).0
transact-Failed u io body s e loaded same h =
    let straight = transact_loaded u io body s loaded in
    subst (λ r. Failed io e s (body s.state) r.0) (sym straight)
      (carry_out_err u io s (body s.state) e same (sym (ap (λ r. r.1) straight) ∙ h))
