-- ===== src/Store/Persist/Transact.antt =====
-- What a critical section of internal/store/store.go keeps: memory, the committed copy and the file
-- agree between the operations, whatever fails.
use gpuardian.Base.{
  ◌≡◌, refl, ap, sym, subst, ◌⊎◌, inl, inr, List, [], ◌∷◌, map, ok, err, Bool, true, false, arith,
  OnOk, ◌∙◌, String,
}
use gpuardian.Model.{Authorization, Lease, State}
use gpuardian.Store.Errors.{Error, Fallible}
use gpuardian.Store.Persist.{
  Platform, Io, Store, clone_authorization, clone_lease, clone_state, load_locked, save_locked,
  encode_state, write_state, roll_back, Plan, keep, write, write_if, carry_out, finish, transact,
  checked, after_load, write_encoded,
}

clone_authorizations_lem : (xs : List Authorization) → map clone_authorization xs ≡ xs
clone_authorizations_lem [] = refl
clone_authorizations_lem (x ∷ xs) = ap (◌∷◌ x) (clone_authorizations_lem xs)

clone_leases_lem : (xs : List Lease) → map clone_lease xs ≡ xs
clone_leases_lem [] = refl
clone_leases_lem (x ∷ xs) = ap (◌∷◌ x) (clone_leases_lem xs)

-- A clone is equal to its original.
pub clone_state_lem : (s : State) → clone_state s ≡ s
unfolding clone_state
clone_state_lem s = λ i. record s {
  authorizations = clone_authorizations_lem s.authorizations i;
  leases = clone_leases_lem s.leases i;
}

-- The store between two operations, with a property of its state.
pub record IsSettled (P : State → Type 0) (s : Store) : Type 0 where
  pub loaded : s.loaded ≡ true
  pub same : s.state ≡ s.committed
  pub holds : P s.state

-- Where a save may leave the store that it was called on.
record Saves (s t : Store) : Type 0 where
  loaded : t.loaded ≡ s.loaded
  same : t.state ≡ t.committed
  state : (t.state ≡ s.committed) ⊎ (t.state ≡ s.state)

roll_back_err :
    (s t : Store) (e : Error)
    → t.loaded ≡ s.loaded
    → t.committed ≡ s.committed
    → Saves s (roll_back (t, err e)).0
unfolding roll_back
roll_back_err s t e l c = record {
  loaded = l;
  same = clone_state_lem t.committed;
  state = inl (clone_state_lem t.committed ∙ c);
}

write_state-Saves :
    (io : Io) (s : Store) (text : String) → Saves s (roll_back (write_state io s text)).0
unfolding write_state roll_back
write_state-Saves io s text = ground (
  arith,
  clone_state_lem s.state,
  clone_state_lem s.committed,
  clone_state_lem (clone_state s.state),
)

write_encoded-Saves :
    (io : Io) (s : Store) (r : Fallible String) → Saves s (roll_back (write_encoded io s r)).0
unfolding write_encoded
write_encoded-Saves io s (ok text) = write_state-Saves io s text
write_encoded-Saves io s (err e) = roll_back_err s s e refl refl

save_locked-Saves : (u : Platform) (io : Io) (s : Store) → Saves s (save_locked u io s).0
unfolding save_locked
save_locked-Saves u io s = write_encoded-Saves io s (encode_state u io s.state)

load_locked_loaded :
    (u : Platform) (io : Io) (s : Store) → s.loaded ≡ true → load_locked u io s ≡ (s, ok tt)
unfolding load_locked
load_locked_loaded u io s h = simp h

-- A loaded store goes straight to the operation.
pub transact_loaded :
    {A : Type 0} (u : Platform) (io : Io) (body : State → Fallible (Plan A)) (s : Store)
    → s.loaded ≡ true
    → transact u io body s ≡ carry_out u io s (body s.state)
unfolding transact after_load
transact_loaded u io body s h = ap (after_load u io body) (load_locked_loaded u io s h)

module _ (P : State → Type 0) where
  Saves-IsSettled :
      (s t : Store) → Saves s t → s.loaded ≡ true → P s.committed → P s.state → IsSettled P t
  Saves-IsSettled s t v l c h = record {
    loaded = v.loaded ∙ l;
    same = v.same;
    holds = elim v.state [ inl e ↦ subst P (sym e) c | inr e ↦ subst P (sym e) h ];
  }

  abbrev pub PlanKeeps : {A : Type 0} → Plan A → Type 0
  PlanKeeps (keep a) = Unit {0}
  PlanKeeps (write state a) = P state

-- A change that is only saved where something changed.
pub write_if-keeps :
    {A : Type 0} (P : State → Type 0) (changed : Bool) (s : State) (a : A)
    → P s
    → OnOk (PlanKeeps P) (write_if changed s a)
unfolding write_if
write_if-keeps P true s a h = h
write_if-keeps P false s a h = tt

module _ (P : State → Type 0) {A : Type 0} (u : Platform) (io : Io) where
  finish-IsSettled :
      (r : Store × Fallible (Unit {0})) (a : A) → IsSettled P r.0 → IsSettled P (finish r a).0
  unfolding finish
  finish-IsSettled (s, ok _) a h = h
  finish-IsSettled (s, err e) a h = h

  carry_out-IsSettled :
      (s : Store) (plan : Fallible (Plan A))
      → OnOk (PlanKeeps P) plan
      → IsSettled P s
      → IsSettled P (carry_out u io s plan).0
  unfolding carry_out
  carry_out-IsSettled s (err e) k h = h
  carry_out-IsSettled s (ok (keep a)) k h = h
  carry_out-IsSettled s (ok (write state a)) k h =
      let t = record s { state = state } in
      finish-IsSettled (save_locked u io t) a
        (Saves-IsSettled P t _ (save_locked-Saves u io t) h.loaded (subst P h.same h.holds) k)

  -- An operation whose changes keep `P` keeps the store settled, whatever fails on the way.
  pub transact-IsSettled :
      (body : State → Fallible (Plan A)) (s : Store)
      → ((state : State) → P state → OnOk (PlanKeeps P) (body state))
      → IsSettled P s
      → IsSettled P (transact u io body s).0
  transact-IsSettled body s k h =
      subst (λ r. IsSettled P r.0) (sym (transact_loaded u io body s h.loaded))
        (carry_out-IsSettled s (body s.state) (k s.state h.holds) h)

pub checked-IsSettled :
    {A B : Type 0} (P : State → Type 0) (r : Fallible B) (rest : B → Store → Store × Fallible A)
    (s : Store)
    → ((b : B) (t : Store) → r ≡ ok b → IsSettled P t → IsSettled P (rest b t).0)
    → IsSettled P s
    → IsSettled P (checked r rest s).0
unfolding checked
checked-IsSettled P (ok b) rest s k h = k b s refl h
checked-IsSettled P (err e) rest s k h = h
