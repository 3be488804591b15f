-- ===== src/Store/History/Failed.antt =====
-- internal/store/store.go: what any call that returns an error leaves behind.
use gpuardian.Base.{
  true, ◌≡◌, sym, ◌∙◌, ap, ◌⊎◌, inl, inr, String, ℤ, none, some, some_injective, ok, err, on_if,
  ◌||◌, ◌&&◌, ◌==◌, int_eq, is_negative,
}
use gpuardian.Model.{State}
use gpuardian.Store.Errors.{Error, Fallible}
use gpuardian.Store.Persist.{Platform, Io, Store, Plan, transact, checked}
use gpuardian.Store.Persist.Atomic.{transact-Failed}
use gpuardian.Store.RootKey.{with_root_key}
use gpuardian.Store.RootKey.Apart.{IsApartFrom, itself, with_root_key_lem}
use gpuardian.Store.Tokens.{
  register_soft_token, register_token, validate_token, managed_token_by_id, parse_ttl,
  default_token_ttl, max_token_ttl, default_hard_ttl, max_hard_ttl,
}
use gpuardian.Store.Reserve.{
  Request, check_scheduled_request, check_managed_request, register_scheduled_request,
  register_scheduled_reservations, register_hard_reservations, register_managed_reservations,
}
use gpuardian.Store.Sync.{sync_managed_user_keys, check_snapshot}
use gpuardian.Store.Rows.{
  add_lease, update_lease, release_lease, release_reservation, add_authorization,
  update_authorization, activate_authorization, release_authorization, release_scopes,
  upsert_soft_claim, release_soft_claim, add_bypass, none_given,
}
use gpuardian.Store.Revoke.{revoke}
use gpuardian.Store.Prune.{
  prune, prune_unreferenced_invalid_entitlements, prune_inactive_managed_scopes,
}
use gpuardian.Store.History.{
  Op, call, report, registers_soft, registers_token, schedules, reserves_hard, reserves_managed,
  syncs, validates, looks_up, adds_lease, updates_lease, releases_lease, releases_reservation,
  adds_authorization, updates_authorization, activates, releases_authorization, releases_scopes,
  upserts_claim, releases_claim, adds_bypass, revokes, prunes, prunes_scopes, prunes_entitlements,
}

-- A loaded store whose memory is its committed copy.
pub record IsAtRest (s : Store) : Type 0 where
  pub loaded : s.loaded ≡ true
  pub same : s.state ≡ s.committed

-- What a call that returned `e` may leave behind: the store as it was, but for a root key file that
-- was made where there was none; or, where the directory could not be synced behind the rename, a
-- store whose memory is its committed copy.
abbrev pub Leaves : Io → Error → Store → Store → Type 0
Leaves io e s t =
    IsApartFrom s t
    ⊎ ((io.sync_fault ≡ some e)
        × (t.state ≡ t.committed)
        × ((t.root_file ≡ s.root_file) ⊎ (s.root_file ≡ none)))

abbrev FailsWell : {A : Type 0} → Io → Store → Store × Fallible A → Type 0
FailsWell io s r = (e : Error) → r.1 ≡ err e → Leaves io e s r.0

root_through :
    (s s' t : Store)
    → (s'.root_file ≡ s.root_file) ⊎ (s.root_file ≡ none)
    → (t.root_file ≡ s'.root_file) ⊎ (s'.root_file ≡ none)
    → (t.root_file ≡ s.root_file) ⊎ (s.root_file ≡ none)
root_through s s' t (inr n) k = inr n
root_through s s' t (inl m) (inl k) = inl (k ∙ m)
root_through s s' t (inl m) (inr k) = inr (sym m ∙ k)

-- A store that differs in its root key file is left as the first one would be.
through :
    (io : Io) (e : Error) (s s' t : Store) → IsApartFrom s s' → Leaves io e s' t → Leaves io e s t
through io e s s' t a (inl k) = inl (record {
  loaded = k.loaded ∙ a.loaded;
  state = k.state ∙ a.state;
  committed = k.committed ∙ a.committed;
  file = k.file ∙ a.file;
  root_file = root_through s s' t a.root_file k.root_file;
})
through io e s s' t a (inr (fault, same, root)) =
    inr (fault, same, root_through s s' t a.root_file root)

module _ {A : Type 0} (u : Platform) (io : Io) where
  section_fails :
      (body : State → Fallible (Plan A)) (s : Store)
      → IsAtRest s
      → FailsWell io s (transact u io body s)
  section_fails body s h e k = elim (transact-Failed u io body s e h.loaded h.same k) [
    | inl v ↦ inl (record {
      loaded = v.loaded;
      state = v.state ∙ sym h.same;
      committed = v.committed;
      file = v.file;
      root_file = inl v.root_file;
    })
    | inr (planned, a, _, v) ↦ inr (v.fault, v.state ∙ sym v.committed, inl v.root_file)
  ]

  root_fails :
      (rest : Store → Store × Fallible A) (key : String) (s : Store)
      → ((t : Store) → IsAtRest t → FailsWell io t (rest t))
      → IsAtRest s
      → FailsWell io s (with_root_key io key rest s)
  root_fails rest key s k h =
      with_root_key_lem (FailsWell io s) rest s io key (λ t x a e f. inl a)
        λ t a e f. through io e s t (rest t).0 a (
          k t (record { loaded = a.loaded ∙ h.loaded; same = a.state ∙ h.same ∙ sym a.committed }) e
            f)

  checked_fails :
      {B : Type 0} (c : Fallible B) (rest : B → Store → Store × Fallible A) (s : Store)
      → ((b : B) → FailsWell io s (rest b s))
      → FailsWell io s (checked c rest s)
  unfolding checked
  checked_fails (err x) rest s k = λ e f. inl (itself s)
  checked_fails (ok b) rest s k = k b

reported :
    {A : Type 0} (io : Io) (s : Store) (r : Store × Fallible A) (e : Error)
    → FailsWell io s r
    → (report r).1 ≡ some e
    → Leaves io e s (report r).0
reported io s (t, ok a) e h f = cc
reported io s (t, err x) e h f = h e (ap err (some_injective f))

scheduled_fails :
    (u : Platform) (io : Io) (key : String) (q : Request) (s : Store)
    → IsAtRest s
    → FailsWell io s (register_scheduled_request u io key q s)
unfolding register_scheduled_request
scheduled_fails u io key q s h =
    checked_fails u io (check_scheduled_request q) _ s
      λ _. root_fails u io _ key s (section_fails u io _) h

-- Whichever call of a history is made on a loaded store whose memory is its committed copy, if it
-- returns an error: memory, the committed copy and the state file are as they were, and so is the root
-- key file, unless there was none and the call made one; or the error is that the directory could not
-- be synced behind the rename, and memory is the committed copy.
pub call-Leaves :
    (u : Platform) (io : Io) (op : Op) (s : Store) (e : Error)
    → IsAtRest s
    → (call u (io, op) s).1 ≡ some e
    → Leaves io e s (call u (io, op) s).0
unfolding call register_soft_token register_token register_scheduled_reservations
    register_hard_reservations register_managed_reservations sync_managed_user_keys validate_token
    managed_token_by_id add_lease update_lease release_lease release_reservation add_authorization
    update_authorization activate_authorization release_authorization release_scopes
    upsert_soft_claim release_soft_claim add_bypass revoke prune prune_inactive_managed_scopes
    prune_unreferenced_invalid_entitlements
call-Leaves u io (registers_soft key name now) s e h =
    reported io s _ e (root_fails u io _ key s (section_fails u io _) h)
call-Leaves u io (registers_token key name ttl now) s e h = reported io s _ e (
    checked_fails u io (parse_ttl u ttl default_token_ttl max_token_ttl) _ s
      λ _. root_fails u io _ key s (section_fails u io _) h)
call-Leaves u io (schedules key q) s e h = reported io s _ e (scheduled_fails u io key _ s h)
call-Leaves u io (reserves_hard key name gpus ttl now) s e h = reported io s _ e (
    checked_fails u io (parse_ttl u ttl default_hard_ttl max_hard_ttl) _ s
      λ _. scheduled_fails u io key _ s h)
call-Leaves u io (reserves_managed key user_key q) s e h = reported io s _ e (
    root_fails u io _ key s
      (λ t k. checked_fails u io (check_managed_request _) _ t λ _. section_fails u io _ t k) h)
call-Leaves u io (syncs key p now) s e h = reported io s _ e (
    root_fails u io _ key s
      (λ t k. checked_fails u io (check_snapshot u now _) _ t λ _. section_fails u io _ t k) h)
call-Leaves u io (validates secret now) s e h = reported io s _ e (section_fails u io _ s h)
call-Leaves u io (looks_up id now) s e h = reported io s _ e (section_fails u io _ s h)
call-Leaves u io (adds_lease l) s e h = reported io s _ e (section_fails u io _ s h)
call-Leaves u io (updates_lease l) s e h = reported io s _ e (section_fails u io _ s h)
call-Leaves u io (releases_lease id) s e h = reported io s _ e (section_fails u io _ s h)
call-Leaves u io (releases_reservation id) s e h = reported io s _ e (section_fails u io _ s h)
call-Leaves u io (adds_authorization a) s e h = reported io s _ e (section_fails u io _ s h)
call-Leaves u io (updates_authorization a) s e h = reported io s _ e (section_fails u io _ s h)
call-Leaves u io (activates id pid) s e h = reported io s _ e (
    on_if (FailsWell io s) (is_negative pid || pid == ℤ.pos 0) _ _ (λ _ x f. inl (itself s))
      (λ _. section_fails u io _ s h))
call-Leaves u io (releases_authorization id) s e h = reported io s _ e (section_fails u io _ s h)
call-Leaves u io (releases_scopes rs auths ls) s e h = reported io s _ e (
    on_if (FailsWell io s) (none_given rs && none_given auths && none_given ls) _ _
      (λ _ x f. inl (itself s)) (λ _. section_fails u io _ s h))
call-Leaves u io (upserts_claim c now) s e h = reported io s _ e (section_fails u io _ s h)
call-Leaves u io (releases_claim id) s e h = reported io s _ e (section_fails u io _ s h)
call-Leaves u io (adds_bypass b) s e h = reported io s _ e (section_fails u io _ s h)
call-Leaves u io (revokes id) s e h = reported io s _ e (section_fails u io _ s h)
call-Leaves u io (prunes now) s e h = reported io s _ e (section_fails u io _ s h)
call-Leaves u io (prunes_scopes auths ls) s e h = reported io s _ e (
    on_if (FailsWell io s) (none_given auths && none_given ls) _ _ (λ _ x f. inl (itself s))
      (λ _. section_fails u io _ s h))
call-Leaves u io (prunes_entitlements now) s e h = reported io s _ e (section_fails u io _ s h)
