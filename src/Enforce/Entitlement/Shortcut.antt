-- ===== src/Enforce/Entitlement/Shortcut.antt =====
-- The shortcut of evictExpiredReservedProcesses in internal/enforce/enforce.go: where
-- staleEvictionPossible says no, no row is stale on any GPU.
use gpuardian.Base.{
  ℕ, String, ℤ, Bool, false, not, ◌||◌, ◌≡◌, refl, List, [], ◌∷◌, any, All, ◌==◌, string_eq, int_eq,
  ==→eq, arith, Bool-cases, inl, inr, subst, All-mono,
}
use gpuardian.Model.{Authorization, Lease, State}
use gpuardian.Store.Persist.{Platform}
use gpuardian.Enforce.Entitlement.{
  Known, Key, has_key, knows_hash, eviction_state_of_mode, may_be_stale,
  authorization_eviction_state, authorization_eviction_mode, authorization_globally_valid,
  lease_eviction_state, lease_entitled_on_gpu, stale_eviction_possible,
}

-- No authorization and no lease of the state is stale on the GPU.
pub record IsCurrent (u : Platform) (s : State) (known : Known) (now : ℕ) (gpu : ℤ) : Type 0 where
  pub authorizations :
      All
        (λ a. (authorization_eviction_state u a gpu s.tokens known now).1 ≡ false)
        s.authorizations
  pub leases : All (λ l. (lease_eviction_state l gpu s.tokens now).1 ≡ false) s.leases

has_key-knows_hash :
    (gpu : ℤ) (hash : String) (ks : List Key)
    → knows_hash hash ks ≡ false
    → has_key gpu hash ks ≡ false
has_key-knows_hash gpu hash [] h = refl
has_key-knows_hash gpu hash (k ∷ ks) h = ground (arith, has_key-knows_hash gpu hash ks)

-- A mode that cannot be stale for what is known on all GPUs is not stale for what is known on one.
mode_current :
    (mode : String) (g v s v' s' : Bool)
    → (v ≡ false → v' ≡ false)
    → (s ≡ false → s' ≡ false)
    → may_be_stale mode g v s ≡ false
    → (eviction_state_of_mode mode g v' s').1 ≡ false
unfolding may_be_stale eviction_state_of_mode
mode_current mode g v s v' s' p q h = ground arith

module _ {ℓ} {A : Type ℓ} where
  any-All : (test : A → Bool) (xs : List A) → any test xs ≡ false → All (λ x. test x ≡ false) xs
  any-All test [] h = tt
  any-All test (x ∷ xs) h = ground (arith, any-All test xs)

or_false : (a b : Bool) → (a || b) ≡ false → (a ≡ false) × (b ≡ false)
or_false a b h = (ground arith, ground arith)

authorization_current :
    (u : Platform) (s : State) (known : Known) (now : ℕ) (gpu : ℤ) (a : Authorization)
    → may_be_stale
        (authorization_eviction_mode u a s.tokens)
        (authorization_globally_valid a s.tokens now)
        (knows_hash a.token_hash known.valid)
        (knows_hash a.token_hash known.stale)
      ≡ false
    → (authorization_eviction_state u a gpu s.tokens known now).1 ≡ false
unfolding authorization_eviction_state
authorization_current u s known now gpu a h =
    mode_current (authorization_eviction_mode u a s.tokens)
      (authorization_globally_valid a s.tokens now) _ _ _ _
      (has_key-knows_hash gpu a.token_hash known.valid)
      (has_key-knows_hash gpu a.token_hash known.stale) h

lease_current :
    (s : State) (now : ℕ) (gpu : ℤ) (l : Lease)
    → not (lease_entitled_on_gpu l l.gpu s.tokens now) ≡ false
    → (lease_eviction_state l gpu s.tokens now).1 ≡ false
unfolding lease_eviction_state
lease_current s now gpu l h = elim (Bool-cases (l.gpu == gpu)) [
  | inl e ↦
      rw e (subst (λ g. not (lease_entitled_on_gpu l g s.tokens now) ≡ false) (==→eq l.gpu gpu e) h)
  | inr e ↦ rw e refl
]

-- Where the shortcut finds that no eviction is possible, no authorization and no lease is stale on
-- any GPU, so that skipping the inspection of the processes misses none that should be evicted.
pub stale_eviction_possible-IsCurrent :
    (u : Platform) (s : State) (known : Known) (now : ℕ)
    → stale_eviction_possible u s known now ≡ false
    → (gpu : ℤ) → IsCurrent u s known now gpu
unfolding stale_eviction_possible
stale_eviction_possible-IsCurrent u s known now h gpu = record {
  authorizations =
      All-mono (authorization_current u s known now gpu) s.authorizations
        (any-All _ s.authorizations ((or_false _ _ h).0));
  leases = All-mono (lease_current s now gpu) s.leases (any-All _ s.leases ((or_false _ _ h).1));
}
