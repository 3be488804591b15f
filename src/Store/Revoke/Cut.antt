-- ===== src/Store/Revoke/Cut.antt =====
-- What Revoke of internal/store/store.go cuts off: the key, its reservations, authorizations, leases.
use gpuardian.Base.{
  ℕ, ◌≡◌, refl, ◌⊎◌, inl, inr, true, false, List, [], ◌∷◌, map, any, All, find, ok, err, arith,
  String, ◌==◌, string_eq, ==→eq, is_empty, if◌then◌else◌, trim_space, Bool-cases,
}
use gpuardian.Model.{Token, Reservation, Authorization, Lease, State, reservation_active_at}
use gpuardian.Store.Errors.{token_revoked, token_not_found}
use gpuardian.Store.Persist.{Platform, write}
use gpuardian.Store.Validity.{authorization_active_at}
use gpuardian.Store.Tokens.{hash_token, judge_token, find_valid_token}
use gpuardian.Store.Revoke.{
  is_target, revoke_tokens, revoke_if_reservation, revoke_if_authorization, expire_if_lease,
  revoke_rows, revoke_body, target_hash, managed_group,
}

-- Every token of that id carries the hash.
abbrev pub IdHasHash : String → String → List Token → Type 0
IdHasHash id hash = All (λ t. t.id ≡ id → t.hash ≡ hash)

next_hash :
    (id hash : String) (t : Token)
    → is_empty hash ≡ false
    → (t.id ≡ id → t.hash ≡ hash)
    → (if is_target id hash t.id t.hash then t.hash else hash) ≡ hash
next_hash id hash t solid k = elim (Bool-cases (t.id == id)) [
  | inl e ↦ let same = k (==→eq t.id id e) in ground arith
  | inr e ↦ let same = ==→eq t.hash hash in ground (arith, same)
]

revoked_if_hit :
    (id hash : String) (t : Token)
    → is_empty hash ≡ false
    → let t' = if is_target id hash t.id t.hash then record t { revoked = true } else t in
      t'.hash ≡ hash → t'.revoked ≡ true
revoked_if_hit id hash t solid = elim (Bool-cases (is_target id hash t.id t.hash)) [
  | inl e ↦ rw e (λ _. refl)
  | inr e ↦ rw e (λ h. let hit = string_eq.complete t.hash hash h in ground arith)
]

-- The hash does not move along the loop, and all tokens that carry it are revoked.
revoke_tokens_lem :
    (id hash : String) (ts : List Token)
    → is_empty hash ≡ false
    → IdHasHash id hash ts
    → ((revoke_tokens id hash ts).0 ≡ hash)
      × All (λ t. t.hash ≡ hash → t.revoked ≡ true) (revoke_tokens id hash ts).1
unfolding revoke_tokens
revoke_tokens_lem id hash [] solid k = (refl, tt)
revoke_tokens_lem id hash (t ∷ ts) solid k =
    let (same, cut) = revoke_tokens_lem id hash ts solid k.1 in
    rw (next_hash id hash t solid k.0) (same, (revoked_if_hit id hash t solid, cut))

-- A key whose stored tokens are all revoked is refused, whenever it is presented.
abbrev pub IsRefused : Platform → String → State → Type 0
IsRefused u hash s =
    (secret : String) (now : ℕ)
    → hash_token u (trim_space secret) ≡ hash
    → (find_valid_token u secret now s ≡ err token_revoked)
      ⊎ (find_valid_token u secret now s ≡ err token_not_found)

judge_refused :
    (u : Platform) (now : ℕ) (hash : String) (ts : List Token)
    → All (λ t. t.hash ≡ hash → t.revoked ≡ true) ts
    → (judge_token u now (find (λ t. t.hash == hash) ts) ≡ err token_revoked)
      ⊎ (judge_token u now (find (λ t. t.hash == hash) ts) ≡ err token_not_found)
unfolding judge_token
judge_refused u now hash [] k = inr refl
judge_refused u now hash (t ∷ ts) k = elim (Bool-cases (t.hash == hash)) [
  | inl e ↦ rw e (inl (rw (k.0 (==→eq t.hash hash e)) refl))
  | inr e ↦ rw e (judge_refused u now hash ts k.1)
]

-- What holds of a state from which a key has been cut off.
pub record IsCutOff (u : Platform) (clock : ℕ) (hash : String) (s : State) : Type 0 where
  pub refused : IsRefused u hash s
  pub reservations :
      All (λ r. r.token_hash ≡ hash → (t : ℕ) → reservation_active_at r t ≡ false) s.reservations
  pub authorizations :
      All
        (λ a. a.token_hash ≡ hash → (t : ℕ) → authorization_active_at a t ≡ false)
        s.authorizations
  pub leases : All (λ l. l.token_hash ≡ hash → l.expires_at ≡ clock) s.leases

reservations_cut :
    (id hash : String) (rs : List Reservation)
    → is_empty hash ≡ false
    → All
        (λ r. r.token_hash ≡ hash → (t : ℕ) → reservation_active_at r t ≡ false)
        (map (revoke_if_reservation id hash) rs)
unfolding reservation_active_at
reservations_cut id hash [] solid = tt
reservations_cut id hash (r ∷ rs) solid = (
  λ h t. let hit = string_eq.complete r.token_hash hash in ground (arith, hit),
  reservations_cut id hash rs solid,
)

authorizations_cut :
    (id hash : String) (rs : List Authorization)
    → is_empty hash ≡ false
    → All
        (λ a. a.token_hash ≡ hash → (t : ℕ) → authorization_active_at a t ≡ false)
        (map (revoke_if_authorization id hash) rs)
unfolding authorization_active_at
authorizations_cut id hash [] solid = tt
authorizations_cut id hash (a ∷ rs) solid = (
  λ h t. let hit = string_eq.complete a.token_hash hash in ground (arith, hit),
  authorizations_cut id hash rs solid,
)

leases_cut :
    (clock : ℕ) (id hash : String) (ls : List Lease)
    → is_empty hash ≡ false
    → All (λ l. l.token_hash ≡ hash → l.expires_at ≡ clock) (map (expire_if_lease clock id hash) ls)
leases_cut clock id hash [] solid = tt
leases_cut clock id hash (l ∷ ls) solid = (
  λ h. let hit = string_eq.complete l.token_hash hash in ground (arith, hit),
  leases_cut clock id hash ls solid,
)

hit_lem :
    (id hash : String) (ts : List Token)
    → is_empty hash ≡ false
    → IdHasHash id hash ts
    → any (λ t. is_target id hash t.id t.hash) ts ≡ true
    → (revoke_tokens id hash ts).2 ≡ true
unfolding revoke_tokens
hit_lem id hash (t ∷ ts) solid k h =
    let rest = hit_lem id hash ts solid k.1 in
    rw (next_hash id hash t solid k.0) (ground (arith, rest))
hit_lem id hash [] solid k h = cc

-- Revoking what names a token, by its id or by its secret, outside a managed group, where the tokens of
-- that id have one hash: the call writes a state in which every key with the token's hash is refused at
-- any time, and no reservation or authorization of that hash is active at any instant, and its leases
-- end at the time of the call.
pub revoke_body-IsCutOff :
    (u : Platform) (clock : ℕ) (id : String) (s : State)
    → is_empty (managed_group id s) ≡ true
    → is_empty (target_hash u id s) ≡ false
    → IdHasHash id (target_hash u id s) s.tokens
    → any (λ t. is_target id (target_hash u id s) t.id t.hash) s.tokens ≡ true
    → (state : State) × (revoke_body u clock id s ≡ ok (write state tt))
      × IsCutOff u clock (target_hash u id s) state
unfolding revoke_body revoke_rows find_valid_token
revoke_body-IsCutOff u clock id s free solid k named =
    let hash = target_hash u id s in
    let (same, cut) = revoke_tokens_lem id hash s.tokens solid k in
    rw (free, same, hit_lem id hash s.tokens solid k named)
      (
        _,
        refl,
        record {
          refused = λ secret now e. rw e (judge_refused u now hash _ cut);
          reservations = reservations_cut id hash s.reservations solid;
          authorizations = authorizations_cut id hash s.authorizations solid;
          leases = leases_cut clock id hash s.leases solid;
        },
      )
