-- ===== src/Store/Sync/Cutover.antt =====
-- internal/store/store.go, SyncManagedUserKeys: the keys that a snapshot puts in force.
use Prim.Native.String.{len}
use gpuardian.Base.{
  ℕ, ◌≡◌, ◌≢◌, refl, ◌∙◌, ap, subst, String, Bool, true, false, not, ◌&&◌, ◌||◌, List, [], ◌∷◌,
  Option, none, some, All, OnSome, Pairwise, any, find, ◌==◌, string_eq, nat_eq, ==→eq,
  if◌then◌else◌, Bool-cases, inl, inr, OnOk, OnOk->>, refuse_if, ok, err, ◌>>=◌, ◌>>◌, is_empty,
  arith, length, All-true, All-cons, suc, OnOk->>, ltb, map,
}
use gpuardian.Model.{Token, Reservation, State}
use gpuardian.Store.Errors.{
  Error, Fallible, bad_managed_key, hash_not_hex, key_not_unique, owner_not_unique,
  snapshot_required, limit_exceeded,
}
use gpuardian.Store.Bounds.{validate_persisted_values}
use gpuardian.Store.RootKey.{all_hex}
use gpuardian.Store.Persist.{Platform, Io, Plan, keep, write}
use gpuardian.Store.Validity.{normalize_holder}
use gpuardian.Store.Sync.{
  below_one, ManagedKey, Snapshot, SyncResult, token_of_key, make_managed, check_snapshot,
  check_authority, hash_or, rebind, rebind_all, sync_rows, sync_plan, sync_body,
}

-- Two keys that share neither id nor hash nor owner.
abbrev pub Differs : Token → Token → Type 0
Differs a b = (a.id ≢ b.id) × (a.hash ≢ b.hash) × (a.name ≢ b.name)

-- The new tokens differ from one another and from the ones made before.
abbrev pub ArePicked : List Token → List Token → Type 0
ArePicked made ts = Pairwise Differs ts × All (λ m. All (Differs m) ts) made

All-Differs :
    (t : Token) (made : List Token)
    → any (λ m. m.id == t.id || m.hash == t.hash) made ≡ false
    → any (λ m. m.name == t.name) made ≡ false
    → All (λ m. Differs m t) made
All-Differs t [] h k = tt
All-Differs t (m ∷ made) h k =
    let ids = string_eq.complete m.id t.id in
    let hashes = string_eq.complete m.hash t.hash in
    let names = string_eq.complete m.name t.name in
    (
      (
        λ e. let x = ids e in ground (arith, h, x),
        λ e. let x = hashes e in ground (arith, h, x),
        λ e. let x = names e in ground (arith, k, x),
      ),
      All-Differs t made (ground (arith, h)) (ground (arith, k)),
    )

-- One key of the loop, whose last two guards compare it with the ones before.
picked_row :
    (a b c d : Bool) (e f g h : Error) (t : Token) (made : List Token)
    (rest : Fallible (List Token))
    → (c ≡ false → d ≡ false → All (λ m. Differs m t) made)
    → OnOk (ArePicked (t ∷ made)) rest
    → OnOk (ArePicked made) (
        refuse_if a e
        >> (refuse_if b f >> (refuse_if c g >> (refuse_if d h >> (rest >>= λ ts. ok (t ∷ ts))))))
picked_row true b c d e f g h t made rest apart k = tt
picked_row false true c d e f g h t made rest apart k = tt
picked_row false false true d e f g h t made rest apart k = tt
picked_row false false false true e f g h t made rest apart k = tt
picked_row false false false false e f g h t made (err x) apart k = tt
picked_row false false false false e f g h t made (ok ts) apart k =
    ((k.1.0, k.0), All-cons Differs t ts made (apart refl refl) k.1.1)

make_managed-ArePicked :
    (u : Platform) (now : ℕ) (made : List Token) (keys : List ManagedKey)
    → OnOk (ArePicked made) (make_managed u now made keys)
unfolding make_managed
make_managed-ArePicked u now made [] = (tt, All-true (λ m. tt) made)
make_managed-ArePicked u now made (key ∷ keys) =
    let t = token_of_key u now key in
    picked_row (is_empty t.id || is_empty t.name || below_one t.version || not (len t.hash == 64))
      (not (all_hex t.hash)) (any (λ m. m.id == t.id || m.hash == t.hash) made)
      (any (λ m. m.name == t.name) made) bad_managed_key hash_not_hex key_not_unique
      owner_not_unique t made (make_managed u now (t ∷ made) keys) (All-Differs t made)
      (make_managed-ArePicked u now (t ∷ made) keys)

-- The reservations of an owner who has a key are attached to it, and the others are left alone.
abbrev pub IsAttached : Platform → List Token → Reservation → Type 0
IsAttached u tokens r =
    OnSome (λ t. r.token_hash ≡ t.hash) (find (λ t. t.name == normalize_holder u r.holder) tokens)

-- What a snapshot that was not in force yet leaves behind: its keys, one for one, as the tokens.
pub record IsCutOver (u : Platform) (now : ℕ) (p : Snapshot) (s' : State) : Type 0 where
  pub keys : s'.tokens ≡ map (token_of_key u now) p.keys
  pub distinct : Pairwise Differs s'.tokens
  pub attached : All (IsAttached u s'.tokens) s'.reservations
  pub managed : s'.managed_keys ≡ true
  pub in_force : s'.key_snapshot_id ≡ p.snapshot_id

rebind-IsAttached :
    (u : Platform) (io : Io) (old new : List Token) (n : ℕ) (r : Reservation)
    → IsAttached u new (rebind u io old new n r)
unfolding rebind
rebind-IsAttached u io old new n r =
    go r.token_hash (find (λ t. t.name == normalize_holder u r.holder) new)
  where
    go : (hash : String) (o : Option Token) → OnSome (λ t. hash_or hash o ≡ t.hash) o
    go hash none = tt
    go hash (some t) = refl

rebind_all-IsAttached :
    (u : Platform) (io : Io) (old new : List Token) (n : ℕ) (rs : List Reservation)
    → All (IsAttached u new) (rebind_all u io old new n rs)
unfolding rebind_all
rebind_all-IsAttached u io old new n [] = tt
rebind_all-IsAttached u io old new n (r ∷ rs) =
    (rebind-IsAttached u io old new n r, rebind_all-IsAttached u io old new (suc n) rs)

-- One key of the loop, as it is made.
made_row :
    (a b c d : Bool) (e f g h : Error) (t : Token) (keys : List Token)
    (rest : Fallible (List Token))
    → OnOk (λ ts. ts ≡ keys) rest
    → OnOk
        (λ ts. ts ≡ t ∷ keys)
        (refuse_if a e
          >> (refuse_if b f >> (refuse_if c g >> (refuse_if d h >> (rest >>= λ ts. ok (t ∷ ts))))))
made_row true b c d e f g h t keys rest k = tt
made_row false true c d e f g h t keys rest k = tt
made_row false false true d e f g h t keys rest k = tt
made_row false false false true e f g h t keys rest k = tt
made_row false false false false e f g h t keys (err x) k = tt
made_row false false false false e f g h t keys (ok ts) k = ap (λ xs. t ∷ xs) k

make_managed-map :
    (u : Platform) (now : ℕ) (made : List Token) (keys : List ManagedKey)
    → OnOk (λ ts. ts ≡ map (token_of_key u now) keys) (make_managed u now made keys)
unfolding make_managed
make_managed-map u now made [] = refl
make_managed-map u now made (key ∷ keys) =
    let t = token_of_key u now key in
    made_row (is_empty t.id || is_empty t.name || below_one t.version || not (len t.hash == 64))
      (not (all_hex t.hash)) (any (λ m. m.id == t.id || m.hash == t.hash) made)
      (any (λ m. m.name == t.name) made) bad_managed_key hash_not_hex key_not_unique
      owner_not_unique t (map (token_of_key u now) keys) (make_managed u now (t ∷ made) keys)
      (make_managed-map u now (t ∷ made) keys)

-- What holds of the tokens that are made of the keys holds of those of a checked snapshot.
check_snapshot-OnOk :
    (P : List Token → Type 0) (u : Platform) (now : ℕ) (p : Snapshot)
    → OnOk P (make_managed u now [] p.keys)
    → OnOk P (check_snapshot u now p)
unfolding check_snapshot
check_snapshot-OnOk P u now p h =
    OnOk->> P (refuse_if (is_empty p.snapshot_id) snapshot_required) _ λ _.
      OnOk->> P
        (validate_persisted_values "managed key snapshot" (p.snapshot_id ∷ p.authority_id ∷ [])) _
        λ _.
          OnOk->> P (refuse_if (ltb 4096 (length p.keys)) (limit_exceeded "managed key")) _ λ _. h

-- The operation goes through and writes a state with the property.
abbrev pub Installs : (State → Type 0) → Fallible (Plan SyncResult) → Type 0
Installs P (err e) = ⊥
Installs P (ok (keep a)) = ⊥
Installs P (ok (write state a)) = P state

sync_plan-IsCutOver :
    (u : Platform) (io : Io) (p : Snapshot) (managed : List Token) (s : State) (changed : Bool)
    (now : ℕ)
    → managed ≡ map (token_of_key u now) p.keys
    → ArePicked [] managed
    → (s.managed_keys && s.key_snapshot_id == p.snapshot_id) ≡ false
    → Installs (IsCutOver u now p) (ok (sync_plan u io p managed s changed))
unfolding sync_plan sync_rows
sync_plan-IsCutOver u io p managed s changed now keys picked fresh = rw fresh (record {
  keys = keys;
  distinct = picked.0;
  attached = rebind_all-IsAttached u io s.tokens managed 1 s.reservations;
  managed = refl;
  in_force = refl;
})

-- An authority that the store follows, or its first one, is let in.
check_authority_admits :
    (stored given : String)
    → (is_empty stored || given == stored) ≡ true
    → (a : String × Bool) × (check_authority stored given ≡ ok a)
unfolding check_authority
check_authority_admits stored given h =
    let chosen : String × Bool =
      if is_empty stored && not (is_empty given) then (given, true) else (stored, false) in
    elim (Bool-cases (is_empty stored)) [
      | inl p ↦ (chosen, rw p refl)
      | inr p ↦
          let same_flag : (given == stored) ≡ true = ground (arith, h, p) in
          let same = ==→eq given stored same_flag in
          let given_set = ap is_empty same ∙ p in (chosen, rw p (rw given_set (rw same_flag refl)))
    ]

pub sync_body-IsCutOver :
    (u : Platform) (io : Io) (now : ℕ) (p : Snapshot) (managed : List Token) (s : State)
    → check_snapshot u now p ≡ ok managed
    → (is_empty s.managed_key_authority || p.authority_id == s.managed_key_authority) ≡ true
    → (s.managed_keys && s.key_snapshot_id == p.snapshot_id) ≡ false
    → Installs (IsCutOver u now p) (sync_body u io p managed s)
unfolding sync_body
sync_body-IsCutOver u io now p managed s checked admitted fresh =
    let (a, e) = check_authority_admits s.managed_key_authority p.authority_id admitted in
    let picked =
      subst (OnOk (ArePicked [])) checked
        (check_snapshot-OnOk (ArePicked []) u now p (make_managed-ArePicked u now [] p.keys)) in
    let Made : List Token → Type 0 = λ ts. ts ≡ map (token_of_key u now) p.keys in
    let keys =
      subst (OnOk Made) checked
        (check_snapshot-OnOk Made u now p (make_managed-map u now [] p.keys)) in
    rw e (
      sync_plan-IsCutOver u io p managed (record s { managed_key_authority = a.0 }) a.1 now keys
        picked fresh)
