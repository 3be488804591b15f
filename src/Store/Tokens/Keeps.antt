-- ===== src/Store/Tokens/Keeps.antt =====
-- Registering and checking tokens (internal/store/store.go) writes nothing but token rows.
use gpuardian.Base.{ℕ, String, OnOk, OnOk->>, arith}
use gpuardian.Model.{Token, State}
use gpuardian.Store.Persist.{Platform, Io, Store, transact}
use gpuardian.Store.Persist.Transact.{PlanKeeps, IsSettled, transact-IsSettled, checked-IsSettled}
use gpuardian.Store.Exclusive.{IsExclusive}
use gpuardian.Store.Validity.{check_token_capacity}
use gpuardian.Store.RootKey.{with_root_key}
use gpuardian.Store.RootKey.Settled.{with_root_key-IsSettled}
use gpuardian.Store.Tokens.{
  add_token, validate_token, register_soft_token, register_token, parse_ttl, default_token_ttl,
  max_token_ttl, managed_token_by_id,
}

pub add_token-Exclusive :
    (u : Platform) (now : ℕ) (made : String × Token) (s : State)
    → IsExclusive s
    → OnOk (PlanKeeps IsExclusive) (add_token u now made s)
unfolding add_token
add_token-Exclusive u now (secret, token) s h =
    OnOk->> (PlanKeeps IsExclusive {A = String × Token}) (check_token_capacity u s token now) _
      λ _. h

-- The calls that register or check a token keep the store settled.
module _ (u : Platform) (io : Io) (s : Store) (h : IsSettled IsExclusive s) where
  add_token-IsSettled :
      (root_key : String) (now : ℕ) (made : String × Token) (t : Store)
      → IsSettled IsExclusive t
      → IsSettled IsExclusive (with_root_key io root_key (transact u io (add_token u now made)) t).0
  add_token-IsSettled root_key now made t h =
      with_root_key-IsSettled IsExclusive io root_key (transact u io (add_token u now made)) t
        (λ t' k. transact-IsSettled IsExclusive u io _ t' (add_token-Exclusive u now made) k) h

  pub register_soft_token-IsSettled :
      (root_key name : String) (now : ℕ)
      → IsSettled IsExclusive (register_soft_token u io root_key name now s).0
  unfolding register_soft_token
  register_soft_token-IsSettled root_key name now = add_token-IsSettled root_key now _ s h

  pub register_token-IsSettled :
      (root_key name ttl_text : String) (now : ℕ)
      → IsSettled IsExclusive (register_token u io root_key name ttl_text now s).0
  unfolding register_token
  register_token-IsSettled root_key name ttl_text now =
      checked-IsSettled IsExclusive (parse_ttl u ttl_text default_token_ttl max_token_ttl) _ s
        (λ ttl t _ k. add_token-IsSettled root_key now _ t k) h

  pub validate_token-IsSettled :
      (secret : String) (now : ℕ) → IsSettled IsExclusive (validate_token u io secret now s).0
  unfolding validate_token
  validate_token-IsSettled secret now =
      transact-IsSettled IsExclusive u io _ s (λ t _. ground arith) h

  pub managed_token_by_id-IsSettled :
      (id : String) (now : ℕ) → IsSettled IsExclusive (managed_token_by_id u io id now s).0
  unfolding managed_token_by_id
  managed_token_by_id-IsSettled id now =
      transact-IsSettled IsExclusive u io _ s (λ t _. ground arith) h
