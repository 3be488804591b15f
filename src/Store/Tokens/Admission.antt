-- ===== src/Store/Tokens/Admission.antt =====
-- The limits that registering a token (internal/store/store.go) holds to.
use gpuardian.Base.{
  ℕ, ◌≤◌, ◌≡◌, true, arith, [], ◌∷◌, String, ok, OnOk, OnOk->>, count_if, count_if-append, length,
  length-append, >>-eq-ok, ◌+◌,
}
use gpuardian.Model.{Token, State}
use gpuardian.Store.Bounds.{check_total_capacity}
use gpuardian.Store.Persist.{Platform}
use gpuardian.Store.Persist.Transact.{PlanKeeps}
use gpuardian.Store.Validity.{
  token_active_at, normalize_holder, holder_is_active, check_token_capacity,
}
use gpuardian.Store.Validity.Capacity.{check_token_capacity_ok, count_if_one-le, total_capacity_ok}
use gpuardian.Store.Tokens.{add_token}

-- How many tokens of the holder of `t` are live at `now`.
abbrev pub live_tokens_like : Platform → Token → ℕ → State → ℕ
live_tokens_like u t now s = count_if (holder_is_active u (normalize_holder u t.name) now) s.tokens

-- The holder has at most eight live tokens, and the node at most 4096 tokens.
pub record IsAdmitted (u : Platform) (t : Token) (now : ℕ) (s : State) : Type 0 where
  pub holder : live_tokens_like u t now s ≤ 8
  pub total : length s.tokens ≤ 4096

total_of_capacity :
    (u : Platform) (s : State) (t : Token) (now : ℕ)
    → check_token_capacity u s t now ≡ ok tt
    → length s.tokens + 1 ≤ 4096
unfolding check_token_capacity
total_of_capacity u s t now h =
    total_capacity_ok "token" (length s.tokens) 1 4096
      (>>-eq-ok (check_total_capacity "token" (length s.tokens) 1 4096) _ h).0

-- Registering a token that is live leaves its holder with at most eight live tokens, whatever other
-- spelling of the name they were registered under, and the node with at most 4096 tokens.
pub add_token-IsAdmitted :
    (u : Platform) (now : ℕ) (secret : String) (t : Token) (s : State)
    → token_active_at t now ≡ true
    → OnOk (PlanKeeps (IsAdmitted u t now)) (add_token u now (secret, t) s)
unfolding add_token
add_token-IsAdmitted u now secret t s live =
    OnOk->> (PlanKeeps (IsAdmitted u t now) {A = String × Token}) (check_token_capacity u s t now) _
      λ h.
        let test = holder_is_active u (normalize_holder u t.name) now in
        record {
          holder = omega (
            arith,
            check_token_capacity_ok u s t now h live,
            count_if-append test s.tokens (t ∷ []),
            count_if_one-le test t,
          );
          total = omega (arith, total_of_capacity u s t now h, length-append s.tokens (t ∷ []));
        }
