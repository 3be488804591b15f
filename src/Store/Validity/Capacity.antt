-- ===== src/Store/Validity/Capacity.antt =====
-- The limits on live rows of internal/store/store.go: what an admission leaves behind.
use gpuardian.Base.{ℕ, ◌+◌, ◌≤◌, ◌<◌, ◌≡◌, true, Bool, arith, List, [], ◌∷◌, String, ok, count_if}
use gpuardian.Model.{Token, Authorization, State}
use gpuardian.Store.Bounds.{check_total_capacity}
use gpuardian.Store.Persist.{Platform}
use gpuardian.Store.Validity.{
  token_active_at, authorization_active_at, normalize_holder, holder_is_active, counts_for,
  check_token_capacity, check_active_authorization_capacity,
}

pub check_token_capacity_ok :
    (u : Platform) (s : State) (t : Token) (now : ℕ)
    → check_token_capacity u s t now ≡ ok tt
    → token_active_at t now ≡ true
    → count_if (holder_is_active u (normalize_holder u t.name) now) s.tokens < 8
unfolding check_token_capacity
check_token_capacity_ok u s t now h live = ground arith

pub check_authorization_capacity_ok :
    (others : List Authorization) (a : Authorization) (clock : ℕ)
    → check_active_authorization_capacity others a clock ≡ ok tt
    → authorization_active_at a clock ≡ true
    → count_if (counts_for a clock) others < 64
unfolding check_active_authorization_capacity
check_authorization_capacity_ok others a clock h live = ground arith

pub count_if_one-le : {A : Type 0} (test : A → Bool) (x : A) → count_if test (x ∷ []) ≤ 1
count_if_one-le test x = ground arith

pub total_capacity_ok :
    (kind : String) (current adding maximum : ℕ)
    → check_total_capacity kind current adding maximum ≡ ok tt
    → current + adding ≤ maximum
unfolding check_total_capacity
total_capacity_ok kind current adding maximum h = ground arith
