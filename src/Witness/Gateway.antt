-- ===== src/Witness/Gateway.antt =====
-- The gateway's layout of nodes, its table of attempts and its gate, at concrete inputs.
use Prim.Native.String.{◌++◌ as text_append}
use gpuardian.Base.{
  ◌≡◌, ◌≢◌, refl, true, false, [], ◌∷◌, none, some, ok, arith, OnOk, to_lower, trim_space,
}
use gpuardian.Web.PrivateFile.{Io, written}
use gpuardian.Web.NodeLayout.{Layout, LayoutStore, Codec, no_layout, get, normalize_node_layout}
use gpuardian.Web.NodeLayout.Places.{IsPlaced, normalize_node_layout-IsPlaced}
use gpuardian.Web.NodeLayout.Unreadable.{flat, get_unreadable}
use gpuardian.Web.Attempts.{
  Attempts, reserve_login_attempt, release_login_reservation, drop_login, drop_if_over, login_wait,
  login_new_keys, admit_login, ensure_attempt_capacity,
}
use gpuardian.Web.Attempts.Limits.{count_at}
use gpuardian.Web.Attempts.Admitted.{reserve_login_attempt_admits}
use gpuardian.Web.Attempts.Released.{release-reserve_login_attempt}
use gpuardian.Web.Attempts.Bounded.{IsBounded}
use gpuardian.Web.Attempts.History.{
  login, registration, single, release, serve_all, serve_all-IsBounded,
}
use gpuardian.Web.Attempts.Login.{IsCounted, reserve_login_attempt-IsCounted}
use gpuardian.Web.Requests.{
  Session, Active, Gate, Reach, acquire, user_key, closed_gate, start, next, enters,
}
use gpuardian.Web.Requests.Counts.{Agrees}
use gpuardian.Web.Requests.Slots.{Reach-Agrees, acquire_admits_admin}

-- A folder with one of the two nodes and one that is gone.
abbrev folder : Layout
folder = record {
  root = "n2" ∷ "gone" ∷ [];
  groups = record { id = "grp_a"; name = "A"; node_ids = "n1" ∷ "gone" ∷ [] } ∷ [];
}

normalize_node_layout-IsPlaced_example :
    OnOk (IsPlaced ("n1" ∷ "n2" ∷ []) "n1") (normalize_node_layout folder ("n1" ∷ "n2" ∷ []) false)
normalize_node_layout-IsPlaced_example =
    normalize_node_layout-IsPlaced folder ("n1" ∷ "n2" ∷ []) false "n1" (refl, (refl, tt))

abbrev broken : Io
broken = record { read_fault = true; writing = written; now = 1; draw = "r" }

abbrev plain : Codec
plain = record { encode = λ layout. some "{}"; decode = λ text. none }

abbrev fresh : LayoutStore
fresh = record { loaded = false; value = no_layout; file = some "{ kept }" }

get_unreadable_example : get broken plain ("n1" ∷ "n2" ∷ []) fresh ≡ (
  record { loaded = true; value = flat "n1" ("n2" ∷ []); file = some (text_append "{}" "\n") },
  ok (flat "n1" ("n2" ∷ [])),
)
get_unreadable_example =
    get_unreadable broken plain "n1" ("n2" ∷ []) fresh "{}" refl refl refl refl refl

no_attempts-IsBounded : IsBounded []
no_attempts-IsBounded = record { unique = tt; live = tt; within = omega arith }

serve_all-IsBounded_example : IsBounded (
    serve_all
      (login "u" "i" "a" 5 ∷ registration "i" 7 ∷ single "p" 8 5 ∷ release ("u" ∷ "i" ∷ []) ∷ [])
      [])
serve_all-IsBounded_example =
    serve_all-IsBounded
      (login "u" "i" "a" 5 ∷ registration "i" 7 ∷ single "p" 8 5 ∷ release ("u" ∷ "i" ∷ []) ∷ []) []
      no_attempts-IsBounded

abbrev tried : Attempts
tried = ("u", record { failures = 4; reset_at = 60 }) ∷ []

tried-IsBounded : IsBounded tried
tried-IsBounded = record {
  unique = (refl, tt);
  live = ((omega arith, omega arith), tt);
  within = omega arith;
}

reserve_login_attempt-IsCounted_example :
    IsCounted "u" "i" "a" 9 tried (reserve_login_attempt "u" "i" "a" 9 tried)
reserve_login_attempt-IsCounted_example =
    reserve_login_attempt-IsCounted "u" "i" "a" 9 tried tried-IsBounded

abbrev member : Session
member = record { user = " Ann "; role = "user" }

abbrev chief : Session
chief = record { user = "root"; role = "admin" }

abbrev one_active : Active
one_active = record { users = ("ann", 1) ∷ []; total = 1; non_admin = 1 }

abbrev one_runs : Gate
one_runs = record {
  active = one_active;
  tickets = record { session = member; is_open = true } ∷ [];
}

member_enters : acquire (λ c. c) member closed_gate.active ≡ some one_active
unfolding acquire user_key to_lower trim_space
member_enters = refl

reach_one : Reach (λ c. c) one_runs
reach_one = next start (enters closed_gate member one_active member_enters)

Reach-Agrees_example : Agrees (λ c. c) one_runs
Reach-Agrees_example = Reach-Agrees (λ c. c) one_runs reach_one

acquire_admits_admin_example : acquire (λ c. c) chief one_runs.active ≢ none
unfolding user_key to_lower trim_space
acquire_admits_admin_example =
    acquire_admits_admin (λ c. c) one_runs chief reach_one refl (omega arith) (omega arith)

tried_again : (reserve_login_attempt "u" "i" "a" 9 tried).1.0 ≡ true
unfolding reserve_login_attempt drop_login drop_if_over login_wait login_new_keys admit_login
    ensure_attempt_capacity
tried_again = refl

release-reserve_login_attempt_example :
    count_at 9 "u" (
      release_login_reservation
        ("u" ∷ "i" ∷ "a" ∷ [])
        (reserve_login_attempt "u" "i" "a" 9 tried).0)
    ≡ 4
release-reserve_login_attempt_example =
    release-reserve_login_attempt "u" "i" "a" "u" 9 tried tried-IsBounded tried_again

reserve_login_attempt_admits_example : (reserve_login_attempt "u" "i" "a" 9 tried).1.0 ≡ true
reserve_login_attempt_admits_example =
    reserve_login_attempt_admits "u" "i" "a" 9 tried tried-IsBounded (omega arith) (omega arith)
      (omega arith) (omega arith)
