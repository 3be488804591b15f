-- ===== src/Web/Requests.antt =====
-- internal/web/session.go, acquireAuthenticatedRequest: how many requests of signed-in users run at a
-- time, in all, per user, and of users who are no administrators.
pub mod Counts
pub mod Slots
use Prim.Native.Char.{Char}
use gpuardian.Base.{
  ℕ, zero, suc, ◌≡◌, ◌+◌, ◌-◌, String, Bool, true, false, not, ◌&&◌, ◌||◌, Option, none, some, List,
  [], ◌∷◌, ◌==◌, string_eq, nat_eq, if◌then◌else◌, leb, trim_space, to_lower, Map, lookup, put,
  delete,
}

abbrev pub max_authenticated_requests : ℕ
max_authenticated_requests = 64

abbrev pub max_authenticated_requests_user : ℕ
max_authenticated_requests_user = 8

abbrev pub reserved_admin_requests : ℕ
reserved_admin_requests = 8

abbrev pub role_admin : String
role_admin = "admin"

-- What the admission reads of a session.
pub record Session : Type 0 where
  pub user : String
  pub role : String

pub record Active : Type 0 where
  pub users : Map ℕ
  pub total : ℕ
  pub non_admin : ℕ

-- A map of counts gives 0 for a missing key.
abbrev pub or_nothing : Option ℕ → ℕ
or_nothing none = 0
or_nothing (some n) = n

abbrev pub active_of : String → Active → ℕ
active_of user s = or_nothing (lookup user s.users)

abbrev pub is_admin : Session → Bool
is_admin session = session.role == role_admin

unfoldable pub user_key : (Char → Char) → Session → String
user_key lower session = to_lower lower (trim_space session.user)

unfoldable pub acquire : (Char → Char) → Session → Active → Option Active
acquire lower session s =
    let user = user_key lower session in
    if leb max_authenticated_requests s.total
      || leb max_authenticated_requests_user (active_of user s)
    then none
    else if not (is_admin session)
        && leb (max_authenticated_requests - reserved_admin_requests) s.non_admin
    then none
    else some (record {
      users = put user (suc (active_of user s)) s.users;
      total = suc s.total;
      non_admin = if is_admin session then s.non_admin else suc s.non_admin;
    })

abbrev pub put_or_delete : String → ℕ → Map ℕ → Map ℕ
put_or_delete user n users = if n == 0 then delete user users else put user n users

-- The function that acquire hands out, where it runs for the first time. Each count is at least 1
-- then, so that none of them is taken below 0.
unfoldable pub release : (Char → Char) → Session → Active → Active
release lower session s =
    let user = user_key lower session in
    record {
      users = put_or_delete user (active_of user s - 1) s.users;
      total = s.total - 1;
      non_admin = if is_admin session then s.non_admin else s.non_admin - 1;
    }

-- A request that was let in, and whether its release has not run yet (`once`).
pub record Ticket : Type 0 where
  pub session : Session
  pub is_open : Bool

pub record Gate : Type 0 where
  pub active : Active
  pub tickets : List Ticket

-- The release of the ticket at a place: the tickets behind it, and the session if it was open.
unfoldable pub finish : ℕ → List Ticket → List Ticket × Option Session
finish n [] = ([], none)
finish zero (t ∷ ts) =
    (record t { is_open = false } ∷ ts, if t.is_open then some t.session else none)
finish (suc n) (t ∷ ts) = let (rest, closed) = finish n ts in (t ∷ rest, closed)

abbrev pub or_same : (Char → Char) → Option Session → Active → Active
or_same lower none s = s
or_same lower (some session) s = release lower session s

-- What happens at the gate: a request comes and is let in or not, or one ends and releases.
pub data Step (lower : Char → Char) : Gate → Gate → Type 0 where
  enters :
      (g : Gate) (session : Session) (s : Active)
      → acquire lower session g.active ≡ some s
      → Step lower g (record {
        active = s;
        tickets = record { session = session; is_open = true } ∷ g.tickets;
      })
  refused : (g : Gate) (session : Session) → acquire lower session g.active ≡ none → Step lower g g
  ends :
      (g : Gate) (n : ℕ)
      → Step lower g (record {
        active = or_same lower (finish n g.tickets).1 g.active;
        tickets = (finish n g.tickets).0;
      })

abbrev pub closed_gate : Gate
closed_gate = record { active = record { users = []; total = 0; non_admin = 0 }; tickets = [] }

pub data Reach (lower : Char → Char) : Gate → Type 0 where
  start : Reach lower closed_gate
  next : {g h : Gate} → Reach lower g → Step lower g h → Reach lower h
