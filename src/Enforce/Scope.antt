-- ===== src/Enforce/Scope.antt =====
-- internal/enforce/enforce.go: whether a process belongs to the scope of an authorization, of a
-- lease, of a claim, or to a bypass rule.
pub mod Spread
pub mod Wildcard
use Prim.Native.String.{len, ◌++◌ as text_append}
use gpuardian.Base.{
  ℕ, String, ℤ, Bool, true, false, not, ◌&&◌, ◌||◌, Option, none, some, List, [], ◌∷◌, ◌++◌, any,
  ◌==◌, nat_eq, string_eq, int_eq, ltb, leb, if◌then◌else◌, is_negative, exceeds, Result, ok, err,
  trim_space, to_lower, is_empty, has_prefix, split_at, contains_rune, after_rune, after_start,
  after_first, has_suffix,
}
use gpuardian.Model.{
  Authorization, SoftClaim, Lease, BypassRule, mode_bare, mode_docker, mode_k8s, mode_user,
  bypass_pid, bypass_command,
}
use gpuardian.Model.Processes.{ProcInfo}
use gpuardian.Store.Persist.{Platform}

-- Why a scope could not be resolved, with the id of the row.
pub data Fault : Type 0 where
  cancelled : Fault
  runtime_missing runtime_failed uid_unavailable user_unknown : String → Fault

-- An answer of the container runtime.
pub data Answer : Type 0 where
  found : String → Answer
  missing failed : Answer

-- What the daemon asks of the container runtime (if it has one) and of the user database.
pub record Resolver : Type 0 where
  pub has_runtime : Bool
  pub docker_container_name : String → Answer
  pub namespace_for_container : String → Answer
  pub lookup_username : ℤ → Option String

abbrev pub Checked : Type 0
Checked = Result Fault Bool

-- The last element.
abbrev pub last_of : List String → String
last_of [] = ""
last_of (p ∷ []) = p
last_of (p ∷ q ∷ ps) = last_of (q ∷ ps)

-- The loop over the parts behind the first one: the text that is left, or none where a part is not
-- there.
unfoldable pub find_parts : List String → String → Option String
find_parts [] rest = some rest
find_parts (part ∷ parts) rest =
    if is_empty part
    then find_parts parts rest
    else elim (after_first part rest) [ none ↦ none | some left ↦ find_parts parts left ]

unfoldable pub match_parts : List String → String → Bool
match_parts [] value = true
match_parts (first ∷ parts) value = elim (after_start first value) [
  | none ↦ false
  | some rest ↦ elim (find_parts parts rest) [
    | none ↦ false
    | some _ ↦ let last = last_of (first ∷ parts) in is_empty last || has_suffix value last
  ]
]

unfoldable pub wildcard_match : String → String → Bool
wildcard_match untrimmed_pattern untrimmed_value =
    let pattern = trim_space untrimmed_pattern in
    let value = trim_space untrimmed_value in
    if is_empty pattern
    then false
    else if not (contains_rune "*" pattern)
    then pattern == value
    else if pattern == "*"
    then true
    else match_parts (split_at "*" pattern) value

-- The shorter of two ids is at least 12 bytes long and begins the longer one.
unfoldable pub abbreviates : String → String → Bool
abbreviates a b =
    let (shorter, longer) = if ltb (len b) (len a) then (b, a) else (a, b) in
    leb 12 (len shorter) && has_prefix longer shorter

unfoldable pub same_container : Platform → String → String → Bool
same_container u x y =
    let a = to_lower u.lower_beyond (trim_space x) in
    let b = to_lower u.lower_beyond (trim_space y) in
    if is_empty a || is_empty b then false else if a == b then true else abbreviates a b

-- path.Clean on the elements of a rooted path, the ones that stand already on a stack.
unfoldable pub clean_elements : List String → List String → List String
clean_elements stack [] = stack
clean_elements stack (e ∷ es) =
    if is_empty e || e == "."
    then clean_elements stack es
    else if e == ".."
    then elim stack [ [] ↦ clean_elements [] es | x ∷ xs ↦ clean_elements xs es ]
    else clean_elements (e ∷ stack) es

-- The elements of a stack, the last one first, as a path.
abbrev pub join_rooted : List String → String → String
join_rooted [] path = path
join_rooted (e ∷ es) path = join_rooted es (text_append (text_append "/" e) path)

-- path.Clean on a path that starts with "/".
unfoldable pub clean_rooted : String → String
clean_rooted path =
    let joined = join_rooted (clean_elements [] (split_at "/" path)) "" in
    if is_empty joined then "/" else joined

unfoldable pub normalize_cgroup_path : String → String
normalize_cgroup_path untrimmed =
    let value = trim_space untrimmed in
    if is_empty value
    then ""
    else clean_rooted (if has_prefix value "/" then value else text_append "/" value)

abbrev pub mount : String
mount = "/sys/fs/cgroup"

unfoldable pub normalize_cgroup_mount_path : String → String
normalize_cgroup_mount_path untrimmed =
    let value = trim_space untrimmed in
    if value == mount
    then "/"
    else normalize_cgroup_path (
        if has_prefix value (text_append mount "/")
        then elim (after_start mount value) [ none ↦ value | some rest ↦ rest ]
        else value)

-- The path of a line of /proc/PID/cgroup.
abbrev pub cgroup_of_line : String → String
cgroup_of_line line =
    let candidate = trim_space line in
    elim (after_rune ":" candidate) [
      | none ↦ candidate
      | some rest ↦ elim (after_rune ":" rest) [ none ↦ candidate | some path ↦ path ]
    ]

abbrev pub is_below : String → String → Bool
is_below actual target =
    actual == target || has_prefix actual (text_append target "/") || target == "/"

abbrev pub line_matches : List String → String → Bool
line_matches targets line =
    let actual = normalize_cgroup_path (cgroup_of_line line) in
    if is_empty actual then false else any (is_below actual) targets

abbrev pub target_of : String → List String
target_of target = if is_empty target then [] else target ∷ []

unfoldable pub bare_cgroup_matches : String → String → String → Bool
bare_cgroup_matches raw relative absolute =
    let targets =
      target_of (normalize_cgroup_path relative)
      ++ target_of (normalize_cgroup_mount_path absolute) in
    elim targets [ [] ↦ false | t ∷ ts ↦ any (line_matches (t ∷ ts)) (split_at "\n" raw) ]

-- Asking the runtime on behalf of a row.
unfoldable pub ask_runtime : Resolver → String → Answer → (String → Bool) → Checked
ask_runtime v id answer test = if not v.has_runtime then err (runtime_missing id) else elim answer [
  | found name ↦ ok (test name)
  | missing ↦ ok false
  | failed ↦ err (runtime_failed id)
]

abbrev pub names_user : String → String → Bool
names_user pattern name = not (is_empty pattern) && wildcard_match pattern name

unfoldable pub user_matches : Resolver → Authorization → ProcInfo → Checked
user_matches v a info =
    if is_negative info.uid
    then err (uid_unavailable a.id)
    else if not (is_negative a.uid)
    then ok (info.uid == a.uid)
    else if is_empty info.username
    then elim (v.lookup_username info.uid) [
      | none ↦ err (user_unknown a.id)
      | some name ↦ ok (names_user a.username name)
    ]
    else ok (names_user a.username info.username)

-- authorizationScopeMatchesForEviction
unfoldable pub authorization_scope_matches :
    Platform → Resolver → Authorization → ProcInfo → Checked
authorization_scope_matches u v a info =
    if a.mode == mode_bare
    then ok (bare_cgroup_matches info.cgroup a.cgroup_rel a.cgroup_path)
    else if a.mode == mode_docker
    then if is_empty a.container_pattern
      then ok (same_container u info.container_id a.container_id)
      else if is_empty info.container_id
      then ok false
      else ask_runtime v a.id (v.docker_container_name info.container_id)
          (wildcard_match a.container_pattern)
    else if a.mode == mode_k8s
    then if is_empty info.container_id
      then ok false
      else ask_runtime v a.id (v.namespace_for_container info.container_id)
          (wildcard_match a.namespace)
    else if a.mode == mode_user
    then user_matches v a info
    else ok false

-- leaseScopeMatchesForEviction
unfoldable pub lease_scope_matches : Platform → Resolver → Lease → ProcInfo → Checked
lease_scope_matches u v l info =
    if l.mode == mode_bare
    then ok (bare_cgroup_matches info.cgroup l.cgroup_rel l.cgroup_path)
    else if l.mode == mode_docker
    then ok (same_container u info.container_id l.container_id)
    else if l.mode == mode_k8s
    then if is_empty info.container_id
      then ok false
      else ask_runtime v l.id (v.namespace_for_container info.container_id)
          (λ ns. ns == l.namespace)
    else ok false

unfoldable pub soft_claim_runtime_matches : Platform → SoftClaim → ProcInfo → Bool
soft_claim_runtime_matches u claim info =
    if not (is_empty claim.runtime_container_id)
    then same_container u claim.runtime_container_id info.container_id
    else if not (is_empty claim.runtime_cgroup)
    then bare_cgroup_matches info.cgroup claim.runtime_cgroup ""
    else if exceeds claim.runtime_pid 0
    then if claim.runtime_pid == info.pid
      then claim.runtime_start_time == 0 || claim.runtime_start_time == info.start_time
      else false
    else false

abbrev pub rule_matches : ProcInfo → ℕ → String → BypassRule → Bool
rule_matches info now boot_id rule =
    if rule.revoked || not (ltb now rule.expires_at)
    then false
    else if rule.type == bypass_pid
    then not (is_empty boot_id)
      && rule.boot_id == boot_id
      && rule.pid == info.pid
      && not (rule.start_time == 0)
      && rule.start_time == info.start_time
    else if rule.type == bypass_command
    then rule.uid == ℤ.pos 0
      && info.uid == ℤ.pos 0
      && not (is_empty rule.command)
      && rule.command == info.command_path
    else false

unfoldable pub bypass_match : List BypassRule → ProcInfo → ℕ → String → Bool
bypass_match rules info now boot_id = any (rule_matches info now boot_id) rules
