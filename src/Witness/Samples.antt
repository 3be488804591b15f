-- ===== src/Witness/Samples.antt =====
-- Sample values: a platform whose codec knows one state, and stores at rest.
use Prim.Native.String.{len, ◌++◌ as text_append}
use text.Mathlib.TextPositions.{len-append}
use text.Mathlib.TextEquality.{eq_iff}
use Prim.Native.Nat.{◌^◌}
use native.Mathlib.Nat.{pow-suc}
use gpuardian.Base.{
  ◌≢◌, sym, subst, some_injective, Bool-cases, inl, inr, ℕ, zero, suc, ◌≡◌, refl, ◌∙◌, String, ℤ,
  Bool, true, false, not, ◌&&◌, List, [], ◌∷◌, Option, none, some, ◌==◌, string_eq, if◌then◌else◌,
  arith, is_empty, trim_space,
}
use gpuardian.Model.{State, empty_state}
use gpuardian.Store.Persist.{Platform, Io}
use gpuardian.Store.Persist.Restart.{RoundTrips}

abbrev pub calm : Io
calm = record {
  read_fault = none;
  mkdir_fault = none;
  write_fault = none;
  sync_fault = none;
  root_fault = none;
  root_race = none;
  draw = λ n. "00";
  clock = 50;
}

abbrev pub named_state : State
named_state = record empty_state { key_snapshot_id = "snap" }

abbrev is_nil {ℓ} : {A : Type ℓ} → List A → Bool
is_nil [] = true
is_nil (x ∷ xs) = false

unfoldable pub is_named_state : State → Bool
is_named_state s =
    not s.managed_keys
    && s.key_snapshot_id == "snap"
    && s.managed_key_authority == ""
    && is_nil s.tokens
    && is_nil s.reservations
    && is_nil s.authorizations
    && is_nil s.soft_claims
    && is_nil s.leases
    && is_nil s.bypasses
    && is_nil s.audit

is_named_state_sound : (s : State) → is_named_state s ≡ true → s ≡ named_state
unfolding is_named_state
is_named_state_sound s h =
    ground (arith, eq_iff s.key_snapshot_id "snap", eq_iff s.managed_key_authority "")

-- A platform that encodes one state, as `text`.
abbrev pub writing : String → Platform
writing text = record {
  sha256_hex = λ s. text_append "h:" s;
  lower_beyond = λ c. c;
  fold_beyond = λ c. c;
  encode = λ s. if is_named_state s then some text else none;
  decode = λ t s. (named_state, true);
  parse_duration = λ s. some (ℤ.pos 3600);
}

abbrev pub braces : Platform
braces = writing "{}"

pub encode-named : (text : String) → (writing text).encode named_state ≡ some text
unfolding is_named_state
encode-named text = refl

braces_back :
    (s : State) (text : String)
    → braces.encode s ≡ some text
    → braces.decode (text_append text "\n") empty_state ≡ (s, true)
braces_back s text h = let same = is_named_state_sound s in ground (arith, same)

if_true : {b : Bool} (t : String) → b ≡ true → (if b then some t else none) ≡ some t
if_true t h = rw h

if_false : {b : Bool} (t : String) → b ≡ false → (if b then some t else none) ≡ none
if_false t h = rw h

none≢some : {t : String} → ◌≢◌ {A = Option String} none (some t)
none≢some h = cc

braces_solid :
    (s : State) (text : String)
    → braces.encode s ≡ some text
    → is_empty (trim_space (text_append text "\n")) ≡ false
unfolding trim_space
braces_solid s text h = elim (Bool-cases (is_named_state s)) [
  | inl e ↦
      let same : some "{}" ≡ some text = (sym (if_true "{}" e)) ∙ h in
      subst (λ t. is_empty (trim_space (text_append t "\n")) ≡ false) (some_injective same) refl
  | inr e ↦ absurd (none≢some (sym (if_false "{}" e) ∙ h))
]

pub braces-RoundTrips : RoundTrips braces
braces-RoundTrips = record { back = braces_back; solid = braces_solid }

-- A text of 2 ^ n bytes.
pub doubled : ℕ → String
doubled zero = "x"
doubled (suc n) = text_append (doubled n) (doubled n)

pub len-doubled : (n : ℕ) → len (doubled n) ≡ 2 ^ n
unfolding doubled
len-doubled zero = refl
len-doubled (suc n) = omega (arith, len-append (doubled n) (doubled n), len-doubled n, pow-suc 2 n)
