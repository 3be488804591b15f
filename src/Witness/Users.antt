-- ===== src/Witness/Users.antt =====
-- The gateway's users, at a concrete table.
use Prim.Native.Char.{code}
use gpuardian.Base.{
  ℕ, String, Option, nat_eq, if◌then◌else◌, ◌≡◌, refl, true, false, List, [], ◌∷◌, none, some, ok,
  OnOk, arith, to_lower, trim_space, joined, OnSome, ◌==◌, string_eq, ◌&&◌,
}
use gpuardian.Web.PrivateFile.{Io, written}
use gpuardian.Web.Users.{
  User, UserStore, AccessToken, Codec, normalize_username, check_username, load_users,
}
use gpuardian.Web.Users.Keys.{
  key_secret, Backend, Aead, digest, KeyDraw, regenerate_fixed_key, fixed_key_for_user,
}
use gpuardian.Web.Users.Keys.Matches.{Opens, verifier_for, regenerate_fixed_key-matches}
use gpuardian.Web.Users.Accounts.{fresh_record, authenticate}
use gpuardian.Web.Users.Accounts.Verified.{VerifiedIn, authenticate-Verified}
use gpuardian.Web.Users.Tokens.{
  TokenDraw, create_access_token, authenticate_access_token, revoke_access_token, with_tokens,
}
use gpuardian.Web.Users.Tokens.Admission.{Admits, create_access_token-Admits}
use gpuardian.Web.Users.Tokens.Later.{IsApart}
use gpuardian.Web.Users.Tokens.Revoked.{revoke_access_token-refused}
use gpuardian.Web.Users.Saves.{Answers}
use gpuardian.Web.Users.Sound.{IsKept}
use gpuardian.Web.Users.History.{
  Call, changes, creates, deletes, creates_token, uses_token, perform_all, perform_all-IsKept,
}
use gpuardian.Witness.Passwords.{simple, as_letters, read_letters, letters_back, thirty_two}

abbrev table : Codec
table = record { encode = λ users. some "[]"; decode = λ text. none }

-- The characters that a key is made of here.
abbrev alphabet : String
alphabet = "0123456789abcdefgk_"

character : ℕ → String → String → String
character n String.[] s = s
character n (String.◌∷◌ c cs) s =
    let behind = character n cs s in if code c == n then String.◌∷◌ c s else behind

characters : List ℕ → String
unfolding character
characters [] = ""
characters (n ∷ ns) = character n alphabet (characters ns)

codes : String → List ℕ
codes String.[] = []
codes (String.◌∷◌ c s) = code c ∷ codes s

opened : List ℕ → Option String
unfolding characters
opened [] = none
opened (tag ∷ text) = some (characters text)

-- A cipher with a nonce of one byte and a tag before the text, which hides nothing.
abbrev plain_cipher : Aead
plain_cipher = record {
  nonce_size = 1;
  seal = λ nonce secret label. 99 ∷ codes secret;
  open_sealed = λ nonce ciphertext label. opened ciphertext;
  encode64 = as_letters;
  decode64 = read_letters 0;
}

abbrev gateway : Backend
gateway = record { lower = λ c. c; crypto = simple; codec = table; key_cipher = some plain_cipher }

abbrev well : Io
well = record { read_fault = false; writing = written; now = 10; draw = "" }

abbrev chief : User
chief = fresh_record "root" "admin" "hash" 1

-- A hash of the legacy scheme, which `simple` verifies by any password.
abbrev member : User
member = fresh_record "ann" "user" (joined "sha256$b$" (as_letters thirty_two)) 2

abbrev open_store : UserStore
open_store = record {
  cached = record { loaded = true; value = chief ∷ member ∷ []; file = none };
  generation = 1;
}

open_store-IsKept : IsKept open_store
open_store-IsKept = record {
  loaded = refl;
  sound = record { unique = ((refl, tt), (tt, tt)); within = omega arith; governed = omega arith };
}

abbrev requests : List (Io × Call)
requests =
    (well, deletes "root")
    ∷ (well, creates false none none "bob" "a long password" "user")
    ∷ (well, creates_token (some (record { id = "i"; secret = "x" })) "ann" "ci" [] 20)
    ∷ (well, uses_token "ga_x")
    ∷ []

perform_all-IsKept_example : IsKept (perform_all gateway requests open_store)
perform_all-IsKept_example = perform_all-IsKept gateway requests open_store open_store-IsKept

ann_named : normalize_username gateway.lower " Ann" ≡ ok "ann"
unfolding normalize_username check_username to_lower trim_space
ann_named = refl

authenticate-Verified_example :
    OnOk
      (VerifiedIn gateway well "ann" "secret" (load_users well table open_store).0)
      (authenticate gateway well none none (λ s. s) " Ann" "secret" open_store).1
authenticate-Verified_example =
    authenticate-Verified gateway well none none (λ s. s) " Ann" "ann" "secret" open_store ann_named

abbrev token_draw : TokenDraw
token_draw = record { id = "i"; secret = "x" }

create_access_token-Admits_example :
    Answers
      (Admits 10 "ann")
      (create_access_token gateway well (some token_draw) " Ann" "ci" [] 20 open_store)
create_access_token-Admits_example =
    create_access_token-Admits gateway well (some token_draw) " Ann" "ann" "ci" [] 20 open_store
      ann_named

abbrev key_draw : KeyDraw
key_draw = record { id = "1f"; secret = "2e"; nonce = 7 ∷ [] }

plain-Opens : Opens plain_cipher key_draw
unfolding opened codes
plain-Opens = record {
  sized = refl;
  tagged = λ label. omega arith;
  reopened = λ label. refl;
  decoded = λ label. letters_back (7 ∷ 99 ∷ codes (key_secret key_draw));
}

regenerate_fixed_key-matches_example :
    OnOk
      (λ key.
        (fixed_key_for_user gateway well "ann"
          (regenerate_fixed_key gateway well (some key_draw) "ann" open_store).0).1
        ≡ ok (verifier_for gateway key))
      (regenerate_fixed_key gateway well (some key_draw) "ann" open_store).1
regenerate_fixed_key-matches_example =
    regenerate_fixed_key-matches gateway plain_cipher well well key_draw "ann" open_store refl
      plain-Opens open_store-IsKept

abbrev token : AccessToken
token = record {
  id = "at_1";
  name = "ci";
  hash = digest simple "ga_x";
  scopes = [];
  created_at = 1;
  expires_at = 20;
  last_used_at = none;
  revoked_at = none;
}

abbrev holder : User
holder = with_tokens (token ∷ []) member

abbrev token_store : UserStore
token_store = record {
  cached = record { loaded = true; value = chief ∷ holder ∷ []; file = none };
  generation = 1;
}

token_store-IsKept : IsKept token_store
token_store-IsKept = record {
  loaded = refl;
  sound = record { unique = ((refl, tt), (tt, tt)); within = omega arith; governed = omega arith };
}

-- The revoked token is presented, another one is made, and the password is changed.
abbrev calls : List (Io × Call)
calls =
    (well, uses_token "ga_x")
    ∷ (well, creates_token (some (record { id = "2"; secret = "y" })) "ann" "cd" [] 20)
    ∷ (well, uses_token "ga_y")
    ∷ (well, changes "ann" holder "hash")
    ∷ []

apart :
    IsApart
      (trim_space "at_1")
      (creates_token (some (record { id = "2"; secret = "y" })) "ann" "cd" [] 20)
unfolding trim_space
apart = refl

revoke_access_token-refused_example :
    OnOk
      (λ _.
        OnSome
          (λ a. (a.user == "ann" && (a.id == trim_space "at_1")) ≡ false)
          (authenticate_access_token gateway well "ga_x" (
            perform_all gateway calls
              (revoke_access_token gateway well " Ann" "at_1" token_store).0)).1)
      (revoke_access_token gateway well " Ann" "at_1" token_store).1
revoke_access_token-refused_example =
    revoke_access_token-refused gateway well well " Ann" "ann" "at_1" "ga_x" holder token_store
      calls token_store-IsKept ann_named refl (tt, tt) (tt, (apart, (tt, (tt, tt))))
