-- ===== src/Web/Users/Keys/Matches.antt =====
-- internal/web/user_keys.go: the secret of a key that is made anew, and what the nodes are given to verify
-- it by.
use Prim.Native.Char.{Char}
use Prim.Native.String.{len, ◌++◌ as text_append}
use text.Mathlib.TextPositions.{len-append}
use gpuardian.Base.{
  length, length-append, take, drop, take-append, drop-append, ◌++◌, ◌≤◌, leb, ℕ, ◌+◌, ◌≡◌, refl,
  sym, ap, ◌∙◌, subst, String, true, false, List, Option, none, some, ◌==◌, string_eq, ℤ, ok, err,
  ◌>>=◌, ◌>>◌, OnOk, OnOk->>=, OnSome, or_fail, or_fail-ok, refuse_if, ok_injective, >>-eq-ok, ltb,
  find, update_first, arith, trim_space, to_lower, is_empty, find-some, Sole,
}
use gpuardian.Web.PrivateFile.{Io}
use gpuardian.Web.Passwords.{Bytes, Crypto}
use gpuardian.Web.Users.{
  User, UserStore, Checked, keep, save, with_users, on_loaded, settle, normalize_username,
  check_username, is_active_named, user_not_found, key_not_found, username_required,
  username_too_long, username_has_space, max_username_bytes, has_blank,
}
use gpuardian.Web.Users.Sound.{identities, IsSound, IsKept, load_users-loaded}
use gpuardian.Web.Users.Keys.Named.{active_name, put-Sole, picked}
use gpuardian.Web.Users.KeyBodies.{regenerate_body-Keeps}
use gpuardian.Web.Users.Saves.{OnSaved, Answers, with_users-Answers}
use gpuardian.Web.Users.Sound.{with_users-IsKept}
use gpuardian.Web.Users.Keys.{
  Backend, Aead, KeyLabel, KeyDraw, digest, key_secret, fixed_key_aad, with_key, sealed, assign,
  open_key, reveal, FixedUserKey, FixedUserKeyVerifier, verifier_of, verifiers_of, has_key,
  regenerate_body, regenerate_fixed_key, reveal_saved, given, fixed_key_verifiers, pick_verifier,
  fixed_key_for_user, next_version,
}

-- What AES-GCM and base64 promise of the texts of one key: the nonce has the length that is asked for, what
-- is sealed with it has at least its tag, opens with the nonce and the label, and is read back from
-- its base64 behind the nonce.
pub record Opens (aead : Aead) (draw : KeyDraw) : Type 0 where
  pub sized : length draw.nonce ≡ aead.nonce_size
  pub tagged : (label : KeyLabel) → 1 ≤ length (aead.seal draw.nonce (key_secret draw) label)
  pub reopened :
      (label : KeyLabel)
      → aead.open_sealed draw.nonce (aead.seal draw.nonce (key_secret draw) label) label
        ≡ some (key_secret draw)
  pub decoded :
      (label : KeyLabel)
      → let raw = draw.nonce ++ aead.seal draw.nonce (key_secret draw) label in
        aead.decode64 (aead.encode64 raw) ≡ some raw

opened_raw :
    (aead : Aead) (u : User) (nonce sealed_text : Bytes) (secret : String)
    → length nonce ≡ aead.nonce_size
    → 1 ≤ length sealed_text
    → aead.open_sealed nonce sealed_text (fixed_key_aad u) ≡ some secret
    → open_key aead u (some (nonce ++ sealed_text)) ≡ ok secret
unfolding open_key
opened_raw aead u nonce sealed_text secret sized tagged opens =
    let more : leb (length (nonce ++ sealed_text)) aead.nonce_size ≡ false =
      rw (length-append nonce sealed_text) (ground (arith, sized, tagged)) in
    let head : take aead.nonce_size (nonce ++ sealed_text) ≡ nonce =
      subst (λ n. take n (nonce ++ sealed_text) ≡ nonce) sized (take-append nonce sealed_text) in
    let tail : drop aead.nonce_size (nonce ++ sealed_text) ≡ sealed_text =
      subst (λ n. drop n (nonce ++ sealed_text) ≡ sealed_text) sized
        (drop-append nonce sealed_text) in
    rw more (rw (head, tail) (rw opens refl))

assigned_reveal :
    (c : Crypto) (aead : Aead) (now : ℕ) (draw : KeyDraw) (version : ℤ) (u : User)
    → Opens aead draw
    → reveal (some aead) (sealed aead draw (with_key c now draw version u)) ≡ ok (key_secret draw)
unfolding reveal
assigned_reveal c aead now draw version u o =
    let v = with_key c now draw version u in
    let label = fixed_key_aad v in
    ap (open_key aead (sealed aead draw v)) (o.decoded label)
    ∙ opened_raw aead (sealed aead draw v) draw.nonce (aead.seal draw.nonce (key_secret draw) label)
        (key_secret draw) o.sized (o.tagged label) (o.reopened label)

solid_id : (id : String) → is_empty (text_append "uk_" id) ≡ false
solid_id id = go (text_append "uk_" id) (len-append "uk_" id)
  where
    go : (s : String) → len s ≡ len "uk_" + len id → is_empty s ≡ false
    go String.[] e = absurd (omega (arith, e))
    go (String.◌∷◌ r s) e = refl

-- The record that was saved: the only one with its name, with a key that opens to the secret whose
-- digest it holds.
record Fresh (b : Backend) (name : String) (users : List User) (u : User) : Type 0 where
  sole : Sole (λ x. x.username == name) u users
  keyed : has_key u ≡ true
  secret : String
  opened : reveal b.key_cipher u ≡ ok secret
  hashed : u.key_hash ≡ digest b.crypto secret

active_enabled : (name : String) (u : User) → is_active_named name u ≡ true → u.disabled ≡ false
active_enabled name u h = ground (arith, h)

keyed_lem :
    (c : Crypto) (aead : Aead) (now : ℕ) (draw : KeyDraw) (version : ℤ) (u : User)
    → u.disabled ≡ false
    → has_key (sealed aead draw (with_key c now draw version u)) ≡ true
keyed_lem c aead now draw version u h = let solid = solid_id draw.id in ground (arith, h, solid)

regenerate_body-Fresh :
    (b : Backend) (aead : Aead) (now : ℕ) (draw : KeyDraw) (name : String) (users : List User)
    → b.key_cipher ≡ some aead
    → Opens aead draw
    → IsSound (identities users)
    → OnOk (OnSaved (Fresh b name)) (regenerate_body b now (some draw) name users)
unfolding regenerate_body assign
regenerate_body-Fresh b aead now draw name users cipher opens h =
    let P = OnSaved (Fresh b name) in
    OnOk->>= P (or_fail (find (is_active_named name) users) user_not_found) _ λ u e.
      let found = or_fail-ok (find (is_active_named name) users) user_not_found e in
      subst
        (λ k. OnOk P (
          assign b.crypto k now (some draw) (next_version u.key_version) u >>= λ assigned.
          or_fail (update_first (is_active_named name) (λ _. assigned) users) user_not_found
          >>= λ changed. ok (save changed assigned)))
        (sym cipher) (go u found)
  where
    settled :
        (u : User) (o : Option (List User))
        → has_key u ≡ true
        → (secret : String) → reveal b.key_cipher u ≡ ok secret
        → u.key_hash ≡ digest b.crypto secret
        → OnSome (Sole (λ x. x.username == name) u) o
        → OnOk
            (OnSaved (Fresh b name))
            (or_fail o user_not_found >>= λ changed. ok (save changed u))
    settled u none keyed secret opened hashed k = tt
    settled u (some changed) keyed secret opened hashed k = record {
      sole = k;
      keyed = keyed;
      secret = secret;
      opened = opened;
      hashed = hashed;
    }

    go :
        (u : User)
        → find (is_active_named name) users ≡ some u
        → OnOk (OnSaved (Fresh b name)) (
            assign b.crypto (some aead) now (some draw) (next_version u.key_version) u
            >>= λ assigned.
                or_fail (update_first (is_active_named name) (λ _. assigned) users) user_not_found
                >>= λ changed. ok (save changed assigned))
    go u found =
        let version = next_version u.key_version in
        let v = sealed aead draw (with_key b.crypto now draw version u) in
        let active = find-some (is_active_named name) u users found in
        settled v (update_first (is_active_named name) (λ _. v) users)
          (keyed_lem b.crypto aead now draw version u (active_enabled name u active))
          (key_secret draw)
          (ap (λ k. reveal k v) cipher ∙ assigned_reveal b.crypto aead now draw version u opens)
          refl (put-Sole name u v users h.unique found (active_name name u active))

named_by :
    (lower : Char → Char) (username name : String)
    → normalize_username lower username ≡ ok name
    → to_lower lower (trim_space username) ≡ name
unfolding normalize_username check_username
named_by lower username name h =
    let lowered = to_lower lower (trim_space username) in
    ok_injective
      (>>-eq-ok
        (refuse_if (is_empty lowered) username_required
          >> refuse_if (ltb max_username_bytes (len lowered)) username_too_long
          >> refuse_if (has_blank lowered) username_has_space)
        (ok lowered) h).1

abbrev pub verifier_for : Backend → FixedUserKey → FixedUserKeyVerifier
verifier_for b key = record {
  id = key.id;
  owner = key.owner;
  version = key.version;
  hash = digest b.crypto key.secret;
}

picked_for :
    (b : Backend) (io : Io) (username name : String) (t : UserStore) (u : User)
    → t.cached.loaded ≡ true
    → to_lower b.lower (trim_space username) ≡ name
    → Fresh b name t.cached.value u
    → (fixed_key_for_user b io username t).1 ≡ ok (verifier_of u)
unfolding fixed_key_for_user fixed_key_verifiers with_users on_loaded settle
picked_for b io username name t u loaded lowered f =
    ap
      (λ r.
        (pick_verifier (to_lower b.lower (trim_space username))
          (on_loaded io b.codec (λ users. ok (keep (verifiers_of users))) r)).1)
      (load_users-loaded io b.codec t loaded)
    ∙ ap
        (λ n.
          or_fail (find (λ (k : FixedUserKeyVerifier). k.owner == n) (verifiers_of t.cached.value))
            key_not_found)
        lowered
    ∙ ap (λ o. or_fail o key_not_found) (picked name u t.cached.value f.keyed f.sole)

revealed_for :
    (b : Backend) (io : Io) (username name : String) (r : UserStore × Checked User)
    → r.0.cached.loaded ≡ true
    → to_lower b.lower (trim_space username) ≡ name
    → Answers (Fresh b name) r
    → OnOk
        (λ key. (fixed_key_for_user b io username (reveal_saved b r).0).1 ≡ ok (verifier_for b key))
        (reveal_saved b r).1
revealed_for b io username name (t, err e) loaded lowered f = tt
revealed_for b io username name (t, ok u) loaded lowered f =
    let P : FixedUserKey → Type 0 =
      λ key. (fixed_key_for_user b io username t).1 ≡ ok (verifier_for b key) in
    OnOk->>= P (reveal b.key_cipher u) _ λ secret e.
      let same : f.secret ≡ secret = ok_injective (sym f.opened ∙ e) in
      let hash : u.key_hash ≡ digest b.crypto secret = f.hashed ∙ ap (digest b.crypto) same in
      picked_for b io username name t u loaded lowered f
      ∙ ap
          (λ h.
            ok (record { id = u.key_id; owner = u.username; version = u.key_version; hash = h }))
          hash

-- A key that is made anew, with a cipher that opens what it seals, in a store that has loaded sound users:
-- what the nodes are given for the user where they ask next, before any other call, has the id, the
-- owner and the version that are answered, and the digest of the secret that is answered, so that the
-- new secret is the one that they accept.
pub regenerate_fixed_key-matches :
    (b : Backend) (aead : Aead) (io io' : Io) (draw : KeyDraw) (username : String) (s : UserStore)
    → b.key_cipher ≡ some aead
    → Opens aead draw
    → IsKept s
    → OnOk
        (λ key.
          (fixed_key_for_user b io' username (regenerate_fixed_key b io (some draw) username s).0).1
          ≡ ok (verifier_for b key))
        (regenerate_fixed_key b io (some draw) username s).1
unfolding regenerate_fixed_key given
regenerate_fixed_key-matches b aead io io' draw username s cipher opens kept =
    go (normalize_username b.lower username) refl
  where
    go :
        (r : Checked String)
        → normalize_username b.lower username ≡ r
        → let t : UserStore × Checked FixedUserKey = given r s (λ name.
          reveal_saved b (with_users io b.codec (regenerate_body b io.now (some draw) name) s)) in
          OnOk (λ key. (fixed_key_for_user b io' username t.0).1 ≡ ok (verifier_for b key)) t.1
    go (err e) known = tt
    go (ok name) known =
        let body = regenerate_body b io.now (some draw) name in
        let saved = with_users io b.codec body s in
        let still =
          with_users-IsKept io b.codec body s (regenerate_body-Keeps b io.now (some draw) name)
            kept in
        revealed_for b io' username name saved still.loaded (named_by b.lower username name known) (
          with_users-Answers (Fresh b name) io b.codec body s λ users known_users.
            let same : users ≡ s.cached.value =
              ok_injective
                (sym known_users ∙ ap (λ r. r.1) (load_users-loaded io b.codec s kept.loaded)) in
            regenerate_body-Fresh b aead io.now draw name users cipher opens
              (subst (λ us. IsSound (identities us)) (sym same) kept.sound))
