-- ===== src/Store/RootKey/Apart.antt =====
-- internal/store/store.go, ValidateRootKey: reading or creating the root key changes nothing but its file.
use gpuardian.Base.{◌≡◌, refl, ◌⊎◌, inl, inr, Option, none, some, ok, err, String}
use gpuardian.Store.Errors.{Error, Fallible}
use gpuardian.Store.Persist.{Io, Store}
use gpuardian.Store.RootKey.{
  read_root_key_file, create_root_key, read_or_create_root_key, after_root_key, with_root_key,
}

-- Two stores that differ at most in a root key file, which was made where there was none.
pub record IsApartFrom (s t : Store) : Type 0 where
  pub loaded : t.loaded ≡ s.loaded
  pub state : t.state ≡ s.state
  pub committed : t.committed ≡ s.committed
  pub file : t.file ≡ s.file
  pub root_file : (t.root_file ≡ s.root_file) ⊎ (s.root_file ≡ none)

pub itself : (s : Store) → IsApartFrom s s
itself s = record {
  loaded = refl;
  state = refl;
  committed = refl;
  file = refl;
  root_file = inl refl;
}

made :
    (s : Store) (raw : String)
    → s.root_file ≡ none
    → IsApartFrom s (record s { root_file = some raw })
made s raw e = record {
  loaded = refl;
  state = refl;
  committed = refl;
  file = refl;
  root_file = inr e;
}

create_root_key-IsApartFrom :
    (io : Io) (s : Store) → s.root_file ≡ none → IsApartFrom s (create_root_key io s).0
unfolding create_root_key
create_root_key-IsApartFrom io s e =
    elim io.root_race
      as (λ race.
        IsApartFrom s
          (elim race as (λ _. Store × Fallible String) [
            | some raw ↦ (record s { root_file = some raw }, read_root_key_file io raw)
            | none ↦ create_root_key (record io { root_race = none }) s
          ]).0) [ some raw ↦ made s raw e | none ↦ go io.root_fault ]
  where
    go :
        (o : Option Error)
        → IsApartFrom s (create_root_key (record io { root_race = none; root_fault = o }) s).0
    go (some x) = itself s
    go none = made s _ e

read_or_create-IsApartFrom : (io : Io) (s : Store) → IsApartFrom s (read_or_create_root_key io s).0
unfolding read_or_create_root_key
read_or_create-IsApartFrom io s = go s.root_file refl
  where
    go :
        (o : Option String)
        → s.root_file ≡ o
        → IsApartFrom s
            (elim o as (λ _. Store × Fallible String) [
              | some raw ↦ (s, read_root_key_file io raw)
              | none ↦ create_root_key io s
            ]).0
    go (some raw) e = itself s
    go none e = create_root_key-IsApartFrom io s e

module _ {A : Type 0} (P : Store × Fallible A → Type 0) (rest : Store → Store × Fallible A)
    (s : Store) where
  after_root_key_lem :
      (r : Store × Fallible (Unit {0}))
      → IsApartFrom s r.0
      → ((t : Store) (e : Error) → IsApartFrom s t → P (t, err e))
      → ((t : Store) → IsApartFrom s t → P (rest t))
      → P (after_root_key rest r)
  unfolding after_root_key
  after_root_key_lem (t, err e) apart refused passed = refused t e apart
  after_root_key_lem (t, ok x) apart refused passed = passed t apart

  -- An operation behind the root key check is refused, or does the rest on such a store.
  pub with_root_key_lem :
      (io : Io) (candidate : String)
      → ((t : Store) (e : Error) → IsApartFrom s t → P (t, err e))
      → ((t : Store) → IsApartFrom s t → P (rest t))
      → P (with_root_key io candidate rest s)
  unfolding with_root_key
  with_root_key_lem io candidate refused passed =
      after_root_key_lem _ (read_or_create-IsApartFrom io s) refused passed
