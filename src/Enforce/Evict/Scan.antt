-- ===== src/Enforce/Evict/Scan.antt =====
-- The search for the stale rows of a process (internal/enforce/enforce.go,
-- evictExpiredReservedProcesses): what it found, and what it did not.
use gpuardian.Base.{
  ◌≡◌, ◌≢◌, refl, sym, subst, ◌⊎◌, inl, inr, Bool, true, false, not, ◌&&◌, Option, none, some,
  some_injective, List, [], ◌∷◌, All, Result, ok, err, ◌>>=◌, if◌then◌else◌,
}
use gpuardian.Enforce.Scope.{Fault, cancelled}
use gpuardian.Enforce.Evict.{Asked, scan}

-- A row that would entitle does not match, and a row that was found is stale and matches.
abbrev pub Misses : {A : Type 0} → Asked A → A → Type 0
Misses q a = (q.standing a).0 ≡ true → q.scope a ≢ ok true

abbrev pub Hits : {A : Type 0} → Asked A → A → Type 0
Hits q a = ((q.standing a).1 ≡ true) × (q.scope a ≡ ok true)

abbrev Row :
    {A : Type 0}
    → Bool
    → Bool
    → Result Fault Bool
    → Result Fault (Option (List A))
    → A
    → List A
    → Type 0
Row {A = A} entitled stale r rest a found =
    (behind : List A) × (rest ≡ ok (some behind))
    × (entitled ≡ true → r ≢ ok true)
    × ((found ≡ behind) ⊎ ((found ≡ a ∷ behind) × (stale ≡ true) × (r ≡ ok true)))

pub ok_injective : {A : Type 0} {a b : A} → ◌≡◌ {A = Result Fault A} (ok a) (ok b) → a ≡ b
ok_injective h = cc

scan_step :
    {A : Type 0} (done entitled stale : Bool) (r : Result Fault Bool)
    (rest : Result Fault (Option (List A))) (a : A) (found : List A)
    → (if done
        then err cancelled
        else if not entitled && not stale
        then rest
        else r >>= λ matches.
            if not matches
            then rest
            else if entitled
            then ok none
            else rest >>= λ more. ok (elim more [ none ↦ none | some xs ↦ some (a ∷ xs) ]))
      ≡ ok (some found)
    → Row entitled stale r rest a found
scan_step true e s r rest a found h = cc
scan_step false false false r rest a found h = (found, h, λ e. cc, inl refl)
scan_step false true s (err f) rest a found h = cc
scan_step false true s (ok false) rest a found h = (found, h, λ _ e. cc, inl refl)
scan_step false true s (ok true) rest a found h = cc
scan_step false false true (err f) rest a found h = cc
scan_step false false true (ok false) rest a found h = (found, h, λ e. cc, inl refl)
scan_step false false true (ok true) (err f) a found h = cc
scan_step false false true (ok true) (ok none) a found h = cc
scan_step false false true (ok true) (ok (some xs)) a found h =
    (xs, refl, λ e. cc, inr (sym (some_injective (ok_injective h)), refl, refl))

-- A search that came to its end: no row that entitles matches, and all that was found is stale and
-- matches.
pub scan_lem :
    {A : Type 0} (q : Asked A) (rows found : List A)
    → scan q rows ≡ ok (some found)
    → All (Misses q) rows × All (Hits q) found
unfolding scan
scan_lem q [] found h = (tt, subst (All (Hits q)) (some_injective (ok_injective h)) tt)
scan_lem q (a ∷ rows) found h =
    let (behind, rest, miss, end) =
      scan_step (q.done a) (q.standing a).0 (q.standing a).1 (q.scope a) (scan q rows) a found h in
    let (misses, hits) = scan_lem q rows behind rest in
    (
      (miss, misses),
      elim end [
        | inl same ↦ subst (All (Hits q)) (sym same) hits
        | inr (more, stale, matches) ↦ subst (All (Hits q)) (sym more) ((stale, matches), hits)
      ],
    )
