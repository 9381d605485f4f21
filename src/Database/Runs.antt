-- ===== src/Database/Runs.antt =====
-- Actions that either run through, with a known effect on the tables, or stop with an error: what can
-- be said of a block of statements whatever the environment fails.
use trading_platform_backend.Prelude.{
  ◌≡◌, ◌≢◌, ◌⊎◌, refl, ap, ◌∙◌, inl, inr, Bool, true, false, List, [], ◌∷◌,
}
use trading_platform_backend.Database.{Db}
use trading_platform_backend.Database.Exec.{
  Error, failed, Result, ok, err, Exec, attempt, statement, continue, pure, ◌>>=◌, ◌>>◌,
}

module _ {F : Type 0} where
  abbrev pub with_faults : List Bool → Db F → Db F
  with_faults faults db = record db { faults = faults }

  -- The action succeeds with the effect f, and some later faults; or it stops, which takes a fault.
  abbrev pub RunsAt : (Db F → Db F) → Db F → Result (Unit {0}) × Db F → Type 0
  RunsAt f db out =
      ((later : List Bool) × (out ≡ (ok tt, with_faults later (f db)))
        × (db.faults ≡ [] → later ≡ []))
      ⊎ ((e : Error) × (next : Db F) × (out ≡ (err e, next)) × (db.faults ≢ []))

  -- The effect does not look at the faults.
  abbrev pub IsBlind : (Db F → Db F) → Type 0
  IsBlind f =
      (db : Db F) (before after : List Bool)
      → with_faults after (f (with_faults before db)) ≡ with_faults after (f db)

module _ {F : Type 0} where
  abbrev pub Runs : Exec F (Unit {0}) → (Db F → Db F) → Type 0
  Runs m f = (db : Db F) → RunsAt f db (m db)

  abbrev write : (Db F → Db F) → Exec F (Unit {0})
  write f db = (ok tt, f db)

  Runs-attempt :
      (faults : List Bool) (f : Db F → Db F) (db : Db F)
      → ((later : List Bool) → f (with_faults later db) ≡ with_faults later (f db))
      → f db ≡ with_faults db.faults (f db)
      → db.faults ≡ faults
      → RunsAt f db (attempt faults (write f) db)
  Runs-attempt [] f db keeps same e = inl (db.faults, ap (λ d. (ok tt, d)) same, λ h. h)
  Runs-attempt (true ∷ later) f db keeps same e =
      inr (failed, with_faults later db, refl, λ h. absurd (cc (e, h)))
  Runs-attempt (false ∷ later) f db keeps same e =
      inl (later, ap (λ d. (ok tt, d)) (keeps later), λ h. absurd (cc (e, h)))

  -- A statement that writes.
  pub Runs-statement :
      (f : Db F → Db F)
      → ((db : Db F) (later : List Bool) → f (with_faults later db) ≡ with_faults later (f db))
      → Runs (statement (write f)) f
  Runs-statement f keeps db = Runs-attempt db.faults f db (keeps db) (keeps db db.faults) refl

  pub Runs-pure : Runs (pure tt) (λ db. db)
  Runs-pure db = inl (db.faults, refl, λ h. h)

  -- One block behind another.
  pub Runs-then :
      {m n : Exec F (Unit {0})} (f g : Db F → Db F)
      → IsBlind g
      → Runs m f
      → Runs n g
      → Runs (m >> n) (λ db. g (f db))
  Runs-then {m} {n} f g blind first second db = elim (first db) [
    | inr (e, next, out, faulty) ↦ inr (e, next, ap (λ r. continue r.0 (λ u. n) r.1) out, faulty)
    | inl (later, out, calm) ↦
        let start = ap (λ r. continue r.0 (λ u. n) r.1) out in
        elim (second (with_faults later (f db))) [
          | inr (e, next, stopped, faulty) ↦ inr (e, next, start ∙ stopped, λ h. faulty (calm h))
          | inl (last, done, still_calm) ↦ inl (
            last,
            start ∙ done ∙ ap (λ d. (ok tt, d)) (blind (f db) later last),
            λ h. still_calm (calm h),
          )
        ]
  ]

module _ {F A B : Type 0} (read : Db F → A) (rest : A → Exec F B) where
  -- A query with the rest of the block behind it: it fails, or the rest runs on what it read.
  abbrev pub ReadsAt : Db F → Result B × Db F → Type 0
  ReadsAt db out =
      ((later : List Bool) × (out ≡ (err failed, with_faults later db)) × (db.faults ≢ []))
      ⊎ ((later : List Bool) × (out ≡ rest (read (with_faults later db)) (with_faults later db))
          × (db.faults ≡ [] → later ≡ []))

  ReadsAt-attempt :
      (faults : List Bool) (db : Db F)
      → db.faults ≡ faults
      → ReadsAt db (
          continue
            (attempt faults (λ d. (ok (read d), d)) db).0
            rest
            (attempt faults (λ d. (ok (read d), d)) db).1)
  ReadsAt-attempt [] db e = inr (db.faults, refl, λ h. h)
  ReadsAt-attempt (true ∷ later) db e = inl (later, refl, λ h. absurd (cc (e, h)))
  ReadsAt-attempt (false ∷ later) db e = inr (later, refl, λ h. absurd (cc (e, h)))

  pub ReadsAt-statement : (db : Db F) → ReadsAt db ((statement (λ d. (ok (read d), d)) >>= rest) db)
  ReadsAt-statement db = ReadsAt-attempt db.faults db refl
