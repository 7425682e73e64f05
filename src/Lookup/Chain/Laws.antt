-- ===== src/Lookup/Chain/Laws.antt =====
-- `Lookup` of a chain returns the first value, and tells a missing secret from a broken source.
use credential_helper.Base.{
  ◌≡◌, ◌↔◌, refl, ap, ◌∙◌, Bool, true, false, ◌||◌, not, [], ◌∷◌, arith, if◌then◌else◌, All, inl,
  inr, Bool-cases,
}
use credential_helper.Text.{Text}
use credential_helper.Errors.{
  Error, Errors, ok, err, more, is_not_found_err, any_not_found_err, Result-cases, wrapped,
}
use credential_helper.Lookup.Source.{Secrets, Source, source_lookup}
use credential_helper.Lookup.Chain.{
  SourceJson, ConfigEntry, Config, source_for, lookup_loop, lookup, append_error,
}

abbrev is_more : Errors → Bool
is_more Errors.none = false
is_more (more _ _) = true

or-false : (b : Bool) → (b || false) ≡ b
or-false true = refl
or-false false = refl

or_regroup : (a b c : Bool) → (a || (b || c)) ≡ ((a || b) || c)
or_regroup true b c = refl
or_regroup false b c = refl

any_not_found_err-append_error :
    (es : Errors) (e : Error)
    → any_not_found_err (append_error es e) ≡ (any_not_found_err es || is_not_found_err e)
unfolding any_not_found_err
any_not_found_err-append_error Errors.none e = or-false (is_not_found_err e)
any_not_found_err-append_error (more d es) e =
    ap (λ b. is_not_found_err d || b) (any_not_found_err-append_error es e)
    ∙ or_regroup (is_not_found_err d) (any_not_found_err es) (is_not_found_err e)

is_more-append_error : (es : Errors) (e : Error) → is_more (append_error es e) ≡ true
is_more-append_error Errors.none e = refl
is_more-append_error (more d es) e = refl

module _ {Raw : Type 0} (json : SourceJson Raw) (world : Secrets) where
  -- The source of the entry decodes, and has no value for the binding.
  pub record Fails (binding : Text) (entry : ConfigEntry Raw) : Type 0 where
    pub source : Source
    pub error : Error
    pub decodes : source_for json entry ≡ ok source
    pub fails : source_lookup world source binding ≡ err error

  -- The first entry that does not fail has this value, and its source decodes.
  pub data FirstHit (binding value : Text) : Config Raw → Type 0 where
    here :
        {entry : ConfigEntry Raw} {rest : Config Raw} (source : Source)
        → source_for json entry ≡ ok source
        → source_lookup world source binding ≡ ok value
        → FirstHit binding value (entry ∷ rest)
    later :
        {entry : ConfigEntry Raw} {rest : Config Raw}
        → Fails binding entry
        → FirstHit binding value rest
        → FirstHit binding value (entry ∷ rest)

  lookup_loop_sound :
      (config : Config Raw) (binding value : Text) (errs : Errors)
      → lookup_loop json world config binding errs ≡ ok value
      → FirstHit binding value config
  unfolding lookup_loop
  lookup_loop_sound [] binding value errs h = ground arith
  lookup_loop_sound (entry ∷ rest) binding value errs h =
      elim (Result-cases (source_for json entry)) [
        | inr (e, bad) ↦ ground arith
        | inl (source, good) ↦ elim (Result-cases (source_lookup world source binding)) [
          | inl (v, hit) ↦ here source good (hit ∙ ground arith)
          | inr (e, miss) ↦
              later (record { source = source; error = e; decodes = good; fails = miss })
                (lookup_loop_sound rest binding value
                  (if is_not_found_err e then errs else append_error errs (wrapped "source" e))
                  (ground arith))
        ]
      ]

  lookup_loop_complete :
      {binding value : Text} {config : Config Raw} (errs : Errors)
      → FirstHit binding value config
      → lookup_loop json world config binding errs ≡ ok value
  unfolding lookup_loop
  lookup_loop_complete errs (here source good hit) = ground arith
  lookup_loop_complete errs (later f h) =
      rw (f.decodes, lookup_loop) (rw (f.fails, lookup_loop) (lookup_loop_complete _ h))

  -- `Lookup` returns a value exactly if that is the value of the first source that has one, and
  -- every source up to there decodes.
  pub lookup-FirstHit_iff :
      (config : Config Raw) (binding value : Text)
      → (lookup json world config binding ≡ ok value) ↔ FirstHit binding value config
  unfolding lookup
  lookup-FirstHit_iff [] binding value = (λ h. ground arith, λ d. elim d [ ])
  lookup-FirstHit_iff (entry ∷ rest) binding value =
      (lookup_loop_sound (entry ∷ rest) binding value _, lookup_loop_complete _)

  -- Some source failed for another reason than that it has no value.
  abbrev pub any_broken : (binding : Text) (config : Config Raw) → All (Fails binding) config → Bool
  any_broken binding [] fs = false
  any_broken binding (entry ∷ rest) (f, fs) =
      not (is_not_found_err f.error) || any_broken binding rest fs

  Misses : Config Raw → Text → Errors → Bool → Type 0
  Misses config binding errs broken =
      (e : Error) × (lookup_loop json world config binding errs ≡ err e)
      × (is_not_found_err e ≡ not (is_more errs || broken))

  lookup_loop-Misses :
      (config : Config Raw) (binding : Text) (fs : All (Fails binding) config) (errs : Errors)
      → any_not_found_err errs ≡ false
      → Misses config binding errs (any_broken binding config fs)
  unfolding lookup_loop Misses is_not_found_err
  lookup_loop-Misses [] binding fs Errors.none h = (_, refl, refl)
  lookup_loop-Misses [] binding fs (more e es) h = (_, refl, h)
  lookup_loop-Misses (entry ∷ rest) binding (f, fs) errs h =
      rw (f.decodes, lookup_loop)
        (rw (f.fails, lookup_loop)
          (elim (Bool-cases (is_not_found_err f.error)) [
            | inl missing ↦ rw missing (lookup_loop-Misses rest binding fs errs h)
            | inr broken ↦
                let errs' = append_error errs (wrapped "source" f.error) in
                let clean : any_not_found_err errs' ≡ false =
                  any_not_found_err-append_error errs (wrapped "source" f.error) ∙ rw (h, broken) in
                let (e, failed, kind) = lookup_loop-Misses rest binding fs errs' clean in
                rw broken (
                  e,
                  failed,
                  ground (arith, kind, is_more-append_error errs (wrapped "source" f.error)),
                )
          ]))

  -- If no source of a chain that is not empty has a value, and each decodes, `Lookup` returns an
  -- error, and the error counts as "not found" exactly if every source answered "not found".
  pub lookup_misses :
      (entry : ConfigEntry Raw) (rest : Config Raw) (binding : Text)
      (fs : All (Fails binding) (entry ∷ rest))
      → (e : Error) × (lookup json world (entry ∷ rest) binding ≡ err e)
        × (is_not_found_err e ≡ not (any_broken binding (entry ∷ rest) fs))
  unfolding lookup Misses
  lookup_misses entry rest binding fs =
      lookup_loop-Misses (entry ∷ rest) binding fs Errors.none (unfold any_not_found_err in refl)
