-- ===== src/TaskRunner/Collect/Merged.antt =====
-- aggregate of taskrunner/tasks/collect/collect.go: what the results of a version become.
use etc.Prelude.{
  ◌≡◌, ◌≢◌, refl, sym, ap, ◌∙◌, Bool, true, false, Option, none, some, [], ◌∷◌, ◌++◌, String,
  str_eq, eq_iff, if◌then◌else◌, lookup, lookup-insert, lookup-cons, lookup-nil, arith,
}
use mathlib.Core.Path.{subst}
use etc.Prelude.Int.{ℤ, ◌+ℤ◌, wrap64}
use etc.TaskRunner.Collect.Aggregate.{
  RunResult, Codes, Results, Fortio, count_or_zero, add_count, add_ret_codes, added_codes, merge,
  merge_found, aggregate,
}

-- A Go map lists each key once.
abbrev pub HasUniqueKeys : Codes → Type 0
HasUniqueKeys [] = Unit {0}
HasUniqueKeys (entry ∷ entries) = (lookup entry.0 entries ≡ none) × HasUniqueKeys entries

-- The count of a key after adding: the sum where the new codes have the key.
unfoldable pub sum_of : Option ℤ → Option ℤ → ℤ
sum_of old none = count_or_zero old
sum_of old (some n) = wrap64 (count_or_zero old +ℤ n)

abbrev pub IsSum : Codes → Codes → Codes → Type 0
IsSum old new sum =
    (key : String) → count_or_zero (lookup key sum) ≡ sum_of (lookup key old) (lookup key new)

counted :
    (key : String) (old : Codes) (k : String) (n : ℤ) (rest : Option ℤ) (b : Bool)
    → str_eq k key ≡ b
    → (str_eq k key ≡ true → rest ≡ none)
    → sum_of (if b then some (wrap64 (count_or_zero (lookup k old) +ℤ n)) else lookup key old) rest
      ≡ sum_of (lookup key old) (if b then some n else rest)
unfolding sum_of
counted key old k n rest true e h =
    let same : k ≡ key = (eq_iff k key).0 e in
    ap (λ r. sum_of (some (wrap64 (count_or_zero (lookup k old) +ℤ n))) r) (h e)
    ∙ ap (λ x. wrap64 (count_or_zero (lookup x old) +ℤ n)) same
counted key old k n rest false e h = refl

sum_of-add_count :
    (key : String) (old : Codes) (k : String) (n : ℤ) (rest : Option ℤ)
    → (str_eq k key ≡ true → rest ≡ none)
    → sum_of (lookup key (add_count k n old)) rest
      ≡ sum_of (lookup key old) (if str_eq k key then some n else rest)
unfolding add_count
sum_of-add_count key old k n rest h =
    ap (λ o. sum_of o rest) (lookup-insert k (wrap64 (count_or_zero (lookup k old) +ℤ n)) old key)
    ∙ counted key old k n rest (str_eq k key) refl h

add_ret_codes-IsSum : (old new : Codes) → HasUniqueKeys new → IsSum old new (add_ret_codes old new)
unfolding add_ret_codes sum_of
add_ret_codes-IsSum old [] h key = sym (ap (sum_of (lookup key old)) (lookup-nil key))
add_ret_codes-IsSum old (entry ∷ entries) h key =
    add_ret_codes-IsSum (add_count entry.0 entry.1 old) entries h.1 key
    ∙ sum_of-add_count key old entry.0 entry.1 (lookup key entries)
        (λ e. ap (λ x. lookup x entries) (sym ((eq_iff entry.0 key).0 e)) ∙ h.0)
    ∙ ap (sum_of (lookup key old)) (sym (lookup-cons key entry entries))

codes_or_empty : Option Codes → Codes
codes_or_empty none = []
codes_or_empty (some codes) = codes

-- The codes of two runs together; a run without codes counts none.
unfoldable pub IsCodeSum : Option Codes → Option Codes → Option Codes → Type 0
unfolding codes_or_empty
IsCodeSum none new sum = sum ≡ new
IsCodeSum (some old) new sum =
    (codes : Codes) × (sum ≡ some codes) × IsSum old (codes_or_empty new) codes

abbrev pub HasUniqueCodes : Option Codes → Type 0
HasUniqueCodes none = Unit {0}
HasUniqueCodes (some codes) = HasUniqueKeys codes

added_codes-IsCodeSum :
    (old new : Option Codes) → HasUniqueCodes new → IsCodeSum old new (added_codes old new)
unfolding IsCodeSum codes_or_empty sum_of
added_codes-IsCodeSum none new h = refl
added_codes-IsCodeSum (some old) none h =
    (old, refl, λ key. sym (ap (sum_of (lookup key old)) (lookup-nil key)))
added_codes-IsCodeSum (some old) (some new) h =
    (add_ret_codes old new, refl, add_ret_codes-IsSum old new h)

module _ ⦃fo : Fortio⦄ where
  -- Two runs of a version as one.
  pub record IsMerged (old new sum : RunResult fo.Float) : Type 0 where
    pub counted :
        sum.duration_histogram.count
        ≡ wrap64 (old.duration_histogram.count +ℤ new.duration_histogram.count)
    pub highest :
        sum.duration_histogram.max ≡ fo.max_of old.duration_histogram.max new.duration_histogram.max
    pub summed :
        sum.duration_histogram.sum ≡ fo.add old.duration_histogram.sum new.duration_histogram.sum
    pub sampled :
        sum.duration_histogram.samples
        ≡ old.duration_histogram.samples ++ new.duration_histogram.samples
    pub coded : IsCodeSum old.ret_codes new.ret_codes sum.ret_codes

  -- What a version has after the new run, by what it had before.
  unfoldable pub IsAggregated :
      Option (RunResult fo.Float) → RunResult fo.Float → Option (RunResult fo.Float) → Type 0
  IsAggregated none new after = after ≡ some new
  IsAggregated (some old) new after =
      (sum : RunResult fo.Float) × (after ≡ some sum) × IsMerged old new sum

  merge_found-IsAggregated :
      (before : Option (RunResult fo.Float)) (new : RunResult fo.Float)
      → HasUniqueCodes new.ret_codes
      → IsAggregated before new (some (merge_found before new))
  unfolding IsAggregated merge
  merge_found-IsAggregated none new h = refl
  merge_found-IsAggregated (some old) new h = (
    merge old new,
    refl,
    record {
      counted = refl;
      highest = refl;
      summed = refl;
      sampled = refl;
      coded = added_codes-IsCodeSum old.ret_codes new.ret_codes h;
    },
  )

  lookup-aggregate :
      (old : Results fo.Float) (version : String) (new : RunResult fo.Float) (other : String)
      → lookup other (aggregate (some old) version new) ≡ (
          if str_eq version other
          then some (merge_found (lookup version old) new)
          else lookup other old)
  unfolding aggregate
  lookup-aggregate old version new other =
      lookup-insert version (merge_found (lookup version old) new) old other

  -- Where the new result lists each return code once, aggregating it gives its version the new
  -- result alone if there was none before, and else the two as one: the counts added as 64-bit
  -- integers, the larger maximum, the sums added, the samples appended, and each return code's
  -- count increased by that of the new result; every other version keeps its result.
  pub aggregate-IsAggregated :
      (old : Results fo.Float) (version : String) (new : RunResult fo.Float)
      → HasUniqueCodes new.ret_codes
      → IsAggregated (lookup version old) new (lookup version (aggregate (some old) version new))
        × ((other : String)
            → version ≢ other
            → lookup other (aggregate (some old) version new) ≡ lookup other old)
  aggregate-IsAggregated old version new h =
      let merged = some (merge_found (lookup version old) new) in
      let same : str_eq version version ≡ true = (eq_iff version version).1 refl in
      let found : lookup version (aggregate (some old) version new) ≡ merged =
        lookup-aggregate old version new version
        ∙ ap (λ b. if b then merged else lookup version old) same in
      (
        subst (IsAggregated (lookup version old) new) (sym found)
            (merge_found-IsAggregated (lookup version old) new h),
        λ other n.
            let differs : str_eq version other ≡ false = ground (arith, eq_iff version other) in
            lookup-aggregate old version new other
            ∙ ap (λ b. if b then merged else lookup other old) differs,
      )
