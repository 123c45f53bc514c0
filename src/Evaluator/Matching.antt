-- ===== src/Evaluator/Matching.antt =====
-- crates/krit/src/evaluator.rs: what matching binds is sound.
use krit.Base.{refl, Bool, true, false, not, Option, none, some, if◌then◌else◌, ◌==◌}
use krit.Diagnostic.{Diagnostic, Result, ◌>>=◌}
use krit.Patterns.{
  Pattern, VariantName, binder, wildcard, empty_list, family, family_rank, from_variant, rank,
}
use krit.Value.{Value, Values, nil, Environment, extend, new_list}
use krit.Value.Depth.{IsSound, ScopeIsSound}
use krit.Evaluator.{match_pattern, same_variant, binder_name}
use krit.Evaluator.Results.{Sound, new_list-Sound}

-- The environment that a match answers with, when it does.
abbrev pub BindsSound : Result (Option Environment) → Type 0
BindsSound (Result.ok (some bound)) = ScopeIsSound bound
BindsSound (Result.ok none) = Unit
BindsSound (Result.err e) = Unit

choose-BindsSound :
    (b : Bool) (x y : Result (Option Environment))
    → BindsSound x
    → BindsSound y
    → BindsSound (if b then x else y)
choose-BindsSound true x y hx hy = hx
choose-BindsSound false x y hx hy = hy

same_variant-BindsSound :
    (expected name : VariantName) (agreed : Result (Option Environment))
    → BindsSound agreed
    → BindsSound (same_variant expected name agreed)
unfolding same_variant
same_variant-BindsSound expected name agreed h =
    choose-BindsSound
      (not
        (family_rank (family (from_variant name)) == family_rank (family (from_variant expected))))
      (Result.err Diagnostic.wrong_kind)
      (if not (rank (from_variant name) == rank (from_variant expected))
        then Result.ok none
        else agreed)
      tt
      (choose-BindsSound (not (rank (from_variant name) == rank (from_variant expected)))
        (Result.ok none) agreed tt h)

cons-BindsSound :
    (head tail : Pattern) (v : Value) (rest : Result Value) (env : Environment)
    → IsSound v
    → Sound rest
    → ScopeIsSound env
    → BindsSound (
        rest >>= λ r.
        Result.ok (some (extend (binder_name tail) r (extend (binder_name head) v env))))
unfolding IsSound
cons-BindsSound head tail v (Result.ok r) env hv hr he = (hr r refl, (hv, he))
cons-BindsSound head tail v (Result.err e) env hv hr he = tt

pub match_pattern-BindsSound :
    (p : Pattern) (v : Value) (env : Environment)
    → IsSound v
    → ScopeIsSound env
    → BindsSound (match_pattern p v env)
unfolding match_pattern IsSound
match_pattern-BindsSound (binder name) v env hv he = (hv, he)
match_pattern-BindsSound wildcard v env hv he = (hv, he)
match_pattern-BindsSound empty_list (Value.list nil d) env hv he = he
match_pattern-BindsSound empty_list (Value.list (Values.cons v vs) d) env hv he = tt
match_pattern-BindsSound (Pattern.cons head tail) (Value.list nil d) env hv he = tt
match_pattern-BindsSound (Pattern.cons head tail) (Value.list (Values.cons v vs) d) env hv he =
    cons-BindsSound head tail v (new_list vs) env hv.1.0 (new_list-Sound vs hv.1.1) he
match_pattern-BindsSound (Pattern.bare expected) (Value.bare name) env hv he =
    same_variant-BindsSound expected name (Result.ok (some env)) he
match_pattern-BindsSound (Pattern.bare expected) (Value.variant name payload d) env hv he =
    same_variant-BindsSound expected name (Result.err Diagnostic.wrong_payload_shape) tt
match_pattern-BindsSound (Pattern.variant expected below) (Value.variant name payload d) env hv he =
    same_variant-BindsSound expected name (match_pattern below payload env)
      (match_pattern-BindsSound below payload env hv.1 he)
match_pattern-BindsSound (Pattern.variant expected below) (Value.bare name) env hv he =
    same_variant-BindsSound expected name (Result.err Diagnostic.wrong_payload_shape) tt
match_pattern-BindsSound p v env hv he = tt
