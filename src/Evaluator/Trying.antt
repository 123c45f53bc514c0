-- ===== src/Evaluator/Trying.antt =====
-- crates/krit/src/evaluator.rs: trying one pattern of crates/krit/src/patterns.rs on a value.
use krit.Base.{◌≡◌, ◌≢◌, refl, ap, subst, Bool, true, false, Option, [], ◌∷◌, arith, ℕ}
use Prim.Native.String.{String}
use krit.Diagnostic.{none_with_payload, Constructor, Result, ◌>>=◌, >>=-eq-ok, ok_injective}
use krit.Patterns.{
  Pattern, ConstructorPath, binder, wildcard, empty_list, VariantName, path, from_variant,
}
use krit.Patterns.Meaning.{matches, Ty, Fits, Typed}
use krit.Value.{Value, Values, nil, new_list}
use krit.Value.Depth.{IsSound, new_list-tail}
use krit.Value.{Environment, extend}
use krit.Evaluator.{binder_name, match_pattern}

-- A pattern with a path, tried on a value, does what the path says.
abbrev pub Decides : Result (Option Environment) → Bool → Type 0
Decides (Result.ok (Option.some bound)) b = b ≡ true
Decides (Result.ok Option.none) b = b ≡ false
Decides (Result.err e) b = ⊥

-- One pattern does so on the sound values of one type.
abbrev Agrees : Pattern → ConstructorPath → Ty → Environment → Type 0
Agrees p q t env =
    (v : Value) → Fits t v → IsSound v → Decides (match_pattern p v env) (matches q v)

Agrees-empty :
    (t : Ty) (env : Environment)
    → Typed t (Constructor.empty ∷ [])
    → Agrees empty_list (Constructor.empty ∷ []) t env
unfolding match_pattern matches
Agrees-empty (Ty.list t) env ty (Value.list nil d) fits s = refl
Agrees-empty (Ty.list t) env ty (Value.list (Values.cons v vs) d) fits s = refl
Agrees-empty (Ty.list t) env ty _ fits s = absurd fits
Agrees-empty _ env ty v fits s = absurd ty

match_pattern-cons :
    (head tail : Pattern) (v : Value) (vs : Values) (d : ℕ) (env : Environment) (rest : Value)
    → new_list vs ≡ Result.ok rest
    → match_pattern (Pattern.cons head tail) (Value.list (Values.cons v vs) d) env
      ≡ Result.ok (Option.some (extend (binder_name tail) rest (extend (binder_name head) v env)))
unfolding match_pattern
match_pattern-cons head tail v vs d env rest h =
    ap
      (λ m. m >>= λ r.
        Result.ok (Option.some (extend (binder_name tail) r (extend (binder_name head) v env))))
      h

Agrees-cons :
    (head tail : Pattern) (t : Ty) (env : Environment)
    → Typed t (Constructor.cons ∷ [])
    → Agrees (Pattern.cons head tail) (Constructor.cons ∷ []) t env
unfolding matches
Agrees-cons head tail (Ty.list t) env ty (Value.list nil d) fits s = unfold match_pattern in refl
Agrees-cons head tail (Ty.list t) env ty (Value.list (Values.cons v vs) d) fits s =
    let (rest, built, _) = new_list-tail v vs d s in
    rw (match_pattern-cons head tail v vs d env rest built) refl
Agrees-cons head tail (Ty.list t) env ty _ fits s = absurd fits
Agrees-cons head tail _ env ty v fits s = absurd ty

Agrees-none :
    (t : Ty) (env : Environment)
    → Typed t (Constructor.none ∷ [])
    → Agrees (Pattern.bare VariantName.none) (Constructor.none ∷ []) t env
unfolding match_pattern matches
Agrees-none (Ty.option t) env ty (Value.variant VariantName.some payload d) fits s = refl
Agrees-none (Ty.option t) env ty (Value.bare VariantName.none) fits s = refl
Agrees-none (Ty.option t) env ty _ fits s = absurd fits
Agrees-none _ env ty v fits s = absurd ty

Agrees-some :
    (below : Pattern) (q : ConstructorPath) (t : Ty) (env : Environment)
    → ((u : Ty) → Typed u q → Agrees below q u env)
    → Typed t (Constructor.some ∷ q)
    → Agrees (Pattern.variant VariantName.some below) (Constructor.some ∷ q) t env
unfolding match_pattern matches IsSound
Agrees-some below q (Ty.option t) env ih ty (Value.variant VariantName.some payload d) fits s =
    ih t ty payload fits s.1
Agrees-some below q (Ty.option t) env ih ty (Value.bare VariantName.none) fits s = refl
Agrees-some below q (Ty.option t) env ih ty _ fits s = absurd fits
Agrees-some below q _ env ih ty v fits s = absurd ty

Agrees-ok :
    (below : Pattern) (q : ConstructorPath) (t : Ty) (env : Environment)
    → ((u : Ty) → Typed u q → Agrees below q u env)
    → Typed t (Constructor.ok ∷ q)
    → Agrees (Pattern.variant VariantName.ok below) (Constructor.ok ∷ q) t env
unfolding match_pattern matches IsSound
Agrees-ok below q (Ty.result t e) env ih ty (Value.variant VariantName.ok payload d) fits s =
    ih t ty payload fits s.1
Agrees-ok below q (Ty.result t e) env ih ty (Value.variant VariantName.err payload d) fits s = refl
Agrees-ok below q (Ty.result t e) env ih ty _ fits s = absurd fits
Agrees-ok below q _ env ih ty v fits s = absurd ty

Agrees-err :
    (below : Pattern) (q : ConstructorPath) (t : Ty) (env : Environment)
    → ((u : Ty) → Typed u q → Agrees below q u env)
    → Typed t (Constructor.err ∷ q)
    → Agrees (Pattern.variant VariantName.err below) (Constructor.err ∷ q) t env
unfolding match_pattern matches IsSound
Agrees-err below q (Ty.result t e) env ih ty (Value.variant VariantName.err payload d) fits s =
    ih e ty payload fits s.1
Agrees-err below q (Ty.result t e) env ih ty (Value.variant VariantName.ok payload d) fits s = refl
Agrees-err below q (Ty.result t e) env ih ty _ fits s = absurd fits
Agrees-err below q _ env ih ty v fits s = absurd ty

path-variant :
    (name : VariantName) (below : Pattern) (q : ConstructorPath)
    → path (Pattern.variant name below) ≡ Result.ok q
    → (r : ConstructorPath) × (path below ≡ Result.ok r) × (from_variant name ∷ r ≡ q)
unfolding path
path-variant VariantName.none below q e = cc
path-variant VariantName.some below q e =
    let (r, f, g) = >>=-eq-ok (path below) _ e in (r, f, ok_injective g)
path-variant VariantName.ok below q e =
    let (r, f, g) = >>=-eq-ok (path below) _ e in (r, f, ok_injective g)
path-variant VariantName.err below q e =
    let (r, f, g) = >>=-eq-ok (path below) _ e in (r, f, ok_injective g)

Agrees-variant :
    (name : VariantName) (below : Pattern) (r : ConstructorPath) (t : Ty) (env : Environment)
    → path (Pattern.variant name below) ≢ Result.err none_with_payload
    → ((u : Ty) → Typed u r → Agrees below r u env)
    → Typed t (from_variant name ∷ r)
    → Agrees (Pattern.variant name below) (from_variant name ∷ r) t env
unfolding from_variant
Agrees-variant VariantName.none below r t env h ih ty = absurd (unfold path in h refl)
Agrees-variant VariantName.some below r t env h ih ty = Agrees-some below r t env ih ty
Agrees-variant VariantName.ok below r t env h ih ty = Agrees-ok below r t env ih ty
Agrees-variant VariantName.err below r t env h ih ty = Agrees-err below r t env ih ty

along :
    (p : Pattern) (t : Ty) (env : Environment) {r q : ConstructorPath}
    → r ≡ q
    → (Typed t r → Agrees p r t env)
    → Typed t q
    → Agrees p q t env
along p t env same f = subst (λ x. Typed t x → Agrees p x t env) same f

path-open_binder : (name : String) (q : ConstructorPath) → path (binder name) ≡ Result.ok q → [] ≡ q
unfolding path
path-open_binder name q e = ok_injective e

path-open_wildcard : (q : ConstructorPath) → path wildcard ≡ Result.ok q → [] ≡ q
unfolding path
path-open_wildcard q e = ok_injective e

path-empty_list : (q : ConstructorPath) → path empty_list ≡ Result.ok q → Constructor.empty ∷ [] ≡ q
unfolding path
path-empty_list q e = ok_injective e

path-cons :
    (head tail : Pattern) (q : ConstructorPath)
    → path (Pattern.cons head tail) ≡ Result.ok q
    → Constructor.cons ∷ [] ≡ q
unfolding path
path-cons head tail q e = ground arith

path-bare :
    (name : VariantName) (q : ConstructorPath)
    → path (Pattern.bare name) ≡ Result.ok q
    → (name ≡ VariantName.none) × (Constructor.none ∷ [] ≡ q)
unfolding path
path-bare VariantName.none q e = (refl, ok_injective e)
path-bare VariantName.some q e = absurd (ground arith)
path-bare VariantName.ok q e = absurd (ground arith)
path-bare VariantName.err q e = absurd (ground arith)

Agrees-binder : (name : String) (t : Ty) (env : Environment) → Agrees (binder name) [] t env
unfolding match_pattern matches
Agrees-binder name t env v fits s = refl

Agrees-wildcard : (t : Ty) (env : Environment) → Agrees wildcard [] t env
unfolding match_pattern matches
Agrees-wildcard t env v fits s = refl

-- On a value of the type, trying a pattern never fails, and it binds exactly when its path matches.
pub match_pattern-Decides :
    (p : Pattern) (q : ConstructorPath) (t : Ty) (env : Environment)
    → path p ≡ Result.ok q
    → Typed t q
    → Agrees p q t env
match_pattern-Decides (binder name) q t env e =
    along (binder name) t env (path-open_binder name q e) (λ ty. Agrees-binder name t env)
match_pattern-Decides wildcard q t env e =
    along wildcard t env (path-open_wildcard q e) (λ ty. Agrees-wildcard t env)
match_pattern-Decides empty_list q t env e =
    along empty_list t env (path-empty_list q e) (Agrees-empty t env)
match_pattern-Decides (Pattern.cons head tail) q t env e =
    along (Pattern.cons head tail) t env (path-cons head tail q e) (Agrees-cons head tail t env)
match_pattern-Decides (Pattern.bare name) q t env e =
    let (is_none, same) = path-bare name q e in
    rw is_none (along (Pattern.bare VariantName.none) t env same (Agrees-none t env))
match_pattern-Decides (Pattern.variant name below) q t env e =
    let (r, f, same) = path-variant name below q e in
    along (Pattern.variant name below) t env same
      (Agrees-variant name below r t env (λ h. cc) (λ u. match_pattern-Decides below r u env f))
