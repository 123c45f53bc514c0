-- ===== src/Evaluator/Good.antt =====
-- crates/krit/src/evaluator.rs: what every evaluation keeps, and the rules by which steps compose.
use krit.Base.{ℕ, ◌+◌, ◌≡◌, refl, sym, ap, ◌∙◌, List, [], ◌++◌, leb, arith, Bool-cases, inl, inr}
use mathlib.Core.List.{append-nil, append_assoc}
use krit.Diagnostic.{Result, Diagnostic}
use krit.Value.{Value}
use krit.Value.Depth.{IsSound}
use krit.Evaluator.Machine.{
  Outside, M, Flow, Exit, Run, ◌>>=◌, continue_with, lift, pure, fail, entered, write_all, returned,
  returned_flow, exit_with,
}

-- What an evaluation answers with: a value that `P` holds of, or a sound value that a call gives up
-- with.
abbrev pub Gives : {A : Type 0} → (A → Type 0) → Flow A → Type 0
Gives P (Flow.value a) = P a
Gives P (Flow.error e) = Unit
Gives P (Flow.exit v x) = IsSound v

abbrev pub Extends : List ℕ → List ℕ → Type 0
Extends before after = (more : List ℕ) × (after ≡ before ++ more)

-- From a state: the depth is as before, the output has only grown, and the answer is as it should be.
abbrev pub Leaves : {A : Type 0} → (A → Type 0) → Run → Flow A × Run → Type 0
Leaves P s (answer, after) =
    (after.depth ≡ s.depth) × Extends s.output after.output × Gives P answer

abbrev pub Good : {A : Type 0} → (A → Type 0) → M A → Type 0
Good P m = (s : Run) → Leaves P s (m s)

Extends-same : (out : List ℕ) → Extends out out
Extends-same out = ([], sym (append-nil out))

Extends-trans : (a b c : List ℕ) → Extends a b → Extends b c → Extends a c
Extends-trans a b c (more, p) (rest, q) =
    (more ++ rest, q ∙ ap (λ x. x ++ rest) p ∙ append_assoc a more rest)

pub pure-Good : {A : Type 0} (P : A → Type 0) (a : A) → P a → Good P (pure a)
pure-Good P a h s = (refl, Extends-same s.output, h)

pub fail-Good : {A : Type 0} (P : A → Type 0) (e : Diagnostic) → Good P (fail e)
fail-Good P e s = (refl, Extends-same s.output, tt)

pub exit_with-Good :
    {A : Type 0} (P : A → Type 0) (v : Value) (x : Exit) → IsSound v → Good P (exit_with v x)
unfolding exit_with
exit_with-Good P v x h s = (refl, Extends-same s.output, h)

pub lift-Good :
    {A : Type 0} (P : A → Type 0) (r : Result A)
    → ((a : A) → r ≡ Result.ok a → P a)
    → Good P (lift r)
lift-Good P (Result.ok a) h = pure-Good P a (h a refl)
lift-Good P (Result.err e) h = fail-Good P e

continue_with-Leaves :
    {A B : Type 0} (P : A → Type 0) (Q : B → Type 0) (s : Run) (first : Flow A × Run) (f : A → M B)
    → Leaves P s first
    → ((a : A) → P a → Good Q (f a))
    → Leaves Q s (continue_with first f)
continue_with-Leaves P Q s (Flow.value a, after) f (deep, grown, h) next =
    let (deep', grown', h') = next a h after in
    (deep' ∙ deep, Extends-trans s.output after.output (f a after).1.output grown grown', h')
continue_with-Leaves P Q s (Flow.error e, after) f (deep, grown, h) next = (deep, grown, tt)
continue_with-Leaves P Q s (Flow.exit v x, after) f (deep, grown, h) next = (deep, grown, h)

pub then-Good :
    {A B : Type 0} (P : A → Type 0) (Q : B → Type 0) (m : M A) (f : A → M B)
    → Good P m
    → ((a : A) → P a → Good Q (f a))
    → Good Q (m >>= f)
then-Good P Q m f h next s = continue_with-Leaves P Q s (m s) f (h s) next

pub entered-Good : {A : Type 0} (P : A → Type 0) (m : M A) → Good P m → Good P (entered m)
unfolding entered
entered-Good P m h s = elim (Bool-cases (leb 100000 s.depth)) [
  | inl full ↦ rw full (refl, Extends-same s.output, tt)
  | inr room ↦
      let (deep, grown, answer) = h (record s { depth = s.depth + 1 }) in
      rw room (omega (arith, deep), grown, answer)
]

pub write_all-Good :
    (outside : Outside) (bytes : List ℕ) → Good (λ _. Unit) (write_all outside bytes)
unfolding write_all
write_all-Good outside bytes s = elim (Bool-cases (outside.writes s.output bytes)) [
  | inl written ↦ rw written (refl, (bytes, refl), tt)
  | inr failed ↦ rw failed (refl, Extends-same s.output, tt)
]

returned_flow-Leaves :
    (s : Run) (first : Flow Value × Run)
    → Leaves IsSound s first
    → Leaves IsSound s (returned_flow first)
returned_flow-Leaves s (Flow.value v, after) h = h
returned_flow-Leaves s (Flow.error e, after) h = h
returned_flow-Leaves s (Flow.exit v x, after) h = h

pub returned-Good : (m : M Value) → Good IsSound m → Good IsSound (returned m)
unfolding returned
returned-Good m h s = returned_flow-Leaves s (m s) (h s)
