-- ===== src/Provium/Frontend/Sound/Arms.antt =====
-- The arms of `Compiler::expr` of provium/src/frontend.rs that need no recursion.
use Prim.Native.String.{String}
use hubby.Prelude.{
  Bool-cases, List, Option, arith, false, inl, inr, leb, not, or_else, refl, some, some_injective,
  ℕ, ◌&&◌, ◌^◌, ◌∙◌, ◌≡◌, ◌≢◌,
}
use hubby.Provium.Base.{or_fail, or_fail-eq-done}
use hubby.Provium.Ir.{Op, Ty, bits, boolean, comparison, ty_of}
use hubby.Provium.Ir.Typing.{OpFits, is_equality, result_of}
use hubby.Provium.Syntax.{
  Attribute, BinOp, Literal, Path_, bool_literal, int_literal, other_literal,
}
use hubby.Provium.Frontend.{Env, intrinsic, lookup, only_docs, operator, single, ty_eq}
use hubby.Provium.Frontend.Translate.{
  Pending, binary_arm, for_booleans, is_logical, is_or, is_shift, left_expected, literal_arm,
  logical_arm, method_arm, operator_arm, right_operand, suffix_type, variable_arm,
}
use hubby.Provium.Frontend.Sound.{
  IsPending, Meets, Meets-check, Meets-give, Meets-if, Meets-refuse, Meets-reject, Meets-then, Out,
  Within, lookup-types, ty_eq_iff,
}
use hubby.Provium.Frontend.Monad.{Cache}

pub variable_arm-Within :
    {I : Cache → Type 0} (w : ℕ) (env : Env) (attrs : List Attribute) (path : Path_)
    → Meets I (Within w env) (variable_arm env attrs path)
unfolding variable_arm
variable_arm-Within w env attrs path = Meets-then (Meets-check (only_docs attrs)) (λ u _.
    Meets-then (Meets-check (or_fail (single path) _)) (λ name _.
      Meets-then (Meets-check (or_fail (lookup env name) _)) (λ p found.
        Meets-give _ (lookup-types env name p.0 p.1 (or_fail-eq-done (lookup env name) _ found)))))

pub literal_arm-Within :
    {I : Cache → Type 0} (w : ℕ) (env : Env) (expected : Option Ty) (l : Literal)
    → Meets I (Within w env) (literal_arm w expected l)
unfolding literal_arm
literal_arm-Within w env expected (bool_literal b) = Meets-give _ refl
literal_arm-Within w env expected (int_literal i) =
    Meets-then (Meets-check (suffix_type i expected)) (λ t _.
      Meets-then (Meets-check (or_fail (bits t w) _)) (λ k found.
        Meets-then (Meets-check (or_fail i.base10 _)) (λ v _.
          Meets-then (Meets-refuse (leb (2 ^ k) v) _)
            (λ u fits. Meets-give _ (or_fail-eq-done (bits t w) _ found, ground (arith, fits))))))
literal_arm-Within w env expected other_literal = Meets-reject _

pub logical_arm-Within :
    {I : Cache → Type 0} (w : ℕ) (env : Env) (op : BinOp) (left right : Pending)
    → IsPending I w env left
    → IsPending I w env right
    → Meets I (Within w env) (logical_arm op left right)
unfolding logical_arm
logical_arm-Within w env op left right p q = Meets-then (p (some boolean)) (λ x l.
    Meets-then (q (some boolean)) (λ y r.
      let l' = l.as_expected boolean refl in
      let r' = r.as_expected boolean refl in
      Meets-give _ (elim (Bool-cases (is_or op)) [
        | inl h ↦ rw h (l', refl, r', l.typed, refl, r.typed)
        | inr h ↦ rw h (l', r', refl, l.typed, r.typed, refl)
      ])))

-- The right operand has the type of the left one.
right_operand-Out :
    {I : Cache → Type 0} (w : ℕ) (env : Env) (op : Op) (right : Pending) (right_hint : Option Ty)
    (t : Ty)
    → IsPending I w env right
    → Meets I (Out w env (some t)) (right_operand op right right_hint t)
unfolding right_operand
right_operand-Out w env op right right_hint t q =
    Meets-if (is_shift op)
      (λ _. Meets-then (q (or_else right_hint (some t))) (λ count o.
        Meets-then (Meets-refuse (not (ty_eq (ty_of count) t)) _) (λ u same.
          let equal = (ty_eq_iff (ty_of count) t).0 (ground (arith, same)) in
          Meets-give count
            (record { typed = o.typed; as_expected = λ v h. equal ∙ some_injective h }))))
      (λ _. q (some t))

for_booleans-OpFits :
    (op : Op) (t : Ty) → (ty_eq t boolean && not (for_booleans op)) ≡ false → OpFits op t
for_booleans-OpFits op t h = elim (Bool-cases (is_equality op)) [
  | inl e ↦ inl e
  | inr e ↦ inr (λ same. ground (arith, h, e, same))
]

pub operator_arm-Within :
    {I : Cache → Type 0} (w : ℕ) (env : Env) (op : Op) (left right : Pending)
    (left_hint right_hint expected : Option Ty)
    → IsPending I w env left
    → IsPending I w env right
    → Meets I (Within w env) (operator_arm op left right left_hint right_hint expected)
unfolding operator_arm
operator_arm-Within w env op left right left_hint right_hint expected p q =
    Meets-then (p (left_expected op left_hint right_hint expected)) (λ x l.
      Meets-then (right_operand-Out w env op right right_hint (ty_of x) q) (λ y r.
        Meets-then (Meets-refuse (ty_eq (ty_of x) boolean && not (for_booleans op)) _) (λ u fits.
          Meets-give _ (
            refl,
            for_booleans-OpFits op (ty_of x) fits,
            r.as_expected (ty_of x) refl,
            l.typed,
            r.typed,
          ))))

pub binary_arm-Within :
    {I : Cache → Type 0} (w : ℕ) (env : Env) (op : BinOp) (left right : Pending)
    (left_hint right_hint expected : Option Ty)
    → IsPending I w env left
    → IsPending I w env right
    → Meets I (Within w env) (binary_arm op left right left_hint right_hint expected)
unfolding binary_arm
binary_arm-Within w env op left right left_hint right_hint expected p q =
    Meets-if (is_logical op) (λ _. logical_arm-Within w env op left right p q)
      (λ _.
        Meets-then (Meets-check (or_fail (operator op) _))
          (λ o _. operator_arm-Within w env o left right left_hint right_hint expected p q))

pub method_arm-Within :
    {I : Cache → Type 0} (w : ℕ) (env : Env) (op : Op) (receiver argument : Pending)
    (expected : Option Ty)
    → comparison op ≡ false
    → IsPending I w env receiver
    → IsPending I w env argument
    → Meets I (Within w env) (method_arm op receiver argument expected)
unfolding method_arm
method_arm-Within w env op receiver argument expected c p q = Meets-then (p expected) (λ x l.
    Meets-then (Meets-refuse (ty_eq (ty_of x) boolean) _) (λ u words.
      Meets-then (q (some (ty_of x))) (λ y r.
        let kind : ty_of x ≡ result_of op (ty_of x) = rw c refl in
        let no : ty_of x ≢ boolean = λ same. ground (arith, words, same) in
        Meets-give _ (kind, inr no, r.as_expected (ty_of x) refl, l.typed, r.typed))))

-- No method is a comparison.
pub intrinsic-comparison :
    (name : String) (op : Op) → intrinsic name ≡ some op → comparison op ≡ false
unfolding intrinsic
intrinsic-comparison name op h = ground (arith, h)
