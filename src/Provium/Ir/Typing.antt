-- ===== src/Provium/Ir/Typing.antt =====
-- Well-typed expressions of provium/src/ir.rs run without type faults.
use hubby.Prelude.{
  Bool, List, [], arith, false, get_elem?, if◌then◌else◌, inl, inr, leb, ltb, not, refl, some,
  some_injective, subst, suc, sym, true, zero, ℕ, ◌%◌, ◌*◌, ◌-◌, ◌/◌, ◌<◌, ◌==◌, ◌^◌, ◌∙◌, ◌∷◌, ◌≡◌,
  ◌≢◌, ◌⊎◌,
}
use hubby.Provium.Base.{Ensures, Ensures-if, Ensures-then, done, failed, raises, yields}
use hubby.Provium.Ir.{
  Expr, Fault, Op, Outcome, Ty, Value, add, assert_that, assertion, binary, binary_of, bit_and,
  bit_or, bit_xor, bits, boolean, boolean_of, comparison, complement, div, division_by_zero, eq,
  evaluate, ge, gt, if_else, input, le, let_in, lt, mul, ne, negate, on_booleans, on_words, op_max,
  op_min, op_saturating_add, op_saturating_sub, op_wrapping_add, op_wrapping_mul, op_wrapping_sub,
  overflow, rem, shl, shr, sub, supported, truth, ty_of, type, u16, u32, u64, u8, uint, uint_of,
  usize, variable, word,
}

-- The widths of `usize` that the front end accepts.
abbrev pub IsWidth : ℕ → Type 0
IsWidth w = (w ≡ 32) ⊎ (w ≡ 64)

-- A value of a type.
abbrev pub Fits : ℕ → Ty → Value → Type 0
Fits w t (truth b) = t ≡ boolean
Fits w t (uint k v) = (bits t w ≡ some k) × (v < 2 ^ k)

-- An environment of values for a context of types.
abbrev pub AllFit : ℕ → List Ty → List Value → Type 0
AllFit w [] [] = Unit {0}
AllFit w (t ∷ ts) (v ∷ vs) = Fits w t v × AllFit w ts vs
AllFit w [] (v ∷ vs) = ⊥
AllFit w (t ∷ ts) [] = ⊥

-- Operators that Booleans have too.
abbrev pub is_equality : Op → Bool
is_equality eq = true
is_equality ne = true
is_equality _ = false

-- The type of `left op right` where both sides have type `t`.
abbrev pub result_of : Op → Ty → Ty
result_of op t = if comparison op then boolean else t

abbrev pub OpFits : Op → Ty → Type 0
OpFits op t = (is_equality op ≡ true) ⊎ (t ≢ boolean)

-- The typing rules, for the declared type of each part.
abbrev pub Typed : ℕ → List Ty → Expr → Type 0
Typed w ctx (boolean_of t b) = t ≡ boolean
Typed w ctx (uint_of t k v) = (bits t w ≡ some k) × (v < 2 ^ k)
Typed w ctx (variable t i) = get_elem? ctx i ≡ some t
Typed w ctx (negate t x) = (t ≡ boolean) × (ty_of x ≡ boolean) × Typed w ctx x
Typed w ctx (binary_of t op l r) =
    (t ≡ result_of op (ty_of l))
    × OpFits op (ty_of l)
    × (ty_of r ≡ ty_of l)
    × Typed w ctx l
    × Typed w ctx r
Typed w ctx (if_else t c y n) =
    (ty_of c ≡ boolean)
    × (ty_of y ≡ t)
    × (ty_of n ≡ t)
    × Typed w ctx c
    × Typed w ctx y
    × Typed w ctx n
Typed w ctx (let_in t v b) = (ty_of b ≡ t) × Typed w ctx v × Typed w (ty_of v ∷ ctx) b
Typed w ctx (assert_that t c b) =
    (ty_of c ≡ boolean) × (ty_of b ≡ t) × Typed w ctx c × Typed w ctx b

-- The faults that a well-typed program may end with.
abbrev pub Benign : Fault → Type 0
Benign overflow = Unit {0}
Benign division_by_zero = Unit {0}
Benign assertion = Unit {0}
Benign type = ⊥
Benign input = ⊥

-- A value of the type, or a benign fault.
abbrev pub Runs : ℕ → Ty → Outcome → Type 0
Runs w t = Ensures (Fits w t) Benign

bits-supported : (w : ℕ) (t : Ty) {k : ℕ} → IsWidth w → bits t w ≡ some k → supported k ≡ true
bits-supported w boolean h e = cc (e)
bits-supported w u8 h e = rw (← some_injective e) refl
bits-supported w u16 h e = rw (← some_injective e) refl
bits-supported w u32 h e = rw (← some_injective e) refl
bits-supported w u64 h e = rw (← some_injective e) refl
bits-supported w usize (inl h) e = rw (← some_injective e, h) refl
bits-supported w usize (inr h) e = rw (← some_injective e, h) refl

-- `word` gives a value of the type, or an overflow.
word-Runs : (w : ℕ) (t : Ty) (k v : ℕ) → IsWidth w → bits t w ≡ some k → Runs w t (word k v)
unfolding word
word-Runs w t k v h e =
    rw (bits-supported w t h e)
      (Ensures-if (leb (2 ^ k) v) (λ _. raises tt) (λ fits. yields (e, ground (arith, fits))))

word_in_range :
    (w : ℕ) (t : Ty) (k v : ℕ)
    → IsWidth w
    → bits t w ≡ some k
    → v < 2 ^ k
    → word k v ≡ done (uint k v)
unfolding word
word_in_range w t k v h e below =
    let small : leb (2 ^ k) v ≡ false = ground (arith, below) in
    rw (bits-supported w t h e, small) refl

bits-boolean : (w : ℕ) (t : Ty) {k : ℕ} → bits t w ≡ some k → t ≢ boolean
bits-boolean w t e same = let e' = rw same at e in cc (e')

-- On two words of one type.
on_words-Runs :
    (w : ℕ) (t : Ty) (op : Op) (k a b : ℕ)
    → IsWidth w
    → bits t w ≡ some k
    → Runs w (result_of op t) (on_words op k a b)
unfolding on_words
on_words-Runs w t eq k a b h e = yields refl
on_words-Runs w t ne k a b h e = yields refl
on_words-Runs w t lt k a b h e = yields refl
on_words-Runs w t le k a b h e = yields refl
on_words-Runs w t gt k a b h e = yields refl
on_words-Runs w t ge k a b h e = yields refl
on_words-Runs w t sub k a b h e =
    Ensures-if (ltb a b) (λ _. raises tt) (λ _. word-Runs w t k (a - b) h e)
on_words-Runs w t div k a b h e =
    Ensures-if (b == 0) (λ _. raises tt) (λ _. word-Runs w t k (a / b) h e)
on_words-Runs w t rem k a b h e =
    Ensures-if (b == 0) (λ _. raises tt) (λ _. word-Runs w t k (a % b) h e)
on_words-Runs w t shl k a b h e =
    Ensures-if (leb k b) (λ _. raises tt) (λ _. word-Runs w t k ((a * 2 ^ b) % 2 ^ k) h e)
on_words-Runs w t shr k a b h e =
    Ensures-if (leb k b) (λ _. raises tt) (λ _. word-Runs w t k (a / 2 ^ b) h e)
on_words-Runs w t add k a b h e = word-Runs w t k _ h e
on_words-Runs w t mul k a b h e = word-Runs w t k _ h e
on_words-Runs w t op_min k a b h e = word-Runs w t k _ h e
on_words-Runs w t op_max k a b h e = word-Runs w t k _ h e
on_words-Runs w t op_saturating_add k a b h e = word-Runs w t k _ h e
on_words-Runs w t op_saturating_sub k a b h e = word-Runs w t k _ h e
on_words-Runs w t op_wrapping_add k a b h e = word-Runs w t k _ h e
on_words-Runs w t op_wrapping_sub k a b h e = word-Runs w t k _ h e
on_words-Runs w t op_wrapping_mul k a b h e = word-Runs w t k _ h e
on_words-Runs w t bit_and k a b h e = word-Runs w t k _ h e
on_words-Runs w t bit_or k a b h e = word-Runs w t k _ h e
on_words-Runs w t bit_xor k a b h e = word-Runs w t k _ h e

-- On two Booleans, for the operators that they have.
on_booleans-Runs :
    (w : ℕ) (op : Op) (a b : Bool) → is_equality op ≡ true → Runs w boolean (on_booleans op a b)
on_booleans-Runs w eq a b h = yields refl
on_booleans-Runs w ne a b h = yields refl
on_booleans-Runs w _ a b h = absurd (ground (arith, h))

is_equality-comparison : (op : Op) → is_equality op ≡ true → comparison op ≡ true
is_equality-comparison op h = ground (arith, h)

binary-Runs :
    (w : ℕ) (t : Ty) (op : Op) (x y : Value)
    → IsWidth w
    → OpFits op t
    → Fits w t x
    → Fits w t y
    → Runs w (result_of op t) (binary op x y)
unfolding binary
binary-Runs w t op (truth a) (truth b) h (inl q) fx fy =
    rw (is_equality-comparison op q) (on_booleans-Runs w op a b q)
binary-Runs w t op (truth a) (truth b) h (inr q) fx fy = absurd (q fx)
binary-Runs w t op (truth a) (uint k b) h o fx fy = absurd (bits-boolean w t fy.0 fx)
binary-Runs w t op (uint k a) (truth b) h o fx fy = absurd (bits-boolean w t fx.0 fy)
binary-Runs w t op (uint k a) (uint j b) h o fx fy =
    let same : k ≡ j = some_injective (sym fx.0 ∙ fy.0) in
    let matched : not (k == j) ≡ false = ground (arith, same) in
    let second : word k b ≡ done (uint k b) = word_in_range w t k b h fx.0 (rw same fy.1) in
    rw (matched, word_in_range w t k a h fx.0 fx.1, second) (on_words-Runs w t op k a b h fx.0)

-- Looking up a variable of the context.
lookup-Fits :
    (w : ℕ) (ctx : List Ty) (env : List Value) (i : ℕ) (t : Ty)
    → AllFit w ctx env
    → get_elem? ctx i ≡ some t
    → (v : Value) × (get_elem? env i ≡ some v) × Fits w t v
lookup-Fits w [] env i t f h = cc (h)
lookup-Fits w (u ∷ ctx) [] i t f h = absurd f
lookup-Fits w (u ∷ ctx) (v ∷ env) zero t f h =
    (v, refl, subst (λ x. Fits w x v) (some_injective h) f.0)
lookup-Fits w (u ∷ ctx) (v ∷ env) (suc i) t f h = lookup-Fits w ctx env i t f.1 h

complement-Runs : (w : ℕ) (v : Value) → Fits w boolean v → Runs w boolean (complement v)
complement-Runs w (truth b) f = yields refl
complement-Runs w (uint k v) f = absurd (bits-boolean w boolean f.0 refl)

-- A branch on a Boolean.
choice-Runs :
    (w : ℕ) (t : Ty) (yes_ no_ : Outcome) (v : Value)
    → Fits w boolean v
    → Runs w t yes_
    → Runs w t no_
    → Runs w t (elim v [ truth true ↦ yes_ | truth false ↦ no_ | uint k x ↦ failed type ])
choice-Runs w t y n (truth true) f p q = p
choice-Runs w t y n (truth false) f p q = q
choice-Runs w t y n (uint k x) f p q = absurd (bits-boolean w boolean f.0 refl)

-- In an environment that fits its context, a well-typed expression gives a value of its type, or ends
-- with an overflow, a division by zero or a failed assertion: never with a fault of types or inputs.
pub evaluate-Runs :
    (w : ℕ) (e : Expr) (ctx : List Ty) (env : List Value)
    → IsWidth w
    → Typed w ctx e
    → AllFit w ctx env
    → Runs w (ty_of e) (evaluate e env)
unfolding evaluate
evaluate-Runs w (boolean_of t b) ctx env h d f = yields d
evaluate-Runs w (uint_of t k v) ctx env h d f = word-Runs w t k v h d.0
evaluate-Runs w (variable t i) ctx env h d f =
    let (v, found, fits) = lookup-Fits w ctx env i t f d in rw found (yields fits)
evaluate-Runs w (negate t x) ctx env h d f =
    Ensures-then (evaluate-Runs w x ctx env h d.2 f)
      (λ v p. rw (d.0) (complement-Runs w v (rw (d.1) at p)))
evaluate-Runs w (binary_of t op l r) ctx env h d f =
    Ensures-then (evaluate-Runs w l ctx env h d.3 f) (λ a p.
      Ensures-then (evaluate-Runs w r ctx env h d.4 f)
        (λ b q. rw (d.0) (binary-Runs w (ty_of l) op a b h d.1 p (rw (d.2) at q))))
evaluate-Runs w (if_else t c y n) ctx env h d f =
    Ensures-then (evaluate-Runs w c ctx env h d.3 f) (λ v p.
      choice-Runs w t (evaluate y env) (evaluate n env) v (rw (d.0) at p)
        (rw (← d.1) (evaluate-Runs w y ctx env h d.4 f))
        (rw (← d.2) (evaluate-Runs w n ctx env h d.5 f)))
evaluate-Runs w (let_in t v b) ctx env h d f =
    Ensures-then (evaluate-Runs w v ctx env h d.1 f)
      (λ x p. rw (← d.0) (evaluate-Runs w b (ty_of v ∷ ctx) (x ∷ env) h d.2 (p, f)))
evaluate-Runs w (assert_that t c b) ctx env h d f =
    Ensures-then (evaluate-Runs w c ctx env h d.2 f) (λ v p.
      choice-Runs w t (evaluate b env) (failed assertion) v (rw (d.0) at p)
        (rw (← d.1) (evaluate-Runs w b ctx env h d.3 f)) (raises tt))
