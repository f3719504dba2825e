-- ===== src/Provium/Ir.antt =====
-- provium/src/ir.rs: the intermediate language, with its types, faults and evaluator.
pub mod Typing
pub mod Renaming
use Prim.Native.Nat
use Prim.Native.String.{String}
use hubby.Prelude.{
  Bool, List, Option, [], false, get_elem?, if◌then◌else◌, is_some, is_some_and, leb, length, ltb,
  none, not, some, suc, true, ℕ, ◌%◌, ◌&&◌, ◌*◌, ◌+◌, ◌-◌, ◌/◌, ◌==◌, ◌^◌, ◌||◌, ◌∷◌,
}
use hubby.Provium.Base.{Attempt, done, failed, or_fail, stop_if, ◌>>=◌, ◌>>◌}

pub data Ty : Type 0 where
  boolean u8 u16 u32 u64 usize : Ty

-- `Ty::bits`, for a width of `usize`.
abbrev pub bits : Ty → ℕ → Option ℕ
bits boolean w = none
bits u8 w = some 8
bits u16 w = some 16
bits u32 w = some 32
bits u64 w = some 64
bits usize w = some w

pub data Op : Type 0 where
  add sub mul div rem eq ne lt le gt ge op_min op_max : Op
  op_saturating_add op_saturating_sub op_wrapping_add op_wrapping_sub op_wrapping_mul : Op
  bit_and bit_or bit_xor shl shr : Op

-- `Op::comparison`.
abbrev pub comparison : Op → Bool
comparison eq = true
comparison ne = true
comparison lt = true
comparison le = true
comparison gt = true
comparison ge = true
comparison _ = false

-- `Expr` with its `Kind`: each constructor is a kind, with the type of the expression first.
pub data Expr : Type 0 where
  boolean_of : Ty → Bool → Expr
  uint_of : Ty → (width value : ℕ) → Expr
  variable : Ty → ℕ → Expr
  negate : Ty → Expr → Expr
  binary_of : Ty → Op → (left right : Expr) → Expr
  if_else : Ty → (condition yes_ no_ : Expr) → Expr
  let_in : Ty → (value body : Expr) → Expr
  assert_that : Ty → (condition body : Expr) → Expr

-- The field `ty`.
abbrev pub ty_of : Expr → Ty
ty_of (boolean_of t b) = t
ty_of (uint_of t k v) = t
ty_of (variable t i) = t
ty_of (negate t x) = t
ty_of (binary_of t op l r) = t
ty_of (if_else t c y n) = t
ty_of (let_in t v b) = t
ty_of (assert_that t c b) = t

-- `Expr::size`.
unfoldable pub size : Expr → ℕ
size (negate t x) = suc (size x)
size (binary_of t op l r) = suc (size l + size r)
size (if_else t c y n) = suc (size c + size y + size n)
size (let_in t v b) = suc (size v + size b)
size (assert_that t c b) = suc (size c + size b)
size (boolean_of t b) = 1
size (uint_of t k v) = 1
size (variable t i) = 1

-- `Expr::map_free`.
unfoldable pub map_free : Expr → ℕ → (ℕ → ℕ) → Expr
map_free (variable t i) depth f = variable t (if leb depth i then f (i - depth) + depth else i)
map_free (negate t x) depth f = negate t (map_free x depth f)
map_free (binary_of t op l r) depth f = binary_of t op (map_free l depth f) (map_free r depth f)
map_free (if_else t c y n) depth f =
    if_else t (map_free c depth f) (map_free y depth f) (map_free n depth f)
map_free (let_in t v b) depth f = let_in t (map_free v depth f) (map_free b (suc depth) f)
map_free (assert_that t c b) depth f = assert_that t (map_free c depth f) (map_free b depth f)
map_free (boolean_of t b) depth f = boolean_of t b
map_free (uint_of t k v) depth f = uint_of t k v

pub record Parameter : Type 0 where
  pub name : String
  pub ty : Ty

-- `Function`, without the positions and the text that are only reported.
pub record Function : Type 0 where
  pub name : String
  pub parameters : List Parameter
  pub result : Ty
  pub body : Expr

pub data Value : Type 0 where
  truth : Bool → Value
  uint : (width value : ℕ) → Value

pub data Fault : Type 0 where
  type overflow division_by_zero assertion input : Fault

abbrev pub Outcome : Type 0
Outcome = Attempt Fault Value

abbrev pub supported : ℕ → Bool
supported k = k == 8 || k == 16 || k == 32 || k == 64

unfoldable pub word : ℕ → ℕ → Outcome
word k v =
    if not (supported k)
    then failed type
    else if leb (2 ^ k) v
    then failed overflow
    else done (uint k v)

abbrev pub truth_eq : Bool → Bool → Bool
truth_eq true b = b
truth_eq false b = not b

-- `match op` on two Booleans.
abbrev pub on_booleans : Op → Bool → Bool → Outcome
on_booleans eq a b = done (truth (truth_eq a b))
on_booleans ne a b = done (truth (not (truth_eq a b)))
on_booleans _ a b = failed type

-- `match op` on two words of one width. The source computes in 128 bits, which no result exceeds.
unfoldable pub on_words : Op → ℕ → ℕ → ℕ → Outcome
unfolding word
on_words eq k a b = done (truth (a == b))
on_words ne k a b = done (truth (not (a == b)))
on_words lt k a b = done (truth (ltb a b))
on_words le k a b = done (truth (leb a b))
on_words gt k a b = done (truth (ltb b a))
on_words ge k a b = done (truth (leb b a))
on_words add k a b = word k (a + b)
on_words mul k a b = word k (a * b)
on_words sub k a b = if ltb a b then failed overflow else word k (a - b)
on_words div k a b = if b == 0 then failed division_by_zero else word k (a / b)
on_words rem k a b = if b == 0 then failed division_by_zero else word k (a % b)
on_words op_min k a b = word k (Nat.min a b)
on_words op_max k a b = word k (Nat.max a b)
on_words op_saturating_add k a b = word k (Nat.min (a + b) (2 ^ k - 1))
on_words op_saturating_sub k a b = word k (a - b)
on_words op_wrapping_add k a b = word k ((a + b) % 2 ^ k)
on_words op_wrapping_sub k a b = word k ((a + 2 ^ k - b) % 2 ^ k)
on_words op_wrapping_mul k a b = word k ((a * b) % 2 ^ k)
on_words bit_and k a b = word k (Nat.bit_and a b)
on_words bit_or k a b = word k (Nat.bit_or a b)
on_words bit_xor k a b = word k (Nat.bit_xor a b)
on_words shl k a b = if leb k b then failed overflow else word k ((a * 2 ^ b) % 2 ^ k)
on_words shr k a b = if leb k b then failed overflow else word k (a / 2 ^ b)

unfoldable pub binary : Op → Value → Value → Outcome
unfolding on_words
binary op (truth a) (truth b) = on_booleans op a b
binary op (uint k a) (uint other b) =
    stop_if (not (k == other)) type >> (word k a >>= λ x. word k b >>= λ y. on_words op k a b)
binary op (truth a) (uint k b) = failed type
binary op (uint k a) (truth b) = failed type

-- `Value::Bool(!b)`, or a fault.
abbrev pub complement : Value → Outcome
complement (truth b) = done (truth (not b))
complement (uint k v) = failed type

unfoldable pub evaluate : Expr → List Value → Outcome
unfolding binary
evaluate (boolean_of t b) env = done (truth b)
evaluate (uint_of t k v) env = word k v
evaluate (variable t i) env = or_fail (get_elem? env i) input
evaluate (negate t x) env = evaluate x env >>= complement
evaluate (binary_of t op l r) env = do a ← evaluate l env; b ← evaluate r env; binary op a b
evaluate (if_else t c y n) env =
    evaluate c env
    >>= elim [ truth true ↦ evaluate y env | truth false ↦ evaluate n env | uint k v ↦ failed type ]
evaluate (let_in t v b) env = do x ← evaluate v env; evaluate b (x ∷ env)
evaluate (assert_that t c b) env = evaluate c env >>= elim [
  | truth true ↦ evaluate b env
  | truth false ↦ failed assertion
  | uint k v ↦ failed type
]

-- The test of `run` on one argument.
abbrev pub accepts : ℕ → Ty → Value → Bool
accepts w t (truth b) = not (is_some (bits t w))
accepts w t (uint k v) = is_some_and (bits t w) (λ i. i == k && ltb v (2 ^ i))

-- The loop of `run` over parameters and arguments, which stops at the shorter list.
abbrev pub all_accepted : ℕ → List Parameter → List Value → Bool
all_accepted w (p ∷ ps) (v ∷ vs) = accepts w p.ty v && all_accepted w ps vs
all_accepted w [] vs = true
all_accepted w (p ∷ ps) [] = true

unfoldable pub run : Function → List Value → ℕ → Outcome
unfolding evaluate
run function arguments w = do
  stop_if (not (length function.parameters == length arguments)) input
  stop_if (not (all_accepted w function.parameters arguments)) input
  evaluate function.body arguments
