-- ===== src/Provium/Frontend/Monad.antt =====
-- The state of `Compiler` in provium/src/frontend.rs that survives a call: its cache of functions. An
-- error ends the whole compilation.
use Prim.Native.String.{String}
use hubby.Prelude.{Bool, List}
use hubby.Provium.Base.{Attempt, done, failed, stop_if}
use hubby.Provium.Ir.{Function}

-- `BTreeMap<String, Function>`.
abbrev pub Cache : Type 0
Cache = List (String × Function)

abbrev pub Translation : Type 0 → Type 0
Translation A = Cache → Attempt String (A × Cache)

abbrev pub give : {A : Type 0} → A → Translation A
give a cache = done (a, cache)

abbrev pub lift : {A : Type 0} → Attempt String A → Translation A
lift (failed e) cache = failed e
lift (done a) cache = done (a, cache)

infixl 5 ◌>>=◌
abbrev pub ◌>>=◌ : {A B : Type 0} → Translation A → (A → Translation B) → Translation B
(step >>= next) cache = elim (step cache) [ failed e ↦ failed e | done p ↦ next p.0 p.1 ]

infixl 5 ◌>>◌
abbrev pub ◌>>◌ : {B : Type 0} → Translation (Unit {0}) → Translation B → Translation B
step >> next = step >>= λ done_. next

-- `return fail(..)` under a test.
abbrev pub refuse : Bool → String → Translation (Unit {0})
refuse b message = lift (stop_if b message)

abbrev pub reject : {A : Type 0} → String → Translation A
reject message = lift (failed message)
