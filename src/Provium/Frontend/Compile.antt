-- ===== src/Provium/Frontend/Compile.antt =====
-- provium/src/frontend.rs: `Compiler::function` and `Compiler::compile`.
use Prim.Native.String.{String}
use hubby.Prelude.{List, [], any, if◌then◌else◌, ltb, map, none, some, suc, true, zero, ℕ, ◌∷◌}
use hubby.Provium.Frontend.Monad.{Translation, give, lift, refuse, reject, ◌>>=◌, ◌>>◌}
use hubby.Provium.Base.{Attempt, done, failed, or_fail, same_text}
use hubby.Provium.Ir.{Function, size}
use hubby.Provium.Syntax.{ItemFn}
use hubby.Provium.Frontend.{find_entry, insert_entry, signature}
use hubby.Provium.Frontend.Walk.{Setting, stmts}

abbrev pub size_limit : ℕ
size_limit = 100000

-- The depth of the stack `active`.
abbrev pub depth_limit : ℕ
depth_limit = 32

-- The record that `function` builds, and its entry in the cache.
abbrev pub remember : Function → Translation Function
remember f cache = done (f, insert_entry f.name f cache)

-- `function` once the name is on the stack.
unfoldable pub translate_item : Setting → String → Translation Function
unfolding find_entry insert_entry signature stmts size
translate_item s name = do
  item ← lift (or_fail (find_entry name s.functions) "unresolved function")
  (parameters, env, result) ← lift (signature item)
  body ← stmts s item.block env result true
  refuse (ltb size_limit (size body)) "expanded program exceeds 100,000 IR nodes"
  remember (record { name = name; parameters = parameters; result = result; body = body })

-- The cache, and the check of the stack for a cycle.
unfoldable pub resolve : List String → String → Translation Function → Translation Function
unfolding find_entry
resolve active name fresh cache = elim (find_entry name cache) [
  | some f ↦ done (f, cache)
  | none ↦
      if any (λ n. same_text n name) active
      then failed "recursive call cycle is unsupported"
      else fresh cache
]

-- `room` is what the stack `active` leaves of its limit.
unfoldable pub function :
    List (String × ItemFn) → ℕ → (room : ℕ) → (active : List String) → String → Translation Function
unfolding translate_item resolve
function functions w zero active name =
    resolve active name (reject "call expansion exceeds 32 functions")
function functions w (suc room) active name = resolve active name (
    translate_item
      (record {
        functions = functions;
        usize_bits = w;
        callee = function functions w room (name ∷ active);
      })
      name)

-- The loop of `compile` over the names.
unfoldable pub compile_each :
    List (String × ItemFn) → ℕ → List (String × ItemFn) → Translation (Unit {0})
unfolding function
compile_each functions w [] = give tt
compile_each functions w ((name, item) ∷ others) =
    function functions w depth_limit [] name >>= λ f. compile_each functions w others

-- `compile`: the functions of the cache, in the order of their names.
unfoldable pub compile : List (String × ItemFn) → ℕ → Attempt String (List Function)
unfolding compile_each
compile functions w = elim (compile_each functions w functions []) [
  | failed e ↦ failed e
  | done p ↦ done (map (λ (name, f). f) p.1)
]
