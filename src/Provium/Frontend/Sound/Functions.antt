-- ===== src/Provium/Frontend/Sound/Functions.antt =====
-- `Compiler::function` of provium/src/frontend.rs keeps a cache of sound functions.
use Prim.Native.String.{String}
use hubby.Prelude.{
  List, Option, Option-cases, [], any, ap, arith, inl, inr, is_some, ltb, map, refl, suc, sym, true,
  zero, ℕ, ◌++◌, ◌∙◌, ◌∷◌, ◌≡◌,
}
use hubby.Provium.Frontend.Monad.{Cache, Translation, lift, refuse, ◌>>=◌}
use hubby.Provium.Base.{
  Attempt, Ensures, Ensures-done, Ensures-if, Ensures-then, done, failed, or_fail, or_fail-eq-done,
  raises, same_text, stop_if, yields,
}
use hubby.Provium.Ir.{Function, Parameter, Ty, size}
use hubby.Provium.Syntax.{FnArg, ItemFn, receiver_arg, typed_arg}
use hubby.Provium.Frontend.{
  Env, find_entry, only_docs, parameters_of, pattern_of, signature, ty_from,
}
use hubby.Provium.Frontend.Compile.{
  compile_each, depth_limit, function, remember, resolve, size_limit, translate_item,
}
use hubby.Provium.Frontend.Sound.{
  Anything, IsSound, Meets, Meets-check, Meets-give, Meets-lift, Meets-refuse, Meets-reject,
  Meets-run, Meets-then, meets, types,
}
use hubby.Provium.Frontend.Sound.Inlining.{types_of}
use hubby.Provium.Frontend.Sound.Walking.{stmts-Out}
use hubby.Provium.Frontend.Sound.Caches.{
  Declared, Invariant, find_entry-AllSound, find_entry-insert_entry, insert_entry-AllSound,
  insert_entry-Has,
}
use hubby.Provium.Frontend.Walk.{Setting, stmts}

Ensures-any : {T : Type 0} (r : Attempt String T) → Ensures (λ t. r ≡ done t) Anything r
Ensures-any (failed e) = raises tt
Ensures-any (done t) = yields refl

map-++ : {A B : Type 0} (f : A → B) (xs ys : List A) → map f (xs ++ ys) ≡ map f xs ++ map f ys
map-++ f [] ys = refl
map-++ f (x ∷ xs) ys = ap (λ zs. f x ∷ zs) (map-++ f xs ys)

-- The bindings of the parameters have their types.
parameters_of-types :
    (ps : List Parameter) (env : Env) (inputs : List FnArg)
    → types env ≡ types_of ps
    → Ensures
        (λ (p : List Parameter × Env). types p.1 ≡ types_of p.0)
        Anything
        (parameters_of ps env inputs)
unfolding parameters_of
parameters_of-types ps env [] h = yields h
parameters_of-types ps env (receiver_arg ∷ inputs) h = raises tt
parameters_of-types ps env (typed_arg attrs pat t ∷ inputs) h =
    Ensures-then (Ensures-any (only_docs attrs)) (λ u _.
      Ensures-then (Ensures-any (pattern_of pat)) (λ p _.
        Ensures-then
          (Ensures-any (stop_if (any (λ q. same_text q.name p.0) ps) "duplicate parameter"))
          (λ v _. Ensures-then (Ensures-any (ty_from t)) (λ declared _.
            parameters_of-types (ps ++ record { name = p.0; ty = declared } ∷ [])
              (env ++ record { name = p.0; ty = declared; mutable = p.1 } ∷ []) inputs
              (map-++ (λ b. b.ty) env (record { name = p.0; ty = declared; mutable = p.1 } ∷ [])
                ∙ ap (λ ts. ts ++ declared ∷ []) h
                ∙ sym (map-++ (λ q. q.ty) ps (record { name = p.0; ty = declared } ∷ [])))))))

signature-types :
    (item : ItemFn)
    → Ensures
        (λ (p : List Parameter × Env × Ty). types p.1 ≡ types_of p.0)
        Anything
        (signature item)
unfolding signature
signature-types item = Ensures-then (parameters_of-types [] [] item.inputs refl) (λ p h.
    Ensures-then (Ensures-any (or_fail item.output _))
      (λ output _. Ensures-then (Ensures-any (ty_from output)) (λ result _. yields h)))

signature-Meets :
    {I : Cache → Type 0} (item : ItemFn)
    → Meets I
        (λ (p : List Parameter × Env × Ty). (signature item ≡ done p) × (types p.1 ≡ types_of p.0))
        (lift (signature item))
signature-Meets item =
    Meets-lift (signature item)
      (λ p h. let known = signature-types item in (h, Ensures-done (rw h at known)))

module _ (w : ℕ) (functions : List (String × ItemFn)) (asked : Option String) where
  remember-Meets :
      (f : Function)
      → IsSound w f
      → Declared functions f.name f
      → Meets (Invariant w functions asked) (IsSound w) (remember f)
  remember-Meets f sound declared = meets (λ cache c. yields (
    sound,
    (
      insert_entry-AllSound w functions f.name f cache (sound, declared) c.0,
      insert_entry-Has asked f.name f cache c.1,
    ),
  ))

  translate_item-Meets :
      (callee : String → Translation Function) (name : String)
      → ((called : String) → Meets (Invariant w functions asked) (IsSound w) (callee called))
      → Meets
          (Invariant w functions asked)
          (IsSound w)
          (translate_item (record { functions = functions; usize_bits = w; callee = callee }) name)
  unfolding translate_item
  translate_item-Meets callee name callee_ok =
      Meets-then (Meets-check (or_fail (find_entry name functions) _)) (λ item listed.
        Meets-then (signature-Meets item) (λ p sig.
          Meets-then (stmts-Out _ callee_ok item.block p.1 p.2 true) (λ body o.
            Meets-then (Meets-refuse (ltb size_limit (size body)) _) (λ u small.
              let f : Function = record {
                name = name;
                parameters = p.0;
                result = p.2;
                body = body;
              } in
              let sound : IsSound w f = record {
                body_typed = rw (← sig.1) o.typed;
                body_ty = o.as_expected p.2 refl;
                body_size = ground (arith, small);
              } in
              let declared : Declared functions name f = record {
                named = refl;
                item = item;
                env = p.1;
                listed = or_fail-eq-done (find_entry name functions) _ listed;
                signed = sig.0;
              } in
              remember-Meets f sound declared))))

  resolve-Meets :
      (active : List String) (name : String) {fresh : Translation Function}
      → Meets (Invariant w functions asked) (IsSound w) fresh
      → Meets (Invariant w functions asked) (IsSound w) (resolve active name fresh)
  unfolding resolve
  resolve-Meets active name {fresh = fresh} p = meets (λ cache c.
      elim (Option-cases (find_entry name cache)) [
        | inr (f, found) ↦
            rw (found, resolve)
              (yields ((find_entry-AllSound w functions name cache f c.0 found).0, c))
        | inl absent ↦
            rw (absent, resolve)
              (Ensures-if (any (λ n. same_text n name) active) (λ _. raises tt)
                (λ _. Meets-run p cache c))
      ])

  pub function-Meets :
      (room : ℕ) (active : List String) (name : String)
      → Meets (Invariant w functions asked) (IsSound w) (function functions w room active name)
  unfolding function
  function-Meets zero active name = resolve-Meets active name (Meets-reject _)
  function-Meets (suc room) active name =
      resolve-Meets active name
        (translate_item-Meets _ name (λ called. function-Meets room (name ∷ active) called))

  pub compile_each-Meets :
      (others : List (String × ItemFn))
      → Meets (Invariant w functions asked) (λ u. Unit {0}) (compile_each functions w others)
  unfolding compile_each
  compile_each-Meets [] = Meets-give tt tt
  compile_each-Meets ((name, item) ∷ others) =
      Meets-then (function-Meets depth_limit [] name) (λ f s. compile_each-Meets others)

-- Every result of a translation leaves an entry of that name in the cache.
pub data Leaves (name : String) {A : Type 0} (m : Translation A) : Type 0 where
  leaves :
      ((cache : Cache)
        → Ensures (λ (p : A × Cache). is_some (find_entry name p.1) ≡ true) Anything (m cache))
      → Leaves name m

pub Leaves-run :
    {name : String} {A : Type 0} {m : Translation A}
    → Leaves name m
    → (cache : Cache)
    → Ensures (λ (p : A × Cache). is_some (find_entry name p.1) ≡ true) Anything (m cache)
Leaves-run (leaves h) = h

module _ {name : String} {A B : Type 0} where
  onward :
      {next : A → Translation B} (r : Attempt String (A × Cache))
      → ((a : A) → Leaves name (next a))
      → Ensures
          (λ (p : B × Cache). is_some (find_entry name p.1) ≡ true)
          Anything
          (elim r as (λ _. Attempt String (B × Cache)) [
            | failed e ↦ failed e
            | done p ↦ next p.0 p.1
          ])
  onward (failed e) k = raises tt
  onward (done q) k = elim (k q.0) [ leaves h ↦ h q.1 ]

  Leaves-then :
      (m : Translation A) {next : A → Translation B}
      → ((a : A) → Leaves name (next a))
      → Leaves name (m >>= next)
  Leaves-then m k = leaves (λ cache. onward (m cache) k)

translate_item-Leaves : (s : Setting) (name : String) → Leaves name (translate_item s name)
unfolding translate_item
translate_item-Leaves s name = Leaves-then (lift (or_fail (find_entry name s.functions) _)) (λ item.
    Leaves-then (lift (signature item)) (λ p. Leaves-then (stmts s item.block p.1 p.2 true) (λ body.
      Leaves-then (refuse (ltb size_limit (size body)) _)
        (λ u. leaves (λ cache. yields (ap is_some (find_entry-insert_entry name _ cache)))))))

resolve-Leaves :
    (active : List String) (name : String) {fresh : Translation Function}
    → Leaves name fresh
    → Leaves name (resolve active name fresh)
unfolding resolve
resolve-Leaves active name {fresh = fresh} (leaves p) = leaves (λ cache.
    elim (Option-cases (find_entry name cache)) [
      | inr (f, found) ↦ rw (found, resolve) (yields (ap is_some found))
      | inl absent ↦
          rw (absent, resolve)
            (Ensures-if (any (λ n. same_text n name) active) (λ _. raises tt) (λ _. p cache))
    ])

pub function-Leaves :
    (functions : List (String × ItemFn)) (w room : ℕ) (active : List String) (name : String)
    → Leaves name (function functions w room active name)
unfolding function
function-Leaves functions w zero active name =
    resolve-Leaves active name (leaves (λ cache. raises tt))
function-Leaves functions w (suc room) active name =
    resolve-Leaves active name (translate_item-Leaves _ name)
