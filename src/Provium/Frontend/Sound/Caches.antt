-- ===== src/Provium/Frontend/Sound/Caches.antt =====
-- The cache of `Compiler` in provium/src/frontend.rs: what it holds, and what an insertion does to it.
use Prim.Native.String.{String}
use text.Mathlib.TextEquality.{eq_iff}
use text.Mathlib.TextPositions.{eq_refl}
use hubby.Prelude.{
  Bool-cases, List, Option, [], inl, inr, is_some, none, refl, some, some_injective, subst, true, ℕ,
  ◌∷◌, ◌≡◌,
}
use hubby.Provium.Frontend.Monad.{Cache}
use hubby.Provium.Base.{comes_before, done, same_text}
use hubby.Provium.Ir.{Function}
use hubby.Provium.Syntax.{ItemFn}
use hubby.Provium.Frontend.{Env, find_entry, insert_entry, signature}
use hubby.Provium.Frontend.Sound.{IsSound}

-- What a compiled function takes over from the declaration of its name.
pub record Declared (functions : List (String × ItemFn)) (name : String) (f : Function)
    : Type 0 where
  pub named : f.name ≡ name
  pub item : ItemFn
  pub env : Env
  pub listed : find_entry name functions ≡ some item
  pub signed : signature item ≡ done (f.parameters, env, f.result)

abbrev pub AllSound : ℕ → List (String × ItemFn) → Cache → Type 0
AllSound w functions [] = Unit {0}
AllSound w functions ((name, f) ∷ cache) =
    (IsSound w f × Declared functions name f) × AllSound w functions cache

-- The cache holds a function of that name, if one is asked for.
abbrev pub Has : Option String → Cache → Type 0
Has none cache = Unit {0}
Has (some name) cache = is_some (find_entry name cache) ≡ true

abbrev pub Invariant : ℕ → List (String × ItemFn) → Option String → Cache → Type 0
Invariant w functions asked cache = AllSound w functions cache × Has asked cache

pub find_entry-AllSound :
    (w : ℕ) (functions : List (String × ItemFn)) (name : String) (cache : Cache) (f : Function)
    → AllSound w functions cache
    → find_entry name cache ≡ some f
    → IsSound w f × Declared functions name f
unfolding find_entry
find_entry-AllSound w functions name [] f c h = cc (h)
find_entry-AllSound w functions name ((k, g) ∷ cache) f c h = elim (Bool-cases (same_text k name)) [
  | inl hit ↦
      let same : g ≡ f = some_injective (rw hit at h) in
      (
        subst (IsSound w) same c.0.0,
        subst (λ n. Declared functions n f) ((eq_iff k name).0 hit)
            (subst (Declared functions k) same c.0.1),
      )
  | inr miss ↦ find_entry-AllSound w functions name cache f c.1 (rw miss at h)
]

pub insert_entry-AllSound :
    (w : ℕ) (functions : List (String × ItemFn)) (name : String) (f : Function) (cache : Cache)
    → IsSound w f × Declared functions name f
    → AllSound w functions cache
    → AllSound w functions (insert_entry name f cache)
unfolding insert_entry
insert_entry-AllSound w functions name f [] s c = (s, tt)
insert_entry-AllSound w functions name f ((k, g) ∷ cache) s c =
    elim (Bool-cases (same_text k name)) [
      | inl hit ↦ rw hit (s, c.1)
      | inr miss ↦ elim (Bool-cases (comes_before name k)) [
        | inl before ↦ rw (miss, before) (s, c)
        | inr after ↦ rw (miss, after) (c.0, insert_entry-AllSound w functions name f cache s c.1)
      ]
    ]

-- A new entry is found under its name, and hides no other name.
pub find_entry-insert_entry :
    {A : Type 0} (name : String) (a : A) (entries : List (String × A))
    → find_entry name (insert_entry name a entries) ≡ some a
unfolding find_entry insert_entry
find_entry-insert_entry name a [] = rw (eq_refl name) refl
find_entry-insert_entry name a ((k, b) ∷ entries) = elim (Bool-cases (same_text k name)) [
  | inl hit ↦ rw (hit, eq_refl name) refl
  | inr miss ↦ elim (Bool-cases (comes_before name k)) [
    | inl before ↦ rw (miss, before, eq_refl name) refl
    | inr after ↦ rw (miss, after, miss) (find_entry-insert_entry name a entries)
  ]
]

insert_entry-keeps :
    {A : Type 0} (other name : String) (a : A) (entries : List (String × A))
    → is_some (find_entry other entries) ≡ true
    → is_some (find_entry other (insert_entry name a entries)) ≡ true
unfolding find_entry insert_entry
insert_entry-keeps other name a [] h = cc (h)
insert_entry-keeps other name a ((k, b) ∷ entries) h = elim (Bool-cases (same_text k name)) [
  | inl hit ↦ elim (Bool-cases (same_text name other)) [
    | inl here ↦ rw (hit, here) refl
    | inr there ↦
        let same : k ≡ name = (eq_iff k name).0 hit in rw (hit, there) (rw (same, there) at h)
  ]
  | inr miss ↦ elim (Bool-cases (comes_before name k)) [
    | inl before ↦ elim (Bool-cases (same_text name other)) [
      | inl here ↦ rw (miss, before, here) refl
      | inr there ↦ rw (miss, before, there) h
    ]
    | inr after ↦ elim (Bool-cases (same_text k other)) [
      | inl here ↦ rw (miss, after, here) refl
      | inr there ↦
          rw (miss, after, there) (insert_entry-keeps other name a entries (rw there at h))
    ]
  ]
]

pub insert_entry-Has :
    (asked : Option String) (name : String) (f : Function) (cache : Cache)
    → Has asked cache
    → Has asked (insert_entry name f cache)
insert_entry-Has none name f cache h = tt
insert_entry-Has (some other) name f cache h = insert_entry-keeps other name f cache h
