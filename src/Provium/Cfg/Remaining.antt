-- ===== src/Provium/Cfg/Remaining.antt =====
-- What `Configuration::attributes` of provium/src/cfg.rs lets through.
use Prim.Native.String.{String}
use hubby.Prelude.{
  Bool-cases, List, [], false, if◌then◌else◌, inl, inr, ltb, subst, suc, true, ℕ, ◌++◌, ◌∷◌, ◌≡◌,
  ◌⊎◌,
}
use hubby.Provium.Base.{Attempt, done, done_injective, ◌>>=◌}
use hubby.Provium.Cfg.{
  Args, Configuration, Meta, Metas, and_meta, args_of, bad_args, cfg_limit, evaluate_cfg, expand,
  expand_all, expand_args, expand_each, is_named, list_meta, name_value, no_metas, path_meta,
  predicate_of,
}
use hubby.Provium.Cfg.Meaning.{Means, stop_if-eq-done, then-eq-done}

abbrev pub Each : (Meta → Type 0) → List Meta → Type 0
Each P [] = Unit {0}
Each P (m ∷ ms) = P m × Each P ms

Each-++ : (P : Meta → Type 0) (xs ys : List Meta) → Each P xs → Each P ys → Each P (xs ++ ys)
Each-++ P [] ys f g = g
Each-++ P (x ∷ xs) ys f g = (f.0, Each-++ P xs ys f.1 g)

abbrev pub IsPlain : Meta → Type 0
IsPlain m = is_named "cfg_attr" m ≡ false

-- It is no `cfg` attribute, or its predicate is true.
abbrev pub Holds : Configuration → Meta → Type 0
Holds c m = (is_named "cfg" m ≡ false) ⊎ ((p : Meta) × (predicate_of m ≡ done p) × Means c p true)

-- The attributes other than `cfg`, in their order.
abbrev pub others : List Meta → List Meta
others [] = []
others (m ∷ ms) = if is_named "cfg" m then others ms else m ∷ others ms

-- What a declaration with these attributes keeps.
pub record Selected (c : Configuration) (attrs rest : List Meta) : Type 0 where
  pub expanded : List Meta
  pub expands : expand_all c attrs ≡ done expanded
  pub plain : Each IsPlain expanded
  pub holds : Each (Holds c) expanded
  pub kept : rest ≡ others expanded

unless_attr :
    (m : Meta) (inner : Attempt String (List Meta)) (out : List Meta)
    → ((ms : List Meta) → inner ≡ done ms → Each IsPlain ms)
    → (if is_named "cfg_attr" m then inner else done (m ∷ [])) ≡ done out
    → Each IsPlain out
unless_attr m inner out k h = elim (Bool-cases (is_named "cfg_attr" m)) [
  | inl hit ↦ k out (rw hit at h)
  | inr miss ↦ subst (Each IsPlain) (done_injective (rw miss at h)) (miss, tt)
]

module _ (c : Configuration) where
  mutual
    unfolding expand

    expand-plain :
        (m : Meta) (depth : ℕ) (out : List Meta) → expand c m depth ≡ done out → Each IsPlain out
    expand-plain (path_meta p) depth out h =
        unless_attr (path_meta p) _ out (λ ms bad. cc (bad))
          (stop_if-eq-done (ltb cfg_limit depth) _ _ h).1
    expand-plain (name_value p w) depth out h =
        unless_attr (name_value p w) _ out (λ ms bad. cc (bad))
          (stop_if-eq-done (ltb cfg_limit depth) _ _ h).1
    expand-plain (list_meta p args sole) depth out h =
        unless_attr (list_meta p args sole) _ out
          (λ ms inner. expand_args-plain args (suc depth) ms inner)
          (stop_if-eq-done (ltb cfg_limit depth) _ _ h).1

    expand_args-plain :
        (args : Args) (depth : ℕ) (out : List Meta)
        → expand_args c args depth ≡ done out
        → Each IsPlain out
    expand_args-plain bad_args depth out h = cc (h)
    expand_args-plain (args_of no_metas) depth out h = cc (h)
    expand_args-plain (args_of (and_meta condition ms)) depth out h =
        let (selected, _, h1) =
          then-eq-done (evaluate_cfg c condition)
            (λ s. if s then expand_each c ms depth else done []) h in
        elim (Bool-cases selected) [
          | inl chosen ↦ expand_each-plain ms depth out (rw chosen at h1)
          | inr skipped ↦ subst (Each IsPlain) (done_injective (rw skipped at h1)) tt
        ]

    expand_each-plain :
        (ms : Metas) (depth : ℕ) (out : List Meta)
        → expand_each c ms depth ≡ done out
        → Each IsPlain out
    expand_each-plain no_metas depth out h = subst (Each IsPlain) (done_injective h) tt
    expand_each-plain (and_meta m ms) depth out h =
        let (first, h1, h2) =
          then-eq-done (expand c m depth) (λ f. expand_each c ms depth >>= λ r. done (f ++ r)) h in
        let (rest, h3, h4) = then-eq-done (expand_each c ms depth) (λ r. done (first ++ r)) h2 in
        subst (Each IsPlain) (done_injective h4) (
          Each-++ IsPlain first rest (expand-plain m depth first h1)
            (expand_each-plain ms depth rest h3))
