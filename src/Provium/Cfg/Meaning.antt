-- ===== src/Provium/Cfg/Meaning.antt =====
-- The meaning of the predicates that provium/src/cfg.rs evaluates.
use Prim.Native.String.{String}
use text.Mathlib.TextEquality.{eq_iff}
use hubby.Prelude.{
  Bool, Bool-cases, List, Option-cases, [], all, any, ap, arith, false, inl, inr, ltb, not, refl,
  some, some_injective, suc, sym, true, ℕ, ◌↔◌, ◌∙◌, ◌∷◌, ◌≡◌, ◌≤◌, ◌⊎◌,
}
use hubby.Provium.Cfg.{
  Args, Configuration, Meta, Metas, and_meta, args_of, bad_args, cfg_limit, evaluate_args,
  evaluate_at, evaluate_cfg, evaluate_each, has_flag, has_value, list_meta, name_of, name_value,
  no_metas, only_one, operate, path_meta, value_of,
}
use hubby.Provium.Base.{
  Attempt, done, done_injective, failed, or_fail-eq-done, same_text, stop_if, ◌>>=◌, ◌>>◌,
}

-- The Boolean operators of `cfg`.
abbrev pub Applies : String → List Bool → Bool → Type 0
Applies op bs b =
    ((op ≡ "all") × (all (λ x. x) bs ≡ b))
    ⊎ ((op ≡ "any") × (any (λ x. x) bs ≡ b))
    ⊎ ((op ≡ "not") × (bs ≡ not b ∷ []))

-- What a predicate means in a configuration, without regard to its depth.
abbrev mutual
  pub Means : Configuration → Meta → Bool → Type 0
  Means c (path_meta p) b = (n : String) × (p.unraw ≡ some n) × (has_flag c n ≡ b)
  Means c (name_value p w) b =
      (n : String) × (v : String) × (p.unraw ≡ some n) × (w ≡ some v) × (has_value c n v ≡ b)
  Means c (list_meta p args sole) b =
      (op : String) × (bs : List Bool) × (p.unraw ≡ some op) × MeansArgs c args bs × Applies op bs b

  pub MeansArgs : Configuration → Args → List Bool → Type 0
  MeansArgs c bad_args bs = ⊥
  MeansArgs c (args_of ms) bs = MeansEach c ms bs

  pub MeansEach : Configuration → Metas → List Bool → Type 0
  MeansEach c no_metas bs = bs ≡ []
  MeansEach c (and_meta m ms) bs =
      (b : Bool) × (rest : List Bool) × (bs ≡ b ∷ rest) × Means c m b × MeansEach c ms rest

-- No predicate in it stands deeper than the limit, from a depth on.
abbrev mutual
  pub Shallow : Meta → ℕ → Type 0
  Shallow (path_meta p) depth = depth ≤ cfg_limit
  Shallow (name_value p w) depth = depth ≤ cfg_limit
  Shallow (list_meta p args sole) depth = (depth ≤ cfg_limit) × ShallowArgs args (suc depth)

  pub ShallowArgs : Args → ℕ → Type 0
  ShallowArgs bad_args depth = Unit {0}
  ShallowArgs (args_of ms) depth = ShallowEach ms depth

  pub ShallowEach : Metas → ℕ → Type 0
  ShallowEach no_metas depth = Unit {0}
  ShallowEach (and_meta m ms) depth = Shallow m depth × ShallowEach ms depth

pub then-eq-done :
    {E T U : Type 0} (r : Attempt E T) (k : T → Attempt E U) {u : U}
    → (r >>= k) ≡ done u
    → (t : T) × (r ≡ done t) × (k t ≡ done u)
then-eq-done (failed e) k h = cc (h)
then-eq-done (done t) k h = (t, refl, h)

pub stop_if-eq-done :
    {E U : Type 0} (b : Bool) (e : E) (r : Attempt E U) {u : U}
    → (stop_if b e >> r) ≡ done u
    → (b ≡ false) × (r ≡ done u)
stop_if-eq-done true e r h = cc (h)
stop_if-eq-done false e r h = (refl, h)

only_one-eq : {A : Type 0} (xs : List A) (x : A) → only_one xs ≡ some x → xs ≡ x ∷ []
only_one-eq [] x h = cc (h)
only_one-eq (y ∷ []) x h = ap (λ z. z ∷ []) (some_injective h)
only_one-eq (y ∷ z ∷ xs) x h = cc (h)

not-not : (b : Bool) → not (not b) ≡ b
not-not b = ground arith

operate-Applies :
    (op : String) (bs : List Bool) (b : Bool) → operate op bs ≡ done b → Applies op bs b
unfolding operate
operate-Applies op bs b h = elim (Bool-cases (same_text op "all")) [
  | inl is_all ↦ inl ((eq_iff op "all").0 is_all, done_injective (rw is_all at h))
  | inr no_all ↦ elim (Bool-cases (same_text op "any")) [
    | inl is_any ↦ inr (inl ((eq_iff op "any").0 is_any, done_injective (rw (no_all, is_any) at h)))
    | inr no_any ↦ elim (Bool-cases (same_text op "not")) [
      | inr no_not ↦ let h' = rw (no_all, no_any, no_not) at h in cc (h')
      | inl is_not ↦ elim (Option-cases (only_one bs)) [
        | inl absent ↦ let h' = rw (no_all, no_any, is_not, absent) at h in cc (h')
        | inr (x, found) ↦
            let e = done_injective (rw (no_all, no_any, is_not, found) at h) in
            inr (
              inr (
                (eq_iff op "not").0 is_not,
                only_one-eq bs x found ∙ ap (λ z. z ∷ []) (sym (not-not x) ∙ ap not e),
              ))
      ]
    ]
  ]
]

Applies-operate :
    (op : String) (bs : List Bool) (b : Bool) → Applies op bs b → operate op bs ≡ done b
unfolding operate
Applies-operate op bs b (inl (e, h)) = rw (e, h) refl
Applies-operate op bs b (inr (inl (e, h))) = rw (e, h) refl
Applies-operate op bs b (inr (inr (e, h))) = rw (e, h) (ap done (not-not b))

deep : (depth : ℕ) → ltb cfg_limit depth ≡ false → depth ≤ cfg_limit
deep depth h = ground (arith, h)

shallow : (depth : ℕ) → depth ≤ cfg_limit → ltb cfg_limit depth ≡ false
shallow depth h = ground (arith, h)

module _ (c : Configuration) where
  mutual
    unfolding evaluate_at

    evaluated-Means :
        (m : Meta) (depth : ℕ) (b : Bool)
        → evaluate_at c m depth ≡ done b
        → Means c m b × Shallow m depth
    evaluated-Means (path_meta p) depth b h =
        let (small, h1) = stop_if-eq-done (ltb cfg_limit depth) _ _ h in
        let (n, named, h2) = then-eq-done (name_of p) (λ n. done (has_flag c n)) h1 in
        ((n, or_fail-eq-done p.unraw _ named, done_injective h2), deep depth small)
    evaluated-Means (name_value p w) depth b h =
        let (small, h1) = stop_if-eq-done (ltb cfg_limit depth) _ _ h in
        let (n, named, h2) =
          then-eq-done (name_of p) (λ n. value_of w >>= λ v. done (has_value c n v)) h1 in
        let (v, valued, h3) = then-eq-done (value_of w) (λ v. done (has_value c n v)) h2 in
        (
          (n, v, or_fail-eq-done p.unraw _ named, or_fail-eq-done w _ valued, done_injective h3),
          deep depth small,
        )
    evaluated-Means (list_meta p args sole) depth b h =
        let (small, h1) = stop_if-eq-done (ltb cfg_limit depth) _ _ h in
        let (bs, operands, h2) =
          then-eq-done (evaluate_args c args (suc depth)) (λ r. name_of p >>= λ op. operate op r)
            h1 in
        let (op, named, h3) = then-eq-done (name_of p) (λ o. operate o bs) h2 in
        let (means, low) = evaluated_args-Means args (suc depth) bs operands in
        (
          (op, bs, or_fail-eq-done p.unraw _ named, means, operate-Applies op bs b h3),
          (deep depth small, low),
        )

    evaluated_args-Means :
        (args : Args) (depth : ℕ) (bs : List Bool)
        → evaluate_args c args depth ≡ done bs
        → MeansArgs c args bs × ShallowArgs args depth
    evaluated_args-Means bad_args depth bs h = cc (h)
    evaluated_args-Means (args_of ms) depth bs h = evaluated_each-Means ms depth bs h

    evaluated_each-Means :
        (ms : Metas) (depth : ℕ) (bs : List Bool)
        → evaluate_each c ms depth ≡ done bs
        → MeansEach c ms bs × ShallowEach ms depth
    evaluated_each-Means no_metas depth bs h = (sym (done_injective h), tt)
    evaluated_each-Means (and_meta m ms) depth bs h =
        let (b, first, h1) =
          then-eq-done (evaluate_at c m depth) (λ b. evaluate_each c ms depth >>= λ r. done (b ∷ r))
            h in
        let (rest, others, h2) = then-eq-done (evaluate_each c ms depth) (λ r. done (b ∷ r)) h1 in
        let (means, low) = evaluated-Means m depth b first in
        let (means_each, low_each) = evaluated_each-Means ms depth rest others in
        ((b, rest, sym (done_injective h2), means, means_each), (low, low_each))

  mutual
    unfolding evaluate_at

    Means-evaluated :
        (m : Meta) (depth : ℕ) (b : Bool)
        → Means c m b
        → Shallow m depth
        → evaluate_at c m depth ≡ done b
    Means-evaluated (path_meta p) depth b (n, named, h) low = rw (shallow depth low, named, h) refl
    Means-evaluated (name_value p w) depth b (n, v, named, valued, h) low =
        rw (shallow depth low, named, valued, h) refl
    Means-evaluated (list_meta p args sole) depth b (op, bs, named, means, h) low =
        rw (shallow depth low.0, Means-evaluated_args args (suc depth) bs means low.1, named)
          (Applies-operate op bs b h)

    Means-evaluated_args :
        (args : Args) (depth : ℕ) (bs : List Bool)
        → MeansArgs c args bs
        → ShallowArgs args depth
        → evaluate_args c args depth ≡ done bs
    Means-evaluated_args bad_args depth bs h low = absurd h
    Means-evaluated_args (args_of ms) depth bs h low = Means-evaluated_each ms depth bs h low

    Means-evaluated_each :
        (ms : Metas) (depth : ℕ) (bs : List Bool)
        → MeansEach c ms bs
        → ShallowEach ms depth
        → evaluate_each c ms depth ≡ done bs
    Means-evaluated_each no_metas depth bs h low = ap done (sym h)
    Means-evaluated_each (and_meta m ms) depth bs (b, rest, e, h, hs) low =
        rw (Means-evaluated m depth b h low.0, Means-evaluated_each ms depth rest hs low.1, e) refl

-- Evaluating a predicate gives a value exactly if this is the meaning of the predicate in the
-- configuration and no part of it stands more than 64 levels deep. Otherwise it is an error.
pub evaluate_cfg-Means :
    (c : Configuration) (m : Meta) (b : Bool)
    → (evaluate_cfg c m ≡ done b) ↔ (Means c m b × Shallow m 0)
unfolding evaluate_cfg
evaluate_cfg-Means c m b = (λ h. evaluated-Means c m 0 b h, λ h. Means-evaluated c m 0 b h.0 h.1)
