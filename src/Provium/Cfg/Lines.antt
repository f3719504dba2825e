-- ===== src/Provium/Cfg/Lines.antt =====
-- What `Configuration::parse` of provium/src/cfg.rs reads from the lines of rustc.
use Prim.Native.String.{String}
use text.Mathlib.TextEquality.{eq_iff}
use hubby.Prelude.{
  Bool, Bool-cases, List, Option, [], any, ap, arith, false, inl, inr, is_some_and, none, refl,
  some, sym, true, ◌&&◌, ◌||◌, ◌∙◌, ◌∷◌, ◌≡◌,
}
use hubby.Provium.Base.{done, done_injective, or_fail-eq-done, same_text, ◌>>=◌}
use hubby.Provium.Cfg.{
  Configuration, Meta, has_flag, has_value, insert_flag, insert_value, list_meta, name_of,
  name_value, path_meta, read_cfg, read_line, read_lines, value_of,
}
use hubby.Provium.Cfg.Meaning.{then-eq-done}

-- A line that sets a flag.
abbrev pub sets_flag : String → Option Meta → Bool
sets_flag n (some (path_meta p)) = is_some_and p.unraw (same_text n)
sets_flag n _ = false

-- A line that gives a key a value.
abbrev pub sets_value : String → String → Option Meta → Bool
sets_value n v (some (name_value p w)) =
    is_some_and p.unraw (same_text n) && is_some_and w (same_text v)
sets_value n v _ = false

-- A configuration has what it had, and what a line sets.
record Gains (n v : String) (l : Option Meta) (c d : Configuration) : Type 0 where
  flag : has_flag d n ≡ (sets_flag n l || has_flag c n)
  value : has_value d n v ≡ (sets_value n v l || has_value c n v)

has_flag-insert_flag :
    (c : Configuration) (m n : String)
    → has_flag (insert_flag m c) n ≡ (same_text n m || has_flag c n)
has_flag-insert_flag c m n = elim (Bool-cases (has_flag c m)) [
  | inr new ↦ rw new refl
  | inl old ↦ elim (Bool-cases (same_text n m)) [
    | inr other ↦ rw (old, other) refl
    | inl same ↦ let e : n ≡ m = (eq_iff n m).0 same in rw (old, same) (ap (has_flag c) e ∙ old)
  ]
]

has_value-insert_value :
    (c : Configuration) (m u n v : String)
    → has_value (insert_value m u c) n v ≡ (same_text n m && same_text v u || has_value c n v)
has_value-insert_value c m u n v = elim (Bool-cases (has_value c m u)) [
  | inr new ↦ rw new refl
  | inl old ↦ elim (Bool-cases (same_text n m && same_text v u)) [
    | inr other ↦ rw (old, other) refl
    | inl same ↦
        let one : same_text n m ≡ true = ground (arith, same) in
        let two : same_text v u ≡ true = ground (arith, same) in
        let e : n ≡ m = (eq_iff n m).0 one in
        let e' : v ≡ u = (eq_iff v u).0 two in
        rw (old, same) (ap (λ x. has_value c x v) e ∙ ap (has_value c m) e' ∙ old)
  ]
]

insert_flag-values :
    (c : Configuration) (m n v : String) → has_value (insert_flag m c) n v ≡ has_value c n v
insert_flag-values c m n v = elim (Bool-cases (has_flag c m)) [
  | inl old ↦ rw old refl
  | inr new ↦ rw new refl
]

insert_value-flags :
    (c : Configuration) (m u n : String) → has_flag (insert_value m u c) n ≡ has_flag c n
insert_value-flags c m u n = elim (Bool-cases (has_value c m u)) [
  | inl old ↦ rw old refl
  | inr new ↦ rw new refl
]

read_line-Gains :
    (n v : String) (l : Option Meta) (c d : Configuration)
    → read_line l c ≡ done d
    → Gains n v l c d
unfolding read_line
read_line-Gains n v none c d h = cc (h)
read_line-Gains n v (some (path_meta p)) c d h =
    let (m, named, h1) = then-eq-done (name_of p) (λ m. done (insert_flag m c)) h in
    let known : p.unraw ≡ some m = or_fail-eq-done p.unraw _ named in
    let e : insert_flag m c ≡ d = done_injective h1 in
    record {
      flag = rw (known, ← e) (has_flag-insert_flag c m n);
      value = rw (← e) (insert_flag-values c m n v);
    }
read_line-Gains n v (some (name_value p w)) c d h =
    let (m, named, h1) =
      then-eq-done (name_of p) (λ m. value_of w >>= λ u. done (insert_value m u c)) h in
    let (u, valued, h2) = then-eq-done (value_of w) (λ u. done (insert_value m u c)) h1 in
    let known : p.unraw ≡ some m = or_fail-eq-done p.unraw _ named in
    let known' : w ≡ some u = or_fail-eq-done w _ valued in
    let e : insert_value m u c ≡ d = done_injective h2 in
    record {
      flag = rw (← e) (insert_value-flags c m u n);
      value = rw (known, known', ← e) (has_value-insert_value c m u n v);
    }
read_line-Gains n v (some (list_meta p args sole)) c d h = cc (h)

read_lines-has :
    (n v : String) (lines : List (Option Meta)) (c d : Configuration)
    → read_lines lines c ≡ done d
    → (has_flag d n ≡ (any (sets_flag n) lines || has_flag c n))
      × (has_value d n v ≡ (any (sets_value n v) lines || has_value c n v))
unfolding read_lines
read_lines-has n v [] c d h =
    let e = done_injective h in (ap (λ x. has_flag x n) (sym e), ap (λ x. has_value x n v) (sym e))
read_lines-has n v (l ∷ lines) c d h =
    let (mid, here, there) = then-eq-done (read_line l c) (read_lines lines) h in
    let g = read_line-Gains n v l c mid here in
    let (flags, values) = read_lines-has n v lines mid d there in
    (ground (arith, flags, g.flag), ground (arith, values, g.value))

-- A configuration that is read has a flag exactly if some line sets it, and a value for a key exactly
-- if some line gives the key that value: a key may have several.
pub read_cfg-has :
    (lines : List (Option Meta)) (c : Configuration) (n v : String)
    → read_cfg lines ≡ done c
    → (has_flag c n ≡ any (sets_flag n) lines) × (has_value c n v ≡ any (sets_value n v) lines)
unfolding read_cfg
read_cfg-has lines c n v h =
    let (flags, values) = read_lines-has n v lines (record { flags = []; values = [] }) c h in
    (ground (arith, flags), ground (arith, values))
