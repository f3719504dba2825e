-- ===== src/Provium/Cfg.antt =====
-- provium/src/cfg.rs: which declarations a configuration selects. What `syn` makes of a line, of a
-- list's tokens and of an item is an input, and so is the number that a text stands for.
pub mod Meaning
pub mod Remaining
pub mod Lines
pub mod Tests
use Prim.Native.String.{String}
use hubby.Prelude.{
  Bool, List, Option, [], all, and_then, any, if◌then◌else◌, is_some_and, ltb, none, not, some, suc,
  true, ℕ, ◌&&◌, ◌++◌, ◌∷◌,
}
use hubby.Provium.Base.{Attempt, done, failed, or_fail, same_text, stop_if, ◌>>=◌, ◌>>◌}

-- `BTreeSet<String>` and `BTreeSet<(String, String)>`, as lists without repetition.
pub record Configuration : Type 0 where
  pub flags : List String
  pub values : List (String × String)

-- A path: its identifier if it is a single one, as written and without `r#`.
pub record MetaPath : Type 0 where
  pub ident : Option String
  pub unraw : Option String

-- A list has its arguments, if they parse as a list, and its only argument, if it parses as one.
mutual
  pub data Meta : Type 0 where
    path_meta : MetaPath → Meta
    list_meta : MetaPath → Args → Sole → Meta
    name_value : MetaPath → (value : Option String) → Meta

  pub data Args : Type 0 where
    bad_args : Args
    args_of : Metas → Args

  pub data Sole : Type 0 where
    bad_sole : Sole
    sole_of : Meta → Sole

  pub data Metas : Type 0 where
    no_metas : Metas
    and_meta : Meta → Metas → Metas

abbrev pub path_meta_of : Meta → MetaPath
path_meta_of (path_meta p) = p
path_meta_of (list_meta p args sole) = p
path_meta_of (name_value p v) = p

-- `name` and `value`.
abbrev pub name_of : MetaPath → Attempt String String
name_of p = or_fail p.unraw "cfg names must be single identifiers"

abbrev pub value_of : Option String → Attempt String String
value_of v = or_fail v "cfg values must be string literals"

abbrev pub has_flag : Configuration → String → Bool
has_flag c n = any (same_text n) c.flags

abbrev pub has_value : Configuration → String → String → Bool
has_value c n v = any (λ p. same_text n p.0 && same_text v p.1) c.values

abbrev pub insert_flag : String → Configuration → Configuration
insert_flag n c = if has_flag c n then c else record { flags = n ∷ c.flags; values = c.values }

abbrev pub insert_value : String → String → Configuration → Configuration
insert_value n v c =
    if has_value c n v then c else record { flags = c.flags; values = (n, v) ∷ c.values }

-- One line of `Configuration::parse`.
unfoldable pub read_line : Option Meta → Configuration → Attempt String Configuration
read_line none c = failed "invalid compiler cfg"
read_line (some (path_meta p)) c = name_of p >>= λ n. done (insert_flag n c)
read_line (some (name_value p w)) c = do n ← name_of p; v ← value_of w; done (insert_value n v c)
read_line (some (list_meta p args sole)) c =
    failed "compiler cfg must contain flags or string-valued keys"

-- The loop of `Configuration::parse`, on the lines that are not blank.
unfoldable pub read_lines : List (Option Meta) → Configuration → Attempt String Configuration
unfolding read_line
read_lines [] c = done c
read_lines (l ∷ lines) c = read_line l c >>= read_lines lines

unfoldable pub read_cfg : List (Option Meta) → Attempt String Configuration
unfolding read_lines
read_cfg lines = read_lines lines (record { flags = []; values = [] })

abbrev pub only_one : {A : Type 0} → List A → Option A
only_one [] = none
only_one (x ∷ []) = some x
only_one (x ∷ y ∷ xs) = none

abbrev pub widths : List (String × String) → List String
widths [] = []
widths ((k, v) ∷ values) =
    if same_text k "target_pointer_width" then v ∷ widths values else widths values

-- `pointer_width`, for the parser of numbers.
unfoldable pub pointer_width : (String → Option ℕ) → Configuration → Option ℕ
pointer_width read c = and_then (only_one (widths c.values)) read

-- The operators, on the values of their operands.
unfoldable pub operate : String → List Bool → Attempt String Bool
operate op results =
    if same_text op "all"
    then done (all (λ b. b) results)
    else if same_text op "any"
    then done (any (λ b. b) results)
    else if same_text op "not"
    then elim (only_one results) [
      | some b ↦ done (not b)
      | none ↦ failed "unsupported cfg operator or arity"
    ]
    else failed "unsupported cfg operator or arity"

abbrev pub cfg_limit : ℕ
cfg_limit = 64

-- `evaluate_at`, and its loop over the operands.
unfoldable mutual
  unfolding operate

  pub evaluate_at : Configuration → Meta → (depth : ℕ) → Attempt String Bool
  evaluate_at c (path_meta p) depth =
      stop_if (ltb cfg_limit depth) "cfg nesting exceeds supported depth"
      >> (name_of p >>= λ n. done (has_flag c n))
  evaluate_at c (name_value p w) depth =
      stop_if (ltb cfg_limit depth) "cfg nesting exceeds supported depth"
      >> (name_of p >>= λ n. value_of w >>= λ v. done (has_value c n v))
  evaluate_at c (list_meta p args sole) depth =
      stop_if (ltb cfg_limit depth) "cfg nesting exceeds supported depth"
      >> (evaluate_args c args (suc depth) >>= λ results. name_of p >>= λ op. operate op results)

  pub evaluate_args : Configuration → Args → (depth : ℕ) → Attempt String (List Bool)
  evaluate_args c bad_args depth = failed "invalid cfg predicate"
  evaluate_args c (args_of ms) depth = evaluate_each c ms depth

  pub evaluate_each : Configuration → Metas → (depth : ℕ) → Attempt String (List Bool)
  evaluate_each c no_metas depth = done []
  evaluate_each c (and_meta m ms) depth =
      evaluate_at c m depth >>= λ b. evaluate_each c ms depth >>= λ bs. done (b ∷ bs)

unfoldable pub evaluate_cfg : Configuration → Meta → Attempt String Bool
unfolding evaluate_at
evaluate_cfg c m = evaluate_at c m 0

abbrev pub is_named : String → Meta → Bool
is_named n m = is_some_and (path_meta_of m).ident (same_text n)

-- `expand`, which appends to its output, and its loop over the arguments of `cfg_attr`.
unfoldable mutual
  unfolding evaluate_cfg

  pub expand : Configuration → Meta → (depth : ℕ) → Attempt String (List Meta)
  expand c (path_meta p) depth =
      stop_if (ltb cfg_limit depth) "cfg_attr nesting exceeds supported depth"
      >> (if is_named "cfg_attr" (path_meta p)
          then failed "cfg_attr requires arguments"
          else done (path_meta p ∷ []))
  expand c (name_value p v) depth =
      stop_if (ltb cfg_limit depth) "cfg_attr nesting exceeds supported depth"
      >> (if is_named "cfg_attr" (name_value p v)
          then failed "cfg_attr requires arguments"
          else done (name_value p v ∷ []))
  expand c (list_meta p args sole) depth =
      let inner = expand_args c args (suc depth) in
      stop_if (ltb cfg_limit depth) "cfg_attr nesting exceeds supported depth"
      >> (if is_named "cfg_attr" (list_meta p args sole)
          then inner
          else done (list_meta p args sole ∷ []))

  pub expand_args : Configuration → Args → (depth : ℕ) → Attempt String (List Meta)
  expand_args c bad_args depth = failed "invalid cfg_attr"
  expand_args c (args_of no_metas) depth = failed "cfg_attr requires a predicate"
  expand_args c (args_of (and_meta condition ms)) depth =
      let inner = expand_each c ms depth in
      evaluate_cfg c condition >>= λ selected. if selected then inner else done []

  pub expand_each : Configuration → Metas → (depth : ℕ) → Attempt String (List Meta)
  expand_each c no_metas depth = done []
  expand_each c (and_meta m ms) depth =
      expand c m depth >>= λ first. expand_each c ms depth >>= λ rest. done (first ++ rest)

-- The first loop of `attributes`.
unfoldable pub expand_all : Configuration → List Meta → Attempt String (List Meta)
unfolding expand
expand_all c [] = done []
expand_all c (m ∷ ms) = expand c m 0 >>= λ first. expand_all c ms >>= λ rest. done (first ++ rest)

-- The predicate of a `cfg` attribute.
abbrev pub predicate_of : Meta → Attempt String Meta
predicate_of (list_meta p args (sole_of m)) = done m
predicate_of (list_meta p args bad_sole) = failed "invalid cfg attribute"
predicate_of _ = failed "cfg requires a predicate"

-- The second loop of `attributes`: whether all predicates hold, and the other attributes.
unfoldable pub select : Configuration → List Meta → Attempt String (Bool × List Meta)
unfolding evaluate_cfg
select c [] = done (true, [])
select c (m ∷ ms) =
    let rest = select c ms in
    if is_named "cfg" m
    then (do
      predicate ← predicate_of m
      holds ← evaluate_cfg c predicate
      (enabled, remaining) ← rest
      done (holds && enabled, remaining))
    else rest >>= λ (enabled, remaining). done (enabled, m ∷ remaining)

unfoldable pub attributes : Configuration → List Meta → Attempt String (Option (List Meta))
unfolding expand_all select
attributes c attrs = do
  expanded ← expand_all c attrs
  (enabled, remaining) ← select c expanded
  done (if enabled then some remaining else none)
