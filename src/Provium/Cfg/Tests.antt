-- ===== src/Provium/Cfg/Tests.antt =====
-- Small configurations and predicates.
use Prim.Native.String.{String}
use hubby.Prelude.{List, Option, [], any, if◌then◌else◌, none, refl, some, true, ◌↔◌, ◌∷◌, ◌≡◌}
use hubby.Provium.Base.{done, same_text}
use hubby.Provium.Cfg.{
  Configuration, Meta, MetaPath, Metas, and_meta, args_of, attributes, bad_sole, evaluate_cfg,
  has_flag, has_value, list_meta, name_value, no_metas, path_meta, pointer_width, read_cfg, sole_of,
}
use hubby.Provium.Cfg.Meaning.{Means, Shallow, evaluate_cfg-Means}
use hubby.Provium.Cfg.Lines.{read_cfg-has, sets_flag, sets_value}

abbrev path_of : String → MetaPath
path_of n = record { ident = some n; unraw = some n }

abbrev flag_of : String → Meta
flag_of n = path_meta (path_of n)

abbrev list_of : String → Metas → Meta
list_of n (and_meta m no_metas) = list_meta (path_of n) (args_of (and_meta m no_metas)) (sole_of m)
list_of n no_metas = list_meta (path_of n) (args_of no_metas) bad_sole
list_of n (and_meta m (and_meta l ms)) =
    list_meta (path_of n) (args_of (and_meta m (and_meta l ms))) bad_sole

abbrev width_of : String → Meta
width_of v = name_value (path_of "target_pointer_width") (some v)

-- `unix`, and `target_pointer_width="64"` twice.
abbrev on_unix : Configuration
on_unix = record { flags = "unix" ∷ []; values = ("target_pointer_width", "64") ∷ [] }

abbrev lines_of_unix : List (Option Meta)
lines_of_unix = some (flag_of "unix") ∷ some (width_of "64") ∷ some (width_of "64") ∷ []

read_test : read_cfg lines_of_unix ≡ done on_unix
unfolding read_cfg
read_test = refl

read_cfg-has_example :
    (has_flag on_unix "unix" ≡ any (sets_flag "unix") lines_of_unix)
    × (has_value on_unix "unix" "64" ≡ any (sets_value "unix" "64") lines_of_unix)
read_cfg-has_example = read_cfg-has lines_of_unix on_unix "unix" "64" read_test

width_test : pointer_width (λ t. if same_text t "64" then some 64 else none) on_unix ≡ some 64
unfolding pointer_width
width_test = refl

-- `all(unix, not(windows))`.
abbrev not_windows : Meta
not_windows = list_of "all" (
    and_meta (flag_of "unix")
      (and_meta (list_of "not" (and_meta (flag_of "windows") no_metas)) no_metas))

not_windows_test : evaluate_cfg on_unix not_windows ≡ done true
unfolding evaluate_cfg
not_windows_test = refl

evaluate_cfg-Means_example :
    (evaluate_cfg on_unix not_windows ≡ done true)
    ↔ (Means on_unix not_windows true × Shallow not_windows 0)
evaluate_cfg-Means_example = evaluate_cfg-Means on_unix not_windows true

-- `#[cfg_attr(unix, cfg(unix), inline)]` and `#[doc]`.
abbrev attrs_of_item : List Meta
attrs_of_item =
    list_of "cfg_attr" (
      and_meta (flag_of "unix") (
        and_meta (list_of "cfg" (and_meta (flag_of "unix") no_metas))
          (and_meta (flag_of "inline") no_metas)))
    ∷ flag_of "doc"
    ∷ []

-- `#[cfg(windows)]` switches a declaration off.
off_test :
    attributes on_unix (list_of "cfg" (and_meta (flag_of "windows") no_metas) ∷ []) ≡ done none
unfolding attributes
off_test = refl
