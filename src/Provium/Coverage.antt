-- ===== src/Provium/Coverage.antt =====
-- provium/src/coverage.rs: the ledger of reviews, and `audit`, which checks it against the inventory of
-- a crate. The inventory of the source, the parsed ledger and what the host answers about files and
-- paths are inputs.
pub mod Accounted
pub mod Tests
use Prim.Native.String.{String}
use hubby.Prelude.{
  Bool, List, Option, [], any, count, false, is_some, is_some_and, length, not, true, ℕ, ◌&&◌, ◌+◌,
  ◌==◌, ◌||◌, ◌∷◌,
}
use hubby.Provium.Base.{Attempt, done, failed, or_fail, same_text, stop_if, ◌>>=◌, ◌>>◌}
use hubby.Provium.Frontend.{find_entry}

pub record Source : Type 0 where
  pub path : String
  pub sha256 : String

-- `Item`.
pub record InventoryItem : Type 0 where
  pub id : String
  pub kind : String
  pub source : String
  pub line : ℕ
  pub column : ℕ
  pub end_line : ℕ
  pub end_column : ℕ
  pub public : Bool
  pub syntax_sha256 : String
  pub calls : List String

pub record Inventory : Type 0 where
  pub schema : ℕ
  pub sources : List Source
  pub items : List InventoryItem
  pub limitations : List String

pub record Contract : Type 0 where
  pub project : String
  pub evidence : String
  pub theorem : String
  pub function : String

-- `Status`.
pub data Review : Type 0 where
  planned component_evidence translated component_proved composed excluded blocked : Review

-- `Entry`.
pub record LedgerEntry : Type 0 where
  pub requirements : List String
  pub status : Review
  pub note : String
  pub root_apis : List String
  pub context : String
  pub contracts : List Contract

pub record Context : Type 0 where
  pub build_profiles : List String
  pub assumptions : List String
  pub limitations : List String

-- The maps are sorted lists of entries.
pub record Ledger : Type 0 where
  pub schema : ℕ
  pub inventory : Inventory
  pub build_profiles : List (String × String)
  pub assumptions : List (String × String)
  pub contexts : List (String × Context)
  pub entries : List (String × LedgerEntry)

pub record Report : Type 0 where
  pub items : ℕ
  pub component_items : ℕ

-- A part of a path: a plain name, or a root, a prefix, `.` or `..`.
pub data Component : Type 0 where
  normal : String → Component
  special : Component

-- An obligation of a project, with the fields that are texts.
pub record Obligation : Type 0 where
  pub theorem : Option String
  pub function : Option String

-- The libraries and the file system: whether a text is blank, the parts of a path, the path of a file
-- of the crate and of the crate itself, whether a path starts with another, and the obligations in a
-- file, if they are an array.
pub record Host : Type 0 where
  pub blank : String → Bool
  pub components : String → List Component
  pub canonicalize : String → Attempt String String
  pub crate_root : Attempt String String
  pub starts_with : String → String → Bool
  pub obligations : String → Attempt String (Option (List Obligation))

abbrev pub lists_eq : {A : Type 0} → (A → A → Bool) → List A → List A → Bool
lists_eq eq [] [] = true
lists_eq eq [] (y ∷ ys) = false
lists_eq eq (x ∷ xs) [] = false
lists_eq eq (x ∷ xs) (y ∷ ys) = eq x y && lists_eq eq xs ys

abbrev pub bool_eq : Bool → Bool → Bool
bool_eq true b = b
bool_eq false b = not b

abbrev pub source_eq : Source → Source → Bool
source_eq s t = same_text s.path t.path && same_text s.sha256 t.sha256

abbrev pub item_eq : InventoryItem → InventoryItem → Bool
item_eq a b =
    same_text a.id b.id
    && same_text a.kind b.kind
    && same_text a.source b.source
    && a.line == b.line
    && a.column == b.column
    && a.end_line == b.end_line
    && a.end_column == b.end_column
    && bool_eq a.public b.public
    && same_text a.syntax_sha256 b.syntax_sha256
    && lists_eq same_text a.calls b.calls

-- `==` on inventories.
abbrev pub inventory_eq : Inventory → Inventory → Bool
inventory_eq a b =
    a.schema == b.schema
    && lists_eq source_eq a.sources b.sources
    && lists_eq item_eq a.items b.items
    && lists_eq same_text a.limitations b.limitations

abbrev pub no_items : {A : Type 0} → List A → Bool
no_items [] = true
no_items (x ∷ xs) = false

abbrev pub listed : {A : Type 0} → List (String × A) → String → Bool
listed entries name = is_some (find_entry name entries)

-- A part of the evidence path that is not a plain name, or is `target`.
abbrev pub misplaced : Component → Bool
misplaced (normal name) = same_text name "target"
misplaced special = true

abbrev pub answers : Contract → Obligation → Bool
answers c o =
    is_some_and o.theorem (same_text c.theorem) && is_some_and o.function (same_text c.function)

-- The body of the loop over the contracts of an entry.
unfoldable pub check_contract : Host → Contract → Attempt String (Unit {0})
check_contract host c =
    stop_if (same_text c.evidence "" || any misplaced (host.components c.evidence))
      "coverage evidence needs a consumer-relative path outside target"
    >> (host.canonicalize c.project >>= λ path. host.crate_root >>= λ root.
        stop_if (not (host.starts_with path root)) "coverage evidence must belong to the consumer"
        >> (host.obligations path >>= λ list.
            stop_if (not (is_some_and list (any (answers c))))
              "references an absent project obligation"))

unfoldable pub check_contracts : Host → List Contract → Attempt String (Unit {0})
unfolding check_contract
check_contracts host [] = done tt
check_contracts host (c ∷ cs) = check_contract host c >> check_contracts host cs

-- The conditions of `audit` on the requirements and the note of an entry.
abbrev pub lacks_review : Host → LedgerEntry → Bool
lacks_review host e = no_items e.requirements || any host.blank e.requirements || host.blank e.note

-- Those on the context and the roots of an entry.
abbrev pub lacks_context : Host → Ledger → List InventoryItem → LedgerEntry → Context → Bool
lacks_context host ledger items e context =
    no_items context.build_profiles
    || any (λ p. not (listed ledger.build_profiles p)) context.build_profiles
    || any (λ a. not (listed ledger.assumptions a)) context.assumptions
    || any (λ root. not (any (λ i. same_text i.id root) items)) e.root_apis
    || no_items context.limitations
    || any host.blank context.limitations

-- A public item that is not among its roots.
abbrev pub unrooted : InventoryItem → LedgerEntry → Bool
unrooted item e = item.public && not (any (same_text item.id) e.root_apis)

-- The body of the loop over the items, which returns the status.
unfoldable pub audit_item :
    Host → Ledger → List InventoryItem → InventoryItem → Attempt String Review
unfolding check_contracts
audit_item host ledger items item = do
  entry ← or_fail (find_entry item.id ledger.entries) "unclassified item"
  stop_if (lacks_review host entry) "requires obligation IDs and a review note"
  context ←
      or_fail (find_entry entry.context ledger.contexts) "references an unknown review context"
  stop_if (lacks_context host ledger items entry context)
      "has unknown roots/profiles/assumptions or missing limitations"
  stop_if (unrooted item entry) "public API must account for itself as a root"
  check_contracts host entry.contracts
  done entry.status

abbrev pub is_component : Review → ℕ
is_component component_evidence = 1
is_component component_proved = 1
is_component _ = 0

-- The loop, with the number of items that have component evidence.
unfoldable pub audit_items :
    Host → Ledger → List InventoryItem → List InventoryItem → ℕ → Attempt String ℕ
unfolding audit_item
audit_items host ledger items [] count = done count
audit_items host ledger items (item ∷ rest) count = audit_item host ledger items item >>= λ status.
    audit_items host ledger items rest (count + is_component status)

abbrev pub blank_pair : Host → String × String → Bool
blank_pair host (id, description) = host.blank id || host.blank description

unfoldable pub audit : Host → Inventory → Ledger → Attempt String Report
unfolding audit_items
audit host actual ledger = do
  stop_if (not (ledger.schema == 2) || not (inventory_eq ledger.inventory actual))
      "coverage inventory is stale or unsupported"
  stop_if (not (length ledger.entries == length actual.items))
      "coverage ledger must classify exactly every inventoried item"
  stop_if
      (no_items ledger.build_profiles
        || any (blank_pair host) ledger.build_profiles
        || any (blank_pair host) ledger.assumptions)
      "coverage requires named build profiles and nonempty contract descriptions"
  count ← audit_items host ledger actual.items actual.items 0
  done (record { items = length actual.items; component_items = count })

-- `require_complete`, which never succeeds.
unfoldable pub require_complete : Host → Inventory → Ledger → Attempt String (Unit {0})
unfolding audit
require_complete host actual ledger =
    audit host actual ledger >>= λ report. failed "full proof unavailable"
