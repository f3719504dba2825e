-- ===== src/Provium/Coverage/Tests.antt =====
-- A ledger for a crate of one public function.
use Prim.Native.String.{String}
use hubby.Prelude.{List, [], if◌then◌else◌, refl, some, true, ◌&&◌, ◌∷◌, ◌≡◌}
use hubby.Provium.Base.{done, failed, same_text}
use hubby.Provium.Frontend.{find_entry}
use hubby.Provium.Coverage.{
  Contract, Host, Inventory, InventoryItem, Ledger, LedgerEntry, Report, audit, component_proved,
  normal,
}
use hubby.Provium.Coverage.Accounted.{Accounted}

abbrev run_item : InventoryItem
run_item = record {
  id = "crate::run";
  kind = "fn";
  source = "src/lib.rs";
  line = 1;
  column = 0;
  end_line = 3;
  end_column = 1;
  public = true;
  syntax_sha256 = "00";
  calls = [];
}

abbrev crate_inventory : Inventory
crate_inventory = record {
  schema = 1;
  sources = record { path = "src/lib.rs"; sha256 = "11" } ∷ [];
  items = run_item ∷ [];
  limitations = [];
}

abbrev run_contract : Contract
run_contract = record {
  project = "provium.json";
  evidence = "proofs";
  theorem = "run_total";
  function = "run";
}

abbrev entry_of : List String → LedgerEntry
entry_of roots = record {
  requirements = "R1" ∷ [];
  status = component_proved;
  note = "reviewed";
  root_apis = roots;
  context = "scalar";
  contracts = run_contract ∷ [];
}

abbrev ledger_of : List String → Ledger
ledger_of roots = record {
  schema = 2;
  inventory = crate_inventory;
  build_profiles = ("release", "with checks") ∷ [];
  assumptions = [];
  contexts =
      (
        "scalar",
        record {
          build_profiles = "release" ∷ [];
          assumptions = [];
          limitations = "no macros" ∷ [];
        },
      )
      ∷ [];
  entries = ("crate::run", entry_of roots) ∷ [];
}

-- A host whose paths have one part, where the crate is at `/crate`, and one project is in it.
abbrev host : Host
host = record {
  blank = same_text "";
  components = λ path. normal path ∷ [];
  canonicalize =
      λ path. if same_text path "provium.json" then done "/crate/provium.json" else failed path;
  crate_root = done "/crate";
  starts_with = λ path root. same_text path "/crate/provium.json" && same_text root "/crate";
  obligations =
      λ path. done (some (record { theorem = some "run_total"; function = some "run" } ∷ []));
}

-- A public function that is not its own root.
unrooted_test :
    audit host crate_inventory (ledger_of [])
    ≡ failed "public API must account for itself as a root"
unfolding audit find_entry
unrooted_test = refl

abbrev reviewed : Ledger
reviewed = ledger_of ("crate::run" ∷ [])

abbrev summary : Report
summary = record { items = 1; component_items = 1 }
