-- ===== src/Provium/Coverage/Accounted.antt =====
-- What a successful `audit` of provium/src/coverage.rs guarantees.
use Prim.Native.String.{String}
use hubby.Prelude.{List, [], any, false, not, some, true, ◌||◌, ◌∷◌, ◌≡◌}
use hubby.Provium.Base.{done, same_text}
use hubby.Provium.Frontend.{find_entry}
use hubby.Provium.Coverage.{
  Context, Contract, Host, InventoryItem, Ledger, LedgerEntry, Obligation, answers, listed,
  misplaced, no_items,
}

-- A contract with evidence inside the crate and an obligation of its project.
pub record Backed (host : Host) (c : Contract) : Type 0 where
  pub placed : any misplaced (host.components c.evidence) ≡ false
  pub path : String
  pub root : String
  pub found : host.canonicalize c.project ≡ done path
  pub rooted : host.crate_root ≡ done root
  pub inside : host.starts_with path root ≡ true
  pub obligations : List Obligation
  pub read : host.obligations path ≡ done (some obligations)
  pub answered : any (answers c) obligations ≡ true

abbrev pub AllBacked : Host → List Contract → Type 0
AllBacked host [] = Unit {0}
AllBacked host (c ∷ cs) = Backed host c × AllBacked host cs

-- An item that the ledger accounts for, among the items of an inventory.
pub record Accounted (host : Host) (ledger : Ledger) (items : List InventoryItem)
    (item : InventoryItem) : Type 0 where
  pub entry : LedgerEntry
  pub context : Context
  pub classified : find_entry item.id ledger.entries ≡ some entry
  pub situated : find_entry entry.context ledger.contexts ≡ some context
  pub noted : host.blank entry.note ≡ false
  pub required : (no_items entry.requirements ≡ false) × (any host.blank entry.requirements ≡ false)
  pub profiled : any (λ p. not (listed ledger.build_profiles p)) context.build_profiles ≡ false
  pub assumed : any (λ a. not (listed ledger.assumptions a)) context.assumptions ≡ false
  pub limited :
      (no_items context.limitations ≡ false) × (any host.blank context.limitations ≡ false)
  pub inventoried : any (λ root. not (any (λ i. same_text i.id root) items)) entry.root_apis ≡ false
  pub rooted : (not item.public || any (same_text item.id) entry.root_apis) ≡ true
  pub backed : AllBacked host entry.contracts
