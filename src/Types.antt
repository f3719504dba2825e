-- ===== src/Types.antt =====
-- The types of jarl/src/lib.rs that the components share, and the result monad of their errors.
use hubby.Prelude.{
  Bool, List, Option, arith, false, inl, inr, leb, ltb, none, refl, some, true, wrapping_add, ℕ,
  ◌&&◌, ◌==◌, ◌||◌, ◌↔◌, ◌≡◌, ◌⊎◌,
}

-- A stable identity: `Id(pub u64)`.
abbrev pub NodeId : Type 0
NodeId = ℕ

-- A log position and its term; zero denotes genesis.
pub record LogId : Type 0 where
  pub index : ℕ
  pub term : ℕ

abbrev pub genesis : LogId
genesis = record { index = 0; term = 0 }

abbrev pub log_id_eq : LogId → LogId → Bool
log_id_eq a b = a.index == b.index && a.term == b.term

pub log_id_eq_iff : (a b : LogId) → (log_id_eq a b ≡ true) ↔ (a ≡ b)
log_id_eq_iff a b = ground arith

-- The tuple comparison `(a.term, a.index) >= (b.term, b.index)` of elections.
abbrev pub up_to_date : LogId → LogId → Bool
up_to_date a b = ltb b.term a.term || (a.term == b.term && leb b.index a.index)

pub record Entry (V : Type 0) : Type 0 where
  pub id : LogId
  pub value : Option V

pub record Snapshot (S : Type 0) : Type 0 where
  pub last : LogId
  pub value : S

pub data Role : Type 0 where
  follower candidate leader : Role

abbrev pub is_leader : Role → Bool
is_leader leader = true
is_leader follower = false
is_leader candidate = false

abbrev pub is_candidate : Role → Bool
is_candidate candidate = true
is_candidate follower = false
is_candidate leader = false

pub record Config : Type 0 where
  pub id : NodeId
  pub members : List NodeId
  pub heartbeat_ticks : ℕ
  pub election_ticks : ℕ
  pub seed : ℕ

-- `Config::new`.
unfoldable pub default_config : NodeId → List NodeId → Config
default_config i ms = record {
  id = i;
  members = ms;
  heartbeat_ticks = 2;
  election_ticks = 10;
  seed = wrapping_add i 1;
}

pub data Error : Type 0 where
  config state busy : Error
  not_leader : Option NodeId → Error
  full not_committed exhausted message reconfiguring not_caught_up : Error

pub data Rejection : Type 0 where
  conflict : ℕ → Rejection
  full : Rejection

abbrev pub max_append_entries : ℕ
max_append_entries = 16

-- A batch is the array of `max_append_entries` optional entries.
pub data Message (V S : Type 0) : Type 0 where
  pre_vote : (term : ℕ) (last : LogId) → Message V S
  pre_voted : (term campaign : ℕ) (granted : Bool) → Message V S
  vote : (term : ℕ) (last : LogId) → Message V S
  voted : (term : ℕ) (granted : Bool) → Message V S
  append : (term : ℕ) (previous : LogId) (entry : Option (Entry V)) (commit : ℕ) → Message V S
  append_batch :
      (term : ℕ) (previous : LogId) (entries : List (Option (Entry V))) (commit : ℕ) → Message V S
  install : (term : ℕ) (snapshot : Snapshot S) → Message V S
  replicated : (term index : ℕ) (rejection : Option Rejection) → Message V S

-- `Message::term`.
abbrev pub message_term : {V S : Type 0} → Message V S → ℕ
message_term (pre_vote t l) = t
message_term (pre_voted t c g) = t
message_term (vote t l) = t
message_term (voted t g) = t
message_term (append t p e c) = t
message_term (append_batch t p es c) = t
message_term (install t s) = t
message_term (replicated t i r) = t

pub record Envelope (V S : Type 0) : Type 0 where
  pub from : NodeId
  pub to : NodeId
  pub message : Message V S

pub record ProposalRange : Type 0 where
  pub first : LogId
  pub last : LogId

pub record Status : Type 0 where
  pub id : NodeId
  pub role : Role
  pub term : ℕ
  pub last : LogId
  pub commit : ℕ
  pub retained : ℕ
  pub capacity : ℕ
  pub persistence_pending : Bool
  pub messages_pending : ℕ

pub record PeerProgress : Type 0 where
  pub id : NodeId
  pub voter : Bool
  pub matched : ℕ
  pub next : ℕ

-- `Result<T, Error>`; `?` is the bind, and a statement that ends in `?` has the value of the unit.
pub data Result {ℓ} (T : Type ℓ) : Type ℓ where
  err : Error → Result T
  ok : T → Result T

infixl 5 ◌>>=◌
abbrev pub ◌>>=◌ {ℓ κ} :
    {T : Type ℓ} {U : Type κ} (result : Result T) (rest : T → Result U) → Result U
err error >>= rest = err error
ok value >>= rest = rest value

infixl 5 ◌>>◌
abbrev pub ◌>>◌ {ℓ} : {U : Type ℓ} (check : Result (Unit {0})) (rest : Result U) → Result U
check >> rest = check >>= λ done. rest

-- `if b { return Err(e) }`.
abbrev pub refuse_if : Bool → Error → Result (Unit {0})
refuse_if true e = err e
refuse_if false e = ok tt

-- `Option::ok_or`.
abbrev pub ok_or {ℓ} : {A : Type ℓ} → Option A → Error → Result A
ok_or none e = err e
ok_or (some a) e = ok a

-- `Result::map_err` with a constant.
abbrev pub map_err {ℓ} : {A : Type ℓ} → Result A → Error → Result A
map_err (ok a) e = ok a
map_err (err _) e = err e

pub ok_injective {ℓ} : {A : Type ℓ} {a b : A} → ok a ≡ ok b → a ≡ b
ok_injective h = cc

pub ok-ne-err {ℓ} : {A : Type ℓ} {a : A} {e : Error} → err e ≡ ok a → ⊥
ok-ne-err h = cc

-- A chain that succeeds has a first step that succeeds.
pub >>=-eq-ok {ℓ κ} :
    {T : Type ℓ} {U : Type κ} (first : Result T) (rest : T → Result U) {out : U}
    → (first >>= rest) ≡ ok out
    → (t : T) × (first ≡ ok t) × (rest t ≡ ok out)
>>=-eq-ok (err error) rest h = cc
>>=-eq-ok (ok t) rest h = (t, refl, h)

pub refuse_if-eq-ok {ℓ} :
    {B : Type ℓ} (t : Bool) (e : Error) (m : Result B) {b : B}
    → (refuse_if t e >> m) ≡ ok b
    → (t ≡ false) × (m ≡ ok b)
refuse_if-eq-ok true e m h = cc
refuse_if-eq-ok false e m h = (refl, h)

-- To split on the result of a fallible call.
pub Result-cases {ℓ} :
    {A : Type ℓ} (r : Result A) → ((a : A) × (r ≡ ok a)) ⊎ ((e : Error) × (r ≡ err e))
Result-cases (ok a) = inl (a, refl)
Result-cases (err e) = inr (e, refl)
