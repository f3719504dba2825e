-- ===== src/Node/Elected.antt =====
-- What gives a candidate of jarl/src/node.rs the right to lead.
use hubby.Membership.{Membership, is_voter, peers, quorum}
use hubby.Node.Timer.{reset_election}
use hubby.Prelude.{
  Bool, Bool-cases, List, Option, [], any, ap, arith, false, get_or, inl, inr, is_some_and, none,
  refl, set, some, subst, suc, true, zero, ℕ, ◌&&◌, ◌==◌, ◌||◌, ◌∙◌, ◌∷◌, ◌≡◌,
}
use hubby.Types.{NodeId, is_candidate, is_leader}
use hubby.Node.{Node, Outbound, fill, width}
use hubby.Node.Commit.{is_recipient, send, send_each}
use hubby.Membership.Quorum.{quorum_mono}
use hubby.Node.Peers.{election_quorum, slot_of}
use hubby.Node.Step.{count_vote, on_voted}
use hubby.Node.Election.{campaign, candidacy}

is_some_and_mono :
    {A : Type 0} (o : Option A) (f g : A → Bool)
    → ((a : A) → f a ≡ true → g a ≡ true)
    → is_some_and o f ≡ true
    → is_some_and o g ≡ true
is_some_and_mono none f g h e = e
is_some_and_mono (some a) f g h e = h a e

-- A slot that holds a vote after one is recorded held it, or is the recorded one.
get_or-set :
    (xs : List Bool) (j k : ℕ)
    → get_or (set xs j true) k false ≡ true
    → (get_or xs k false || j == k) ≡ true
get_or-set [] j k h = cc (h)
get_or-set (x ∷ xs) zero zero h = ground arith
get_or-set (x ∷ xs) zero (suc k) h = ground (arith, h)
get_or-set (x ∷ xs) (suc j) zero h = ground (arith, h)
get_or-set (x ∷ xs) (suc j) (suc k) h = ground (arith, get_or-set xs j k h)

get_or-fill : (xs : List Bool) (k : ℕ) → get_or (fill xs false) k false ≡ false
get_or-fill [] k = refl
get_or-fill (x ∷ xs) zero = refl
get_or-fill (x ∷ xs) (suc k) = get_or-fill xs k

-- Some answer of the slot grants the vote.
abbrev granted_by : List (ℕ × Bool) → ℕ → Bool
granted_by list k = any (λ a. a.0 == k && a.1) list

-- The ids whose slot is the local one, or has granted a vote.
abbrev pub supporters_at : List (Option NodeId) → ℕ → List (ℕ × Bool) → NodeId → Bool
supporters_at peers at list i = is_some_and (slot_of peers i) (λ k. at == k || granted_by list k)

module _ {V S : Type 0} where
  -- The node after the answers of voters, each with the slot of the voter and whether it granted.
  abbrev pub polled : Node V S → List (ℕ × Bool) → Node V S
  polled n [] = n
  polled n ((peer, granted) ∷ more) = polled (on_voted n peer granted) more

  -- The ids of a node's membership whose slot passes a test.
  abbrev at_slot : Node V S → (ℕ → Bool) → NodeId → Bool
  at_slot n g i = is_some_and (slot_of n.peers i) g

  quorum_slots :
      (n : Node V S) (f g : ℕ → Bool)
      → ((k : ℕ) → f k ≡ true → g k ≡ true)
      → quorum n.membership (at_slot n f) ≡ true
      → quorum n.membership (at_slot n g) ≡ true
  quorum_slots n f g h q =
      quorum_mono n.membership (at_slot n f) (at_slot n g)
        (λ i. is_some_and_mono (slot_of n.peers i) f g h) q

  polled-quorum :
      (n : Node V S) (g : ℕ → Bool) (list : List (ℕ × Bool))
      → is_leader n.role ≡ false
      → ((k : ℕ) → get_or n.votes k false ≡ true → g k ≡ true)
      → is_leader (polled n list).role ≡ true
      → quorum n.membership (at_slot n (λ k. g k || granted_by list k)) ≡ true
  unfolding on_voted count_vote election_quorum
  polled-quorum n g [] before votes after = absurd (cc (before, after))
  polled-quorum n g ((peer, granted) ∷ list) before votes after =
      elim (Bool-cases (is_candidate n.role && granted)) [
        | inr idle ↦
            let same : on_voted n peer granted ≡ n = rw (idle, on_voted) refl in
            quorum_slots n (λ k. g k || granted_by list k) _ (λ k h. ground (arith, h))
              (polled-quorum n g list before votes
                (subst (λ (x : Node V S). is_leader (polled x list).role ≡ true) same after))
        | inl counts ↦
            let n1 : Node V S = record n { votes = set n.votes peer true } in
            let gave : granted ≡ true = ground (arith, counts) in
            let g1 : ℕ → Bool = λ k. g k || peer == k in
            let votes1 : (k : ℕ) → get_or n1.votes k false ≡ true → g1 k ≡ true =
              λ k h. ground (arith, get_or-set n.votes peer k h, votes k) in
            elim (Bool-cases (election_quorum n1)) [
              | inl won ↦
                  quorum_slots n (λ k. get_or n1.votes k false) _
                    (λ k h. ground (arith, votes1 k h, gave)) won
              | inr lost ↦
                  let same : on_voted n peer granted ≡ n1 =
                    rw (counts, on_voted, lost, count_vote) refl in
                  quorum_slots n (λ k. g1 k || granted_by list k) _ (λ k h. ground (arith, h, gave))
                    (polled-quorum n1 g1 list before votes1
                      (subst (λ (x : Node V S). is_leader (polled x list).role ≡ true) same after))
            ]
      ]

  -- What decides an election is the same in two nodes.
  record SameBallot (n n' : Node V S) : Type 0 where
    same_role : n'.role ≡ n.role
    same_votes : n'.votes ≡ n.votes
    same_membership : n'.membership ≡ n.membership
    same_peers : n'.peers ≡ n.peers

  SameBallot-refl : (n : Node V S) → SameBallot n n
  SameBallot-refl n = record {
    same_role = refl;
    same_votes = refl;
    same_membership = refl;
    same_peers = refl;
  }

  send-SameBallot : (n : Node V S) (peer : ℕ) (out : Outbound) → SameBallot n (send n peer out)
  unfolding send
  send-SameBallot n peer out = elim (Bool-cases (peer == width n)) [
    | inl outside ↦
        rw (outside, send)
          (record {
            same_role = refl;
            same_votes = refl;
            same_membership = refl;
            same_peers = refl;
          })
    | inr inside ↦
        rw (inside, send)
          (record {
            same_role = refl;
            same_votes = refl;
            same_membership = refl;
            same_peers = refl;
          })
  ]

  send_each-SameBallot :
      (left peer : ℕ) (among : Membership → NodeId → Bool) (out : Outbound) (n : Node V S)
      → SameBallot n (send_each left peer among out n)
  unfolding send_each
  send_each-SameBallot zero peer among out n = SameBallot-refl n
  send_each-SameBallot (suc left) peer among out n = elim (Bool-cases (is_recipient n among peer)) [
    | inl sends ↦
        let s = send-SameBallot n peer out in
        let r = send_each-SameBallot left (suc peer) among out (send n peer out) in
        rw (sends, send_each)
          (record {
            same_role = r.same_role ∙ s.same_role;
            same_votes = r.same_votes ∙ s.same_votes;
            same_membership = r.same_membership ∙ s.same_membership;
            same_peers = r.same_peers ∙ s.same_peers;
          })
    | inr skips ↦ rw (skips, send_each) (send_each-SameBallot left (suc peer) among out n)
  ]

  own_vote :
      (n : Node V S) (k : ℕ)
      → get_or (set (fill n.votes false) n.local true) k false ≡ true
      → (n.local == k) ≡ true
  own_vote n k h =
      ground (arith, get_or-set (fill n.votes false) n.local k h, get_or-fill n.votes k)

  candidacy-quorum :
      (n : Node V S) (term : ℕ) (list : List (ℕ × Bool))
      → is_leader
          (polled
            (send_each (width (candidacy n term)) 0 is_voter Outbound.vote (candidacy n term))
            list).role
        ≡ true
      → quorum n.membership (supporters_at n.peers n.local list) ≡ true
  unfolding candidacy reset_election
  candidacy-quorum n term list after =
      let c : Node V S = candidacy n term in
      let n1 : Node V S = send_each (width c) 0 is_voter Outbound.vote c in
      let b = send_each-SameBallot (width c) 0 is_voter Outbound.vote c in
      let own : (k : ℕ) → get_or n1.votes k false ≡ true → (n.local == k) ≡ true =
        λ k h. own_vote n k (subst (λ (v : List Bool). get_or v k false ≡ true) b.same_votes h) in
      let q = polled-quorum n1 (λ k. n.local == k) list (ap is_leader b.same_role) own after in
      let q' =
        subst (λ (m : Membership). quorum m (supporters_at n1.peers n.local list) ≡ true)
          b.same_membership q in
      subst
        (λ (ps : List (Option NodeId)). quorum n.membership (supporters_at ps n.local list) ≡ true)
        b.same_peers q'

  -- A candidate that leads after some answers to its campaign has the votes of a quorum of the
  -- configuration in which it stood: of the slots of its peers, its own and those that granted.
  pub campaign-quorum :
      (n : Node V S) (term : ℕ) (list : List (ℕ × Bool))
      → is_leader (polled (campaign n term) list).role ≡ true
      → quorum n.membership (supporters_at n.peers n.local list) ≡ true
  unfolding campaign election_quorum candidacy reset_election
  campaign-quorum n term list after = elim (Bool-cases (election_quorum (candidacy n term))) [
    | inl won ↦
        quorum_slots n (λ k. get_or (set (fill n.votes false) n.local true) k false) _
          (λ k h. ground (arith, own_vote n k h)) won
    | inr lost ↦ candidacy-quorum n term list (rw (lost, campaign) at after)
  ]
