-- ===== src/DiscoverySecurity/Reputation.antt =====
-- Scores and histories of peers (updateReputation, lib/discovery/security.ts).
use mathlib.Core.Option.{some-injective}
use xpi_p2p_ts.Dict
use xpi_p2p_ts.Dict.{Dict}
use xpi_p2p_ts.Dict.Laws.{get-set, get-set_ne}
use xpi_p2p_ts.DiscoverySecurity.{
  Validator, ReputationData, Interaction, get_reputation, update_reputation, interact, neutral,
  limit_history,
}
use xpi_p2p_ts.Base.{
  ℕ, ◌-◌, ◌≤◌, ◌≡◌, sym, ◌∙◌, subst, String, string_key, String_discrete, Option, some, List, [],
  ◌∷◌, ◌++◌, Bool, true, false, length, length-drop, arith, Option-cases, inl, inr,
}

-- A score from 0 to 100, and 100 interactions at most.
abbrev pub IsBounded : ReputationData → Type 0
IsBounded r = (r.score ≤ 100) × (length (r.history) ≤ 100)

length-limit_history : (h : List Interaction) → length (limit_history h) ≤ 100
length-limit_history h = ground (arith, length-drop (length h - 100) h)

abbrev interact_history : ℕ → Bool → ℕ → Option String → ReputationData → List Interaction
interact_history now ok weight why r =
    r.history ++ record { timestamp = now; success = ok; weight = weight; reason = why } ∷ []

interact-IsBounded :
    (now : ℕ) (ok : Bool) (weight : ℕ) (why : Option String) (r : ReputationData)
    → IsBounded r
    → IsBounded (interact now ok weight why r)
interact-IsBounded now true weight why r h =
    (ground arith, length-limit_history (interact_history now true weight why r))
interact-IsBounded now false weight why r h =
    (omega (arith, h.0), length-limit_history (interact_history now false weight why r))

abbrev pub AllBounded : Dict String ReputationData → Type 0
AllBounded m = (peer : String) (r : ReputationData) → Dict.get peer m ≡ some r → IsBounded r

set-AllBounded :
    (peer : String) (x : ReputationData) (m : Dict String ReputationData)
    → IsBounded x
    → AllBounded m
    → AllBounded (Dict.set peer x m)
set-AllBounded peer x m b h p r at = elim (String_discrete peer p) [
  | yes same ↦
      let value : some x ≡ some r = ground (arith, get-set p peer x m) in
      subst IsBounded (some-injective x r value) b
  | no other ↦ h p r (sym (get-set_ne p peer x m other) ∙ at)
]

module _ {Ad : Type 0} where
  abbrev pub AreBounded : Validator Ad → Type 0
  AreBounded v = AllBounded v.reputation_data

  get_reputation-IsBounded :
      (now : ℕ) (peer : String) (v : Validator Ad)
      → AreBounded v
      → IsBounded (get_reputation now peer v).1 × AreBounded (get_reputation now peer v).0
  unfolding get_reputation
  get_reputation-IsBounded now peer v h = elim (Option-cases (Dict.get peer v.reputation_data)) [
    | inl e ↦
        rw (e, get_reputation)
          (
            (omega arith, omega arith),
            set-AllBounded peer (neutral now peer) v.reputation_data (omega arith, omega arith) h,
          )
    | inr (r, e) ↦ rw (e, get_reputation) (h peer r e, h)
  ]

  -- If every known peer has a score of at most 100 and a history of at most 100 interactions, so
  -- has every one after an update of any peer, known or not.
  pub update_reputation-AreBounded :
      (now : ℕ) (peer : String) (ok : Bool) (weight : ℕ) (why : Option String) (v : Validator Ad)
      → AreBounded v
      → AreBounded (update_reputation now peer ok weight why v)
  unfolding update_reputation
  update_reputation-AreBounded now peer ok weight why v h =
      let (b, all) = get_reputation-IsBounded now peer v h in
      set-AllBounded peer _ _ (interact-IsBounded now ok weight why (get_reputation now peer v).1 b)
        all
