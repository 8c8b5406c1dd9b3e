-- ===== src/Tests/Chains.antt =====
-- Two chains of rules: the default one with a rule, and chain 3 with the name "AB".
use adfilter.Prelude.{[], ◌∷◌, some, true}
use adfilter.Ipc.{FltRule}
use adfilter.Rules.{Chain, Chains, update, cleared}

abbrev rule : FltRule
rule = record {
  chain = 3;
  result = 1;
  proto = 17;
  direction = 1;
  addr_from = 0;
  mask_from = 0;
  port_from = 0;
  port2_from = 0;
  addr_to = 0;
  mask_to = 0;
  port_to = 0;
  port2_to = 0;
  log = 1;
  sid_mask = [];
  rule_id = [];
}

abbrev chain_ab : Chain
chain_ab = record {
  rules = record { nodes = (1, rule) ∷ (2, rule) ∷ []; tail = some 2 };
  pname = some (record { at = 3; bytes = 65 ∷ 66 ∷ [] });
  active = true;
}

abbrev chains : Chains
chains = update 3 chain_ab (λ _. cleared)
