-- ===== src/Metatask/Examples/Pools.antt =====
-- The theorem on the two views at two nodes with a claim each.
use metaso_p2p.Prelude.{◌≡◌, refl, true, false, none, [], ◌∷◌}
use metaso_p2p.Prelude.Int.{pos, negsuc}
use metaso_p2p.Prelude.Text.{codes}
use metaso_p2p.Prelude.Assoc.{lookup}
use metaso_p2p.Metatask.Json.{text, Fields, end, field}
use metaso_p2p.Metatask.Event.{claim, release, verify}
use metaso_p2p.Metatask.Pools.{Pin, Pools, walk_claims}
use metaso_p2p.Metatask.Pools.Guard.{guard_timeline, guard_walk}
use metaso_p2p.Metatask.Pools.Agree.{main_view, walk_claims-guard}

abbrev claim_body : Fields
claim_body =
    field (codes "taskid") (text (codes "t")) (field (codes "node") (text (codes "n1")) end)

abbrev first_claim : Pin
first_claim = record {
  id = codes "c1";
  path = claim;
  global_meta_id = codes "alice";
  genesis_height = pos 4;
  tx_index = pos 0;
  timestamp = pos 100;
  seen_time = pos 100;
  accepted = true;
  payload = claim_body;
}

-- Not yet in a block.
abbrev second_claim : Pin
second_claim = record first_claim {
  id = codes "c2";
  global_meta_id = codes "bob";
  genesis_height = negsuc 0;
}

abbrev first_release : Pin
first_release = record first_claim {
  id = codes "r1";
  path = release;
  genesis_height = pos 6;
  payload = field (codes "claimid") (text (codes "c1")) claim_body;
}

abbrev two_claims : Pools
two_claims = record {
  root = codes "t";
  root_author = codes "root";
  quorum = pos 2;
  tree_nodes = codes "n1" ∷ [];
  claims = first_claim ∷ second_claim ∷ [];
  releases = first_release ∷ [];
  subs_pins = [];
  verifies = [];
}

walk_claims-guard_example :
    lookup (codes "n1") (walk_claims two_claims)
    ≡ main_view (guard_walk none false (guard_timeline two_claims (codes "n1"))).0
walk_claims-guard_example = walk_claims-guard two_claims (codes "n1") refl

-- A ballot with no semantic_check, which is shown as invalid.
abbrev bare_ballot : Pin
bare_ballot = record first_claim {
  id = codes "v1";
  path = verify;
  payload = field (codes "targetid") (text (codes "s1")) end;
}
