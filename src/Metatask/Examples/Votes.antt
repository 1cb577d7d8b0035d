-- ===== src/Metatask/Examples/Votes.antt =====
-- The theorems on ballots and on the replay order at a few events.
use mathlib.Core.List.{Permᴰ}
use metaso_p2p.Prelude.{◌≡◌, ◌≢◌, refl, sym, some, List, [], ◌∷◌}
use metaso_p2p.Prelude.Int.{pos}
use metaso_p2p.Prelude.Text.{codes, str_eq, str_eq_iff}
use metaso_p2p.Metatask.Json.{is_blank, truthy_str_any, get, str_any}
use metaso_p2p.Metatask.Event.{ChainEvent, sort_chain_events}
use metaso_p2p.Metatask.Event.Order.{sort_chain_events-eq_of_perm}
use metaso_p2p.Metatask.Votes.{
  VoteRules, last_vote, collect_votes, no_ballots, gate_reason, contains, roster_filtered,
}
use metaso_p2p.Metatask.Votes.Collapse.{latest, is_ballot, counts, collect_votes-latest}
use metaso_p2p.Metatask.Examples.{claim_pin, submission_pin, pass_pin}

abbrev vote_rules : VoteRules
vote_rules = record {
  known_targets = codes "s1" ∷ [];
  sub_author_by_pin = (codes "s1", codes "alice") ∷ [];
  root_author = codes "root";
  roster_groups = [];
  h_act = pos 0;
  h_act2 = pos 0;
}

-- The second ballot names no submission, so the pass stays.
abbrev stray_pin : ChainEvent
stray_pin = record pass_pin { pin_id = codes "v2"; body = claim_pin.body }

abbrev ballots : List ChainEvent
ballots = pass_pin ∷ stray_pin ∷ []

collect_votes-latest_example :
    last_vote (codes "s1") (codes "bob") (collect_votes vote_rules no_ballots ballots).last_votes
    ≡ latest vote_rules (codes "s1") (codes "bob") ballots
collect_votes-latest_example = collect_votes-latest vote_rules (codes "s1") (codes "bob") ballots

pass_stays : latest vote_rules (codes "s1") (codes "bob") ballots ≡ some pass_pin
unfolding latest is_ballot counts gate_reason contains roster_filtered str_eq get str_any
    truthy_str_any is_blank
pass_stays = refl

claim_ne_submission : claim_pin.pin_id ≢ submission_pin.pin_id
unfolding str_eq
claim_ne_submission e = absurd (cc ((str_eq_iff claim_pin.pin_id submission_pin.pin_id).1 e))

sort_chain_events-eq_of_perm_example :
    sort_chain_events (submission_pin ∷ claim_pin ∷ [])
    ≡ sort_chain_events (claim_pin ∷ submission_pin ∷ [])
sort_chain_events-eq_of_perm_example =
    sort_chain_events-eq_of_perm (submission_pin ∷ claim_pin ∷ []) (claim_pin ∷ submission_pin ∷ [])
      (Permᴰ.swap refl refl) (((λ e. claim_ne_submission (sym e)), tt), (tt, tt))
