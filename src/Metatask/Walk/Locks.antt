-- ===== src/Metatask/Walk/Locks.antt =====
-- Claims and releases in the walk: the lock of a node.
use metaso_p2p.Prelude.{◌+◌, true, none, some, [], ◌∷◌, ◌++◌, if◌then◌else◌}
use metaso_p2p.Prelude.Text.{Str, str_eq, is_empty}
use metaso_p2p.Prelude.Assoc.{lookup, insert}
use metaso_p2p.Metatask.Event.{ChainEvent, ord_key_of}
use metaso_p2p.Metatask.Votes.{unknown_node, events_at}
use metaso_p2p.Metatask.Walk.State.{
  no_outcome, released, WalkState, WalkContext, ghost, node_field, claim_field, count_at,
  ignore_event, free_node,
}

unfoldable pub log_claim : WalkState → Str → ChainEvent → WalkState
log_claim w node pin = record w {
  claim_events_by_node =
      insert node (events_at node w.claim_events_by_node ++ pin ∷ []) w.claim_events_by_node;
}

-- The claim takes the lock of its free node.
unfoldable pub take_lock : WalkState → Str → ChainEvent → WalkState
unfolding log_claim
take_lock w node pin =
    log_claim
      (record w {
        holders =
            insert node
              (record {
                pin_id = pin.pin_id;
                claimant = pin.author;
                since_ms = pin.timestamp_ms;
                height = pin.height;
              })
              w.holders;
        first_claim_order = elim (lookup node w.first_claim_order) [
          | none ↦ insert node (ord_key_of pin) w.first_claim_order
          | some _ ↦ w.first_claim_order
        ];
        effective_claim_counts =
            insert pin.author (count_at pin.author w.effective_claim_counts + 1)
              w.effective_claim_counts;
        claim_counted = insert pin.pin_id true w.claim_counted;
        node_outcome = insert node no_outcome w.node_outcome;
      })
      node pin

unfoldable pub claim_step : WalkContext → WalkState → ChainEvent → WalkState
unfolding ignore_event log_claim take_lock
claim_step ctx w pin =
    let node = node_field pin in
    if is_empty node
    then w
    else if ghost ctx node
    then ignore_event w pin.pin_id unknown_node
    else elim (lookup node w.holders) [
      | some _ ↦ log_claim w node pin
      | none ↦ take_lock w node pin
    ]

unfoldable pub log_release : WalkState → Str → ChainEvent → WalkState
log_release w node pin = record w {
  release_events_by_node =
      insert node (events_at node w.release_events_by_node ++ pin ∷ []) w.release_events_by_node;
}

unfoldable pub count_release : WalkState → Str → ChainEvent → WalkState
unfolding free_node
count_release w node pin =
    free_node (record w { release_counted = insert pin.pin_id true w.release_counted }) node
      released

unfoldable pub release_step : WalkContext → WalkState → ChainEvent → WalkState
unfolding ignore_event log_release count_release
release_step ctx w pin =
    let node = node_field pin in
    let logged = log_release w node pin in
    if is_empty node
    then w
    else if ghost ctx node
    then ignore_event w pin.pin_id unknown_node
    else elim (lookup node w.holders) [
      | none ↦ logged
      | some h ↦ if str_eq h.pin_id (claim_field pin) then count_release logged node pin else logged
    ]
