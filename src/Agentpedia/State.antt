-- ===== src/Agentpedia/State.antt =====
-- The state of the replay, as `replayState` of internal/agentpedia/replay.go keeps it.
--
-- The map `entries` holds pointers to records, and transfer-slug makes two keys share one, so
-- `entries` gives for a key the place of its record in the store `records`. The records of the
-- other maps are never shared, and stand in their maps.
use metaso_p2p.Prelude.{ℕ, Bool, false, Option, none, List, []}
use metaso_p2p.Prelude.Int.{ℤ, pos}
use metaso_p2p.Prelude.Text.{Str}
use metaso_p2p.Prelude.Assoc.{Assoc}
use metaso_p2p.Agentpedia.Value.{Float, float_of, Fields}

pub record Event : Type 0 where
  pub pin : Str
  pub path : Str
  pub height : ℤ
  pub tx_index : ℤ
  pub sender : Str
  pub payload : Fields

pub record Options : Type 0 where
  pub blocks_per_hour : ℤ
  pub blocks_per_day : ℤ
  pub arbiter_overrides : Assoc (List Str)
  pub frozen_arbiter_overrides : Assoc (List Str)
  pub editors_rep : Assoc Float
  pub cluster_aliases : Assoc Str

-- The reasons of the graveyard.
pub data Reason : Type 0 where
  unregistered t0_no_rev frozen_unauthorized protected_unauthorized rate_global rate_slug : Reason
  poc_challenge_mismatch poc_window_exceeded poc_response_missing register_invalid : Reason
  stake_insufficient endorser_not_t2 endorse_no_register self_endorse duplicate_endorse : Reason
  suspend_unauthorized revoke_unauthorized editor_action_unknown : Reason
  review_target_unresolvable self_review challenge_target_unresolvable self_challenge : Reason
  ruling_challenge_missing ruling_seed_mismatch baseline_rev_mismatch baseline_rev_not_null : Reason
  ruling_params_missing vote_on_closed_proposal duplicate_vote ruling_action_unknown : Reason
  param_vote_on_closed param_proposal_kind_unknown : Reason
  duplicate_create edit_without_entry revert_without_entry revert_entry_mismatch : Reason
  revert_target_unresolvable revert_hash_mismatch redirect_without_entry : Reason
  redirect_target_missing rev_type_unknown : Reason
  duplicate_genesis constitution_without_effective_proposal no_genesis unknown_path : Reason

pub record Grave : Type 0 where
  pub pin : Str
  pub reason : Reason

pub record Version : Type 0 where
  pub content_hash : Str
  pub author : Str
  pub parent_rev : Str
  pub based_on : Str
  pub summary : Str
  pub entry_key : Str
  pub equivalent_of : Str

-- The zero value, which a missing key reads as.
abbrev pub no_version : Version
no_version = record {
  content_hash = [];
  author = [];
  parent_rev = [];
  based_on = [];
  summary = [];
  entry_key = [];
  equivalent_of = [];
}

pub record Contest : Type 0 where
  pub pin : Str
  pub expected : Str
  pub declared : Str

pub record Editor : Type 0 where
  pub founder : Bool
  pub registered_at : Option ℤ
  pub register_h : ℤ
  pub endorsements : Assoc Bool
  pub reputation : Float
  pub valid_revs : ℕ
  pub suspension_until : ℤ
  pub revoked : Bool
  pub banned : Bool

abbrev pub new_editor : Editor
new_editor = record {
  founder = false;
  registered_at = none;
  register_h = pos 0;
  endorsements = [];
  reputation = float_of (pos 0);
  valid_revs = 0;
  suspension_until = pos 0;
  revoked = false;
  banned = false;
}

pub data EntryStatus : Type 0 where
  normal frozen protected : EntryStatus

pub record RevertWeight : Type 0 where
  pub h : ℤ
  pub editor : Str
  pub weight : Float
  pub vf : Bool

pub record EntryRec : Type 0 where
  pub key : Str
  pub head : Str
  pub status : EntryStatus
  pub history : List Str
  pub disputed : Assoc Bool
  pub contests : List Contest
  pub versions : Assoc Version
  pub redirect : Str
  pub frozen_at : Str
  pub baseline_rev : Str
  pub frozen_arbiters : List Str
  pub revert_weights : List RevertWeight

abbrev pub new_entry : Str → EntryRec
new_entry k = record {
  key = k;
  head = [];
  status = normal;
  history = [];
  disputed = [];
  contests = [];
  versions = [];
  redirect = [];
  frozen_at = [];
  baseline_rev = [];
  frozen_arbiters = [];
  revert_weights = [];
}

pub record Challenge : Type 0 where
  pub target_rev : Str
  pub challenger : Str
  pub entry_key : Str

pub record RegChallenge : Type 0 where
  pub applicant : Str
  pub challenger : Str
  pub h : ℤ
  pub poc_ok : Bool
  pub stake_ok : Bool
  pub register_h : ℤ
  pub register_t : ℤ
  pub register_pin : Str

-- The outcomes that a proposal may have.
pub data Outcome : Type 0 where
  revert_to transfer_slug warn_editor slash_stake_half slash_stake_full ban_editor : Outcome
  confirm_goodfaith protect unprotect dismiss unfreeze : Outcome

pub data ProposalState : Type 0 where
  opened effective voided : ProposalState

pub record Proposal : Type 0 where
  pub pin : Str
  pub challenge_pin : Str
  pub outcome : Outcome
  pub params : Fields
  pub proposer : Str
  pub height : ℤ
  pub expiry_h : ℤ
  pub arbiters : List Str
  pub approves : Assoc Bool
  pub approve_count : ℕ
  pub state : ProposalState
  pub entry_key : Str
  pub baseline_rev : Str
  pub voters : Assoc Bool

-- A parameter proposal: whether it is effective, and who approved.
pub record ParamProposal : Type 0 where
  pub effective : Bool
  pub approves : Assoc Bool

pub record Review : Type 0 where
  pub pin : Str
  pub reviewer : Str

pub record State : Type 0 where
  pub params : Option (Assoc Float)
  pub genesis_height : ℤ
  pub bootstrap_end_h : ℤ
  pub founders : List Str
  pub editors : Assoc Editor
  pub entries : Assoc ℕ
  pub records : List EntryRec
  pub alias_of : Assoc Str
  pub graveyard : List Grave
  pub pending : List Str
  pub challenges : Assoc Challenge
  pub proposals : Assoc Proposal
  pub param_proposals : Assoc ParamProposal
  pub reviews_by_target : Assoc (List Review)
  pub all_reviews : List Review
  pub reg_challenges : Assoc RegChallenge
  pub day_global : Assoc ℕ
  pub day_slug : Assoc ℕ

abbrev pub new_state : State
new_state = record {
  params = none;
  genesis_height = pos 0;
  bootstrap_end_h = pos 0;
  founders = [];
  editors = [];
  entries = [];
  records = [];
  alias_of = [];
  graveyard = [];
  pending = [];
  challenges = [];
  proposals = [];
  param_proposals = [];
  reviews_by_target = [];
  all_reviews = [];
  reg_challenges = [];
  day_global = [];
  day_slug = [];
}
