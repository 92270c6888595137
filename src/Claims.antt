-- ===== src/Claims.antt =====
-- pkg/hearsay/claims.go: claims, the conflict matrix and the matching of resources.
-- `path_match p s` stands for the Boolean result of `path.Match(p, s)`, which is false for a
-- malformed pattern; every theorem holds for any such function.
pub mod Resource
pub mod Conflicts
use hearsay.Base.{ℕ, ◌≡◌, Bool, true, false, ◌||◌, List, [], ◌∷◌, ◌++◌, length, ltb, if◌then◌else◌}
use hearsay.Base.Int.{ℤ, Time}
use hearsay.Base.Text.{Text, codes, text_eq, has_prefix, has_suffix, trim_suffix, contains}

-- `Operation` is a Go string: the five constants, and any other text that a request carries.
pub data Operation : Type 0 where
  op_read op_write op_delete op_rename op_refactor : Operation
  op_other : Text → Operation

pub data Outcome : Type 0 where
  outcome_succeeded outcome_abandoned outcome_conflicted : Outcome
  outcome_other : Text → Outcome

pub record Claim : Type 0 where
  pub claim_id : Text
  pub agent_id : Text
  pub resource_uri : Text
  pub operation : Operation
  pub intent : Text
  pub projected_end : Text
  pub ttl_seconds : ℤ
  pub parent_claim_id : Text
  pub created_at : Time

pub record Conflict : Type 0 where
  pub claim_id : Text
  pub agent_id : Text
  pub resource : Text
  pub operation : Operation
  pub intent : Text
  pub since : Time

pub record ConflictReport : Type 0 where
  pub has_conflict : Bool
  pub conflicts : List Conflict

-- The `switch op` of `isConflicting`: the operation asked for, then that of the other claim.
unfoldable pub op_conflicts : Operation → Operation → Bool
op_conflicts op_write op_write = true
op_conflicts op_write op_delete = true
op_conflicts op_write op_rename = true
op_conflicts op_write op_refactor = true
op_conflicts op_write _ = false
op_conflicts op_delete (op_other t) = false
op_conflicts op_delete _ = true
op_conflicts op_rename _ = true
op_conflicts op_refactor _ = true
op_conflicts op_read op_delete = true
op_conflicts op_read op_rename = true
op_conflicts op_read _ = false
op_conflicts (op_other t) _ = false

abbrev pub conflict_of : Claim → Conflict
conflict_of a = record {
  claim_id = a.claim_id;
  agent_id = a.agent_id;
  resource = a.resource_uri;
  operation = a.operation;
  intent = a.intent;
  since = a.created_at;
}

abbrev pub tree_suffix : Text
tree_suffix = codes "/**"

abbrev pub slash : Text
slash = codes "/"

abbrev pub star : Text
star = codes "*"

module _ (path_match : Text → Text → Bool) where
  unfoldable pub resource_matches : Text → Text → Bool
  resource_matches a b =
      if text_eq a b
      then true
      else if has_suffix a tree_suffix
      then has_prefix b (trim_suffix a tree_suffix ++ slash)
      else if has_suffix b tree_suffix
      then has_prefix a (trim_suffix b tree_suffix ++ slash)
      else if contains a star
      then path_match a b
      else if contains b star
      then path_match b a
      else false

  -- An empty pattern or resource, or `*`, matches everything.
  unfoldable pub resource_matches_pattern : Text → Text → Bool
  resource_matches_pattern pattern resource_uri =
      if text_eq pattern []
        || text_eq pattern star
        || text_eq resource_uri []
        || text_eq resource_uri star
      then true
      else resource_matches pattern resource_uri

  unfoldable pub is_conflicting : Text → Operation → Claim → Bool
  is_conflicting resource op other =
      if resource_matches resource other.resource_uri
      then op_conflicts op other.operation
      else false

  -- The loop of `CheckConflict`.
  unfoldable pub collect_conflicts : Claim → List Claim → List Conflict
  collect_conflicts claim [] = []
  collect_conflicts claim (a ∷ active) =
      let rest = collect_conflicts claim active in
      if text_eq a.agent_id claim.agent_id
      then rest
      else if is_conflicting claim.resource_uri claim.operation a
      then conflict_of a ∷ rest
      else rest

  unfoldable pub check_conflict : Claim → List Claim → ConflictReport
  check_conflict claim active =
      let conflicts = collect_conflicts claim active in
      record { has_conflict = ltb 0 (length conflicts); conflicts = conflicts }
