-- ===== src/Tests/Claims.antt =====
-- Conflicts and matching at concrete inputs (pkg/hearsay/claims.go).
use hearsay.Base.{◌≡◌, ◌↔◌, ◌⊎◌, true, false, [], ◌∷◌, In}
use hearsay.Base.Text.{codes}
use hearsay.Claims.{
  Claim, Conflict, op_read, op_refactor, op_conflicts, check_conflict, conflict_of,
  resource_matches,
}
use hearsay.Claims.Resource.{tree, subtree, nested_trees}
use hearsay.Claims.Conflicts.{Against, op_conflicts_symm, check_conflict_iff}
use hearsay.Tests.Fixtures.{no_glob, write_claim, bob_claim}

op_conflicts_symm_example :
    ((op_conflicts op_read op_refactor ≡ op_conflicts op_refactor op_read) ↔ (
      ¬ (
        ((op_read ≡ op_refactor) × (op_refactor ≡ op_read))
        ⊎ ((op_read ≡ op_read) × (op_refactor ≡ op_refactor)))))
    × ((op_conflicts op_refactor op_read ≡ true) × (op_conflicts op_read op_refactor ≡ false))
op_conflicts_symm_example = op_conflicts_symm op_read op_refactor tt tt

nested_trees_example :
    (resource_matches no_glob
        (tree (codes "file://src"))
        (subtree (codes "file://src") (codes "api"))
      ≡ true)
    × (resource_matches no_glob
          (subtree (codes "file://src") (codes "api"))
          (tree (codes "file://src"))
        ≡ false)
nested_trees_example = nested_trees no_glob (codes "file://src") (codes "api")

check_conflict_iff_example :
    let report = check_conflict no_glob bob_claim (write_claim ∷ []) in
    ((report.has_conflict ≡ true)
      ↔ ((a : Claim) × In a (write_claim ∷ []) × Against no_glob bob_claim a))
    × ((a : Claim)
        → In a (write_claim ∷ [])
        → Against no_glob bob_claim a
        → In (conflict_of a) report.conflicts)
    × ((k : Conflict)
        → In k report.conflicts
        → (a : Claim) × In a (write_claim ∷ []) × Against no_glob bob_claim a × (k ≡ conflict_of a))
check_conflict_iff_example = check_conflict_iff no_glob bob_claim (write_claim ∷ [])
