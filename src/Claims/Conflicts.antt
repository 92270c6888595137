-- ===== src/Claims/Conflicts.antt =====
-- What `check_conflict` reports (pkg/hearsay/claims.go).
use hearsay.Base.{
  ◌≡◌, refl, ◌≢◌, ◌↔◌, ◌⊎◌, inl, Bool, true, false, List, [], ◌∷◌, arith, In, not, ◌&&◌, map,
  filter, In-of_In-map, In-of_In-filter, In-map_of_In, In-filter_of_In, ltb, length,
}
use hearsay.Base.Text.{Text, text_eq, text_eq_iff}
use hearsay.Claims.{
  Operation, op_read, op_refactor, op_other, Claim, Conflict, conflict_of, op_conflicts,
  is_conflicting, collect_conflicts, check_conflict,
}

-- The five operations of the source.
abbrev pub IsKnown : Operation → Type 0
IsKnown (op_other t) = ⊥
IsKnown _ = Unit

-- Of the five known operations, two have one answer in the two orders in which they can be asked
-- for, exactly where they are not a refactoring and a read: a refactoring is refused beside a read,
-- and a read is granted beside a refactoring.
pub op_conflicts_symm :
    (a b : Operation)
    → IsKnown a
    → IsKnown b
    → ((op_conflicts a b ≡ op_conflicts b a)
        ↔ (¬ (((a ≡ op_refactor) × (b ≡ op_read)) ⊎ ((a ≡ op_read) × (b ≡ op_refactor)))))
      × ((op_conflicts op_refactor op_read ≡ true) × (op_conflicts op_read op_refactor ≡ false))
unfolding op_conflicts
op_conflicts_symm a b ka kb = ((λ e. ground arith, λ n. ground arith), (refl, refl))

some_listed : (ks : List Conflict) → ltb 0 (length ks) ≡ true → (k : Conflict) × In k ks
some_listed [] h = cc
some_listed (k ∷ ks) h = (k, inl refl)

nonempty : (k : Conflict) (ks : List Conflict) → In k ks → ltb 0 (length ks) ≡ true
nonempty k [] m = absurd m
nonempty k (x ∷ ks) m = ground arith

module _ (path_match : Text → Text → Bool) (claim : Claim) where
  -- A claim of another agent that conflicts with `claim`.
  pub record Against (a : Claim) : Type 0 where
    pub other_agent : a.agent_id ≢ claim.agent_id
    pub conflicting : is_conflicting path_match claim.resource_uri claim.operation a ≡ true

  abbrev blocks : Claim → Bool
  blocks a =
      not (text_eq a.agent_id claim.agent_id)
      && is_conflicting path_match claim.resource_uri claim.operation a

  Against-of_blocks : (a : Claim) → blocks a ≡ true → Against a
  Against-of_blocks a h = record {
    other_agent = λ e. ground (arith, text_eq_iff a.agent_id claim.agent_id);
    conflicting = ground arith;
  }

  blocks_of_Against : (a : Claim) → Against a → blocks a ≡ true
  blocks_of_Against a h =
      ground (arith, text_eq_iff a.agent_id claim.agent_id, h.conflicting, h.other_agent)

  pub collect_conflicts-filter :
      (active : List Claim)
      → collect_conflicts path_match claim active ≡ map conflict_of (filter blocks active)
  unfolding collect_conflicts
  collect_conflicts-filter [] = refl
  collect_conflicts-filter (a ∷ active) = ground (arith, collect_conflicts-filter active)

  pub Against-of_listed :
      (k : Conflict) (active : List Claim)
      → In k (collect_conflicts path_match claim active)
      → (a : Claim) × In a active × Against a × (k ≡ conflict_of a)
  Against-of_listed k active m =
      let (a, n, q) =
        In-of_In-map conflict_of k (filter blocks active)
          (rw (collect_conflicts-filter active) at m) in
      let (n', h) = In-of_In-filter blocks a active n in (a, n', Against-of_blocks a h, q)

  pub listed_of_Against :
      (a : Claim) (active : List Claim)
      → In a active
      → Against a
      → In (conflict_of a) (collect_conflicts path_match claim active)
  listed_of_Against a active m h = rw (collect_conflicts-filter active) (
      In-map_of_In conflict_of a (filter blocks active)
        (In-filter_of_In blocks a active m (blocks_of_Against a h)))

  -- The report has a conflict exactly when some active claim of another agent conflicts with the
  -- claim asked for, and it lists such claims and no others.
  pub check_conflict_iff :
      (active : List Claim)
      → let report = check_conflict path_match claim active in
        ((report.has_conflict ≡ true) ↔ ((a : Claim) × In a active × Against a))
        × ((a : Claim) → In a active → Against a → In (conflict_of a) report.conflicts)
        × ((k : Conflict)
            → In k report.conflicts
            → (a : Claim) × In a active × Against a × (k ≡ conflict_of a))
  unfolding check_conflict
  check_conflict_iff active = (
    (
      λ h.
          let (k, m) = some_listed (collect_conflicts path_match claim active) h in
          let (a, n, g, q) = Against-of_listed k active m in (a, n, g),
      λ (a, n, g).
          nonempty (conflict_of a) (collect_conflicts path_match claim active)
            (listed_of_Against a active n g),
    ),
    λ a n g. listed_of_Against a active n g,
    λ k m. Against-of_listed k active m,
  )
