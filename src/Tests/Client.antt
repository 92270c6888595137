-- ===== src/Tests/Client.antt =====
-- The client over the in-memory provider (pkg/hearsay/client.go, internal/memory/memory.go).
use mathlib.Core.List.{append-nil}
use hearsay.Base.{◌≡◌, refl, sym, ◌≢◌, ◌⊎◌, [], ◌∷◌, In, arith, none, inl}
use hearsay.Base.Int.{ℤ, pos, Time, ◌+ℤ◌, wrap64, seconds}
use hearsay.Base.Text.{Text, codes, text_eq}
use hearsay.Claims.{
  Claim, outcome_succeeded, op_write, check_conflict, collect_conflicts, is_conflicting,
  resource_matches, op_conflicts,
}
use hearsay.Provider.{Message, Result, msg_claim, msg_heartbeat, ok}
use hearsay.Active.{filter_active_claims, second_pass, release_id, claim_in, is_release, is_claim}
use hearsay.Active.Listing.{IsHeld}
use hearsay.Memory.{Provider, new}
use hearsay.Memory.Log.{append, append_all, append_one, query, query_loop, active_claims}
use hearsay.Memory.Numbering.{WellNumbered}
use hearsay.Memory.LogLaws.{memory_provider, memory-LogLaws}
use hearsay.Client.{
  ClaimRequest, ClaimResult, granted, claim, claim_of, generate_claim_id, release, heartbeat,
}
use hearsay.Client.Claiming.{Rival, IsRefused, IsGranted, claim_decides}
use hearsay.Client.Holding.{granted_blocks_rivals}
use hearsay.Client.Ending.{release_removes, heartbeat_revives}
use hearsay.Tests.Fixtures.{Body, claim_body, sample_json, no_glob, main_ns, file_a}

-- Every instant is printed as 7.
abbrev pub seven : ℤ → Text
seven t = codes "7"

abbrev alice_writes : ClaimRequest
alice_writes = record {
  resource_uri = file_a;
  agent_id = codes "alice";
  operation = op_write;
  intent = codes "edit";
  projected_end = [];
  ttl_seconds = pos 0;
  parent_claim_id = [];
}

abbrev bob_writes : ClaimRequest
bob_writes = record alice_writes { agent_id = codes "bob" }

abbrev start : Provider Body
start = new

start-WellNumbered : WellNumbered main_ns start
unfolding new
start-WellNumbered = record { counter = refl; numbered = tt }

abbrev run : Time → ClaimRequest → Provider Body → ClaimResult × Provider Body
run now req p =
    claim sample_json (memory_provider sample_json no_glob) main_ns seven no_glob now req p

abbrev after_alice : ClaimResult × Provider Body
after_alice = run (pos 1000) alice_writes start

alice_granted : after_alice.0 ≡ granted (record { claim_id = codes "claim_7"; conflict = none })
unfolding new claim claim_of generate_claim_id active_claims query query_loop filter_active_claims
    second_pass check_conflict collect_conflicts append
alice_granted = refl

alice-WellNumbered : WellNumbered main_ns after_alice.1
unfolding new claim claim_of generate_claim_id active_claims query query_loop filter_active_claims
    second_pass check_conflict collect_conflicts append append_all append_one text_eq ◌+ℤ◌ wrap64
alice-WellNumbered = record { counter = refl; numbered = (refl, tt) }

claim_decides_example :
    ((a : Claim) × Rival sample_json no_glob seven
        (memory_provider sample_json no_glob)
        main_ns
        (λ p. p.messages main_ns)
        (WellNumbered main_ns)
        (memory-LogLaws sample_json no_glob main_ns)
        (pos 1000)
        alice_writes
        start
        a
      × IsRefused sample_json no_glob seven
          (memory_provider sample_json no_glob)
          main_ns
          (λ p. p.messages main_ns)
          (WellNumbered main_ns)
          (memory-LogLaws sample_json no_glob main_ns)
          (pos 1000)
          alice_writes
          start
          a
          after_alice)
    ⊎ (((a : Claim)
          → ¬ Rival sample_json no_glob seven
              (memory_provider sample_json no_glob)
              main_ns
              (λ p. p.messages main_ns)
              (WellNumbered main_ns)
              (memory-LogLaws sample_json no_glob main_ns)
              (pos 1000)
              alice_writes
              start
              a)
        × IsGranted sample_json no_glob seven
            (memory_provider sample_json no_glob)
            main_ns
            (λ p. p.messages main_ns)
            (WellNumbered main_ns)
            (memory-LogLaws sample_json no_glob main_ns)
            (pos 1000)
            alice_writes
            start
            after_alice)
unfolding new
claim_decides_example =
    claim_decides sample_json no_glob seven (memory_provider sample_json no_glob) main_ns
      (λ p. p.messages main_ns) (WellNumbered main_ns) (memory-LogLaws sample_json no_glob main_ns)
      (pos 1000) alice_writes start start-WellNumbered (omega arith)

granted_blocks_rivals_example :
    IsRefused sample_json no_glob seven
      (memory_provider sample_json no_glob)
      main_ns
      (λ p. p.messages main_ns)
      (WellNumbered main_ns)
      (memory-LogLaws sample_json no_glob main_ns)
      (pos 2000)
      bob_writes
      after_alice.1
      (claim_of seven (pos 1000) alice_writes)
      (run (pos 2000) bob_writes after_alice.1)
unfolding new claim_of is_conflicting resource_matches op_conflicts text_eq seconds wrap64 ◌+ℤ◌
granted_blocks_rivals_example =
    granted_blocks_rivals sample_json no_glob seven (memory_provider sample_json no_glob) main_ns
      (λ p. p.messages main_ns) (WellNumbered main_ns) (memory-LogLaws sample_json no_glob main_ns)
      (pos 1000) (pos 2000) alice_writes bob_writes start after_alice.1
      (record { claim_id = codes "claim_7"; conflict = none }) [] start-WellNumbered (omega arith)
      refl alice_granted (sym (append-nil _)) tt alice-WellNumbered (omega arith) (λ e. cc) refl

abbrev after_release : Result (Unit {0}) × Provider Body
after_release =
    release sample_json (memory_provider sample_json no_glob) main_ns (pos 3000) (codes "claim_7")
      outcome_succeeded after_alice.1

-- A heartbeat for the claim is written after its release.
abbrev after_heartbeat : Result (Unit {0}) × Provider Body
after_heartbeat =
    heartbeat sample_json (memory_provider sample_json no_glob) main_ns (pos 4000) (codes "claim_7")
      after_release.1

abbrev late_heartbeat : Message Body
late_heartbeat = record {
  offset = pos 3;
  type = msg_heartbeat;
  namespace = main_ns;
  agent_id = [];
  payload = sample_json.encode_heartbeat (codes "claim_7") (pos 4000);
  timestamp = pos 4000;
}

release_removes_example :
    (after_release.0 ≡ ok tt)
    × ((t : Time) (c : Claim)
        → In c (filter_active_claims sample_json t (after_heartbeat.1.messages main_ns))
        → c.claim_id ≢ codes "claim_7")
unfolding new claim claim_of generate_claim_id active_claims query query_loop filter_active_claims
    second_pass check_conflict collect_conflicts append append_all append_one text_eq ◌+ℤ◌ wrap64
    release heartbeat claim_in is_claim release_id is_release
release_removes_example =
    release_removes sample_json no_glob (memory_provider sample_json no_glob) main_ns
      (λ p. p.messages main_ns) (WellNumbered main_ns) (memory-LogLaws sample_json no_glob main_ns)
      (pos 3000) (codes "claim_7") outcome_succeeded after_alice.1 after_heartbeat.1
      (late_heartbeat ∷ []) alice-WellNumbered (omega arith) (λ e. cc) refl (refl, tt) refl
      ((omega arith, (omega arith, tt)), tt) (λ d e. absurd cc, tt)

alice-IsHeld :
    IsHeld sample_json
      (after_alice.1.messages main_ns)
      (record {
        offset = pos 1;
        type = msg_claim;
        namespace = main_ns;
        agent_id = codes "alice";
        payload = claim_body (claim_of seven (pos 1000) alice_writes);
        timestamp = pos 1000;
      })
      (claim_of seven (pos 1000) alice_writes)
unfolding new claim claim_of generate_claim_id active_claims query query_loop filter_active_claims
    second_pass check_conflict collect_conflicts append append_all append_one text_eq ◌+ℤ◌ wrap64
    claim_in is_claim release_id is_release
alice-IsHeld = record {
  in_log = inl refl;
  is_claim = refl;
  named = λ e. cc;
  unreleased = (λ e. cc, tt);
}

heartbeat_revives_example :
    let out =
      heartbeat sample_json
        (memory_provider sample_json no_glob)
        main_ns
        (pos 900000000000000)
        (codes "claim_7")
        after_alice.1 in
    (out.0 ≡ ok tt)
    × In
        (claim_of seven (pos 1000) alice_writes)
        (filter_active_claims sample_json (pos 900000000000009) (out.1.messages main_ns))
unfolding claim_of generate_claim_id seconds wrap64 ◌+ℤ◌ new claim active_claims query query_loop
    filter_active_claims second_pass check_conflict collect_conflicts append append_all append_one
    text_eq
heartbeat_revives_example =
    heartbeat_revives sample_json no_glob (memory_provider sample_json no_glob) main_ns
      (λ p. p.messages main_ns) (WellNumbered main_ns) (memory-LogLaws sample_json no_glob main_ns)
      (pos 900000000000000) (pos 900000000000009) _ (claim_of seven (pos 1000) alice_writes)
      after_alice.1 alice-WellNumbered (omega arith) alice-IsHeld refl (omega arith) (omega arith)
