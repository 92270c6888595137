-- ===== src/Active/FirstPass.antt =====
-- The two maps of the first pass of `FilterActiveClaims` (pkg/hearsay/activeclaims.go), one id at
-- a time.
use hearsay.Base.{◌≡◌, refl, false, List, [], ◌∷◌, Option, none, some, if◌then◌else◌, ◌∙◌, ◌≢◌, ap}
use hearsay.Base.Int.{ℤ, Time}
use hearsay.Base.Text.{Text, text_eq}
use hearsay.Provider.{Message, Json}
use hearsay.Active.{
  Index, earlier, later, release_id, heartbeat_id, names, set_released, set_heartbeat,
  index_message, first_pass,
}

nil_names : (k : Text) → k ≢ [] → text_eq [] k ≡ false
unfolding text_eq
nil_names [] h = absurd (h refl)
nil_names (c ∷ k) h = refl

released-set_released :
    (idx : Index) (id : Option Text) (o : ℤ) (k : Text)
    → k ≢ []
    → (set_released idx id o).released k
      ≡ (if names k id then earlier (idx.released k) o else idx.released k)
released-set_released idx none o k h = refl
released-set_released idx (some []) o k h = rw (nil_names k h)
released-set_released idx (some (c ∷ j)) o k h = refl

released-set_heartbeat :
    (idx : Index) (id : Option Text) (t : Time) (k : Text)
    → (set_heartbeat idx id t).released k ≡ idx.released k
released-set_heartbeat idx none t k = refl
released-set_heartbeat idx (some []) t k = refl
released-set_heartbeat idx (some (c ∷ j)) t k = refl

last_heartbeats-set_heartbeat :
    (idx : Index) (id : Option Text) (t : Time) (k : Text)
    → k ≢ []
    → (set_heartbeat idx id t).last_heartbeats k
      ≡ (if names k id then later (idx.last_heartbeats k) t else idx.last_heartbeats k)
last_heartbeats-set_heartbeat idx none t k h = refl
last_heartbeats-set_heartbeat idx (some []) t k h = rw (nil_names k h)
last_heartbeats-set_heartbeat idx (some (c ∷ j)) t k h = refl

last_heartbeats-set_released :
    (idx : Index) (id : Option Text) (o : ℤ) (k : Text)
    → (set_released idx id o).last_heartbeats k ≡ idx.last_heartbeats k
last_heartbeats-set_released idx none o k = refl
last_heartbeats-set_released idx (some []) o k = refl
last_heartbeats-set_released idx (some (c ∷ j)) o k = refl

module _ {Payload : Type 0} (json : Json Payload) (k : Text) where
  abbrev pub earliest_step : Option ℤ → Message Payload → Option ℤ
  earliest_step o m = if names k (release_id json m) then earlier o m.offset else o

  abbrev pub latest_step : Option Time → Message Payload → Option Time
  latest_step t m = if names k (heartbeat_id json m) then later t m.timestamp else t

  -- The entries for the one id `k`, by a loop of their own.
  unfoldable pub earliest : Option ℤ → List (Message Payload) → Option ℤ
  earliest o [] = o
  earliest o (m ∷ msgs) = earliest (earliest_step o m) msgs

  unfoldable pub latest : Option Time → List (Message Payload) → Option Time
  latest t [] = t
  latest t (m ∷ msgs) = latest (latest_step t m) msgs

  released-index_message :
      (idx : Index) (m : Message Payload)
      → k ≢ []
      → (index_message json idx m).released k ≡ earliest_step (idx.released k) m
  unfolding index_message
  released-index_message idx m h =
      released-set_heartbeat (set_released idx (release_id json m) m.offset) (heartbeat_id json m)
        m.timestamp k
      ∙ released-set_released idx (release_id json m) m.offset k h

  last_heartbeats-index_message :
      (idx : Index) (m : Message Payload)
      → k ≢ []
      → (index_message json idx m).last_heartbeats k ≡ latest_step (idx.last_heartbeats k) m
  unfolding index_message
  last_heartbeats-index_message idx m h = rw (
    last_heartbeats-set_heartbeat (set_released idx (release_id json m) m.offset)
        (heartbeat_id json m) m.timestamp k h,
    last_heartbeats-set_released idx (release_id json m) m.offset k,
  )

  pub released-first_pass :
      (idx : Index) (msgs : List (Message Payload))
      → k ≢ []
      → (first_pass json idx msgs).released k ≡ earliest (idx.released k) msgs
  unfolding first_pass earliest
  released-first_pass idx [] h = refl
  released-first_pass idx (m ∷ msgs) h =
      released-first_pass (index_message json idx m) msgs h
      ∙ ap (λ o. earliest o msgs) (released-index_message idx m h)

  pub last_heartbeats-first_pass :
      (idx : Index) (msgs : List (Message Payload))
      → k ≢ []
      → (first_pass json idx msgs).last_heartbeats k ≡ latest (idx.last_heartbeats k) msgs
  unfolding first_pass latest
  last_heartbeats-first_pass idx [] h = refl
  last_heartbeats-first_pass idx (m ∷ msgs) h =
      last_heartbeats-first_pass (index_message json idx m) msgs h
      ∙ ap (λ o. latest o msgs) (last_heartbeats-index_message idx m h)
