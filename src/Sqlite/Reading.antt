-- ===== src/Sqlite/Reading.antt =====
-- Queries of the SQLite provider return what those of the in-memory provider return
-- (internal/sqlite/sqlite.go, internal/memory/memory.go).
use hearsay.Base.{
  ℕ, zero, suc, ◌+◌, ◌≡◌, refl, sym, ap, ◌∙◌, Bool, true, false, not, ◌&&◌, ◌||◌, List, [], ◌∷◌,
  All, map, filter, take, arith, inl, inr, Bool-cases, is_empty, if◌then◌else◌,
}
use hearsay.Base.Int.{ℤ, pos, negsuc, ltb_ℤ, ◌≤ℤ◌}
use hearsay.Base.Text.{Text, text_eq}
use hearsay.Provider.{QueryOpts, ok, err, provider_failure}
use hearsay.Memory.{Provider}
use hearsay.Memory.Log as Memory_log
use hearsay.Memory.Log.{is_skipped, contains_type}
use hearsay.Memory.Numbering.{IsNumbered}
use hearsay.Memory.Queries.{limited, query-filter}
use hearsay.Sql.{order_by, limit_rows}
use hearsay.Sql.Laws.{IsAscending, order_by-IsAscending}
use hearsay.Sqlite.{Row, Tables}
use hearsay.Sqlite.Log.{is_in, rows_in, is_selected, message_of, query}
use hearsay.Sqlite.Refining.{Holds}

module _ {A : Type 0} where
  filter-and : (p q : A → Bool) (xs : List A) → filter (λ x. p x && q x) xs ≡ filter q (filter p xs)
  filter-and p q [] = refl
  filter-and p q (x ∷ xs) = elim (Bool-cases (p x)) [
    | inl e ↦ rw e (ap (λ (l : List A). if q x then x ∷ l else l) (filter-and p q xs))
    | inr e ↦ rw e (filter-and p q xs)
  ]

  filter_same : (p q : A → Bool) (xs : List A) → ((x : A) → p x ≡ q x) → filter p xs ≡ filter q xs
  filter_same p q [] h = refl
  filter_same p q (x ∷ xs) h = rw (h x, filter_same p q xs h) refl

  filter-All_of : (P : A → Type 0) (p : A → Bool) (xs : List A) → All P xs → All P (filter p xs)
  filter-All_of P p [] h = tt
  filter-All_of P p (x ∷ xs) h = elim (Bool-cases (p x)) [
    | inl e ↦ rw e (h.0, filter-All_of P p xs h.1)
    | inr e ↦ rw e (filter-All_of P p xs h.1)
  ]

  filter-IsAscending :
      (key : A → ℤ) (p : A → Bool) (xs : List A)
      → IsAscending key xs
      → IsAscending key (filter p xs)
  filter-IsAscending key p [] h = tt
  filter-IsAscending key p (x ∷ xs) h = elim (Bool-cases (p x)) [
    | inl e ↦ rw e (filter-All_of (λ y. key x ≤ℤ key y) p xs h.0, filter-IsAscending key p xs h.1)
    | inr e ↦ rw e (filter-IsAscending key p xs h.1)
  ]

map-take : {A B : Type 0} (f : A → B) (n : ℕ) (xs : List A) → map f (take n xs) ≡ take n (map f xs)
map-take f zero xs = refl
map-take f (suc n) [] = refl
map-take {B = B} f (suc n) (x ∷ xs) = ap (λ (l : List B). f x ∷ l) (map-take f n xs)

map-filter :
    {A B : Type 0} (f : A → B) (p : B → Bool) (xs : List A)
    → map f (filter (λ x. p (f x)) xs) ≡ filter p (map f xs)
map-filter f p [] = refl
map-filter {B = B} f p (x ∷ xs) = elim (Bool-cases (p (f x))) [
  | inl e ↦ rw e (ap (λ (l : List B). f x ∷ l) (map-filter f p xs))
  | inr e ↦ rw e (map-filter f p xs)
]

positive_limit : (l : ℕ) → ltb_ℤ (pos 0) (pos (suc l)) ≡ true
positive_limit l = ground arith

negative_limit : (l : ℕ) → ltb_ℤ (pos 0) (negsuc l) ≡ false
negative_limit l = ground arith

plus_suc : (k j : ℕ) → suc (k + suc j) ≡ suc (suc (k + j))
plus_suc k j = omega arith

plus_zero : (k : ℕ) → suc (k + 0) ≡ suc k
plus_zero k = omega arith

later_number : (a b : ℤ) (k j : ℕ) → a ≡ pos (suc k) → b ≡ pos (suc (suc (k + j))) → a ≤ℤ b
later_number a b k j e f = rw (e, f) (omega arith)

module _ {Payload : Type 0} where
  All-later :
      (ns : Text) (o : ℤ) (k j : ℕ) (rows : List (Row Payload))
      → o ≡ pos (suc k)
      → IsNumbered (suc (k + j)) (map (message_of ns) rows)
      → All (λ (r : Row Payload). o ≤ℤ r.offset) rows
  unfolding message_of
  All-later ns o k j [] e h = tt
  All-later ns o k j (r ∷ rows) e h =
      (later_number o r.offset k j e h.0, All-later ns o k (suc j) rows e (rw (plus_suc k j) h.1))

  numbered-IsAscending :
      (ns : Text) (k : ℕ) (rows : List (Row Payload))
      → IsNumbered k (map (message_of ns) rows)
      → IsAscending (λ (r : Row Payload). r.offset) rows
  unfolding message_of
  numbered-IsAscending ns k [] h = tt
  numbered-IsAscending ns k (r ∷ rows) h = (
    All-later ns r.offset k 0 rows h.0 (rw (plus_zero k) h.1),
    numbered-IsAscending ns (suc k) rows h.1,
  )

  -- What is left of the conditions of a query inside a namespace.
  abbrev is_wanted : QueryOpts → Row Payload → Bool
  is_wanted opts r =
      ltb_ℤ opts.since r.offset
      && (is_empty opts.types || contains_type opts.types r.type)
      && (text_eq opts.agent_id [] || text_eq r.agent_id opts.agent_id)

  is_selected_parts :
      (ns : Text) (opts : QueryOpts) (r : Row Payload)
      → is_selected ns opts r ≡ (is_in ns r && is_wanted opts r)
  unfolding is_selected
  is_selected_parts ns opts r = ground arith

  is_wanted-is_skipped :
      (ns : Text) (opts : QueryOpts) (r : Row Payload)
      → is_wanted opts r ≡ not (is_skipped opts (message_of ns r))
  unfolding is_skipped message_of
  is_wanted-is_skipped ns opts r = ground arith

  limit_rows-limited :
      (ns : Text) (limit : ℤ) (rows : List (Row Payload))
      → map (message_of ns) (limit_rows limit rows) ≡ limited limit (map (message_of ns) rows)
  limit_rows-limited ns (pos zero) rows = refl
  limit_rows-limited ns (pos (suc l)) rows =
      rw (positive_limit l) (map-take (message_of ns) (suc l) rows)
  limit_rows-limited ns (negsuc l) rows = rw (negative_limit l) refl

  -- Where the tables hold the log of the in-memory provider, and the engine does not refuse the
  -- statement, every query returns what it returns there, in the same order.
  pub query-Holds :
      (refuses : ℕ → Bool) (ns : Text) (opts : QueryOpts) (t : Tables Payload)
      (p : Provider Payload)
      → refuses 0 ≡ false
      → Holds ns t p
      → query refuses ns opts t ≡ Memory_log.query ns opts p
  unfolding query
  query-Holds refuses ns opts t p works h =
      let kept : filter (is_selected ns opts) t.messages ≡ filter (is_wanted opts) (rows_in ns t) =
        filter_same (is_selected ns opts) (λ r. is_in ns r && is_wanted opts r) t.messages
          (is_selected_parts ns opts)
        ∙ filter-and (is_in ns) (is_wanted opts) t.messages in
      let ordered =
        order_by-IsAscending (λ (r : Row Payload). r.offset)
          (filter (is_wanted opts) (rows_in ns t))
          (filter-IsAscending (λ (r : Row Payload). r.offset) (is_wanted opts) (rows_in ns t)
            (numbered-IsAscending ns 0 (rows_in ns t) (rw h.log h.numbered.numbered))) in
      let read : map (message_of ns) (filter (is_wanted opts) (rows_in ns t))
          ≡ filter (λ m. not (is_skipped opts m)) (p.messages ns) =
        ap (map (message_of ns)) (
          filter_same (is_wanted opts) (λ r. not (is_skipped opts (message_of ns r))) (rows_in ns t)
            (is_wanted-is_skipped ns opts))
        ∙ map-filter (message_of ns) (λ m. not (is_skipped opts m)) (rows_in ns t)
        ∙ ap (filter (λ m. not (is_skipped opts m))) h.log in
      ap
        (λ b.
          if b
          then err provider_failure
          else ok (
              map (message_of ns) (
                limit_rows opts.limit (
                  order_by (λ (r : Row Payload). r.offset)
                    (filter (is_selected ns opts) t.messages)))))
        works
      ∙ ap ok (
          ap
            (λ (rows : List (Row Payload)).
              map (message_of ns)
                (limit_rows opts.limit (order_by (λ (r : Row Payload). r.offset) rows)))
            kept
          ∙ ap (λ (rows : List (Row Payload)). map (message_of ns) (limit_rows opts.limit rows))
              ordered
          ∙ limit_rows-limited ns opts.limit (filter (is_wanted opts) (rows_in ns t))
          ∙ ap (limited opts.limit) read)
      ∙ sym (query-filter ns opts p)
