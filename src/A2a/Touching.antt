-- ===== src/A2a/Touching.antt =====
-- Changes of the table of tasks under one id (internal/memory/memory.go).
use hearsay.Base.{
  ◌≡◌, refl, sym, ◌∙◌, ◌≢◌, inl, inr, false, List, [], ◌∷◌, ◌++◌, Option, some, Bool-cases,
}
use hearsay.Base.Text.{Text, codes, text_eq, text_eq_refl, eq_of_text_eq}
use hearsay.Provider.{A2aTask}
use hearsay.Memory.{Provider, update, is_some, task_key}
use hearsay.Memory.Tasks.{update_task}

tail_eq {ℓ} : {A : Type ℓ} (x y : A) (xs ys : List A) → Path (List A) (x ∷ xs) (y ∷ ys) → xs ≡ ys
tail_eq x y xs ys e = cc

append_cancel : (xs a b : Text) → xs ++ a ≡ xs ++ b → a ≡ b
append_cancel [] a b e = e
append_cancel (x ∷ xs) a b e = append_cancel xs a b (tail_eq x x (xs ++ a) (xs ++ b) e)

-- Two ids have two keys in one namespace.
task_key_inj : (ns a b : Text) → task_key ns a ≡ task_key ns b → a ≡ b
task_key_inj ns a b e =
    append_cancel (codes "/") a b (append_cancel ns (codes "/" ++ a) (codes "/" ++ b) e)

other_key : (ns a b : Text) → a ≢ b → text_eq (task_key ns a) (task_key ns b) ≡ false
other_key ns a b n = elim (Bool-cases (text_eq (task_key ns a) (task_key ns b))) [
  | inl e ↦ absurd (n (task_key_inj ns a b (eq_of_text_eq _ _ e)))
  | inr e ↦ e
]

abbrev pub Table : Type 0 → Type 0
Table Payload = Text → Option (A2aTask Payload)

module _ {Payload : Type 0} (ns : Text) where
  -- Every task is stored under its own id.
  abbrev pub IsKeyed : Table Payload → Type 0
  IsKeyed f = (id : Text) (st : A2aTask Payload) → f (task_key ns id) ≡ some st → st.id ≡ id

  -- From one table to the next, nothing changes but what is stored under one id.
  pub record Touches (id : Text) (f g : Table Payload) : Type 0 where
    pub others : (j : Text) → id ≢ j → g (task_key ns j) ≡ f (task_key ns j)
    pub keyed : (st : A2aTask Payload) → g (task_key ns id) ≡ some st → st.id ≡ id

  pub Touches-IsKeyed : (id : Text) (f g : Table Payload) → Touches id f g → IsKeyed f → IsKeyed g
  Touches-IsKeyed id f g h k j st e = elim (Bool-cases (text_eq id j)) [
    | inl q ↦ h.keyed st (rw (eq_of_text_eq id j q) e) ∙ eq_of_text_eq id j q
    | inr q ↦ k j st (sym (h.others j (λ s. cc (text_eq_refl j))) ∙ e)
  ]

  pub Touches-trans :
      (id : Text) (f g h : Table Payload) → Touches id f g → Touches id g h → Touches id f h
  Touches-trans id f g h a b = record {
    others = λ j n. b.others j n ∙ a.others j n;
    keyed = b.keyed;
  }

  pub Touches-refl : (id : Text) (f : Table Payload) → IsKeyed f → Touches id f f
  Touches-refl id f k = record { others = λ j n. refl; keyed = k id }

  update_task-Touches :
      (id : Text) (task : A2aTask Payload) (p : Provider Payload)
      → task.id ≡ id
      → IsKeyed p.a2a_tasks
      → Touches id p.a2a_tasks (update_task ns task p).1.a2a_tasks
  unfolding update_task
  update_task-Touches id task p same k =
      elim (Bool-cases (is_some (p.a2a_tasks (task_key ns task.id)))) [
        | inr e ↦ rw e (Touches-refl id p.a2a_tasks k)
        | inl e ↦ rw e (record {
          others = λ j n. rw (same, other_key ns id j n) refl;
          keyed = λ st q. cc (text_eq_refl (task_key ns id));
        })
      ]

  pub update_task-Touches_from :
      (id : Text) (task : A2aTask Payload) (p : Provider Payload) (f : Table Payload)
      → task.id ≡ id
      → p.a2a_tasks ≡ f
      → IsKeyed f
      → Touches id f (update_task ns task p).1.a2a_tasks
  update_task-Touches_from id task p f same e k =
      rw (← e) (update_task-Touches id task p same (rw e k))

  pub put-Touches :
      (task : A2aTask Payload) (f : Table Payload)
      → Touches task.id f (update (task_key ns task.id) (some task) f)
  put-Touches task f = record {
    others = λ j n. rw (other_key ns task.id j n) refl;
    keyed = λ st q. cc (text_eq_refl (task_key ns task.id));
  }
