-- ===== src/Agent/Scanning.antt =====
-- The loops of `#rebuild` over parts of a thread.
use bee_agent.Prelude.{
  ℕ, ◌≡◌, refl, sym, ap, ◌∙◌, Bool, true, false, Option, none, some, List, [], ◌∷◌, ◌++◌, filter,
  All, Bool-cases, inl, inr,
}
use mathlib.Core.List.{append-nil}
use bee_agent.Chronicle.Rows.{filter-append}
use bee_agent.Thread.{ThreadBody, ThreadEvent, Turn, agent_checkpoint, turn_started}
use bee_agent.Agent.{
  message_in, push_optional, Commit, ended_in, find_turn, is_checkpoint, last_checkpoint,
  messages_from_events, started_in, commit_in,
}
use bee_agent.Agent.Recorded.{push_optional-append}

module _ {A : Type 0} (p : A → Bool) where
  pub filter_kept : (xs : List A) → All (λ x. p x ≡ true) xs → filter p xs ≡ xs
  filter_kept [] h = refl
  filter_kept (x ∷ xs) h = rw h.0 (ap (λ rest. x ∷ rest) (filter_kept xs h.1))

  pub filter_none : (xs : List A) → All (λ x. p x ≡ false) xs → filter p xs ≡ []
  filter_none [] h = refl
  filter_none (x ∷ xs) h = rw h.0 (filter_none xs h.1)

  pub keep_middle :
      (xs ys zs : List A)
      → All (λ x. p x ≡ false) xs
      → All (λ x. p x ≡ true) ys
      → filter p (xs ++ (ys ++ zs)) ≡ ys ++ filter p zs
  keep_middle xs ys zs hx hy =
      filter-append p xs (ys ++ zs)
      ∙ rw (filter_none xs hx, filter-append p ys zs, filter_kept ys hy) refl

  pub keep_first :
      (xs ys : List A)
      → All (λ x. p x ≡ true) xs
      → All (λ x. p x ≡ false) ys
      → filter p (xs ++ ys) ≡ xs
  keep_first xs ys hx hy =
      filter-append p xs ys ∙ rw (filter_kept xs hx, filter_none ys hy) (append-nil xs)

  pub All-filter : (P : A → Type 0) (xs : List A) → All P xs → All P (filter p xs)
  All-filter P [] h = tt
  All-filter P (x ∷ xs) h = elim (Bool-cases (p x)) [
    | inl e ↦ rw e (h.0, All-filter P xs h.1)
    | inr e ↦ rw e (All-filter P xs h.1)
  ]

module _ {A : Type 0} {P Q : A → Type 0} (f : (x : A) → P x → Q x) where
  pub All-map : (xs : List A) → All P xs → All Q xs
  All-map [] h = tt
  All-map (x ∷ xs) h = (f x h.0, All-map xs h.1)

pub messages-append :
    (xs ys : List ThreadEvent)
    → messages_from_events (xs ++ ys) ≡ messages_from_events xs ++ messages_from_events ys
unfolding messages_from_events
messages-append [] ys = refl
messages-append (x ∷ xs) ys =
    ap (push_optional (message_in x.body)) (messages-append xs ys)
    ∙ sym (
        push_optional-append (message_in x.body) (messages_from_events xs)
          (messages_from_events ys))

pub last_checkpoint-append :
    (xs ys : List ThreadEvent) (l : Option Commit)
    → last_checkpoint (xs ++ ys) l ≡ last_checkpoint ys (last_checkpoint xs l)
unfolding last_checkpoint
last_checkpoint-append [] ys l = refl
last_checkpoint-append (x ∷ xs) ys l = last_checkpoint-append xs ys _

no_commit :
    (n : ℕ) (body : ThreadBody) (l : Option Commit)
    → is_checkpoint body ≡ false
    → commit_in n body l ≡ l
no_commit n (agent_checkpoint _) l h = cc
no_commit n _ l h = refl

pub last_checkpoint_none :
    (xs : List ThreadEvent) (l : Option Commit)
    → All (λ e. is_checkpoint e.body ≡ false) xs
    → last_checkpoint xs l ≡ l
unfolding last_checkpoint
last_checkpoint_none [] l h = refl
last_checkpoint_none (x ∷ xs) l h =
    rw (no_commit x.sequence x.body l h.0) (last_checkpoint_none xs l h.1)

still_started :
    (body : ThreadBody) (turn : Turn) → (turn' : Turn) × (started_in body (some turn) ≡ some turn')
still_started (turn_started turn') turn = (turn', refl)
still_started _ turn = (turn, refl)

pub find_turn-some :
    (events : List ThreadEvent) (turn : Turn) (terminal : Option Turn)
    → (found : Turn) × (find_turn events (some turn) terminal ≡ some found)
unfolding find_turn
find_turn-some [] turn none = (turn, refl)
find_turn-some [] turn (some ended) = (ended, refl)
find_turn-some (event ∷ events) turn terminal =
    let (turn', e) = still_started event.body turn in
    rw e (find_turn-some events turn' (ended_in event.body terminal))
