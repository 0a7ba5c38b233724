-- ===== src/Agent/Recorded.antt =====
-- What the live loop appends to the thread and pushes to its history, action by action.
use bee_agent.Prelude.{
  ℕ, ◌≡◌, refl, sym, ap, ◌∙◌, Bool, Option, none, some, List, [], ◌∷◌, ◌++◌, map, All,
}
use bee_agent.Prelude.Units.{Text}
use bee_agent.Context.Policy.{LlmMessage}
use bee_agent.Thread.{Item, MessageToolCall, ThreadBody, ThreadEvent, item_completed}
use bee_agent.Agent.{message_in, message_of, messages_from_events, push_optional}
use bee_agent.Agent.Approval.{ToolItem}
use bee_agent.Agent.Live.{
  ActionResult, complete_assistant_item, complete_tool_item, error_tool_item, set_flag, user_input,
}

-- How a call settles: with the result of the tool, or with an error.
pub data Outcome : Type 0 where
  completes : ToolItem → ActionResult → (now : ℕ) → Outcome
  errors : ToolItem → Text → (now : ℕ) → Outcome

abbrev pub settled : Outcome → Item × LlmMessage
settled (completes t result now) = complete_tool_item t result now
settled (errors t reason now) = error_tool_item t reason now

-- `asks`: the input of the user. `answers`: a generation. `dispatches`: a call alone. `batches`: calls in
-- parallel, whose items are appended as they complete (the first list) and whose messages are pushed
-- in model order (the second). `notes`: an event that adds no message.
pub data Action : Type 0 where
  asks : Item → Text → Action
  answers : Item → Text → List MessageToolCall → (now : ℕ) → Action
  dispatches : Outcome → Action
  batches : (completion model : List Outcome) → Action
  notes : (body : ThreadBody) → message_in body ≡ none → Action

abbrev completed : List Outcome → List ThreadBody
completed [] = []
completed (o ∷ os) = item_completed (settled o).0 ∷ completed os

abbrev pub recorded : List Action → List ThreadBody
recorded [] = []
recorded (asks item input ∷ actions) = item_completed (user_input item input).0 ∷ recorded actions
recorded (answers item content calls now ∷ actions) =
    item_completed (complete_assistant_item item content calls now).0 ∷ recorded actions
recorded (dispatches o ∷ actions) = item_completed (settled o).0 ∷ recorded actions
recorded (batches completion model ∷ actions) = completed completion ++ recorded actions
recorded (notes body _ ∷ actions) = body ∷ recorded actions

abbrev pub push_all : List Outcome → List LlmMessage → List LlmMessage
push_all [] rest = rest
push_all (o ∷ os) rest = (settled o).1 ∷ push_all os rest

abbrev pub pushed : List Action → List LlmMessage
pushed [] = []
pushed (asks item input ∷ actions) = (user_input item input).1 ∷ pushed actions
pushed (answers item content calls now ∷ actions) =
    (complete_assistant_item item content calls now).1 ∷ pushed actions
pushed (dispatches o ∷ actions) = (settled o).1 ∷ pushed actions
pushed (batches completion model ∷ actions) = push_all model (pushed actions)
pushed (notes body _ ∷ actions) = pushed actions

-- The messages of a list of payloads, wherever the events stand.
abbrev pub messages_of : List ThreadBody → List LlmMessage
messages_of [] = []
messages_of (body ∷ bodies) = push_optional (message_in body) (messages_of bodies)

pub messages_from_events-map :
    (events : List ThreadEvent)
    → messages_from_events events ≡ messages_of (map (λ (e : ThreadEvent). e.body) events)
unfolding messages_from_events
messages_from_events-map [] = refl
messages_from_events-map (event ∷ events) =
    ap (push_optional (message_in event.body)) (messages_from_events-map events)

pub push_optional-append :
    (m : Option LlmMessage) (xs ys : List LlmMessage)
    → push_optional m xs ++ ys ≡ push_optional m (xs ++ ys)
push_optional-append none xs ys = refl
push_optional-append (some m) xs ys = refl

pub messages_of-append :
    (xs ys : List ThreadBody) → messages_of (xs ++ ys) ≡ messages_of xs ++ messages_of ys
messages_of-append [] ys = refl
messages_of-append (x ∷ xs) ys =
    ap (push_optional (message_in x)) (messages_of-append xs ys)
    ∙ sym (push_optional-append (message_in x) (messages_of xs) (messages_of ys))

-- The item of a call has no error flag before the call settles.
abbrev pub Unflagged : Outcome → Type 0
Unflagged (completes t result now) = t.payload.is_error ≡ none
Unflagged (errors t reason now) = Unit

-- Every batch completed in model order, and no item had an error flag before its call settled.
abbrev pub Faithful : List Action → Type 0
Faithful [] = Unit
Faithful (asks item input ∷ actions) = Faithful actions
Faithful (answers item content calls now ∷ actions) = Faithful actions
Faithful (dispatches o ∷ actions) = Unflagged o × Faithful actions
Faithful (batches completion model ∷ actions) =
    (completion ≡ model) × All Unflagged model × Faithful actions
Faithful (notes body _ ∷ actions) = Faithful actions

unset : (flag old : Option Bool) → old ≡ none → set_flag flag old ≡ flag
unset none old h = h
unset (some flag) old h = refl

-- The message of the item is the message that is pushed.
message_of-settled :
    (o : Outcome) → Unflagged o → message_of (settled o).0.payload ≡ some (settled o).1
unfolding message_of complete_tool_item error_tool_item
message_of-settled (completes t result now) h = rw (unset result.is_error _ h) refl
message_of-settled (errors t reason now) h = refl

message_of-user_input :
    (item : Item) (input : Text)
    → message_of (user_input item input).0.payload ≡ some (user_input item input).1
unfolding message_of user_input
message_of-user_input item input = refl

message_of-complete_assistant_item :
    (item : Item) (content : Text) (calls : List MessageToolCall) (now : ℕ)
    → message_of (complete_assistant_item item content calls now).0.payload
      ≡ some (complete_assistant_item item content calls now).1
unfolding message_of complete_assistant_item
message_of-complete_assistant_item item content calls now = refl

-- A completed item whose message was pushed.
one_more :
    (item : Item) (m : LlmMessage) (bodies : List ThreadBody) (rest : List LlmMessage)
    → message_of item.payload ≡ some m
    → messages_of bodies ≡ rest
    → messages_of (item_completed item ∷ bodies) ≡ m ∷ rest
unfolding message_in
one_more item m bodies rest h e = rw (h, e) refl

push_all-messages :
    (os : List Outcome) (bodies : List ThreadBody)
    → All Unflagged os
    → messages_of (completed os ++ bodies) ≡ push_all os (messages_of bodies)
push_all-messages [] bodies h = refl
push_all-messages (o ∷ os) bodies h =
    one_more (settled o).0 (settled o).1 (completed os ++ bodies) _ (message_of-settled o h.0)
      (push_all-messages os bodies h.1)

-- Then the thread has the messages of the live history, in its order.
pub recorded-Faithful :
    (actions : List Action) → Faithful actions → messages_of (recorded actions) ≡ pushed actions
recorded-Faithful [] h = refl
recorded-Faithful (asks item input ∷ actions) h =
    one_more _ _ (recorded actions) _ (message_of-user_input item input)
      (recorded-Faithful actions h)
recorded-Faithful (answers item content calls now ∷ actions) h =
    one_more _ _ (recorded actions) _ (message_of-complete_assistant_item item content calls now)
      (recorded-Faithful actions h)
recorded-Faithful (dispatches o ∷ actions) h =
    one_more _ _ (recorded actions) _ (message_of-settled o h.0) (recorded-Faithful actions h.1)
recorded-Faithful (batches completion model ∷ actions) h = rw h.0 (
    push_all-messages model (recorded actions) h.1
    ∙ ap (push_all model) (recorded-Faithful actions h.2))
recorded-Faithful (notes body none_in ∷ actions) h = rw none_in (recorded-Faithful actions h)
