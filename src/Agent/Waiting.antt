-- ===== src/Agent/Waiting.antt =====
-- What `#findPendingApproval` finds.
use bee_agent.Prelude.{
  ◌≡◌, refl, sym, ap, ◌∙◌, Bool, true, false, Option, none, some, or_else, if◌then◌else◌, List, [],
  ◌∷◌, arith, Bool-cases, ◌⊎◌, inl, inr, subst,
}
use bee_agent.Prelude.Units.{Text, same_text, same_text-eq}
use mathlib.Core.List.{Mem, mem-cons_of_mem, mem-cons_self}
use bee_agent.Thread.{
  ApprovalItemPayload, ApprovalStatus, Item, ItemPayload, ThreadBody, ThreadEvent,
  ToolCallItemPayload, approval, item_started, tool_call,
}
use bee_agent.Agent.Approval.{
  PendingApproval, ToolItem, active_tool_item, asked, call_of, find_pending_approval, first_pending,
  is_completed, kept_call, kept_item, pending_in, pending_item, waits_for,
}

later_cases {ℓ} :
    {A : Type ℓ} (o before : Option A) (a : A)
    → elim o [ none ↦ before | some found ↦ some found ] ≡ some a
    → (o ≡ some a) ⊎ (before ≡ some a)
later_cases none before a h = inr h
later_cases (some found) before a h = inl h

unless_cases {ℓ} :
    {A : Type ℓ} (b : Bool) (o : Option A) (a : A)
    → (if b then none else o) ≡ some a
    → (b ≡ false) × (o ≡ some a)
unless_cases true o a h = cc
unless_cases false o a h = (refl, h)

module _ (events : List ThreadEvent) where
  -- An item that an event starts, and none completes.
  pub record IsOpen (item : Item) : Type 0 where
    pub event : ThreadEvent
    pub is_event : Mem event events
    pub starts_item : event.body ≡ item_started item
    pub not_completed : is_completed item.id events ≡ false

  -- The call that a kept tool item has.
  pub record IsCall (call_id : Text) (found : ToolItem) : Type 0 where
    pub is_open : IsOpen found.item
    pub is_tool_call : found.item.payload ≡ tool_call found.payload
    pub same_call : found.payload.call_id ≡ call_id

  kept_call-IsCall :
      (call_id : Text) (item : Item) (payload : ItemPayload) (found : ToolItem)
      → kept_call events call_id item payload ≡ some found
      → (item ≡ found.item)
        × (payload ≡ tool_call found.payload)
        × (is_completed item.id events ≡ false)
        × (found.payload.call_id ≡ call_id)
  kept_call-IsCall call_id item (tool_call p) found h =
      elim (Bool-cases (is_completed item.id events)) [
        | inl c ↦ ground arith
        | inr c ↦ elim (Bool-cases (same_text p.call_id call_id)) [
          | inl s ↦
              let t = same_text-eq p.call_id call_id s in
              let f : record { item = item; payload = p } ≡ found = ground arith in
              (
                ap (λ (r : ToolItem). r.item) f,
                ap (λ (r : ToolItem). tool_call r.payload) f,
                c,
                ap (λ (r : ToolItem). r.payload.call_id) (sym f) ∙ t,
              )
          | inr s ↦ ground arith
        ]
      ]
  kept_call-IsCall call_id item _ found h = cc

  kept_item-IsCall :
      (call_id : Text) (event : ThreadEvent) (body : ThreadBody) (found : ToolItem)
      → Mem event events
      → event.body ≡ body
      → kept_item events call_id body ≡ some found
      → IsCall call_id found
  kept_item-IsCall call_id event (item_started item) found m b h =
      let (i, p, c, t) = kept_call-IsCall call_id item item.payload found h in
      record {
        is_open = record {
          event = event;
          is_event = m;
          starts_item = b ∙ ap item_started i;
          not_completed = ap (λ (r : Item). is_completed r.id events) (sym i) ∙ c;
        };
        is_tool_call = ap (λ (r : Item). r.payload) (sym i) ∙ p;
        same_call = t;
      }
  kept_item-IsCall call_id event _ found m b h = cc

  active_tool_item-IsCall :
      (call_id : Text) (rest : List ThreadEvent) (before : Option ToolItem) (found : ToolItem)
      → ((event : ThreadEvent) → Mem event rest → Mem event events)
      → ((found : ToolItem) → before ≡ some found → IsCall call_id found)
      → active_tool_item events call_id rest before ≡ some found
      → IsCall call_id found
  unfolding active_tool_item
  active_tool_item-IsCall call_id [] before found inside held h = held found h
  active_tool_item-IsCall call_id (event ∷ rest) before found inside held h =
      active_tool_item-IsCall call_id rest _ found (λ e m. inside e (mem-cons_of_mem event m))
        (λ f e. elim (later_cases (kept_item events call_id event.body) before f e) [
          | inl k ↦ kept_item-IsCall call_id event event.body f (inside event mem-cons_self) refl k
          | inr b ↦ held f b
        ])
        h

  -- What a suspended turn waits for: an approval that was started as pending and is not completed,
  -- of a call whose tool item was started and is not completed.
  pub record IsWaiting (a : PendingApproval) : Type 0 where
    pub asks : ApprovalItemPayload
    pub payload : ToolCallItemPayload
    pub approval_open : IsOpen a.approval_item
    pub is_approval : a.approval_item.payload ≡ approval asks
    pub is_pending : asks.status ≡ ApprovalStatus.pending
    pub of_call : asks.call_id ≡ some payload.call_id
    pub tool_open : IsOpen a.tool_item
    pub is_tool_call : a.tool_item.payload ≡ tool_call payload
    pub same_call : a.call ≡ call_of payload
    pub same_title : a.title ≡ asks.title

  waiting :
      (item : Item) (p : ApprovalItemPayload) (f : ToolItem) (a : PendingApproval)
      → waits_for events item p (some f) ≡ some a
      → record {
        approval_id = or_else p.approval_id item.id;
        title = p.title;
        call = call_of f.payload;
        tool_item = f.item;
        approval_item = item;
      }
        ≡ a
  waiting item p f a h = ground arith

  waits_for-IsWaiting :
      (item : Item) (p : ApprovalItemPayload) (call_id : Text) (found : Option ToolItem)
      (a : PendingApproval)
      → IsOpen item
      → item.payload ≡ approval p
      → p.status ≡ ApprovalStatus.pending
      → p.call_id ≡ some call_id
      → ((f : ToolItem) → found ≡ some f → IsCall call_id f)
      → waits_for events item p found ≡ some a
      → IsWaiting a
  waits_for-IsWaiting item p call_id none a o ip ps pc found h = cc
  waits_for-IsWaiting item p call_id (some f) a o ip ps pc found h =
      let call = found f refl in
      subst IsWaiting (waiting item p f a h) (record {
        asks = p;
        payload = f.payload;
        approval_open = o;
        is_approval = ip;
        is_pending = ps;
        of_call = pc ∙ ap some (sym call.same_call);
        tool_open = call.is_open;
        is_tool_call = call.is_tool_call;
        same_call = refl;
        same_title = refl;
      })

  asked-IsWaiting :
      (item : Item) (p : ApprovalItemPayload) (status : ApprovalStatus) (call_id : Option Text)
      (a : PendingApproval)
      → IsOpen item
      → item.payload ≡ approval p
      → p.status ≡ status
      → p.call_id ≡ call_id
      → asked events item p status call_id ≡ some a
      → IsWaiting a
  asked-IsWaiting item p ApprovalStatus.pending (some call_id) a o ip ps pc h =
      waits_for-IsWaiting item p call_id (active_tool_item events call_id events none) a o ip ps pc
        (λ f e. active_tool_item-IsCall call_id events none f (λ e m. m) (λ f b. cc) e) h
  asked-IsWaiting item p ApprovalStatus.pending none a o ip ps pc h = cc
  asked-IsWaiting item p ApprovalStatus.approved call_id a o ip ps pc h = cc
  asked-IsWaiting item p ApprovalStatus.rejected call_id a o ip ps pc h = cc

  pending_item-IsWaiting :
      (event : ThreadEvent) (item : Item) (payload : ItemPayload) (a : PendingApproval)
      → Mem event events
      → event.body ≡ item_started item
      → item.payload ≡ payload
      → pending_item events item payload ≡ some a
      → IsWaiting a
  pending_item-IsWaiting event item (approval p) a m b ip h =
      let (c, asks) =
        unless_cases (is_completed item.id events) (asked events item p p.status p.call_id) a h in
      asked-IsWaiting item p p.status p.call_id a
        (record { event = event; is_event = m; starts_item = b; not_completed = c }) ip refl refl
        asks
  pending_item-IsWaiting event item _ a m b ip h = cc

  pending_in-IsWaiting :
      (event : ThreadEvent) (body : ThreadBody) (a : PendingApproval)
      → Mem event events
      → event.body ≡ body
      → pending_in events body ≡ some a
      → IsWaiting a
  pending_in-IsWaiting event (item_started item) a m b h =
      pending_item-IsWaiting event item item.payload a m b refl h
  pending_in-IsWaiting event _ a m b h = cc

  first_pending-IsWaiting :
      (rest : List ThreadEvent) (a : PendingApproval)
      → ((event : ThreadEvent) → Mem event rest → Mem event events)
      → first_pending events rest ≡ some a
      → IsWaiting a
  unfolding first_pending active_tool_item
  first_pending-IsWaiting [] a inside h = cc
  first_pending-IsWaiting (event ∷ rest) a inside h =
      elim (later_cases (pending_in events event.body) (first_pending events rest) a h) [
        | inl found ↦
            pending_in-IsWaiting event event.body a (inside event mem-cons_self) refl found
        | inr later ↦
            first_pending-IsWaiting rest a (λ e m. inside e (mem-cons_of_mem event m)) later
      ]

-- A pending approval that is found asks for a call: it was started as pending, no event completes
-- it, and the tool item of the call was started and is not completed either.
pub find_pending_approval-IsWaiting :
    (events : List ThreadEvent) (a : PendingApproval)
    → find_pending_approval events ≡ some a
    → IsWaiting events a
unfolding find_pending_approval
find_pending_approval-IsWaiting events a h = first_pending-IsWaiting events events a (λ e m. m) h
