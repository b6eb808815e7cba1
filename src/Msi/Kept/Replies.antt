-- ===== src/Msi/Kept/Replies.antt =====
-- `processDRAMReply` and `processInvRepFromL2Cache` of
-- core/memory_subsystem/pr_l1_pr_l2_dram_directory_msi/dram_directory_cntlr.cc.
use snipersimcommon.Base.{
  ℕ, ◌≤◌, ◌≡◌, refl, sym, ap, subst, ◌∙◌, Bool, true, false, not, ◌&&◌, none, List, [], ◌∷◌, length,
  ◌==◌, if◌then◌else◌, Bool-cases, inl, inr, arith,
}
use snipersimcommon.Directory.Entry.{
  Entry, DState, shared, exclusive, get_num_sharers, set_forwarder,
}
use snipersimcommon.Run.{
  Run, Ensures, returns, aborts, Ensures-bind, Ensures-map, Ensures-from, Ensures-check,
}
use snipersimcommon.Msi.Message.{
  MsgType, ShmemMsg, ShmemReq, ex_req, sh_req, upgrade_req, is_forwarding,
}
use snipersimcommon.Msi.Slots.{Slot, Place}
use snipersimcommon.Msi.State.{Setup, State, front, front_of, reply}
use snipersimcommon.Msi.Requests.{Next, requester, address}
use snipersimcommon.Msi.Replies.{
  dram_reply_type, process_dram_reply, when, is_uncached, upgrade_inv, sh_inv, inv_wakes, inv_queue,
  settle, invalidated, process_inv_rep,
}
use snipersimcommon.Msi.Coherent.{
  Coherent, Removed, remove_sharer-Removed, uncached-Coherent, Coherent-Removed,
}
use snipersimcommon.Msi.Kept.Account.{
  is_answer, is_request, Sound, Kept, nothing_paid, Quiet-refl, Quiet-trans, Quiet-Kept,
  Kept-of_Quiet,
}
use snipersimcommon.Msi.Kept.Queues.{front_address}
use snipersimcommon.Msi.Kept.Serving.{
  Serves, Front, Front-Quiet, answered-Kept, existing_lem, update_entry-Quiet, process_nullify-Kept,
}
use snipersimcommon.Msi.Kept.Requests.{process_ex-Kept, process_sh-Kept}
use snipersimcommon.Msi.Kept.Upgrade.{process_upgrade-Kept}

dram_reply_type_lem :
    (t : MsgType) (d : DState)
    → Ensures (λ r. (is_answer r ≡ true) × (is_request t ≡ true)) (dram_reply_type t d)
unfolding dram_reply_type
dram_reply_type_lem sh_req shared = returns (refl, refl)
dram_reply_type_lem sh_req exclusive = returns (refl, refl)
dram_reply_type_lem sh_req _ = aborts
dram_reply_type_lem ex_req d = Ensures-check (λ _. returns (refl, refl))
dram_reply_type_lem upgrade_req d = returns (refl, refl)
dram_reply_type_lem _ d = aborts

abbrev Behind : State → ℕ → ShmemReq → Type 0
Behind s x req = (reqs : List ShmemReq) × (s.queues x ≡ req ∷ reqs)

front_lem : (s : State) (x : ℕ) → Ensures (Behind s x) (front s x)
unfolding front
front_lem s x = of_list (s.queues x) refl
  where
    of_list : (reqs : List ShmemReq) → s.queues x ≡ reqs → Ensures (Behind s x) (front_of reqs)
    of_list [] e = aborts
    of_list (req ∷ reqs) e = returns (reqs, e)

-- The request at the front of the queue of an address, with room for those behind it.
pub Front-of_queue :
    {n : ℕ} {s : State} {x : ℕ} {req : ShmemReq} {reqs : List ShmemReq}
    → Sound s
    → s.queues x ≡ req ∷ reqs
    → length (s.queues x) ≤ n
    → Front n s req × (address req ≡ x)
Front-of_queue {n} {s} {x} {req} {reqs} v e short =
    let here = (front_address v e).0 in
    let all : length (req ∷ reqs) ≤ n = subst (λ l. length l ≤ n) e short in
    (record { sound = v; reqs = reqs; queue = ap s.queues here ∙ e; short = omega arith }, here)

pub process_dram_reply-Kept :
    (p : Setup) {n : ℕ} {next : Next} {s : State}
    → Serves n next
    → Sound s
    → (msg : ShmemMsg) → length (s.queues msg.address) ≤ n
    → Ensures (Kept msg.address nothing_paid s) (process_dram_reply p next s msg)
unfolding process_dram_reply
process_dram_reply-Kept p {n} {next} {s} serves v msg short = Ensures-check (λ _.
    Ensures-bind (front_lem s msg.address) (λ req behind.
      Ensures-bind (existing_lem p v msg.address) (λ found q.
        Ensures-bind (dram_reply_type_lem _ _) (λ msg_type types. Ensures-check (λ _.
          let (f, here) = Front-of_queue {n = n} v behind.1 short in
          Ensures-map
            (subst
              (λ y.
                Ensures (Kept y nothing_paid found.0)
                  (next (reply msg_type (requester req) y msg.data_buf found.0) y))
              here (answered-Kept serves (Front-Quiet f q.0) types.1 msg_type msg.data_buf types.0))
            (λ t k. Quiet-Kept q.0 k))))))

pub when_lem :
    {Q : State → Type 0} (b : Bool) {m : Run State} {s : State}
    → Ensures Q m
    → Q s
    → Ensures Q (when b m s)
when_lem true ends stays = ends
when_lem false ends stays = returns stays

pub if_either {ℓ} :
    {A : Type ℓ} (P : A → Type 0) (b : Bool) {x y : A} → P x → P y → P (if b then x else y)
if_either P true p q = p
if_either P false p q = q

-- A removed sharer leaves a coherent entry once the state is settled.
pub settle-Coherent : (e r : Entry) → Coherent e → Removed e r → Coherent (settle r)
unfolding settle
settle-Coherent e r c rem = elim (Bool-cases (get_num_sharers r == 0)) [
  | inl none_left ↦ simp none_left (uncached-Coherent r (ground arith))
  | inr some_left ↦ simp some_left (Coherent-Removed e r c rem (ground arith))
]

pub Removed-set_forwarder :
    (e r : Entry) (core : ℕ) → Removed e r → Removed e (set_forwarder r core)
unfolding set_forwarder get_num_sharers
Removed-set_forwarder e r core rem = record { less = rem.less; dstate = rem.dstate }

invalidated-Coherent :
    (sender : ℕ) (e r : Entry) → Coherent e → Removed e r → Coherent (invalidated sender r)
unfolding invalidated
invalidated-Coherent sender e r c rem =
    settle-Coherent e _ c
      (if_either (Removed e) (r.forwarder == sender) (Removed-set_forwarder e r _ rem) rem)

upgrade_inv-Kept :
    (p : Setup) {n : ℕ} {next : Next} {s : State} {req : ShmemReq}
    → Serves n next
    → Front n s req
    → is_request req.shmem_msg.msg_type ≡ true
    → (e : Entry) (place : Place) (slot : Slot)
    → Ensures (Kept (address req) nothing_paid s) (upgrade_inv p next req s e place slot)
unfolding upgrade_inv
upgrade_inv-Kept p {req = req} serves f request e place slot =
    let stays = Kept-of_Quiet (address req) (Quiet-refl f.sound) in
    elim (Bool-cases (get_num_sharers e == 1)) [
      | inl one ↦ rw one (
          Ensures-bind (Ensures-from _)
            (λ there _. when_lem there (process_upgrade-Kept p serves f request none) stays))
      | inr several ↦ elim (Bool-cases (get_num_sharers e == 0)) [
        | inl no_copy ↦
            let q = update_entry-Quiet f.sound place slot _ (uncached-Coherent e (ground arith)) in
            rw (several, no_copy)
              (Ensures-map (process_upgrade-Kept p serves (Front-Quiet f q) request none)
                (λ t k. Quiet-Kept q k))
        | inr copies ↦ rw (several, copies) (returns stays)
      ]
    ]

sh_inv-Kept :
    (p : Setup) {n : ℕ} {next : Next} {s : State} {req : ShmemReq}
    → Serves n next
    → Front n s req
    → is_request req.shmem_msg.msg_type ≡ true
    → (sender : ℕ) → Ensures (Kept (address req) nothing_paid s) (sh_inv p next sender req s)
unfolding sh_inv
sh_inv-Kept p {s = s} {req} serves f request sender =
    let stays = returns (Kept-of_Quiet (address req) (Quiet-refl f.sound)) in
    if_either (Ensures (Kept (address req) nothing_paid s)) req.wait_for_data stays (
      if_either (Ensures (Kept (address req) nothing_paid s))
        (is_forwarding req && not (sender == req.forwarding_from)) stays
        (process_sh-Kept p serves f request none))

inv_wakes-Kept :
    (p : Setup) {n : ℕ} {next : Next} {s : State} {req : ShmemReq}
    → Serves n next
    → Front n s req
    → (sender : ℕ) (e : Entry) (place : Place) (slot : Slot) (t : MsgType)
    → req.shmem_msg.msg_type ≡ t
    → Ensures (Kept (address req) nothing_paid s) (inv_wakes p next sender req s e place slot t)
unfolding inv_wakes
inv_wakes-Kept p {req = req} serves f sender e place slot ex_req same =
    when_lem (is_uncached e.dstate) (process_ex-Kept p serves f (ap is_request same) none)
      (Kept-of_Quiet (address req) (Quiet-refl f.sound))
inv_wakes-Kept p serves f sender e place slot upgrade_req same =
    upgrade_inv-Kept p serves f (ap is_request same) e place slot
inv_wakes-Kept p serves f sender e place slot sh_req same =
    sh_inv-Kept p serves f (ap is_request same) sender
inv_wakes-Kept p {req = req} serves f sender e place slot other same =
    when_lem (is_uncached e.dstate) (process_nullify-Kept p serves f (ap is_request same))
      (Kept-of_Quiet (address req) (Quiet-refl f.sound))

inv_queue-Kept :
    (p : Setup) {n : ℕ} {next : Next} {s : State} (x : ℕ)
    → Serves n next
    → Sound s
    → length (s.queues x) ≤ n
    → (sender : ℕ) (e : Entry) (place : Place) (slot : Slot) (reqs : List ShmemReq)
    → s.queues x ≡ reqs
    → Ensures (Kept x nothing_paid s) (inv_queue p next sender s e place slot reqs)
unfolding inv_queue
inv_queue-Kept p x serves v short sender e place slot [] same =
    returns (Kept-of_Quiet x (Quiet-refl v))
inv_queue-Kept p {n} {next} {s} x serves v short sender e place slot (req ∷ reqs) same =
    let (f, here) = Front-of_queue {n = n} v same short in
    subst
      (λ y.
        Ensures (Kept y nothing_paid s)
          (inv_wakes p next sender req s e place slot req.shmem_msg.msg_type))
      here (inv_wakes-Kept p serves f sender e place slot req.shmem_msg.msg_type refl)

pub process_inv_rep-Kept :
    (p : Setup) {n : ℕ} {next : Next} {s : State}
    → Serves n next
    → Sound s
    → (sender : ℕ) (msg : ShmemMsg) → length (s.queues msg.address) ≤ n
    → Ensures (Kept msg.address nothing_paid s) (process_inv_rep p next s sender msg)
unfolding process_inv_rep
process_inv_rep-Kept p {n} {s = s} serves v sender msg short =
    Ensures-bind (existing_lem p v msg.address) (λ found q. Ensures-check (λ _.
      Ensures-bind (remove_sharer-Removed found.2.entry sender) (λ removed rem.
        let r =
          update_entry-Quiet q.0.sound found.1 found.2 _
            (invalidated-Coherent sender found.2.entry removed q.1 rem) in
        let all = Quiet-trans q.0 r in
        Ensures-map
          (inv_queue-Kept p msg.address serves all.sound
            (subst (λ l. length l ≤ n) (sym (ap (λ z. z msg.address) all.queues)) short) sender _
            found.1 found.2 _ refl)
          (λ t k. Quiet-Kept all k))))
