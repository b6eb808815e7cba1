-- ===== src/Msi/Kept/Handlers.antt =====
-- `handleMsgFromL2Cache` and `handleMsgFromDRAM` of
-- core/memory_subsystem/pr_l1_pr_l2_dram_directory_msi/dram_directory_cntlr.cc.
use snipersimcommon.Base.{
  ℕ, ◌+◌, ◌<◌, ◌≤◌, ◌≡◌, ◌≢◌, refl, sym, ap, subst, ◌∙◌, true, false, ◌&&◌, none, List, [], ◌∷◌,
  ◌++◌, length, ◌==◌, Bool-cases, inl, inr, arith,
}
use snipersimcommon.Run.{Run, Ensures, returns, aborts, Ensures-bind, Ensures-map, Ensures-check}
use snipersimcommon.Msi.Message.{
  MsgType, ShmemMsg, ShmemReq, ex_req, sh_req, upgrade_req, inv_rep, flush_rep, wb_rep,
  dram_read_rep, create_req,
}
use snipersimcommon.Msi.State.{Setup, State, enqueue, size}
use snipersimcommon.Msi.Requests.{Next, address, process_ex, process_sh, process_upgrade}
use snipersimcommon.Msi.Replies.{
  start, handle, handle_msg_from_l2_cache, handle_dram, handle_msg_from_dram,
}
use snipersimcommon.Msi.Kept.Cache.{get_directory_entry-SoundCache}
use snipersimcommon.Msi.Kept.Account.{
  is_request, one_if, due, account, Sound, Kept, nothing_paid, Quiet, Kept-of_Quiet, cache-Quiet,
}
use snipersimcommon.Msi.Kept.Queues.{put_queue_at, put_queue_other, enqueue_lem}
use snipersimcommon.Msi.Kept.Serving.{Serves, Front}
use snipersimcommon.Msi.Kept.Requests.{process_ex-Kept, process_sh-Kept}
use snipersimcommon.Msi.Kept.Upgrade.{process_upgrade-Kept}
use snipersimcommon.Msi.Kept.Next.{process_next-Serves}
use snipersimcommon.Msi.Kept.Replies.{process_dram_reply-Kept, process_inv_rep-Kept}
use snipersimcommon.Msi.Kept.Flushes.{process_flush_rep-Kept, process_wb_rep-Kept}

-- What a message asks an answer for.
unfoldable pub asked : ShmemMsg → ℕ → ℕ → ℕ
unfolding one_if
asked msg core x = one_if (is_request msg.msg_type && msg.requester == core && msg.address == x)

-- From `s` to `t` by a message: `t` is sound, no queue of another address that is in use changes, and what the
-- message asks is added to the accounts.
pub record Handled (msg : ShmemMsg) (s t : State) : Type 0 where
  pub sound : Sound t
  pub frame : (x : ℕ) → x ≢ msg.address → s.queues x ≢ [] → t.queues x ≡ s.queues x
  pub even : (core x : ℕ) → account t core x ≡ account s core x + asked msg core x

Kept-Handled :
    (msg : ShmemMsg) {s t : State}
    → is_request msg.msg_type ≡ false
    → Kept msg.address nothing_paid s t
    → Handled msg s t
unfolding asked
Kept-Handled msg reply k = record {
  sound = k.sound;
  frame = k.frame;
  even = λ core x. rw reply (omega (arith, k.even core x));
}

Quiet-Handled : (msg : ShmemMsg) {s t u : State} → Quiet s t → Handled msg t u → Handled msg s u
Quiet-Handled msg {s} {t} q h = record {
  sound = h.sound;
  frame = λ x other busy.
      let same : t.queues x ≡ s.queues x = ap (λ q. q x) q.queues in
      h.frame x other (λ idle. busy (sym same ∙ idle)) ∙ same;
  even = λ core x. omega (arith, h.even core x, (Kept-of_Quiet msg.address q).even core x);
}

create_req_lem : (msg : ShmemMsg) → Ensures (λ r. r.shmem_msg ≡ msg) (create_req msg)
unfolding create_req
create_req_lem msg = Ensures-check (λ _. returns refl)

-- With one request in the queue after it was put there, the queue was empty.
alone :
    (reqs : List ShmemReq) (req : ShmemReq) → (length (reqs ++ (req ∷ [])) == 1) ≡ true → reqs ≡ []
alone [] req e = refl
alone (r ∷ []) req e = absurd (ground arith)
alone (r ∷ (q ∷ reqs)) req e = absurd (ground arith)

due-asked :
    (msg : ShmemMsg) (req : ShmemReq) (core x : ℕ)
    → req.shmem_msg ≡ msg
    → due core x req ≡ asked msg core x
unfolding due asked
due-asked msg req core x same =
    ap (λ (m : ShmemMsg). one_if (is_request m.msg_type && m.requester == core && m.address == x))
      same

start-Handled :
    {n : ℕ} {s : State} (process : ShmemReq → State → Run State) (msg : ShmemMsg)
    → ((t : State) (req : ShmemReq)
        → Front n t req
        → req.shmem_msg ≡ msg
        → Ensures (Kept (address req) nothing_paid t) (process req t))
    → Sound s
    → length (s.queues msg.address) < n
    → Ensures (Handled msg s) (start process s msg)
unfolding start enqueue
start-Handled {n} {s} process msg processed v short = Ensures-bind (create_req_lem msg) (λ req same.
    let x = msg.address in
    let t = enqueue s x req in
    let here = ap (λ (m : ShmemMsg). m.address) same in
    let (sound, accounts) = enqueue_lem {s = s} x req v here in
    let there = put_queue_at s x (s.queues x ++ (req ∷ [])) in
    let frame = put_queue_other s x (s.queues x ++ (req ∷ [])) in
    elim (Bool-cases (size t x == 1)) [
      | inl one ↦
          let empty = alone (s.queues x) req (subst (λ l. (length l == 1) ≡ true) there one) in
          let f : Front n t req = record {
            sound = sound;
            reqs = [];
            queue = ap t.queues here ∙ there ∙ ap (λ (l : List ShmemReq). l ++ (req ∷ [])) empty;
            short = omega arith;
          } in
          rw one (
            Ensures-map (processed t req f same) (λ u k. record {
              sound = k.sound;
              frame = λ y other busy.
                  k.frame y (λ e. other (e ∙ here)) (λ idle. busy (sym (frame y other) ∙ idle))
                  ∙ frame y other;
              even = λ core y.
                  omega (arith, accounts core y, due-asked msg req core y same, k.even core y);
            }))
      | inr more ↦ rw more (
          returns (record {
            sound = sound;
            frame = λ y other busy. frame y other;
            even = λ core y. omega (arith, accounts core y, due-asked msg req core y same);
          }))
    ])

handle-Handled :
    (p : Setup) {n : ℕ} {next : Next} {s : State}
    → Serves n next
    → Sound s
    → (sender : ℕ) (msg : ShmemMsg) → length (s.queues msg.address) < n
    → (t : MsgType) → msg.msg_type ≡ t
    → Ensures (Handled msg s) (handle p next s sender msg t)
unfolding handle
handle-Handled p {next = next} serves v sender msg short ex_req e =
    start-Handled (λ req t. process_ex p next t req none) msg
      (λ t req f same.
        process_ex-Kept p serves f
          (ap (λ (m : ShmemMsg). is_request m.msg_type) same ∙ ap is_request e) none)
      v short
handle-Handled p {next = next} serves v sender msg short sh_req e =
    start-Handled (λ req t. process_sh p next t req none) msg
      (λ t req f same.
        process_sh-Kept p serves f
          (ap (λ (m : ShmemMsg). is_request m.msg_type) same ∙ ap is_request e) none)
      v short
handle-Handled p {next = next} serves v sender msg short upgrade_req e =
    start-Handled (λ req t. process_upgrade p next t req none) msg
      (λ t req f same.
        process_upgrade-Kept p serves f
          (ap (λ (m : ShmemMsg). is_request m.msg_type) same ∙ ap is_request e) none)
      v short
handle-Handled p serves v sender msg short inv_rep e =
    Ensures-map (process_inv_rep-Kept p serves v sender msg (omega arith))
      (λ t k. Kept-Handled msg (ap is_request e) k)
handle-Handled p serves v sender msg short flush_rep e =
    Ensures-map (process_flush_rep-Kept p serves v sender msg (omega arith))
      (λ t k. Kept-Handled msg (ap is_request e) k)
handle-Handled p serves v sender msg short wb_rep e =
    Ensures-map (process_wb_rep-Kept p serves v sender msg (omega arith))
      (λ t k. Kept-Handled msg (ap is_request e) k)
handle-Handled p serves v sender msg short _ e = aborts

-- If the entries of a directory are coherent and every request waits in the queue of its own address, then
-- a message of a cache, with more fuel than there are requests in the queue of its address, does not
-- spend the fuel. If it does not abort, the entries are coherent again and the requests where they belong, no
-- queue of another address that is in use changes, and for each core and address the answers that were
-- sent and the requests that wait are together one more than before for the request that
-- the message is, and as many as before for all else: no request is lost, and none is answered twice.
pub handle_msg_from_l2_cache-Handled :
    (p : Setup) (fuel : ℕ) (s : State) (sender : ℕ) (msg : ShmemMsg)
    → Sound s
    → length (s.queues msg.address) < fuel
    → Ensures (Handled msg s) (handle_msg_from_l2_cache p fuel s sender msg)
unfolding handle_msg_from_l2_cache
handle_msg_from_l2_cache-Handled p fuel s sender msg v short =
    Ensures-bind (get_directory_entry-SoundCache p.directory v.cache msg.address) (λ found w.
      let q = cache-Quiet found.0 v w in
      Ensures-map
        (handle-Handled p (process_next-Serves p fuel) q.sound sender msg short msg.msg_type refl)
        (λ t h. Quiet-Handled msg q h))

handle_dram-Kept :
    (p : Setup) {n : ℕ} {next : Next} {s : State}
    → Serves n next
    → Sound s
    → (msg : ShmemMsg) → length (s.queues msg.address) ≤ n
    → (t : MsgType) → Ensures (Kept msg.address nothing_paid s) (handle_dram p next s msg t)
unfolding handle_dram
handle_dram-Kept p serves v msg short dram_read_rep = process_dram_reply-Kept p serves v msg short
handle_dram-Kept p serves v msg short _ = aborts

-- Under the same conditions, and with as much fuel as there are requests in the queue of its address, a message of DRAM does
-- not spend the fuel. If it does not abort, the entries are coherent again, the requests where they belong, no queue of another
-- address that is in use changes, and the answers and the requests that wait are together as many as
-- before, for each core and address.
pub handle_msg_from_dram-Kept :
    (p : Setup) (fuel : ℕ) (s : State) (msg : ShmemMsg)
    → Sound s
    → length (s.queues msg.address) ≤ fuel
    → Ensures (Kept msg.address nothing_paid s) (handle_msg_from_dram p fuel s msg)
unfolding handle_msg_from_dram
handle_msg_from_dram-Kept p fuel s msg v short =
    handle_dram-Kept p (process_next-Serves p fuel) v msg short msg.msg_type
