-- ===== src/Msi/Kept/Requests.antt =====
-- `processExReqFromL2Cache` and `processShReqFromL2Cache` of
-- core/memory_subsystem/pr_l1_pr_l2_dram_directory_msi/dram_directory_cntlr.cc, on the request at the front.
use snipersimcommon.Base.{ℕ, ◌≡◌, refl, sym, subst, ◌∙◌, Bool, true, false, Option, some, arith}
use snipersimcommon.Directory.Entry.{
  Entry, DState, uncached, shared, owned, modified, exclusive, get_num_sharers, has_sharer,
  get_sharers_list, set_d_state,
}
use snipersimcommon.Run.{
  Ensures, returns, aborts, Ensures-bind, Ensures-map, Ensures-from, Ensures-check, ◌>>=◌,
}
use snipersimcommon.Msi.Message.{
  MsgType, ShmemReq, ex_rep, sh_rep, flush_req, wb_req, inv_req, Protocol, msi, mesi, mesif,
}
use snipersimcommon.Msi.Slots.{Slot, Place}
use snipersimcommon.Msi.State.{Setup, State}
use snipersimcommon.Msi.Requests.{
  Next, requester, address, give, ex_in, process_ex, count_forward, sh_added, sh_shared,
  sh_uncached, sh_in, process_sh, retrieve,
}
use snipersimcommon.Msi.Coherent.{
  Coherent, CoherentSlot, CoherentIn, AddedOr, Grown, at_state, add_sharer_lem, get_one_sharer_lem,
  set_owner_lem, Grown-Coherent,
}
use snipersimcommon.Msi.Kept.Cache.{write-SoundCache}
use snipersimcommon.Msi.Kept.Account.{
  is_answer, is_request, Sound, Kept, nothing_paid, Quiet, Quiet-Kept, Quiet-trans, Kept-trans,
  Kept-of_Quiet, cache-Quiet, send_msg-Quiet,
}
use snipersimcommon.Msi.Kept.Serving.{
  Serves, Front, Front-Quiet, update_entry-Quiet, send_inv-Quiet, retrieve-Kept,
}
use snipersimcommon.Msi.Kept.Allocation.{entry_for-Kept}

-- The states that a line without sharers may be given in.
pub data Given : DState → Type 0 where
  given_shared : Given shared
  given_modified : Given modified
  given_exclusive : Given exclusive

first_sharer_lem :
    {d : DState} → Given d → (n : ℕ) (b : Option Bool) → n ≡ 1 → b ≡ some true → CoherentIn d n b
first_sharer_lem given_shared n b one there = omega arith
first_sharer_lem given_modified n b one there = (one, there)
first_sharer_lem given_exclusive n b one there = (one, there)

pub owned_Coherent :
    (e r : Entry) (core : ℕ) {d : DState}
    → Given d
    → get_num_sharers e ≡ 1
    → has_sharer e core ≡ some true
    → record e { owner = core } ≡ r
    → Coherent (set_d_state r d)
unfolding set_d_state get_num_sharers has_sharer
owned_Coherent e r core {d} given one there same =
    subst (λ z. Coherent (set_d_state z d)) same (first_sharer_lem given _ _ one there)

pub give-Quiet :
    (p : Setup) {s : State} (place : Place) (slot : Slot) (core : ℕ) {d : DState}
    → Sound s
    → Given d
    → get_num_sharers slot.entry ≡ 0
    → Ensures (Quiet s) (give p s place slot core d)
unfolding give
give-Quiet p place slot core v given empty =
    Ensures-bind (add_sharer_lem p.directory slot core) (λ added a. Ensures-check (λ success.
      Ensures-bind (set_owner_lem added.0.entry core) (λ e same.
        let g : Grown slot.entry added.0.entry core =
          subst (λ b. AddedOr slot.entry core added.0.entry b) success a in
        returns (
          update_entry-Quiet v place added.0 _
            (owned_Coherent added.0.entry e core given (omega (arith, g.more)) g.there same)))))

ex_in-Kept :
    (p : Setup) {n : ℕ} {next : Next} {s : State} {req : ShmemReq}
    → Serves n next
    → Front n s req
    → is_request req.shmem_msg.msg_type ≡ true
    → (cached : Option ℕ) (place : Place) (slot : Slot) → CoherentSlot slot
    → (d : DState) → slot.entry.dstate ≡ d
    → Ensures (Kept (address req) nothing_paid s) (ex_in p next req cached s place slot d)
unfolding ex_in
ex_in-Kept p {req = req} serves f request cached place slot c exclusive e =
    Ensures-check (λ _. returns (Kept-of_Quiet _ (send_msg-Quiet flush_req _ _ _ _ _ refl f.sound)))
ex_in-Kept p {req = req} serves f request cached place slot c modified e =
    Ensures-check (λ _. returns (Kept-of_Quiet _ (send_msg-Quiet flush_req _ _ _ _ _ refl f.sound)))
ex_in-Kept p {req = req} serves f request cached place slot c shared e = Ensures-check (λ _.
    returns (
      Kept-of_Quiet _
        (send_inv-Quiet (requester req) (address req) (get_sharers_list slot.entry) f.sound)))
ex_in-Kept p {req = req} serves f request cached place slot c uncached e =
    Ensures-bind
      (give-Quiet p place slot (requester req) f.sound given_modified (at_state slot.entry e c))
      (λ t q.
        Ensures-map (retrieve-Kept p serves (Front-Quiet f q) request ex_rep refl cached)
          (λ u k. Quiet-Kept q k))
ex_in-Kept p serves f request cached place slot c owned e = aborts

pub process_ex-Kept :
    (p : Setup) {n : ℕ} {next : Next} {s : State} {req : ShmemReq}
    → Serves n next
    → Front n s req
    → is_request req.shmem_msg.msg_type ≡ true
    → (cached : Option ℕ)
    → Ensures (Kept (address req) nothing_paid s) (process_ex p next s req cached)
unfolding process_ex
process_ex-Kept p serves f request cached = Ensures-bind (entry_for-Kept p serves f) (λ found a.
    Ensures-map (ex_in-Kept p serves a.1 request cached found.1 found.2 a.2 _ refl)
      (λ t k. Kept-trans a.0 k))

count_forward-Quiet : (cached : Option ℕ) {s : State} → Sound s → Quiet s (count_forward cached s)
count_forward-Quiet cached v = record {
  sound = record { cache = v.cache; queued = v.queued };
  queues = refl;
  answered = λ core x. refl;
}

sh_added-Kept :
    (p : Setup) {n : ℕ} {next : Next} {s : State} {req : ShmemReq}
    → Serves n next
    → Front n s req
    → is_request req.shmem_msg.msg_type ≡ true
    → (cached : Option ℕ) (place : Place) (slot : Slot) → CoherentSlot slot
    → slot.entry.dstate ≡ shared
    → (added : Slot × Bool) → AddedOr slot.entry (requester req) added.0.entry added.1
    → Ensures (Kept (address req) nothing_paid s) (sh_added p next req cached s place added)
unfolding sh_added
sh_added-Kept p {req = req} serves f request cached place slot c e (new, true) g =
    let q =
      cache-Quiet _ f.sound
        (write-SoundCache f.sound.cache place new (Grown-Coherent slot.entry new.entry _ e g)) in
    Ensures-map (retrieve-Kept p serves (Front-Quiet f q) request sh_rep refl cached)
      (λ u k. Quiet-Kept q k)
sh_added-Kept p {req = req} serves f request cached place slot c e (new, false) same =
    Ensures-bind (get_one_sharer_lem p.directory new) (λ chosen kept.
      let q =
        cache-Quiet _ f.sound
          (write-SoundCache f.sound.cache place chosen.0 (subst Coherent (sym (kept ∙ same)) c)) in
      returns (Kept-of_Quiet _ (Quiet-trans q (send_msg-Quiet inv_req _ _ _ _ _ refl q.sound))))

sh_shared-Kept :
    (p : Setup) {n : ℕ} {next : Next} {s : State} {req : ShmemReq}
    → Serves n next
    → Front n s req
    → is_request req.shmem_msg.msg_type ≡ true
    → (cached : Option ℕ) (place : Place) (slot : Slot) → CoherentSlot slot
    → slot.entry.dstate ≡ shared
    → (there : Bool)
    → Ensures (Kept (address req) nothing_paid s) (sh_shared p next req cached s place slot there)
unfolding sh_shared
sh_shared-Kept p serves f request cached place slot c e true =
    let q = count_forward-Quiet cached f.sound in
    Ensures-map (retrieve-Kept p serves (Front-Quiet f q) request sh_rep refl cached)
      (λ u k. Quiet-Kept q k)
sh_shared-Kept p {req = req} serves f request cached place slot c e false =
    Ensures-bind (add_sharer_lem p.directory slot (requester req))
      (λ added g. sh_added-Kept p serves f request cached place slot c e added g)

pub give-Kept :
    (p : Setup) {n : ℕ} {next : Next} {s : State} {req : ShmemReq}
    → Serves n next
    → Front n s req
    → is_request req.shmem_msg.msg_type ≡ true
    → (cached : Option ℕ) (place : Place) (slot : Slot) → get_num_sharers slot.entry ≡ 0
    → {d : DState} → Given d
    → (msg_type : MsgType) → is_answer msg_type ≡ true
    → Ensures (Kept (address req) nothing_paid s) (
        give p s place slot (requester req) d
        >>= retrieve p next msg_type (requester req) (address req) cached)
give-Kept p {req = req} serves f request cached place slot empty given msg_type answer =
    Ensures-bind (give-Quiet p place slot (requester req) f.sound given empty) (λ t q.
      Ensures-map (retrieve-Kept p serves (Front-Quiet f q) request msg_type answer cached)
        (λ u k. Quiet-Kept q k))

sh_uncached-Kept :
    (p : Setup) {n : ℕ} {next : Next} {s : State} {req : ShmemReq}
    → Serves n next
    → Front n s req
    → is_request req.shmem_msg.msg_type ≡ true
    → (cached : Option ℕ) (place : Place) (slot : Slot) → get_num_sharers slot.entry ≡ 0
    → (protocol : Protocol)
    → Ensures
        (Kept (address req) nothing_paid s)
        (sh_uncached p next req cached s place slot protocol)
unfolding sh_uncached
sh_uncached-Kept p serves f request cached place slot empty msi =
    give-Kept p serves f request cached place slot empty given_shared sh_rep refl
sh_uncached-Kept p serves f request cached place slot empty mesi =
    give-Kept p serves f request cached place slot empty given_exclusive ex_rep refl
sh_uncached-Kept p serves f request cached place slot empty mesif =
    give-Kept p serves f request cached place slot empty given_exclusive ex_rep refl

sh_in-Kept :
    (p : Setup) {n : ℕ} {next : Next} {s : State} {req : ShmemReq}
    → Serves n next
    → Front n s req
    → is_request req.shmem_msg.msg_type ≡ true
    → (cached : Option ℕ) (place : Place) (slot : Slot) → CoherentSlot slot
    → (d : DState) → slot.entry.dstate ≡ d
    → Ensures (Kept (address req) nothing_paid s) (sh_in p next req cached s place slot d)
unfolding sh_in
sh_in-Kept p serves f request cached place slot c exclusive e = Ensures-check (λ _.
    Ensures-check (λ _. returns (Kept-of_Quiet _ (send_msg-Quiet wb_req _ _ _ _ _ refl f.sound))))
sh_in-Kept p serves f request cached place slot c modified e =
    Ensures-check (λ _. returns (Kept-of_Quiet _ (send_msg-Quiet wb_req _ _ _ _ _ refl f.sound)))
sh_in-Kept p serves f request cached place slot c shared e =
    Ensures-bind (Ensures-from _)
      (λ there _. sh_shared-Kept p serves f request cached place slot c e there)
sh_in-Kept p serves f request cached place slot c uncached e =
    sh_uncached-Kept p serves f request cached place slot (at_state slot.entry e c) p.protocol
sh_in-Kept p serves f request cached place slot c owned e = aborts

pub process_sh-Kept :
    (p : Setup) {n : ℕ} {next : Next} {s : State} {req : ShmemReq}
    → Serves n next
    → Front n s req
    → is_request req.shmem_msg.msg_type ≡ true
    → (cached : Option ℕ)
    → Ensures (Kept (address req) nothing_paid s) (process_sh p next s req cached)
unfolding process_sh
process_sh-Kept p serves f request cached = Ensures-bind (entry_for-Kept p serves f) (λ found a.
    Ensures-map (sh_in-Kept p serves a.1 request cached found.1 found.2 a.2 _ refl)
      (λ t k. Kept-trans a.0 k))
