-- ===== src/Msi/Kept/Upgrade.antt =====
-- `processUpgradeReqFromL2Cache` and `processNextReqFromL2Cache` of
-- core/memory_subsystem/pr_l1_pr_l2_dram_directory_msi/dram_directory_cntlr.cc: with as much fuel as the queue is
-- long, every request that the next one lets go on is served.
use snipersimcommon.Base.{
  ℕ, ◌+◌, ◌≡◌, refl, sym, ap, ◌∙◌, Bool, true, false, not, ◌&&◌, Option, none, some, List, [], ◌∷◌,
  length, get_elem?, get_or, ◌==◌, if◌then◌else◌, Bool-cases, inl, inr, arith,
}
use snipersimcommon.Directory.Entry.{
  Entry, DState, uncached, shared, owned, modified, exclusive, get_num_sharers, has_sharer,
  get_sharers_list, set_d_state,
}
use snipersimcommon.Directory.Sharers.{get_sharers_list_lem}
use snipersimcommon.Run.{
  Ensures, returns, aborts, Ensures-bind, Ensures-map, Ensures-from, Ensures-check,
}
use snipersimcommon.Msi.Message.{
  MsgType, ShmemReq, ex_rep, upgrade_rep, flush_req, inv_req, l2_cache,
}
use snipersimcommon.Msi.Slots.{Slot, Place}
use snipersimcommon.Msi.State.{Setup, State}
use snipersimcommon.Msi.Requests.{
  Next, requester, address, grant, send_others, upgrade_owned, upgrade_shared, upgrade_in,
  process_upgrade, first_data,
}
use snipersimcommon.Msi.Coherent.{
  Coherent, CoherentSlot, at_state, set_owner_lem, modified-Coherent,
}
use snipersimcommon.Msi.Kept.Account.{
  is_answer, is_request, Sound, Kept, nothing_paid, Quiet, Quiet-refl, Quiet-Kept, Quiet-trans,
  Kept-trans, Kept-of_Quiet, send_msg-Quiet,
}
use snipersimcommon.Msi.Kept.Serving.{Serves, Front, Front-Quiet, answered-Kept, update_entry-Quiet}
use snipersimcommon.Msi.Kept.Allocation.{entry_for-Kept}
use snipersimcommon.Msi.Kept.Requests.{given_modified, owned_Coherent, give-Kept}

grant-Kept :
    {n : ℕ} {next : Next} {s : State} {req : ShmemReq}
    → Serves n next
    → Front n s req
    → is_request req.shmem_msg.msg_type ≡ true
    → (place : Place) (slot : Slot) (e : Entry) → Coherent (set_d_state e modified)
    → Ensures (Kept (address req) nothing_paid s) (grant next req s place slot e)
unfolding grant
grant-Kept serves f request place slot e c =
    let q = update_entry-Quiet f.sound place slot _ c in
    Ensures-map (answered-Kept serves (Front-Quiet f q) request upgrade_rep none refl)
      (λ t k. Quiet-Kept q k)

send_others-Quiet :
    (req : ShmemReq) (has_copy : Bool) (i : ℕ) (ids : List ℕ) {s : State}
    → Sound s
    → Quiet s (send_others req has_copy i ids s)
unfolding send_others
send_others-Quiet req has_copy i [] v = Quiet-refl v
send_others-Quiet req has_copy i (id ∷ ids) {s} v = elim (Bool-cases (id == requester req)) [
  | inl same ↦ rw same (send_others-Quiet req has_copy (i + 1) ids v)
  | inr other ↦
      let msg_type : MsgType = if not has_copy && i == 0 then flush_req else inv_req in
      let asks : is_answer msg_type ≡ false = ground arith in
      let q = send_msg-Quiet msg_type l2_cache (requester req) id (address req) none asks v in
      rw other (Quiet-trans q (send_others-Quiet req has_copy (i + 1) ids q.sound))
]

-- A line that one core holds.
abbrev Held : Entry → Type 0
Held e = (get_num_sharers e ≡ 1) × (has_sharer e e.owner ≡ some true)

upgrade_owned-Kept :
    {n : ℕ} {next : Next} {s : State} {req : ShmemReq}
    → Serves n next
    → Front n s req
    → is_request req.shmem_msg.msg_type ≡ true
    → (place : Place) (slot : Slot) → Held slot.entry
    → Ensures (Kept (address req) nothing_paid s) (upgrade_owned next req s place slot)
unfolding upgrade_owned
upgrade_owned-Kept {req = req} serves f request place slot held =
    Ensures-bind (Ensures-from _) (λ holder _. elim (Bool-cases (holder == requester req)) [
      | inl same ↦ rw same (
          Ensures-check (λ _.
            grant-Kept serves f request place slot slot.entry
              (modified-Coherent slot.entry held.0 held.1)))
      | inr other ↦
          rw other (returns (Kept-of_Quiet _ (send_msg-Quiet flush_req _ _ _ _ _ refl f.sound)))
    ])

only : (xs : List ℕ) (x : ℕ) → length xs ≡ 1 → get_or xs 0 0 ≡ x → get_elem? xs 0 ≡ some x
only [] x one e = absurd (omega arith)
only (y ∷ ys) x one e = ap some e

-- The only sharer is the requester.
only_sharer :
    (e : Entry) (core : ℕ)
    → (length (get_sharers_list e) == 1 && get_or (get_sharers_list e) 0 0 == core) ≡ true
    → (get_num_sharers e ≡ 1) × (has_sharer e core ≡ some true)
only_sharer e core test =
    let (count, sound, _) = get_sharers_list_lem e in
    let one : length (get_sharers_list e) ≡ 1 = ground arith in
    let first : get_or (get_sharers_list e) 0 0 ≡ core = ground arith in
    (sym count ∙ one, sound 0 core (only (get_sharers_list e) core one first))

upgrade_shared-Kept :
    {n : ℕ} {next : Next} {s : State} {req : ShmemReq}
    → Serves n next
    → Front n s req
    → is_request req.shmem_msg.msg_type ≡ true
    → (place : Place) (slot : Slot)
    → Ensures
        (Kept (address req) nothing_paid s)
        (upgrade_shared next req s place slot (get_sharers_list slot.entry))
unfolding upgrade_shared
upgrade_shared-Kept {req = req} serves f request place slot =
    let sharers = get_sharers_list slot.entry in
    elim (Bool-cases (length sharers == 1 && get_or sharers 0 0 == requester req)) [
      | inl alone ↦ rw alone (
          Ensures-bind (set_owner_lem slot.entry (requester req)) (λ e same.
            let (one, there) = only_sharer slot.entry (requester req) alone in
            grant-Kept serves f request place slot e
              (owned_Coherent slot.entry e (requester req) given_modified one there same)))
      | inr more ↦ rw more (
          Ensures-bind (Ensures-from _) (λ has_copy _.
            returns (Kept-of_Quiet _ (send_others-Quiet req has_copy 0 sharers f.sound))))
    ]

upgrade_in-Kept :
    (p : Setup) {n : ℕ} {next : Next} {s : State} {req : ShmemReq}
    → Serves n next
    → Front n s req
    → is_request req.shmem_msg.msg_type ≡ true
    → (cached : Option ℕ) (place : Place) (slot : Slot) → CoherentSlot slot
    → (d : DState) → slot.entry.dstate ≡ d
    → Ensures (Kept (address req) nothing_paid s) (upgrade_in p next req cached s place slot d)
unfolding upgrade_in
upgrade_in-Kept p serves f request cached place slot c exclusive e =
    upgrade_owned-Kept serves f request place slot (at_state slot.entry e c)
upgrade_in-Kept p serves f request cached place slot c modified e =
    upgrade_owned-Kept serves f request place slot (at_state slot.entry e c)
upgrade_in-Kept p serves f request cached place slot c shared e =
    upgrade_shared-Kept serves f request place slot
upgrade_in-Kept p {req = req} serves f request cached place slot c uncached e = Ensures-check (λ _.
    give-Kept p serves f request (first_data cached req.shmem_msg.data_buf) place slot
      (at_state slot.entry e c) given_modified ex_rep refl)
upgrade_in-Kept p serves f request cached place slot c owned e = aborts

pub process_upgrade-Kept :
    (p : Setup) {n : ℕ} {next : Next} {s : State} {req : ShmemReq}
    → Serves n next
    → Front n s req
    → is_request req.shmem_msg.msg_type ≡ true
    → (cached : Option ℕ)
    → Ensures (Kept (address req) nothing_paid s) (process_upgrade p next s req cached)
unfolding process_upgrade
process_upgrade-Kept p serves f request cached =
    Ensures-bind (entry_for-Kept p serves f) (λ found a.
      Ensures-map (upgrade_in-Kept p serves a.1 request cached found.1 found.2 a.2 _ refl)
        (λ t k. Kept-trans a.0 k))
