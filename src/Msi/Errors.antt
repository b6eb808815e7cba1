-- ===== src/Msi/Errors.antt =====
-- The messages that stop the simulator, in
-- core/memory_subsystem/pr_l1_pr_l2_dram_directory_msi/dram_directory_cntlr.cc.
use snipersimcommon.Base.{
  ℕ, ◌≡◌, ◌≢◌, inl, inr, refl, ◌∙◌, Bool, true, false, some, [], get_elem?, Option-cases, arith,
}
use snipersimcommon.Directory.Entry.{Entry, has_sharer, remove_sharer}
use snipersimcommon.Run.{Run, abort, check, from, ◌>>=◌, ◌>>◌}
use snipersimcommon.Msi.Message.{
  MsgType, ShmemMsg, ex_req, sh_req, upgrade_req, inv_rep, flush_rep, wb_rep, dram_read_rep,
}
use snipersimcommon.Msi.Slots.{Slot}
use snipersimcommon.Msi.State.{Setup, State}
use snipersimcommon.Msi.Requests.{Next, process_next}
use snipersimcommon.Msi.Replies.{
  handle, handle_msg_from_l2_cache, handle_dram, handle_msg_from_dram, process_dram_reply,
  process_inv_rep, process_flush_rep, process_wb_rep, is_clean,
}
use snipersimcommon.Msi.Lookup.{Resides, existing-Resides}
use snipersimcommon.Msi.Transactions.{found_first}

-- The replies of the caches.
abbrev pub is_cache_reply : MsgType → Bool
is_cache_reply inv_rep = true
is_cache_reply flush_rep = true
is_cache_reply wb_rep = true
is_cache_reply _ = false

check_out : {A : Type 0} (b : Bool) {m : Run A} → m ≡ abort → (check b >> m) ≡ abort
unfolding check ◌>>◌ ◌>>=◌
check_out true e = e
check_out false e = refl

no_sharer-remove :
    (e : Entry) (core : ℕ)
    → has_sharer e core ≢ some true
    → from (remove_sharer e core false) ≡ abort
unfolding from remove_sharer has_sharer
no_sharer-remove e core other = elim (Option-cases (get_elem? e.sharers core)) [
  | inl out ↦ rw out refl
  | inr (false, there) ↦ rw there refl
  | inr (true, there) ↦ absurd (other there)
]

no_sharer-check :
    {A : Type 0} (e : Entry) (core : ℕ) (m : Run A)
    → has_sharer e core ≢ some true
    → (from (has_sharer e core) >>= λ there. check there >> m) ≡ abort
unfolding from check ◌>>=◌ ◌>>◌
no_sharer-check e core m other = elim (Option-cases (has_sharer e core)) [
  | inl out ↦ rw out refl
  | inr (false, there) ↦ rw there refl
  | inr (true, there) ↦ absurd (other there)
]

refused :
    (p : Setup) (next : Next) (s : State) (sender : ℕ) (msg : ShmemMsg) {i : ℕ} {slot : Slot}
    → Resides p.directory s.cache msg.address i slot
    → has_sharer slot.entry sender ≢ some true
    → (t : MsgType) → is_cache_reply t ≡ true
    → handle p next s sender msg t ≡ abort
unfolding handle process_inv_rep process_flush_rep process_wb_rep ◌>>=◌
refused p next s sender msg {slot = slot} r other inv_rep e =
    rw (existing-Resides p s r)
      (check_out (is_clean slot.entry.dstate) (rw (no_sharer-remove slot.entry sender other) refl))
refused p next s sender msg {slot = slot} r other flush_rep e =
    rw (existing-Resides p s r) (no_sharer-check slot.entry sender _ other)
refused p next s sender msg {slot = slot} r other wb_rep e =
    rw (existing-Resides p s r) (no_sharer-check slot.entry sender _ other)
refused p next s sender msg r other _ e = absurd (ground arith)

-- If a line is in the directory, an INV_REP, FLUSH_REP or WB_REP for it from a core that the directory does not
-- have as a sharer aborts, in every state and whatever waits.
pub reply_refused :
    (p : Setup) (fuel : ℕ) (s : State) (sender : ℕ) (msg : ShmemMsg) (i : ℕ) (slot : Slot)
    → Resides p.directory s.cache msg.address i slot
    → is_cache_reply msg.msg_type ≡ true
    → has_sharer slot.entry sender ≢ some true
    → handle_msg_from_l2_cache p fuel s sender msg ≡ abort
reply_refused p fuel s sender msg i slot r reply other =
    found_first p fuel s sender msg r
    ∙ refused p (process_next p fuel) s sender msg r other msg.msg_type reply

-- The messages that the controller knows.
abbrev pub from_cache_known : MsgType → Bool
from_cache_known ex_req = true
from_cache_known sh_req = true
from_cache_known upgrade_req = true
from_cache_known inv_rep = true
from_cache_known flush_rep = true
from_cache_known wb_rep = true
from_cache_known _ = false

unknown_aborts :
    (p : Setup) (next : Next) (s : State) (sender : ℕ) (msg : ShmemMsg) (t : MsgType)
    → from_cache_known t ≡ false
    → handle p next s sender msg t ≡ abort
unfolding handle
unknown_aborts p next s sender msg ex_req e = absurd (ground arith)
unknown_aborts p next s sender msg sh_req e = absurd (ground arith)
unknown_aborts p next s sender msg upgrade_req e = absurd (ground arith)
unknown_aborts p next s sender msg inv_rep e = absurd (ground arith)
unknown_aborts p next s sender msg flush_rep e = absurd (ground arith)
unknown_aborts p next s sender msg wb_rep e = absurd (ground arith)
unknown_aborts p next s sender msg _ e = refl

-- Nothing waits for the data.
dram_idle :
    (p : Setup) (next : Next) (s : State) (msg : ShmemMsg) (t : MsgType)
    → s.queues msg.address ≡ []
    → handle_dram p next s msg t ≡ abort
unfolding handle_dram process_dram_reply check ◌>>◌ ◌>>=◌
dram_idle p next s msg dram_read_rep idle = rw idle refl
dram_idle p next s msg _ idle = refl

-- Data from DRAM for an address whose queue is empty aborts.
pub data_refused :
    (p : Setup) (fuel : ℕ) (s : State) (msg : ShmemMsg)
    → s.queues msg.address ≡ []
    → handle_msg_from_dram p fuel s msg ≡ abort
unfolding handle_msg_from_dram
data_refused p fuel s msg idle = dram_idle p (process_next p fuel) s msg msg.msg_type idle

-- For a line that is in the directory, a message of a cache that is neither a request nor a reply of a
-- cache aborts.
pub unknown_refused :
    (p : Setup) (fuel : ℕ) (s : State) (sender : ℕ) (msg : ShmemMsg) (i : ℕ) (slot : Slot)
    → Resides p.directory s.cache msg.address i slot
    → from_cache_known msg.msg_type ≡ false
    → handle_msg_from_l2_cache p fuel s sender msg ≡ abort
unknown_refused p fuel s sender msg i slot r unknown =
    found_first p fuel s sender msg r
    ∙ unknown_aborts p (process_next p fuel) s sender msg msg.msg_type unknown
